-- ===== src/Compaction/Tail.antt =====
-- swebench_eval/harnesses/compaction.py: where the kept tail of `compact_messages` begins.
pub mod Bounds
use agent_evals.Prelude.{
  ℕ, zero, suc, ◌+◌, ◌-◌, Bool, true, false, not, ◌&&◌, Option, none, some, List, ltb, ◌==◌,
  if◌then◌else◌, length, get_elem?, take, drop, min,
}
use agent_evals.Compaction.Message.{Message, is_tool, messages_chars}

-- `messages[a:b]`.
abbrev pub slice : ℕ → ℕ → List Message → List Message
slice a b ms = take (b - a) (drop a ms)

-- `messages[i].get("role") == "tool"`; the callers' indices are in range.
abbrev pub is_tool_at : List Message → ℕ → Bool
is_tool_at ms i = elim (get_elem? ms i) [ none ↦ false | some m ↦ is_tool m ]

-- `while i > keep_head and messages[i] is a tool result: i -= 1`.
unfoldable pub snap_back : ℕ → List Message → ℕ → ℕ
snap_back keep_head ms zero = zero
snap_back keep_head ms (suc i) =
    let rest = snap_back keep_head ms i in
    if ltb keep_head (suc i) && is_tool_at ms (suc i) then rest else suc i

pub record Walk : Type 0 where
  pub t : ℕ
  pub acc : ℕ

-- The group that ends at `w.t`, and the test that stops the walk before it.
abbrev pub next_of : ℕ → List Message → Walk → Walk
next_of keep_head ms w =
    let next = snap_back keep_head ms (w.t - 1) in
    record { t = next; acc = w.acc + messages_chars (slice next w.t ms) }

abbrev pub is_over : ℕ → ℕ → List Message → Walk → Bool
is_over keep_head budget ms w = not (w.acc == 0) && ltb budget (next_of keep_head ms w).acc

-- The walk back from the end by whole groups, while the budget lasts. Each round moves `t` back, so
-- `t` rounds are enough.
unfoldable pub walk_back : ℕ → ℕ → ℕ → List Message → Walk → Walk
walk_back zero keep_head budget ms w = w
walk_back (suc fuel) keep_head budget ms w = elim (ltb keep_head w.t) [
  | false ↦ w
  | true ↦ elim (is_over keep_head budget ms w) [
    | true ↦ w
    | false ↦ walk_back fuel keep_head budget ms (next_of keep_head ms w)
  ]
]

-- The index at which the tail begins, and `stats["tail_chars"]`.
unfoldable pub tail_start : ℕ → ℕ → Option ℕ → List Message → ℕ × Option ℕ
tail_start keep_head keep_tail none ms = (snap_back keep_head ms (length ms - keep_tail), none)
tail_start keep_head keep_tail (some budget) ms =
    let snapped = snap_back keep_head ms (length ms - keep_tail) in
    let w = walk_back (length ms) keep_head budget ms (record { t = length ms; acc = 0 }) in
    (if w.acc == 0 then min snapped w.t else w.t, some w.acc)
