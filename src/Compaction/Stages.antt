-- ===== src/Compaction/Stages.antt =====
-- swebench_eval/harnesses/compaction.py: `compact_messages`, stage by stage.
pub mod Shape
pub mod Size
pub mod Links
pub mod Groups
pub mod Orphans
mod Tests
use agent_evals.Prelude.{
  ℕ, zero, suc, ◌+◌, ◌-◌, ◌*◌, String, Bool, true, false, not, ◌&&◌, Option, none, some, List, [],
  ◌∷◌, ◌++◌, map, ltb, leb, ◌==◌, if◌then◌else◌, length, take, drop, is_some,
}
use agent_evals.Prelude.Int.{ℤ, pos, sub_ℕ}
use agent_evals.Compaction.Message.{
  Message, Extra, is_tool, is_assistant, body, content_len, messages_chars, find_orphans,
  stub_suffix,
}
use agent_evals.Compaction.Tail.{slice, tail_start}

pub record Options : Type 0 where
  pub keep_head : ℕ
  pub keep_tail : ℕ
  pub keep_tail_chars : Option ℕ
  pub keep_tool_head_chars : ℕ
  pub target_chars : Option ℕ
  pub tail_hard_cap_chars : Option ℕ
  -- `min_gain_ratio` in hundredths.
  pub min_gain_percent : ℕ

-- A key that the function does not set is `none`; `gain_ratio` is the gain, over `before_chars`.
pub record Stats : Type 0 where
  pub before_msgs : ℕ
  pub before_chars : ℕ
  pub stubbed : ℕ
  pub dropped_groups : ℕ
  pub stage2 : Bool
  pub tail_capped : ℕ
  pub exhausted : Bool
  pub tail_chars : Option ℕ
  pub tail_snapped : Option Bool
  pub after_msgs : ℕ
  pub after_chars : ℕ
  pub gain : ℤ
  pub made_progress : Option Bool

pub data Error : Type 0 where
  index_error : Error
  orphaned : List String → Error

pub data Result {ℓ} (A : Type ℓ) : Type ℓ where
  ok : A → Result A
  err : Error → Result A

abbrev mark : Option Extra → Option Extra
mark none = none
mark (some e) = some (record e { compacted = true })

-- The first `n` characters of a tool result, and the suffix.
pub cut : ℕ → ℕ → Message → Message
cut n elided m = record m {
  content = some (take n (body m) ++ stub_suffix elided);
  extra = mark m.extra;
}

-- Stage 1 on one message: only a tool result that gets smaller is cut.
pub is_stubbed : ℕ → Message → Bool
is_stubbed keep m =
    is_tool m && ltb (keep + length (stub_suffix (content_len m - keep))) (content_len m)

pub stub : ℕ → Message → Message
stub keep m = if is_stubbed keep m then cut keep (content_len m - keep) m else m

abbrev pub stub_all : ℕ → List Message → List Message
stub_all keep = map (stub keep)

-- How many messages a test picks.
pub count_of : (Message → Bool) → List Message → ℕ
count_of p [] = 0
count_of p (m ∷ ms) = (if p m then 1 else 0) + count_of p ms

-- `_turn_groups`; `group` is `groups[-1]`.
pub groups_from : List Message → List Message → List (List Message)
groups_from group [] = group ∷ []
groups_from group (m ∷ ms) = elim (is_assistant m) [
  | true ↦ group ∷ groups_from (m ∷ []) ms
  | false ↦ groups_from (group ++ m ∷ []) ms
]

pub turn_groups : List Message → List (List Message)
turn_groups [] = []
turn_groups (m ∷ ms) = groups_from (m ∷ []) ms

pub flat : List (List Message) → List Message
flat [] = []
flat (g ∷ gs) = g ++ flat gs

pub record Dropped : Type 0 where
  pub groups : List (List Message)
  pub count : ℕ

-- Stage 2: the oldest groups go, until the whole fits or no group is left.
pub drop_groups : List Message → List Message → ℕ → List (List Message) → ℕ → Dropped
drop_groups head tail target [] count = record { groups = []; count = count }
drop_groups head tail target (g ∷ gs) count =
    elim (ltb target (messages_chars (head ++ (flat (g ∷ gs) ++ tail)))) [
      | true ↦ drop_groups head tail target gs (count + 1)
      | false ↦ record { groups = g ∷ gs; count = count }
    ]

-- Stage 3 on one message of the tail.
pub is_capped : ℕ → Message → Bool
is_capped cap m = is_tool m && ltb cap (content_len m)

pub cap_one : ℕ → Message → Message
cap_one cap m = if is_capped cap m then cut cap (content_len m - cap) m else m

abbrev pub cap_all : ℕ → List Message → List Message
cap_all cap = map (cap_one cap)

-- What the stages pass on.
pub record Parts : Type 0 where
  pub middle : List Message
  pub tail : List Message
  pub dropped : ℕ
  pub capped : ℕ
  pub exhausted : Bool

pub stage3 : Options → List Message → ℕ → Parts → Parts
stage3 o head target p = elim o.tail_hard_cap_chars [
  | none ↦ p
  | some cap ↦
      if ltb target (messages_chars (head ++ (p.middle ++ p.tail)))
      then record p { tail = cap_all cap p.tail; capped = count_of (is_capped cap) p.tail }
      else p
]

-- Stages 2 and 3, on the pruned middle.
pub stage2 : List Message → List Message → ℕ → List Message → Parts
stage2 head tail target pruned =
    let d = drop_groups head tail target (turn_groups pruned) 0 in
    record {
      middle = flat d.groups;
      tail = tail;
      dropped = d.count;
      capped = 0;
      exhausted = elim d.groups [ [] ↦ true | g ∷ gs ↦ false ];
    }

pub shrink : Options → List Message → List Message → List Message → Parts
shrink o head pruned tail = elim o.target_chars [
  | none ↦ record { middle = pruned; tail = tail; dropped = 0; capped = 0; exhausted = false }
  | some target ↦ stage3 o head target (stage2 head tail target pruned)
]

-- The belt and braces: the list is handed out only if no tool result is orphaned.
pub checked : List Message → Stats → Result (List Message × Stats)
checked out stats = elim (find_orphans out).0 [
  | [] ↦ ok (out, stats)
  | id ∷ ids ↦ err (orphaned (id ∷ ids))
]

-- The index at which the tail begins, and the three parts of the list.
pub start_of : Options → List Message → ℕ × Option ℕ
start_of o ms = tail_start o.keep_head o.keep_tail o.keep_tail_chars ms

pub middle_of : Options → List Message → List Message
middle_of o ms = slice o.keep_head (start_of o ms).0 ms

pub parts_of : Options → List Message → Parts
parts_of o ms =
    shrink o (take o.keep_head ms) (stub_all o.keep_tool_head_chars (middle_of o ms))
      (drop (start_of o ms).0 ms)

pub out_of : Options → List Message → List Message
out_of o ms = take o.keep_head ms ++ ((parts_of o ms).middle ++ (parts_of o ms).tail)

pub stats_of : Options → List Message → Stats
stats_of o ms = record {
  before_msgs = length ms;
  before_chars = messages_chars ms;
  stubbed = count_of (is_stubbed o.keep_tool_head_chars) (middle_of o ms);
  dropped_groups = (parts_of o ms).dropped;
  stage2 = ltb 0 (parts_of o ms).dropped;
  tail_capped = (parts_of o ms).capped;
  exhausted = (parts_of o ms).exhausted;
  tail_chars = (start_of o ms).1;
  tail_snapped = some (not ((start_of o ms).0 == (length ms - o.keep_tail)));
  after_msgs = length (out_of o ms);
  after_chars = messages_chars (out_of o ms);
  gain = sub_ℕ (messages_chars ms) (messages_chars (out_of o ms));
  made_progress = some (
      if messages_chars ms == 0
      then o.min_gain_percent == 0
      else leb (o.min_gain_percent * messages_chars ms + 100 * messages_chars (out_of o ms))
          (100 * messages_chars ms));
}

pub unchanged_stats : List Message → Stats
unchanged_stats ms = record {
  before_msgs = length ms;
  before_chars = messages_chars ms;
  stubbed = 0;
  dropped_groups = 0;
  stage2 = false;
  tail_capped = 0;
  exhausted = false;
  tail_chars = none;
  tail_snapped = none;
  after_msgs = length ms;
  after_chars = messages_chars ms;
  gain = pos 0;
  made_progress = none;
}

-- With `keep_tail` 0 the read of `messages[len(messages)]` raises.
pub compact_messages : Options → List Message → Result (List Message × Stats)
compact_messages o ms =
    if leb (length ms) (o.keep_head + o.keep_tail)
    then ok (ms, unchanged_stats ms)
    else if o.keep_tail == 0
    then err index_error
    else checked (out_of o ms) (stats_of o ms)
