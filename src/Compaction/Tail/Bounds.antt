-- ===== src/Compaction/Tail/Bounds.antt =====
-- swebench_eval/harnesses/compaction.py: the tail begins after the head, at a whole turn group.
use agent_evals.Prelude.{
  ℕ, zero, suc, ◌+◌, ◌-◌, ◌≤◌, ◌<◌, ◌≡◌, ◌⊎◌, inl, inr, refl, Bool, true, false, ◌&&◌, Option, none,
  some, List, [], ◌∷◌, ltb, ◌==◌, if◌then◌else◌, length, drop, min, arith, Bool-cases, ltb→lt,
}
use agent_evals.Compaction.Message.{Message, is_tool}
use agent_evals.Compaction.Tail.{
  is_tool_at, snap_back, Walk, next_of, is_over, walk_back, tail_start,
}

-- Whether the list from index `i` on begins with a tool result.
pub is_tool_at-drop :
    (i : ℕ) (ms : List Message)
    → is_tool_at ms i ≡ elim (drop i ms) [ [] ↦ false | m ∷ rest ↦ is_tool m ]
is_tool_at-drop zero [] = refl
is_tool_at-drop (suc i) [] = refl
is_tool_at-drop zero (m ∷ ms) = refl
is_tool_at-drop (suc i) (m ∷ ms) = is_tool_at-drop i ms

is_tool_at-length : (ms : List Message) → is_tool_at ms (length ms) ≡ false
is_tool_at-length [] = refl
is_tool_at-length (m ∷ ms) = is_tool_at-length ms

-- An index where the list may be cut: at the end of the head, or before a message that is no tool
-- result.
pub record IsCut (keep_head : ℕ) (ms : List Message) (i : ℕ) : Type 0 where
  pub after_head : keep_head ≤ i
  pub at_group : (i ≡ keep_head) ⊎ (is_tool_at ms i ≡ false)

snap_back-le : (kh : ℕ) (ms : List Message) (i : ℕ) → snap_back kh ms i ≤ i
unfolding snap_back
snap_back-le kh ms zero = omega arith
snap_back-le kh ms (suc i) = ground (arith, snap_back-le kh ms i)

snap_back-IsCut : (kh : ℕ) (ms : List Message) (i : ℕ) → kh ≤ i → IsCut kh ms (snap_back kh ms i)
unfolding snap_back
snap_back-IsCut kh ms zero h = record { after_head = omega arith; at_group = inl (omega arith) }
snap_back-IsCut kh ms (suc i) h = elim (Bool-cases (ltb kh (suc i) && is_tool_at ms (suc i))) [
  | inl e ↦ rw e (snap_back-IsCut kh ms i (ground arith))
  | inr e ↦ rw e (record { after_head = h; at_group = ground arith })
]

next_of-IsCut : (kh : ℕ) (ms : List Message) (w : Walk) → kh < w.t → IsCut kh ms (next_of kh ms w).t
next_of-IsCut kh ms w h = snap_back-IsCut kh ms (w.t - 1) (omega arith)

walk_back-IsCut :
    (fuel kh budget : ℕ) (ms : List Message) (w : Walk)
    → IsCut kh ms w.t
    → IsCut kh ms (walk_back fuel kh budget ms w).t
unfolding walk_back
walk_back-IsCut zero kh budget ms w c = c
walk_back-IsCut (suc fuel) kh budget ms w c = elim (Bool-cases (ltb kh w.t)) [
  | inr e ↦ rw (e, walk_back) c
  | inl e ↦ elim (Bool-cases (is_over kh budget ms w)) [
    | inl f ↦ rw (e, f, walk_back) c
    | inr f ↦
        rw (e, f, walk_back)
          (walk_back-IsCut fuel kh budget ms (next_of kh ms w)
            (next_of-IsCut kh ms w (ltb→lt kh w.t e)))
  ]
]

-- As many rounds as there are messages are enough: the walk has ended at the head or by its budget,
-- so one more round changes nothing.
pub walk_back_ends :
    (fuel kh budget : ℕ) (ms : List Message) (w : Walk)
    → w.t ≤ fuel
    → let r = walk_back fuel kh budget ms w in (r.t ≤ kh) ⊎ (is_over kh budget ms r ≡ true)
unfolding walk_back
walk_back_ends zero kh budget ms w h = inl (omega arith)
walk_back_ends (suc fuel) kh budget ms w h = elim (Bool-cases (ltb kh w.t)) [
  | inr e ↦ rw (e, walk_back) (inl (ground arith))
  | inl e ↦ elim (Bool-cases (is_over kh budget ms w)) [
    | inl f ↦ rw (e, f, walk_back) (inr f)
    | inr f ↦
        rw (e, f, walk_back)
          (walk_back_ends fuel kh budget ms (next_of kh ms w)
            (omega (arith, snap_back-le kh ms (w.t - 1), ltb→lt kh w.t e)))
  ]
]

min-IsCut :
    (kh : ℕ) (ms : List Message) (i j : ℕ) → IsCut kh ms i → IsCut kh ms j → IsCut kh ms (min i j)
min-IsCut kh ms i j c d = elim (≤_total i j) [
  | inl h ↦ let e : min i j ≡ i = omega arith in rw e c
  | inr h ↦ let e : min i j ≡ j = omega arith in rw e d
]
  where
    ≤_total : (a b : ℕ) → (a ≤ b) ⊎ (b ≤ a)
    ≤_total a b = omega arith

pub tail_start-IsCut :
    (kh kt : ℕ) (budget : Option ℕ) (ms : List Message)
    → kh + kt < length ms
    → IsCut kh ms (tail_start kh kt budget ms).0
unfolding tail_start
tail_start-IsCut kh kt none ms h = snap_back-IsCut kh ms (length ms - kt) (omega arith)
tail_start-IsCut kh kt (some budget) ms h = either (w.acc == 0)
  where
    w : Walk
    w = walk_back (length ms) kh budget ms (record { t = length ms; acc = 0 })

    walked : IsCut kh ms w.t
    walked =
        walk_back-IsCut (length ms) kh budget ms (record { t = length ms; acc = 0 })
          (record { after_head = omega arith; at_group = inr (is_tool_at-length ms) })

    snapped : IsCut kh ms (snap_back kh ms (length ms - kt))
    snapped = snap_back-IsCut kh ms (length ms - kt) (omega arith)

    either :
        (b : Bool) → IsCut kh ms (if b then min (snap_back kh ms (length ms - kt)) w.t else w.t)
    either true = min-IsCut kh ms _ w.t snapped walked
    either false = walked
