-- ===== src/Stuck/Runs.antt =====
-- swebench_eval/harnesses/stuck_detector.py: the run that `_longest_identical_tool_run` reports is a
-- longest block of equal calls. The calls stand latest first, a call that the scan skips as `none`.
use agent_evals.Prelude.{
  ℕ, zero, suc, ◌+◌, ◌≤◌, ◌≡◌, inl, inr, refl, sym, ◌∙◌, ap, max, Bool, true, false, not, ◌&&◌,
  Option, none, some, List, [], ◌∷◌, ◌++◌, arith, Bool-cases, if◌then◌else◌,
}
use agent_evals.Prelude.Text.{eq_text, eq_text_refl, eq_text-eq}
use agent_evals.Stuck.{Call, Event, ToolRun, event_tool_calls, is_error}

abbrev pub History : Type 0
History = List (Option Call)

abbrev pub seen : Bool → Call → Option Call
seen true call = none
seen false call = some call

abbrev pub push : Bool → History → List Call → History
push skip h [] = h
push skip h (call ∷ calls) = push skip (seen skip call ∷ h) calls

-- The calls of the events after those of `h`, latest first.
unfoldable pub history : Bool → History → List Event → History
history errored_only h [] = h
history errored_only h (ev ∷ evs) =
    history errored_only (push (errored_only && not (is_error ev)) h (event_tool_calls ev)) evs

-- `n` copies of a call in front of a history.
abbrev pub block : ℕ → Call → History → History
block zero c h = h
block (suc n) c h = some c ∷ block n c h

abbrev pub HasBlock : ℕ → Call → History → Type 0
HasBlock n c h = (before after : History) × (h ≡ before ++ block n c after)

unfoldable pub same : Call → Call → Bool
same (t, a) (u, b) = eq_text t u && eq_text a b

same_refl : (c : Call) → same c c ≡ true
unfolding same
same_refl (t, a) = rw (eq_text_refl t, eq_text_refl a) refl

pub same-eq : (c d : Call) → same c d ≡ true → c ≡ d
unfolding same
same-eq (t, a) (u, b) h = elim (Bool-cases (eq_text t u)) [
  | inl e ↦ elim (Bool-cases (eq_text a b)) [
    | inl f ↦ ap (λ x. (x, a)) (eq_text-eq t u e) ∙ ap (λ x. (u, x)) (eq_text-eq a b f)
    | inr f ↦ absurd (ground (arith, e, f, h))
  ]
  | inr e ↦ absurd (ground (arith, e, h))
]

-- How often a call stands at the head of a history.
unfoldable pub lead : Call → History → ℕ
lead c [] = 0
lead c (none ∷ h) = 0
lead c (some d ∷ h) = let rest = lead c h in if same c d then rest + 1 else 0

-- The length of a longest block.
unfoldable pub longest : History → ℕ
unfolding lead same
longest [] = 0
longest (none ∷ h) = longest h
longest (some c ∷ h) = max (lead c h + 1) (longest h)

lead-block : (n : ℕ) (c : Call) (after : History) → n ≤ lead c (block n c after)
unfolding lead
lead-block zero c after = omega arith
lead-block (suc n) c after = rw (same_refl c) (omega (arith, lead-block n c after))

longest-suffix : (x : Option Call) (h : History) → longest h ≤ longest (x ∷ h)
unfolding longest
longest-suffix none h = omega arith
longest-suffix (some c) h = omega arith

longest-append : (before h : History) → longest h ≤ longest (before ++ h)
longest-append [] h = omega arith
longest-append (x ∷ before) h =
    omega (arith, longest-append before h, longest-suffix x (before ++ h))

longest-block : (n : ℕ) (c : Call) (after : History) → n ≤ longest (block n c after)
unfolding longest
longest-block zero c after = omega arith
longest-block (suc n) c after = omega (arith, lead-block n c after)

-- No block is longer than the longest.
pub longest_bound : (n : ℕ) (c : Call) (h : History) → HasBlock n c h → n ≤ longest h
longest_bound n c h (before, after, e) =
    rw e (omega (arith, longest-block n c after, longest-append before (block n c after)))

succ : (n : ℕ) → suc n ≡ n + 1
succ n = omega arith

split_step :
    (n : ℕ) (c d : Call) (h after : History)
    → c ≡ d
    → h ≡ block n c after
    → some d ∷ h ≡ block (n + 1) c after
split_step n c d h after e p =
    ap (λ x. some x ∷ h) (sym e) ∙ (ap (λ t. some c ∷ t) p ∙ ap (λ k. block k c after) (succ n))

lead_splits : (c : Call) (h : History) → (after : History) × (h ≡ block (lead c h) c after)
unfolding lead
lead_splits c [] = ([], refl)
lead_splits c (none ∷ h) = (none ∷ h, refl)
lead_splits c (some d ∷ h) = elim (Bool-cases (same c d)) [
  | inl e ↦
      let (after, p) = lead_splits c h in
      (after, rw e (split_step (lead c h) c d h after (same-eq c d e) p))
  | inr e ↦ (some d ∷ h, rw e refl)
]

abbrev count_of : Option ToolRun → ℕ
count_of none = 0
count_of (some run) = run.length_

pub lead_alone : (c : Call) (h : History) → lead c h ≡ 0 → lead c (some c ∷ h) ≡ 1
unfolding lead
lead_alone c h e = rw (same_refl c, e) refl

pub lead_other : (c d : Call) (h : History) → same c d ≡ false → lead c (some d ∷ h) ≡ 0
unfolding lead
lead_other c d h e = rw e refl

pub lead_more : (c : Call) (h : History) → lead c (some c ∷ h) ≡ lead c h + 1
unfolding lead
lead_more c h = rw (same_refl c) refl

pub HasBlock-head : (c : Call) (h : History) → HasBlock (lead c (some c ∷ h)) c (some c ∷ h)
HasBlock-head c h = let (after, p) = lead_splits c (some c ∷ h) in ([], after, p)

pub HasBlock-later :
    (n : ℕ) (c : Call) (x : Option Call) (h : History) → HasBlock n c h → HasBlock n c (x ∷ h)
HasBlock-later n c x h (before, after, p) = (x ∷ before, after, ap (λ t. x ∷ t) p)
