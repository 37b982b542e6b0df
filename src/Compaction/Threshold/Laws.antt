-- ===== src/Compaction/Threshold/Laws.antt =====
-- swebench_eval/harnesses/compaction.py: what the trigger leaves free, and when a count is zero.
use agent_evals.Prelude.{
  ℕ, ◌*◌, ◌/◌, ◌≡◌, ◌≢◌, ◌⊎◌, ◌↔◌, inl, inr, refl, Bool, true, false, none, some, List, [], ◌∷◌,
  arith, any, Bool-cases,
}
use agent_evals.Prelude.Int.{pos, ◌+ℤ◌, ◌-ℤ◌, ◌≤ℤ◌, min_ℤ}
use agent_evals.Prelude.Text.{Text, lower, starts_with, in_text}
use agent_evals.Compaction.Threshold.{
  compute_threshold, count_from, count_text, total, count_native_compactions,
}

-- Below the trigger the reserve still fits in the window and a tenth of the window is free, and the
-- trigger is the greatest such number.
pub threshold_headroom :
    (window reserve : ℕ)
    → (compute_threshold (some window) reserve +ℤ pos reserve ≤ℤ pos window)
      × (compute_threshold (some window) reserve ≤ℤ pos (9 * window / 10))
      × ((compute_threshold (some window) reserve ≡ pos (9 * window / 10))
          ⊎ (compute_threshold (some window) reserve +ℤ pos reserve ≡ pos window))
unfolding compute_threshold ◌+ℤ◌ ◌-ℤ◌ min_ℤ
threshold_headroom window reserve = ground arith

module _ (d : ℕ) (p : Text) where
  count_from_zero : (s : Text) → (count_from (d ∷ p) 0 s ≡ 0) ↔ (in_text (d ∷ p) s ≡ false)
  unfolding count_from in_text starts_with
  count_from_zero [] = ground arith
  count_from_zero (c ∷ s) = elim (Bool-cases (starts_with (c ∷ s) (d ∷ p))) [
    | inl e ↦ rw (e, count_from) (ground arith)
    | inr e ↦ rw (e, count_from) (count_from_zero s)
  ]

in_text-empty : (s : Text) → in_text [] s ≡ true
unfolding in_text starts_with
in_text-empty [] = refl
in_text-empty (c ∷ s) = refl

count_text_zero : (p s : Text) → (count_text p s ≡ 0) ↔ (in_text p s ≡ false)
unfolding count_text
count_text_zero [] s = rw (in_text-empty s) (ground arith)
count_text_zero (c ∷ p) s = count_from_zero c p s

abbrev found : Text → Text → Bool
found low m = in_text (lower m) low

total_zero :
    (low : Text) (markers : List Text) → (total low markers ≡ 0) ↔ (any (found low) markers ≡ false)
unfolding total
total_zero low [] = ground arith
total_zero low (m ∷ markers) = ground (arith, count_text_zero (lower m) low, total_zero low markers)

-- A count is recorded for every output but the empty one, and it is zero exactly where no marker stands
-- in the output, whatever the case of its letters.
pub count_native_zero :
    (text : Text) (markers : List Text)
    → ((count_native_compactions text markers ≡ none) ↔ (text ≡ []))
      × ((count_native_compactions text markers ≡ some 0)
          ↔ ((text ≢ []) × (any (λ m. in_text (lower m) (lower text)) markers ≡ false)))
unfolding count_native_compactions
count_native_zero [] markers = ground arith
count_native_zero (c ∷ s) markers = ground (arith, total_zero (lower (c ∷ s)) markers)
