-- ===== src/Compaction/Threshold.antt =====
-- swebench_eval/harnesses/compaction.py: the trigger, and the count of a CLI's own compactions. The
-- product with 0.90 is taken exactly; a window is not negative.
pub mod Laws
mod Tests
use agent_evals.Prelude.{
  ℕ, ◌+◌, ◌-◌, ◌*◌, ◌/◌, ℕ, zero, suc, Bool, Option, none, some, List, [], ◌∷◌, if◌then◌else◌,
  length,
}
use agent_evals.Prelude.Int.{ℤ, pos, ◌-ℤ◌, min_ℤ}
use agent_evals.Prelude.Text.{Text, codes, lower, starts_with}

abbrev pub output_reserve : ℕ
output_reserve = 16_384

-- `compute_threshold`.
pub compute_threshold : Option ℕ → (output_reserve : ℕ) → ℤ
compute_threshold none reserve = pos 0
compute_threshold (some window) reserve = min_ℤ (pos (9 * window / 10)) (pos window -ℤ pos reserve)

-- `NATIVE_COMPACTION_MARKERS`.
pub data Cli : Type 0 where
  claude_code opencode codex : Cli

abbrev pub native_compaction_markers : Cli → List Text
native_compaction_markers claude_code =
    codes "context compaction" ∷ codes "compacting the conversation" ∷ codes "auto-compact" ∷ []
native_compaction_markers opencode =
    codes "[compacting]" ∷ codes "compacting session" ∷ codes "auto-compact" ∷ []
native_compaction_markers codex =
    codes "auto-compact" ∷ codes "compacting the conversation" ∷ codes "context compaction" ∷ []

-- `s.count(p)` for a non-empty `p`, once `skip` more characters of an occurrence are passed.
pub count_from : Text → (skip : ℕ) → Text → ℕ
count_from p skip [] = 0
count_from p zero (c ∷ s) =
    let inside = count_from p (length p - 1) s in
    let after = count_from p 0 s in if starts_with (c ∷ s) p then inside + 1 else after
count_from p (suc skip) (c ∷ s) = count_from p skip s

-- `s.count(p)`.
pub count_text : Text → Text → ℕ
count_text [] s = length s + 1
count_text (c ∷ p) s = count_from (c ∷ p) 0 s

pub total : Text → List Text → ℕ
total low [] = 0
total low (m ∷ markers) = count_text (lower m) low + total low markers

-- `count_native_compactions`.
pub count_native_compactions : Text → List Text → Option ℕ
count_native_compactions [] markers = none
count_native_compactions (c ∷ s) markers = some (total (lower (c ∷ s)) markers)
