-- ===== src/Compaction/Threshold/Tests.antt =====
-- Runs of the trigger and of the count of swebench_eval/harnesses/compaction.py.
use agent_evals.Prelude.{◌≡◌, refl, some}
use agent_evals.Prelude.Int.{pos, ◌-ℤ◌, min_ℤ}
use agent_evals.Prelude.Text.{codes, lower, starts_with}
use agent_evals.Compaction.Threshold.{
  compute_threshold, output_reserve, count_from, count_text, total, count_native_compactions,
  native_compaction_markers, codex,
}

threshold_262144 : compute_threshold (some 262144) output_reserve ≡ pos 235929
unfolding compute_threshold ◌-ℤ◌ min_ℤ
threshold_262144 = refl

two_passes :
    count_native_compactions
      (codes "Auto-compact, then: context Compaction")
      (native_compaction_markers codex)
    ≡ some 2
unfolding count_native_compactions total count_text count_from lower starts_with
two_passes = refl
