-- ===== src/Ceiling/Tests.antt =====
-- The search at concrete probers.
use agent_evals.Prelude.{ℕ, ◌-◌, ◌≤◌, ◌≢◌, refl, none, [], ◌∷◌, length, arith}
use agent_evals.Ceiling.{
  BatchResult, tpm, Prober, Discovery, out_of_fuel, bisect, conclude, find_ceiling,
}
use agent_evals.Ceiling.Search.{find_ceiling_ends, probes_of}
use agent_evals.Ceiling.Sound.{IsSafe, find_ceiling-IsSafe}

abbrev result : ℕ → ℕ → BatchResult
result concurrency overloads = record {
  concurrency = concurrency;
  elapsed = 900;
  window = 60_000;
  tokens_in_window = 5000;
  success_count = 1;
  overload_count = overloads;
  error_count = 0;
  latencies = 700 ∷ [];
  real_tokens_total = 5000;
  cached_tokens = none ∷ [];
  error_statuses = [];
}

-- A provider that is overloaded above a level.
abbrev provider : ℕ → Prober
provider level n concurrency = result concurrency (concurrency - level)

find_ceiling_ends_example :
    (find_ceiling 40 (provider 17) 40 5 10 ≢ out_of_fuel)
    × (length (probes_of (find_ceiling 40 (provider 17) 40 5 10)) ≤ 8)
find_ceiling_ends_example =
    find_ceiling_ends (provider 17) 10 (omega arith) 40 5 40 6 (omega arith) (omega arith)

abbrev result_found : Discovery
result_found = record {
  safe_concurrency = 13;
  tpm_found = tpm (result 13 0);
  probes = result 40 23 ∷ result 22 5 ∷ result 13 0 ∷ [];
}

find_ceiling-IsSafe_example : IsSafe result_found
unfolding find_ceiling bisect conclude
find_ceiling-IsSafe_example =
    find_ceiling-IsSafe (provider 17) (λ n c. refl) 5 40 10 40 result_found (omega arith)
      (omega arith) refl
