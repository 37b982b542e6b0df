-- ===== src/Ceiling.antt =====
-- swebench_eval/gateway/ceiling_discovery.py: the outcome of a probe batch and the search for the highest
-- safe concurrency, with routing.py's `is_real_provider_overload`. Times are whole numbers of milliseconds.
pub mod Batch
pub mod Search
pub mod Sound
mod Tests
use agent_evals.Prelude.{
  ℕ, zero, suc, ◌+◌, ◌*◌, ◌/◌, Bool, true, false, not, ◌&&◌, Option, none, some, List, [], ◌∷◌,
  ◌++◌, ltb, leb, ◌==◌, if◌then◌else◌, length,
}

-- What `_one_call` returns; a status of 0 is a network failure.
pub record Answer : Type 0 where
  pub status_code : ℕ
  pub retry_after : Option ℕ
  pub completed_at : ℕ
  pub real_tokens : Option ℕ
  pub latency : ℕ
  pub cached : Option ℕ

-- `BatchResult`; a call whose cached tokens are not reported is `none` among `cached_tokens`.
pub record BatchResult : Type 0 where
  pub concurrency : ℕ
  pub elapsed : ℕ
  pub window : ℕ
  pub tokens_in_window : ℕ
  pub success_count : ℕ
  pub overload_count : ℕ
  pub error_count : ℕ
  pub latencies : List ℕ
  pub real_tokens_total : ℕ
  pub cached_tokens : List (Option ℕ)
  pub error_statuses : List ℕ

unfoldable pub is_real_provider_overload : ℕ → Option ℕ → Bool
is_real_provider_overload status none = status == 429
is_real_provider_overload status (some after) = false

abbrev pub add_tokens : Option ℕ → ℕ → ℕ
add_tokens none n = n
add_tokens (some t) n = n + t

-- The body of the loop of `probe_batch` over the answers.
unfoldable pub tally : Answer → BatchResult → BatchResult
tally a b =
    if a.status_code == 200
    then record b {
      success_count = b.success_count + 1;
      latencies = b.latencies ++ a.latency ∷ [];
      cached_tokens = b.cached_tokens ++ a.cached ∷ [];
      real_tokens_total = add_tokens a.real_tokens b.real_tokens_total;
      tokens_in_window =
          if leb a.completed_at b.window
          then add_tokens a.real_tokens b.tokens_in_window
          else b.tokens_in_window;
    }
    else if is_real_provider_overload a.status_code a.retry_after
    then record b { overload_count = b.overload_count + 1 }
    else record b {
      error_count = b.error_count + 1;
      error_statuses = b.error_statuses ++ a.status_code ∷ [];
    }

unfoldable pub tally_all : List Answer → BatchResult → BatchResult
tally_all [] b = b
tally_all (a ∷ answers) b = tally_all answers (tally a b)

abbrev pub empty_batch : ℕ → ℕ → ℕ → BatchResult
empty_batch concurrency elapsed window = record {
  concurrency = concurrency;
  elapsed = elapsed;
  window = window;
  tokens_in_window = 0;
  success_count = 0;
  overload_count = 0;
  error_count = 0;
  latencies = [];
  real_tokens_total = 0;
  cached_tokens = [];
  error_statuses = [];
}

-- What `probe_batch` makes of the answers to its calls.
unfoldable pub batch_of : ℕ → ℕ → ℕ → List Answer → BatchResult
batch_of concurrency elapsed window answers =
    tally_all answers (empty_batch concurrency elapsed window)

abbrev pub overloaded : BatchResult → Bool
overloaded b = ltb 0 b.overload_count

abbrev pub error_dominated : BatchResult → Bool
error_dominated b = ltb 0 b.error_count && ltb (b.success_count + b.overload_count) b.error_count

abbrev pub inconclusive : BatchResult → Bool
inconclusive b = b.success_count == 0 && (b.overload_count == 0 && ltb 0 b.error_count)

-- `tpm`, as a fraction: the tokens of a minute over the milliseconds of the window.
abbrev pub tpm : BatchResult → ℕ × ℕ
tpm b = if b.window == 0 then (0, 1) else (b.tokens_in_window * 60_000, b.window)

-- `cache_hit_share`, as a fraction.
unfoldable pub hits : ℕ → List (Option ℕ) → ℕ
hits min [] = 0
hits min (none ∷ cached) = hits min cached
hits min (some c ∷ cached) = (if leb min c then 1 else 0) + hits min cached

-- The batch that the n-th call of `prober` returns for a concurrency.
abbrev pub Prober : Type 0
Prober = ℕ → ℕ → BatchResult

-- `DiscoveryResult`.
pub record Discovery : Type 0 where
  pub safe_concurrency : ℕ
  pub tpm_found : ℕ × ℕ
  pub probes : List BatchResult

-- What `find_ceiling` ends with: a result, or the error of the batch that could not be interpreted.
pub data Found : Type 0 where
  found : Discovery → Found
  refused : BatchResult → Found
  out_of_fuel : Found

-- The variables of the loop; the probes stand in their order.
pub record Bisect : Type 0 where
  pub safe_lo : ℕ
  pub unsafe_hi : ℕ
  pub last_safe : Option BatchResult
  pub probes : List BatchResult

-- A probe in the loop.
abbrev pub narrow : ℕ → BatchResult → Bisect → Bisect
narrow mid r s =
    if overloaded r
    then record s { unsafe_hi = mid; probes = s.probes ++ r ∷ [] }
    else record s { safe_lo = mid; last_safe = some r; probes = s.probes ++ r ∷ [] }

abbrev pub middle : Bisect → ℕ
middle s = (s.safe_lo + s.unsafe_hi) / 2

pub data Looped : Type 0 where
  left : Bisect → Looped
  raised : BatchResult → Looped
  unfinished : Looped

-- The number of the next call is that of the probes so far.
abbrev pub calls_made : List BatchResult → ℕ
calls_made probes = length probes

-- The loop `while unsafe_hi - safe_lo > bisect_tolerance`.
unfoldable pub bisect : ℕ → Prober → ℕ → Bisect → Looped
bisect zero prober tolerance s =
    if ltb (s.safe_lo + tolerance) s.unsafe_hi then unfinished else left s
bisect (suc fuel) prober tolerance s =
    let r = prober (calls_made s.probes) (middle s) in
    let rest = bisect fuel prober tolerance (narrow (middle s) r s) in
    if ltb (s.safe_lo + tolerance) s.unsafe_hi
    then if inconclusive r then raised r else rest
    else left s

-- What follows the loop.
unfoldable pub conclude : Prober → ℕ → Bisect → Found
conclude prober floor s = elim s.last_safe [
  | some r ↦ found record { safe_concurrency = s.safe_lo; tpm_found = tpm r; probes = s.probes }
  | none ↦
      let r = prober (calls_made s.probes) floor in
      if inconclusive r
      then refused r
      else found record {
        safe_concurrency = if overloaded r then 0 else floor;
        tpm_found = tpm r;
        probes = s.probes ++ r ∷ [];
      }
]

abbrev pub after_loop : Prober → ℕ → Looped → Found
after_loop prober floor (left s) = conclude prober floor s
after_loop prober floor (raised r) = refused r
after_loop prober floor unfinished = out_of_fuel

abbrev pub start : ℕ → ℕ → BatchResult → Bisect
start target floor top = record {
  safe_lo = floor;
  unsafe_hi = target;
  last_safe = none;
  probes = top ∷ [];
}

unfoldable pub find_ceiling : ℕ → Prober → ℕ → ℕ → ℕ → Found
find_ceiling fuel prober target floor tolerance =
    let top = prober 0 target in
    if inconclusive top
    then refused top
    else if not (overloaded top)
    then found record { safe_concurrency = target; tpm_found = tpm top; probes = top ∷ [] }
    else after_loop prober floor (bisect fuel prober tolerance (start target floor top))
