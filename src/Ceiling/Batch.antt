-- ===== src/Ceiling/Batch.antt =====
-- ceiling_discovery.py `probe_batch`: what the counts of a batch say of its answers.
use agent_evals.Prelude.{
  ℕ, ◌+◌, ◌≤◌, ◌≡◌, refl, List, [], ◌∷◌, ◌==◌, subst, length, length-append, Bool-cases, inl, inr,
  arith,
}
use agent_evals.Ceiling.{
  Answer, BatchResult, is_real_provider_overload, tally, tally_all, empty_batch, batch_of,
}

-- The counts of a batch that agree with its lists, for a number of answers.
pub record IsTallied (n : ℕ) (b : BatchResult) : Type 0 where
  pub counted : b.success_count + b.overload_count + b.error_count ≡ n
  pub timed : length b.latencies ≡ b.success_count
  pub cached : length b.cached_tokens ≡ b.success_count
  pub explained : length b.error_statuses ≡ b.error_count
  pub windowed : b.tokens_in_window ≤ b.real_tokens_total

tally-IsTallied :
    (n : ℕ) (a : Answer) (b : BatchResult) → IsTallied n b → IsTallied (n + 1) (tally a b)
unfolding tally
tally-IsTallied n a b h = elim (Bool-cases (a.status_code == 200)) [
  | inl e ↦ rw e (record {
    counted = ground (arith, h.counted);
    timed = rw (length-append, h.timed) refl;
    cached = rw (length-append, h.cached) refl;
    explained = h.explained;
    windowed = ground (arith, h.windowed);
  })
  | inr e ↦ elim (Bool-cases (is_real_provider_overload a.status_code a.retry_after)) [
    | inl f ↦
        rw (e, f)
          (record {
            counted = ground (arith, h.counted);
            timed = h.timed;
            cached = h.cached;
            explained = h.explained;
            windowed = h.windowed;
          })
    | inr f ↦
        rw (e, f)
          (record {
            counted = ground (arith, h.counted);
            timed = h.timed;
            cached = h.cached;
            explained = rw (length-append, h.explained) refl;
            windowed = h.windowed;
          })
  ]
]

tally_all-IsTallied :
    (answers : List Answer) (n : ℕ) (b : BatchResult)
    → IsTallied n b
    → IsTallied (n + length answers) (tally_all answers b)
unfolding tally_all
tally_all-IsTallied [] n b h =
    let same : n ≡ n + 0 = omega arith in subst (λ m. IsTallied m b) same h
tally_all-IsTallied (a ∷ answers) n b h =
    let rest = tally_all-IsTallied answers (n + 1) (tally a b) (tally-IsTallied n a b h) in
    let same : n + 1 + length answers ≡ n + length (a ∷ answers) = omega arith in
    subst (λ m. IsTallied m (tally_all answers (tally a b))) same rest

-- Every answer of a batch is counted once, as a success, an overload or an error; there is a latency and
-- a cache report for each success and a status for each error, and the tokens of the window are
-- no more than all.
pub batch_of-IsTallied :
    (concurrency elapsed window : ℕ) (answers : List Answer)
    → IsTallied (length answers) (batch_of concurrency elapsed window answers)
unfolding batch_of
batch_of-IsTallied concurrency elapsed window answers =
    let none_yet : IsTallied 0 (empty_batch concurrency elapsed window) = record {
      counted = refl;
      timed = refl;
      cached = refl;
      explained = refl;
      windowed = omega arith;
    } in
    let all = tally_all-IsTallied answers 0 _ none_yet in
    let same : 0 + length answers ≡ length answers = omega arith in
    subst (λ m. IsTallied m (batch_of concurrency elapsed window answers)) same all
