-- ===== src/Results/Write/Ranks.antt =====
-- results_writer.py: the monotonic guard of `_process_result`, over messages in any order.
use agent_evals.Prelude.{
  ℕ, ◌+◌, max, ◌≡◌, refl, ap, sym, ◌∙◌, Bool, true, false, ◌&&◌, Option, none, some, List, [], ◌∷◌,
  ◌=s◌, =s_refl, if◌then◌else◌, is_some, Bool-cases, inl, inr, arith,
}
use agent_evals.Results.{ResultMessage, Key, Row, key_of}
use agent_evals.Results.Table.{Table, same_key, find, put_row, find-put_row, same_key-eq}
use agent_evals.Results.Write.{
  state_rank, inserted, updated, filled, upserted, Records, Calls, lookup, seed_eval_row,
  enqueue_eval_job, maintain_run_summary, after_commit, process_result, Delivery, step, deliver,
  eval_key,
}

-- One above the rank of a row's state, 0 where there is no row.
abbrev pub level : Option Row → ℕ
level none = 0
level (some r) = state_rank r.state + 1

abbrev pub level_at : Key → Records → ℕ
level_at k s = level (find k s.rows)

level-upserted :
    (now : ℕ) (m : ResultMessage) (o : Option Row)
    → level (some ((upserted now m o).0)) ≡ max (level o) (state_rank m.state + 1)
unfolding upserted inserted updated filled
level-upserted now m none = omega arith
level-upserted now m (some r) = ground arith

-- Whether the messages's statements take effect.
abbrev pub is_written : Delivery → Records → Bool
is_written d s = d.calls.write && is_some (lookup d.message.run_id s.runs)

other_phase : (k j : Key) → j.phase =s "eval" ≡ false → same_key (eval_key k) j ≡ false
other_phase k j h = elim (Bool-cases (same_key (eval_key k) j)) [
  | inl e ↦
      let same : eval_key k ≡ j = same_key-eq (eval_key k) j e in
      let phase : (j.phase =s "eval") ≡ true =
        ap (λ k. k.phase =s "eval") (sym same) ∙ =s_refl "eval" in
      absurd cc
  | inr e ↦ e
]

find-seed_eval_row :
    (now : ℕ) (k j : Key) (t : Table)
    → j.phase =s "eval" ≡ false
    → find j (seed_eval_row now k t) ≡ find j t
unfolding seed_eval_row
find-seed_eval_row now k j t h = elim (Bool-cases (is_some (find (eval_key k) t))) [
  | inl e ↦ rw e refl
  | inr e ↦ rw (e, find-put_row, other_phase k j h) refl
]

after_commit-rows :
    (c : Calls) (now : ℕ) (m : ResultMessage) (b : Bool) (s : Records) (k : Key)
    → k.phase =s "eval" ≡ false
    → find k (after_commit c now m b s).0.rows ≡ find k s.rows
unfolding after_commit enqueue_eval_job maintain_run_summary
after_commit-rows c now m b s k h = ground (arith, find-seed_eval_row now (key_of m) k s.rows h)

after_commit-runs :
    (c : Calls) (now : ℕ) (m : ResultMessage) (b : Bool) (s : Records)
    → (after_commit c now m b s).0.runs ≡ s.runs
unfolding after_commit enqueue_eval_job maintain_run_summary
after_commit-runs c now m b s = ground arith

-- Whether the message of a delivery is written to the row of a key.
abbrev pub writes : Key → Records → Delivery → Bool
writes k s d = is_written d s && same_key (key_of d.message) k

abbrev pub message_level : Delivery → ℕ
message_level d = state_rank d.message.state + 1

module _ (d : Delivery) (s : Records) where
  abbrev pub answer : Row × Bool
  answer = upserted d.now d.message (find (key_of d.message) s.rows)

  -- The state in which the row of a delivery is written.
  abbrev pub committed : Records
  committed = record s { rows = put_row (key_of d.message) answer.0 s.rows }

  pub step_cases :
      step d s
      ≡ (if is_written d s then (after_commit d.calls d.now d.message answer.1 committed).0 else s)
  unfolding process_result
  step_cases = ground arith

  pub runs-step : (step d s).runs ≡ s.runs
  runs-step = elim (Bool-cases (is_written d s)) [
    | inl e ↦ rw (step_cases, e, after_commit-runs) refl
    | inr e ↦ rw (step_cases, e) refl
  ]

  pub find-step :
      (k : Key)
      → k.phase =s "eval" ≡ false
      → find k (step d s).rows ≡ (if writes k s d then some answer.0 else find k s.rows)
  find-step k h = elim (Bool-cases (is_written d s)) [
    | inl e ↦ rw (step_cases, e, after_commit-rows _ _ _ _ _ k h, find-put_row) refl
    | inr e ↦ rw (step_cases, e) refl
  ]

pub level-step :
    (d : Delivery) (s : Records) (k : Key)
    → k.phase =s "eval" ≡ false
    → level_at k (step d s)
      ≡ (if writes k s d then max (level_at k s) (message_level d) else level_at k s)
level-step d s k h = elim (Bool-cases (writes k s d)) [
  | inl e ↦
      let same : key_of d.message ≡ k = same_key-eq _ _ (ground arith) in
      rw (find-step d s k h, e, level-upserted, same) refl
  | inr e ↦ rw (find-step d s k h, e) refl
]

-- The highest level of the messages written to a row.
abbrev pub highest : Key → Records → List Delivery → ℕ → ℕ
highest k s [] n = n
highest k s (d ∷ ds) n = highest k s ds (if writes k s d then max n (message_level d) else n)

writes_after :
    (k : Key) (s s' : Records) (d : Delivery) → s'.runs ≡ s.runs → writes k s' d ≡ writes k s d
writes_after k s s' d h = rw h refl

highest_after :
    (k : Key) (s s' : Records) (ds : List Delivery) (n : ℕ)
    → s'.runs ≡ s.runs
    → highest k s' ds n ≡ highest k s ds n
highest_after k s s' [] n h = refl
highest_after k s s' (d ∷ ds) n h = rw (writes_after k s s' d h, highest_after k s s' ds _ h) refl

-- Whatever the order in which the result messages arrive, and however often: the rank of a row that is
-- not of the eval phase is the highest of its rank before and of the ranks of the messages written to
-- it, a row that is not there having none.
pub level-deliver :
    (ds : List Delivery) (s : Records) (k : Key)
    → k.phase =s "eval" ≡ false
    → level_at k (deliver ds s) ≡ highest k s ds (level_at k s)
unfolding deliver
level-deliver [] s k h = refl
level-deliver (d ∷ ds) s k h =
    rw
      (
        level-deliver ds (step d s) k h,
        highest_after k s (step d s) ds _ (runs-step d s),
        level-step d s k h,
      )
      refl
