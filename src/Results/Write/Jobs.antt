-- ===== src/Results/Write/Jobs.antt =====
-- results_writer.py: the eval jobs that `_process_result` sends, over messages in any order.
use agent_evals.Prelude.{
  ℕ, ◌+◌, ◌≤◌, ◌<◌, ◌≡◌, refl, ◌∙◌, Bool, true, false, ◌&&◌, Option, none, some, List, [], ◌∷◌,
  ◌++◌, ltb, ◌=s◌, =s-eq, if◌then◌else◌, Bool-cases, inl, inr, arith,
}
use agent_evals.Results.{ResultMessage, Key, Row, key_of}
use agent_evals.Results.Table.{same_key, same_key-eq}
use agent_evals.Results.Write.{
  state_rank, upserted, Records, Calls, EvalJob, eval_job, enqueue_eval_job, maintain_run_summary,
  is_patch_ready, after_commit, Delivery, step, deliver,
}
use agent_evals.Results.Write.Ranks.{
  level, level_at, is_written, writes, message_level, step_cases, level-step,
}

-- The harness attempt whose patch a job grades.
abbrev pub job_key : EvalJob → Key
job_key j = record {
  run_id = j.run_id;
  instance_id = j.instance_id;
  attempt_number = j.attempt_number;
  phase = "harness";
}

-- How many of the jobs are for a harness attempt.
unfoldable pub jobs_of : Key → List EvalJob → ℕ
jobs_of k [] = 0
jobs_of k (j ∷ js) = (if same_key (job_key j) k then 1 else 0) + jobs_of k js

jobs_of-append :
    (k : Key) (js : List EvalJob) (j : EvalJob)
    → jobs_of k (js ++ j ∷ []) ≡ jobs_of k js + (if same_key (job_key j) k then 1 else 0)
unfolding jobs_of
jobs_of-append k [] j = omega arith
jobs_of-append k (i ∷ js) j = omega (arith, jobs_of-append k js j)

after_commit-jobs :
    (c : Calls) (now : ℕ) (m : ResultMessage) (advanced : Bool) (s : Records)
    → (after_commit c now m advanced s).0.jobs ≡ (
        if advanced && (is_patch_ready m && (c.seed && c.send))
        then s.jobs ++ eval_job m ∷ []
        else s.jobs)
unfolding after_commit enqueue_eval_job maintain_run_summary
after_commit-jobs c now m advanced s = ground arith

pub advanced_iff :
    (now : ℕ) (m : ResultMessage) (o : Option Row)
    → (upserted now m o).1 ≡ ltb (level o) (state_rank m.state + 1)
unfolding upserted
advanced_iff now m none = ground arith
advanced_iff now m (some r) = ground arith

-- Whether a delivery sends the job of an attempt.
abbrev pub sends : Key → Records → Delivery → Bool
sends k s d =
    writes k s d
    && (ltb (level_at k s) (message_level d)
        && (is_patch_ready d.message && (d.calls.seed && d.calls.send)))

job_key-eval_job : (m : ResultMessage) → is_patch_ready m ≡ true → job_key (eval_job m) ≡ key_of m
job_key-eval_job m h = let phase : m.phase ≡ "harness" = =s-eq _ _ (ground arith) in cc

-- Whether a delivery that is written sends a job.
abbrev pub sends_job : Records → Delivery → Bool
sends_job s d =
    ltb (level_at (key_of d.message) s) (message_level d)
    && (is_patch_ready d.message && (d.calls.seed && d.calls.send))

pub sends_iff :
    (k : Key) (d : Delivery) (s : Records)
    → is_written d s ≡ true
    → sends k s d ≡ (same_key (key_of d.message) k && sends_job s d)
sends_iff k d s written = elim (Bool-cases (same_key (key_of d.message) k)) [
  | inl e ↦ let same = same_key-eq _ _ e in rw (written, e, same) refl
  | inr e ↦ rw (written, e) refl
]

pub jobs_of-step :
    (k : Key) (d : Delivery) (s : Records)
    → jobs_of k (step d s).jobs ≡ jobs_of k s.jobs + (if sends k s d then 1 else 0)
jobs_of-step k d s = elim (Bool-cases (is_written d s)) [
  | inl e ↦ elim (Bool-cases (sends_job s d)) [
    | inl f ↦
        rw
          (
            sends_iff k d s e,
            step_cases,
            e,
            after_commit-jobs,
            advanced_iff,
            f,
            jobs_of-append,
            job_key-eval_job d.message (ground arith),
          )
          (ground arith)
    | inr f ↦
        rw (sends_iff k d s e, step_cases, e, after_commit-jobs, advanced_iff, f) (ground arith)
  ]
  | inr e ↦ rw (step_cases, e) (omega arith)
]

pub patch_ready_level : (d : Delivery) → is_patch_ready d.message ≡ true → message_level d ≡ 5
unfolding state_rank ◌=s◌
patch_ready_level d h =
    let state : d.message.state ≡ "PATCH_READY" = =s-eq _ _ (ground arith) in rw state refl

-- The one job that an attempt may still have, as long as its row has not reached the highest rank.
abbrev pub room : Key → Records → ℕ
room k s = if ltb 4 (level_at k s) then 0 else 1

module _ (k : Key) (harness : k.phase =s "eval" ≡ false) where
  room-step :
      (d : Delivery) (s : Records)
      → (jobs_of k (step d s).jobs + room k (step d s) ≤ jobs_of k s.jobs + room k s)
        × (jobs_of k s.jobs ≤ jobs_of k (step d s).jobs)
        × (level_at k s ≤ level_at k (step d s))
        × (level_at k (step d s) ≤ 4 → jobs_of k (step d s).jobs ≡ jobs_of k s.jobs)
  room-step d s = elim (Bool-cases (sends k s d)) [
    | inl e ↦
        let five = patch_ready_level d (ground arith) in
        rw (jobs_of-step k d s, level-step d s k harness, e, five) (ground arith)
    | inr e ↦ rw (jobs_of-step k d s, level-step d s k harness, e) (ground arith)
  ]

  pub room-deliver :
      (ds : List Delivery) (s : Records)
      → (jobs_of k (deliver ds s).jobs + room k (deliver ds s) ≤ jobs_of k s.jobs + room k s)
        × (jobs_of k s.jobs ≤ jobs_of k (deliver ds s).jobs)
        × (level_at k s ≤ level_at k (deliver ds s))
        × (level_at k (deliver ds s) ≤ 4 → jobs_of k (deliver ds s).jobs ≡ jobs_of k s.jobs)
  unfolding deliver
  room-deliver [] s = ground arith
  room-deliver (d ∷ ds) s =
      let (a, b, c, e) = room-step d s in
      let (a', b', c', e') = room-deliver ds (step d s) in
      (omega arith, omega arith, omega arith, λ h. e' h ∙ e (omega arith))

  -- Where an attempt has no eval job yet, or one and a row of the highest rank, it has at most one after
  -- any result messages, in any order and redelivered however often.
  pub jobs_of-deliver :
      (ds : List Delivery) (s : Records)
      → jobs_of k s.jobs + room k s ≤ 1
      → jobs_of k (deliver ds s).jobs ≤ 1
  jobs_of-deliver ds s h = let (a, b, c, e) = room-deliver ds s in omega arith

  pub deliver_settled :
      (ds : List Delivery) (s : Records)
      → 4 < level_at k s
      → jobs_of k (deliver ds s).jobs ≡ jobs_of k s.jobs
  deliver_settled ds s h = let (a, b, c, e) = room-deliver ds s in ground arith
