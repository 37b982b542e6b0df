-- ===== src/Results/Write/Handover.antt =====
-- results_writer.py: the hand-over of a harness result to the eval phase, and where it is lost.
use agent_evals.Prelude.{
  ℕ, ◌+◌, ◌≤◌, ◌<◌, ◌≡◌, refl, ◌∙◌, true, false, ◌&&◌, List, [], ◌∷◌, ◌++◌, ◌=s◌, =s-eq, is_some,
  arith,
}
use agent_evals.Results.{ResultMessage, key_of}
use agent_evals.Results.Table.{same_key_refl}
use agent_evals.Results.Write.{
  Records, Calls, enqueue_eval_job, is_patch_ready, after_commit, process_result, Delivery, step,
  deliver,
}
use agent_evals.Results.Write.Ranks.{level_at, is_written, runs-step, answer, committed, level-step}
use agent_evals.Results.Write.Jobs.{
  jobs_of, jobs_of-step, sends_iff, sends_job, advanced_iff, patch_ready_level, deliver_settled,
  room-deliver,
}

deliver-append :
    (ds es : List Delivery) (s : Records) → deliver (ds ++ es) s ≡ deliver es (deliver ds s)
unfolding deliver
deliver-append [] es s = refl
deliver-append (d ∷ ds) es s = deliver-append ds es (step d s)

runs-deliver : (ds : List Delivery) (s : Records) → (deliver ds s).runs ≡ s.runs
unfolding deliver
runs-deliver [] s = refl
runs-deliver (d ∷ ds) s = runs-deliver ds (step d s) ∙ runs-step d s

pub not_eval : (m : ResultMessage) → is_patch_ready m ≡ true → m.phase =s "eval" ≡ false
unfolding ◌=s◌
not_eval m h = let phase : m.phase ≡ "harness" = =s-eq _ _ (ground arith) in rw phase refl

failed_after_commit :
    (c : Calls) (now : ℕ) (m : ResultMessage) (s : Records)
    → is_patch_ready m ≡ true
    → (c.seed && c.send) ≡ false
    → is_some ((after_commit c now m true s).1) ≡ true
unfolding after_commit enqueue_eval_job
failed_after_commit c now m s h f = ground arith

raised :
    (d : Delivery) (s : Records)
    → is_written d s ≡ true
    → (process_result d.calls d.now d.message s).1
      ≡ (after_commit d.calls d.now d.message (answer d s).1 (committed d s)).1
unfolding process_result
raised d s h = ground arith

module _ (d : Delivery) (s : Records) (ready : is_patch_ready d.message ≡ true) where
  -- A PATCH_READY that advances its row while the eval row's seed or the job's send fails: the message
  -- raises, so that it stays in the queue, and no redelivery of it nor any other message sends the job.
  pub job_lost :
      is_written d s ≡ true
      → level_at (key_of d.message) s ≤ 4
      → (d.calls.seed && d.calls.send) ≡ false
      → (is_some ((process_result d.calls d.now d.message s).1) ≡ true)
        × ((es : List Delivery)
            → jobs_of (key_of d.message) (deliver (d ∷ es) s).jobs
              ≡ jobs_of (key_of d.message) s.jobs)
  unfolding deliver
  job_lost written low failed =
      let k = key_of d.message in
      let harness = not_eval d.message ready in
      let five = patch_ready_level d ready in
      let advanced : (answer d s).1 ≡ true = rw (advanced_iff, five) (ground arith) in
      let high : 4 < level_at k (step d s) =
        rw (level-step d s k harness, written, same_key_refl k, five) (omega arith) in
      let same : jobs_of k (step d s).jobs ≡ jobs_of k s.jobs =
        rw (jobs_of-step k d s, sends_iff k d s written, failed) (ground arith) in
      (
        rw (raised d s written, advanced) (failed_after_commit _ _ _ _ ready failed),
        λ es. deliver_settled k harness es (step d s) high ∙ same,
      )

  -- The first PATCH_READY of a registered run that finds its row below the highest rank, with every
  -- call answered, sends exactly one eval job, whatever came before and comes after.
  pub job_sent :
      (ds es : List Delivery)
      → is_written d s ≡ true
      → level_at (key_of d.message) (deliver ds s) ≤ 4
      → (d.calls.seed && d.calls.send) ≡ true
      → jobs_of (key_of d.message) (deliver (ds ++ d ∷ es) s).jobs
        ≡ jobs_of (key_of d.message) s.jobs + 1
  unfolding deliver
  job_sent ds es written low ok =
      let k = key_of d.message in
      let s' = deliver ds s in
      let harness = not_eval d.message ready in
      let five = patch_ready_level d ready in
      let written' : is_written d s' ≡ true = rw (runs-deliver ds s) written in
      let high : 4 < level_at k (step d s') =
        rw (level-step d s' k harness, written', same_key_refl k, five) (omega arith) in
      let (_, _, _, quiet) = room-deliver k harness ds s in
      let sent : sends_job s' d ≡ true = rw five (ground (arith, ready, ok, low)) in
      let one : jobs_of k (step d s').jobs ≡ jobs_of k s'.jobs + 1 =
        rw (jobs_of-step k d s', sends_iff k d s' written', same_key_refl k, sent) refl in
      rw
        (
          deliver-append ds (d ∷ es) s,
          deliver_settled k harness es (step d s') high,
          one,
          quiet low,
        )
        refl
