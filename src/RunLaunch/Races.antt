-- ===== src/RunLaunch/Races.antt =====
-- run_launch.py and abort.py: an abort that falls into the launch of its run.
use agent_evals.Prelude.{
  ℕ, zero, suc, ◌<◌, ◌≡◌, refl, ◌∙◌, String, true, false, List, [], ◌∷◌, ◌++◌, length, map, drop,
  arith,
}
use agent_evals.Results.{Key}
use agent_evals.RunLaunch.Own.{
  AllOwn, own, own_all, own-kept, perform_all-Leads, launch_acts-AllOwn,
}
use agent_evals.RunLaunch.{
  Run, System, is_violation, with_status, released, find_run, Act, sets_status, sends, perform_all,
  LaunchRequest, pair_of, keys_of, launch_acts, finish_abort, launch_run,
}
use agent_evals.RunLaunch.Ends.{
  all_up, row_after, launched-Leads, row-own, row-ended, abort-Leads, is_ended,
}

drop-AllOwn : (run : String) (n : ℕ) (acts : List Act) → AllOwn run acts → AllOwn run (drop n acts)
drop-AllOwn run zero acts mine = mine
drop-AllOwn run (suc n) [] mine = tt
drop-AllOwn run (suc n) (a ∷ acts) (here, mine) = drop-AllOwn run n acts mine

-- The last act of a list sets the status.
abbrev EndsWith : String → List Act → Type 0
EndsWith status [] = ⊥
EndsWith status (a ∷ []) = (p : Run) → (own a p).status ≡ status
EndsWith status (a ∷ acts) = EndsWith status acts

drop-EndsWith :
    (status : String) (n : ℕ) (acts : List Act)
    → n < length acts
    → EndsWith status acts
    → EndsWith status (drop n acts)
drop-EndsWith status zero acts small e = e
drop-EndsWith status (suc n) [] small e = elim e [ ]
drop-EndsWith status (suc n) (a ∷ []) small e = absurd (omega arith)
drop-EndsWith status (suc n) (a ∷ (b ∷ acts)) small e =
    drop-EndsWith status n (b ∷ acts) (omega arith) e

own_all-status :
    (status : String) (acts : List Act) (p : Run)
    → EndsWith status acts
    → (own_all acts p).status ≡ status
own_all-status status [] p e = elim e [ ]
own_all-status status (a ∷ []) p e = e p
own_all-status status (a ∷ (b ∷ acts)) p e = own_all-status status (b ∷ acts) (own a p) e

sends-EndsWith :
    (run status : String) (ks : List Key)
    → EndsWith status (map sends ks ++ sets_status run status ∷ [])
sends-EndsWith run status [] = λ p. refl
sends-EndsWith run status (k ∷ []) = λ p. refl
sends-EndsWith run status (k ∷ (j ∷ ks)) = sends-EndsWith run status (j ∷ ks)

cons-EndsWith :
    (status : String) (a : Act) (acts : List Act)
    → EndsWith status acts
    → EndsWith status (a ∷ acts)
cons-EndsWith status a [] e = elim e [ ]
cons-EndsWith status a (b ∷ acts) e = e

launch_acts-EndsWith : (q : LaunchRequest) → EndsWith "running" (launch_acts q)
unfolding launch_acts
launch_acts-EndsWith q =
    cons-EndsWith "running" (sets_status q.run_id "dispatching")
      (map sends (keys_of q) ++ sets_status q.run_id "running" ∷ [])
      (sends-EndsWith q.run_id "running" (keys_of q))

-- An abort that ends while the run is launched is undone by the rest of the launch, which updates the status
-- whatever it is: the run says running again, with its pair released.
pub launch_acts-overwrite :
    (n : ℕ) (q : LaunchRequest) (s : System)
    → is_violation q.run_id (pair_of q) s.runs ≡ false
    → n < length (launch_acts q)
    → is_ended "running" (
        find_run q.run_id
          (perform_all
            (drop n (launch_acts q))
            (finish_abort all_up q.run_id (launch_run false n q s).0)).runs)
      ≡ true
launch_acts-overwrite n q s free before =
    let u = (launch_run false n q s).0 in
    let p = released (with_status "aborted" (row_after q n)) in
    let acts = drop n (launch_acts q) in
    let same = row-own q n in
    let mine = drop-AllOwn q.run_id n (launch_acts q) (launch_acts-AllOwn q) in
    let v =
      perform_all-Leads q.run_id acts p (finish_abort all_up q.run_id u) mine same
        (abort-Leads q.run_id (row_after q n) u same (launched-Leads n q s free)) in
    let (id, key) = own-kept acts p in
    row-ended "running" q.run_id (own_all acts p) _ (id ∙ same) v
      (own_all-status "running" acts p
        (drop-EndsWith "running" n (launch_acts q) before (launch_acts-EndsWith q)))
      key
