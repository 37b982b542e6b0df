-- ===== src/RunLaunch/Keys.antt =====
-- run_launch.py and abort.py: whether a run's keys outlive it.
use agent_evals.Prelude.{
  ℕ, zero, suc, ◌≤◌, ◌≡◌, refl, sym, ap, subst, ◌∙◌, String, true, false, Option, none, some, List,
  [], ◌∷◌, ◌++◌, ◌=s◌, =s_refl, map, take, arith,
}
use agent_evals.Results.{Key}
use agent_evals.RunLaunch.Own.{Leads, own_all}
use agent_evals.RunLaunch.{
  Run, System, claimed_run, is_violation, update, with_status, with_keys, released, completed,
  find_run, Act, claims, sets_status, generates_key, mints_key, records_keys, seeds, sends,
  deletes_key, disables_key, releases, completes, perform, perform_all, LaunchRequest, pair_of,
  keys_of, launch_acts, present, finalise_run, finish_abort, launch_run,
}
use agent_evals.RunLaunch.Ends.{
  all_up, is_live, row_after, revoking, aborted, launched-Leads, row-own, row-ended, abort-Leads,
  aborted-Leads, abort-revoking, finalise-revoking, releases-does, completes-does, revoking-Leads,
  revoking-gone, revoking_nothing, is_ended,
}

-- The rest of a launch neither records keys nor takes any away.
abbrev IsLate : Act → Type 0
IsLate (sets_status run status) = Unit
IsLate (seeds now ks) = Unit
IsLate (sends k) = Unit
IsLate _ = ⊥

abbrev AllLate : List Act → Type 0
AllLate [] = Unit
AllLate (a ∷ acts) = IsLate a × AllLate acts

sends-AllLate : (ks : List Key) (acts : List Act) → AllLate acts → AllLate (map sends ks ++ acts)
sends-AllLate [] acts late = late
sends-AllLate (k ∷ ks) acts late = (tt, sends-AllLate ks acts late)

take-AllLate : (n : ℕ) (acts : List Act) → AllLate acts → AllLate (take n acts)
take-AllLate zero acts late = tt
take-AllLate (suc n) [] late = tt
take-AllLate (suc n) (a ∷ acts) (here, late) = (here, take-AllLate n acts late)

late-kept :
    (acts : List Act) (p : Run)
    → AllLate acts
    → ((own_all acts p).litellm_key_id ≡ p.litellm_key_id)
      × ((own_all acts p).openrouter_key_hash ≡ p.openrouter_key_hash)
late-kept [] p late = (refl, refl)
late-kept (sets_status run status ∷ acts) p (here, late) =
    late-kept acts (with_status status p) late
late-kept (seeds now ks ∷ acts) p (here, late) = late-kept acts p late
late-kept (sends k ∷ acts) p (here, late) = late-kept acts p late
late-kept (claims _ _ ∷ acts) p (here, late) = elim here [ ]
late-kept (generates_key _ ∷ acts) p (here, late) = elim here [ ]
late-kept (mints_key _ ∷ acts) p (here, late) = elim here [ ]
late-kept (records_keys _ _ _ ∷ acts) p (here, late) = elim here [ ]
late-kept (deletes_key _ ∷ acts) p (here, late) = elim here [ ]
late-kept (disables_key _ ∷ acts) p (here, late) = elim here [ ]
late-kept (releases _ ∷ acts) p (here, late) = elim here [ ]
late-kept (completes _ ∷ acts) p (here, late) = elim here [ ]

-- What a launch does after it recorded its keys.
abbrev late_acts : LaunchRequest → List Act
late_acts q =
    sets_status q.run_id "seeding"
    ∷ seeds q.now (keys_of q)
    ∷ sets_status q.run_id "dispatching"
    ∷ (map sends (keys_of q) ++ sets_status q.run_id "running" ∷ [])

recorded :
    (q : LaunchRequest) (n : ℕ)
    → 4 ≤ n
    → ((row_after q n).litellm_key_id ≡ some q.key_id)
      × ((row_after q n).openrouter_key_hash ≡ some q.key_hash)
unfolding launch_acts
recorded q (suc (suc (suc (suc n)))) enough =
    late-kept (take n (late_acts q))
      (with_keys q.key_id q.key_hash
        (with_status "provisioning" (claimed_run q.run_id (pair_of q))))
      (take-AllLate n (late_acts q) (tt, (tt, (tt, sends-AllLate (keys_of q) _ (tt, tt)))))
recorded q zero enough = absurd (omega arith)
recorded q (suc zero) enough = absurd (omega arith)
recorded q (suc (suc zero)) enough = absurd (omega arith)
recorded q (suc (suc (suc zero))) enough = absurd (omega arith)

present-some :
    (o : Option String) (k : String) → o ≡ some k → (k =s "") ≡ false → present o ≡ some k
present-some o k e h = rw (e, h) refl

-- The end of a run whose two keys are recorded.
gone :
    (run i h : String) (p : Run) (s t : System) (a : Act) (f : Run → Run)
    → p.run_id ≡ run
    → Leads p s
    → ((t : System) → perform a t ≡ record t { runs = update run f t.runs })
    → present p.litellm_key_id ≡ some i
    → present p.openrouter_key_hash ≡ some h
    → t ≡ perform_all (revoking run (present p.litellm_key_id) (present p.openrouter_key_hash) a) s
    → (is_live run t.virtual_keys ≡ false) × (is_live h t.provider_keys ≡ false)
gone run i h p s t a f same v does id hash e =
    let e' : t ≡ perform_all (revoking run (some i) (some h) a) s =
      e
      ∙ ap (λ o. perform_all (revoking run o (present p.openrouter_key_hash) a) s) id
      ∙ ap (λ o. perform_all (revoking run (some i) o a) s) hash in
    let (no_key, no_hash) = revoking-gone run p s same v a f does i h in
    (
      ap (λ t. is_live run t.virtual_keys) e' ∙ no_key,
      ap (λ t. is_live h t.provider_keys) e' ∙ no_hash,
    )

-- A launch, of a free pair and with a fresh id, that recorded its keys, whose ids are not empty, leaves none
-- behind, wherever it was cut off after that: once an abort or a close of the run ended, with every call carried
-- out, neither key works, and the pair is released.
pub launch_run-revoked :
    (n : ℕ) (q : LaunchRequest) (s : System)
    → is_violation q.run_id (pair_of q) s.runs ≡ false
    → 4 ≤ n
    → (q.key_id =s "") ≡ false
    → (q.key_hash =s "") ≡ false
    → ((is_live q.run_id (finish_abort all_up q.run_id (launch_run false n q s).0).virtual_keys
          ≡ false)
        × (is_live q.key_hash
              (finish_abort all_up q.run_id (launch_run false n q s).0).provider_keys
            ≡ false)
        × (is_ended "aborted"
              (find_run q.run_id (finish_abort all_up q.run_id (launch_run false n q s).0).runs)
            ≡ true))
      × ((is_live q.run_id (finalise_run all_up q.run_id (launch_run false n q s).0).virtual_keys
            ≡ false)
          × (is_live q.key_hash
                (finalise_run all_up q.run_id (launch_run false n q s).0).provider_keys
              ≡ false)
          × (is_ended "completed"
                (find_run q.run_id (finalise_run all_up q.run_id (launch_run false n q s).0).runs)
              ≡ true))
launch_run-revoked n q s free enough id hash =
    let u = (launch_run false n q s).0 in
    let p = row_after q n in
    let v = launched-Leads n q s free in
    let same = row-own q n in
    let (key, sum) = recorded q n enough in
    let id' = present-some p.litellm_key_id q.key_id key id in
    let hash' = present-some p.openrouter_key_hash q.key_hash sum hash in
    let finished = subst (Leads (completed p)) (sym (finalise-revoking q.run_id p u same v)) (
      revoking-Leads q.run_id p u same v (completes q.run_id) completed (completes-does q.run_id)
        (present p.litellm_key_id) (present p.openrouter_key_hash)) in
    let (abort_key, abort_hash) =
      gone q.run_id q.key_id q.key_hash (with_status "aborted" p) (aborted q.run_id u)
        (finish_abort all_up q.run_id u) (releases q.run_id) released same
        (aborted-Leads q.run_id p u same v) (releases-does q.run_id) id' hash'
        (abort-revoking q.run_id p u same v) in
    let (close_key, close_hash) =
      gone q.run_id q.key_id q.key_hash p u (finalise_run all_up q.run_id u) (completes q.run_id)
        completed same v (completes-does q.run_id) id' hash'
        (finalise-revoking q.run_id p u same v) in
    (
      (
        abort_key,
        abort_hash,
        row-ended "aborted" q.run_id (released (with_status "aborted" p)) _ same
            (abort-Leads q.run_id p u same v) refl refl,
      ),
      (
        close_key,
        close_hash,
        row-ended "completed" q.run_id (completed p) _ same finished refl refl,
      ),
    )

aborted_keys : (run : String) (s : System) → (aborted run s).virtual_keys ≡ s.virtual_keys
unfolding perform
aborted_keys run s = refl

unrecorded :
    (n : ℕ) (q : LaunchRequest) (s : System)
    → is_violation q.run_id (pair_of q) s.runs ≡ false
    → 2 ≤ n
    → n ≤ 3
    → ((row_after q n).litellm_key_id ≡ none)
      × ((row_after q n).openrouter_key_hash ≡ none)
      × (is_live q.run_id (launch_run false n q s).0.virtual_keys ≡ true)
unfolding launch_acts launch_run perform_all perform
unrecorded zero q s free more less = absurd (omega arith)
unrecorded (suc zero) q s free more less = absurd (omega arith)
unrecorded (suc (suc zero)) q s free more less = (refl, refl, rw (free, =s_refl q.run_id) refl)
unrecorded (suc (suc (suc zero))) q s free more less =
    (refl, refl, rw (free, =s_refl q.run_id) refl)
unrecorded (suc (suc (suc (suc n)))) q s free more less = absurd (omega arith)

-- Keys that were minted and not recorded outlive the run: after a launch, of a free pair and with a fresh id,
-- that was cut off between the two, as by OpenRouter's refusal or by the wait for the rotated key, an abort with
-- every call carried out ends the run, releases its pair, and leaves its virtual key working.
pub launch_run-leak :
    (n : ℕ) (q : LaunchRequest) (s : System)
    → is_violation q.run_id (pair_of q) s.runs ≡ false
    → 2 ≤ n
    → n ≤ 3
    → (is_live q.run_id (finish_abort all_up q.run_id (launch_run false n q s).0).virtual_keys
        ≡ true)
      × (is_ended "aborted"
            (find_run q.run_id (finish_abort all_up q.run_id (launch_run false n q s).0).runs)
          ≡ true)
launch_run-leak n q s free more less =
    let u = (launch_run false n q s).0 in
    let p = row_after q n in
    let v = launched-Leads n q s free in
    let same = row-own q n in
    let (id, hash, live) = unrecorded n q s free more less in
    let e =
      abort-revoking q.run_id p u same v
      ∙ ap
          (λ o.
            perform_all
              (revoking q.run_id (present o) (present p.openrouter_key_hash) (releases q.run_id))
              (aborted q.run_id u))
          id
      ∙ ap
          (λ o.
            perform_all (revoking q.run_id none (present o) (releases q.run_id))
              (aborted q.run_id u))
          hash in
    (
      ap (λ t. is_live q.run_id t.virtual_keys) e
          ∙ ap (is_live q.run_id) (
              revoking_nothing q.run_id (with_status "aborted" p) (aborted q.run_id u) same
                (aborted-Leads q.run_id p u same v) (releases q.run_id) released
                (releases-does q.run_id)
              ∙ aborted_keys q.run_id u)
          ∙ live,
      row-ended "aborted" q.run_id (released (with_status "aborted" p)) _ same
          (abort-Leads q.run_id p u same v) refl refl,
    )
