-- ===== src/RunLaunch/Ends.antt =====
-- run_launch.py and abort.py: the end of a run, by its close or by an abort, on a run's own row.
use agent_evals.Prelude.{
  ℕ, ◌≡◌, refl, sym, ap, subst, ◌∙◌, String, Bool, true, false, not, ◌&&◌, Option, none, some, List,
  [], ◌∷◌, ◌++◌, ◌=s◌, =s_refl, any, is_some, keep, take, arith,
}
use agent_evals.RunLaunch.Own.{
  Leads, own_all, own-kept, updates-Leads, launch-Leads, find_run-first,
}
use agent_evals.RunLaunch.{
  Run, System, claimed_run, is_violation, update, with_status, released, completed, find_run, Act,
  claims, sets_status, releases, completes, perform, perform_all, LaunchRequest, pair_of,
  launch_acts, Calls, present, delete_acts, disable_acts, disable_raises, revoke_run_keys,
  then_acts, finalise_run, finish_abort, launch_run,
}

-- All calls of a revocation are carried out.
abbrev pub all_up : Calls
all_up = record { deletes = true; has_provisioning_key = true; disables = true }

abbrev pub is_live : String → List String → Bool
is_live k ks = any (λ j. j =s k) ks

pub keep-gone : (k : String) (ks : List String) → is_live k (keep (λ j. not (j =s k)) ks) ≡ false
keep-gone k [] = refl
keep-gone k (j ∷ ks) = ground (arith, keep-gone k ks)

-- The run's row after so many acts of its launch.
abbrev pub row_after : LaunchRequest → ℕ → Run
row_after q n = own_all (take n (launch_acts q)) (claimed_run q.run_id (pair_of q))

-- A revocation whose calls are all carried out, and the act after it.
abbrev pub revoking : String → Option String → Option String → Act → List Act
revoking run id hash a =
    then_acts (delete_acts all_up run id ++ disable_acts all_up hash, disable_raises all_up hash)
      (a ∷ [])

module _ (run : String) (p : Run) (s : System) (same : p.run_id ≡ run) (v : Leads p s) (a : Act)
    (f : Run → Run)
    (does : (t : System) → perform a t ≡ record t { runs = update run f t.runs }) where
  last-Leads : (t : System) → t.runs ≡ s.runs → Leads (f p) (perform a t)
  last-Leads t e =
      let w : Leads p t = record { others = v.others; first = e ∙ v.first } in
      subst (Leads (f p)) (sym (does t)) (updates-Leads run f p t (update run f t.runs) same w refl)

  pub revoking-Leads :
      (id hash : Option String) → Leads (f p) (perform_all (revoking run id hash a) s)
  unfolding perform_all perform
  revoking-Leads none none = last-Leads s refl
  revoking-Leads none (some h) = last-Leads _ refl
  revoking-Leads (some i) none = last-Leads _ refl
  revoking-Leads (some i) (some h) = last-Leads _ refl

  pub revoking-gone :
      (i h : String)
      → (is_live run (perform_all (revoking run (some i) (some h) a) s).virtual_keys ≡ false)
        × (is_live h (perform_all (revoking run (some i) (some h) a) s).provider_keys ≡ false)
  unfolding perform_all perform
  revoking-gone i h = (
    ap (λ t. is_live run t.virtual_keys) (does _) ∙ keep-gone run s.virtual_keys,
    ap (λ t. is_live h t.provider_keys) (does _) ∙ keep-gone h s.provider_keys,
  )

  pub revoking_nothing : (perform_all (revoking run none none a) s).virtual_keys ≡ s.virtual_keys
  unfolding perform_all
  revoking_nothing = ap (λ t. t.virtual_keys) (does s)

abbrev pub aborted : String → System → System
aborted run s = perform (sets_status run "aborted") s

-- The end of a run is a revocation of the keys that its row names.
module _ (run : String) (p : Run) (s : System) (same : p.run_id ≡ run) (v : Leads p s) where
  pub finalise-revoking :
      finalise_run all_up run s
      ≡ perform_all
          (revoking run (present p.litellm_key_id) (present p.openrouter_key_hash) (completes run))
          s
  unfolding finalise_run revoke_run_keys
  finalise-revoking =
      ap (λ o. perform_all (then_acts (revoke_run_keys all_up run o) (completes run ∷ [])) s)
        (find_run-first run p s same v)

  pub aborted-Leads : Leads (with_status "aborted" p) (aborted run s)
  unfolding perform
  aborted-Leads = updates-Leads run (with_status "aborted") p s _ same v refl

  pub abort-revoking :
      finish_abort all_up run s
      ≡ perform_all
          (revoking run (present p.litellm_key_id) (present p.openrouter_key_hash) (releases run))
          (aborted run s)
  unfolding finish_abort revoke_run_keys
  abort-revoking =
      ap
        (λ o.
          perform_all (then_acts (revoke_run_keys all_up run o) (releases run ∷ []))
            (aborted run s))
        (find_run-first run (with_status "aborted" p) (aborted run s) same aborted-Leads)

pub releases-does :
    (run : String) (t : System)
    → perform (releases run) t ≡ record t { runs = update run released t.runs }
unfolding perform
releases-does run t = refl

pub completes-does :
    (run : String) (t : System)
    → perform (completes run) t ≡ record t { runs = update run completed t.runs }
unfolding perform
completes-does run t = refl

pub abort-Leads :
    (run : String) (p : Run) (s : System)
    → p.run_id ≡ run
    → Leads p s
    → Leads (released (with_status "aborted" p)) (finish_abort all_up run s)
abort-Leads run p s same v =
    subst (Leads (released (with_status "aborted" p))) (sym (abort-revoking run p s same v)) (
      revoking-Leads run (with_status "aborted" p) (aborted run s) same
        (aborted-Leads run p s same v) (releases run) released (releases-does run)
        (present p.litellm_key_id) (present p.openrouter_key_hash))

-- The run has a status, and its pair is released.
abbrev pub is_ended : String → Option Run → Bool
is_ended status none = false
is_ended status (some r) = r.status =s status && not (is_some r.active_key)

launch_run-state :
    (n : ℕ) (q : LaunchRequest) (s : System)
    → is_violation q.run_id (pair_of q) s.runs ≡ false
    → (launch_run false n q s).0
      ≡ perform_all (take n (launch_acts q)) (perform (claims q.run_id (pair_of q)) s)
unfolding launch_run
launch_run-state n q s free = rw free refl

pub launched-Leads :
    (n : ℕ) (q : LaunchRequest) (s : System)
    → is_violation q.run_id (pair_of q) s.runs ≡ false
    → Leads (row_after q n) (launch_run false n q s).0
launched-Leads n q s free =
    subst (Leads (row_after q n)) (sym (launch_run-state n q s free)) (launch-Leads q n s free)

pub row-own : (q : LaunchRequest) (n : ℕ) → (row_after q n).run_id ≡ q.run_id
row-own q n = (own-kept (take n (launch_acts q)) (claimed_run q.run_id (pair_of q))).0

pub row-ended :
    (status run : String) (r : Run) (t : System)
    → r.run_id ≡ run
    → Leads r t
    → r.status ≡ status
    → r.active_key ≡ none
    → is_ended status (find_run run t.runs) ≡ true
row-ended status run r t same v e f =
    ap (is_ended status) (find_run-first run r t same v) ∙ rw (e, f, =s_refl status) refl
