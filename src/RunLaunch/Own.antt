-- ===== src/RunLaunch/Own.antt =====
-- run_launch.py: what the acts of a launch do to the run's own row, the first of the table since its claim.
use agent_evals.Prelude.{
  ℕ, zero, suc, ◌≡◌, refl, sym, ap, ◌∙◌, String, false, some, List, [], ◌∷◌, ◌++◌, =s_refl, map,
  take,
}
use agent_evals.Prelude.Text.{Text}
use agent_evals.Results.{Key}
use agent_evals.RunLaunch.{
  Run, System, claimed_run, is_violation, update, with_status, with_keys, find_run, Act, claims,
  sets_status, generates_key, mints_key, records_keys, seeds, sends, deletes_key, disables_key,
  releases, completes, perform, perform_all, LaunchRequest, pair_of, keys_of, launch_acts,
}

-- The row of a run is the first of the table.
pub record Leads (p : Run) (s : System) : Type 0 where
  pub others : List Run
  pub first : s.runs ≡ p ∷ others

-- The acts of one launch.
abbrev pub IsOwn : String → Act → Type 0
IsOwn run (sets_status r status) = r ≡ run
IsOwn run (generates_key r) = Unit
IsOwn run (mints_key hash) = Unit
IsOwn run (records_keys r id hash) = r ≡ run
IsOwn run (seeds now ks) = Unit
IsOwn run (sends k) = Unit
IsOwn run _ = ⊥

abbrev pub AllOwn : String → List Act → Type 0
AllOwn run [] = Unit
AllOwn run (a ∷ acts) = IsOwn run a × AllOwn run acts

-- The run's row after an act, and after several.
abbrev pub own : Act → Run → Run
own (sets_status r status) p = with_status status p
own (records_keys r id hash) p = with_keys id hash p
own _ p = p

abbrev pub own_all : List Act → Run → Run
own_all [] p = p
own_all (a ∷ acts) p = own_all acts (own a p)

update-first :
    (run : String) (f : Run → Run) (p : Run) (rs : List Run)
    → p.run_id ≡ run
    → update run f (p ∷ rs) ≡ f p ∷ update run f rs
unfolding update
update-first run f p rs same = rw (same, =s_refl run) refl

pub updates-Leads :
    (run : String) (f : Run → Run) (p : Run) (s : System) (u : List Run)
    → p.run_id ≡ run
    → Leads p s
    → u ≡ update run f s.runs
    → Leads (f p) (record s { runs = u })
updates-Leads run f p s u same v e = record {
  others = update run f v.others;
  first = e ∙ ap (update run f) v.first ∙ update-first run f p v.others same;
}

perform-Leads :
    (run : String) (a : Act) (p : Run) (s : System)
    → IsOwn run a
    → p.run_id ≡ run
    → Leads p s
    → Leads (own a p) (perform a s) × ((own a p).run_id ≡ run)
unfolding perform
perform-Leads run (sets_status r status) p s mine same v =
    (updates-Leads r (with_status status) p s _ (same ∙ sym mine) v refl, same)
perform-Leads run (records_keys r id hash) p s mine same v =
    (updates-Leads r (with_keys id hash) p s _ (same ∙ sym mine) v refl, same)
perform-Leads run (generates_key r) p s mine same v =
    (record { others = v.others; first = v.first }, same)
perform-Leads run (mints_key hash) p s mine same v =
    (record { others = v.others; first = v.first }, same)
perform-Leads run (seeds now ks) p s mine same v =
    (record { others = v.others; first = v.first }, same)
perform-Leads run (sends k) p s mine same v = (record { others = v.others; first = v.first }, same)
perform-Leads run (claims _ _) p s mine same v = elim mine [ ]
perform-Leads run (deletes_key _) p s mine same v = elim mine [ ]
perform-Leads run (disables_key _) p s mine same v = elim mine [ ]
perform-Leads run (releases _) p s mine same v = elim mine [ ]
perform-Leads run (completes _) p s mine same v = elim mine [ ]

pub perform_all-Leads :
    (run : String) (acts : List Act) (p : Run) (s : System)
    → AllOwn run acts
    → p.run_id ≡ run
    → Leads p s
    → Leads (own_all acts p) (perform_all acts s)
unfolding perform_all
perform_all-Leads run [] p s mine same v = v
perform_all-Leads run (a ∷ acts) p s (here, mine) same v =
    let (v', same') = perform-Leads run a p s here same v in
    perform_all-Leads run acts (own a p) (perform a s) mine same' v'

sends-AllOwn :
    (run : String) (ks : List Key) (acts : List Act)
    → AllOwn run acts
    → AllOwn run (map sends ks ++ acts)
sends-AllOwn run [] acts mine = mine
sends-AllOwn run (k ∷ ks) acts mine = (tt, sends-AllOwn run ks acts mine)

pub launch_acts-AllOwn : (q : LaunchRequest) → AllOwn q.run_id (launch_acts q)
unfolding launch_acts
launch_acts-AllOwn q =
    (refl, (tt, (tt, (refl, (refl, (tt, (refl, sends-AllOwn q.run_id (keys_of q) _ (refl, tt))))))))

pub take-AllOwn :
    (run : String) (n : ℕ) (acts : List Act) → AllOwn run acts → AllOwn run (take n acts)
take-AllOwn run zero acts mine = tt
take-AllOwn run (suc n) [] mine = tt
take-AllOwn run (suc n) (a ∷ acts) (here, mine) = (here, take-AllOwn run n acts mine)

pub claim-Leads :
    (run : String) (key : Text) (s : System)
    → is_violation run key s.runs ≡ false
    → Leads (claimed_run run key) (perform (claims run key) s)
unfolding perform
claim-Leads run key s free = rw free (record { others = s.runs; first = refl })

-- The row of a launch that was cut off anywhere.
pub launch-Leads :
    (q : LaunchRequest) (n : ℕ) (s : System)
    → is_violation q.run_id (pair_of q) s.runs ≡ false
    → Leads
        (own_all (take n (launch_acts q)) (claimed_run q.run_id (pair_of q)))
        (perform_all (take n (launch_acts q)) (perform (claims q.run_id (pair_of q)) s))
launch-Leads q n s free =
    perform_all-Leads q.run_id (take n (launch_acts q)) (claimed_run q.run_id (pair_of q)) _
      (take-AllOwn q.run_id n (launch_acts q) (launch_acts-AllOwn q)) refl
      (claim-Leads q.run_id (pair_of q) s free)

pub find_run-first :
    (run : String) (p : Run) (s : System)
    → p.run_id ≡ run
    → Leads p s
    → find_run run s.runs ≡ some p
unfolding find_run
find_run-first run p s same v = rw (v.first, same, =s_refl run) refl

-- A launch keeps the id and the pair of its row.
pub own-kept :
    (acts : List Act) (p : Run)
    → ((own_all acts p).run_id ≡ p.run_id) × ((own_all acts p).active_key ≡ p.active_key)
own-kept [] p = (refl, refl)
own-kept (a ∷ acts) p =
    let (id, key) = own-kept acts (own a p) in let (id', key') = step a in (id ∙ id', key ∙ key')
  where
    step : (a : Act) → ((own a p).run_id ≡ p.run_id) × ((own a p).active_key ≡ p.active_key)
    step (claims run key) = (refl, refl)
    step (sets_status run status) = (refl, refl)
    step (generates_key run) = (refl, refl)
    step (mints_key hash) = (refl, refl)
    step (records_keys run id hash) = (refl, refl)
    step (seeds now ks) = (refl, refl)
    step (sends k) = (refl, refl)
    step (deletes_key run) = (refl, refl)
    step (disables_key hash) = (refl, refl)
    step (releases run) = (refl, refl)
    step (completes run) = (refl, refl)
