-- ===== src/RunLaunch/Seeds.antt =====
-- run_launch.py: a job is sent only with its row.
use agent_evals.Prelude.{
  ℕ, zero, suc, ◌≡◌, refl, sym, ap, subst, ◌∙◌, String, Bool, true, false, ◌||◌, List, [], ◌∷◌,
  ◌++◌, is_some, any, map, take, Bool-cases, inl, inr, arith,
}
use agent_evals.Prelude.Text.{Text}
use agent_evals.Results.{null, Key}
use agent_evals.Results.Table.{Table, same_key, same_key-eq, same_key_refl, find, find-put_row}
use agent_evals.Results.Write.{seeded}
use agent_evals.RunLaunch.{
  System, is_violation, seed_row, seed_rows, Act, claims, sets_status, generates_key, mints_key,
  records_keys, seeds, sends, deletes_key, disables_key, releases, completes, perform, perform_all,
  LaunchRequest, pair_of, keys_of, launch_acts, launch_run,
}

-- Each of the attempts has its row.
abbrev pub AllSeeded : List Key → Table → Type 0
AllSeeded [] t = Unit
AllSeeded (k ∷ ks) t = (is_some (find k t) ≡ true) × AllSeeded ks t

AllSeeded-append :
    (js ks : List Key) (t : Table) → AllSeeded js t → AllSeeded ks t → AllSeeded (js ++ ks) t
AllSeeded-append [] ks t v w = w
AllSeeded-append (j ∷ js) ks t (here, v) w = (here, AllSeeded-append js ks t v w)

seed_row-find :
    (now : ℕ) (k j : Key) (t : Table)
    → is_some (find j (seed_row now k t)) ≡ (same_key k j || is_some (find j t))
unfolding seed_row
seed_row-find now k j t = elim (Bool-cases (is_some (find k t))) [
  | inr e ↦ rw (e, find-put_row k j (seeded now null) t) (ground arith)
  | inl e ↦ elim (Bool-cases (same_key k j)) [
    | inl f ↦
        let there : is_some (find j t) ≡ true =
          ap (λ x. is_some (find x t)) (sym (same_key-eq k j f)) ∙ e in
        rw (e, f, there) refl
    | inr f ↦ rw (e, f) refl
  ]
]

seed_rows-keeps :
    (now : ℕ) (ks : List Key) (j : Key) (t : Table)
    → is_some (find j t) ≡ true
    → is_some (find j (seed_rows now ks t)) ≡ true
unfolding seed_rows
seed_rows-keeps now [] j t there = there
seed_rows-keeps now (k ∷ ks) j t there =
    seed_rows-keeps now ks j (seed_row now k t) (seed_row-find now k j t ∙ (ground arith))

pub seed_rows-AllSeeded : (now : ℕ) (ks : List Key) (t : Table) → AllSeeded ks (seed_rows now ks t)
unfolding seed_rows
seed_rows-AllSeeded now [] t = tt
seed_rows-AllSeeded now (k ∷ ks) t =
    let here : is_some (find k (seed_row now k t)) ≡ true =
      seed_row-find now k k t ∙ (rw (same_key_refl k) refl) in
    (
      seed_rows-keeps now ks k (seed_row now k t) here,
      seed_rows-AllSeeded now ks (seed_row now k t),
    )

kept-AllSeeded :
    (now : ℕ) (ks js : List Key) (t : Table) → AllSeeded js t → AllSeeded js (seed_rows now ks t)
kept-AllSeeded now ks [] t v = tt
kept-AllSeeded now ks (j ∷ js) t (here, v) =
    (seed_rows-keeps now ks j t here, kept-AllSeeded now ks js t v)

member-seeded :
    (ks : List Key) (k : Key) (t : Table)
    → AllSeeded ks t
    → any (λ j. same_key j k) ks ≡ true
    → is_some (find k t) ≡ true
member-seeded [] k t v h = absurd (cc)
member-seeded (j ∷ ks) k t (here, v) h = elim (Bool-cases (same_key j k)) [
  | inl e ↦ ap (λ x. is_some (find x t)) (sym (same_key-eq j k e)) ∙ here
  | inr e ↦ member-seeded ks k t v (rw e at h)
]

-- A job is sent only for an attempt of a batch that was seeded before it.
abbrev Guarded : List Key → List Act → Type 0
Guarded ks [] = Unit
Guarded ks (seeds now js ∷ acts) = Guarded (js ++ ks) acts
Guarded ks (sends k ∷ acts) = (any (λ j. same_key j k) ks ≡ true) × Guarded ks acts
Guarded ks (a ∷ acts) = Guarded ks acts

pub claim_leaves :
    (run : String) (key : Text) (s : System)
    → ((perform (claims run key) s).rows ≡ s.rows) × ((perform (claims run key) s).jobs ≡ s.jobs)
unfolding perform
claim_leaves run key s = elim (Bool-cases (is_violation run key s.runs)) [
  | inl e ↦ rw e (refl, refl)
  | inr e ↦ rw e (refl, refl)
]

perform_all-AllSeeded :
    (n : ℕ) (acts : List Act) (ks : List Key) (s : System)
    → Guarded ks acts
    → AllSeeded ks s.rows
    → AllSeeded s.jobs s.rows
    → AllSeeded (perform_all (take n acts) s).jobs (perform_all (take n acts) s).rows
unfolding perform_all perform
perform_all-AllSeeded zero acts ks s g v w = w
perform_all-AllSeeded (suc n) [] ks s g v w = w
perform_all-AllSeeded (suc n) (claims run key ∷ acts) ks s g v w =
    let (rows, jobs) = claim_leaves run key s in
    perform_all-AllSeeded n acts ks (perform (claims run key) s) g
      (subst (AllSeeded ks) (sym rows) v)
      (subst (λ x. AllSeeded x (perform (claims run key) s).rows) (sym jobs)
        (subst (AllSeeded s.jobs) (sym rows) w))
perform_all-AllSeeded (suc n) (seeds now js ∷ acts) ks s g v w =
    perform_all-AllSeeded n acts (js ++ ks) _ g
      (AllSeeded-append js ks _ (seed_rows-AllSeeded now js s.rows)
        (kept-AllSeeded now js ks s.rows v))
      (kept-AllSeeded now js s.jobs s.rows w)
perform_all-AllSeeded (suc n) (sends k ∷ acts) ks s (here, g) v w =
    perform_all-AllSeeded n acts ks _ g v
      (AllSeeded-append s.jobs (k ∷ []) s.rows w (member-seeded ks k s.rows v here, tt))
perform_all-AllSeeded (suc n) (sets_status run status ∷ acts) ks s g v w =
    perform_all-AllSeeded n acts ks _ g v w
perform_all-AllSeeded (suc n) (generates_key run ∷ acts) ks s g v w =
    perform_all-AllSeeded n acts ks _ g v w
perform_all-AllSeeded (suc n) (mints_key hash ∷ acts) ks s g v w =
    perform_all-AllSeeded n acts ks _ g v w
perform_all-AllSeeded (suc n) (records_keys run id hash ∷ acts) ks s g v w =
    perform_all-AllSeeded n acts ks _ g v w
perform_all-AllSeeded (suc n) (deletes_key run ∷ acts) ks s g v w =
    perform_all-AllSeeded n acts ks _ g v w
perform_all-AllSeeded (suc n) (disables_key hash ∷ acts) ks s g v w =
    perform_all-AllSeeded n acts ks _ g v w
perform_all-AllSeeded (suc n) (releases run ∷ acts) ks s g v w =
    perform_all-AllSeeded n acts ks _ g v w
perform_all-AllSeeded (suc n) (completes run ∷ acts) ks s g v w =
    perform_all-AllSeeded n acts ks _ g v w

AllNamed : List Key → List Key → Type 0
AllNamed ks [] = Unit
AllNamed ks (j ∷ js) = (any (λ i. same_key i j) ks ≡ true) × AllNamed ks js

sends-Guarded :
    (ks js : List Key) (acts : List Act)
    → AllNamed ks js
    → Guarded ks acts
    → Guarded ks (map sends js ++ acts)
unfolding AllNamed
sends-Guarded ks [] acts v g = g
sends-Guarded ks (j ∷ js) acts (here, v) g = (here, sends-Guarded ks js acts v g)

AllNamed-more : (k : Key) (ks js : List Key) → AllNamed ks js → AllNamed (k ∷ ks) js
unfolding AllNamed
AllNamed-more k ks [] v = tt
AllNamed-more k ks (j ∷ js) (here, v) = (ground arith, AllNamed-more k ks js v)

AllNamed-refl : (ks more : List Key) → AllNamed (ks ++ more) ks
unfolding AllNamed
AllNamed-refl [] more = tt
AllNamed-refl (k ∷ ks) more =
    let here = same_key_refl k in
    (rw here refl, AllNamed-more k (ks ++ more) ks (AllNamed-refl ks more))

launch_acts-Guarded : (q : LaunchRequest) → Guarded [] (launch_acts q)
unfolding launch_acts
launch_acts-Guarded q =
    sends-Guarded (keys_of q ++ []) (keys_of q) _ (AllNamed-refl (keys_of q) []) tt

-- Wherever a launch is cut off, and whatever it meets, a job that it sent has its row: where each job has one
-- before the launch, each has one after it.
pub launch_run-AllSeeded :
    (is_paused : Bool) (n : ℕ) (q : LaunchRequest) (s : System)
    → AllSeeded s.jobs s.rows
    → AllSeeded (launch_run is_paused n q s).0.jobs (launch_run is_paused n q s).0.rows
unfolding launch_run perform
launch_run-AllSeeded true n q s v = v
launch_run-AllSeeded false n q s v = elim (Bool-cases (is_violation q.run_id (pair_of q) s.runs)) [
  | inl e ↦ rw e v
  | inr e ↦ rw e (perform_all-AllSeeded n (launch_acts q) [] _ (launch_acts-Guarded q) tt v)
]
