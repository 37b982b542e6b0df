-- ===== src/Restart/Fresh.antt =====
-- restart.py: the attempts that a restart or a regrade adds are new, and nothing else of the table changes.
use agent_evals.Prelude.{
  ℕ, ◌+◌, ◌≤◌, ◌≡◌, refl, sym, ap, ◌∙◌, String, Bool, true, false, ◌&&◌, Option, none, some, [],
  ◌∷◌, ◌++◌, ◌=s◌, =s_refl, if◌then◌else◌, Bool-cases, Option-cases, inl, inr, arith,
}
use agent_evals.Results.{text, Key, Row}
use agent_evals.Results.Table.{Table, same_key, same_key-eq, find, put_row, find-put_row}
use agent_evals.Results.Write.{seeded}
use agent_evals.Restart.{
  first_of, latest_attempt, Skip, unknown_instance, in_flight, no_patch, Added, Batch, insert,
  next_key, skip, with_rows, add, is_in_flight, classify, restart_one, latest_patch, regrade_patch,
  regrade_one,
}

-- The latest row of an instance has its highest attempt number.
first_of-max :
    (x : Key × Row) (o : Option (Key × Row)) (n : ℕ)
    → n ≤ (x.0).attempt_number
    → n ≤ ((first_of x o).0).attempt_number
first_of-max x none n h = h
first_of-max x (some y) n h = ground arith

latest_rest : (x y : Key × Row) → ((y.0).attempt_number ≤ ((first_of x (some y)).0).attempt_number)
latest_rest x y = ground arith

abbrev pub Below : ℕ → Option (Key × Row) → Type 0
Below n none = ⊥
Below n (some y) = n ≤ (y.0).attempt_number

first_of-Below :
    (x : Key × Row) (o : Option (Key × Row)) (n : ℕ) → Below n o → Below n (some (first_of x o))
first_of-Below x none n h = elim h [ ]
first_of-Below x (some y) n h = let more = latest_rest x y in omega (arith, more)

own_row : (a b run instance : String) → a ≡ run → b ≡ instance → (a =s run && b =s instance) ≡ true
own_row a b run instance e f = rw (e, f, =s_refl run, =s_refl instance) refl

le_of_eq : (m n : ℕ) → m ≡ n → m ≤ n
le_of_eq m n e = omega arith

pub some_eq : {A : Type 0} (a b : A) → some a ≡ some b → b ≡ a
some_eq a b h = cc

if_Below :
    (n : ℕ) (b : Bool) (x : Key × Row) (o : Option (Key × Row))
    → Below n o
    → Below n (if b then some (first_of x o) else o)
if_Below n true x o h = first_of-Below x o n h
if_Below n false x o h = h

pub latest_attempt-max :
    (run instance : String) (t : Table) (j : Key) (q : Row)
    → j.run_id ≡ run
    → j.instance_id ≡ instance
    → find j t ≡ some q
    → Below j.attempt_number (latest_attempt run instance t)
unfolding latest_attempt find
latest_attempt-max run instance [] j q own same h = absurd cc
latest_attempt-max run instance ((k, r) ∷ t) j q own same h = elim (Bool-cases (same_key k j)) [
  | inl e ↦
      let eq : k ≡ j = same_key-eq k j e in
      let here : (k.run_id =s run && k.instance_id =s instance) ≡ true =
        own_row (k.run_id) (k.instance_id) run instance (ap (λ k. k.run_id) eq ∙ own)
          (ap (λ k. k.instance_id) eq ∙ same) in
      rw here (
        first_of-max (k, r) (latest_attempt run instance t) j.attempt_number
          (le_of_eq _ _ (sym (ap (λ k. k.attempt_number) eq))))
  | inr e ↦
      let h' : find j t ≡ some q = rw e at h in
      let below = latest_attempt-max run instance t j q own same h' in
      if_Below j.attempt_number (k.run_id =s run && k.instance_id =s instance) (k, r)
        (latest_attempt run instance t) below
]

-- A row that stands in the table stands in another.
abbrev pub Extends : Table → Table → Type 0
Extends t u = (j : Key) (r : Row) → find j t ≡ some r → find j u ≡ some r

pub insert-none :
    (k : Key) (r : Row) (t u : Table)
    → insert k r t ≡ some u
    → (find k t ≡ none) × (u ≡ put_row k r t)
unfolding insert
insert-none k r t u h = elim (Option-cases (find k t)) [
  | inl e ↦ (e, some_eq _ _ (rw e at h))
  | inr (q, e) ↦ let bad : none ≡ some u = rw e at h in absurd cc
]

pub insert-Extends : (k : Key) (r : Row) (t u : Table) → insert k r t ≡ some u → Extends t u
insert-Extends k r t u h j q here =
    let (absent, same) = insert-none k r t u h in
    rw (same, find-put_row k j r t)
      (elim (Bool-cases (same_key k j)) [
        | inl e ↦
            let there : find k t ≡ some q = ap (λ k. find k t) (same_key-eq k j e) ∙ here in
            absurd (cc)
        | inr e ↦ rw e here
      ])

-- What either loop's body makes of a batch: an instance skipped, or an attempt added after its latest one.
pub data Outcome (run phase instance : String) (latest : Option (Key × Row)) (b c : Batch)
    : Type 0 where
  skips : c.rows ≡ b.rows → c.added ≡ b.added → Outcome run phase instance latest b c
  adds :
      (k : Key) (r q : Row) (note : String)
      → latest ≡ some (k, q)
      → r.state ≡ "PENDING"
      → insert (next_key run instance phase k) r b.rows ≡ some c.rows
      → c.added
        ≡ b.added
          ++ (record { instance_id = instance; attempt_number = k.attempt_number + 1; note = note })
            ∷ []
      → Outcome run phase instance latest b c

add-Outcome :
    (now : ℕ) (run phase instance : String) (k : Key) (q : Row) (reason note : String) (b c : Batch)
    → add now (next_key run instance phase k) reason note b ≡ some c
    → Outcome run phase instance (some (k, q)) b c
unfolding seeded
add-Outcome now run phase instance k q reason note b c h = go (insert key new b.rows) refl h
  where
    key : Key
    key = next_key run instance phase k

    new : Row
    new = seeded now (text reason)

    a : Added
    a = record { instance_id = instance; attempt_number = k.attempt_number + 1; note = note }

    go :
        (o : Option Table)
        → insert key new b.rows ≡ o
        → with_rows a b o ≡ some c
        → Outcome run phase instance (some (k, q)) b c
    go none e f = absurd cc
    go (some u) e f =
        let done = some_eq _ _ f in
        adds k new q note refl refl (e ∙ ap some (sym (ap (λ c. c.rows) done)))
          (ap (λ c. c.added) done)

skip-Outcome :
    (run phase instance : String) (latest : Option (Key × Row)) (why : Skip) (b c : Batch)
    → skip instance why b ≡ some c
    → Outcome run phase instance latest b c
skip-Outcome run phase instance latest why b c h =
    let done = some_eq _ _ h in skips (ap (λ c. c.rows) done) (ap (λ c. c.added) done)

pub restart_one-Outcome :
    (now : ℕ) (run instance : String) (latest : Option (Key × Row)) (b c : Batch)
    → restart_one now run instance latest b ≡ some c
    → Outcome run "harness" instance latest b c
unfolding restart_one
restart_one-Outcome now run instance none b c h =
    skip-Outcome run "harness" instance none unknown_instance b c h
restart_one-Outcome now run instance (some (k, r)) b c h = elim (Bool-cases (is_in_flight r)) [
  | inl e ↦ skip-Outcome run "harness" instance _ in_flight b c (rw e at h)
  | inr e ↦ add-Outcome now run "harness" instance k r (classify r) (classify r) b c (rw e at h)
]

regrade_patch-Outcome :
    (now : ℕ) (run instance : String) (k : Key) (q : Row) (patch : Option (ℕ × String))
    (b c : Batch)
    → regrade_patch now run instance k patch b ≡ some c
    → Outcome run "eval" instance (some (k, q)) b c
regrade_patch-Outcome now run instance k q none b c h =
    skip-Outcome run "eval" instance _ no_patch b c h
regrade_patch-Outcome now run instance k q (some (n, patch)) b c h =
    add-Outcome now run "eval" instance k q "operator_regrade" patch b c h

pub regrade_one-Outcome :
    (now : ℕ) (run instance : String) (latest : Option (Key × Row)) (b c : Batch)
    → regrade_one now run instance latest b ≡ some c
    → Outcome run "eval" instance latest b c
unfolding regrade_one
regrade_one-Outcome now run instance none b c h =
    skip-Outcome run "eval" instance none unknown_instance b c h
regrade_one-Outcome now run instance (some (k, r)) b c h = elim (Bool-cases (is_in_flight r)) [
  | inl e ↦ skip-Outcome run "eval" instance _ in_flight b c (rw e at h)
  | inr e ↦
      regrade_patch-Outcome now run instance k r (latest_patch run instance b.rows) b c (rw e at h)
]
