-- ===== src/Restart/Total.antt =====
-- restart.py: when a restart of an open run goes through, and when it does not.
use agent_evals.Prelude.{
  ℕ, ◌+◌, ◌≡◌, refl, sym, ap, ◌∙◌, subst, String, Bool, true, false, Option, none, some, List, [],
  ◌∷◌, ◌++◌, ◌=s◌, =s-eq, =s_refl, if◌then◌else◌, any, is_some, Bool-cases, Option-cases, inl, inr,
  arith,
}
use agent_evals.Lifecycle.{is_run_closed}
use agent_evals.Results.{text, Key, Row}
use agent_evals.Results.Table.{
  Table, same_key, same_key-eq, same_key_refl, find, put_row, find-put_row,
}
use agent_evals.Results.Write.{seeded}
use agent_evals.Restart.{
  latest_attempt, Added, Batch, insert, next_key, skip, in_flight, with_rows, add, is_in_flight,
  classify, restart_one, each, then_each, unique_violation, report, reply_of, start,
  restart_instances,
}
use agent_evals.Restart.Fresh.{
  Below, latest_attempt-max, insert-none, insert-Extends, Outcome, skips, adds, restart_one-Outcome,
  some_eq,
}

-- No instance is named twice.
unfoldable pub IsDistinct : List String → Type 0
IsDistinct [] = Unit
IsDistinct (i ∷ is) = (any (λ n. n =s i) is ≡ false) × IsDistinct is

-- An instance that stands at two places at least.
unfoldable pub is_twice : String → List String → Bool
is_twice i [] = false
is_twice i (x ∷ ids) = if x =s i then any (λ n. n =s i) ids else is_twice i ids

-- The next attempt of an instance is in no row.
next_free :
    (run instance phase : String) (t : Table) (k : Key) (r : Row)
    → latest_attempt run instance t ≡ some (k, r)
    → find (next_key run instance phase k) t ≡ none
next_free run instance phase t k r latest =
    elim (Option-cases (find (next_key run instance phase k) t)) [
      | inl e ↦ e
      | inr (q, e) ↦
          let below : Below (k.attempt_number + 1) (some (k, r)) =
            subst (Below (k.attempt_number + 1)) latest
              (latest_attempt-max run instance t (next_key run instance phase k) q refl refl e) in
          absurd (omega arith)
    ]

-- A body of the loop goes on, and leaves the rows of other instances as they are.
abbrev GoesOn : String → Batch → Option Batch → Type 0
GoesOn i b o =
    (m : Batch) × (o ≡ some m)
    × ((j : Key) → j.instance_id =s i ≡ false → find j m.rows ≡ find j b.rows)

insert_free :
    (k : Key) (r : Row) (t : Table) → find k t ≡ none → insert k r t ≡ some (put_row k r t)
unfolding insert
insert_free k r t free = rw free refl

elsewhere :
    (k j : Key) (new : Row) (o : Option Row)
    → j.instance_id =s k.instance_id ≡ false
    → (if same_key k j then some new else o) ≡ o
elsewhere k j new o other = elim (Bool-cases (same_key k j)) [
  | inr e ↦ rw e refl
  | inl e ↦
      let here : (j.instance_id =s k.instance_id) ≡ true =
        ap (λ i. j.instance_id =s i) (ap (λ k. k.instance_id) (same_key-eq k j e))
        ∙ =s_refl j.instance_id in
      absurd (cc)
]

add-GoesOn :
    (now : ℕ) (k : Key) (reason note : String) (b : Batch)
    → find k b.rows ≡ none
    → GoesOn k.instance_id b (add now k reason note b)
add-GoesOn now k reason note b free =
    let a : Added = record {
      instance_id = k.instance_id;
      attempt_number = k.attempt_number;
      note = note;
    } in
    let new : Row = seeded now (text reason) in
    let ins : insert k new b.rows ≡ some (put_row k new b.rows) = insert_free k new b.rows free in
    (
      record b { rows = put_row k new b.rows; added = b.added ++ a ∷ [] },
      ap (with_rows a b) ins,
      λ j other. find-put_row k j new b.rows ∙ elsewhere k j _ _ other,
    )

restart_one-GoesOn :
    (now : ℕ) (run i : String) (t : Table) (b : Batch) (latest : Option (Key × Row))
    → latest_attempt run i t ≡ latest
    → ((j : Key) → j.instance_id =s i ≡ true → find j b.rows ≡ find j t)
    → GoesOn i b (restart_one now run i latest b)
unfolding restart_one
restart_one-GoesOn now run i t b none e untouched = (_, refl, λ j other. refl)
restart_one-GoesOn now run i t b (some (k, r)) e untouched = elim (Bool-cases (is_in_flight r)) [
  | inl f ↦ rw f (_, refl, λ j other. refl)
  | inr f ↦ rw f (
      add-GoesOn now (next_key run i "harness" k) (classify r) (classify r) b
        (untouched (next_key run i "harness" k) (=s_refl i) ∙ next_free run i "harness" t k r e))
]

-- The rows of the instances that are still to come are as they were before the loop.
abbrev Untouched : Table → Batch → List String → Type 0
Untouched t b is = (j : Key) → any (λ n. n =s j.instance_id) is ≡ true → find j b.rows ≡ find j t

eq_swap : (a b : String) → (a =s b) ≡ true → (b =s a) ≡ true
eq_swap a b h = let same : a ≡ b = =s-eq a b h in rw same (=s_refl b)

add-taken :
    (now : ℕ) (k : Key) (reason note : String) (b m : Batch)
    → add now k reason note b ≡ some m
    → is_some (find k m.rows) ≡ true
add-taken now k reason note b m h = go (insert k new b.rows) refl h
  where
    new : Row
    new = seeded now (text reason)

    a : Added
    a = record { instance_id = k.instance_id; attempt_number = k.attempt_number; note = note }

    go :
        (o : Option Table)
        → insert k new b.rows ≡ o
        → with_rows a b o ≡ some m
        → is_some (find k m.rows) ≡ true
    go none e f = absurd (cc)
    go (some u) e f =
        let rows : m.rows ≡ put_row k new b.rows =
          ap (λ m. m.rows) (some_eq _ _ f) ∙ (insert-none k new b.rows u e).1 in
        rw (rows, find-put_row k k new b.rows, same_key_refl k) refl

module _ (now : ℕ) (run : String) (t : Table) where
  abbrev loop : List String → Batch → Option Batch
  loop = each (restart_one now run) run t

  and_then :
      (ids : List String) (o : Option Batch)
      → ((m : Batch) → o ≡ some m → loop ids m ≡ none)
      → then_each (loop ids) o ≡ none
  and_then ids none rest = refl
  and_then ids (some m) rest = rest m refl

  rest-Untouched :
      (i : String) (ids : List String) (b m : Batch)
      → any (λ n. n =s i) ids ≡ false
      → Untouched t b (i ∷ ids)
      → ((j : Key) → j.instance_id =s i ≡ false → find j m.rows ≡ find j b.rows)
      → Untouched t m ids
  rest-Untouched i ids b m distinct untouched same j later =
      elim (Bool-cases (j.instance_id =s i)) [
        | inl e ↦
            let own : j.instance_id ≡ i = =s-eq _ _ e in
            let bad : any (λ n. n =s i) ids ≡ true =
              sym (ap (λ x. any (λ n. n =s x) ids) own) ∙ later in
            absurd (cc)
        | inr e ↦ same j e ∙ untouched j (ground arith)
      ]

  each-total :
      (ids : List String) (b : Batch)
      → IsDistinct ids
      → Untouched t b ids
      → (c : Batch) × (loop ids b ≡ some c)
  unfolding each IsDistinct
  each-total [] b distinct untouched = (b, refl)
  each-total (i ∷ ids) b (other, distinct) untouched =
      let latest = latest_attempt run i t in
      let (m, went, same) =
        restart_one-GoesOn now run i t b latest refl
          (λ j own. untouched j (let own' = eq_swap j.instance_id i own in ground arith)) in
      let (c, done) = each-total ids m distinct (rest-Untouched i ids b m other untouched same) in
      (c, ap (then_each (loop ids)) went ∙ done)

  -- A restart of an open run that names at least one instance, and none twice, goes through: it reports, as no
  -- row that it adds meets a row with its key.
  pub restart_instances_total :
      (status : String) (i : String) (ids : List String)
      → is_run_closed status ≡ false
      → IsDistinct (i ∷ ids)
      → (b : Batch) × (restart_instances now run (some status) (i ∷ ids) t ≡ report b)
  unfolding restart_instances
  restart_instances_total status i ids opened distinct =
      let (b, done) = each-total (i ∷ ids) (start t) distinct (λ j later. refl) in
      (b, rw opened (ap reply_of done))

  module _ (i : String) (k : Key) (r : Row) (latest : latest_attempt run i t ≡ some (k, r))
      (finished : is_in_flight r ≡ false) where
    abbrev Taken : Batch → Type 0
    Taken b = is_some (find (next_key run i "harness" k) b.rows) ≡ true

    first_adds :
        (b : Batch)
        → restart_one now run i (latest_attempt run i t) b
          ≡ add now (next_key run i "harness" k) (classify r) (classify r) b
    unfolding restart_one
    first_adds b =
        ap (λ l. restart_one now run i l b) latest
        ∙ ap
            (λ x.
              if x
              then skip i in_flight b
              else add now (next_key run i "harness" k) (classify r) (classify r) b)
            finished

    again : (b : Batch) → Taken b → restart_one now run i (latest_attempt run i t) b ≡ none
    unfolding restart_one insert
    again b there = rw (latest, finished, there) refl

    Outcome-Taken :
        (x : String) (b c : Batch)
        → Outcome run "harness" x (latest_attempt run x t) b c
        → Taken b
        → Taken c
    Outcome-Taken x b c (skips rows added) there = rw rows there
    Outcome-Taken x b c (adds k' r' q note e state ins added) there =
        elim (Option-cases (find (next_key run i "harness" k) b.rows)) [
          | inl e ↦ let bad : false ≡ true = rw e at there in absurd (cc)
          | inr (p, e) ↦
              rw (insert-Extends _ r' b.rows c.rows ins (next_key run i "harness" k) p e) refl
        ]

    each-Taken :
        (ids : List String) (b : Batch) → any (λ n. n =s i) ids ≡ true → Taken b → loop ids b ≡ none
    unfolding each
    each-Taken [] b named there = absurd (cc)
    each-Taken (x ∷ ids) b named there = elim (Bool-cases (x =s i)) [
      | inl e ↦
          let own : x ≡ i = =s-eq x i e in
          ap (then_each (loop ids))
            (ap (λ y. restart_one now run y (latest_attempt run y t) b) own ∙ again b there)
      | inr e ↦ and_then ids (restart_one now run x (latest_attempt run x t) b) (λ m h.
          each-Taken ids m (ground arith) (
            Outcome-Taken x b m (restart_one-Outcome now run x (latest_attempt run x t) b m h)
              there))
    ]

    first-Taken :
        (b m : Batch) → restart_one now run i (latest_attempt run i t) b ≡ some m → Taken m
    first-Taken b m e =
        add-taken now (next_key run i "harness" k) (classify r) (classify r) b m
          (sym (first_adds b) ∙ e)

    each-twice : (ids : List String) (b : Batch) → is_twice i ids ≡ true → loop ids b ≡ none
    unfolding each is_twice
    each-twice [] b twice = absurd (cc)
    each-twice (x ∷ ids) b twice = elim (Bool-cases (x =s i)) [
      | inl e ↦
          let own : x ≡ i = =s-eq x i e in
          let more : any (λ n. n =s i) ids ≡ true = ground arith in
          and_then ids (restart_one now run x (latest_attempt run x t) b) (λ m h.
            each-Taken ids m more (
              first-Taken b m
                (ap (λ y. restart_one now run y (latest_attempt run y t) b) (sym own) ∙ h)))
      | inr e ↦
          and_then ids (restart_one now run x (latest_attempt run x t) b)
            (λ m h. each-twice ids m (ground arith))
    ]

    -- A restart of an open run that names a finished instance twice, at any two places among whatever else it
    -- names, is rolled back as a whole: the second row of the same attempt violates the primary key.
    pub restart_duplicate :
        (status : String) (ids : List String)
        → is_run_closed status ≡ false
        → is_twice i ids ≡ true
        → restart_instances now run (some status) ids t ≡ unique_violation
    unfolding restart_instances is_twice
    restart_duplicate status [] opened twice = absurd (cc)
    restart_duplicate status (x ∷ ids) opened twice =
        rw opened (ap reply_of (each-twice (x ∷ ids) (start t) twice))
