-- ===== src/Restart/Ledger.antt =====
-- restart.py: a restart or a regrade only appends to the ledger of attempts.
use agent_evals.Prelude.{
  ℕ, ◌+◌, ◌≡◌, refl, sym, ap, ◌∙◌, subst, String, Bool, true, false, not, ◌&&◌, ◌||◌, Option, none,
  some, List, [], ◌∷◌, ◌++◌, ltb, ◌=s◌, =s-eq, if◌then◌else◌, Bool-cases, Option-cases, inl, inr,
  arith,
}
use agent_evals.Lifecycle.{is_run_closed}
use agent_evals.Results.{Key, Row}
use agent_evals.Results.Table.{Table, same_key_refl, find, find-put_row}
use agent_evals.Restart.{
  latest_attempt, Added, Batch, insert, restart_one, regrade_one, One, each, then_each, Reply,
  empty_request, run_closed, report, reply_of, on_open, is_nil, start, restart_instances,
  regrade_instances,
}
use agent_evals.Restart.Fresh.{
  Below, latest_attempt-max, insert-none, insert-Extends, Outcome, skips, adds, restart_one-Outcome,
  regrade_one-Outcome, some_eq,
}

-- The attempt lies above a row of its instance.
abbrev is_above : String → Key → Added → Bool
is_above run j a =
    not (j.run_id =s run && j.instance_id =s a.instance_id) || ltb j.attempt_number a.attempt_number

abbrev pub key_of_added : String → String → Added → Key
key_of_added run phase a = record {
  run_id = run;
  instance_id = a.instance_id;
  attempt_number = a.attempt_number;
  phase = phase;
}

abbrev pub is_pending : Option Row → Bool
is_pending none = false
is_pending (some r) = r.state =s "PENDING"

abbrev pub AllAbove : String → Key → List Added → Type 0
AllAbove run j [] = Unit
AllAbove run j (a ∷ as') = (is_above run j a ≡ true) × AllAbove run j as'

abbrev pub AllPending : String → String → Table → List Added → Type 0
AllPending run phase t [] = Unit
AllPending run phase t (a ∷ as') =
    (is_pending (find (key_of_added run phase a) t) ≡ true) × AllPending run phase t as'

AllAbove-append :
    (run : String) (j : Key) (as' : List Added) (a : Added)
    → AllAbove run j as'
    → is_above run j a ≡ true
    → AllAbove run j (as' ++ a ∷ [])
AllAbove-append run j [] a h last = (last, tt)
AllAbove-append run j (x ∷ as') a (h, rest) last = (h, AllAbove-append run j as' a rest last)

module _ (run phase : String) (t u : Table) (k : Key) (r : Row) (h : insert k r t ≡ some u) where
  still_pending : (j : Key) → is_pending (find j t) ≡ true → is_pending (find j u) ≡ true
  still_pending j p = elim (Option-cases (find j t)) [
    | inl e ↦ let bad : false ≡ true = rw e at p in absurd cc
    | inr (q, e) ↦
        let kept : is_pending (find j t) ≡ is_pending (find j u) =
          ap is_pending e ∙ sym (ap is_pending (insert-Extends k r t u h j q e)) in
        sym kept ∙ p
  ]

  AllPending-insert : (as' : List Added) → AllPending run phase t as' → AllPending run phase u as'
  AllPending-insert [] p = tt
  AllPending-insert (a ∷ as') (p, rest) =
      (still_pending (key_of_added run phase a) p, AllPending-insert as' rest)

AllPending-append :
    (run phase : String) (t : Table) (as' : List Added) (a : Added)
    → AllPending run phase t as'
    → is_pending (find (key_of_added run phase a) t) ≡ true
    → AllPending run phase t (as' ++ a ∷ [])
AllPending-append run phase t [] a h last = (last, tt)
AllPending-append run phase t (x ∷ as') a (h, rest) last =
    (h, AllPending-append run phase t as' a rest last)

fresh_pending :
    (k : Key) (r : Row) (t u : Table)
    → insert k r t ≡ some u
    → r.state ≡ "PENDING"
    → is_pending (find k u) ≡ true
unfolding ◌=s◌
fresh_pending k r t u h state =
    let (_, same) = insert-none k r t u h in
    rw (same, find-put_row k k r t, same_key_refl k, state) refl

-- What the loop keeps, for a row `q` with the key `j` of the table before it.
record Kept (run phase : String) (j : Key) (q : Row) (b : Batch) : Type 0 where
  old : find j b.rows ≡ some q
  above : AllAbove run j b.added
  pending : AllPending run phase b.rows b.added

module _ (run phase : String) (before : Table) (j : Key) (q : Row)
    (there : find j before ≡ some q) where
  new_above :
      (instance note : String) (k : Key) (r : Row)
      → latest_attempt run instance before ≡ some (k, r)
      → is_above run j
          (record { instance_id = instance; attempt_number = k.attempt_number + 1; note = note })
        ≡ true
  new_above instance note k r e = elim (Bool-cases (j.run_id =s run && j.instance_id =s instance)) [
    | inr other ↦ rw other refl
    | inl own ↦
        let r1 : j.run_id ≡ run = =s-eq _ _ (ground arith) in
        let r2 : j.instance_id ≡ instance = =s-eq _ _ (ground arith) in
        let below : Below j.attempt_number (some (k, r)) =
          subst (Below j.attempt_number) e
            (latest_attempt-max run instance before j q r1 r2 there) in
        ground arith
  ]

  Outcome-Kept :
      (instance : String) (b c : Batch)
      → Outcome run phase instance (latest_attempt run instance before) b c
      → Kept run phase j q b
      → Kept run phase j q c
  Outcome-Kept instance b c (skips rows added) v = record {
    old = rw rows v.old;
    above = rw added v.above;
    pending = rw (rows, added) v.pending;
  }
  Outcome-Kept instance b c (adds k r p note latest state ins added) v = record {
    old = insert-Extends _ r b.rows c.rows ins j q v.old;
    above = rw added (AllAbove-append run j b.added _ v.above (new_above instance note k p latest));
    pending = rw added (
        AllPending-append run phase c.rows b.added _
          (AllPending-insert run phase b.rows c.rows _ r ins b.added v.pending)
          (fresh_pending _ r b.rows c.rows ins state));
  }

  -- The loop, for a body that skips or adds.
  module _ (one : One)
      (body : (i : String) (b c : Batch)
        → one i (latest_attempt run i before) b ≡ some c
        → Outcome run phase i (latest_attempt run i before) b c) where
    each-Kept :
        (ids : List String) (b c : Batch)
        → each one run before ids b ≡ some c
        → Kept run phase j q b
        → Kept run phase j q c
    unfolding each
    each-Kept [] b c h v = rw (some_eq _ _ h) v
    each-Kept (i ∷ ids) b c h v =
        go (λ m. each-Kept ids m c) (one i (latest_attempt run i before) b) refl h
      where
        go :
            ((m : Batch)
              → each one run before ids m ≡ some c
              → Kept run phase j q m
              → Kept run phase j q c)
            → (o : Option Batch) → one i (latest_attempt run i before) b ≡ o
            → then_each (each one run before ids) o ≡ some c
            → Kept run phase j q c
        go rest none e f = absurd cc
        go rest (some m) e f = rest m f (Outcome-Kept i b m (body i b m e) v)

reply_of-report : (o : Option Batch) (b : Batch) → reply_of o ≡ report b → o ≡ some b
reply_of-report none b h = absurd cc
reply_of-report (some c) b h = cc

on_open-report :
    (status : Option String) (r : Reply) (b : Batch) → on_open status r ≡ report b → r ≡ report b
on_open-report none r b h = absurd cc
on_open-report (some s) r b h = elim (Bool-cases (is_run_closed s)) [
  | inl e ↦ let bad : run_closed ≡ report b = rw e at h in absurd cc
  | inr e ↦ rw e at h
]

pub request-report :
    (status : Option String) (ids : List String) (o : Option Batch) (b : Batch)
    → (if is_nil ids then empty_request else on_open status (reply_of o)) ≡ report b
    → o ≡ some b
request-report status [] o b h = absurd cc
request-report status (i ∷ ids) o b h = reply_of-report o b (on_open-report status (reply_of o) b h)

module _ (now : ℕ) (run : String) (status : Option String) (ids : List String) (t : Table)
    (b : Batch) (j : Key) (q : Row) where
  -- A restart that reports leaves every row of the table as it was; each attempt that it added is a PENDING row
  -- of the harness phase, with a number above those of all rows that the instance had, in either phase.
  pub restart_instances_appends :
      restart_instances now run status ids t ≡ report b
      → find j t ≡ some q
      → (find j b.rows ≡ some q) × AllAbove run j b.added × AllPending run "harness" b.rows b.added
  unfolding restart_instances
  restart_instances_appends h there =
      let done = request-report status ids _ b h in
      let kept =
        each-Kept run "harness" t j q there (restart_one now run)
          (λ i. restart_one-Outcome now run i (latest_attempt run i t)) ids (start t) b done
          (record { old = there; above = tt; pending = tt }) in
      (kept.old, kept.above, kept.pending)

  -- The same of a regrade, whose rows are of the eval phase.
  pub regrade_instances_appends :
      regrade_instances now run status ids t ≡ report b
      → find j t ≡ some q
      → (find j b.rows ≡ some q) × AllAbove run j b.added × AllPending run "eval" b.rows b.added
  unfolding regrade_instances
  regrade_instances_appends h there =
      let done = request-report status ids _ b h in
      let kept =
        each-Kept run "eval" t j q there (regrade_one now run)
          (λ i. regrade_one-Outcome now run i (latest_attempt run i t)) ids (start t) b done
          (record { old = there; above = tt; pending = tt }) in
      (kept.old, kept.above, kept.pending)
