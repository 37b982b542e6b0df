-- ===== src/Control/Publish/Reconcile.antt =====
-- swebench_eval/control/state.py: what a reconcile publishes and loses; and aborts.
use text.Mathlib.TextEquality.{eq_iff}
use agent_evals.Prelude.{
  ℕ, ◌+◌, ◌≤◌, ◌≡◌, refl, String, Bool, true, false, ◌||◌, Option, some, List, [], ◌∷◌, ◌∙◌, ap,
  arith, if◌then◌else◌, or_default, ◌=s◌, Bool-cases, inl, inr,
}
use agent_evals.Control.{
  Flags, Store, Pool, harness_pool, eval_pool, gateway_pool, pool_of, stale_after, is_paused, flag,
  contains, is_run_aborted, sadd, request_abort, set_pause,
}
use agent_evals.Control.Gate.{
  pool_flag, is_paused_fresh, is_paused-set_pause, names_pool, names_unknown,
}
use agent_evals.Control.Publish.{
  Database, Calls, read_updated_at, read_control_flags, read_aborted_run_ids, write_flags,
  write_aborted, is_newer_in_hash, reconcile_from_db,
}

=s-eq : (a b : String) → (a =s b) ≡ true → a ≡ b
unfolding ◌=s◌
=s-eq a b h = (eq_iff a b).0 h

contains-sadd :
    (news runs : List String) (run : String)
    → contains (sadd news runs) run ≡ (contains news run || contains runs run)
unfolding sadd
contains-sadd [] runs run = refl
contains-sadd (n ∷ news) runs run =
    contains-sadd news (if contains runs n then runs else n ∷ runs) run ∙ here
  where
    here :
        (contains news run || contains (if contains runs n then runs else n ∷ runs) run)
        ≡ (contains (n ∷ news) run || contains runs run)
    here = elim (Bool-cases (n =s run)) [
      | inl e ↦ rw (=s-eq n run e) (ground arith)
      | inr e ↦ ground arith
    ]

-- After an abort request that Redis took, the run is aborted for every reader, and so is every run
-- that was before.
pub request_abort-is_run_aborted :
    (run other reason actor : String) (now : ℕ) (s : Store)
    → (is_run_aborted true (request_abort true true run reason actor now s).0 other
        ≡ (run =s other || is_run_aborted true s other))
unfolding request_abort is_run_aborted
request_abort-is_run_aborted run other reason actor now s =
    contains-sadd (run ∷ []) s.aborted other ∙ ground arith

flags-write_aborted :
    (up : Bool) (runs : List String) (s : Store) → (write_aborted up runs s).0.flags ≡ s.flags
unfolding write_aborted
flags-write_aborted false runs s = refl
flags-write_aborted true [] s = refl
flags-write_aborted true (r ∷ runs) s = refl

is_run_aborted-write_aborted :
    (runs : List String) (run other : String) (s : Store)
    → contains runs run ≡ true
    → is_run_aborted true (write_aborted true runs s).0 other
      ≡ (contains runs other || is_run_aborted true s other)
unfolding write_aborted is_run_aborted
is_run_aborted-write_aborted [] run other s named = absurd (ground arith)
is_run_aborted-write_aborted (r ∷ runs) run other s named = contains-sadd (r ∷ runs) s.aborted other

module _ (up : Calls) (now : ℕ) (db : Database) (at_read s : Store) where
  not_skipped :
      is_newer_in_hash up db at_read ≡ false
      → up.flags_write ≡ true
      → (reconcile_from_db up now db at_read s).0
        ≡ (write_aborted up.aborted_write
            (read_aborted_run_ids up.aborted_query db)
            (write_flags true
              (read_control_flags up.flags_query db)
              (read_updated_at up.updated_at_query db)
              now
              s).0).0
  unfolding reconcile_from_db write_flags
  not_skipped older written = rw (older, written) refl

  -- A reconcile that is not skipped and whose flag write succeeds publishes what was read of the database: until
  -- the limit on the hash's age, a pool is paused exactly when the row says so, and every pool is
  -- paused when the row could not be read or is not there.
  pub reconcile_publishes :
      (up_members : Bool) (later : ℕ) (name : String) (p : Pool)
      → is_newer_in_hash up db at_read ≡ false
      → up.flags_write ≡ true
      → pool_of name ≡ some p
      → later ≤ now + stale_after
      → is_paused true up_members later (reconcile_from_db up now db at_read s).0 name
        ≡ flag (read_control_flags up.flags_query db) p
  unfolding write_flags
  reconcile_publishes upm later name p older written known fresh = rw (not_skipped older written) (
      is_paused_fresh upm later _ name p now known
        (ap (λ (f : Flags). f.published_at) (flags-write_aborted _ _ _)) fresh
      ∙ ap (λ (f : Flags). or_default (pool_flag f p) false) (flags-write_aborted _ _ _)
      ∙ published p)
    where
      published :
          (q : Pool)
          → or_default
              (pool_flag
                (write_flags true
                  (read_control_flags up.flags_query db)
                  (read_updated_at up.updated_at_query db)
                  now
                  s).0.flags
                q)
              false
            ≡ flag (read_control_flags up.flags_query db) q
      published harness_pool = refl
      published eval_pool = refl
      published gateway_pool = refl

  -- A reconcile that is not skipped and whose writes succeed marks every run that the database calls
  -- aborted, and forgets no aborted run as long as the database names one.
  pub reconcile_aborts :
      (run other : String)
      → is_newer_in_hash up db at_read ≡ false
      → up.flags_write ≡ true
      → up.aborted_write ≡ true
      → contains (read_aborted_run_ids up.aborted_query db) run ≡ true
      → is_run_aborted true (reconcile_from_db up now db at_read s).0 other
        ≡ (contains (read_aborted_run_ids up.aborted_query db) other || is_run_aborted true s other)
  unfolding write_flags is_run_aborted
  reconcile_aborts run other older written aborted named =
      rw (not_skipped older written, aborted)
        (is_run_aborted-write_aborted (read_aborted_run_ids up.aborted_query db) run other _ named)

  -- The other case fails open: when the query for the aborted runs raises, the reconcile still writes
  -- the flags as if none were aborted, and no run is aborted any more, whatever Redis held and
  -- whatever the database says.
  pub reconcile_forgets_aborts :
      (run : String)
      → is_newer_in_hash up db at_read ≡ false
      → up.flags_write ≡ true
      → up.aborted_write ≡ true
      → up.aborted_query ≡ false
      → is_run_aborted true (reconcile_from_db up now db at_read s).0 run ≡ false
  unfolding write_aborted read_aborted_run_ids is_run_aborted
  reconcile_forgets_aborts run older written aborted failed =
      rw (not_skipped older written, aborted, failed) refl

names_own : (name : String) (p : Pool) → pool_of name ≡ some p → names_pool (name ∷ []) p ≡ true
names_own name harness_pool known = rw known refl
names_own name eval_pool known = rw known refl
names_own name gateway_pool known = rw known refl

names_known : (name : String) (p : Pool) → pool_of name ≡ some p → names_unknown (name ∷ []) ≡ false
names_known name p known = rw known refl

-- The compare-and-set does not keep an operator's pause of a pool that lands between its read of the hash and
-- its write: a reconcile whose test found the hash of then not newer than the row, and which read the row with
-- the pool open, resumes the pool by its write, until the limit on the hash's age, although the pool was paused
-- for every reader once the operator's write had been made. Redis answers all of them.
pub reconcile_undoes_pause :
    (up : Calls) (upm : Bool) (now later time : ℕ) (db : Database) (s : Store)
    (actor reason : String) (at : Option ℕ) (name : String) (p : Pool)
    → is_newer_in_hash up db s ≡ false
    → up.flags_write ≡ true
    → pool_of name ≡ some p
    → flag (read_control_flags up.flags_query db) p ≡ false
    → later ≤ now + stale_after
    → let paused = (set_pause true true (name ∷ []) true actor reason at time s).0 in
      (is_paused true upm time paused name ≡ true)
      × (is_paused true upm later (reconcile_from_db up now db s paused).0 name ≡ false)
reconcile_undoes_pause up upm now later time db s actor reason at name p older written known opened
      fresh =
    let t = (set_pause true true (name ∷ []) true actor reason at time s).0 in
    (
      is_paused-set_pause (name ∷ []) true actor reason at time s upm time name p
            (names_known name p known) known (omega arith)
          ∙ ap (λ b. if b then true else or_default (pool_flag s.flags p) false)
              (names_own name p known),
      reconcile_publishes up now db s t upm later name p older written known fresh ∙ opened,
    )
