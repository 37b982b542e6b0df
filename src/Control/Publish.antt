-- ===== src/Control/Publish.antt =====
-- swebench_eval/control/state.py: publishing the database's truth to Redis.
pub mod Reconcile
mod Tests
use agent_evals.Prelude.{
  ℕ, Bool, true, false, String, Option, none, some, List, [], ◌∷◌, leb, if◌then◌else◌, or_default,
}
use agent_evals.Control.{
  Flags, Store, PoolFlags, Raised, redis_error, Outcome, hset, put_pools, sadd,
}

-- The row of `control_state`.
pub record ControlRow : Type 0 where
  pub paused : PoolFlags
  pub updated_at : Option ℕ

-- The row, and the ids of the runs whose status is `aborting` or `aborted`.
pub record Database : Type 0 where
  pub row : Option ControlRow
  pub aborted_rows : List String

-- Whether each call that a publication makes succeeds.
pub record Calls : Type 0 where
  pub updated_at_query : Bool
  pub hash_read : Bool
  pub flags_query : Bool
  pub flags_write : Bool
  pub aborted_query : Bool
  pub aborted_write : Bool

-- `_read_updated_at`.
pub read_updated_at : Bool → Database → Option ℕ
read_updated_at false db = none
read_updated_at true db = elim db.row [ none ↦ none | some r ↦ r.updated_at ]

-- `_hash_updated_at`.
pub hash_updated_at : Bool → Store → ℕ
hash_updated_at false s = 0
hash_updated_at true s = or_default s.flags.updated_at 0

abbrev pub all_paused_flags : PoolFlags
all_paused_flags = record { harness = true; eval = true; gateway = true }

-- `_read_control_flags`.
pub read_control_flags : Bool → Database → PoolFlags
read_control_flags false db = all_paused_flags
read_control_flags true db = elim db.row [ none ↦ all_paused_flags | some r ↦ r.paused ]

-- `_read_aborted_run_ids`.
pub read_aborted_run_ids : Bool → Database → List String
read_aborted_run_ids false db = []
read_aborted_run_ids true db = db.aborted_rows

-- `_write_flags`.
pub write_flags : Bool → PoolFlags → Option ℕ → ℕ → Store → Outcome
write_flags up paused updated_at now = hset up λ f. record (put_pools paused f) {
  published_at = some now;
  updated_at = elim updated_at [ none ↦ f.updated_at | some t ↦ some t ];
}

-- `_write_aborted`.
pub write_aborted : Bool → List String → Store → Outcome
write_aborted false runs s = (s, some redis_error)
write_aborted true [] s = (record s { aborted = [] }, none)
write_aborted true (run ∷ runs) s = (record s { aborted = sadd (run ∷ runs) s.aborted }, none)

pub heartbeat : Bool → ℕ → Store → Outcome
heartbeat up now = hset up (λ f. record f { published_at = some now })

-- The second write is not made when the first one raises.
abbrev and_then : Outcome → (Store → Outcome) → Outcome
and_then (s, none) next = next s
and_then (s, some e) next = (s, some e)

-- `publish_from_db`.
pub publish_from_db : Calls → ℕ → Database → Store → Outcome
publish_from_db up now db s =
    and_then
      (write_flags up.flags_write (read_control_flags up.flags_query db)
        (read_updated_at up.updated_at_query db) now s)
      (write_aborted up.aborted_write (read_aborted_run_ids up.aborted_query db))

-- The compare-and-set test: the hash carries a write that is not older than the row.
pub is_newer_in_hash : Calls → Database → Store → Bool
is_newer_in_hash up db s = elim (read_updated_at up.updated_at_query db) [
  | none ↦ false
  | some row_at ↦ leb row_at (hash_updated_at up.hash_read s)
]

-- `reconcile_from_db`: the flags are read by one command and written by another, so that the hash may change in
-- between; `at_read` is what it was at the first and `s` what it is at the second.
pub reconcile_from_db : Calls → ℕ → Database → Store → Store → Outcome
reconcile_from_db up now db at_read s =
    if is_newer_in_hash up db at_read
    then heartbeat up.flags_write now s
    else and_then
        (write_flags up.flags_write (read_control_flags up.flags_query db)
          (read_updated_at up.updated_at_query db) now s)
        (write_aborted up.aborted_write (read_aborted_run_ids up.aborted_query db))
