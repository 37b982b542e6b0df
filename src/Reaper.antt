-- ===== src/Reaper.antt =====
-- swebench_eval/orchestrator/control_plane/run_supervisor.py: rule 3 of the reaper, with the record that
-- the supervisor keeps of its empty reads of the queue. Times are whole numbers of microseconds; a read or
-- a send that raises in the middle of a pass, which leaves what was done before it, is not modelled.
pub mod Drained
pub mod Deadline
pub mod Closing
pub mod Sweep
mod Tests
use agent_evals.Prelude.{
  ℕ, ◌+◌, ◌*◌, String, Bool, true, false, not, ◌&&◌, ◌||◌, Option, none, some, List, [], ◌∷◌, ltb,
  ◌=s◌, if◌then◌else◌, any, is_some,
}
use agent_evals.Results.{Key, Row}
use agent_evals.Results.Write.{harness_key}
use agent_evals.Results.Table.{Table, same_key, find, put_row}

abbrev pub seconds : ℕ → ℕ
seconds n = n * 1_000_000

-- `_NEVER_DISPATCHED_MIN_ROW_AGE_S` and `_NEVER_DISPATCHED_MIN_CONSECUTIVE_EMPTY_S`.
abbrev pub min_row_age : ℕ
min_row_age = seconds 180

abbrev pub min_consecutive_empty : ℕ
min_consecutive_empty = seconds 90

-- What one call of the rule for a run reads: the pause flag, the two clocks, the rows, the depth of the
-- queue, the instances with a running task, and the attempts with a
-- progress key, which has no phase: it is looked up under the harness phase.
pub record Tick : Type 0 where
  pub run_id : String
  pub paused : Bool
  pub utc : ℕ
  pub monotonic : ℕ
  pub rows : Table
  pub visible : ℕ
  pub not_visible : ℕ
  pub running : List String
  pub progress : List Key

abbrev pub is_none : {A : Type 0} → Option A → Bool
is_none o = not (is_some o)

-- The test of the SELECT.
abbrev pub is_never_dispatched : Tick → Key → Row → Bool
is_never_dispatched t k r =
    k.run_id =s t.run_id
    && (k.phase =s "harness"
        && (r.state =s "PENDING"
            && (is_none r.dispatched_at && ltb (r.created_at + min_row_age) t.utc)))

abbrev pub select : (Key → Row → Bool) → Table → List Key
select test [] = []
select test ((k, r) ∷ t) = if test k r then k ∷ select test t else select test t

abbrev pub candidates : Tick → List Key
candidates t = select (is_never_dispatched t) t.rows

abbrev pub has_key : Key → List Key → Bool
has_key k ks = any (λ j. same_key j k) ks

abbrev pub has_work : Tick → Bool
has_work t = ltb 0 t.visible || ltb 0 t.not_visible

-- `_never_dispatched_empty_since`.
abbrev pub Since : Type 0
Since = List (Key × ℕ)

-- The entries without those that a test names.
unfoldable pub forget : (Key → Bool) → Since → Since
forget test [] = []
forget test ((k, n) ∷ since) =
    let rest = forget test since in if test k then rest else (k, n) ∷ rest

-- A live task of the instance, or a progress key of the attempt.
abbrev pub is_alive : Tick → Key → Bool
is_alive t k = any (λ i. i =s k.instance_id) t.running || has_key (harness_key k) t.progress

-- The body of the loop over the candidates, with whether the row is reaped.
unfoldable pub visit : Tick → Key → Since → Since × Bool
visit t k since = elim (find k since) [
  | none ↦ (put_row k t.monotonic since, false)
  | some first ↦
      if ltb t.monotonic (first + min_consecutive_empty) || is_alive t k
      then (since, false)
      else (forget (λ j. same_key j k) since, true)
]

unfoldable pub visit_all : Tick → List Key → Since → Since × List Key
visit_all t [] since = (since, [])
visit_all t (k ∷ ks) since =
    let (since', reaped) = visit t k since in
    let (since'', keys) = visit_all t ks since' in (since'', if reaped then k ∷ keys else keys)

-- What follows the SELECT, on its rows.
unfoldable pub reap_candidates : Tick → List Key → Since → Since × List Key
reap_candidates t [] since = (since, [])
reap_candidates t (k ∷ ks) since =
    if has_work t
    then (forget (λ j. has_key j (k ∷ ks)) since, [])
    else visit_all t (k ∷ ks) (forget (λ j. j.run_id =s t.run_id && not (has_key j (k ∷ ks))) since)

-- `_reap_never_dispatched`: the record, and the rows that are reported NEVER_DISPATCHED.
unfoldable pub reap_never_dispatched : Tick → Since → Since × List Key
reap_never_dispatched t since =
    if t.paused then (since, []) else reap_candidates t (candidates t) since

-- The record after ticks, the latest of which stands first.
unfoldable pub since_of : List Tick → Since
since_of [] = []
since_of (t ∷ ts) = (reap_never_dispatched t (since_of ts)).0

-- The rows that a tick after the others reports.
abbrev pub reaped : Tick → List Tick → List Key
reaped t ts = (reap_never_dispatched t (since_of ts)).1
