-- ===== src/Results/Write.antt =====
-- results_writer.py: `_process_result`, `_enqueue_eval_job`, the blocked write's fill, and the loop of the
-- `results` queue. A call that raises is a flag of `Calls` that is false.
pub mod Jobs
pub mod Evidence
pub mod Handover
pub mod Ranks
use agent_evals.Prelude.{
  ℕ, ◌+◌, String, Bool, true, false, ◌&&◌, Option, none, some, List, [], ◌∷◌, ◌++◌, ltb, ◌=s◌,
  if◌then◌else◌, is_some,
}
use agent_evals.Results.{
  Json, null, text, bool, ResultMessage, Key, Row, key_of, evidence_values, core_evidence_values,
  result_extra_values,
}
use agent_evals.Results.Table.{Table, same_key, find, put_row}
use agent_evals.Results.Summary.{RunSummary, summary, count}
use agent_evals.Results.Wire.{Casts, Body, parse_result}

-- `state_rank`, the ladder of the guarded update.
unfoldable pub state_rank : String → ℕ
state_rank s =
    if s =s "PENDING"
    then 0
    else if s =s "DISPATCHED"
    then 1
    else if s =s "HARNESS_RUNNING"
    then 2
    else if s =s "EVAL_RUNNING"
    then 2
    else if s =s "ABANDONED"
    then 3
    else 4

abbrev pub coalesce : Json → Json → Json
coalesce null b = b
coalesce a b = a

-- `COALESCE` in each column; the two lists have the same columns.
unfoldable pub coalesce_all : List Json → List Json → List Json
coalesce_all [] bs = bs
coalesce_all (a ∷ as') [] = a ∷ as'
coalesce_all (a ∷ as') (b ∷ bs) = coalesce a b ∷ coalesce_all as' bs

abbrev pub is_dispatched : ResultMessage → Bool
is_dispatched m = m.state =s "DISPATCHED"

-- The row of `INSERT … VALUES`.
unfoldable pub inserted : ℕ → ResultMessage → Row
inserted now m = record {
  state = m.state;
  dispatched_at = if is_dispatched m then some now else none;
  dispatch_count = if is_dispatched m then 1 else 0;
  created_at = now;
  seeded_at = none;
  retry_reason = null;
  evidence = evidence_values m;
}

-- The row of `DO UPDATE SET`.
unfoldable pub updated : ℕ → ResultMessage → Row → Row
updated now m r = record r {
  state = m.state;
  dispatched_at = if is_dispatched m then some now else r.dispatched_at;
  dispatch_count = if is_dispatched m then r.dispatch_count + 1 else r.dispatch_count;
  evidence = coalesce_all (evidence_values m) r.evidence;
}

-- `_fill_blocked_write_evidence`.
unfoldable pub filled : ResultMessage → Row → Row
filled m r = record r { evidence = coalesce_all r.evidence (evidence_values m) }

-- The guarded upsert and the fill after it, on the row that is there; with whether it advanced.
unfoldable pub upserted : ℕ → ResultMessage → Option Row → Row × Bool
upserted now m none = (inserted now m, true)
upserted now m (some r) =
    if ltb (state_rank r.state) (state_rank m.state)
    then (updated now m r, true)
    else (filled m r, false)

pub record EvalJob : Type 0 where
  pub run_id : String
  pub instance_id : String
  pub attempt_number : ℕ
  pub patch_s3_key : String
  pub fail_to_pass : String
  pub pass_to_pass : String

-- `runs` with the status of each, `instance_results`, `run_summary` and the queue `eval-jobs`.
pub record Records : Type 0 where
  pub runs : List (String × String)
  pub rows : Table
  pub summaries : List (String × RunSummary)
  pub jobs : List EvalJob

-- Whether the calls of one message answer: the statements up to the commit, the seed of the eval row,
-- the send of the eval job, the summary.
pub record Calls : Type 0 where
  pub write : Bool
  pub seed : Bool
  pub send : Bool
  pub summarise : Bool

pub data Failure : Type 0 where
  database_error foreign_key_violation queue_error : Failure

unfoldable pub lookup : {A : Type 0} → String → List (String × A) → Option A
lookup name [] = none
lookup name ((n, a) ∷ entries) = if n =s name then some a else lookup name entries

abbrev pub eval_key : Key → Key
eval_key k = record k { phase = "eval" }

abbrev pub harness_key : Key → Key
harness_key k = record k { phase = "harness" }

abbrev pub retry_reason_of : Option Row → Json
retry_reason_of none = null
retry_reason_of (some r) = r.retry_reason

-- The columns of `_EVIDENCE_COLUMNS` that have a default: `touches_test_files` and `report_json`.
unfoldable pub seeded_evidence : List Json
seeded_evidence =
    null ∷ null ∷ null ∷ null ∷ null ∷ bool false ∷ null ∷ null ∷ null ∷ null ∷ text "{}" ∷ []

abbrev pub nulls : ℕ → List Json
nulls Prim.Native.Nat.zero = []
nulls (Prim.Native.Nat.suc n) = null ∷ nulls n

-- The PENDING row of the eval phase.
unfoldable pub seeded : ℕ → Json → Row
seeded now reason = record {
  state = "PENDING";
  dispatched_at = none;
  dispatch_count = 0;
  created_at = now;
  seeded_at = some now;
  retry_reason = reason;
  evidence = seeded_evidence ++ nulls 46;
}

-- `INSERT … ON CONFLICT DO NOTHING` of that row.
unfoldable pub seed_eval_row : ℕ → Key → Table → Table
seed_eval_row now k t =
    if is_some (find (eval_key k) t)
    then t
    else put_row (eval_key k) (seeded now (retry_reason_of (find (harness_key k) t))) t

abbrev pub eval_job : ResultMessage → EvalJob
eval_job m = record {
  run_id = m.run_id;
  instance_id = m.instance_id;
  attempt_number = m.attempt_number;
  patch_s3_key = m.patch_s3_key;
  fail_to_pass = "";
  pass_to_pass = "";
}

-- `_enqueue_eval_job`.
unfoldable pub enqueue_eval_job : Calls → ℕ → ResultMessage → Records → Records × Option Failure
enqueue_eval_job c now m s =
    let s' = record s { rows = seed_eval_row now (key_of m) s.rows } in
    if c.seed
    then if c.send
      then (record s' { jobs = s'.jobs ++ eval_job m ∷ [] }, none)
      else (s', some queue_error)
    else (s, some database_error)

-- `_maintain_run_summary`: the latest summary of a run stands first.
unfoldable pub maintain_run_summary : Calls → String → Records → Records × Option Failure
maintain_run_summary c run s =
    if c.summarise
    then (record s { summaries = (run, summary run s.rows) ∷ s.summaries }, none)
    else (s, some database_error)

abbrev pub is_patch_ready : ResultMessage → Bool
is_patch_ready m = m.phase =s "harness" && m.state =s "PATCH_READY"

-- What follows the commit of the row.
unfoldable pub after_commit : Calls → ℕ → ResultMessage → Bool → Records → Records × Option Failure
after_commit c now m advanced s =
    let (s', failed) =
      if advanced && is_patch_ready m then enqueue_eval_job c now m s else (s, none) in
    elim failed [ some e ↦ (s', some e) | none ↦ maintain_run_summary c m.run_id s' ]

-- `_process_result`.
unfoldable pub process_result : Calls → ℕ → ResultMessage → Records → Records × Option Failure
process_result c now m s =
    let (row, advanced) = upserted now m (find (key_of m) s.rows) in
    if c.write
    then if is_some (lookup m.run_id s.runs)
      then after_commit c now m advanced (record s { rows = put_row (key_of m) row s.rows })
      else (s, some foreign_key_violation)
    else (s, some database_error)

-- One message of the loop of `run_results_writer`, and whether it is deleted from the queue.
unfoldable pub consume : Casts → Calls → ℕ → Body → Records → Records × Bool
consume casts c now body s = elim (parse_result casts body) [
  | none ↦ (s, false)
  | some m ↦
      let (s', failed) = process_result c now m s in
      elim failed [ none ↦ (s', true) | some e ↦ (s', false) ]
]

-- Messages that reach `_process_result`, redeliveries among them, in the order in which they do.
pub record Delivery : Type 0 where
  pub calls : Calls
  pub now : ℕ
  pub message : ResultMessage

abbrev pub step : Delivery → Records → Records
step d s = (process_result d.calls d.now d.message s).0

unfoldable pub deliver : List Delivery → Records → Records
deliver [] s = s
deliver (d ∷ ds) s = deliver ds (step d s)
