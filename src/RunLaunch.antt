-- ===== src/RunLaunch.antt =====
-- swebench_eval/orchestrator/control_plane/run_launch.py: the launch of a run and its finalisation, with the end
-- of an abort (abort.py) and dispatch_run (dispatcher.py). Each call of the database, of LiteLLM, of OpenRouter
-- or of the queue is an act of its own: a launch is cut off where one raises, and acts of others may come
-- between. The recheck of a pause is GatewayPause's, and the dispatcher's overrides and the snapshot of the
-- configuration are not modelled.
pub mod Own
pub mod Mutex
pub mod Seeds
pub mod Whole
pub mod Ends
pub mod Keys
pub mod Races
mod Tests
use agent_evals.Prelude.{
  ℕ, zero, suc, ◌+◌, String, Bool, true, false, not, ◌&&◌, ◌||◌, Option, none, some, List, [], ◌∷◌,
  ◌++◌, ◌=s◌, if◌then◌else◌, is_some, any, keep, map, take, length, leb,
}
use agent_evals.Prelude.Text.{Text, codes, eq_text}
use agent_evals.Results.{null, Key}
use agent_evals.Results.Table.{Table, find, put_row}
use agent_evals.Results.Write.{seeded}

-- A row of `runs`, the columns that are read here; `active_key` is NULL once the pair is released.
pub record Run : Type 0 where
  pub run_id : String
  pub active_key : Option Text
  pub status : String
  pub litellm_key_id : Option String
  pub openrouter_key_hash : Option String

-- The two tables, the virtual keys of LiteLLM by their alias, which is the run, the enabled keys of OpenRouter
-- by their hash, and the jobs that were sent.
pub record System : Type 0 where
  pub runs : List Run
  pub virtual_keys : List String
  pub provider_keys : List String
  pub rows : Table
  pub jobs : List Key

abbrev pub active_key_of : String → String → Text
active_key_of harness model_alias = codes harness ++ 58 ∷ codes model_alias

abbrev pub is_text : Text → Option Text → Bool
is_text key none = false
is_text key (some k) = eq_text k key

abbrev pub holds : Text → Run → Bool
holds key r = is_text key r.active_key

-- `SELECT run_id FROM runs WHERE active_key = %s`.
unfoldable pub holder : Text → List Run → Option String
holder key [] = none
holder key (r ∷ rs) = if holds key r then some r.run_id else holder key rs

abbrev pub has_run : String → List Run → Bool
has_run run rs = any (λ r. r.run_id =s run) rs

abbrev pub claimed_run : String → Text → Run
claimed_run run key = record {
  run_id = run;
  active_key = some key;
  status = "claimed";
  litellm_key_id = none;
  openrouter_key_hash = none;
}

-- The primary key or the partial index on `active_key` refuses the row.
unfoldable pub is_violation : String → Text → List Run → Bool
is_violation run key rs = has_run run rs || any (holds key) rs

-- `UPDATE runs SET … WHERE run_id = %s`.
unfoldable pub update : String → (Run → Run) → List Run → List Run
update run f [] = []
update run f (r ∷ rs) = (if r.run_id =s run then f r else r) ∷ update run f rs

unfoldable pub find_run : String → List Run → Option Run
find_run run [] = none
find_run run (r ∷ rs) = if r.run_id =s run then some r else find_run run rs

abbrev pub with_status : String → Run → Run
with_status status r = record r { status = status }

abbrev pub with_keys : String → String → Run → Run
with_keys id hash r = record r { litellm_key_id = some id; openrouter_key_hash = some hash }

abbrev pub released : Run → Run
released r = record r { active_key = none }

abbrev pub completed : Run → Run
completed r = record r { active_key = none; status = "completed" }

-- One row of the batch, `ON CONFLICT DO NOTHING`.
unfoldable pub seed_row : ℕ → Key → Table → Table
seed_row now k t = if is_some (find k t) then t else put_row k (seeded now null) t

unfoldable pub seed_rows : ℕ → List Key → Table → Table
seed_rows now [] t = t
seed_rows now (k ∷ ks) t = seed_rows now ks (seed_row now k t)

pub data Act : Type 0 where
  claims : String → Text → Act
  sets_status : String → String → Act
  generates_key : String → Act
  mints_key : String → Act
  records_keys : String → String → String → Act
  seeds : ℕ → List Key → Act
  sends : Key → Act
  deletes_key : String → Act
  disables_key : String → Act
  releases completes : String → Act

unfoldable pub perform : Act → System → System
perform (claims run key) s =
    if is_violation run key s.runs then s else record s { runs = claimed_run run key ∷ s.runs }
perform (sets_status run status) s = record s { runs = update run (with_status status) s.runs }
perform (generates_key run) s = record s { virtual_keys = run ∷ s.virtual_keys }
perform (mints_key hash) s = record s { provider_keys = hash ∷ s.provider_keys }
perform (records_keys run id hash) s = record s { runs = update run (with_keys id hash) s.runs }
perform (seeds now ks) s = record s { rows = seed_rows now ks s.rows }
perform (sends k) s = record s { jobs = s.jobs ++ k ∷ [] }
perform (deletes_key run) s = record s { virtual_keys = keep (λ k. not (k =s run)) s.virtual_keys }
perform (disables_key hash) s = record s {
  provider_keys = keep (λ k. not (k =s hash)) s.provider_keys;
}
perform (releases run) s = record s { runs = update run released s.runs }
perform (completes run) s = record s { runs = update run completed s.runs }

unfoldable pub perform_all : List Act → System → System
perform_all [] s = s
perform_all (a ∷ as') s = perform_all as' (perform a s)

-- A request, with what LiteLLM and OpenRouter answer for its keys.
pub record LaunchRequest : Type 0 where
  pub run_id : String
  pub harness : String
  pub model_alias : String
  pub key_id : String
  pub key_hash : String
  pub instances : List String
  pub attempts_per_instance : ℕ
  pub now : ℕ

abbrev pub pair_of : LaunchRequest → Text
pair_of q = active_key_of q.harness q.model_alias

abbrev pub attempt_key : String → String → ℕ → Key
attempt_key run instance n = record {
  run_id = run;
  instance_id = instance;
  attempt_number = n;
  phase = "harness";
}

-- The attempts from a number on.
unfoldable pub attempts_from : String → String → ℕ → ℕ → List Key
attempts_from run instance n zero = []
attempts_from run instance n (suc left) =
    attempt_key run instance n ∷ attempts_from run instance (n + 1) left

unfoldable pub attempts_of : String → ℕ → List String → List Key
attempts_of run n [] = []
attempts_of run n (i ∷ is) = attempts_from run i 1 n ++ attempts_of run n is

abbrev pub keys_of : LaunchRequest → List Key
keys_of q = attempts_of q.run_id q.attempts_per_instance q.instances

-- The acts of `launch_run` after the claim.
unfoldable pub launch_acts : LaunchRequest → List Act
launch_acts q =
    sets_status q.run_id "provisioning"
    ∷ generates_key q.run_id
    ∷ mints_key q.key_hash
    ∷ records_keys q.run_id q.key_id q.key_hash
    ∷ sets_status q.run_id "seeding"
    ∷ seeds q.now (keys_of q)
    ∷ sets_status q.run_id "dispatching"
    ∷ (map sends (keys_of q) ++ sets_status q.run_id "running" ∷ [])

pub data Launched : Type 0 where
  gateway_paused raised : Launched
  duplicate_run : Option String → Launched
  launched : ℕ → ℕ → Launched

-- `launch_run` up to the first call that raises; so many acts after the claim return.
unfoldable pub launch_run : Bool → ℕ → LaunchRequest → System → System × Launched
launch_run is_paused returns q s =
    if is_paused
    then (s, gateway_paused)
    else if is_violation q.run_id (pair_of q) s.runs
    then (s, duplicate_run (holder (pair_of q) s.runs))
    else (
      perform_all (take returns (launch_acts q)) (perform (claims q.run_id (pair_of q)) s),
      if leb (length (launch_acts q)) returns
          then launched (length (keys_of q)) (length (keys_of q))
          else raised,
    )

-- What the calls of a revocation answer: whether LiteLLM carries the delete out, whose failure is logged only,
-- whether the provisioning key is there, and whether OpenRouter disables the key, whose failure raises.
pub record Calls : Type 0 where
  pub deletes : Bool
  pub has_provisioning_key : Bool
  pub disables : Bool

-- A column that Python takes for true.
abbrev pub present : Option String → Option String
present none = none
present (some k) = if k =s "" then none else some k

abbrev pub delete_acts : Calls → String → Option String → List Act
delete_acts c run none = []
delete_acts c run (some id) = if c.deletes then deletes_key run ∷ [] else []

abbrev pub disable_acts : Calls → Option String → List Act
disable_acts c none = []
disable_acts c (some hash) =
    if c.has_provisioning_key && c.disables then disables_key hash ∷ [] else []

abbrev pub disable_raises : Calls → Option String → Bool
disable_raises c none = false
disable_raises c (some hash) = c.has_provisioning_key && not c.disables

-- `revoke_run_keys` on the run's row: its acts, and whether it raises.
unfoldable pub revoke_run_keys : Calls → String → Option Run → List Act × Bool
revoke_run_keys c run none = ([], false)
revoke_run_keys c run (some r) = (
  delete_acts c run (present r.litellm_key_id) ++ disable_acts c (present r.openrouter_key_hash),
  disable_raises c (present r.openrouter_key_hash),
)

abbrev pub then_acts : List Act × Bool → List Act → List Act
then_acts (acts, fails) more = if fails then acts else acts ++ more

-- `finalise_run`, whose tasks are stopped before.
unfoldable pub finalise_run : Calls → String → System → System
finalise_run c run s =
    perform_all (then_acts (revoke_run_keys c run (find_run run s.runs)) (completes run ∷ [])) s

-- The end of an abort: `_finalise`, then the keys and the pair; an exception of these is logged.
unfoldable pub finish_abort : Calls → String → System → System
finish_abort c run s =
    let s' = perform (sets_status run "aborted") s in
    perform_all (then_acts (revoke_run_keys c run (find_run run s'.runs)) (releases run ∷ [])) s'
