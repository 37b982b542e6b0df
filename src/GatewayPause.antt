-- ===== src/GatewayPause.antt =====
-- swebench_eval/orchestrator/control_plane/gateway_pause.py: which runs' keys are blocked at LiteLLM, and who
-- holds each block. A block or an unblock that LiteLLM does not carry out (a refusal, a server's error or a
-- broken connection) is logged by gateway/admin.py and does not raise; `up` says which keys' calls it does
-- carry out. An answer that is no JSON, which raises, is not modelled. A sweep reads its rows once, without a lock,
-- and then updates each by its id: here it runs in one go, and Races lets requests land in the middle.
pub mod Rows
pub mod Refine
pub mod Races
pub mod Holds
mod Tests
use agent_evals.Prelude.{
  ℕ, ◌+◌, String, Bool, true, false, not, ◌&&◌, Option, none, some, List, [], ◌∷◌, ◌=s◌,
  if◌then◌else◌, any, keep, length, is_some,
}
use agent_evals.Lifecycle.{is_run_closed}

-- A row of `runs`, the columns that are read here.
pub record Run : Type 0 where
  pub run_id : String
  pub status : String
  pub litellm_key_id : Option String
  pub gateway_key_blocked_by : Option String

-- The table, and the keys that LiteLLM has blocked.
pub record Gateway : Type 0 where
  pub runs : List Run
  pub blocked : List String

unfoldable pub block_key : (String → Bool) → String → List String → List String
block_key up k blocked = if up k then k ∷ blocked else blocked

unfoldable pub unblock_key : (String → Bool) → String → List String → List String
unblock_key up k blocked = if up k then keep (λ b. not (b =s k)) blocked else blocked

-- The key where Python takes `litellm_key_id` for true.
abbrev pub key_of : Option String → Option String
key_of none = none
key_of (some k) = if k =s "" then none else some k

abbrev pub mark : Option String → Run → Run
mark m r = record {
  run_id = r.run_id;
  status = r.status;
  litellm_key_id = r.litellm_key_id;
  gateway_key_blocked_by = m;
}

-- `UPDATE runs SET gateway_key_blocked_by = ... WHERE ...`.
unfoldable pub update_where : (Run → Bool) → Option String → List Run → List Run
update_where f m [] = []
update_where f m (r ∷ rs) = (if f r then mark m r else r) ∷ update_where f m rs

abbrev pub has_id : String → Run → Bool
has_id id r = r.run_id =s id

-- `SELECT ... WHERE run_id = %s`.
unfoldable pub find_run : String → List Run → Option Run
find_run id [] = none
find_run id (r ∷ rs) = if has_id id r then some r else find_run id rs

-- `if litellm_key_id: block_key(...)`, and with `unblock_key`.
abbrev pub with_key :
    (String → List String → List String) → Option String → List String → List String
with_key call none blocked = blocked
with_key call (some k) blocked = call k blocked

-- A request's reply: a GatewayPauseError of either kind, or what it changed.
pub data Reply : Type 0 where
  no_such_run is_closed : Reply
  changed : Gateway → Reply

abbrev pub on_open_run : Option Run → (Run → Gateway) → Reply
on_open_run none f = no_such_run
on_open_run (some r) f = if is_run_closed r.status then is_closed else changed (f r)

unfoldable pub pause_gateway : (String → Bool) → String → Gateway → Reply
pause_gateway up id s = on_open_run (find_run id s.runs) (λ r. record {
  runs = update_where (has_id id) (some "operator") s.runs;
  blocked = with_key (block_key up) (key_of r.litellm_key_id) s.blocked;
})

unfoldable pub resume_gateway : (String → Bool) → String → Gateway → Reply
resume_gateway up id s = on_open_run (find_run id s.runs) (λ r. record {
  runs = update_where (has_id id) none s.runs;
  blocked = with_key (unblock_key up) (key_of r.litellm_key_id) s.blocked;
})

-- The condition of the pausing sweep's query.
abbrev pub is_unheld : Run → Bool
is_unheld r =
    any (λ s. r.status =s s) ("provisioning" ∷ "seeding" ∷ "dispatching" ∷ "running" ∷ [])
    && not (is_some r.gateway_key_blocked_by)

-- The loop's body for a row of the query, which passes over a row without a key.
abbrev pub pause_row : (String → Bool) → String → Option String → Gateway × ℕ → Gateway × ℕ
pause_row up id none (s, n) = (s, n)
pause_row up id (some k) (s, n) = (
  record {
    runs = update_where (has_id id) (some "global") s.runs;
    blocked = block_key up k s.blocked;
  },
  n + 1,
)

unfoldable pub pause_rows : (String → Bool) → List Run → Gateway × ℕ → Gateway × ℕ
pause_rows up [] s = s
pause_rows up (r ∷ rs) s = pause_rows up rs (pause_row up r.run_id (key_of r.litellm_key_id) s)

unfoldable pub sweep_global_pause : (String → Bool) → Gateway → Gateway × ℕ
sweep_global_pause up s = pause_rows up (keep is_unheld s.runs) (s, 0)

abbrev pub is_global : Option String → Bool
is_global none = false
is_global (some by) = by =s "global"

abbrev pub is_held_globally : Run → Bool
is_held_globally r = is_global r.gateway_key_blocked_by

unfoldable pub resume_rows : (String → Bool) → List Run → Gateway → Gateway
resume_rows up [] s = s
resume_rows up (r ∷ rs) s = resume_rows up rs (record {
  runs = update_where (has_id r.run_id) none s.runs;
  blocked = with_key (unblock_key up) (key_of r.litellm_key_id) s.blocked;
})

unfoldable pub sweep_global_resume : (String → Bool) → Gateway → Gateway × ℕ
sweep_global_resume up s =
    let rows = keep is_held_globally s.runs in (resume_rows up rows s, length rows)

-- `block_if_globally_paused` once the key is known to be there or not.
abbrev pub recheck_key : (String → Bool) → Bool → String → Option String → Gateway → Gateway × Bool
recheck_key up paused id none s = (s, false)
recheck_key up false id (some k) s = (s, false)
recheck_key up true id (some k) s = (
  record {
    runs =
        update_where (λ r. has_id id r && not (is_some r.gateway_key_blocked_by)) (some "global")
          s.runs;
    blocked = block_key up k s.blocked;
  },
  true,
)

-- `block_if_globally_paused` of a run whose key was just recorded; `paused` is what
-- `control_state.is_paused("gateway")` says.
unfoldable pub block_if_globally_paused :
    (String → Bool) → Bool → String → Option String → Gateway → Gateway × Bool
block_if_globally_paused up paused id key s = recheck_key up paused id (key_of key) s
