-- ===== src/Stuck/Tests.antt =====
-- Runs of the detector of swebench_eval/harnesses/stuck_detector.py on concrete trajectories.
use agent_evals.Prelude.{◌≤◌, ◌≡◌, refl, true, false, none, some, List, [], ◌∷◌}
use agent_evals.Prelude.Text.{Text, codes, lstrip, rstrip, strip, eq_text, lower, in_text}
use agent_evals.Stuck.{
  Event, RawCall, entry, or_else, tool_identity, raw_calls, event_tool_calls, is_error, initial,
  extend, keep_best, scan_call, scan_calls, scan_turn, scan_event, scan_events,
  longest_identical_tool_run, distinct, diff_unchanged_over_run, no_progress, later_signals,
  signal1, evaluate, ok, repeated_call, repeated_call_no_diff, repeated_error,
}
use agent_evals.Stuck.Runs.{HasBlock, history}
use agent_evals.Stuck.Verdicts.{calls_of, copies, run-longest}

-- A bash call, with its output.
abbrev bash : Text → Text → Event
bash command output = record {
  is_tool_event = true;
  name = some (codes "bash");
  normalized = record { tool = none; command = some command; path = none; editor_command = none };
  tool_calls = [];
  output = output;
}

-- A message that carries the same call `n` times.
abbrev message : List RawCall → Event
message raws = record {
  is_tool_event = false;
  name = none;
  normalized = record { tool = none; command = none; path = none; editor_command = none };
  tool_calls = raws;
  output = [];
}

abbrev grep : RawCall
grep = entry (some (codes "grep")) none (codes "x")

abbrev ls : Event
ls = bash (codes "ls") []

abbrev cat_ : Event
cat_ = bash (codes "cat a") (codes "No such file")

abbrev one_message : Event
one_message = message (grep ∷ grep ∷ grep ∷ grep ∷ grep ∷ [])

ls_call : event_tool_calls ls ≡ (codes "bash", codes "ls") ∷ []
unfolding event_tool_calls tool_identity or_else strip lstrip rstrip
ls_call = refl

cat_error : is_error cat_ ≡ true
unfolding is_error lower in_text
cat_error = refl

abbrev looping : List Event
looping = cat_ ∷ ls ∷ ls ∷ ls ∷ ls ∷ ls ∷ []

loop :
    longest_identical_tool_run looping false
    ≡ some (record { tool = codes "bash"; arg = codes "ls"; length_ = 5; start = 1 })
unfolding longest_identical_tool_run scan_events scan_event scan_turn scan_calls scan_call keep_best
    extend initial event_tool_calls tool_identity or_else strip lstrip rstrip eq_text
loop = refl

-- A diff that stands still over the five calls, and one that moves.
loop_verdicts :
    (evaluate looping 0 [] ≡ repeated_call)
    × (evaluate looping 0 ([] ∷ [] ∷ [] ∷ [] ∷ [] ∷ [] ∷ []) ≡ repeated_call_no_diff)
    × (evaluate looping 0 ([] ∷ [] ∷ [] ∷ [] ∷ codes "d" ∷ [] ∷ []) ≡ ok)
    × (evaluate (cat_ ∷ cat_ ∷ cat_ ∷ cat_ ∷ []) 0 [] ≡ repeated_error)
unfolding evaluate signal1 later_signals no_progress distinct diff_unchanged_over_run
    longest_identical_tool_run scan_events scan_event scan_turn scan_calls scan_call keep_best
    extend initial event_tool_calls tool_identity or_else strip lstrip rstrip eq_text is_error lower
    in_text
loop_verdicts = (refl, refl, refl, refl)

run-longest_example : HasBlock 5 (codes "bash", codes "ls") (calls_of looping false) × (5 ≤ 5)
unfolding history event_tool_calls tool_identity or_else strip lstrip rstrip
run-longest_example = run-longest looping false _ 5 (codes "bash", codes "ls") loop ([], _, refl)

one_message_calls : event_tool_calls one_message ≡ copies 5 (codes "grep", codes "x")
unfolding event_tool_calls raw_calls or_else
one_message_calls = refl

one_message_fine : is_error one_message ≡ false
unfolding is_error lower in_text
one_message_fine = refl
