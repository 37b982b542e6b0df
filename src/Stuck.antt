-- ===== src/Stuck.antt =====
-- swebench_eval/harnesses/stuck_detector.py: the detector of a looping agent, a function of the list
-- of trajectory events. A value of an event's dictionary is a text or absent; `json.dumps` of a tool
-- input is the text that it gives. The budget fraction is in millionths. The verdict's evidence, a
-- text for the log, and the reading of the trajectory file are not modelled.
pub mod Runs
pub mod Follows
pub mod Verdicts
mod Tests
use agent_evals.Prelude.{
  ℕ, ◌+◌, ◌-◌, String, Bool, true, false, not, ◌&&◌, ◌||◌, Option, none, some, List, [], ◌∷◌, ◌++◌,
  ltb, leb, ◌==◌, if◌then◌else◌, length, take, drop, any, or_default,
}
use agent_evals.Prelude.Text.{Text, codes, eq_text, strip, lower, in_text}

-- The dictionary `normalized` of an event; an event without one has the empty one.
pub record Normalized : Type 0 where
  pub tool : Option Text
  pub command : Option Text
  pub path : Option Text
  pub editor_command : Option Text

-- An entry of `tool_calls`: its `input` as the code prints it. An entry that is no dictionary is
-- `other`.
pub data RawCall : Type 0 where
  other : RawCall
  entry : (name tool : Option Text) (input : Text) → RawCall

-- `tool_calls` is empty where the event has no list of that name.
pub record Event : Type 0 where
  pub is_tool_event : Bool
  pub name : Option Text
  pub normalized : Normalized
  pub tool_calls : List RawCall
  pub output : Text

abbrev pub Call : Type 0
Call = Text × Text

-- Python's `a or b`, where the empty text counts as absent.
pub or_else : Option Text → Option Text → Option Text
or_else none b = b
or_else (some []) b = b
or_else (some (c ∷ s)) b = some (c ∷ s)

-- A name, unless it is absent or empty.
abbrev named : Option Text → Text → List Call
named none arg = []
named (some []) arg = []
named (some (c ∷ s)) arg = (c ∷ s, arg) ∷ []

-- `_tool_identity`, as the list of the one call or of none.
pub tool_identity : Event → List Call
unfolding or_else strip
tool_identity ev = named (or_else ev.name ev.normalized.tool) (
    strip (
      or_default ev.normalized.editor_command []
      ++ (32 ∷ (or_default ev.normalized.path [] ++ (32 ∷ or_default ev.normalized.command [])))))

pub raw_calls : List RawCall → List Call
raw_calls [] = []
raw_calls (other ∷ raws) = raw_calls raws
raw_calls (entry name tool input ∷ raws) = named (or_else name tool) input ++ raw_calls raws

-- `_event_tool_calls`.
pub event_tool_calls : Event → List Call
unfolding tool_identity raw_calls
event_tool_calls ev = if ev.is_tool_event then tool_identity ev else raw_calls ev.tool_calls

-- `_is_error`.
pub is_error : Event → Bool
unfolding lower in_text
is_error ev =
    let low = lower ev.output in
    in_text (codes "error") low
    || (in_text (codes "traceback") low
        || (in_text (codes "exception") low
            || (in_text (codes "command not found") low || in_text (codes "no such file") low)))

-- `_ToolRun`.
pub record ToolRun : Type 0 where
  pub tool : Text
  pub arg : Text
  pub length_ : ℕ
  pub start : ℕ

-- The local variables of `_longest_identical_tool_run`.
pub record Scan : Type 0 where
  pub best : Option ToolRun
  pub cur_tool : Option Text
  pub cur_arg : Text
  pub cur_count : ℕ
  pub cur_start : ℕ
  pub tool_idx : ℕ

pub initial : Scan
initial = record {
  best = none;
  cur_tool = none;
  cur_arg = [];
  cur_count = 0;
  cur_start = 0;
  tool_idx = 0;
}

abbrev is_current : Scan → Call → Bool
is_current s (tool, arg) = elim s.cur_tool [
  | none ↦ false
  | some t ↦ eq_text tool t && eq_text arg s.cur_arg
]

-- `best is None or cur_count > best["length"]`.
abbrev is_longer : ℕ → Option ToolRun → Bool
is_longer count best = elim best [ none ↦ true | some b ↦ ltb b.length_ count ]

pub extend : Scan → Call → Scan
extend s (tool, arg) =
    if is_current s (tool, arg)
    then record s { cur_count = s.cur_count + 1 }
    else record s { cur_tool = some tool; cur_arg = arg; cur_count = 1; cur_start = s.tool_idx }

pub keep_best : Scan → Call → Scan
keep_best s (tool, arg) =
    if is_longer s.cur_count s.best
    then record s {
      best = some (record { tool = tool; arg = arg; length_ = s.cur_count; start = s.cur_start });
    }
    else s

-- One turn of the inner loop; `skip` is `errored_only and not _is_error(ev)`.
pub scan_call : Bool → Scan → Call → Scan
scan_call true s call = record s { cur_count = 0; cur_tool = none; tool_idx = s.tool_idx + 1 }
scan_call false s call = keep_best (extend s call) call

pub scan_calls : Bool → Scan → List Call → Scan
scan_calls skip s [] = s
scan_calls skip s (call ∷ calls) = scan_calls skip (scan_call skip s call) calls

-- One turn of the outer loop: an event without a call is passed over.
pub scan_turn : Bool → Scan → List Call → Scan
scan_turn skip s [] = s
scan_turn skip s (call ∷ calls) =
    let s' = scan_calls skip s (call ∷ calls) in record s' { tool_idx = s'.tool_idx + 1 }

pub scan_event : Bool → Scan → Event → Scan
scan_event errored_only s ev = scan_turn (errored_only && not (is_error ev)) s (event_tool_calls ev)

pub scan_events : Bool → Scan → List Event → Scan
scan_events errored_only s [] = s
scan_events errored_only s (ev ∷ evs) = scan_events errored_only (scan_event errored_only s ev) evs

pub longest_identical_tool_run : List Event → Bool → Option ToolRun
longest_identical_tool_run events errored_only = (scan_events errored_only initial events).best

-- `len(set(texts))`.
pub distinct : List Text → ℕ
distinct [] = 0
distinct (t ∷ ts) = if any (λ u. eq_text u t) ts then distinct ts else distinct ts + 1

-- `_diff_unchanged_over_run`.
pub diff_unchanged_over_run : List Text → ToolRun → Bool
diff_unchanged_over_run prints run =
    if ltb (length prints) (run.start + run.length_)
    then false
    else let window = take run.length_ (drop run.start prints) in
      leb 2 (length window) && distinct window == 1

-- REPEAT_IDENTICAL_NO_DIFF, REPEAT_ERRORED, BUDGET_FRACTION_TRIGGER, TRAILING_TURNS_NO_DIFF.
abbrev pub repeat_identical_no_diff : ℕ
repeat_identical_no_diff = 5

abbrev pub repeat_errored : ℕ
repeat_errored = 4

abbrev pub budget_fraction_trigger : ℕ
budget_fraction_trigger = 500_000

abbrev pub trailing_turns_no_diff : ℕ
trailing_turns_no_diff = 15

-- `StuckState`, with the reason.
pub data Verdict : Type 0 where
  no_tool_calls ok : Verdict
  repeated_call_no_diff repeated_call repeated_error no_diff_progress : Verdict

pub data StuckState : Type 0 where
  stuck not_stuck insufficient_data : StuckState

abbrev pub state : Verdict → StuckState
state no_tool_calls = insufficient_data
state ok = not_stuck
state repeated_call_no_diff = stuck
state repeated_call = stuck
state repeated_error = stuck
state no_diff_progress = stuck

abbrev pub has_calls : Event → Bool
has_calls ev = elim (event_tool_calls ev) [ [] ↦ false | call ∷ calls ↦ true ]

abbrev pub is_run_of : ℕ → Option ToolRun → Bool
is_run_of n run = elim run [ none ↦ false | some r ↦ leb n r.length_ ]

-- Signal 3.
pub no_progress : ℕ → List Text → Bool
no_progress spent prints =
    leb budget_fraction_trigger spent
    && (leb trailing_turns_no_diff (length prints)
        && distinct (drop (length prints - trailing_turns_no_diff) prints) == 1)

-- Signals 2 and 3; without fingerprints, which an empty list stands for too, signal 3 is off.
pub later_signals : List Event → ℕ → List Text → Verdict
later_signals events spent prints =
    if is_run_of repeat_errored (longest_identical_tool_run events true)
    then repeated_error
    else elim prints [
      | [] ↦ ok
      | p ∷ ps ↦ if no_progress spent (p ∷ ps) then no_diff_progress else ok
    ]

-- The test of signal 1 on the longest run.
pub signal1 : List Event → ℕ → List Text → Option ToolRun → Verdict
signal1 events spent prints none = later_signals events spent prints
signal1 events spent prints (some run) =
    if leb repeat_identical_no_diff run.length_
    then (elim prints [
      | [] ↦ repeated_call
      | p ∷ ps ↦
          if diff_unchanged_over_run (p ∷ ps) run
          then repeated_call_no_diff
          else later_signals events spent (p ∷ ps)
    ])
    else later_signals events spent prints

pub evaluate : List Event → ℕ → List Text → Verdict
evaluate events spent prints =
    if any has_calls events
    then signal1 events spent prints (longest_identical_tool_run events false)
    else no_tool_calls
