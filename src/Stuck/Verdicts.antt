-- ===== src/Stuck/Verdicts.antt =====
-- swebench_eval/harnesses/stuck_detector.py: what `evaluate` answers, in terms of the blocks of equal
-- calls.
use agent_evals.Prelude.{
  ℕ, zero, suc, ◌≤◌, ◌≡◌, ◌↔◌, ◌⊎◌, inl, inr, refl, ◌∙◌, ap, subst, Bool, true, false, not, ◌&&◌,
  Option, none, some, List, [], ◌∷◌, leb, arith, Bool-cases, if◌then◌else◌, any,
}
use agent_evals.Prelude.Text.{Text}
use agent_evals.Stuck.{
  Call, Event, ToolRun, event_tool_calls, is_error, longest_identical_tool_run, has_calls,
  is_run_of, signal1, later_signals, no_progress, diff_unchanged_over_run, evaluate, state, stuck,
  ok, repeated_call,
}
use agent_evals.Stuck.Follows.{IsLongest, run-IsLongest}
use agent_evals.Stuck.Runs.{History, history, push, block, HasBlock, longest, longest_bound}

abbrev pub calls_of : List Event → Bool → History
calls_of events errored_only = history errored_only [] events

-- The run that the scan reports is a block of equal calls in the order of the trajectory, and no
-- block is longer; in the errored mode a call whose event shows no error breaks a block.
pub run-longest :
    (events : List Event) (errored_only : Bool) (run : ToolRun) (n : ℕ) (c : Call)
    → longest_identical_tool_run events errored_only ≡ some run
    → HasBlock n c (calls_of events errored_only)
    → HasBlock run.length_ (run.tool, run.arg) (calls_of events errored_only) × (n ≤ run.length_)
run-longest events errored_only run n c e b =
    let (l, w) =
      subst (λ r. IsLongest r (calls_of events errored_only)) e
        (run-IsLongest events errored_only) in
    (w, omega (arith, l, longest_bound n c (calls_of events errored_only) b))

is_run_of-IsLongest :
    (n : ℕ) (run : Option ToolRun) (h : History)
    → IsLongest run h
    → is_run_of (suc n) run ≡ leb (suc n) (longest h)
is_run_of-IsLongest n none h l = ground (arith, l)
is_run_of-IsLongest n (some run) h (l, w) = rw l refl

is_run_of-longest :
    (n : ℕ) (events : List Event) (errored_only : Bool)
    → is_run_of (suc n) (longest_identical_tool_run events errored_only)
      ≡ leb (suc n) (longest (calls_of events errored_only))
is_run_of-longest n events errored_only =
    is_run_of-IsLongest n (longest_identical_tool_run events errored_only)
      (calls_of events errored_only) (run-IsLongest events errored_only)

-- Events without a call leave no history.
push_none :
    (skip : Bool) (h : History) (calls : List Call)
    → (elim calls [ [] ↦ false | c ∷ cs ↦ true ]) ≡ false
    → push skip h calls ≡ h
push_none skip h [] e = refl
push_none skip h (c ∷ cs) e = absurd (ground (arith, e))

history_none :
    (errored_only : Bool) (h : History) (events : List Event)
    → any has_calls events ≡ false
    → history errored_only h events ≡ h
unfolding history
history_none errored_only h [] e = refl
history_none errored_only h (ev ∷ evs) e = elim (Bool-cases (has_calls ev)) [
  | inl f ↦ absurd (ground (arith, e, f))
  | inr f ↦
      rw (push_none (errored_only && not (is_error ev)) h (event_tool_calls ev) f)
        (history_none errored_only h evs (ground (arith, e, f)))
]

signal1_without :
    (events : List Event) (spent : ℕ) (run : Option ToolRun)
    → signal1 events spent [] run
      ≡ (if is_run_of 5 run then repeated_call else later_signals events spent [])
unfolding signal1
signal1_without events spent none = refl
signal1_without events spent (some run) = refl

-- Without fingerprints the verdict is stuck exactly when some call stands five times in a row, or
-- four times in a row among the events that show an error.
pub evaluate-stuck_iff :
    (events : List Event) (spent : ℕ)
    → (state (evaluate events spent []) ≡ stuck)
      ↔ ((5 ≤ longest (calls_of events false)) ⊎ (4 ≤ longest (calls_of events true)))
unfolding evaluate later_signals longest
evaluate-stuck_iff events spent = elim (Bool-cases (any has_calls events)) [
  | inl e ↦
      rw
        (
          e,
          signal1_without events spent (longest_identical_tool_run events false),
          is_run_of-longest 4 events false,
          is_run_of-longest 3 events true,
        )
        (ground arith)
  | inr e ↦ rw (e, history_none false [] events e, history_none true [] events e) (ground arith)
]

longest_skipped : (h : History) (calls : List Call) → longest (push true h calls) ≡ longest h
unfolding longest
longest_skipped h [] = refl
longest_skipped h (c ∷ calls) = longest_skipped (none ∷ h) calls

abbrev pub copies : ℕ → Call → List Call
copies zero c = []
copies (suc n) c = c ∷ copies n c

block_shift : (n : ℕ) (c : Call) (h : History) → block n c (some c ∷ h) ≡ some c ∷ block n c h
block_shift zero c h = refl
block_shift (suc n) c h = ap (◌∷◌ (some c)) (block_shift n c h)

push-copies : (n : ℕ) (c : Call) (h : History) → push false h (copies n c) ≡ block n c h
push-copies zero c h = refl
push-copies (suc n) c h = push-copies n c (some c ∷ h) ∙ block_shift n c h

-- One fingerprint covers no window of five.
window_short :
    (run : Option ToolRun) (events : List Event) (spent : ℕ) (p : Text)
    → signal1 events spent (p ∷ []) run ≡ later_signals events spent (p ∷ [])
unfolding signal1 diff_unchanged_over_run
window_short none events spent p = refl
window_short (some run) events spent p = ground arith

one_print : (spent : ℕ) (p : Text) → no_progress spent (p ∷ []) ≡ false
unfolding no_progress
one_print spent p = ground arith

module _ (ev : Event) (n : ℕ) (c : Call) (repeats : event_tool_calls ev ≡ copies (suc n) c)
    (many : 4 ≤ n) (fine : is_error ev ≡ false) where
  some_calls : any has_calls (ev ∷ []) ≡ true
  some_calls = rw (has_calls, repeats) refl

  five_of : 5 ≤ longest (calls_of (ev ∷ []) false)
  unfolding history
  five_of =
      rw (repeats, push-copies (suc n) c [])
        (omega (arith, many, longest_bound (suc n) c (block (suc n) c []) ([], [], refl)))

  none_errored : longest (calls_of (ev ∷ []) true) ≡ 0
  unfolding history longest
  none_errored = rw fine (longest_skipped [] (event_tool_calls ev))

  -- An event that carries the same call five times or more, and shows no error, is a repeated call
  -- without fingerprints; with the one fingerprint of the event the verdict is `ok`.
  pub evaluate-one_event :
      (spent : ℕ) (p : Text)
      → (evaluate (ev ∷ []) spent [] ≡ repeated_call) × (evaluate (ev ∷ []) spent (p ∷ []) ≡ ok)
  unfolding evaluate later_signals
  evaluate-one_event spent p = (
    rw
        (
          some_calls,
          signal1_without (ev ∷ []) spent (longest_identical_tool_run (ev ∷ []) false),
          is_run_of-longest 4 (ev ∷ []) false,
        )
        (ground (arith, five_of)),
    rw
        (
          some_calls,
          window_short (longest_identical_tool_run (ev ∷ []) false) (ev ∷ []) spent p,
          is_run_of-longest 3 (ev ∷ []) true,
          none_errored,
        )
        (rw (one_print spent p) refl),
  )
