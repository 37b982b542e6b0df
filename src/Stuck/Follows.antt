-- ===== src/Stuck/Follows.antt =====
-- swebench_eval/harnesses/stuck_detector.py: the scan keeps a longest block of the calls
-- so far, and the run at their end.
use agent_evals.Prelude.{
  ℕ, ◌+◌, ◌≡◌, inl, inr, refl, sym, ◌∙◌, ap, subst, max, Bool, true, false, Option, none, some,
  List, [], ◌∷◌, arith, Bool-cases,
}
use agent_evals.Stuck.{
  Call, Event, ToolRun, Scan, initial, extend, keep_best, scan_call, scan_calls, scan_event,
  scan_turn, scan_events, event_tool_calls, is_current, is_longer, longest_identical_tool_run,
}
use agent_evals.Stuck.Runs.{
  History, seen, push, history, HasBlock, same, same-eq, lead, longest, lead_alone, lead_other,
  lead_more, HasBlock-head, HasBlock-later,
}

-- The best run so far is a longest block.
abbrev pub IsLongest : Option ToolRun → History → Type 0
IsLongest none h = longest h ≡ 0
IsLongest (some run) h = (run.length_ ≡ longest h) × HasBlock run.length_ (run.tool, run.arg) h

-- The current call is the one at the head, with its count.
abbrev IsCurrent : Scan → History → Type 0
IsCurrent s [] = s.cur_tool ≡ none
IsCurrent s (none ∷ h) = s.cur_tool ≡ none
IsCurrent s (some c ∷ h) =
    (s.cur_tool ≡ some c.0) × (s.cur_arg ≡ c.1) × (s.cur_count ≡ lead c (some c ∷ h))

abbrev Follows : Scan → History → Type 0
Follows s h = IsCurrent s h × IsLongest s.best h

-- A call after nothing, or after another one, starts a run.
starts :
    (s : Scan) (c : Call)
    → is_current s c ≡ false
    → ((extend s c).cur_tool ≡ some c.0)
      × ((extend s c).cur_arg ≡ c.1)
      × ((extend s c).cur_count ≡ 1)
      × ((extend s c).best ≡ s.best)
unfolding extend
starts s (t, a) e = rw (e, extend) (refl, refl, refl, refl)

-- A call that is the current one goes on with its run.
goes_on :
    (s : Scan) (c : Call)
    → is_current s c ≡ true
    → ((extend s c).cur_tool ≡ s.cur_tool)
      × ((extend s c).cur_arg ≡ s.cur_arg)
      × ((extend s c).cur_count ≡ s.cur_count + 1)
      × ((extend s c).best ≡ s.best)
unfolding extend
goes_on s (t, a) e = rw (e, extend) (refl, refl, refl, refl)

is_current-none : (s : Scan) (c : Call) → s.cur_tool ≡ none → is_current s c ≡ false
is_current-none s (t, a) e = rw e refl

is_current-same :
    (s : Scan) (c d : Call) → s.cur_tool ≡ some d.0 → s.cur_arg ≡ d.1 → is_current s c ≡ same c d
unfolding same
is_current-same s (t, a) (u, b) e f = rw (e, f) refl

from_start :
    (s : Scan) (h : History) (c : Call)
    → is_current s c ≡ false
    → lead c h ≡ 0
    → IsCurrent (extend s c) (some c ∷ h) × ((extend s c).best ≡ s.best)
from_start s h c e z = let (p, q, r, b) = starts s c e in ((p, q, r ∙ sym (lead_alone c h z)), b)

extend-IsCurrent :
    (s : Scan) (h : History) (c : Call)
    → IsCurrent s h
    → IsCurrent (extend s c) (some c ∷ h) × ((extend s c).best ≡ s.best)
unfolding lead
extend-IsCurrent s [] c i = from_start s [] c (is_current-none s c i) refl
extend-IsCurrent s (none ∷ h) c i = from_start s (none ∷ h) c (is_current-none s c i) refl
extend-IsCurrent s (some d ∷ h) c (i, j, k) = elim (Bool-cases (same c d)) [
  | inl e ↦
      let (p, q, r, b) = goes_on s c (is_current-same s c d i j ∙ e) in
      let x = same-eq c d e in
      (
        (
          p ∙ (i ∙ ap (λ y. some y.0) (sym x)),
          q ∙ (j ∙ ap (λ y. y.1) (sym x)),
          r
              ∙ (ap (λ n. n + 1) (k ∙ ap (λ y. lead y (some d ∷ h)) (sym x))
                  ∙ sym (lead_more c (some d ∷ h))),
        ),
        b,
      )
  | inr e ↦ from_start s (some d ∷ h) c (is_current-same s c d i j ∙ e) (lead_other c d h e)
]

abbrev run_of : Scan → Call → ToolRun
run_of s c = record { tool = c.0; arg = c.1; length_ = s.cur_count; start = s.cur_start }

new_longest :
    (best : Option ToolRun) (n m k : ℕ) (h : History)
    → is_longer n best ≡ true
    → IsLongest best h
    → n ≡ k
    → k ≡ m + 1
    → n ≡ max (m + 1) (longest h)
new_longest none n m k h e l p q = omega (arith, l, p, q)
new_longest (some b) n m k h e (l, w) p q = ground (arith, e, l, p, q)

old-IsLongest :
    (best : Option ToolRun) (n k : ℕ) (c : Call) (h : History)
    → is_longer n best ≡ false
    → IsLongest best h
    → n ≡ k
    → k ≡ lead c h + 1
    → IsLongest best (some c ∷ h)
unfolding longest
old-IsLongest none n k c h e l p q = absurd (ground (arith, e))
old-IsLongest (some b) n k c h e (l, w) p q =
    (ground (arith, e, l, p, q), HasBlock-later b.length_ (b.tool, b.arg) (some c) h w)

keep_best-IsLongest :
    (s : Scan) (c : Call) (h : History)
    → s.cur_count ≡ lead c (some c ∷ h)
    → IsLongest s.best h
    → IsLongest (keep_best s c).best (some c ∷ h)
unfolding keep_best longest
keep_best-IsLongest s c h k l = elim (Bool-cases (is_longer s.cur_count s.best)) [
  | inl e ↦
      rw (e, keep_best)
        (
          new_longest s.best s.cur_count (lead c h) _ h e l k (lead_more c h),
          subst (λ n. HasBlock n c (some c ∷ h)) (sym k) (HasBlock-head c h),
        )
  | inr e ↦ rw (e, keep_best) (old-IsLongest s.best s.cur_count _ c h e l k (lead_more c h))
]

keep_best-IsCurrent :
    (s : Scan) (c : Call) (h : History)
    → IsCurrent s (some c ∷ h)
    → IsCurrent (keep_best s c) (some c ∷ h)
unfolding keep_best
keep_best-IsCurrent s c h i = elim (Bool-cases (is_longer s.cur_count s.best)) [
  | inl e ↦ rw (e, keep_best) i
  | inr e ↦ rw (e, keep_best) i
]

IsLongest-skip :
    (best : Option ToolRun) (h : History) → IsLongest best h → IsLongest best (none ∷ h)
unfolding longest
IsLongest-skip none h l = l
IsLongest-skip (some b) h (l, w) = (l, HasBlock-later b.length_ (b.tool, b.arg) none h w)

scan_call-Follows :
    (skip : Bool) (s : Scan) (c : Call) (h : History)
    → Follows s h
    → Follows (scan_call skip s c) (seen skip c ∷ h)
unfolding scan_call
scan_call-Follows true s c h (i, l) = (refl, IsLongest-skip s.best h l)
scan_call-Follows false s c h (i, l) =
    let (j, b) = extend-IsCurrent s h c i in
    (
      keep_best-IsCurrent (extend s c) c h j,
      keep_best-IsLongest (extend s c) c h j.2 (subst (λ r. IsLongest r h) (sym b) l),
    )

scan_calls-Follows :
    (skip : Bool) (s : Scan) (calls : List Call) (h : History)
    → Follows s h
    → Follows (scan_calls skip s calls) (push skip h calls)
unfolding scan_calls
scan_calls-Follows skip s [] h f = f
scan_calls-Follows skip s (c ∷ calls) h f =
    scan_calls-Follows skip (scan_call skip s c) calls (seen skip c ∷ h)
      (scan_call-Follows skip s c h f)

Follows-index :
    (s : Scan) (h : History) → Follows s h → Follows (record s { tool_idx = s.tool_idx + 1 }) h
Follows-index s [] f = f
Follows-index s (none ∷ h) f = f
Follows-index s (some c ∷ h) f = f

scan_turn-Follows :
    (skip : Bool) (s : Scan) (calls : List Call) (h : History)
    → Follows s h
    → Follows (scan_turn skip s calls) (push skip h calls)
unfolding scan_turn
scan_turn-Follows skip s [] h f = f
scan_turn-Follows skip s (c ∷ calls) h f =
    Follows-index (scan_calls skip s (c ∷ calls)) (push skip h (c ∷ calls))
      (scan_calls-Follows skip s (c ∷ calls) h f)

scan_events-Follows :
    (errored_only : Bool) (s : Scan) (evs : List Event) (h : History)
    → Follows s h
    → Follows (scan_events errored_only s evs) (history errored_only h evs)
unfolding scan_events scan_event history
scan_events-Follows errored_only s [] h f = f
scan_events-Follows errored_only s (ev ∷ evs) h f =
    scan_events-Follows errored_only (scan_event errored_only s ev) evs _
      (scan_turn-Follows _ s (event_tool_calls ev) h f)

-- The run that the scan reports is a longest block of the calls.
pub run-IsLongest :
    (events : List Event) (errored_only : Bool)
    → IsLongest (longest_identical_tool_run events errored_only) (history errored_only [] events)
unfolding longest_identical_tool_run initial longest
run-IsLongest events errored_only =
    (scan_events-Follows errored_only initial events [] (refl, refl)).1
