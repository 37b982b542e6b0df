-- ===== src/Dispatcher/Planner/Pauses.antt =====
-- harness_dispatcher.py: the planner's two holds, over any ticks.
use agent_evals.Prelude.{
  ℕ, ◌+◌, ◌≤◌, ◌<◌, ◌≡◌, refl, true, false, ◌||◌, Option, none, some, List, [], ◌∷◌, arith,
}
use agent_evals.Dispatcher.Planner.{
  AliasView, Totals, no_totals, totals, Binding, cooldown, Holds, is_pressured, cool, pace, hold,
  Verdict, held_verdict, capped, named, named_override, overridden, ceiling_override, at_capacity,
  decide_ceiling, Settings, tick, gate, is_unbound,
}

-- A tick: when, with how many tasks in flight, and what it reads.
pub record Tick : Type 0 where
  pub now : ℕ
  pub in_flight : ℕ
  pub settings : Settings
  pub aliases : List AliasView

abbrev pub run_tick : Tick → Holds → Holds
run_tick t h = (tick t.now t.in_flight t.settings t.aliases h).0

abbrev pub verdict_of : Tick → Holds → Verdict
verdict_of t h = (tick t.now t.in_flight t.settings t.aliases h).1

unfoldable pub run_ticks : List Tick → Holds → Holds
run_ticks [] h = h
run_ticks (t ∷ ts) h = run_ticks ts (run_tick t h)

-- None of the ticks has a cooldown that would end before a time.
unfoldable pub EndsAfter : ℕ → List Tick → Type 0
EndsAfter until [] = Unit
EndsAfter until (t ∷ ts) = (until ≤ t.now + t.settings.window) × EndsAfter until ts

tick_keeps :
    (until : ℕ) (t : Tick) (h : Holds)
    → until ≤ t.now + t.settings.window
    → until ≤ h.cooldown_until
    → until ≤ (run_tick t h).cooldown_until
unfolding tick hold pace cool
tick_keeps until t h after before = ground arith

ticks_keep :
    (until : ℕ) (ts : List Tick) (h : Holds)
    → EndsAfter until ts
    → until ≤ h.cooldown_until
    → until ≤ (run_ticks ts h).cooldown_until
unfolding run_ticks EndsAfter
ticks_keep until [] h after before = before
ticks_keep until (t ∷ ts) h (here, after) before =
    ticks_keep until ts (run_tick t h) after (tick_keeps until t h here before)

overload_cools :
    (t : Tick) (h : Holds)
    → 0 < (totals no_totals t.aliases).overloads
    → (run_tick t h).cooldown_until ≡ t.now + t.settings.window
unfolding tick hold pace cool
overload_cools t h over = ground arith

-- A verdict that lets nothing new be launched, for a hold.
abbrev pub IsHeld : ℕ → Binding → Verdict → Type 0
IsHeld in_flight b v = (v.binding_constraint ≡ b) × (v.desired_ceiling ≤ in_flight)

capped-IsHeld :
    (cap : Option ℕ) (n : ℕ) (b : Binding) (v : Verdict)
    → is_unbound b ≡ false
    → IsHeld n b v
    → IsHeld n b (capped cap n v)
unfolding capped
capped-IsHeld none n b v bound held = held
capped-IsHeld (some cap) n b v bound held = ground arith

named-IsHeld :
    (n : ℕ) (b other : Binding) (v : Verdict)
    → is_unbound b ≡ false
    → IsHeld n b v
    → IsHeld n b (named n other v)
named-IsHeld n b other v bound held = ground arith

named_override-IsHeld :
    (override : Option ℕ) (n : ℕ) (b : Binding) (v : Verdict)
    → is_unbound b ≡ false
    → IsHeld n b v
    → IsHeld n b (named_override override n v)
named_override-IsHeld none n b v bound held = held
named_override-IsHeld (some m) n b v bound held = named-IsHeld n b ceiling_override v bound held

decide-IsHeld :
    (b : Binding) (now n : ℕ) (override cap : Option ℕ) (t : Totals) (h : Holds)
    → is_unbound b ≡ false
    → IsHeld n b (held_verdict now n h (overridden override t.ceiling) t.binding)
    → IsHeld n b (decide_ceiling now n override cap t h)
unfolding decide_ceiling
decide-IsHeld b now n override cap t h bound held =
    let v = held_verdict now n h (overridden override t.ceiling) t.binding in
    let v' = capped-IsHeld cap n b v bound held in
    named-IsHeld n b at_capacity _ bound (named_override-IsHeld override n b _ bound v')

holds_cool :
    (now n : ℕ) (h : Holds) (ceiling : ℕ) (b : Binding)
    → now < h.cooldown_until
    → IsHeld n cooldown (held_verdict now n h ceiling b)
unfolding held_verdict
holds_cool now n h ceiling b within = ground arith

gate_held :
    (v : Verdict) (n : ℕ)
    → v.binding_constraint ≡ cooldown
    → gate true true (some v) n ≡ some cooldown
unfolding gate
gate_held v n e = rw e refl

-- After an overload nothing new is launched: once a tick saw one, every tick before the end of that tick's
-- window says cooldown, allows no more tasks than there are, and its live gate blocks any number of them,
-- whatever other ticks came between, if none of those has a cooldown that would end sooner.
pub overload-IsHeld :
    (t : Tick) (ts : List Tick) (u : Tick) (h : Holds) (n : ℕ)
    → 0 < (totals no_totals t.aliases).overloads
    → EndsAfter (t.now + t.settings.window) ts
    → t.now + t.settings.window ≤ u.now + u.settings.window
    → u.now < t.now + t.settings.window
    → IsHeld u.in_flight cooldown (verdict_of u (run_ticks ts (run_tick t h)))
      × (gate true true (some (verdict_of u (run_ticks ts (run_tick t h)))) n ≡ some cooldown)
unfolding tick gate
overload-IsHeld t ts u h n over after last within =
    let h' = run_ticks ts (run_tick t h) in
    let until = t.now + t.settings.window in
    let kept = ticks_keep until ts (run_tick t h) after (omega (arith, overload_cools t h over)) in
    let still = tick_keeps until u h' last kept in
    let held : IsHeld u.in_flight cooldown (verdict_of u h') =
      decide-IsHeld cooldown u.now u.in_flight u.settings.override u.settings.cap _ _ refl
        (holds_cool u.now u.in_flight (run_tick u h') _ _ (omega arith)) in
    (held, gate_held (verdict_of u h') n held.0)

-- A hold under paced pressure is released by the second of two ticks in a row without pressure, and by nothing
-- else: after a tick with pressure the next one holds, and so does the one after it if either has pressure.
pub pressure-held :
    (t u v : Tick) (h : Holds)
    → is_pressured (totals no_totals t.aliases) ≡ true
    → ((run_tick u (run_tick t h)).paced_blocked ≡ true)
      × ((run_tick v (run_tick u (run_tick t h))).paced_blocked ≡ (
          is_pressured (totals no_totals u.aliases) || is_pressured (totals no_totals v.aliases)))
unfolding tick hold pace cool
pressure-held t u v h pressed = ground arith
