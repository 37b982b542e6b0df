-- ===== src/Dispatcher/Planner.antt =====
-- harness_dispatcher.py `Autoscaler`: the verdict of a tick of the planner and its gate. Times are whole numbers
-- of milliseconds. What each alias projects and reports is an argument, its ceiling too, but for its budgets
-- (Budgets).
pub mod Pauses
pub mod Budgets
pub mod Ratchet
use agent_evals.Prelude.{
  ℕ, ◌+◌, ◌-◌, ◌*◌, min, max, String, Bool, true, false, not, ◌&&◌, ◌||◌, Option, none, some, List,
  [], ◌∷◌, ltb, leb, ◌==◌, if◌then◌else◌,
}

-- `binding_constraint`; `unbound` is "none".
pub data Binding : Type 0 where
  unbound arrival_budget inflight_budget qps_budget borrowed_curve : Binding
  cooldown paced static_cap ceiling_override at_capacity : Binding

-- What a tick has of one alias: its ceiling, what bound it, and the signals of its last minute; of the
-- admissions, how many there were and how many waited for more than two seconds. The head's wait is in
-- milliseconds.
pub record AliasView : Type 0 where
  pub ceiling : ℕ
  pub binding : Binding
  pub overloads : ℕ
  pub admitted : ℕ
  pub over_2s : ℕ
  pub timeouts : ℕ
  pub queue_len : ℕ
  pub head_wait : ℕ

pub record Totals : Type 0 where
  pub ceiling : ℕ
  pub binding : Binding
  pub overloads : ℕ
  pub over_share : Bool
  pub timeouts : ℕ
  pub queue_len : ℕ
  pub head_wait : ℕ

abbrev pub is_unbound : Binding → Bool
is_unbound unbound = true
is_unbound _ = false

-- The share is above `_PACED_SHARE_LIMIT`; there is none of no admissions.
abbrev pub is_over_share : AliasView → Bool
is_over_share v = ltb 0 v.admitted && ltb v.admitted (20 * v.over_2s)

abbrev pub no_totals : Totals
no_totals = record {
  ceiling = 0;
  binding = unbound;
  overloads = 0;
  over_share = false;
  timeouts = 0;
  queue_len = 0;
  head_wait = 0;
}

-- The loop over the aliases.
unfoldable pub add_alias : Totals → AliasView → Totals
add_alias t v = record {
  ceiling = t.ceiling + v.ceiling;
  binding = if is_unbound t.binding then v.binding else t.binding;
  overloads = t.overloads + v.overloads;
  over_share = t.over_share || is_over_share v;
  timeouts = t.timeouts + v.timeouts;
  queue_len = max t.queue_len v.queue_len;
  head_wait = max t.head_wait v.head_wait;
}

unfoldable pub totals : Totals → List AliasView → Totals
totals t [] = t
totals t (v ∷ vs) = totals (add_alias t v) vs

-- What the planner keeps from tick to tick for its two holds.
pub record Holds : Type 0 where
  pub cooldown_until : ℕ
  pub paced_blocked : Bool
  pub paced_clean_windows : ℕ

abbrev pub queue_head_wait_limit : ℕ
queue_head_wait_limit = 5_000

unfoldable pub is_pressured : Totals → Bool
is_pressured t =
    t.over_share
    || (ltb 0 t.timeouts || (ltb 0 t.queue_len && ltb queue_head_wait_limit t.head_wait))

-- The cooldown of a tick at `now`.
unfoldable pub cool : ℕ → ℕ → Totals → Holds → Holds
cool now window t h = if ltb 0 t.overloads then record h { cooldown_until = now + window } else h

-- The hold under paced pressure, which two clean ticks in a row release.
unfoldable pub pace : Totals → Holds → Holds
pace t h =
    if is_pressured t
    then record h { paced_blocked = true; paced_clean_windows = 0 }
    else if h.paced_blocked
    then record h {
      paced_clean_windows = h.paced_clean_windows + 1;
      paced_blocked = ltb (h.paced_clean_windows + 1) 2;
    }
    else h

unfoldable pub hold : ℕ → ℕ → Totals → Holds → Holds
hold now window t h = pace t (cool now window t h)

pub record Verdict : Type 0 where
  pub desired_ceiling : ℕ
  pub binding_constraint : Binding

abbrev pub verdict : ℕ → Binding → Verdict
verdict ceiling binding = record { desired_ceiling = ceiling; binding_constraint = binding }

abbrev pub overridden : Option ℕ → ℕ → ℕ
overridden none ceiling = ceiling
overridden (some n) ceiling = n

-- The holds' part: no new task while either stands.
unfoldable pub held_verdict : ℕ → ℕ → Holds → ℕ → Binding → Verdict
held_verdict now in_flight h ceiling binding =
    if ltb now h.cooldown_until
    then verdict (min ceiling in_flight) cooldown
    else if h.paced_blocked
    then verdict (min ceiling in_flight) paced
    else verdict ceiling binding

-- A binding is named where there is none yet and nothing may be launched.
abbrev pub named : ℕ → Binding → Verdict → Verdict
named in_flight binding v =
    if is_unbound v.binding_constraint && leb v.desired_ceiling in_flight
    then verdict v.desired_ceiling binding
    else v

-- The hard cap, `none` where it cannot be read.
unfoldable pub capped : Option ℕ → ℕ → Verdict → Verdict
capped none in_flight v = v
capped (some cap) in_flight v =
    if ltb cap v.desired_ceiling
    then named in_flight static_cap (verdict cap v.binding_constraint)
    else v

abbrev pub named_override : Option ℕ → ℕ → Verdict → Verdict
named_override none in_flight v = v
named_override (some n) in_flight v = named in_flight ceiling_override v

-- A tick's verdict from the totals, with the holds as the tick leaves them.
unfoldable pub decide_ceiling : ℕ → ℕ → Option ℕ → Option ℕ → Totals → Holds → Verdict
decide_ceiling now in_flight override cap t h =
    let held = held_verdict now in_flight h (overridden override t.ceiling) t.binding in
    named in_flight at_capacity (named_override override in_flight (capped cap in_flight held))

-- What a tick reads beside its aliases.
pub record Settings : Type 0 where
  pub window : ℕ
  pub override : Option ℕ
  pub cap : Option ℕ

unfoldable pub tick : ℕ → ℕ → Settings → List AliasView → Holds → Holds × Verdict
tick now in_flight s aliases h =
    let t = totals no_totals aliases in
    let h' = hold now s.window t h in (h', decide_ceiling now in_flight s.override s.cap t h')

-- `gate` on the last decision, `none` where there has been none; the answer is the reason of a block.
abbrev pub is_hold : Binding → Bool
is_hold cooldown = true
is_hold paced = true
is_hold _ = false

abbrev pub reason_of : Binding → Binding
reason_of unbound = at_capacity
reason_of b = b

unfoldable pub gate : Bool → Bool → Option Verdict → ℕ → Option Binding
gate live enabled none in_flight = none
gate live enabled (some v) in_flight =
    if not live || not enabled
    then none
    else if is_hold v.binding_constraint
    then some v.binding_constraint
    else if leb v.desired_ceiling in_flight
    then some (reason_of v.binding_constraint)
    else none
