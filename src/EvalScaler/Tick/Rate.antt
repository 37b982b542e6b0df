-- ===== src/EvalScaler/Tick/Rate.antt =====
-- swebench_eval/orchestrator/control_plane/eval_autoscaler.py: the rate limit and the mode.
use agent_evals.Prelude.{
  ℕ, ◌+◌, ◌≤◌, ◌<◌, ◌≡◌, inl, inr, refl, Bool, false, Option, none, some, [], ltb, arith, lt→ltb,
  Bool-cases,
}
use agent_evals.EvalScaler.{Config, Reads, OperatorLimits, observe}
use agent_evals.EvalScaler.Tick.{Action, outcome, perform, tick, maybe_tick, State}

tick-time :
    (config : Config) (raises : Action → Bool) (lim : Option OperatorLimits) (reads : Option Reads)
    (s : State)
    → (tick config raises lim reads s).1.last_tick_at ≡ s.last_tick_at
unfolding tick
tick-time config raises lim none s = refl
tick-time config raises lim (some r) s = refl

maybe_tick-holds :
    (config : Config) (raises : Action → Bool) (lim : Option OperatorLimits) (reads : Option Reads)
    (now : ℕ) (s : State)
    → now < s.last_tick_at + config.tick_interval
    → maybe_tick config raises lim reads now s ≡ ([], s)
unfolding maybe_tick
maybe_tick-holds config raises lim reads now s h =
    rw (lt→ltb now (s.last_tick_at + config.tick_interval) h) refl

maybe_tick-runs :
    (config : Config) (raises : Action → Bool) (lim : Option OperatorLimits) (reads : Option Reads)
    (now : ℕ) (s : State)
    → s.last_tick_at + config.tick_interval ≤ now
    → maybe_tick config raises lim reads now s
      ≡ tick config raises lim reads (record s { last_tick_at = now })
unfolding maybe_tick
maybe_tick-runs config raises lim reads now s h =
    let e : ltb now (s.last_tick_at + config.tick_interval) ≡ false = ground (arith, h) in rw e refl

-- Two calls of `maybe_tick` less than an interval apart: the second makes no call and changes nothing.
pub maybe_tick-rate :
    (config : Config) (raises : Action → Bool) (lim lim' : Option OperatorLimits)
    (reads reads' : Option Reads) (now now' : ℕ) (s : State)
    → s.last_tick_at + config.tick_interval ≤ now
    → now' < now + config.tick_interval
    → maybe_tick config raises lim' reads' now' (maybe_tick config raises lim reads now s).1
      ≡ ([], (maybe_tick config raises lim reads now s).1)
maybe_tick-rate config raises lim lim' reads reads' now now' s h g =
    maybe_tick-holds config raises lim' reads' now' (maybe_tick config raises lim reads now s).1 (
      rw
        (
          maybe_tick-runs config raises lim reads now s h,
          tick-time config raises lim reads (record s { last_tick_at = now }),
        )
        g)

tick-observes :
    (config : Config) (raises : Action → Bool) (lim : Option OperatorLimits) (reads : Option Reads)
    (s : State)
    → config.mode ≡ observe
    → (tick config raises lim reads s).0 ≡ []
unfolding tick outcome perform
tick-observes config raises lim none s e = refl
tick-observes config raises lim (some r) s e = rw e refl

-- A scaler in the observe mode makes no call of AWS, whatever it reads.
pub maybe_tick-observes :
    (config : Config) (raises : Action → Bool) (lim : Option OperatorLimits) (reads : Option Reads)
    (now : ℕ) (s : State)
    → config.mode ≡ observe
    → (maybe_tick config raises lim reads now s).0 ≡ []
unfolding maybe_tick
maybe_tick-observes config raises lim reads now s e =
    elim (Bool-cases (ltb now (s.last_tick_at + config.tick_interval))) [
      | inl h ↦ rw h refl
      | inr h ↦ rw h (tick-observes config raises lim reads (record s { last_tick_at = now }) e)
    ]
