-- ===== src/Dispatcher/Planner/Budgets.antt =====
-- harness_dispatcher.py `_reconcile_growth` and `_overload_recovery`, on the budgets of one alias, which stand
-- in Redis. A rate is a fraction, so that the products are exact where the code rounds floats; steps are parts
-- of a million, factors and shares parts of a thousand, times milliseconds.

use agent_evals.Prelude.{
  ℕ, ◌+◌, ◌*◌, Bool, true, false, not, ◌&&◌, ◌||◌, Option, none, some, ltb, leb, ◌==◌,
  if◌then◌else◌,
}
use agent_evals.Prelude.Decimal.{nearest}

pub record Rate : Type 0 where
  pub num : ℕ
  pub den : ℕ

abbrev pub scale : Rate → ℕ → ℕ → Rate
scale q a b = record { num = q.num * a; den = q.den * b }

abbrev pub below : Rate → Rate → Bool
below p q = ltb (p.num * q.den) (q.num * p.den)

abbrev pub larger : Rate → Rate → Rate
larger p q = if below p q then q else p

-- `round(x, digits)` with the unit 10 ^ digits.
unfoldable pub round_to : ℕ → Rate → Rate
round_to unit q = record { num = nearest (q.num * unit) q.den; den = unit }

-- The fields of the alias's hash; a seed is absent in an older one.
pub record Budgets : Type 0 where
  pub r_tok : Rate
  pub k_inflight : Rate
  pub r_qps : Rate
  pub r_tok_seed : Option Rate
  pub k_inflight_seed : Option Rate
  pub r_qps_seed : Option Rate
  pub seeded_at : ℕ

-- `seed or value`, which passes over a seed of zero.
abbrev pub seed_or : Option Rate → Rate → Rate
seed_or none q = q
seed_or (some s) q = if s.num == 0 then q else s

-- `_growth_step`, `_growth_cap_factor` and `_utilization`, and whether the mode is live for a named alias.
pub record Knobs : Type 0 where
  pub growth_step : ℕ
  pub growth_cap_factor : ℕ
  pub utilization : ℕ
  pub is_live : Bool

abbrev pub kept_seed : Option Rate → Rate → Option Rate
kept_seed none q = some q
kept_seed (some s) q = some s

abbrev pub stashed : Option Rate → Option Rate → Rate → Option Rate
stashed none seed q = some q
stashed (some s) seed q = seed

abbrev pub grow : Knobs → Rate → Rate
grow k q = scale q (1_000_000 + k.growth_step) 1_000_000

-- What the growth writes; the seeds are all added where that of `r_tok` is absent.
unfoldable pub grown : Knobs → ℕ → Budgets → Budgets
grown k now b = record {
  r_tok = grow k b.r_tok;
  k_inflight = grow k b.k_inflight;
  r_qps = grow k b.r_qps;
  r_tok_seed = kept_seed b.r_tok_seed b.r_tok;
  k_inflight_seed = stashed b.r_tok_seed b.k_inflight_seed b.k_inflight;
  r_qps_seed = stashed b.r_tok_seed b.r_qps_seed b.r_qps;
  seeded_at = now;
}

-- The armed peak is due.
abbrev pub is_due : ℕ → Option ℕ → Bool
is_due now none = false
is_due now (some at) = leb at now

-- Overloads of the window, the arrival that is projected now, and whether the write answers.
pub record Peak : Type 0 where
  pub overloads : ℕ
  pub arrival : Rate
  pub writes : Bool

abbrev pub is_high : Knobs → Peak → Budgets → Bool
is_high k p b = (p.overloads == 0) && below (scale b.r_tok (8 * k.utilization) 10_000) p.arrival

abbrev pub is_clamped : Knobs → Budgets → Bool
is_clamped k b =
    below (scale (seed_or b.r_tok_seed b.r_tok) k.growth_cap_factor 1_000) (grow k b.r_tok)

-- `_reconcile_growth`: the armed peak it leaves, the budgets, and whether growth was written.
unfoldable pub reconcile_growth : Knobs → ℕ → Peak → Option ℕ → Budgets → Option ℕ × Budgets × Bool
reconcile_growth k now p peak b =
    if not (is_due now peak)
    then (peak, b, false)
    else if not (is_high k p b) || is_clamped k b
    then (none, b, false)
    else if k.is_live && p.writes
    then (none, grown k now b, true)
    else (none, b, false)

-- The rates of the last minute that the pacer admitted, or the projected ones where it has none.
pub record Arrivals : Type 0 where
  pub tokens : ℕ
  pub calls : ℕ
  pub projected_tok : Rate
  pub projected_qps : Rate

abbrev pub basis : ℕ → ℕ → Rate → Rate
basis measured count projected =
    if ltb 0 measured then record { num = count; den = 60 } else projected

-- A budget is lowered to 0.85 of its basis, but not below half its seed.
abbrev pub target : Rate → Option Rate → Rate → Rate
target from seed q = larger (scale (seed_or seed q) 1 2) (scale from 85 100)

abbrev pub falls : Rate → Option Rate → Rate → Bool
falls from seed q = ltb 0 from.num && below (target from seed q) q

-- The unit is that of the rounding.
unfoldable pub lowered : ℕ → Rate → Option Rate → Rate → Rate
lowered unit from seed q = if falls from seed q then round_to unit (target from seed q) else q

-- `_overload_recovery` for an alias that overloaded. Nothing is written where neither rate falls.
unfoldable pub overload_recovery : Knobs → ℕ → Bool → Arrivals → Budgets → Budgets
overload_recovery k now writes a b =
    let r_tok = lowered 10 (basis a.tokens a.tokens a.projected_tok) b.r_tok_seed b.r_tok in
    let r_qps = lowered 1_000 (basis a.tokens a.calls a.projected_qps) b.r_qps_seed b.r_qps in
    if k.is_live && writes
    then record b {
      r_tok = r_tok;
      r_qps = r_qps;
      seeded_at =
          if falls (basis a.tokens a.tokens a.projected_tok) b.r_tok_seed b.r_tok
            || falls (basis a.tokens a.calls a.projected_qps) b.r_qps_seed b.r_qps
          then now
          else b.seeded_at;
    }
    else b
