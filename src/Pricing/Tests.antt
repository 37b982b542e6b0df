-- ===== src/Pricing/Tests.antt =====
-- The cost of calls at concrete counts.
use agent_evals.Prelude.{◌≡◌, refl, none, some, ◌=s◌}
use agent_evals.Pricing.{cost_for, local_cost, model_price, entry_of, cache_read_ratio}

gateways : cost_for (some 42) 1_000 1_000 "cheap-oss-model" 0 ≡ 42
unfolding cost_for
gateways = refl

unknown : cost_for none 10 10 "no-such-model" 0 ≡ 600_000_000_000_000_000_000_000
unfolding cost_for local_cost model_price entry_of cache_read_ratio ◌=s◌
unknown = refl
