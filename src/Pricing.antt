-- ===== src/Pricing.antt =====
-- swebench_eval/gateway/pricing.py: the price of a model, its cache-read ratio, and the cost of a call. Prices
-- are whole numbers of millionths of a dollar for a million tokens, ratios of 10 ^ -16, and costs of 10 ^ -28
-- dollars, so that the sums are exact where the code rounds floats.
pub mod Bounds
mod Tests
use agent_evals.Prelude.{
  ℕ, ◌+◌, ◌-◌, ◌*◌, min, String, Bool, true, false, Option, none, some, List, [], ◌∷◌, ◌==◌, ◌=s◌,
  if◌then◌else◌, or_default,
}

-- The prices of a million tokens in and out.
abbrev pub Price : Type 0
Price = ℕ × ℕ

-- `MODEL_PRICING`.
abbrev pub model_pricing : List (String × Price)
model_pricing =
    ("qwen/qwen3-coder-30b-a3b-instruct", (70_000, 280_000))
    ∷ ("deepseek/deepseek-v4-flash-0731", (50_000, 160_000))
    ∷ ("cheap-oss-model", (50_000, 160_000))
    ∷ ("claude-code-model", (50_000, 160_000))
    ∷ ("poolside/laguna-xs-2.1", (60_000, 120_000))
    ∷ ("qwen/qwen3-coder-next", (120_000, 800_000))
    ∷ ("laguna-xs-2.1-mini", (60_000, 120_000))
    ∷ ("laguna-xs-2.1-codex", (60_000, 120_000))
    ∷ ("laguna-xs-2.1-opencode", (60_000, 120_000))
    ∷ ("laguna-xs-2.1-custom_minimal", (60_000, 120_000))
    ∷ ("laguna-xs-2.1-claude_code", (60_000, 120_000))
    ∷ ("qwen3-coder-next-mini", (120_000, 800_000))
    ∷ ("qwen3-coder-next-codex", (120_000, 800_000))
    ∷ ("qwen3-coder-next-opencode", (120_000, 800_000))
    ∷ ("qwen3-coder-next-custom_minimal", (120_000, 800_000))
    ∷ ("qwen3-coder-next-claude_code", (120_000, 800_000))
    ∷ ("deepseek-v4-flash-0731-mini", (50_000, 160_000))
    ∷ ("deepseek-v4-flash-0731-codex", (50_000, 160_000))
    ∷ ("deepseek-v4-flash-0731-opencode", (50_000, 160_000))
    ∷ ("deepseek-v4-flash-0731-custom_minimal", (50_000, 160_000))
    ∷ ("deepseek-v4-flash-0731-claude_code", (50_000, 160_000))
    ∷ ("openai/gpt-5-mini", (125_000, 1_000_000))
    ∷ ("gpt-5-mini-mini", (125_000, 1_000_000))
    ∷ ("gpt-5-mini-codex", (125_000, 1_000_000))
    ∷ ("gpt-5-mini-opencode", (125_000, 1_000_000))
    ∷ ("gpt-5-mini-custom_minimal", (125_000, 1_000_000))
    ∷ ("gpt-5-mini-claude_code", (125_000, 1_000_000))
    ∷ ("minimax/minimax-m2.5", (300_000, 1_200_000))
    ∷ ("minimax-m2.5-mini", (300_000, 1_200_000))
    ∷ ("minimax-m2.5-codex", (300_000, 1_200_000))
    ∷ ("minimax-m2.5-opencode", (300_000, 1_200_000))
    ∷ ("minimax-m2.5-custom_minimal", (300_000, 1_200_000))
    ∷ ("minimax-m2.5-claude_code", (300_000, 1_200_000))
    ∷ ("deepseek-flash", (50_000, 160_000))
    ∷ ("judge-model", (50_000, 160_000))
    ∷ []

-- `MODEL_CACHE_READ_RATIOS`.
abbrev pub model_cache_read_ratios : List (String × ℕ)
model_cache_read_ratios =
    ("deepseek/deepseek-v4-flash-0731", 2_600_000_000_000_000)
    ∷ ("cheap-oss-model", 2_600_000_000_000_000)
    ∷ ("claude-code-model", 2_600_000_000_000_000)
    ∷ ("deepseek-flash", 2_600_000_000_000_000)
    ∷ ("judge-model", 2_600_000_000_000_000)
    ∷ ("deepseek-v4-flash-0731-mini", 2_600_000_000_000_000)
    ∷ ("deepseek-v4-flash-0731-codex", 2_600_000_000_000_000)
    ∷ ("deepseek-v4-flash-0731-opencode", 2_600_000_000_000_000)
    ∷ ("deepseek-v4-flash-0731-custom_minimal", 2_600_000_000_000_000)
    ∷ ("deepseek-v4-flash-0731-claude_code", 2_600_000_000_000_000)
    ∷ ("poolside/laguna-xs-2.1", 5_000_000_000_000_000)
    ∷ ("laguna-xs-2.1-mini", 5_000_000_000_000_000)
    ∷ ("laguna-xs-2.1-codex", 5_000_000_000_000_000)
    ∷ ("laguna-xs-2.1-opencode", 5_000_000_000_000_000)
    ∷ ("laguna-xs-2.1-custom_minimal", 5_000_000_000_000_000)
    ∷ ("laguna-xs-2.1-claude_code", 5_000_000_000_000_000)
    ∷ ("qwen/qwen3-coder-next", 5_833_333_333_333_334)
    ∷ ("qwen3-coder-next-mini", 5_833_333_333_333_334)
    ∷ ("qwen3-coder-next-codex", 5_833_333_333_333_334)
    ∷ ("qwen3-coder-next-opencode", 5_833_333_333_333_334)
    ∷ ("qwen3-coder-next-custom_minimal", 5_833_333_333_333_334)
    ∷ ("qwen3-coder-next-claude_code", 5_833_333_333_333_334)
    ∷ ("openai/gpt-5-mini", 1_000_000_000_000_000)
    ∷ ("gpt-5-mini-mini", 1_000_000_000_000_000)
    ∷ ("gpt-5-mini-codex", 1_000_000_000_000_000)
    ∷ ("gpt-5-mini-opencode", 1_000_000_000_000_000)
    ∷ ("gpt-5-mini-custom_minimal", 1_000_000_000_000_000)
    ∷ ("gpt-5-mini-claude_code", 1_000_000_000_000_000)
    ∷ ("minimax/minimax-m2.5", 1_000_000_000_000_000)
    ∷ ("minimax-m2.5-mini", 1_000_000_000_000_000)
    ∷ ("minimax-m2.5-codex", 1_000_000_000_000_000)
    ∷ ("minimax-m2.5-opencode", 1_000_000_000_000_000)
    ∷ ("minimax-m2.5-custom_minimal", 1_000_000_000_000_000)
    ∷ ("minimax-m2.5-claude_code", 1_000_000_000_000_000)
    ∷ []

-- `MODEL_CACHE_READ_RATIO`, 0.2.
abbrev pub model_cache_read_ratio : ℕ
model_cache_read_ratio = 2_000_000_000_000_000

-- The whole ratio, 1.
abbrev pub whole : ℕ
whole = 10_000_000_000_000_000

-- `_UNKNOWN_MODEL_PRICE`.
abbrev pub unknown_model_price : Price
unknown_model_price = (1_000_000, 5_000_000)

-- `table.get(model)`.
unfoldable pub entry_of : {A : Type 0} → String → List (String × A) → Option A
entry_of model [] = none
entry_of model ((m, a) ∷ table) = if m =s model then some a else entry_of model table

unfoldable pub model_price : String → Price
model_price model = or_default (entry_of model model_pricing) unknown_model_price

unfoldable pub cache_read_ratio : String → ℕ
cache_read_ratio model = or_default (entry_of model model_cache_read_ratios) model_cache_read_ratio

-- The cost of a call's tokens at a price and a ratio; a count that is negative stands as 0, as the code
-- makes of the cached ones.
unfoldable pub local_cost : Price → ℕ → ℕ → ℕ → ℕ → ℕ
local_cost price ratio input_tokens output_tokens cached =
    (input_tokens - min cached input_tokens) * (price.0 * whole)
    + min cached input_tokens * (price.0 * ratio)
    + output_tokens * (price.1 * whole)

-- `cost_for`.
unfoldable pub cost_for : Option ℕ → ℕ → ℕ → String → ℕ → ℕ
cost_for gateway_cost input_tokens output_tokens model cached =
    if or_default gateway_cost 0 == 0
    then local_cost (model_price model) (cache_read_ratio model) input_tokens output_tokens cached
    else or_default gateway_cost 0
