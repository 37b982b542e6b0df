-- ===== src/Pricing/Bounds.antt =====
-- pricing.py: what bounds the cost of a call.
use agent_evals.Prelude.{
  ℕ, ◌+◌, ◌-◌, ◌*◌, ◌≤◌, ◌≡◌, refl, ap, sym, min, String, Bool, true, ◌&&◌, none, some, List, [],
  ◌∷◌, ◌=s◌, leb, subst, or_default, Bool-cases, Option-cases, inl, inr, arith,
}
use agent_evals.Pricing.{
  Price, model_pricing, model_cache_read_ratios, model_cache_read_ratio, whole, entry_of,
  model_price, cache_read_ratio, local_cost, cost_for,
}

abbrev all_entries : {A : Type 0} → (A → Bool) → List (String × A) → Bool
all_entries test [] = true
all_entries test ((m, a) ∷ table) = test a && all_entries test table

entry_of-all :
    {A : Type 0} (test : A → Bool) (model : String) (table : List (String × A)) (a : A)
    → all_entries test table ≡ true
    → entry_of model table ≡ some a
    → test a ≡ true
unfolding entry_of
entry_of-all test model [] a h e = absurd cc
entry_of-all test model ((m, b) ∷ table) a h e = elim (Bool-cases (m =s model)) [
  | inl f ↦ let same : b ≡ a = ap (λ o. or_default o b) (rw f at e) in rw (sym same) (ground arith)
  | inr f ↦ entry_of-all test model table a (ground arith) (rw f at e)
]

-- A known model costs at most 0.30 and 1.20 dollars for a million tokens in and out.
is_cheap : Price → Bool
is_cheap p = leb p.0 300_000 && leb p.1 1_200_000

is_discount : ℕ → Bool
is_discount r = leb r 6_000_000_000_000_000

known_cheap :
    (model : String) (p : Price) → entry_of model model_pricing ≡ some p → is_cheap p ≡ true
unfolding is_cheap
known_cheap model p e = entry_of-all is_cheap model model_pricing p refl e

ratio_bound : (model : String) → cache_read_ratio model ≤ 6_000_000_000_000_000
unfolding cache_read_ratio is_discount
ratio_bound model = elim (Option-cases (entry_of model model_cache_read_ratios)) [
  | inl e ↦ rw e (omega arith)
  | inr (r, e) ↦
      let low = entry_of-all is_discount model model_cache_read_ratios r refl e in
      rw e (ground arith)
]

mul_le : (z x y : ℕ) → x ≤ y → z * x ≤ z * y
mul_le z x y h = grind arith

share_step : (a c d full low : ℕ) → low ≤ full → a * full + (c + d) * low ≤ (a + d) * full + c * low
share_step a c d full low h =
    let more = mul_le d low full h in
    let left : a * full + (c + d) * low ≡ a * full + c * low + d * low = grind arith in
    let right : (a + d) * full + c * low ≡ a * full + d * full + c * low = grind arith in
    omega (arith, more, left, right)

-- A share of the tokens at a lower rate costs no more, and less the larger the share.
share_le :
    (full low tokens c c' : ℕ)
    → low ≤ full
    → c ≤ c'
    → c' ≤ tokens
    → (tokens - c') * full + c' * low ≤ (tokens - c) * full + c * low
share_le full low tokens c c' h less fits =
    let rest : tokens - c' + (c' - c) ≡ tokens - c = omega arith in
    let all : c + (c' - c) ≡ c' = omega arith in
    subst (λ x. (tokens - c') * full + x * low ≤ (tokens - c) * full + c * low) all
      (subst (λ x. (tokens - c') * full + (c + (c' - c)) * low ≤ x * full + c * low) rest
        (share_step (tokens - c') c (c' - c) full low h))

-- More cached tokens never make a call dearer, and none of them makes it dearer than its full price:
-- where the gateway reports no cost, the cost lies between the price of the output and that of all tokens.
pub cost_for-bounds :
    (input_tokens output_tokens : ℕ) (model : String) (c c' : ℕ)
    → c ≤ c'
    → let cost = cost_for none input_tokens output_tokens model in
      let (in_price, out_price) = model_price model in
      (cost c' ≤ cost c)
      × (cost c ≤ input_tokens * (in_price * whole) + output_tokens * (out_price * whole))
      × (output_tokens * (out_price * whole) ≤ cost c)
unfolding cost_for local_cost
cost_for-bounds input_tokens output_tokens model c c' h =
    let price = model_price model in
    let ratio = cache_read_ratio model in
    let low = mul_le price.0 ratio whole (omega (arith, ratio_bound model)) in
    let full = price.0 * whole in
    let part = price.0 * ratio in
    let less =
      share_le full part input_tokens (min c input_tokens) (min c' input_tokens) low (omega arith)
        (omega arith) in
    let most =
      share_le full part input_tokens 0 (min c input_tokens) low (omega arith) (omega arith) in
    let start : (input_tokens - 0) * full + 0 * part ≡ input_tokens * full = grind arith in
    (omega (arith, less), omega (arith, most, start), omega arith)

-- A model without a price is never priced below one that has a price, for the same tokens.
pub cost_for-unknown :
    (input_tokens output_tokens cached : ℕ) (known unknown : String) (p : Price)
    → entry_of known model_pricing ≡ some p
    → entry_of unknown model_pricing ≡ none
    → entry_of unknown model_cache_read_ratios ≡ none
    → cost_for none input_tokens output_tokens known cached
      ≤ cost_for none input_tokens output_tokens unknown cached
unfolding cost_for local_cost model_price cache_read_ratio is_cheap
cost_for-unknown input_tokens output_tokens cached known unknown p e f g =
    let ratio = or_default (entry_of known model_cache_read_ratios) model_cache_read_ratio in
    let bound : ratio ≤ 6_000_000_000_000_000 = ratio_bound known in
    let cheap : is_cheap p ≡ true = known_cheap known p e in
    let low : p.0 ≤ 300_000 = ground arith in
    let low' : p.1 ≤ 1_200_000 = ground arith in
    let cached_rate : p.0 * ratio ≤ 300_000 * ratio = grind arith in
    let full =
      mul_le (input_tokens - min cached input_tokens) (p.0 * whole) (1_000_000 * whole)
        (omega arith) in
    let part =
      mul_le (min cached input_tokens) (p.0 * ratio) (1_000_000 * model_cache_read_ratio)
        (omega arith) in
    let out = mul_le output_tokens (p.1 * whole) (5_000_000 * whole) (omega arith) in
    rw (e, f, g) (omega (arith, full, part, out))
