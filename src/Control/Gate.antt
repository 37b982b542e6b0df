-- ===== src/Control/Gate.antt =====
-- swebench_eval/control/state.py: the gate that dispatchers and workers read, and operators set.
use agent_evals.Prelude.{
  ℕ, ◌+◌, ◌≤◌, ◌≡◌, ◌↔◌, String, Bool, true, false, not, Option, none, some, List, [], ◌∷◌, ap, ◌∙◌,
  arith, if◌then◌else◌, inl, inr, Option-cases, is_some, or_default, any, refl,
}
use agent_evals.Control.{
  Flags, Store, Pool, harness_pool, eval_pool, gateway_pool, pool_of, stale_after, is_missing, read,
  is_paused_impl, is_paused, PoolFlags, flag, set_flag, current_pool_flags, merge_pools,
  unknown_pool, set_pause,
}

abbrev pub pool_flag : Flags → Pool → Option Bool
pool_flag f harness_pool = f.harness
pool_flag f eval_pool = f.eval
pool_flag f gateway_pool = f.gateway

-- A known pool is open exactly when Redis answered, the hash is there and was published no longer
-- ago than the limit, and the pool's own flag is not set: whatever else is wrong reads as paused.
pub is_paused-open_iff :
    (up up_members : Bool) (now : ℕ) (s : Store) (name : String) (p : Pool)
    → pool_of name ≡ some p
    → (is_paused up up_members now s name ≡ false) ↔ (
        (up ≡ true)
        × (is_missing s.flags ≡ false)
        × (now ≤ or_default s.flags.published_at 0 + stale_after)
        × (or_default (pool_flag s.flags p) false ≡ false))
unfolding is_paused is_paused_impl read
is_paused-open_iff false upm now s name harness_pool known = ground arith
is_paused-open_iff false upm now s name eval_pool known = ground arith
is_paused-open_iff false upm now s name gateway_pool known = ground arith
is_paused-open_iff true upm now s name harness_pool known = ground arith
is_paused-open_iff true upm now s name eval_pool known = ground arith
is_paused-open_iff true upm now s name gateway_pool known = ground arith

abbrev same_pool : Pool → Pool → Bool
same_pool harness_pool harness_pool = true
same_pool eval_pool eval_pool = true
same_pool gateway_pool gateway_pool = true
same_pool _ _ = false

abbrev is_pool : Pool → Option Pool → Bool
is_pool p none = false
is_pool p (some q) = same_pool p q

-- Whether one of the names is that of the pool.
abbrev pub names_pool : List String → Pool → Bool
names_pool names p = any (λ n. is_pool p (pool_of n)) names

-- Whether one of the names is that of no pool.
abbrev pub names_unknown : List String → Bool
names_unknown names = any (λ n. not (is_some (pool_of n))) names

flag-set_flag :
    (f : PoolFlags) (p q : Pool) (b : Bool)
    → flag (set_flag f q b) p ≡ (if same_pool p q then b else flag f p)
flag-set_flag f p q b = ground arith

merge_pools_known :
    (names : List String) (paused : Bool) (f : PoolFlags)
    → names_unknown names ≡ false
    → (g : PoolFlags) × (merge_pools names paused f ≡ inl g)
      × ((p : Pool) → flag g p ≡ (if names_pool names p then paused else flag f p))
unfolding merge_pools
merge_pools_known [] paused f known = (f, refl, λ p. refl)
merge_pools_known (n ∷ names) paused f known = elim (Option-cases (pool_of n)) [
  | inl e ↦ absurd (ground arith)
  | inr (q, e) ↦
      let (g, merged, flags) =
        merge_pools_known names paused (set_flag f q paused) (ground arith) in
      (g, ground arith, λ p. ground (arith, flags p, flag-set_flag f p q paused))
]

-- The first of the names that is that of no pool.
abbrev pub first_unknown : List String → Option String
first_unknown [] = none
first_unknown (n ∷ names) = if is_some (pool_of n) then first_unknown names else some n

merge_pools_unknown :
    (names : List String) (paused : Bool) (f : PoolFlags) (n : String)
    → first_unknown names ≡ some n
    → merge_pools names paused f ≡ inr n
unfolding merge_pools
merge_pools_unknown [] paused f n unknown = cc
merge_pools_unknown (m ∷ names) paused f n unknown = elim (Option-cases (pool_of m)) [
  | inl e ↦ ground arith
  | inr (q, e) ↦ ground (arith, merge_pools_unknown names paused (set_flag f q paused) n)
]

pub is_paused_fresh :
    (up_members : Bool) (later : ℕ) (s : Store) (name : String) (p : Pool) (now : ℕ)
    → pool_of name ≡ some p
    → s.flags.published_at ≡ some now
    → later ≤ now + stale_after
    → is_paused true up_members later s name ≡ or_default (pool_flag s.flags p) false
unfolding is_paused is_paused_impl read
is_paused_fresh upm later s name harness_pool now known published fresh = ground arith
is_paused_fresh upm later s name eval_pool now known published fresh = ground arith
is_paused_fresh upm later s name gateway_pool now known published fresh = ground arith

module _ (pools : List String) (paused : Bool) (actor reason : String) (at : Option ℕ) (now : ℕ)
    (s : Store) where
  written :
      (up_read : Bool) (g : PoolFlags) (p : Pool)
      → merge_pools pools paused (current_pool_flags up_read s) ≡ inl g
      → let s' = (set_pause up_read true pools paused actor reason at now s).0 in
        (s'.flags.published_at ≡ some now) × (pool_flag s'.flags p ≡ some (flag g p))
  unfolding set_pause
  written up_read g harness_pool merged = rw (merged, set_pause) (refl, refl)
  written up_read g eval_pool merged = rw (merged, set_pause) (refl, refl)
  written up_read g gateway_pool merged = rw (merged, set_pause) (refl, refl)

  paused_after :
      (up_read up_members : Bool) (later : ℕ) (name : String) (p : Pool)
      → names_unknown pools ≡ false
      → pool_of name ≡ some p
      → later ≤ now + stale_after
      → is_paused true up_members later
          (set_pause up_read true pools paused actor reason at now s).0
          name
        ≡ (if names_pool pools p then paused else flag (current_pool_flags up_read s) p)
  paused_after up_read upm later name p known named fresh =
      let (g, merged, flags) =
        merge_pools_known pools paused (current_pool_flags up_read s) known in
      let (published, flagged) = written up_read g p merged in
      is_paused_fresh upm later _ name p now named published fresh
      ∙ ap (λ o. or_default o false) flagged
      ∙ flags p

  flag-current_pool_flags :
      (p : Pool) → flag (current_pool_flags true s) p ≡ or_default (pool_flag s.flags p) false
  unfolding current_pool_flags
  flag-current_pool_flags p = ground arith

  flag-unread : (p : Pool) → flag (current_pool_flags false s) p ≡ false
  unfolding current_pool_flags
  flag-unread p = ground arith

  -- After an operator sets the flags of some pools, all of them known, with Redis answering, and until the limit on the
  -- hash's age has passed, each of these pools is paused as asked, and any other pool is paused
  -- exactly when its flag was set before.
  pub is_paused-set_pause :
      (up_members : Bool) (later : ℕ) (name : String) (p : Pool)
      → names_unknown pools ≡ false
      → pool_of name ≡ some p
      → later ≤ now + stale_after
      → is_paused true up_members later
          (set_pause true true pools paused actor reason at now s).0
          name
        ≡ (if names_pool pools p then paused else or_default (pool_flag s.flags p) false)
  is_paused-set_pause upm later name p known named fresh =
      rw (← flag-current_pool_flags p) (paused_after true upm later name p known named fresh)

  -- A request that names an unknown pool raises for the first such name, and changes nothing,
  -- whatever pools it named before and whether or not Redis answers.
  pub set_pause_unknown :
      (up_read up_write : Bool) (n : String)
      → first_unknown pools ≡ some n
      → set_pause up_read up_write pools paused actor reason at now s ≡ (s, some (unknown_pool n))
  unfolding set_pause
  set_pause_unknown up_read up_write n unknown =
      rw (merge_pools_unknown pools paused (current_pool_flags up_read s) n unknown, set_pause)

  -- When the merge cannot read the hash and the write then succeeds, a pool that the operator did not
  -- name is resumed, though its flag was set.
  pub set_pause_resumes :
      (up_members : Bool) (name : String) (p : Pool)
      → names_unknown pools ≡ false
      → pool_of name ≡ some p
      → names_pool pools p ≡ false
      → is_paused true up_members now
          (set_pause false true pools paused actor reason at now s).0
          name
        ≡ false
  set_pause_resumes upm name p known named other =
      paused_after false upm now name p known named (omega arith) ∙ ground (arith, flag-unread p)
