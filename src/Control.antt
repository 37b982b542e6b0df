-- ===== src/Control.antt =====
-- swebench_eval/control/state.py: the pause flags and the aborted runs, published to Redis from the
-- database. A call of Redis or of the database that raises is an argument `up` that is false, one
-- for each call, in the order of the calls; times are whole numbers in one unit (microseconds).
pub mod Gate
pub mod Active
pub mod Publish
mod Tests
use agent_evals.Prelude.{
  ℕ, ◌+◌, String, Bool, true, false, not, ◌||◌, Option, none, some, List, [], ◌∷◌, ◌++◌, ltb, leb,
  inl, inr, ◌⊎◌, if◌then◌else◌, ◌=s◌, any, is_some, or_default,
}

-- The hash `control:flags`; a field that is absent is `none`, and the hash itself is absent when all
-- are. A `published_at` or `updated_at` that is no number is read as an absent one, as the code does.
pub record Flags : Type 0 where
  pub harness : Option Bool
  pub eval : Option Bool
  pub gateway : Option Bool
  pub published_at : Option ℕ
  pub updated_at : Option ℕ
  pub updated_by : Option String
  pub reason : Option String

-- The hash and the set `control:aborted` of run ids.
pub record Store : Type 0 where
  pub flags : Flags
  pub aborted : List String

pub data Pool : Type 0 where
  harness_pool eval_pool gateway_pool : Pool

-- `pool in POOLS`.
unfoldable pub pool_of : String → Option Pool
pool_of name =
    if name =s "harness"
    then some harness_pool
    else if name =s "eval"
    then some eval_pool
    else if name =s "gateway"
    then some gateway_pool
    else none

-- STALE_AFTER_S, 90 seconds.
abbrev pub stale_after : ℕ
stale_after = 90_000_000

pub record ControlView : Type 0 where
  pub harness_paused : Bool
  pub eval_paused : Bool
  pub gateway_paused : Bool
  pub aborted_runs : List String
  pub published_at : ℕ
  pub stale : Bool
  pub updated_by : String
  pub reason : String

abbrev paused_since : ℕ → ControlView
paused_since at = record {
  harness_paused = true;
  eval_paused = true;
  gateway_paused = true;
  aborted_runs = [];
  published_at = at;
  stale = true;
  updated_by = "";
  reason = "";
}

-- `_ALL_PAUSED`.
abbrev pub all_paused : ControlView
all_paused = paused_since 0

abbrev pub is_missing : Flags → Bool
is_missing f = not (
    is_some f.harness
    || (is_some f.eval
        || (is_some f.gateway
            || (is_some f.published_at
                || (is_some f.updated_at || (is_some f.updated_by || is_some f.reason))))))

-- `read()`; `up_members` is the call of `smembers`.
pub read : Bool → Bool → ℕ → Store → ControlView
read false up_members now s = all_paused
read true up_members now s =
    if is_missing s.flags
    then all_paused
    else if ltb (or_default s.flags.published_at 0 + stale_after) now
    then paused_since (or_default s.flags.published_at 0)
    else record {
      harness_paused = or_default s.flags.harness false;
      eval_paused = or_default s.flags.eval false;
      gateway_paused = or_default s.flags.gateway false;
      aborted_runs = if up_members then s.aborted else [];
      published_at = or_default s.flags.published_at 0;
      stale = false;
      updated_by = or_default s.flags.updated_by "";
      reason = or_default s.flags.reason "";
    }

-- `ControlView.is_paused_impl`: the flag of a pool, by its name.
pub is_paused_impl : ControlView → String → Bool
is_paused_impl v name = elim (pool_of name) [
  | some harness_pool ↦ v.harness_paused
  | some eval_pool ↦ v.eval_paused
  | some gateway_pool ↦ v.gateway_paused
  | none ↦ false
]

pub is_paused : Bool → Bool → ℕ → Store → String → Bool
is_paused up up_members now s name = is_paused_impl (read up up_members now s) name

abbrev pub contains : List String → String → Bool
contains runs run = any (λ r. r =s run) runs

pub is_run_aborted : Bool → Store → String → Bool
is_run_aborted false s run = true
is_run_aborted true s run = contains s.aborted run

-- What the writers answer: the store, and the exception that they raised.
pub data Raised : Type 0 where
  redis_error : Raised
  unknown_pool : String → Raised

abbrev pub Outcome : Type 0
Outcome = Store × Option Raised

-- `hset` on the flags, of what `f` changes.
abbrev hset : Bool → (Flags → Flags) → Store → Outcome
hset false f s = (s, some redis_error)
hset true f s = (record s { flags = f s.flags }, none)

pub record PoolFlags : Type 0 where
  pub harness : Bool
  pub eval : Bool
  pub gateway : Bool

abbrev pub flag : PoolFlags → Pool → Bool
flag f harness_pool = f.harness
flag f eval_pool = f.eval
flag f gateway_pool = f.gateway

abbrev pub set_flag : PoolFlags → Pool → Bool → PoolFlags
set_flag f harness_pool b = record f { harness = b }
set_flag f eval_pool b = record f { eval = b }
set_flag f gateway_pool b = record f { gateway = b }

-- The pools' part of the hash.
abbrev pub pool_flags : Flags → PoolFlags
pool_flags f = record {
  harness = or_default f.harness false;
  eval = or_default f.eval false;
  gateway = or_default f.gateway false;
}

abbrev put_pools : PoolFlags → Flags → Flags
put_pools p f = record f { harness = some p.harness; eval = some p.eval; gateway = some p.gateway }

-- `_current_pool_flags`: all unpaused when Redis does not answer.
pub current_pool_flags : Bool → Store → PoolFlags
current_pool_flags false s = record { harness = false; eval = false; gateway = false }
current_pool_flags true s = pool_flags s.flags

-- The loop of `set_pause`; the name of the first unknown pool stops it.
pub merge_pools : List String → Bool → PoolFlags → PoolFlags ⊎ String
merge_pools [] paused f = inl f
merge_pools (name ∷ names) paused f = elim (pool_of name) [
  | none ↦ inr name
  | some p ↦ merge_pools names paused (set_flag f p paused)
]

pub set_pause : Bool → Bool → List String → Bool → String → String → Option ℕ → ℕ → Store → Outcome
set_pause up_read up_write pools paused actor reason updated_at now s =
    elim (merge_pools pools paused (current_pool_flags up_read s)) [
      | inr name ↦ (s, some (unknown_pool name))
      | inl merged ↦
          hset up_write
            (λ f. record (put_pools merged f) {
              published_at = some now;
              updated_at = some (or_default updated_at now);
              updated_by = some actor;
              reason = some reason;
            })
            s
    ]

-- `sadd` of the runs that are not there.
pub sadd : List String → List String → List String
sadd [] runs = runs
sadd (new ∷ news) runs = sadd news (if contains runs new then runs else new ∷ runs)

pub request_abort : Bool → Bool → String → String → String → ℕ → Store → Outcome
request_abort up_set up_hash run reason actor now s =
    if up_set
    then hset up_hash
        (λ f. record f { updated_by = some actor; reason = some reason; published_at = some now })
        (record s { aborted = sadd (run ∷ []) s.aborted })
    else (s, some redis_error)
