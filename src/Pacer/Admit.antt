-- ===== src/Pacer/Admit.antt =====
-- `_ADMIT_LUA` of swebench_eval/gateway/pacer.py, statement by statement, and the other operations on
-- the ledger. The script runs alone in Redis: each operation is one step.
pub mod Stored
pub mod Budget
pub mod Waiters
mod Tests
pub mod Rate
use agent_evals.Prelude.{
  ℕ, zero, suc, ◌+◌, ◌-◌, ◌*◌, ◌/◌, ◌^◌, Bool, true, false, ◌&&◌, ◌||◌, Option, none, some, List,
  [], ◌∷◌, ltb, ◌==◌, if◌then◌else◌, or_default, is_some, min, max, length,
}
use agent_evals.Prelude.Int.{ℤ, pos, negsuc, pos_part, ◌+ℤ◌, ◌-ℤ◌, sub_ℕ, ltb_ℤ, min_ℤ, floor_div}
use agent_evals.Prelude.Decimal.{nearest}
use agent_evals.Pacer.Hashes.{Dict, get, del, put, has}
use agent_evals.Pacer.Queue.{Score, first, put_new, priority}
use agent_evals.Pacer.{Config, Bucket, Reserved, Waiting, Ledger}

-- Level units in a token or a request.
abbrev pub nano : ℕ
nano = 1_000_000_000

-- INFLIGHT_TTL_S.
abbrev pub inflight_ttl : ℕ
inflight_ttl = 300_000_000

-- The configuration in force, with DEFAULT_C_BURST, ..., DEFAULT_R_QPS where a field is absent.
pub record Rates : Type 0 where
  pub c_burst : ℕ
  pub r_tok : ℕ
  pub k_inf : ℕ
  pub c_req : ℕ
  pub r_qps : ℕ

abbrev pub rates : Config → Rates
rates cfg = record {
  c_burst = or_default cfg.c_burst 500_000;
  r_tok = or_default cfg.r_tok 20_000_000;
  k_inf = or_default cfg.k_inflight 1_000_000;
  c_req = or_default cfg.c_req 30;
  r_qps = or_default cfg.r_qps 1500;
}

-- The arguments of one call of the script.
pub record Request : Type 0 where
  pub est : ℕ
  pub call_id : ℕ
  pub wttl : ℕ
  pub charge : ℕ

pub prune_inflight : ℕ → Dict Reserved → Dict Reserved
prune_inflight now [] = []
prune_inflight now ((id, r) ∷ d) =
    if ltb (r.started + inflight_ttl) now
    then prune_inflight now d
    else (id, r) ∷ prune_inflight now d

pub sum_tokens : Dict Reserved → ℕ
sum_tokens [] = 0
sum_tokens ((id, r) ∷ d) = r.tokens + sum_tokens d

-- The loop over the waiters as they were read; a stale one leaves both structures.
pub prune_waiters : ℕ → ℕ → Dict Waiting → Dict Score × Dict Waiting → Dict Score × Dict Waiting
prune_waiters now wttl [] state = state
prune_waiters now wttl ((id, w) ∷ rest) (q, est) =
    prune_waiters now wttl rest
      (if ltb (w.registered + wttl) now then (del id q, del id est) else (q, est))

-- What the script finds at the head of the line.
pub record Head : Type 0 where
  pub head_est : ℕ
  pub is_head : Bool
  pub waitq : Dict Score

-- The loop of 16 rounds: a head that has no record in `waitest` is dropped, and the next one is read.
pub find_head : ℕ → ℕ → Dict Waiting → Dict Score → Head
find_head zero call_id waitest q = record { head_est = 0; is_head = true; waitq = q }
find_head (suc rounds) call_id waitest q = elim (first q) [
  | none ↦ record { head_est = 0; is_head = true; waitq = q }
  | some (h, score) ↦ elim (h == call_id) [
    | true ↦ record { head_est = 0; is_head = true; waitq = q }
    | false ↦ elim (get h waitest) [
      | some w ↦ record { head_est = w.charge; is_head = false; waitq = q }
      | none ↦ find_head rounds call_id waitest (del h q)
    ]
  ]
]

-- A bucket that has no state is full.
pub refill : ℕ → ℕ → ℕ → Bucket → ℤ
refill now cap rate b = elim b.level [
  | none ↦ pos cap
  | some level ↦ elim b.upd [
    | none ↦ pos cap
    | some upd ↦ min_ℤ (level +ℤ sub_ℕ (now * rate) (upd * rate)) (pos cap)
  ]
]

-- The local variables of the script once it has pruned, found the head and refilled.
pub record View : Type 0 where
  pub r : Rates
  pub inflight : Dict Reserved
  pub inflight_sum : ℕ
  pub waitq : Dict Score
  pub waitest : Dict Waiting
  pub head_est : ℕ
  pub is_head : Bool
  pub level : ℤ
  pub rlevel : ℤ

pub observe : Request → ℕ → Ledger → View
observe req now l = record {
  r = r;
  inflight = live;
  inflight_sum = sum_tokens live;
  waitq = head.waitq;
  waitest = pruned.1;
  head_est = head.head_est;
  is_head = head.is_head;
  level = refill now (r.c_burst * nano) r.r_tok l.bucket;
  rlevel = refill now (r.c_req * nano) r.r_qps l.reqbucket;
}
  where
    r : Rates
    r = rates l.config

    live : Dict Reserved
    live = prune_inflight now l.inflight

    pruned : Dict Score × Dict Waiting
    pruned = prune_waiters now req.wttl l.waitest (l.waitq, l.waitest)

    head : Head
    head = find_head 16 req.call_id pruned.1 pruned.0

abbrev pub need_tok : Request → View → ℕ
need_tok req v = min (req.charge + v.head_est) v.r.c_burst

abbrev pub need_req : View → ℕ
need_req v = if v.is_head then 1 else 2

abbrev pub need_inf : Request → View → ℕ
need_inf req v = v.inflight_sum + min (req.est + v.head_est) v.r.k_inf

pub data Axis : Type 0 where
  tok req_axis inflight_axis : Axis

-- The first failing condition.
pub axis : Request → View → Option Axis
axis req v =
    if ltb_ℤ v.level (pos (need_tok req v * nano))
    then some tok
    else if ltb_ℤ v.rlevel (pos (need_req v * nano))
    then some req_axis
    else if ltb v.r.k_inf (need_inf req v)
    then some inflight_axis
    else none

pub record Verdict : Type 0 where
  pub admitted : Bool
  pub wait_ms : ℕ
  pub deny_axis : Option Axis
  pub level : ℤ
  pub rlevel_x1000 : ℤ
  pub inflight_sum : ℕ
  pub queue_len : ℕ
  pub head_est : ℕ
  pub is_head : Bool
  pub r_tok : ℕ
  pub k_inflight : ℕ

-- To a multiple of `unit`, the nearest one.
abbrev pub round_by : ℕ → ℕ → ℕ
round_by unit n = nearest n unit * unit

-- `tonumber` of a number's `tostring`, which is '%.14g': 14 digits are left, of numbers of up to 23.
unfoldable pub as_stored : ℕ → ℕ
as_stored n =
    if ltb n (10 ^ 14)
    then n
    else if ltb n (10 ^ 15)
    then round_by 10 n
    else if ltb n (10 ^ 16)
    then round_by 100 n
    else if ltb n (10 ^ 17)
    then round_by 1_000 n
    else if ltb n (10 ^ 18)
    then round_by 10_000 n
    else if ltb n (10 ^ 19)
    then round_by 100_000 n
    else if ltb n (10 ^ 20)
    then round_by 1_000_000 n
    else if ltb n (10 ^ 21)
    then round_by 10_000_000 n
    else if ltb n (10 ^ 22)
    then round_by 100_000_000 n
    else round_by 1_000_000_000 n

abbrev pub stored_level : ℤ → ℤ
stored_level (pos n) = pos (as_stored n)
stored_level (negsuc n) = pos 0 -ℤ pos (as_stored (n + 1))

abbrev bucket_at : ℤ → ℕ → Bucket
bucket_at level now = record { level = some (stored_level level); upd = some (as_stored now) }

-- The same of a score, in whole microseconds once it has 15 digits, as any time since 1973 has.
abbrev pub stored_score : Score → Score
stored_score s = elim s.num [
  | negsuc n ↦ s
  | pos n ↦
      if ltb n (s.den * 10 ^ 14)
      then s
      else record { num = pos (as_stored (nearest n s.den)); den = 1 }
]

-- The branch `axis == ''`.
pub grant : Request → ℕ → Ledger → View → Verdict × Ledger
grant req now l v = (
  record {
    admitted = true;
    wait_ms = 0;
    deny_axis = none;
    level = floor_div (v.level -ℤ pos (req.charge * nano)) nano;
    rlevel_x1000 = floor_div v.rlevel 1_000_000;
    inflight_sum = v.inflight_sum + req.est;
    queue_len = length v.waitq;
    head_est = v.head_est;
    is_head = v.is_head;
    r_tok = v.r.r_tok / 1000;
    k_inflight = v.r.k_inf;
  },
  record l {
    bucket = bucket_at (v.level -ℤ pos (req.charge * nano)) now;
    reqbucket = bucket_at (v.rlevel -ℤ pos nano) now;
    inflight = put req.call_id (record { tokens = req.est; started = as_stored now }) v.inflight;
    waitq = del req.call_id v.waitq;
    waitest = del req.call_id v.waitest;
  },
)

-- The smallest number of milliseconds that is not below (need - level) / rate.
abbrev pub wait_for : ℕ → ℤ → ℕ → ℕ
wait_for need level rate =
    if ltb_ℤ level (pos (need * nano)) && ltb 0 rate
    then (pos_part (pos (need * nano) -ℤ level) + (1000 * rate - 1)) / (1000 * rate)
    else 0

-- The denial: the waiter is registered once.
pub deny : Request → ℕ → Ledger → View → Axis → Verdict × Ledger
deny req now l v a = (
  record {
    admitted = false;
    wait_ms =
        max (max 250 (wait_for (need_tok req v) v.level v.r.r_tok))
          (wait_for (need_req v) v.rlevel v.r.r_qps);
    deny_axis = some a;
    level = floor_div v.level nano;
    rlevel_x1000 = floor_div v.rlevel 1_000_000;
    inflight_sum = v.inflight_sum;
    queue_len = if has req.call_id v.waitest then length v.waitq else length v.waitq + 1;
    head_est = v.head_est;
    is_head = v.is_head;
    r_tok = v.r.r_tok / 1000;
    k_inflight = v.r.k_inf;
  },
  record l {
    bucket = bucket_at v.level now;
    reqbucket = bucket_at v.rlevel now;
    inflight = v.inflight;
    waitq =
        if has req.call_id v.waitest
        then v.waitq
        else put_new req.call_id (stored_score (priority now req.charge v.r.r_tok)) v.waitq;
    waitest =
        if has req.call_id v.waitest
        then v.waitest
        else put req.call_id (record { charge = req.charge; registered = as_stored now }) v.waitest;
  },
)

-- The whole script.
pub admit : Request → ℕ → Ledger → Verdict × Ledger
admit req now l = elim (axis req (observe req now l)) [
  | none ↦ grant req now l (observe req now l)
  | some a ↦ deny req now l (observe req now l) a
]

-- `Pacer._dequeue`.
pub dequeue : ℕ → Ledger → Ledger
dequeue call_id l = record l { waitq = del call_id l.waitq; waitest = del call_id l.waitest }

-- `Pacer.release` of an admission by the shared ledger that drew `charge`; `actual` is the weighted
-- charge of the usage that the provider reported, if it reported any.
pub release : ℕ → ℕ → Option ℕ → Ledger → Ledger
release call_id charge actual l = elim actual [
  | none ↦ record l { inflight = del call_id l.inflight }
  | some a ↦ record l {
    inflight = del call_id l.inflight;
    bucket = if charge == 0 || a == charge then l.bucket else record {
      level = some (or_default l.bucket.level (pos 0) +ℤ sub_ℕ (charge * nano) (a * nano));
      upd = l.bucket.upd;
    };
  }
]
