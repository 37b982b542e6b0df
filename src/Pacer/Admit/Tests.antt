-- ===== src/Pacer/Admit/Tests.antt =====
-- `_ADMIT_LUA` of swebench_eval/gateway/pacer.py at concrete inputs.
use agent_evals.Prelude.{
  ℕ, ◌+◌, ◌-◌, ◌*◌, ◌≤◌, ◌≡◌, refl, true, false, none, some, [], ◌∷◌, max, arith,
}
use agent_evals.Prelude.Int.{pos, negsuc, ◌-ℤ◌, ◌+ℤ◌, min_ℤ}
use agent_evals.Pacer.{Config, Ledger}
use agent_evals.Pacer.Hashes.{get, del, put}
use agent_evals.Pacer.Queue.{first}
use agent_evals.Pacer.Admit.{
  nano, Request, observe, prune_inflight, prune_waiters, sum_tokens, find_head, refill, axis, grant,
  deny, admit, as_stored,
}
use agent_evals.Pacer.Admit.Budget.{admit_reserves_head}
use agent_evals.Pacer.Admit.Rate.{
  Trace, drawn, AreShort, rounding, level_left, level_of, draw, arrival_rate,
}
use agent_evals.Pacer.Admit.Waiters.{Paired, admit-Paired}

-- A bucket of 1000 tokens that earns 100 a second.
abbrev config : Config
config = record {
  c_burst = some 1000;
  r_tok = some 100_000;
  k_inflight = some 5000;
  c_req = some 10;
  r_qps = some 1000;
}

-- No calls yet.
abbrev fresh : Ledger
fresh = record {
  config = config;
  bucket = record { level = none; upd = none };
  reqbucket = record { level = none; upd = none };
  inflight = [];
  waitq = [];
  waitest = [];
}

abbrev call : ℕ → ℕ → Request
call id tokens = record { est = tokens; call_id = id; wttl = 250_000_000; charge = tokens }

-- A waiter with a charge of 300 stands at the head of the line.
abbrev busy : Ledger
busy = record fresh {
  waitq = (7, record { num = pos 0; den = 1 }) ∷ [];
  waitest = (7, record { charge = 300; registered = 0 }) ∷ [];
}

abbrev dry : Ledger
dry = record fresh { bucket = record { level = some (pos 0); upd = some 0 } }

busy-Paired : Paired busy.waitq busy.waitest
unfolding get
busy-Paired j = ground arith

admitted_500 : (admit (call 1 500) 10 fresh).0.admitted ≡ true
unfolding admit axis observe prune_inflight prune_waiters sum_tokens find_head first refill grant
admitted_500 = refl

past_head : (admit (call 1 500) 10 busy).0.admitted ≡ true
unfolding admit axis observe prune_inflight prune_waiters sum_tokens find_head first get refill
    grant
past_head = refl

denied_500 : (admit (call 1 500) 1_000_000 dry).0.admitted ≡ false
unfolding admit axis observe prune_inflight prune_waiters sum_tokens find_head first refill min_ℤ
    ◌+ℤ◌ deny
denied_500 = refl

-- 400 tokens are missing, at 100 a second.
waits_4_s : (admit (call 1 500) 1_000_000 dry).0.wait_ms ≡ 4000
unfolding admit axis observe prune_inflight prune_waiters sum_tokens find_head first refill min_ℤ
    ◌+ℤ◌ ◌-ℤ◌ deny
waits_4_s = refl

-- A call that is larger than the bucket is admitted against a full one, and leaves a debt.
leaves_debt :
    (admit (call 1 1500) 10 fresh).1.bucket
    ≡ record { level = some (negsuc (500 * nano - 1)); upd = some 10 }
unfolding admit axis observe prune_inflight prune_waiters sum_tokens find_head first refill grant
    ◌-ℤ◌ as_stored
leaves_debt = refl

-- A time of today is kept to a tenth of a millisecond.
tenths_kept : as_stored 1_790_000_000_250_149 ≡ 1_790_000_000_250_100
unfolding as_stored
tenths_kept = refl

admit_reserves_head_example : sum_tokens (admit (call 1 500) 10 busy).1.inflight + 300 ≤ 5000
unfolding observe prune_waiters find_head first get
admit_reserves_head_example =
    (admit_reserves_head (call 1 500) 10 busy past_head refl (omega arith) (omega arith)).6

abbrev two_calls : Trace
two_calls = (10, call 1 500) ∷ (1_000_010, call 2 600) ∷ []

-- The second call takes what is left.
nothing_left : level_left (call 2 600) 1_000_010 (admit (call 1 500) 10 fresh).1 ≡ pos 0
unfolding admit axis observe prune_inflight prune_waiters sum_tokens find_head first refill min_ℤ
    ◌+ℤ◌ ◌-ℤ◌ grant deny level_left level_of draw as_stored del put
nothing_left = refl

half_left : level_left (call 1 500) 10 fresh ≡ pos (500 * nano)
unfolding admit axis observe prune_inflight prune_waiters sum_tokens find_head first refill min_ℤ
    ◌+ℤ◌ ◌-ℤ◌ grant deny level_left level_of draw as_stored
half_left = refl

two_calls-AreShort : AreShort two_calls fresh
two_calls-AreShort =
    (omega arith, (rw half_left (omega arith), (omega arith, (rw nothing_left (omega arith), tt))))

arrival_rate_example :
    drawn two_calls fresh * nano + 10 * 100_000
    ≤ max 600 1000 * nano + 1_000_010 * 100_000 + 2 * rounding 100_000
arrival_rate_example =
    arrival_rate 600 10 (call 1 500) ((1_000_010, call 2 600) ∷ []) fresh (omega arith)
      (omega arith) two_calls-AreShort

admit-Paired_example :
    Paired (admit (call 1 500) 10 busy).1.waitq (admit (call 1 500) 10 busy).1.waitest
admit-Paired_example = admit-Paired (call 1 500) 10 busy busy-Paired
