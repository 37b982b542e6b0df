-- ===== src/Pacer.antt =====
-- swebench_eval/gateway/pacer.py: the shared ledger of one model alias, and the admission script that
-- Redis runs atomically. Time is the server's, in microseconds; rates are in thousandths of a unit per
-- second; so levels are in billionths of a token or of a request, and every sum of the script is
-- exact; what it writes as a text has the 14 digits that Lua leaves of a number. Call ids are the numbers that their 32 hexadecimal digits spell, in the same order. The keys'
-- expiry after an hour without a call is not modelled.
pub mod Hashes
pub mod Queue
pub mod Admit
use agent_evals.Prelude.{ℕ, Option}
use agent_evals.Prelude.Int.{ℤ}
use Hashes.{Dict}
use Queue.{Score}

-- `pacer:cfg`; an absent field is the default.
pub record Config : Type 0 where
  pub c_burst : Option ℕ
  pub r_tok : Option ℕ
  pub k_inflight : Option ℕ
  pub c_req : Option ℕ
  pub r_qps : Option ℕ

-- `pacer:bucket` and `pacer:reqbucket`.
pub record Bucket : Type 0 where
  pub level : Option ℤ
  pub upd : Option ℕ

-- A value of `pacer:inflight`.
pub record Reserved : Type 0 where
  pub tokens : ℕ
  pub started : ℕ

-- A value of `pacer:waitest`: the charge that the waiter needs, and when it was first denied.
pub record Waiting : Type 0 where
  pub charge : ℕ
  pub registered : ℕ

pub record Ledger : Type 0 where
  pub config : Config
  pub bucket : Bucket
  pub reqbucket : Bucket
  pub inflight : Dict Reserved
  pub waitq : Dict Score
  pub waitest : Dict Waiting
