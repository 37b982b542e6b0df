-- ===== src/Pacer/Admit/Waiters.antt =====
-- The wait queue of swebench_eval/gateway/pacer.py: who stands in it, and who is its head.
use agent_evals.Prelude.{
  ℕ, suc, ◌≡◌, inl, inr, Bool, true, false, some, [], ◌∷◌, ◌==◌, ltb, ◌+◌, if◌then◌else◌, arith,
  Option-cases,
}
use agent_evals.Pacer.Hashes.{Dict, get, del, put, has, get-del, get-put}
use agent_evals.Pacer.Queue.{Score, first, put_new, first-mem, has-put_new}
use agent_evals.Pacer.{Waiting, Ledger}
use agent_evals.Pacer.Admit.{
  as_stored, Request, prune_waiters, find_head, observe, grant, deny, admit, dequeue,
}
use agent_evals.Pacer.Admit.Budget.{admit_cases, admitted_grant}

-- The queue and its records name the same calls.
abbrev pub Paired : Dict Score → Dict Waiting → Type 0
Paired q est = (j : ℕ) → has j q ≡ has j est

Paired-del :
    (k : ℕ) (q : Dict Score) (est : Dict Waiting) → Paired q est → Paired (del k q) (del k est)
Paired-del k q est p j = ground (arith, p j, get-del k j q, get-del k j est)

Paired-if :
    (b : Bool) (k : ℕ) (q : Dict Score) (est : Dict Waiting)
    → Paired q est
    → let state : Dict Score × Dict Waiting = if b then (del k q, del k est) else (q, est) in
      Paired state.0 state.1
Paired-if true k q est p = Paired-del k q est p
Paired-if false k q est p = p

Paired-prune :
    (now wttl : ℕ) (ws : Dict Waiting) (state : Dict Score × Dict Waiting)
    → Paired state.0 state.1
    → Paired (prune_waiters now wttl ws state).0 (prune_waiters now wttl ws state).1
unfolding prune_waiters
Paired-prune now wttl [] state p = p
Paired-prune now wttl ((id, w) ∷ ws) (q, est) p =
    Paired-prune now wttl ws _ (Paired-if (ltb (w.registered + wttl) now) id q est p)

-- Where every member has its record, the first round of the loop finds the head, and drops nobody.
find_head-Paired :
    (rounds call_id : ℕ) (est : Dict Waiting) (q : Dict Score)
    → Paired q est
    → ((find_head (suc rounds) call_id est q).waitq ≡ q)
unfolding find_head
find_head-Paired rounds call_id est q p = elim (Option-cases (first q)) [
  | inl n ↦ rw (n, find_head)
  | inr ((h, s), f) ↦ elim (Option-cases (get h est)) [
    | inl n ↦ absurd (ground (arith, p h, first-mem q h s f))
    | inr (w, g) ↦ rw (f, find_head) (ground arith)
  ]
]

observe-Paired :
    (req : Request) (now : ℕ) (l : Ledger)
    → Paired l.waitq l.waitest
    → Paired (observe req now l).waitq (observe req now l).waitest
unfolding observe
observe-Paired req now l p =
    let pruned = prune_waiters now req.wttl l.waitest (l.waitq, l.waitest) in
    let q = Paired-prune now req.wttl l.waitest (l.waitq, l.waitest) p in
    rw (find_head-Paired 15 req.call_id pruned.1 pruned.0 q) q

-- Registering a waiter, once and in both structures.
register-Paired :
    (known : Bool) (k : ℕ) (s : Score) (w : Waiting) (q : Dict Score) (est : Dict Waiting)
    → Paired q est
    → Paired (if known then q else put_new k s q) (if known then est else put k w est)
register-Paired true k s w q est p j = p j
register-Paired false k s w q est p j = ground (arith, has-put_new k j s q, get-put k j w est, p j)

module _ (req : Request) (now : ℕ) (l : Ledger) where
  -- Every call of the script, admitted or denied, keeps the queue and its records in step: the same
  -- calls stand in both. So the loop that skips heads without a record never skips one.
  pub admit-Paired :
      Paired l.waitq l.waitest → Paired (admit req now l).1.waitq (admit req now l).1.waitest
  unfolding grant deny
  admit-Paired p = elim (admit_cases req now l) [
    | inl (e, g) ↦ rw g (Paired-del req.call_id _ _ (observe-Paired req now l p))
    | inr (a, e, d) ↦ rw d (register-Paired _ req.call_id _ _ _ _ (observe-Paired req now l p))
  ]

  -- An admitted call has its reservation in flight under its id, stands in the queue no more, and the
  -- other reservations are those that were live.
  pub admit_leaves_queue :
      (j : ℕ)
      → (admit req now l).0.admitted ≡ true
      → let after = (admit req now l).1 in
        (has req.call_id after.waitq ≡ false)
        × (has req.call_id after.waitest ≡ false)
        × (get j after.inflight ≡ (
            if req.call_id == j
            then some (record { tokens = req.est; started = as_stored now })
            else get j (observe req now l).inflight))
  unfolding grant
  admit_leaves_queue j h =
      let (e, g) = admitted_grant req now l h in
      let v = observe req now l in
      rw g (
        ground (arith, get-del req.call_id req.call_id v.waitq),
        ground (arith, get-del req.call_id req.call_id v.waitest),
        get-put req.call_id j _ v.inflight,
      )

pub dequeue-Paired :
    (k : ℕ) (l : Ledger)
    → Paired l.waitq l.waitest
    → Paired (dequeue k l).waitq (dequeue k l).waitest
unfolding dequeue
dequeue-Paired k l p = Paired-del k l.waitq l.waitest p
