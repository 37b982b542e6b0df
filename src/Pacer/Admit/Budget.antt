-- ===== src/Pacer/Admit/Budget.antt =====
-- `_ADMIT_LUA` of swebench_eval/gateway/pacer.py: what an admission leaves, and what a denial takes.
use agent_evals.Prelude.{
  ℕ, ◌+◌, ◌*◌, ◌≤◌, ◌≡◌, ◌⊎◌, inl, inr, refl, Bool, true, false, none, some, [], ◌∷◌, min, max,
  ◌==◌, if◌then◌else◌, arith, Option-cases, subst, sym, not, ◌&&◌,
}
use agent_evals.Prelude.Int.{ℤ, pos, ◌-ℤ◌, ◌≤ℤ◌, int_laws}
use agent_evals.Pacer.Hashes.{Dict, get, del, put, has, get-put}
use agent_evals.Pacer.{Reserved, Waiting, Ledger}
use agent_evals.Pacer.Admit.{
  nano, Request, prune_inflight, sum_tokens, refill, View, observe, need_tok, need_req, need_inf,
  Axis, axis, grant, deny, admit, as_stored, stored_level,
}
use agent_evals.Pacer.Admit.Stored.{stored_level-keeps}

module _ (req : Request) (now : ℕ) (l : Ledger) where
  -- The two ways of the script.
  pub admit_cases :
      ((axis req (observe req now l) ≡ none)
        × (admit req now l ≡ grant req now l (observe req now l)))
      ⊎ ((a : Axis) × (axis req (observe req now l) ≡ some a)
          × (admit req now l ≡ deny req now l (observe req now l) a))
  unfolding admit
  admit_cases = elim (Option-cases (axis req (observe req now l))) [
    | inl e ↦ inl (e, rw (e, admit) refl)
    | inr (a, e) ↦ inr (a, e, rw (e, admit) refl)
  ]

  pub admitted_grant :
      (admit req now l).0.admitted ≡ true
      → (axis req (observe req now l) ≡ none)
        × (admit req now l ≡ grant req now l (observe req now l))
  unfolding deny
  admitted_grant h = elim admit_cases [ inl g ↦ g | inr (a, e, d) ↦ absurd (ground arith) ]

  pub denied_deny :
      (admit req now l).0.admitted ≡ false
      → (a : Axis) × (axis req (observe req now l) ≡ some a)
        × (admit req now l ≡ deny req now l (observe req now l) a)
  unfolding grant
  denied_deny h = elim admit_cases [ inl (e, g) ↦ absurd (ground arith) | inr d ↦ d ]

-- The three tests that an admission passed.
pub axis-none :
    (req : Request) (v : View)
    → axis req v ≡ none
    → (pos (need_tok req v * nano) ≤ℤ v.level)
      × (pos (need_req v * nano) ≤ℤ v.rlevel)
      × (need_inf req v ≤ v.r.k_inf)
unfolding axis
axis-none req v h = ground arith

sum_tokens-del-le : (k : ℕ) (d : Dict Reserved) → sum_tokens (del k d) ≤ sum_tokens d
unfolding sum_tokens del
sum_tokens-del-le k [] = omega arith
sum_tokens-del-le k ((j, r) ∷ d) = ground (arith, sum_tokens-del-le k d)

pub sum_tokens-put-le :
    (k : ℕ) (r : Reserved) (d : Dict Reserved) → sum_tokens (put k r d) ≤ r.tokens + sum_tokens d
unfolding sum_tokens put
sum_tokens-put-le k r d = omega (arith, sum_tokens-del-le k d)

observe_sum :
    (req : Request) (now : ℕ) (l : Ledger)
    → (observe req now l).inflight_sum ≡ sum_tokens (observe req now l).inflight
unfolding observe
observe_sum req now l = refl

level_kept :
    (charge head burst : ℕ) (level : ℤ)
    → charge + head ≤ burst
    → pos (min (charge + head) burst * nano) ≤ℤ level
    → pos (head * nano) ≤ℤ level -ℤ pos (charge * nano)
level_kept charge head burst level fits h = omega int_laws

rlevel_kept :
    (is_head : Bool) (level : ℤ)
    → is_head ≡ false
    → pos ((if is_head then 1 else 2) * nano) ≤ℤ level
    → pos nano ≤ℤ level -ℤ pos nano
rlevel_kept false level e h = omega int_laws
rlevel_kept true level e h = cc

room_kept :
    (sum head est k after : ℕ)
    → est + head ≤ k
    → sum + min (est + head) k ≤ k
    → after ≤ est + sum
    → after + head ≤ k
room_kept sum head est k after fits i h = omega arith

max_kept :
    (sum head est k after : ℕ)
    → sum + min (est + head) k ≤ k
    → after ≤ est + sum
    → after ≤ max k est
max_kept sum head est k after i h = omega arith

module _ (req : Request) (now : ℕ) (l : Ledger) where
  reserved :
      sum_tokens (grant req now l (observe req now l)).1.inflight
      ≤ req.est + (observe req now l).inflight_sum
  unfolding grant
  reserved =
      subst (λ (n : ℕ). sum_tokens (grant req now l (observe req now l)).1.inflight ≤ req.est + n)
        (sym (observe_sum req now l)) (sum_tokens-put-le req.call_id _ (observe req now l).inflight)

  -- After an admission the reserved tokens are within the in-flight limit, or within the estimate of
  -- the call itself where that alone is above the limit.
  pub admit_inflight_bound :
      (admit req now l).0.admitted ≡ true
      → sum_tokens (admit req now l).1.inflight ≤ max (observe req now l).r.k_inf req.est
  unfolding grant
  admit_inflight_bound h =
      let (e, g) = admitted_grant req now l h in
      let (t, q, i) = axis-none req (observe req now l) e in
      let v = observe req now l in
      rw g (max_kept v.inflight_sum v.head_est req.est v.r.k_inf _ i reserved)

  -- An admission past a waiting head leaves that head what it needs: its charge in the arrival bucket,
  -- a whole request, and, in flight, room for its charge. The conditions say that the needs of the two
  -- calls fit the limits together.
  pub admit_reserves_head :
      (admit req now l).0.admitted ≡ true
      → (observe req now l).is_head ≡ false
      → req.charge + (observe req now l).head_est ≤ (observe req now l).r.c_burst
      → req.est + (observe req now l).head_est ≤ (observe req now l).r.k_inf
      → (level rlevel : ℤ) × ((admit req now l).1.bucket.level ≡ some level)
        × ((admit req now l).1.reqbucket.level ≡ some rlevel)
        × (pos ((observe req now l).head_est * nano) ≤ℤ level)
        × (pos nano ≤ℤ rlevel)
        × (sum_tokens (admit req now l).1.inflight + (observe req now l).head_est
            ≤ (observe req now l).r.k_inf)
  unfolding grant
  admit_reserves_head h behind fits room =
      let (e, g) = admitted_grant req now l h in
      let (t, q, i) = axis-none req (observe req now l) e in
      let v = observe req now l in
      (
        stored_level (v.level -ℤ pos (req.charge * nano)),
        stored_level (v.rlevel -ℤ pos nano),
        rw g refl,
        rw g refl,
        stored_level-keeps v.head_est _
            (level_kept req.charge v.head_est v.r.c_burst v.level fits t),
        stored_level-keeps 1 _ (rlevel_kept v.is_head v.rlevel behind q),
        rw g (room_kept v.inflight_sum v.head_est req.est v.r.k_inf _ room i reserved),
      )

  -- A denial draws nothing: the levels are those that the refill gives at this time, the reservations
  -- in flight are those that have not run out, and the call is in the queue's records: as before if it
  -- was there, else with its charge and this time. No other record changes.
  pub deny_draws_nothing :
      (j : ℕ)
      → (admit req now l).0.admitted ≡ false
      → let r = (observe req now l).r in
        let after = (admit req now l).1 in
        (after.bucket ≡ record {
          level = some (stored_level (refill now (r.c_burst * nano) r.r_tok l.bucket));
          upd = some (as_stored now);
        })
        × (after.reqbucket ≡ record {
          level = some (stored_level (refill now (r.c_req * nano) r.r_qps l.reqbucket));
          upd = some (as_stored now);
        })
        × (after.inflight ≡ prune_inflight now l.inflight)
        × (get j after.waitest ≡ (
            if not (has req.call_id (observe req now l).waitest) && req.call_id == j
            then some (record { charge = req.charge; registered = as_stored now })
            else get j (observe req now l).waitest))
  unfolding deny observe
  deny_draws_nothing j h =
      let (a, e, d) = denied_deny req now l h in
      rw d (
        refl,
        refl,
        refl,
        registered (has req.call_id (observe req now l).waitest) (observe req now l).waitest,
      )
    where
      registered :
          (known : Bool) (est : Dict Waiting)
          → get j (
              if known
              then est
              else put req.call_id (record { charge = req.charge; registered = as_stored now }) est)
            ≡ (if not known && req.call_id == j
                then some (record { charge = req.charge; registered = as_stored now })
                else get j est)
      registered true est = refl
      registered false est = get-put req.call_id j _ est
