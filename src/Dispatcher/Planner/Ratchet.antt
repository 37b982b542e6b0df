-- ===== src/Dispatcher/Planner/Ratchet.antt =====
-- harness_dispatcher.py: what growth and recovery make of an alias's budgets, over any history of both.
use agent_evals.Prelude.{
  ℕ, zero, suc, ◌+◌, ◌≡◌, refl, ◌∙◌, Bool, true, false, not, ◌&&◌, ◌||◌, Option, some, List, [],
  ◌∷◌, Bool-cases, inl, inr, arith,
}
use agent_evals.Dispatcher.Planner.Budgets.{
  Rate, Budgets, Knobs, grow, grown, is_due, Peak, is_high, is_clamped, reconcile_growth, Arrivals,
  overload_recovery,
}

pub data Event : Type 0 where
  reconciles : ℕ → Peak → Event
  arms : ℕ → Event
  overloads : ℕ → Bool → Arrivals → Event

-- The armed peak, the budgets in Redis, and how often growth was written.
pub record History : Type 0 where
  pub peak : Option ℕ
  pub budgets : Budgets
  pub growths : ℕ

abbrev pub counted : Bool → ℕ → ℕ
counted true n = n + 1
counted false n = n

unfoldable pub happen : Knobs → Event → History → History
happen k (reconciles now p) h =
    let (peak, budgets, applied) = reconcile_growth k now p h.peak h.budgets in
    record { peak = peak; budgets = budgets; growths = counted applied h.growths }
happen k (arms at) h = record h { peak = some at }
happen k (overloads now writes a) h = record h {
  budgets = overload_recovery k now writes a h.budgets;
}

unfoldable pub happen_all : Knobs → List Event → History → History
happen_all k [] h = h
happen_all k (e ∷ es) h = happen_all k es (happen k e h)

unfoldable pub grow_times : Knobs → ℕ → Rate → Rate
grow_times k zero q = q
grow_times k (suc n) q = grow k (grow_times k n q)

-- The budgets' in-flight tokens are the first ones grown as often as growth was written.
abbrev IsGrown : Knobs → Rate → History → Type 0
IsGrown k q h = h.budgets.k_inflight ≡ grow_times k h.growths q

recovery_keeps :
    (k : Knobs) (now : ℕ) (writes : Bool) (a : Arrivals) (b : Budgets)
    → (overload_recovery k now writes a b).k_inflight ≡ b.k_inflight
unfolding overload_recovery
recovery_keeps k now writes a b = elim (Bool-cases (k.is_live && writes)) [
  | inl e ↦ rw e refl
  | inr e ↦ rw e refl
]

growth_grows :
    (k : Knobs) (now : ℕ) (p : Peak) (peak : Option ℕ) (b : Budgets) (q : Rate) (n : ℕ)
    → b.k_inflight ≡ grow_times k n q
    → (reconcile_growth k now p peak b).1.k_inflight
      ≡ grow_times k (counted (reconcile_growth k now p peak b).2 n) q
unfolding reconcile_growth grow_times grown
growth_grows k now p peak b q n v = elim (Bool-cases (is_due now peak)) [
  | inr e ↦ rw e v
  | inl e ↦ elim (Bool-cases (not (is_high k p b) || is_clamped k b)) [
    | inl f ↦ rw (e, f) v
    | inr f ↦ elim (Bool-cases (k.is_live && p.writes)) [
      | inr g ↦ rw (e, f, g) v
      | inl g ↦ let more : n + 1 ≡ suc n = omega arith in rw (e, f, g, more, v) refl
    ]
  ]
]

happen-IsGrown :
    (k : Knobs) (q : Rate) (e : Event) (h : History) → IsGrown k q h → IsGrown k q (happen k e h)
unfolding happen
happen-IsGrown k q (reconciles now p) h v = growth_grows k now p h.peak h.budgets q h.growths v
happen-IsGrown k q (arms at) h v = v
happen-IsGrown k q (overloads now writes a) h v = recovery_keeps k now writes a h.budgets ∙ v

happen_all-IsGrown :
    (k : Knobs) (q : Rate) (es : List Event) (h : History)
    → IsGrown k q h
    → IsGrown k q (happen_all k es h)
unfolding happen_all
happen_all-IsGrown k q [] h v = v
happen_all-IsGrown k q (e ∷ es) h v =
    happen_all-IsGrown k q es (happen k e h) (happen-IsGrown k q e h v)

-- No overload lowers the in-flight budget: after any history of peaks and overloads it is the first one grown
-- once for each growth that was written, however often `r_tok` and `r_qps` were lowered between.
pub k_inflight-happen_all :
    (k : Knobs) (es : List Event) (peak : Option ℕ) (b : Budgets)
    → (happen_all k es (record { peak = peak; budgets = b; growths = 0 })).budgets.k_inflight
      ≡ grow_times k
          (happen_all k es (record { peak = peak; budgets = b; growths = 0 })).growths
          b.k_inflight
unfolding grow_times
k_inflight-happen_all k es peak b = happen_all-IsGrown k b.k_inflight es _ refl
