-- ===== src/Ceiling/Search.antt =====
-- ceiling_discovery.py `find_ceiling`: that the search ends, and what its result is worth.
use agent_evals.Prelude.{
  ℕ, zero, suc, ◌+◌, ◌-◌, ◌^◌, ◌≤◌, ◌<◌, ◌≡◌, ◌≢◌, refl, true, false, List, [], ◌∷◌, ◌++◌, ltb,
  ltb→lt, length, length-append, Option-cases, Bool-cases, inl, inr, arith,
}
use agent_evals.Ceiling.{
  BatchResult, overloaded, inconclusive, tpm, Prober, Found, found, refused, out_of_fuel, Bisect,
  narrow, middle, Looped, left, raised, unfinished, calls_made, bisect, conclude, after_loop, start,
  find_ceiling,
}

-- The distance between the two ends.
abbrev gap : Bisect → ℕ
gap s = s.unsafe_hi - s.safe_lo

narrow-gap :
    (tolerance : ℕ) (r : BatchResult) (s : Bisect)
    → 1 ≤ tolerance
    → s.safe_lo + tolerance < s.unsafe_hi
    → gap (narrow (middle s) r s) + gap (narrow (middle s) r s) ≤ gap s + 1
narrow-gap tolerance r s pos wide = elim (Bool-cases (overloaded r)) [
  | inl e ↦ rw e (omega arith)
  | inr e ↦ rw e (omega arith)
]

abbrev probes_in : Looped → ℕ
probes_in (left s) = length s.probes
probes_in (raised r) = 0
probes_in unfinished = 0

-- The probes of a result.
abbrev pub probes_of : Found → List BatchResult
probes_of (found d) = d.probes
probes_of (refused r) = []
probes_of out_of_fuel = []

conclude_ends :
    (prober : Prober) (floor : ℕ) (s : Bisect)
    → (conclude prober floor s ≢ out_of_fuel)
      × (length (probes_of (conclude prober floor s)) ≤ length s.probes + 1)
unfolding conclude
conclude_ends prober floor s = elim (Option-cases s.last_safe) [
  | inl e ↦ elim (Bool-cases (inconclusive (prober (calls_made s.probes) floor))) [
    | inl f ↦ rw (e, f) (λ h. cc, omega arith)
    | inr f ↦ rw (e, f) (λ h. cc, rw length-append (omega arith))
  ]
  | inr (r, e) ↦ rw e (λ h. cc, omega arith)
]

after_loop_ends :
    (prober : Prober) (floor : ℕ) (l : Looped)
    → l ≢ unfinished
    → (after_loop prober floor l ≢ out_of_fuel)
      × (length (probes_of (after_loop prober floor l)) ≤ probes_in l + 1)
after_loop_ends prober floor (left s) h = conclude_ends prober floor s
after_loop_ends prober floor (raised r) h = (λ e. cc, omega arith)
after_loop_ends prober floor unfinished h = absurd (h refl)

two_pow : (k : ℕ) → 2 ^ (suc k) ≡ 2 ^ k + 2 ^ k
two_pow k = grind arith

module _ (prober : Prober) (tolerance : ℕ) (pos : 1 ≤ tolerance) where
  bisect_ends :
      (fuel : ℕ) (s : Bisect) → gap s ≤ fuel + 1 → bisect fuel prober tolerance s ≢ unfinished
  unfolding bisect
  bisect_ends zero s enough e = ground arith
  bisect_ends (suc fuel) s enough e = elim (Bool-cases (ltb (s.safe_lo + tolerance) s.unsafe_hi)) [
    | inl w ↦
        let r = prober (calls_made s.probes) (middle s) in
        let wide = ltb→lt _ _ w in
        let less = narrow-gap tolerance r s pos wide in
        let next = bisect_ends fuel (narrow (middle s) r s) (omega (arith, less, wide)) in
        ground arith
    | inr w ↦ ground arith
  ]

  probes-narrow :
      (mid : ℕ) (r : BatchResult) (s : Bisect) → (narrow mid r s).probes ≡ s.probes ++ r ∷ []
  probes-narrow mid r s = elim (Bool-cases (overloaded r)) [ inl e ↦ rw e refl | inr e ↦ rw e refl ]

  bisect-probes :
      (fuel k : ℕ) (s : Bisect)
      → gap s ≤ 2 ^ k
      → probes_in (bisect fuel prober tolerance s) ≤ length s.probes + k
  unfolding bisect
  bisect-probes zero k s near = ground arith
  bisect-probes (suc fuel) zero s near = rw narrow_enough (omega arith)
    where
      narrow_enough : ltb (s.safe_lo + tolerance) s.unsafe_hi ≡ false
      narrow_enough = ground arith
  bisect-probes (suc fuel) (suc k) s near =
      let r = prober (calls_made s.probes) (middle s) in
      elim (Bool-cases (ltb (s.safe_lo + tolerance) s.unsafe_hi)) [
        | inl w ↦
            let less = narrow-gap tolerance r s pos (ltb→lt _ _ w) in
            let rest =
              bisect-probes fuel k (narrow (middle s) r s) (omega (arith, less, two_pow k)) in
            let one : length (narrow (middle s) r s).probes ≡ length s.probes + 1 =
              rw (probes-narrow (middle s) r s, length-append) refl in
            elim (Bool-cases (inconclusive r)) [
              | inl f ↦ rw (w, f) (omega arith)
              | inr f ↦ rw (w, f) (omega (arith, rest, one))
            ]
        | inr w ↦ rw w (omega arith)
      ]

  -- With a tolerance of at least 1, and as much fuel as the target is high, the search ends; and it
  -- makes at most two probes more than the halvings that bring the distance from the floor to the target
  -- down to one, if it has a result; of the probes of a search that raises the count says nothing.
  pub find_ceiling_ends :
      (target floor fuel k : ℕ)
      → target ≤ fuel
      → target - floor ≤ 2 ^ k
      → (find_ceiling fuel prober target floor tolerance ≢ out_of_fuel)
        × (length (probes_of (find_ceiling fuel prober target floor tolerance)) ≤ k + 2)
  unfolding find_ceiling
  find_ceiling_ends target floor fuel k enough near =
      let top = prober 0 target in
      let s = start target floor top in
      let (ends, few) =
        after_loop_ends prober floor (bisect fuel prober tolerance s)
          (bisect_ends fuel s (omega arith)) in
      let halvings = bisect-probes fuel k s near in
      elim (Bool-cases (inconclusive top)) [
        | inl e ↦ rw e (λ h. cc, omega arith)
        | inr e ↦ elim (Bool-cases (overloaded top)) [
          | inl f ↦ rw (e, f) (ends, omega (arith, few, halvings))
          | inr f ↦ rw (e, f) (λ h. cc, omega arith)
        ]
      ]

bisect_done :
    (fuel : ℕ) (prober : Prober) (tolerance : ℕ) (s : Bisect)
    → s.unsafe_hi ≤ s.safe_lo + tolerance
    → bisect fuel prober tolerance s ≡ left s
unfolding bisect
bisect_done zero prober tolerance s h =
    let done : ltb (s.safe_lo + tolerance) s.unsafe_hi ≡ false = ground arith in rw done refl
bisect_done (suc fuel) prober tolerance s h =
    let done : ltb (s.safe_lo + tolerance) s.unsafe_hi ≡ false = ground arith in rw done refl

-- A target at or below the floor that is overloaded is not searched below: where the second probe, at the
-- floor, shows neither an overload nor only errors, the floor is reported as safe although it
-- is no lower than the overloaded target.
pub floor_over_target :
    (fuel : ℕ) (prober : Prober) (target floor tolerance : ℕ)
    → target ≤ floor
    → inconclusive (prober 0 target) ≡ false
    → overloaded (prober 0 target) ≡ true
    → inconclusive (prober 1 floor) ≡ false
    → overloaded (prober 1 floor) ≡ false
    → find_ceiling fuel prober target floor tolerance
      ≡ found record {
        safe_concurrency = floor;
        tpm_found = tpm (prober 1 floor);
        probes = prober 0 target ∷ prober 1 floor ∷ [];
      }
unfolding find_ceiling conclude
floor_over_target fuel prober target floor tolerance low fine over fine' calm =
    let done =
      bisect_done fuel prober tolerance (start target floor (prober 0 target)) (omega arith) in
    rw (fine, over, done, fine', calm) refl
