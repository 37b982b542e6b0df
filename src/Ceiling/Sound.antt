-- ===== src/Ceiling/Sound.antt =====
-- ceiling_discovery.py `find_ceiling`: what the reported concurrency is worth.
use mathlib.Core.List.{Memᴰ}
use agent_evals.Prelude.{
  ℕ, zero, suc, ◌+◌, ◌≤◌, ◌<◌, ◌≡◌, refl, sym, ap, ◌∙◌, true, false, none, some, List, [], ◌∷◌,
  ◌++◌, ltb, ltb→lt, Option-cases, Bool-cases, inl, inr, ◌⊎◌, Mem-append, append-Mem, or_default,
  subst, arith,
}
use agent_evals.Ceiling.{
  BatchResult, overloaded, inconclusive, tpm, Prober, Discovery, Found, found, refused, out_of_fuel,
  Bisect, narrow, middle, Looped, left, raised, unfinished, calls_made, bisect, conclude,
  after_loop, start, find_ceiling,
}

-- No probe is inconclusive, and each overloaded one is at a level or above it.
abbrev pub IsAbove : ℕ → List BatchResult → Type 0
IsAbove level probes =
    (b : BatchResult)
    → Memᴰ b probes
    → (inconclusive b ≡ false) × (overloaded b ≡ true → level ≤ b.concurrency)

-- A probe that was not overloaded, at a level.
abbrev pub IsProbed : ℕ → BatchResult → List BatchResult → Type 0
IsProbed level b probes = Memᴰ b probes × (overloaded b ≡ false) × (b.concurrency ≡ level)

IsAbove-snoc :
    (level : ℕ) (ps : List BatchResult) (r : BatchResult)
    → IsAbove level ps
    → inconclusive r ≡ false
    → (overloaded r ≡ true → level ≤ r.concurrency)
    → IsAbove level (ps ++ r ∷ [])
IsAbove-snoc level ps r all fine high b m = elim (Mem-append ps (r ∷ []) b m) [
  | inl n ↦ all b n
  | inr (Memᴰ.head e) ↦ (
    ap (λ x. inconclusive x) e ∙ fine,
    λ over. rw e (high (sym (ap (λ x. overloaded x) e) ∙ over)),
  )
  | inr (Memᴰ.tail n) ↦ elim n [ ]
]

IsAbove-lower :
    (low high : ℕ) (ps : List BatchResult) → low ≤ high → IsAbove high ps → IsAbove low ps
IsAbove-lower low high ps h all b m =
    let (fine, over) = all b m in (fine, λ o. omega (arith, over o, h))

-- What holds at the head of the loop.
pub record IsSound (floor : ℕ) (s : Bisect) : Type 0 where
  pub apart : s.safe_lo < s.unsafe_hi
  pub above : IsAbove s.unsafe_hi s.probes
  pub unproved : s.last_safe ≡ none → s.safe_lo ≡ floor
  pub proved : (r : BatchResult) → s.last_safe ≡ some r → IsProbed s.safe_lo r s.probes

abbrev bisect_of : Looped → Bisect → Bisect
bisect_of (left s) d = s
bisect_of (raised r) d = d
bisect_of unfinished d = d

module _ (prober : Prober) (labelled : (n c : ℕ) → (prober n c).concurrency ≡ c) where
  narrow-IsSound :
      (floor tolerance : ℕ) (s : Bisect)
      → IsSound floor s
      → s.safe_lo + tolerance < s.unsafe_hi
      → 1 ≤ tolerance
      → inconclusive (prober (calls_made s.probes) (middle s)) ≡ false
      → IsSound floor (narrow (middle s) (prober (calls_made s.probes) (middle s)) s)
  narrow-IsSound floor tolerance s h wide pos fine =
      let r = prober (calls_made s.probes) (middle s) in
      let label = labelled (calls_made s.probes) (middle s) in
      elim (Bool-cases (overloaded r)) [
        | inl e ↦ rw e (record {
          apart = omega (arith, wide, pos);
          above =
              IsAbove-snoc (middle s) s.probes r
                (IsAbove-lower (middle s) s.unsafe_hi s.probes (omega (arith, wide)) h.above) fine
                (λ o. omega (arith, label));
          unproved = h.unproved;
          proved =
              λ q e. let (m, o, c) = h.proved q e in (append-Mem s.probes (r ∷ []) q (inl m), o, c);
        })
        | inr e ↦ rw e (record {
          apart = omega (arith, wide, pos);
          above = IsAbove-snoc s.unsafe_hi s.probes r h.above fine (λ o. absurd cc);
          unproved = λ q. absurd cc;
          proved = λ q e'.
              let same : r ≡ q = ap (λ o. or_default o r) e' in
              rw (sym same) (append-Mem s.probes (r ∷ []) r (inr (Memᴰ.head refl)), e, label);
        })
      ]

  bisect-IsSound :
      (floor tolerance fuel : ℕ) (s s' : Bisect)
      → IsSound floor s
      → 1 ≤ tolerance
      → bisect fuel prober tolerance s ≡ left s'
      → IsSound floor s'
  unfolding bisect
  bisect-IsSound floor tolerance zero s s' h pos e =
      elim (Bool-cases (ltb (s.safe_lo + tolerance) s.unsafe_hi)) [
        | inl w ↦ absurd (ground arith)
        | inr w ↦
            let e' : left s ≡ left s' = rw w at e in
            let same : s ≡ s' = ap (λ l. bisect_of l s) e' in subst (λ x. IsSound floor x) same h
      ]
  bisect-IsSound floor tolerance (suc fuel) s s' h pos e =
      let r = prober (calls_made s.probes) (middle s) in
      elim (Bool-cases (ltb (s.safe_lo + tolerance) s.unsafe_hi)) [
        | inl w ↦ elim (Bool-cases (inconclusive r)) [
          | inl f ↦ absurd (ground arith)
          | inr f ↦
              bisect-IsSound floor tolerance fuel (narrow (middle s) r s) s'
                (narrow-IsSound floor tolerance s h (ltb→lt _ _ w) pos f) pos (rw (w, f) at e)
        ]
        | inr w ↦
            let e' : left s ≡ left s' = rw w at e in
            let same : s ≡ s' = ap (λ l. bisect_of l s) e' in subst (λ x. IsSound floor x) same h
      ]

-- A result whose probes could all be interpreted, whose concurrency lies below each overloaded probe, and
-- was probed without an overload at the rate that is reported; or is 0.
pub record IsSafe (d : Discovery) : Type 0 where
  pub clear : (b : BatchResult) → Memᴰ b d.probes → inconclusive b ≡ false
  pub below :
      (b : BatchResult)
      → Memᴰ b d.probes
      → overloaded b ≡ true
      → (d.safe_concurrency ≡ 0) ⊎ (d.safe_concurrency < b.concurrency)
  pub witnessed :
      (d.safe_concurrency ≡ 0)
      ⊎ ((b : BatchResult) × IsProbed d.safe_concurrency b d.probes × (tpm b ≡ d.tpm_found))

abbrev discovery_of : Found → Discovery → Discovery
discovery_of (found d) e = d
discovery_of (refused r) e = e
discovery_of out_of_fuel e = e

found-eq : (d e : Discovery) → found d ≡ found e → d ≡ e
found-eq d e h = ap (λ f. discovery_of f d) h

below_all :
    (level high : ℕ) (ps : List BatchResult)
    → level < high
    → IsAbove high ps
    → (b : BatchResult) → Memᴰ b ps
    → overloaded b ≡ true
    → (level ≡ 0) ⊎ (level < b.concurrency)
below_all level high ps less all b m over = inr (omega (arith, less, (all b m).1 over))

module _ (prober : Prober) (labelled : (n c : ℕ) → (prober n c).concurrency ≡ c) (floor : ℕ) where
  conclude-IsSafe :
      (s : Bisect) (d : Discovery) → IsSound floor s → conclude prober floor s ≡ found d → IsSafe d
  unfolding conclude
  conclude-IsSafe s d h e =
      let r = prober (calls_made s.probes) floor in
      let label = labelled (calls_made s.probes) floor in
      elim (Option-cases s.last_safe) [
        | inr (q, f) ↦
            let same = found-eq _ d (rw f at e) in
            subst IsSafe same (record {
              clear = λ b m. (h.above b m).0;
              below = below_all s.safe_lo s.unsafe_hi s.probes h.apart h.above;
              witnessed = inr (q, h.proved q f, refl);
            })
        | inl f ↦ elim (Bool-cases (inconclusive r)) [
          | inl g ↦ absurd (ground arith)
          | inr g ↦ elim (Bool-cases (overloaded r)) [
            | inl o ↦
                let low = IsAbove-lower 0 s.unsafe_hi s.probes (omega arith) h.above in
                let all = IsAbove-snoc 0 s.probes r low g (λ o'. omega arith) in
                let same = found-eq _ d (rw (f, g, o) at e) in
                subst IsSafe same (record {
                  clear = λ b m. (all b m).0;
                  below = λ b m over. inl refl;
                  witnessed = inl refl;
                })
            | inr o ↦
                let all = IsAbove-snoc s.unsafe_hi s.probes r h.above g (λ o'. absurd cc) in
                let low : floor < s.unsafe_hi = omega (arith, h.apart, h.unproved f) in
                let same = found-eq _ d (rw (f, g, o) at e) in
                subst IsSafe same (record {
                  clear = λ b m. (all b m).0;
                  below = below_all floor s.unsafe_hi (s.probes ++ r ∷ []) low all;
                  witnessed =
                      inr (
                        r,
                        (append-Mem s.probes (r ∷ []) r (inr (Memᴰ.head refl)), o, label),
                        refl,
                      );
                })
          ]
        ]
      ]

  after_loop-IsSafe :
      (l : Looped) (d : Discovery)
      → ((s : Bisect) → l ≡ left s → IsSound floor s)
      → after_loop prober floor l ≡ found d
      → IsSafe d
  after_loop-IsSafe (left s) d h e = conclude-IsSafe s d (h s refl) e
  after_loop-IsSafe (raised r) d h e = absurd cc
  after_loop-IsSafe unfinished d h e = absurd cc

  -- Where the batches carry the concurrency that was asked for, the floor lies below the target and the
  -- tolerance is at least 1: a concurrency that the search reports is 0, or was probed without an
  -- overload at the reported rate and lies below each probe that was overloaded; and no probe of the
  -- search was inconclusive.
  pub find_ceiling-IsSafe :
      (target tolerance fuel : ℕ) (d : Discovery)
      → floor < target
      → 1 ≤ tolerance
      → find_ceiling fuel prober target floor tolerance ≡ found d
      → IsSafe d
  unfolding find_ceiling
  find_ceiling-IsSafe target tolerance fuel d less pos e =
      let top = prober 0 target in
      let label = labelled 0 target in
      let s = start target floor top in
      elim (Bool-cases (inconclusive top)) [
        | inl f ↦ absurd (ground arith)
        | inr f ↦
            let all : IsAbove target (top ∷ []) =
              IsAbove-snoc target [] top (λ b m. elim m [ ]) f (λ o. omega (arith, label)) in
            elim (Bool-cases (overloaded top)) [
              | inl g ↦
                  let sound : IsSound floor s = record {
                    apart = less;
                    above = all;
                    unproved = λ q. refl;
                    proved = λ r q. absurd cc;
                  } in
                  after_loop-IsSafe (bisect fuel prober tolerance s) d
                    (λ s' q. bisect-IsSound prober labelled floor tolerance fuel s s' sound pos q)
                    (rw (f, g) at e)
              | inr g ↦
                  let same = found-eq _ d (rw (f, g) at e) in
                  subst IsSafe same (record {
                    clear = λ b m. (all b m).0;
                    below = λ b m over. absurd (elim m [
                      | Memᴰ.head q ↦
                          (let clash : true ≡ false = sym over ∙ (ap (λ x. overloaded x) q ∙ g) in
                            cc)
                      | Memᴰ.tail n ↦ elim n [ ]
                    ]);
                    witnessed = inr (top, (Memᴰ.head refl, g, label), refl);
                  })
            ]
      ]
