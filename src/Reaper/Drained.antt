-- ===== src/Reaper/Drained.antt =====
-- run_supervisor.py `_reap_never_dispatched`: what the supervisor saw before it reports a row.
use agent_evals.Prelude.{
  ℕ, ◌+◌, ◌≤◌, ◌≡◌, refl, sym, ◌∙◌, ap, Bool, true, false, not, ◌&&◌, none, some, List, [], ◌∷◌,
  ◌++◌, ◌=s◌, if◌then◌else◌, any, Bool-cases, subst, Option-cases, inl, inr, ◌⊎◌, arith,
}
use agent_evals.Results.{Key}
use agent_evals.Results.Table.{same_key, same_key-eq, find, find-put_row}
use agent_evals.Reaper.{
  Tick, Since, min_consecutive_empty, candidates, has_key, has_work, forget, is_alive, visit,
  visit_all, reap_candidates, reap_never_dispatched, since_of, reaped,
}

-- An unpaused tick of a run in which the row is a candidate.
abbrev pub reads : Key → Tick → Bool
reads k t = not t.paused && has_key k (candidates t)

-- A history, its latest tick first, in which the queue was read empty for a row at a time and at each
-- tick that read the queue for the row since then.
pub data Drained (k : Key) : ℕ → List Tick → Type 0 where
  seen_empty :
      (t : Tick) (ts : List Tick)
      → reads k t ≡ true
      → has_work t ≡ false
      → Drained k t.monotonic (t ∷ ts)
  still :
      (t : Tick) (ts : List Tick) (n : ℕ)
      → (reads k t && has_work t) ≡ false
      → Drained k n ts
      → Drained k n (t ∷ ts)

find-forget :
    (test : Key → Bool) (k : Key) (since : Since)
    → find k (forget test since) ≡ (if test k then none else find k since)
unfolding find forget
find-forget test k [] = ground arith
find-forget test k ((j, n) ∷ since) = elim (Bool-cases (same_key j k)) [
  | inl e ↦
      let same : test j ≡ test k = ap test (same_key-eq j k e) in
      elim (Bool-cases (test k)) [
        | inl f ↦ rw (same, f, find-forget test k since, f) refl
        | inr f ↦ rw (same, f, find, e) refl
      ]
  | inr e ↦ elim (Bool-cases (test j)) [
    | inl f ↦ rw (f, find-forget test k since, e) refl
    | inr f ↦ rw (f, find, e, find-forget test k since) refl
  ]
]

find-forget-some :
    (test : Key → Bool) (k : Key) (since : Since) (n : ℕ)
    → find k (forget test since) ≡ some n
    → (test k ≡ false) × (find k since ≡ some n)
find-forget-some test k since n h = elim (Bool-cases (test k)) [
  | inl e ↦ absurd (ground (arith, find-forget test k since))
  | inr e ↦ ground (arith, find-forget test k since)
]

module _ (t : Tick) (k j : Key) (since : Since) where
  -- What a visit leaves for a row was there before, or is the time of an empty read.
  find-visit :
      (n : ℕ)
      → find j ((visit t k since).0) ≡ some n
      → (find j since ≡ some n) ⊎ ((n ≡ t.monotonic) × (same_key k j ≡ true))
  unfolding visit
  find-visit n h = elim (Option-cases (find k since)) [
    | inl e ↦ ground (arith, find-put_row k j t.monotonic since)
    | inr (m, e) ↦ ground (arith, find-forget-some (λ i. same_key i k) j since n)
  ]

visit-reaps :
    (t : Tick) (k : Key) (since : Since)
    → (visit t k since).1 ≡ true
    → (n : ℕ) × (find k since ≡ some n)
      × (n + min_consecutive_empty ≤ t.monotonic)
      × (is_alive t k ≡ false)
unfolding visit
visit-reaps t k since h = elim (Option-cases (find k since)) [
  | inl e ↦ absurd (ground arith)
  | inr (m, e) ↦ (m, e, ground arith, ground arith)
]

find-visit_all :
    (t : Tick) (ks : List Key) (j : Key) (since : Since) (n : ℕ)
    → find j ((visit_all t ks since).0) ≡ some n
    → (find j since ≡ some n) ⊎ ((n ≡ t.monotonic) × (has_key j ks ≡ true))
unfolding visit_all
find-visit_all t [] j since n h = inl h
find-visit_all t (k ∷ ks) j since n h = elim (find-visit_all t ks j ((visit t k since).0) n h) [
  | inl e ↦ ground (arith, find-visit t k j since n e)
  | inr e ↦ ground arith
]

visit_all-reaps :
    (t : Tick) (ks : List Key) (j : Key) (since : Since)
    → has_key j ((visit_all t ks since).1) ≡ true
    → (n : ℕ) × (find j since ≡ some n)
      × (n + min_consecutive_empty ≤ t.monotonic)
      × (is_alive t j ≡ false)
      × (has_key j ks ≡ true)
unfolding visit_all
visit_all-reaps t [] j since h = absurd cc
visit_all-reaps t (k ∷ ks) j since h = elim (Bool-cases ((visit t k since).1 && same_key k j)) [
  | inl e ↦
      let same = same_key-eq k j (ground arith) in
      let (n, found, long, dead) = visit-reaps t k since (ground arith) in
      (
        n,
        ap (λ i. find i since) (sym same) ∙ found,
        long,
        ap (is_alive t) (sym same) ∙ dead,
        ground arith,
      )
  | inr e ↦
      let later : has_key j ((visit_all t ks ((visit t k since).0)).1) ≡ true = ground arith in
      let (n, found, long, dead, key) = visit_all-reaps t ks j ((visit t k since).0) later in
      elim (find-visit t k j since n found) [
        | inl f ↦ (n, f, long, dead, ground arith)
        | inr f ↦ absurd (omega (arith, f.0, long))
      ]
]

find-reap_candidates :
    (t : Tick) (ks : List Key) (j : Key) (since : Since) (n : ℕ)
    → find j ((reap_candidates t ks since).0) ≡ some n
    → ((has_key j ks && has_work t) ≡ false)
      × ((find j since ≡ some n)
          ⊎ ((n ≡ t.monotonic) × (has_key j ks ≡ true) × (has_work t ≡ false)))
unfolding reap_candidates
find-reap_candidates t [] j since n h = (refl, inl h)
find-reap_candidates t (k ∷ ks) j since n h = elim (Bool-cases (has_work t)) [
  | inl e ↦
      let kept = find-forget-some (λ i. has_key i (k ∷ ks)) j since n (ground arith) in
      (ground arith, inl kept.1)
  | inr e ↦
      let stale = λ (i : Key). i.run_id =s t.run_id && not (has_key i (k ∷ ks)) in
      elim (find-visit_all t (k ∷ ks) j (forget stale since) n (ground arith)) [
        | inl f ↦ (ground arith, inl (find-forget-some stale j since n f).1)
        | inr f ↦ (ground arith, inr (f.0, f.1, e))
      ]
]

-- What a tick leaves for a row was there before, or is the time of its own empty read; and the tick did
-- not find work in the queue while the row was a candidate.
find-reap :
    (t : Tick) (j : Key) (since : Since) (n : ℕ)
    → find j ((reap_never_dispatched t since).0) ≡ some n
    → ((reads j t && has_work t) ≡ false)
      × ((find j since ≡ some n) ⊎ ((n ≡ t.monotonic) × (reads j t ≡ true) × (has_work t ≡ false)))
unfolding reap_never_dispatched
find-reap t j since n h = elim (Bool-cases t.paused) [
  | inl e ↦ (ground arith, inl (ground arith))
  | inr e ↦ rw e (find-reap_candidates t (candidates t) j since n (ground arith))
]

since_of-Drained :
    (ts : List Tick) (k : Key) (n : ℕ) → find k (since_of ts) ≡ some n → Drained k n ts
unfolding since_of find
since_of-Drained [] k n h = absurd (ground arith)
since_of-Drained (t ∷ ts) k n h =
    let (quiet, origin) = find-reap t k (since_of ts) n h in
    elim origin [
      | inl e ↦ Drained.still t ts n quiet (since_of-Drained ts k n e)
      | inr e ↦ subst (λ n. Drained k n (t ∷ ts)) (sym e.0) (Drained.seen_empty t ts e.1 e.2)
    ]

reap_candidates-reaps :
    (t : Tick) (ks : List Key) (j : Key) (since : Since)
    → has_key j ((reap_candidates t ks since).1) ≡ true
    → (n : ℕ) × (find j since ≡ some n)
      × (n + min_consecutive_empty ≤ t.monotonic)
      × (is_alive t j ≡ false)
      × (has_key j ks ≡ true)
      × (has_work t ≡ false)
unfolding reap_candidates
reap_candidates-reaps t [] j since h = absurd cc
reap_candidates-reaps t (k ∷ ks) j since h = elim (Bool-cases (has_work t)) [
  | inl e ↦ absurd (ground arith)
  | inr e ↦
      let stale = λ (i : Key). i.run_id =s t.run_id && not (has_key i (k ∷ ks)) in
      let (n, found, long, dead, key) =
        visit_all-reaps t (k ∷ ks) j (forget stale since) (ground arith) in
      (n, (find-forget-some stale j since n found).1, long, dead, key, e)
]

-- A row is reported NEVER_DISPATCHED only by an unpaused tick in which it is an old PENDING row without a
-- dispatch, the queue is empty, and no task and no progress key of it is alive; and only after the
-- queue was read empty for it at least 90 seconds before and at each tick that read it since.
pub reaped-Drained :
    (t : Tick) (ts : List Tick) (k : Key)
    → has_key k (reaped t ts) ≡ true
    → (reads k t ≡ true)
      × (has_work t ≡ false)
      × (is_alive t k ≡ false)
      × (n : ℕ) × (n + min_consecutive_empty ≤ t.monotonic)
      × Drained k n ts
unfolding reap_never_dispatched
reaped-Drained t ts k h = elim (Bool-cases t.paused) [
  | inl e ↦ absurd (ground arith)
  | inr e ↦
      let (n, found, long, dead, key, empty) =
        reap_candidates-reaps t (candidates t) k (since_of ts) (ground arith) in
      (rw e key, empty, dead, n, long, since_of-Drained ts k n found)
]

-- Ticks of a paused pool leave the record as it was: what the supervisor reports after a pause, it
-- reports on the reads from before it, however long the pause was and whatever the queue held.
pub paused-keep :
    (ps ts : List Tick) (t : Tick)
    → any (λ p. not p.paused) ps ≡ false
    → reaped t (ps ++ ts) ≡ reaped t ts
unfolding since_of reap_never_dispatched
paused-keep [] ts t h = refl
paused-keep (p ∷ ps) ts t h = elim (Bool-cases p.paused) [
  | inl e ↦ rw e (paused-keep ps ts t (ground arith))
  | inr e ↦ absurd (ground arith)
]
