-- ===== src/Reaper/Closing.antt =====
-- The rows that run_supervisor.py and abort.py close, and what becomes of them in results_writer.py.
use mathlib.Core.List.{Memᴰ}
use agent_evals.Prelude.{
  ℕ, ◌+◌, ◌≤◌, ◌<◌, ◌≡◌, refl, sym, ap, ◌∙◌, String, Bool, true, false, ◌&&◌, Option, none, some,
  List, [], ◌∷◌, ◌=s◌, =s-eq, if◌then◌else◌, Bool-cases, inl, inr, ◌⊎◌, keep, Mem-append, arith,
}
use agent_evals.Results.{Key, Row, key_of}
use agent_evals.Results.Table.{Table, same_key_refl}
use agent_evals.Results.Write.{state_rank, Records, Calls, Delivery, step, deliver, is_patch_ready}
use agent_evals.Results.Write.Ranks.{level_at, writes, is_written, message_level, level-step}
use agent_evals.Results.Write.Jobs.{jobs_of, jobs_of-step, sends, deliver_settled}
use agent_evals.Results.Write.Handover.{not_eval, job_sent}
use agent_evals.Reaper.{select}
use agent_evals.Reaper.Deadline.{
  RunView, reap_message, rule2_harness_states, rule2_eval_states, is_overdue, is_silent, reap_phase,
  reap_with, reap_deadline_rule,
}
use agent_evals.Reaper.Sweep.{Progress, is_swept, swept_state, sweep_remaining_rows}

Mem-if :
    {A : Type 0} (b : Bool) (x y : A) (zs : List A)
    → Memᴰ x (if b then y ∷ zs else zs)
    → ((x ≡ y) × (b ≡ true)) ⊎ Memᴰ x zs
Mem-if true x y zs (Memᴰ.head e) = inl (e, refl)
Mem-if true x y zs (Memᴰ.tail m) = inr m
Mem-if false x y zs m = inr m

Mem-keep :
    {A : Type 0} (test : A → Bool) (xs : List A) (x : A)
    → Memᴰ x (keep test xs)
    → Memᴰ x xs × (test x ≡ true)
Mem-keep test [] x m = elim m [ ]
Mem-keep test (y ∷ ys) x m = elim (Mem-if (test y) x y (keep test ys) m) [
  | inl (e, h) ↦ (Memᴰ.head e, ap test e ∙ h)
  | inr n ↦ let (k, h) = Mem-keep test ys x n in (Memᴰ.tail k, h)
]

Mem-select :
    (test : Key → Row → Bool) (t : Table) (k : Key)
    → Memᴰ k (select test t)
    → (r : Row) × Memᴰ (k, r) t × (test k r ≡ true)
Mem-select test [] k m = elim m [ ]
Mem-select test ((j, r) ∷ t) k m = elim (Mem-if (test j r) k j (select test t) m) [
  | inl (e, h) ↦ (r, Memᴰ.head (ap (λ i. (i, r)) e), ap (λ i. test i r) e ∙ h)
  | inr n ↦ let (q, k', h) = Mem-select test t k n in (q, Memᴰ.tail k', h)
]

-- What the deadline rule requires of a row of a phase.
abbrev pub IsDue : RunView → Key → Bool → String → List String → (Row → Option ℕ) → Type 0
IsDue v k paused phase states column =
    (paused ≡ false)
    × (r : Row) × (timeout : ℕ) × (v.timeout ≡ some timeout)
    × Memᴰ (k, r) v.rows
    × (is_overdue v timeout phase states column k r ≡ true)

reap_phase-IsDue :
    (v : RunView) (timeout : ℕ) (paused : Bool) (phase : String) (states : List String)
    (column : Row → Option ℕ) (k : Key)
    → v.timeout ≡ some timeout
    → Memᴰ k (reap_phase v timeout paused phase states column)
    → (is_silent v k ≡ true) × IsDue v k paused phase states column
unfolding reap_phase
reap_phase-IsDue v timeout true phase states column k e m = elim m [ ]
reap_phase-IsDue v timeout false phase states column k e m =
    let (n, silent) = Mem-keep (is_silent v) _ k m in
    let (r, row, due) = Mem-select (is_overdue v timeout phase states column) v.rows k n in
    (silent, (refl, r, timeout, e, row, due))

reap_with-IsDue :
    (v : RunView) (o : Option ℕ) (k : Key)
    → v.timeout ≡ o
    → Memᴰ k (reap_with v o)
    → (is_silent v k ≡ true)
      × (IsDue v k v.harness_paused "harness" rule2_harness_states (λ r. r.dispatched_at)
          ⊎ IsDue v k v.eval_paused "eval" rule2_eval_states (λ r. r.seeded_at))
unfolding reap_with
reap_with-IsDue v none k e m = elim m [ ]
reap_with-IsDue v (some n) k e m =
    elim (Mem-append
      (reap_phase v n v.harness_paused "harness" rule2_harness_states (λ r. r.dispatched_at))
      (reap_phase v n v.eval_paused "eval" rule2_eval_states (λ r. r.seeded_at)) k m) [
        | inl h ↦ let (silent, due) = reap_phase-IsDue v n _ _ _ _ k e h in (silent, inl due)
        | inr h ↦ let (silent, due) = reap_phase-IsDue v n _ _ _ _ k e h in (silent, inr due)
      ]

-- A row is reported ABANDONED only where neither a task nor a progress key of it is alive and it is a row
-- of the run, in a phase whose pool is not paused, in a state of that phase's work, whose dispatch or
-- seed lies further back than the run's timeout and the margin.
pub reap_deadline_rule-IsDue :
    (v : RunView) (k : Key)
    → Memᴰ k (reap_deadline_rule v)
    → (is_silent v k ≡ true)
      × (IsDue v k v.harness_paused "harness" rule2_harness_states (λ r. r.dispatched_at)
          ⊎ IsDue v k v.eval_paused "eval" rule2_eval_states (λ r. r.seeded_at))
unfolding reap_deadline_rule
reap_deadline_rule-IsDue v k m = reap_with-IsDue v v.timeout k refl m

abbrev pub reports : Calls → ℕ → Key → String → String → Delivery
reports c now k state detail = record {
  calls = c;
  now = now;
  message = reap_message k state detail;
}

harness_not_eval : (phase : String) → phase =s "harness" ≡ true → phase =s "eval" ≡ false
unfolding ◌=s◌
harness_not_eval phase h = let same : phase ≡ "harness" = =s-eq _ _ h in rw same refl

swept_state-cases :
    (k : Key) (r : Row)
    → k.phase =s "harness" ≡ true
    → (swept_state k r ≡ "NEVER_DISPATCHED") ⊎ (swept_state k r ≡ "ABORTED_IN_FLIGHT")
swept_state-cases k r h = elim (Bool-cases (r.state =s "PENDING")) [
  | inl e ↦ inl (rw (h, e) refl)
  | inr e ↦ inr (rw (h, e) refl)
]

swept_state-rank :
    (k : Key) (r : Row) → k.phase =s "harness" ≡ true → state_rank (swept_state k r) ≡ 4
unfolding state_rank ◌=s◌
swept_state-rank k r h = elim (swept_state-cases k r h) [
  | inl e ↦ ap state_rank e
  | inr e ↦ ap state_rank e
]

swept_state-quiet :
    (k : Key) (r : Row) → k.phase =s "harness" ≡ true → (swept_state k r =s "PATCH_READY") ≡ false
unfolding ◌=s◌
swept_state-quiet k r h = elim (swept_state-cases k r h) [
  | inl e ↦ ap (λ state. state =s "PATCH_READY") e
  | inr e ↦ ap (λ state. state =s "PATCH_READY") e
]

Mem-sweep :
    (run : String) (running : List String) (progress : Progress) (requested : Option ℕ) (t : Table)
    (k : Key) (state : String)
    → Memᴰ (k, state) (sweep_remaining_rows run running progress requested t)
    → (r : Row) × (state ≡ swept_state k r) × (is_swept run running progress requested k r ≡ true)
unfolding sweep_remaining_rows
Mem-sweep run running progress requested [] k state m = elim m [ ]
Mem-sweep run running progress requested ((j, r) ∷ t) k state m =
    elim (Mem-if (is_swept run running progress requested j r) (k, state) (j, swept_state j r) _
      m) [
        | inl (e, h) ↦
            let key : k ≡ j = ap (λ p. p.0) e in
            (
              r,
              ap (λ p. p.1) e ∙ ap (λ i. swept_state i r) (sym key),
              ap (λ i. is_swept run running progress requested i r) key ∙ h,
            )
        | inr n ↦ Mem-sweep run running progress requested t k state n
      ]

-- A harness row that an abort's sweep closes has no more eval job sent for it, once the sweep's message
-- is written: whatever messages come later, the count of its jobs stays.
pub sweep_stops_jobs :
    (run : String) (running : List String) (progress : Progress) (requested : Option ℕ) (t : Table)
    (k : Key) (state detail : String) (c : Calls) (now : ℕ) (es : List Delivery) (s : Records)
    → Memᴰ (k, state) (sweep_remaining_rows run running progress requested t)
    → k.phase =s "harness" ≡ true
    → is_written (reports c now k state detail) s ≡ true
    → jobs_of k (deliver (reports c now k state detail ∷ es) s).jobs ≡ jobs_of k s.jobs
unfolding reap_message deliver
sweep_stops_jobs run running progress requested t k state detail c now es s m h w =
    let d = reports c now k state detail in
    let (r, e, _) = Mem-sweep run running progress requested t k state m in
    let harness : k.phase =s "eval" ≡ false = harness_not_eval k.phase h in
    let five : message_level d ≡ 5 = rw (e, swept_state-rank k r h) refl in
    let quiet : sends k s d ≡ false = rw e (ground (arith, swept_state-quiet k r h)) in
    let own : writes k s d ≡ true = rw (w, same_key_refl k) refl in
    let high : 4 < level_at k (step d s) = rw (level-step d s k harness, own, five) (omega arith) in
    let same : jobs_of k (step d s).jobs ≡ jobs_of k s.jobs =
      rw (jobs_of-step k d s, quiet) (omega arith) in
    deliver_settled k harness es (step d s) high ∙ same

-- A premature report of ABANDONED is no loss: the first PATCH_READY of the attempt, with every call
-- answered, still sends exactly one eval job, whatever comes later.
pub abandoned_recovers :
    (detail : String) (c : Calls) (now : ℕ) (d : Delivery) (es : List Delivery) (s : Records)
    → is_patch_ready d.message ≡ true
    → is_written d s ≡ true
    → (d.calls.seed && d.calls.send) ≡ true
    → level_at (key_of d.message) s ≤ 4
    → jobs_of
        (key_of d.message)
        (deliver (reports c now (key_of d.message) "ABANDONED" detail ∷ d ∷ es) s).jobs
      ≡ jobs_of (key_of d.message) s.jobs + 1
unfolding reap_message deliver state_rank ◌=s◌
abandoned_recovers detail c now d es s ready w ok low =
    let k = key_of d.message in
    let report = reports c now k "ABANDONED" detail in
    let low' : level_at k (step report s) ≤ 4 =
      rw (level-step report s k (not_eval d.message ready)) (ground arith) in
    job_sent d s ready (report ∷ []) es w low' ok
