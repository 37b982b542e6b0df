-- ===== src/GatewayPause/Races.antt =====
-- gateway_pause.py: requests that land in the middle of a sweep, after its SELECT, which takes no lock.
-- They change rows that the sweep has not come to: a row that it has updated is locked until it commits.
use agent_evals.Prelude.{
  ℕ, ◌≡◌, refl, ap, ◌∙◌, String, Bool, true, false, ◌&&◌, Option, none, some, List, [], ◌∷◌, ◌++◌,
  ◌=s◌, =s_refl, if◌then◌else◌, any, keep, take, drop, Bool-cases, inl, inr, arith,
  take-append-drop,
}
use agent_evals.Lifecycle.{is_run_closed}
use agent_evals.GatewayPause.{
  Run, Gateway, mark, update_where, has_id, find_run, pause_gateway, is_unheld, pause_rows,
  sweep_global_pause, is_held_globally, resume_rows, sweep_global_resume,
}
use agent_evals.GatewayPause.Rows.{has_key, chosen, chosen-keep}
use agent_evals.GatewayPause.Refine.{
  Op, pause_run, apply_op, apply_all, pause_rows-update, resume_rows-update,
}

-- What a sweep has done once it has come to the first `k` of the rows that it read.
abbrev pub half_swept : (String → Bool) → ℕ → Gateway → Gateway × ℕ
half_swept up k s = pause_rows up (take k (keep is_unheld s.runs)) (s, 0)

abbrev go_on : (String → Bool) → List Run → List Op → Gateway × ℕ → Gateway × ℕ
go_on up rest os (s, n) = pause_rows up rest (apply_all up os s, n)

-- `sweep_global_pause`, with operations that land in between.
unfoldable pub sweep_interrupted : (String → Bool) → ℕ → List Op → Gateway → Gateway × ℕ
sweep_interrupted up k os s = go_on up (drop k (keep is_unheld s.runs)) os (half_swept up k s)

-- `sweep_global_resume`, in the same way.
abbrev half_resumed : (String → Bool) → ℕ → Gateway → Gateway
half_resumed up k s = resume_rows up (take k (keep is_held_globally s.runs)) s

unfoldable resume_interrupted : (String → Bool) → ℕ → List Op → Gateway → Gateway
resume_interrupted up k os s =
    resume_rows up (drop k (keep is_held_globally s.runs)) (apply_all up os (half_resumed up k s))

-- The marker of a run's row.
abbrev marker : Option Run → Option (Option String)
marker none = none
marker (some r) = some r.gateway_key_blocked_by

abbrev pub marker_of : String → Gateway → Option (Option String)
marker_of id s = marker (find_run id s.runs)

pause_rows-append :
    (up : String → Bool) (xs ys : List Run) (a : Gateway × ℕ)
    → pause_rows up ys (pause_rows up xs a) ≡ pause_rows up (xs ++ ys) a
unfolding pause_rows
pause_rows-append up [] ys a = refl
pause_rows-append up (x ∷ xs) ys a = pause_rows-append up xs ys _

-- With nothing in between the sweep is the whole one.
sweep_interrupted-alone :
    (up : String → Bool) (k : ℕ) (s : Gateway)
    → sweep_interrupted up k [] s ≡ sweep_global_pause up s
unfolding sweep_interrupted sweep_global_pause apply_all
sweep_interrupted-alone up k s =
    pause_rows-append up (take k rows) (drop k rows) (s, 0)
    ∙ ap (λ rs. pause_rows up rs (s, 0)) (take-append-drop k rows)
  where
    rows : List Run
    rows = keep is_unheld s.runs

abbrev marked : (Run → Bool) → Option String → Option Run → Option Run
marked f m none = none
marked f m (some r) = some (if f r then mark m r else r)

find_run-update :
    (f : Run → Bool) (m : Option String) (id : String) (rows : List Run)
    → find_run id (update_where f m rows) ≡ marked f m (find_run id rows)
unfolding find_run update_where
find_run-update f m id [] = refl
find_run-update f m id (r ∷ rows) =
    let below = find_run-update f m id rows in
    elim (Bool-cases (f r)) [ inl e ↦ ground (arith, below) | inr e ↦ ground (arith, below) ]

find_run-mark :
    (f : Run → Bool) (m : Option String) (id : String) (rows : List Run) (r : Run)
    → find_run id rows ≡ some r
    → f r ≡ true
    → find_run id (update_where f m rows) ≡ some (mark m r)
find_run-mark f m id rows r here holds =
    find_run-update f m id rows
    ∙ ap (marked f m) here
    ∙ ap (λ b. some (if b then mark m r else r)) holds

-- A row as it is found again, whatever its marker is then.
abbrev IsFound : Run → List Run → Type 0
IsFound r rows =
    (q : Run) × ((find_run r.run_id rows ≡ some q)
      × ((q.run_id ≡ r.run_id) × (q.status ≡ r.status)))

update_where-IsFound :
    (f : Run → Bool) (m : Option String) (rows : List Run) (r : Run)
    → find_run r.run_id rows ≡ some r
    → IsFound r (update_where f m rows)
update_where-IsFound f m rows r here =
    let there = find_run-update f m r.run_id rows ∙ ap (marked f m) here in
    elim (Bool-cases (f r)) [
      | inl e ↦ (mark m r, (there ∙ ap (λ b. some (if b then mark m r else r)) e, (refl, refl)))
      | inr e ↦ (r, (there ∙ ap (λ b. some (if b then mark m r else r)) e, (refl, refl)))
    ]

some_run_eq : (q r : Run) → some q ≡ some r → q ≡ r
some_run_eq q r h = cc

found-chosen :
    (c : Run → Bool) (id : String) (rows : List Run) (r : Run)
    → find_run id rows ≡ some r
    → c r ≡ true
    → chosen c rows r ≡ true
unfolding find_run
found-chosen c id [] r here holds = absurd (cc)
found-chosen c id (q ∷ rows) r here holds = elim (Bool-cases (has_id id q)) [
  | inl e ↦
      let same : q ≡ r = some_run_eq q r (rw e at here) in
      let self = =s_refl r.run_id in rw (same, holds, self) refl
  | inr e ↦ let below = found-chosen c id rows r (rw e at here) holds in ground arith
]

-- A pausing sweep's mark is what a resuming sweep takes for its own.
resume-marker :
    (up : String → Bool) (u : Gateway) (id : String) (r : Run)
    → find_run id u.runs ≡ some r
    → is_held_globally r ≡ true
    → marker_of id (sweep_global_resume up u).0 ≡ some none
unfolding sweep_global_resume
resume-marker up u id r here global =
    let rows = keep is_held_globally u.runs in
    let own : chosen (λ q. true) rows r ≡ true =
      chosen-keep is_held_globally (λ q. true) u.runs r
      ∙ found-chosen (λ q. is_held_globally q && true) id u.runs r here (ground arith) in
    ap (λ rs. marker (find_run id rs)) (resume_rows-update up rows u)
    ∙ ap marker (find_run-mark (chosen (λ q. true) rows) none id u.runs r here own)

pause_run-found :
    (up : String → Bool) (s : Gateway) (id : String) (r : Run)
    → find_run id s.runs ≡ some r
    → r.run_id ≡ id
    → is_run_closed r.status ≡ false
    → find_run id (apply_op up (pause_run id) s).runs ≡ some (mark (some "operator") r)
unfolding apply_op pause_gateway
pause_run-found up s id r here own opened =
    let holds : has_id id r ≡ true = rw own (=s_refl id) in
    rw (here, opened) (find_run-mark (has_id id) (some "operator") id s.runs r here holds)

global_mark : (r : Run) → is_held_globally (mark (some "global") r) ≡ true
global_mark r = =s_refl "global"

-- An operator's request for an open run is lost when it lands in the middle of a pausing sweep that read the
-- run's row, with a key, and has not come to it: the request is carried out and the row reads "operator", but
-- the sweep's update, which does not test the marker again, makes it "global", and the next resuming sweep
-- takes the block away.
pub pause_run-lost :
    (up : String → Bool) (k : ℕ) (s : Gateway) (r : Run)
    → find_run r.run_id s.runs ≡ some r
    → is_run_closed r.status ≡ false
    → chosen has_key (drop k (keep is_unheld s.runs)) r ≡ true
    → let swept = (sweep_interrupted up k (pause_run r.run_id ∷ []) s).0 in
      (marker_of r.run_id (apply_op up (pause_run r.run_id) (half_swept up k s).0)
        ≡ some (some "operator"))
      × ((marker_of r.run_id swept ≡ some (some "global"))
          × (marker_of r.run_id (sweep_global_resume up swept).0 ≡ some none))
unfolding sweep_interrupted apply_all
pause_run-lost up k s r here opened to_come =
    let rest = drop k (keep is_unheld s.runs) in
    let mid = (half_swept up k s).0 in
    let rows = pause_rows-update up (take k (keep is_unheld s.runs)) (s, 0) in
    let (q, (there, (own, status))) =
      update_where-IsFound (chosen has_key (take k (keep is_unheld s.runs))) (some "global") s.runs
        r here in
    let asked =
      pause_run-found up mid r.run_id q (ap (find_run r.run_id) rows ∙ there) own
        (ap is_run_closed status ∙ opened) in
    let picked : chosen has_key rest q ≡ true =
      ap (λ id. any (λ p. has_key p && (id =s p.run_id)) rest) own ∙ to_come in
    let t = apply_op up (pause_run r.run_id) mid in
    let last =
      ap (find_run r.run_id) (pause_rows-update up rest (t, (half_swept up k s).1))
      ∙ find_run-mark (chosen has_key rest) (some "global") r.run_id t.runs
          (mark (some "operator") q) asked picked in
    (
      ap marker asked,
      (ap marker last, resume-marker up _ r.run_id _ last (global_mark (mark (some "operator") q))),
    )

-- The same request is lost in the middle of a resuming sweep that read the run's row and has not come to it:
-- the row reads "operator" after the request, and no one holds it after the sweep.
pause_run-undone :
    (up : String → Bool) (k : ℕ) (s : Gateway) (r : Run)
    → find_run r.run_id s.runs ≡ some r
    → is_run_closed r.status ≡ false
    → chosen (λ q. true) (drop k (keep is_held_globally s.runs)) r ≡ true
    → (marker_of r.run_id (apply_op up (pause_run r.run_id) (half_resumed up k s))
        ≡ some (some "operator"))
      × (marker_of r.run_id (resume_interrupted up k (pause_run r.run_id ∷ []) s) ≡ some none)
unfolding resume_interrupted apply_all
pause_run-undone up k s r here opened to_come =
    let read = keep is_held_globally s.runs in
    let mid = half_resumed up k s in
    let rows = resume_rows-update up (take k read) s in
    let (q, (there, (own, status))) =
      update_where-IsFound (chosen (λ q. true) (take k read)) none s.runs r here in
    let asked =
      pause_run-found up mid r.run_id q (ap (find_run r.run_id) rows ∙ there) own
        (ap is_run_closed status ∙ opened) in
    let picked : chosen (λ q. true) (drop k read) q ≡ true =
      ap (λ id. any (λ p. true && (id =s p.run_id)) (drop k read)) own ∙ to_come in
    let t = apply_op up (pause_run r.run_id) mid in
    (
      ap marker asked,
      ap (λ rs. marker (find_run r.run_id rs)) (resume_rows-update up (drop k read) t)
          ∙ ap marker (
              find_run-mark (chosen (λ q. true) (drop k read)) none r.run_id t.runs
                (mark (some "operator") q) asked picked),
    )
