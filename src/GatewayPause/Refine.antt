-- ===== src/GatewayPause/Refine.antt =====
-- The operations of gateway_pause.py as a change of each row by itself, whatever the other rows are.
use agent_evals.Prelude.{
  ℕ, ◌≡◌, refl, ap, ◌∙◌, sym, String, Bool, true, false, not, ◌&&◌, Option, none, some, List, [],
  ◌∷◌, ◌=s◌, if◌then◌else◌, any, keep, is_some, Bool-cases, inl, inr, arith, map,
}
use agent_evals.Lifecycle.{is_run_closed}
use agent_evals.GatewayPause.{
  Run, Gateway, key_of, mark, update_where, has_id, find_run, Reply, changed, on_open_run,
  pause_gateway, resume_gateway, is_unheld, pause_row, pause_rows, sweep_global_pause, is_global,
  is_held_globally, resume_rows, sweep_global_resume, recheck_key, block_if_globally_paused,
}
use agent_evals.GatewayPause.Rows.{
  IsUnique, has_key, chosen, chosen-keep, update_eq, update-chosen, update-update, update_nothing,
  found, update-find_run, update-map,
}

pub data Op : Type 0 where
  pause_all resume_all : Op
  pause_run resume_run : String → Op
  recheck : Bool → String → Option String → Op

abbrev reached : Gateway → Reply → Gateway
reached s (changed t) = t
reached s _ = s

-- An operation; one that is refused changes nothing.
unfoldable pub apply_op : (String → Bool) → Op → Gateway → Gateway
apply_op up pause_all s = (sweep_global_pause up s).0
apply_op up resume_all s = (sweep_global_resume up s).0
apply_op up (pause_run id) s = reached s (pause_gateway up id s)
apply_op up (resume_run id) s = reached s (resume_gateway up id s)
apply_op up (recheck paused id key) s = (block_if_globally_paused up paused id key s).0

unfoldable pub apply_all : (String → Bool) → List Op → Gateway → Gateway
apply_all up [] s = s
apply_all up (o ∷ os) s = apply_all up os (apply_op up o s)

abbrev in_flight : List String
in_flight = "provisioning" ∷ "seeding" ∷ "dispatching" ∷ "running" ∷ []

abbrev is_holder : String → Option String → Bool
is_holder by none = false
is_holder by (some a) = a =s by

-- What an operation does to one row: the most specific holder wins.
unfoldable pub held : Op → Run → Run
held pause_all r =
    if any (λ s. r.status =s s) in_flight && not (is_some r.gateway_key_blocked_by) && has_key r
    then mark (some "global") r
    else r
held resume_all r = if is_holder "global" r.gateway_key_blocked_by then mark none r else r
held (pause_run id) r =
    if has_id id r && not (is_run_closed r.status) then mark (some "operator") r else r
held (resume_run id) r = if has_id id r && not (is_run_closed r.status) then mark none r else r
held (recheck paused id key) r =
    if has_id id r && (not (is_some r.gateway_key_blocked_by) && (is_some (key_of key) && paused))
    then mark (some "global") r
    else r

unfoldable pub held_all : List Op → Run → Run
held_all [] r = r
held_all (o ∷ os) r = held_all os (held o r)

pause_row-update :
    (up : String → Bool) (id : String) (o : Option String) (a : Gateway × ℕ)
    → (pause_row up id o a).0.runs
      ≡ update_where (λ q. is_some o && has_id id q) (some "global") a.0.runs
pause_row-update up id none a = sym (update_nothing (some "global") a.0.runs)
pause_row-update up id (some k) a = refl

pub pause_rows-update :
    (up : String → Bool) (rows : List Run) (a : Gateway × ℕ)
    → (pause_rows up rows a).0.runs ≡ update_where (chosen has_key rows) (some "global") a.0.runs
unfolding pause_rows
pause_rows-update up [] a = sym (update_nothing (some "global") a.0.runs)
pause_rows-update up (r ∷ rows) a =
    pause_rows-update up rows _
    ∙ ap (update_where (chosen has_key rows) (some "global"))
        (pause_row-update up r.run_id (key_of r.litellm_key_id) a)
    ∙ update-update (chosen has_key rows) _ (some "global") a.0.runs (λ q. refl)

pub resume_rows-update :
    (up : String → Bool) (rows : List Run) (s : Gateway)
    → (resume_rows up rows s).runs ≡ update_where (chosen (λ q. true) rows) none s.runs
unfolding resume_rows
resume_rows-update up [] s = sym (update_nothing none s.runs)
resume_rows-update up (r ∷ rows) s =
    resume_rows-update up rows _
    ∙ update-update (chosen (λ q. true) rows) (has_id r.run_id) none s.runs (λ q. refl)

module _ (up : String → Bool) (s : Gateway) (unique : IsUnique s.runs) where
  pause_all_lem :
      (sweep_global_pause up s).0.runs
      ≡ update_where (λ q. is_unheld q && has_key q) (some "global") s.runs
  unfolding sweep_global_pause
  pause_all_lem =
      pause_rows-update up (keep is_unheld s.runs) (s, 0)
      ∙ update_eq _ _ _ s.runs (chosen-keep is_unheld has_key s.runs)
      ∙ update-chosen (λ q. is_unheld q && has_key q) _ s.runs unique

  resume_all_lem :
      (sweep_global_resume up s).0.runs ≡ update_where (λ q. is_held_globally q && true) none s.runs
  unfolding sweep_global_resume
  resume_all_lem =
      resume_rows-update up (keep is_held_globally s.runs) s
      ∙ update_eq _ _ _ s.runs (chosen-keep is_held_globally (λ q. true) s.runs)
      ∙ update-chosen (λ q. is_held_globally q && true) _ s.runs unique

open_run-update :
    (o : Option Run) (f : Run → Gateway) (s : Gateway) (rows : List Run)
    → ((r : Run) → (f r).runs ≡ rows)
    → (reached s (on_open_run o f)).runs
      ≡ (if found (λ r. not (is_run_closed r.status)) o then rows else s.runs)
open_run-update none f s rows same = refl
open_run-update (some r) f s rows same = elim (Bool-cases (is_run_closed r.status)) [
  | inl e ↦ rw e refl
  | inr e ↦ rw (e, same r) refl
]

recheck-update :
    (up : String → Bool) (paused : Bool) (id : String) (key : Option String) (s : Gateway)
    → (recheck_key up paused id key s).0.runs
      ≡ update_where
          (λ r. has_id id r && (not (is_some r.gateway_key_blocked_by) && (is_some key && paused)))
          (some "global")
          s.runs
recheck-update up paused id none s =
    sym (
      update_eq _ (λ r. false) _ s.runs (λ r. ground arith) ∙ update_nothing (some "global") s.runs)
recheck-update up false id (some k) s =
    sym (
      update_eq _ (λ r. false) _ s.runs (λ r. ground arith) ∙ update_nothing (some "global") s.runs)
recheck-update up true id (some k) s =
    update_eq (λ r. has_id id r && not (is_some r.gateway_key_blocked_by)) _ _ s.runs
      (λ r. ground arith)

is_global-holder : (o : Option String) → (is_global o && true) ≡ is_holder "global" o
is_global-holder none = refl
is_global-holder (some by) = ground arith

apply_op-runs :
    (up : String → Bool) (o : Op) (s : Gateway)
    → IsUnique s.runs
    → (apply_op up o s).runs ≡ map (held o) s.runs
unfolding apply_op held pause_gateway resume_gateway block_if_globally_paused
apply_op-runs up pause_all s unique = pause_all_lem up s unique ∙ update-map _ _ s.runs
apply_op-runs up resume_all s unique =
    resume_all_lem up s unique
    ∙ update_eq _ _ none s.runs (λ r. is_global-holder r.gateway_key_blocked_by)
    ∙ update-map _ _ s.runs
apply_op-runs up (pause_run id) s unique =
    open_run-update (find_run id s.runs) _ s _ (λ r. refl)
    ∙ sym (update-find_run id (λ r. not (is_run_closed r.status)) _ s.runs unique)
    ∙ update-map _ _ s.runs
apply_op-runs up (resume_run id) s unique =
    open_run-update (find_run id s.runs) _ s _ (λ r. refl)
    ∙ sym (update-find_run id (λ r. not (is_run_closed r.status)) _ s.runs unique)
    ∙ update-map _ _ s.runs
apply_op-runs up (recheck paused id key) s unique =
    recheck-update up paused id (key_of key) s ∙ update-map _ _ s.runs

mark_if-run_id :
    (b : Bool) (m : Option String) (r : Run) → (if b then mark m r else r).run_id ≡ r.run_id
mark_if-run_id true m r = refl
mark_if-run_id false m r = refl

pub held-run_id : (o : Op) (r : Run) → (held o r).run_id ≡ r.run_id
unfolding held
held-run_id pause_all r = mark_if-run_id _ _ r
held-run_id resume_all r = mark_if-run_id _ _ r
held-run_id (pause_run id) r = mark_if-run_id _ _ r
held-run_id (resume_run id) r = mark_if-run_id _ _ r
held-run_id (recheck paused id key) r = mark_if-run_id _ _ r

any-held :
    (o : Op) (id : String) (rows : List Run)
    → any (has_id id) (map (held o) rows) ≡ any (has_id id) rows
any-held o id [] = refl
any-held o id (r ∷ rows) = rw (held-run_id o r, any-held o id rows) refl

held-IsUnique : (o : Op) (rows : List Run) → IsUnique rows → IsUnique (map (held o) rows)
unfolding IsUnique
held-IsUnique o [] unique = unique
held-IsUnique o (r ∷ rows) (fresh, unique) =
    (rw (held-run_id o r, any-held o r.run_id rows) fresh, held-IsUnique o rows unique)

map-held :
    (o : Op) (os : List Op) (rows : List Run)
    → map (held_all os) (map (held o) rows) ≡ map (held_all (o ∷ os)) rows
unfolding held_all
map-held o os [] = refl
map-held o os (r ∷ rows) = rw (map-held o os rows) refl

map-none : (rows : List Run) → rows ≡ map (held_all []) rows
unfolding held_all
map-none [] = refl
map-none (r ∷ rows) = ap (◌∷◌ r) (map-none rows)

-- Whatever sweeps, requests and rechecks follow one another, each run as a whole, and whichever calls LiteLLM
-- carries out, each
-- row of a table with unique ids ends as the table of precedence makes of it alone, the other rows ignored.
pub apply_all-held :
    (up : String → Bool) (os : List Op) (s : Gateway)
    → IsUnique s.runs
    → (apply_all up os s).runs ≡ map (held_all os) s.runs
unfolding apply_all
apply_all-held up [] s unique = map-none s.runs
apply_all-held up (o ∷ os) s unique =
    let first = apply_op-runs up o s unique in
    let still : IsUnique (apply_op up o s).runs = rw first (held-IsUnique o s.runs unique) in
    apply_all-held up os (apply_op up o s) still
    ∙ ap (map (held_all os)) first
    ∙ map-held o os s.runs
