-- ===== src/GatewayPause/Holds.antt =====
-- gateway_pause.py: what a block leaves that LiteLLM did not carry out.
use agent_evals.Prelude.{
  ℕ, ◌+◌, ◌≡◌, refl, ap, ◌∙◌, sym, String, Bool, true, false, Option, none, some, List, [], ◌∷◌,
  keep,
}
use agent_evals.GatewayPause.{
  Run, Gateway, block_key, key_of, pause_row, pause_rows, sweep_global_pause, is_unheld,
}
use agent_evals.GatewayPause.Refine.{pause_rows-update}

row_idle :
    (id : String) (o : Option String) (a : Gateway × ℕ)
    → (pause_row (λ _. false) id o a).0.blocked ≡ a.0.blocked
unfolding block_key
row_idle id none a = refl
row_idle id (some k) a = refl

rows_idle :
    (rows : List Run) (a : Gateway × ℕ) → (pause_rows (λ _. false) rows a).0.blocked ≡ a.0.blocked
unfolding pause_rows
rows_idle [] a = refl
rows_idle (r ∷ rows) a = rows_idle rows _ ∙ row_idle r.run_id (key_of r.litellm_key_id) a

row_count :
    (up down : String → Bool) (id : String) (o : Option String) (a b : Gateway × ℕ)
    → a.1 ≡ b.1
    → (pause_row up id o a).1 ≡ (pause_row down id o b).1
row_count up down id none a b same = same
row_count up down id (some k) a b same = ap (λ n. n + 1) same

rows_count :
    (up down : String → Bool) (rows : List Run) (a b : Gateway × ℕ)
    → a.1 ≡ b.1
    → (pause_rows up rows a).1 ≡ (pause_rows down rows b).1
unfolding pause_rows
rows_count up down [] a b same = same
rows_count up down (r ∷ rows) a b same =
    rows_count up down rows _ _ (row_count up down r.run_id (key_of r.litellm_key_id) a b same)

-- A pausing sweep of which LiteLLM carries out no call blocks no key, and yet marks the same rows and
-- reports the same count of blocked runs as one whose calls are all carried out.
pub sweep_marks_unblocked :
    (s : Gateway)
    → ((sweep_global_pause (λ _. false) s).0.blocked ≡ s.blocked)
      × ((sweep_global_pause (λ _. false) s).0.runs ≡ (sweep_global_pause (λ _. true) s).0.runs)
      × ((sweep_global_pause (λ _. false) s).1 ≡ (sweep_global_pause (λ _. true) s).1)
unfolding sweep_global_pause
sweep_marks_unblocked s =
    let rows = keep is_unheld s.runs in
    (
      rows_idle rows (s, 0),
      pause_rows-update _ rows (s, 0) ∙ sym (pause_rows-update _ rows (s, 0)),
      rows_count _ _ rows (s, 0) (s, 0) refl,
    )
