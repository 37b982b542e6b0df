-- ===== src/Pacer/Admit/Stored.antt =====
-- pacer.py: what is left of a number that the admission script writes with `tostring`.
use agent_evals.Prelude.{ℕ, ◌+◌, ◌*◌, ◌^◌, ◌≤◌, ◌<◌, arith}
use agent_evals.Prelude.Int.{ℤ, pos, negsuc, pos_part, neg_part, ◌≤ℤ◌, -ℤ_parts}
use agent_evals.Pacer.Admit.{nano, as_stored, stored_level}

-- Whole tokens are not rounded away: the unit divides a token.
as_stored-keeps : (h n : ℕ) → h * nano ≤ n → h * nano ≤ as_stored n
unfolding as_stored
as_stored-keeps h n enough = ground arith

pub stored_level-keeps : (h : ℕ) (z : ℤ) → pos (h * nano) ≤ℤ z → pos (h * nano) ≤ℤ stored_level z
stored_level-keeps h (pos n) enough = omega (arith, as_stored-keeps h n (omega arith))
stored_level-keeps h (negsuc n) enough = absurd (omega arith)

-- A number of up to 16 digits is kept to within 50.
pub stored_near : (n : ℕ) → n < 10 ^ 16 → (as_stored n ≤ n + 50) × (n ≤ as_stored n + 50)
unfolding as_stored
stored_near n short = (ground arith, ground arith)

pub stored_level_near :
    (z : ℤ)
    → pos_part z + neg_part z < 10 ^ 16
    → pos_part (stored_level z) + neg_part z ≤ neg_part (stored_level z) + pos_part z + 50
stored_level_near (pos n) short = omega (arith, stored_near n (omega arith))
stored_level_near (negsuc n) short =
    omega (arith, stored_near (n + 1) (omega arith), -ℤ_parts (pos 0) (pos (as_stored (n + 1))))
