-- ===== src/Pacer/Queue.antt =====
-- The wait queue `pacer:waitq` of swebench_eval/gateway/pacer.py: a sorted set whose lowest member
-- is the head of the line.
use agent_evals.Prelude.{
  ℕ, ◌+◌, ◌*◌, ◌≡◌, Bool, true, not, ◌&&◌, ◌||◌, Option, none, some, [], ◌∷◌, ltb, ◌==◌,
  if◌then◌else◌, is_some, arith, Option-cases, inl, inr,
}
use agent_evals.Prelude.Int.{ℤ, pos, pos_part, neg_part, sub_ℕ}
use agent_evals.Pacer.Hashes.{Dict, get, put, has, get-put}

-- A score, the fraction `num / den`.
pub record Score : Type 0 where
  pub num : ℤ
  pub den : ℕ

-- num a * den b and num b * den a, both moved to the side where they are positive.
abbrev pub ltb_score : Score → Score → Bool
ltb_score a b =
    ltb (pos_part a.num * b.den + neg_part b.num * a.den)
      (pos_part b.num * a.den + neg_part a.num * b.den)

-- The order of a sorted set: by score, and by member where the scores are equal.
unfoldable pub before : ℕ × Score → ℕ × Score → Bool
before (j, a) (k, b) = ltb_score a b || (not (ltb_score b a) && ltb j k)

-- `ZRANGE q 0 0`.
unfoldable pub first : Dict Score → Option (ℕ × Score)
first [] = none
first (x ∷ q) = elim (first q) [ none ↦ some x | some y ↦ if before y x then some y else some x ]

-- `ZADD q NX`.
unfoldable pub put_new : ℕ → Score → Dict Score → Dict Score
put_new k v q = if is_some (get k q) then q else put k v q

-- now - charge / r_tok, or now where the rate is 0; in microseconds.
unfoldable pub priority : ℕ → ℕ → ℕ → Score
priority now charge r_tok =
    if ltb 0 r_tok
    then record { num = sub_ℕ (now * r_tok) (charge * 1_000_000_000); den = r_tok }
    else record { num = pos now; den = 1 }

pub first-mem : (q : Dict Score) (h : ℕ) (s : Score) → first q ≡ some (h, s) → has h q ≡ true
unfolding first get
first-mem [] h s e = cc
first-mem ((j, v) ∷ q) h s e = elim (Option-cases (first q)) [
  | inl n ↦ ground arith
  | inr ((k, u), f) ↦ ground (arith, first-mem q k u f)
]

pub has-put_new :
    (k j : ℕ) (s : Score) (q : Dict Score)
    → has j (put_new k s q) ≡ (if k == j then true else has j q)
unfolding put_new
has-put_new k j s q = ground (arith, get-put k j s q)
