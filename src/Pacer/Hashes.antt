-- ===== src/Pacer/Hashes.antt =====
-- The Redis hashes and the sorted set of swebench_eval/gateway/pacer.py, by call id.
use agent_evals.Prelude.{
  ℕ, ◌≡◌, refl, Bool, Option, none, some, List, [], ◌∷◌, ◌==◌, if◌then◌else◌, is_some, arith,
}

abbrev pub Dict : Type 0 → Type 0
Dict V = List (ℕ × V)

module _ {V : Type 0} where
  unfoldable pub get : ℕ → Dict V → Option V
  get k [] = none
  get k ((j, v) ∷ d) = if j == k then some v else get k d

  -- `HDEL`, `ZREM`.
  unfoldable pub del : ℕ → Dict V → Dict V
  del k [] = []
  del k ((j, v) ∷ d) = if j == k then del k d else (j, v) ∷ del k d

  -- `HSET`.
  unfoldable pub put : ℕ → V → Dict V → Dict V
  put k v d = (k, v) ∷ del k d

  -- `HEXISTS`.
  abbrev pub has : ℕ → Dict V → Bool
  has k d = is_some (get k d)

  pub get-del : (k j : ℕ) (d : Dict V) → get j (del k d) ≡ (if k == j then none else get j d)
  unfolding get del
  get-del k j [] = ground arith
  get-del k j ((i, v) ∷ d) = ground (arith, get-del k j d)

  pub get-put :
      (k j : ℕ) (v : V) (d : Dict V) → get j (put k v d) ≡ (if k == j then some v else get j d)
  unfolding get put
  get-put k j v d = ground (arith, get-del k j d)

  pub get-nil : (k : ℕ) → get k [] ≡ none
  unfolding get
  get-nil k = refl

pub ruleset dict_laws = (get-nil, get-del, get-put)
