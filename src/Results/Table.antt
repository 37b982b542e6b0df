-- ===== src/Results/Table.antt =====
-- The table `instance_results` as results_writer.py reads and writes it: rows by their primary key.
use agent_evals.Prelude.{
  ◌≡◌, refl, Bool, true, ◌&&◌, Option, none, some, List, [], ◌∷◌, ◌==◌, ==_refl, ◌=s◌, =s-eq,
  =s_refl, if◌then◌else◌, Bool-cases, inl, inr, arith,
}
use agent_evals.Results.{Key, Row}

abbrev pub Table : Type 0
Table = List (Key × Row)

unfoldable pub same_key : Key → Key → Bool
same_key a b =
    a.run_id =s b.run_id
    && (a.instance_id =s b.instance_id
        && (a.attempt_number == b.attempt_number && a.phase =s b.phase))

pub same_key_refl : (k : Key) → same_key k k ≡ true
unfolding same_key
same_key_refl k =
    rw (=s_refl k.run_id, =s_refl k.instance_id, ==_refl k.attempt_number, =s_refl k.phase) refl

pub same_key-eq : (a b : Key) → same_key a b ≡ true → a ≡ b
unfolding same_key
same_key-eq a b h =
    let e1 : a.run_id ≡ b.run_id = =s-eq _ _ (ground arith) in
    let e2 : a.instance_id ≡ b.instance_id = =s-eq _ _ (ground arith) in
    let e3 : a.attempt_number ≡ b.attempt_number = ground arith in
    let e4 : a.phase ≡ b.phase = =s-eq _ _ (ground arith) in cc

module _ {V : Type 0} where
  unfoldable pub find : Key → List (Key × V) → Option V
  find k [] = none
  find k ((j, r) ∷ t) = if same_key j k then some r else find k t

  -- The row of a key, replaced where it is there and added where it is not.
  unfoldable pub put_row : Key → V → List (Key × V) → List (Key × V)
  put_row k r [] = (k, r) ∷ []
  put_row k r ((j, q) ∷ t) = if same_key j k then (j, r) ∷ t else (j, q) ∷ put_row k r t

  pub find-put_row :
      (k j : Key) (r : V) (t : List (Key × V))
      → find j (put_row k r t) ≡ (if same_key k j then some r else find j t)
  unfolding find put_row
  find-put_row k j r [] = refl
  find-put_row k j r ((i, q) ∷ t) = elim (Bool-cases (same_key i k)) [
    | inl e ↦ let same = same_key-eq i k e in ground arith
    | inr e ↦ elim (Bool-cases (same_key i j)) [
      | inl f ↦ elim (Bool-cases (same_key k j)) [
        | inl g ↦ let same = same_key-eq i j f in let same' = same_key-eq k j g in absurd cc
        | inr g ↦ rw (e, find, f, g) refl
      ]
      | inr f ↦ rw (e, find, f, find-put_row k j r t) refl
    ]
  ]
