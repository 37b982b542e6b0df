-- ===== src/Prelude/Lists.antt =====
-- Lists measured and indexed by native numbers, under the library's names.
use Prim.Native.Nat.{ℕ, zero, suc, ◌+◌, ◌-◌, ◌≤◌, min}
use mathlib.Core.Path.{◌≡◌, refl, sym, ◌∙◌, ap}
use mathlib.Core.Bool.{Bool, true, false}
use mathlib.Core.Logic.{◌⊎◌, inl, inr}
use mathlib.Core.List.{List, [], ◌∷◌, ◌++◌, Memᴰ}
use mathlib.Core.Option.{Option, none, some}
use native.Mathlib.Omega.{arith}
use agent_evals.Prelude.Tests.{if◌then◌else◌}

module _ {ℓ} {A : Type ℓ} where
  abbrev pub length : List A → ℕ
  length [] = 0
  length (x ∷ xs) = suc (length xs)

  abbrev pub get_elem? : List A → ℕ → Option A
  get_elem? [] i = none
  get_elem? (x ∷ xs) zero = some x
  get_elem? (x ∷ xs) (suc i) = get_elem? xs i

  abbrev pub take : ℕ → List A → List A
  take zero xs = []
  take (suc n) [] = []
  take (suc n) (x ∷ xs) = x ∷ take n xs

  abbrev pub drop : ℕ → List A → List A
  drop zero xs = xs
  drop (suc n) [] = []
  drop (suc n) (x ∷ xs) = drop n xs

  -- `any(...)` over the elements.
  abbrev pub any : (A → Bool) → List A → Bool
  any p [] = false
  any p (x ∷ xs) = if p x then true else any p xs

  -- The elements that pass a test, in order.
  abbrev pub keep : (A → Bool) → List A → List A
  keep p [] = []
  keep p (x ∷ xs) = if p x then x ∷ keep p xs else keep p xs

  pub length-append : (xs ys : List A) → length (xs ++ ys) ≡ length xs + length ys
  length-append [] ys = omega arith
  length-append (x ∷ xs) ys = omega (arith, length-append xs ys)

  pub take-append-drop : (n : ℕ) (xs : List A) → take n xs ++ drop n xs ≡ xs
  take-append-drop zero xs = refl
  take-append-drop (suc n) [] = refl
  take-append-drop (suc n) (x ∷ xs) = ap (◌∷◌ x) (take-append-drop n xs)

  pub length-take : (n : ℕ) (xs : List A) → length (take n xs) ≡ min n (length xs)
  length-take zero xs = omega arith
  length-take (suc n) [] = omega arith
  length-take (suc n) (x ∷ xs) = omega (arith, length-take n xs)

  pub length-drop : (n : ℕ) (xs : List A) → length (drop n xs) ≡ length xs - n
  length-drop zero xs = omega arith
  length-drop (suc n) [] = omega arith
  length-drop (suc n) (x ∷ xs) = omega (arith, length-drop n xs)

  pub drop-drop : (a n b : ℕ) (xs : List A) → a + n ≡ b → drop n (drop a xs) ≡ drop b xs
  drop-drop zero n b xs e = let e' : n ≡ b = omega (arith, e) in ap (λ k. drop k xs) e'
  drop-drop (suc a) n zero xs e = absurd (omega arith)
  drop-drop (suc a) zero (suc b) [] e = refl
  drop-drop (suc a) (suc n) (suc b) [] e = refl
  drop-drop (suc a) n (suc b) (x ∷ xs) e = drop-drop a n b xs (omega arith)

  pub slice-append-drop :
      (a b : ℕ) (xs : List A) → a ≤ b → take (b - a) (drop a xs) ++ drop b xs ≡ drop a xs
  slice-append-drop a b xs h =
      ap (λ ys. take (b - a) (drop a xs) ++ ys) (sym (drop-drop a (b - a) b xs (omega arith)))
      ∙ take-append-drop (b - a) (drop a xs)

  pub Mem-append : (xs ys : List A) (x : A) → Memᴰ x (xs ++ ys) → Memᴰ x xs ⊎ Memᴰ x ys
  Mem-append [] ys x m = inr m
  Mem-append (z ∷ xs) ys x (Memᴰ.head e) = inl (Memᴰ.head e)
  Mem-append (z ∷ xs) ys x (Memᴰ.tail m) = elim (Mem-append xs ys x m) [
    | inl n ↦ inl (Memᴰ.tail n)
    | inr n ↦ inr n
  ]

  pub append-Mem : (xs ys : List A) (x : A) → Memᴰ x xs ⊎ Memᴰ x ys → Memᴰ x (xs ++ ys)
  append-Mem [] ys x (inl m) = elim m [ ]
  append-Mem [] ys x (inr m) = m
  append-Mem (z ∷ xs) ys x (inl (Memᴰ.head e)) = Memᴰ.head e
  append-Mem (z ∷ xs) ys x (inl (Memᴰ.tail m)) = Memᴰ.tail (append-Mem xs ys x (inl m))
  append-Mem (z ∷ xs) ys x (inr m) = Memᴰ.tail (append-Mem xs ys x (inr m))
