-- ===== src/Prelude/Decimal.antt =====
-- Numbers in decimal as texts, and back.
use agent_evals.Prelude.{
  ℕ, zero, suc, ◌+◌, ◌-◌, ◌*◌, ◌/◌, ◌%◌, ◌≤◌, ◌<◌, ◌≡◌, refl, Bool, true, false, ◌&&◌, Option, none,
  some, [], ◌∷◌, ltb, leb, ◌==◌, if◌then◌else◌, Bool-cases, ltb→lt, inl, inr, arith,
}
use agent_evals.Prelude.Text.{Text}

unfoldable pub decimal_loop : ℕ → ℕ → Text → Text
decimal_loop zero n digits = digits
decimal_loop (suc fuel) n digits = elim (ltb n 10) [
  | true ↦ (48 + n) ∷ digits
  | false ↦ decimal_loop fuel (n / 10) ((48 + n % 10) ∷ digits)
]

-- A number in decimal before a text; it has no more digits than its own value and one.
unfoldable pub decimal_before : ℕ → Text → Text
unfolding decimal_loop
decimal_before n rest = decimal_loop (suc n) n rest

-- A number in decimal, `str(n)`.
unfoldable pub decimal : ℕ → Text
unfolding decimal_loop
decimal n = decimal_loop (suc n) n []

-- `f"{x:.3f}"` of a number of thousandths.
unfoldable pub fixed3 : ℕ → Text
unfolding decimal_before
fixed3 q =
    decimal_before (q / 1000) (46 ∷ (48 + q / 100 % 10) ∷ (48 + q / 10 % 10) ∷ (48 + q % 10) ∷ [])

-- A number that is not negative; a finite float is one.
pub record Fraction : Type 0 where
  pub num : ℕ
  pub den : ℕ

-- The integer nearest to a quotient, and the even one of two, as Python rounds.
abbrev pub nearest : ℕ → ℕ → ℕ
nearest n d =
    if ltb (2 * (n % d)) d
    then n / d
    else if ltb d (2 * (n % d))
    then n / d + 1
    else n / d + (n / d) % 2

-- How many thousandths `.3f` writes of a number.
abbrev pub to_thousandths : Fraction → ℕ
to_thousandths x = nearest (x.num * 1000) x.den

abbrev pub of_thousandths : ℕ → Fraction
of_thousandths q = record { num = q; den = 1000 }

abbrev pub is_digit : ℕ → Bool
is_digit c = leb 48 c && leb c 57

-- The number whose further digits are a text, which has nothing else.
unfoldable pub read_digits : ℕ → Text → Option ℕ
read_digits n [] = some n
read_digits n (c ∷ s) =
    let rest = read_digits (n * 10 + (c - 48)) s in if is_digit c then rest else none

-- Three digits after a point, in thousandths.
abbrev pub read_thousandths : ℕ → Text → Option ℕ
read_thousandths n (a ∷ b ∷ c ∷ []) =
    if is_digit a && (is_digit b && is_digit c)
    then some (n * 1000 + (a - 48) * 100 + (b - 48) * 10 + (c - 48))
    else none
read_thousandths n _ = none

unfoldable pub read_fixed : ℕ → Text → Option ℕ
read_fixed n [] = some (n * 1000)
read_fixed n (c ∷ s) =
    let rest = read_fixed (n * 10 + (c - 48)) s in
    if c == 46 then read_thousandths n s else if is_digit c then rest else none

loop_last : (fuel n : ℕ) (rest : Text) → n < 10 → decimal_loop (suc fuel) n rest ≡ (48 + n) ∷ rest
unfolding decimal_loop
loop_last fuel n rest h = ground arith

loop_more :
    (fuel n : ℕ) (rest : Text)
    → 10 ≤ n
    → decimal_loop (suc fuel) n rest ≡ decimal_loop fuel (n / 10) ((48 + n % 10) ∷ rest)
unfolding decimal_loop
loop_more fuel n rest h = ground arith

is_digit-digit : (d : ℕ) → d < 10 → is_digit (48 + d) ≡ true
is_digit-digit d h = ground arith

read_digits-digit :
    (n d : ℕ) (s : Text) → d < 10 → read_digits n ((48 + d) ∷ s) ≡ read_digits (n * 10 + d) s
unfolding read_digits
read_digits-digit n d s h =
    let value : 48 + d - 48 ≡ d = omega arith in rw (is_digit-digit d h, value) refl

read_digits-loop :
    (fuel n : ℕ) (rest : Text)
    → n < fuel
    → read_digits 0 (decimal_loop fuel n rest) ≡ read_digits n rest
unfolding decimal_loop
read_digits-loop zero n rest h = absurd (omega arith)
read_digits-loop (suc fuel) n rest h = elim (Bool-cases (ltb n 10)) [
  | inl e ↦
      let value : 0 * 10 + n ≡ n = omega arith in
      rw (loop_last fuel n rest (ltb→lt n 10 e), read_digits-digit 0 n rest (ltb→lt n 10 e), value)
        refl
  | inr e ↦
      let big : 10 ≤ n = ground arith in
      let value : n / 10 * 10 + n % 10 ≡ n = omega arith in
      rw
        (
          loop_more fuel n rest big,
          read_digits-loop fuel (n / 10) ((48 + n % 10) ∷ rest) (omega arith),
          read_digits-digit (n / 10) (n % 10) rest (omega arith),
          value,
        )
        refl
]

-- Reading a number that was written in decimal gives it back.
pub read_digits-decimal : (n : ℕ) → read_digits 0 (decimal n) ≡ some n
unfolding decimal read_digits
read_digits-decimal n = read_digits-loop (suc n) n [] (omega arith)

read_fixed-digit :
    (n d : ℕ) (s : Text) → d < 10 → read_fixed n ((48 + d) ∷ s) ≡ read_fixed (n * 10 + d) s
unfolding read_fixed
read_fixed-digit n d s h =
    let value : 48 + d - 48 ≡ d = omega arith in
    let no_point : 48 + d == 46 ≡ false = ground arith in
    rw (no_point, is_digit-digit d h, value) refl

read_fixed-loop :
    (fuel n : ℕ) (rest : Text)
    → n < fuel
    → read_fixed 0 (decimal_loop fuel n rest) ≡ read_fixed n rest
unfolding decimal_loop
read_fixed-loop zero n rest h = absurd (omega arith)
read_fixed-loop (suc fuel) n rest h = elim (Bool-cases (ltb n 10)) [
  | inl e ↦
      let value : 0 * 10 + n ≡ n = omega arith in
      rw (loop_last fuel n rest (ltb→lt n 10 e), read_fixed-digit 0 n rest (ltb→lt n 10 e), value)
        refl
  | inr e ↦
      let big : 10 ≤ n = ground arith in
      let value : n / 10 * 10 + n % 10 ≡ n = omega arith in
      rw
        (
          loop_more fuel n rest big,
          read_fixed-loop fuel (n / 10) ((48 + n % 10) ∷ rest) (omega arith),
          read_fixed-digit (n / 10) (n % 10) rest (omega arith),
          value,
        )
        refl
]

-- Reading a number of thousandths that was written with three places gives it back.
pub read_fixed-fixed3 : (q : ℕ) → read_fixed 0 (fixed3 q) ≡ some q
unfolding fixed3 decimal_before read_fixed
read_fixed-fixed3 q =
    let a = is_digit-digit (q / 100 % 10) (omega arith) in
    let b = is_digit-digit (q / 10 % 10) (omega arith) in
    let c = is_digit-digit (q % 10) (omega arith) in
    let value : q / 1000 * 1000
          + (48 + q / 100 % 10 - 48) * 100
          + (48 + q / 10 % 10 - 48) * 10
          + (48 + q % 10 - 48)
        ≡ q =
      omega arith in
    rw (read_fixed-loop (suc (q / 1000)) (q / 1000) _ (omega arith), a, b, c, value) refl

abbrev pub is_empty : Text → Bool
is_empty [] = true
is_empty (c ∷ s) = false

loop_full : (fuel n : ℕ) (rest : Text) → n < fuel → is_empty (decimal_loop fuel n rest) ≡ false
unfolding decimal_loop
loop_full zero n rest h = absurd (omega arith)
loop_full (suc fuel) n rest h = elim (Bool-cases (ltb n 10)) [
  | inl e ↦ rw (loop_last fuel n rest (ltb→lt n 10 e)) refl
  | inr e ↦
      let big : 10 ≤ n = ground arith in
      rw (loop_more fuel n rest big, loop_full fuel (n / 10) ((48 + n % 10) ∷ rest) (omega arith))
        refl
]

pub decimal_full : (n : ℕ) → is_empty (decimal n) ≡ false
unfolding decimal
decimal_full n = loop_full (suc n) n [] (omega arith)

pub fixed3_full : (q : ℕ) → is_empty (fixed3 q) ≡ false
unfolding fixed3 decimal_before
fixed3_full q = loop_full (suc (q / 1000)) (q / 1000) _ (omega arith)
