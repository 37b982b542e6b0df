-- ===== src/Prelude/Text.antt =====
-- Texts as lists of code points, with the methods of Python's `str` that the components use.
use Prim.Native.Char.{code}
use agent_evals.Prelude.{
  ℕ, ◌+◌, ◌≡◌, refl, String, Bool, true, false, ◌&&◌, ◌||◌, List, [], ◌∷◌, leb, ◌==◌, ==_refl,
  if◌then◌else◌, arith,
}

abbrev pub Text : Type 0
Text = List ℕ

abbrev pub codes : String → Text
codes String.[] = []
codes (String.◌∷◌ c s) = code c ∷ codes s

unfoldable pub eq_text : Text → Text → Bool
eq_text [] [] = true
eq_text [] (b ∷ bs) = false
eq_text (a ∷ as') [] = false
eq_text (a ∷ as') (b ∷ bs) = a == b && eq_text as' bs

pub eq_text_refl : (a : Text) → eq_text a a ≡ true
unfolding eq_text
eq_text_refl [] = refl
eq_text_refl (a ∷ as') = ground (arith, ==_refl a, eq_text_refl as')

pub eq_text-eq : (a b : Text) → eq_text a b ≡ true → a ≡ b
unfolding eq_text
eq_text-eq [] [] h = refl
eq_text-eq [] (b ∷ bs) h = cc
eq_text-eq (a ∷ as') [] h = cc
eq_text-eq (a ∷ as') (b ∷ bs) h = ground (arith, eq_text-eq as' bs)

-- `str.isspace` of a character.
abbrev pub is_space : ℕ → Bool
is_space c =
    (leb 9 c && leb c 13)
    || ((leb 28 c && leb c 32)
        || (c == 0x85
            || (c == 0xa0
                || (c == 0x1680
                    || ((leb 0x2000 c && leb c 0x200a)
                        || (c == 0x2028
                            || (c == 0x2029 || (c == 0x202f || (c == 0x205f || c == 0x3000)))))))))

unfoldable pub lstrip : Text → Text
lstrip [] = []
lstrip (c ∷ s) = if is_space c then lstrip s else c ∷ s

unfoldable pub rstrip : Text → Text
rstrip [] = []
rstrip (c ∷ s) =
    let rest = rstrip s in elim rest [ [] ↦ if is_space c then [] else c ∷ [] | d ∷ t ↦ c ∷ d ∷ t ]

-- `s.strip()`.
unfoldable pub strip : Text → Text
unfolding lstrip rstrip
strip s = rstrip (lstrip s)

-- `s.lower()`, as far as an ASCII text can be found in it: the two other characters that lower to an
-- ASCII letter are U+0130 and U+212A.
unfoldable pub lower : Text → Text
lower [] = []
lower (c ∷ s) =
    let rest = lower s in
    if leb 65 c && leb c 90
    then (c + 32) ∷ rest
    else if c == 0x130
    then 105 ∷ 0x307 ∷ rest
    else if c == 0x212a
    then 107 ∷ rest
    else c ∷ rest

unfoldable pub starts_with : Text → Text → Bool
starts_with s [] = true
starts_with [] (p ∷ ps) = false
starts_with (c ∷ s) (p ∷ ps) = c == p && starts_with s ps

-- `p in s`.
unfoldable pub in_text : Text → Text → Bool
unfolding starts_with
in_text p [] = starts_with [] p
in_text p (c ∷ s) = starts_with (c ∷ s) p || in_text p s

-- `s.endswith(p)`.
unfoldable pub ends_with : Text → Text → Bool
unfolding eq_text
ends_with [] p = eq_text [] p
ends_with (c ∷ s) p = eq_text (c ∷ s) p || ends_with s p
