-- ===== src/Prelude/Text.antt =====
-- Text as a list of code points, where the program walks it; and the parts of Python's `str`
-- methods that the program uses: `strip`, `replace` of one character, slicing.
use etl_agent.Prelude.{◌∙◌, ap, inr, Bool-cases, inl, ◌⊎◌, ◌++◌, ltb}
use Prim.Native.Char.{code}
use Prim.Native.String.{String}
use Prim.Native.Nat.{ℕ, ◌+◌}
use mathlib.Core.Path.{◌≡◌, refl}
use native.Mathlib.Omega.{arith}
use mathlib.Core.Bool.{Bool, true, false, ◌&&◌, ◌||◌}
use mathlib.Core.List.{reverse-reverse, reverse-append, List, [], ◌∷◌, reverse}
use etl_agent.Prelude.Tests.{◌==◌, leb, if◌then◌else◌}

abbrev pub Text : Type 0
Text = List ℕ

-- the code points of a literal
abbrev pub codes : String → Text
codes String.[] = []
codes (String.◌∷◌ c s) = code c ∷ codes s

abbrev pub text_eq : Text → Text → Bool
text_eq [] [] = true
text_eq (a ∷ s) (b ∷ t) = (a == b) && text_eq s t
text_eq _ _ = false

-- `str.isspace` of one character
unfoldable pub is_space : ℕ → Bool
is_space c =
    (leb 9 c && leb c 13)
    || (leb 28 c && leb c 32)
    || (c == 0x85)
    || (c == 0xa0)
    || (c == 0x1680)
    || (leb 0x2000 c && leb c 0x200a)
    || (c == 0x2028)
    || (c == 0x2029)
    || (c == 0x202f)
    || (c == 0x205f)
    || (c == 0x3000)

unfoldable pub lstrip : Text → Text
unfolding is_space
lstrip [] = []
lstrip (c ∷ s) = if is_space c then lstrip s else c ∷ s

unfoldable pub strip : Text → Text
unfolding lstrip
strip s = reverse (lstrip (reverse (lstrip s)))

-- Unicode's White_Space, which Pydantic's `str_strip_whitespace` removes at both ends
unfoldable pub is_white_space : ℕ → Bool
unfolding is_space
is_white_space c = is_space c && (ltb c 28 || ltb 31 c)

unfoldable pub ltrim : Text → Text
unfolding is_white_space
ltrim [] = []
ltrim (c ∷ s) = if is_white_space c then ltrim s else c ∷ s

unfoldable pub trim : Text → Text
unfolding ltrim
trim s = reverse (ltrim (reverse (ltrim s)))

-- `s.replace(a, b)` for single characters
unfoldable pub replace_char : ℕ → ℕ → Text → Text
replace_char a b [] = []
replace_char a b (c ∷ s) = (if c == a then b else c) ∷ replace_char a b s

-- `str.lower`, as far as it can produce a letter of the ASCII range or change the length: the
-- capital letters, KELVIN SIGN, and the one character whose lower case is two characters long.
unfoldable pub lower : Text → Text
lower [] = []
lower (c ∷ s) =
    let rest = lower s in
    if leb b'A' c && leb c b'Z'
    then (c + 32) ∷ rest
    else if c == 0x212a
    then b'k' ∷ rest
    else if c == 0x130
    then 0x69 ∷ 0x307 ∷ rest
    else c ∷ rest

pub text_eq_refl : (t : Text) → text_eq t t ≡ true
text_eq_refl [] = refl
text_eq_refl (c ∷ t) = ground (arith, text_eq_refl t)

pub text_eq_sym : (s t : Text) → text_eq s t ≡ text_eq t s
text_eq_sym [] [] = refl
text_eq_sym [] (b ∷ t) = refl
text_eq_sym (a ∷ s) [] = refl
text_eq_sym (a ∷ s) (b ∷ t) = ground (arith, text_eq_sym s t)

pub text_eq-eq : (s t : Text) → text_eq s t ≡ true → s ≡ t
text_eq-eq [] [] h = refl
text_eq-eq [] (b ∷ t) h = absurd (ground arith)
text_eq-eq (a ∷ s) [] h = absurd (ground arith)
text_eq-eq (a ∷ s) (b ∷ t) h = ground (arith, text_eq-eq s t)

ltrim-append :
    (c : ℕ) (s : Text) → is_white_space c ≡ false → ltrim (s ++ c ∷ []) ≡ ltrim s ++ c ∷ []
unfolding ltrim
ltrim-append c [] solid = ground (arith, solid)
ltrim-append c (d ∷ s) solid = ground (arith, ltrim-append c s solid)

-- what is left begins with no white space
ltrim-cases :
    (s : Text)
    → (ltrim s ≡ []) ⊎ ((c : ℕ) × (t : Text) × (ltrim s ≡ c ∷ t) × (is_white_space c ≡ false))
unfolding ltrim
ltrim-cases [] = inl refl
ltrim-cases (c ∷ s) = elim (Bool-cases (is_white_space c)) [
  | inl white ↦ rw white (ltrim-cases s)
  | inr solid ↦ rw solid (inr (c, s, refl, solid))
]

ltrim-ltrim : (s : Text) → ltrim (ltrim s) ≡ ltrim s
unfolding ltrim
ltrim-ltrim [] = refl
ltrim-ltrim (c ∷ s) = ground (arith, ltrim-ltrim s)

-- the right end trimmed keeps a first character that is no white space
trim_right-cons :
    (c : ℕ) (t : Text)
    → is_white_space c ≡ false
    → reverse (ltrim (reverse (c ∷ t))) ≡ c ∷ reverse (ltrim (reverse t))
trim_right-cons c t solid =
    ap (λ s. reverse (ltrim s)) (reverse-append (c ∷ []) t)
    ∙ ap reverse (ltrim-append c (reverse t) solid)
    ∙ reverse-append (ltrim (reverse t)) (c ∷ [])

ltrim-trim : (s : Text) → ltrim (trim s) ≡ trim s
unfolding ltrim trim
ltrim-trim s = elim (ltrim-cases s) [
  | inl blank ↦ rw (trim, blank) refl
  | inr (c, t, left, solid) ↦
      let same : trim s ≡ c ∷ reverse (ltrim (reverse t)) =
        ap (λ u. reverse (ltrim (reverse u))) left ∙ trim_right-cons c t solid in
      rw same (ground (arith, solid))
]

pub trim-trim : (s : Text) → trim (trim s) ≡ trim s
unfolding trim
trim-trim s =
    ap (λ u. reverse (ltrim (reverse u))) (ltrim-trim s)
    ∙ ap (λ u. reverse (ltrim u)) (reverse-reverse (ltrim (reverse (ltrim s))))
    ∙ ap reverse (ltrim-ltrim (reverse (ltrim s)))
