-- ===== src/Prelude/Text.antt =====
-- Text as the list of its code points, with the functions of Go's strings package that the code uses:
-- HasPrefix, Contains, and ToLower on ASCII letters.
use Prim.Native.Char.{code}
use jg_smm.Prelude.{
  ℕ, ◌+◌, ◌≡◌, refl, ap, String, Bool, true, false, ◌&&◌, ◌==◌, leb, if◌then◌else◌, List, [], ◌∷◌,
  ◌++◌, arith,
}

abbrev pub codes : String → List ℕ
codes String.[] = []
codes (String.◌∷◌ c s) = code c ∷ codes s

-- The bytes of a code point in UTF-8, and of a text.
abbrev pub code_size : ℕ → ℕ
code_size c = if leb c 127 then 1 else if leb c 2_047 then 2 else if leb c 65_535 then 3 else 4

unfoldable pub byte_length : List ℕ → ℕ
byte_length [] = 0
byte_length (c ∷ s) = code_size c + byte_length s

unfoldable pub has_prefix : List ℕ → List ℕ → Bool
has_prefix [] s = true
has_prefix (n ∷ ns) [] = false
has_prefix (n ∷ ns) (c ∷ s) = elim (n == c) [ true ↦ has_prefix ns s | false ↦ false ]

-- `contains needle s` is `strings.Contains(s, needle)`.
unfoldable pub contains : List ℕ → List ℕ → Bool
contains needle [] = has_prefix needle []
contains needle (c ∷ s) = elim (has_prefix needle (c ∷ s)) [
  | true ↦ true
  | false ↦ contains needle s
]

abbrev pub lower : ℕ → ℕ
lower c = if leb 65 c && leb c 90 then c + 32 else c

unfoldable pub to_lower : List ℕ → List ℕ
to_lower [] = []
to_lower (c ∷ s) = lower c ∷ to_lower s

pub to_lower-to_lower : (s : List ℕ) → to_lower (to_lower s) ≡ to_lower s
unfolding to_lower
to_lower-to_lower [] = refl
to_lower-to_lower (c ∷ s) = ground (arith, to_lower-to_lower s)

pub to_lower-append : (s t : List ℕ) → to_lower (s ++ t) ≡ to_lower s ++ to_lower t
unfolding to_lower
to_lower-append [] t = refl
to_lower-append (c ∷ s) t = ap (◌∷◌ (lower c)) (to_lower-append s t)

has_prefix-append : (n s t : List ℕ) → has_prefix n s ≡ true → has_prefix n (s ++ t) ≡ true
unfolding has_prefix
has_prefix-append [] s t h = refl
has_prefix-append (n ∷ ns) [] t h = ground arith
has_prefix-append (n ∷ ns) (c ∷ s) t h = ground (arith, has_prefix-append ns s t)

contains-append_left : (n s t : List ℕ) → contains n s ≡ true → contains n (s ++ t) ≡ true
unfolding contains
contains-append_left n [] [] h = h
contains-append_left n [] (c ∷ t) h = ground (arith, has_prefix-append n [] (c ∷ t))
contains-append_left n (c ∷ s) t h =
    ground (arith, has_prefix-append n (c ∷ s) t, contains-append_left n s t)

contains-append_right : (n s t : List ℕ) → contains n t ≡ true → contains n (s ++ t) ≡ true
unfolding contains
contains-append_right n [] t h = h
contains-append_right n (c ∷ s) t h = ground (arith, contains-append_right n s t h)

-- A text contains what a part of it contains.
pub contains-part :
    (n before s after : List ℕ) → contains n s ≡ true → contains n (before ++ (s ++ after)) ≡ true
contains-part n before s after h =
    contains-append_right n before (s ++ after) (contains-append_left n s after h)
