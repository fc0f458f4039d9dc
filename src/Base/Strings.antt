-- ===== src/Base/Strings.antt =====
-- Go strings as lists of bytes, with what the program uses of the package `strings`.
use Prim.Native.Nat.{ℕ, ◌+◌}
use Prim.Native.Char.{code}
use Prim.Native.String.{String}
use mathlib.Core.Path.{◌≡◌, refl}
use mathlib.Core.Logic.{◌↔◌, ◌≢◌, inl, inr}
use mathlib.Core.Bool.{Bool, true, false, ◌&&◌, ◌||◌}
use mathlib.Core.List.{List, [], ◌∷◌, ◌++◌, reverse}
use native.Mathlib.Omega.{arith}
use dynamic_annotation_contr.Base.Tests.{Bool-cases, ◌==◌, leb, if◌then◌else◌}

abbrev pub Bytes : Type 0
Bytes = List ℕ

-- The bytes of an ASCII literal.
abbrev pub codes : String → Bytes
codes String.[] = []
codes (String.◌∷◌ c s) = code c ∷ codes s

-- s == t
unfoldable pub str_eq : Bytes → Bytes → Bool
str_eq [] [] = true
str_eq [] (b ∷ t) = false
str_eq (a ∷ s) [] = false
str_eq (a ∷ s) (b ∷ t) = a == b && str_eq s t

pub str_eq→eq : (s t : Bytes) → str_eq s t ≡ true → s ≡ t
unfolding str_eq
str_eq→eq [] [] h = refl
str_eq→eq [] (b ∷ t) h = ground arith
str_eq→eq (a ∷ s) [] h = ground arith
str_eq→eq (a ∷ s) (b ∷ t) h = ground (arith, str_eq→eq s t)

pub str_eq_self : (s : Bytes) → str_eq s s ≡ true
unfolding str_eq
str_eq_self [] = refl
str_eq_self (a ∷ s) = ground (arith, str_eq_self s)

pub str_eq_iff : (s t : Bytes) → (str_eq s t ≡ true) ↔ (s ≡ t)
str_eq_iff s t = (str_eq→eq s t, λ e. ground (arith, str_eq_self s))

pub str_eq-ne : (s t : Bytes) → s ≢ t → str_eq s t ≡ false
str_eq-ne s t h = elim (Bool-cases (str_eq s t)) [
  | inl e ↦ absurd (h (str_eq→eq s t e))
  | inr e ↦ e
]

-- strings.HasPrefix
unfoldable pub has_prefix : Bytes → Bytes → Bool
has_prefix s [] = true
has_prefix [] (b ∷ p) = false
has_prefix (a ∷ s) (b ∷ p) = a == b && has_prefix s p

pub has_prefix-append : (p s : Bytes) → has_prefix (p ++ s) p ≡ true
unfolding has_prefix
has_prefix-append [] s = refl
has_prefix-append (b ∷ p) s = ground (arith, has_prefix-append p s)

-- What is behind a prefix of the given length (strings.TrimPrefix, once the prefix is there).
pub drop_prefix : Bytes → Bytes → Bytes
drop_prefix s [] = s
drop_prefix [] (b ∷ p) = []
drop_prefix (a ∷ s) (b ∷ p) = drop_prefix s p

pub drop_prefix-append : (p s : Bytes) → drop_prefix (p ++ s) p ≡ s
unfolding drop_prefix
drop_prefix-append [] s = refl
drop_prefix-append (b ∷ p) s = drop_prefix-append p s

pub append-drop_prefix : (s p : Bytes) → has_prefix s p ≡ true → p ++ drop_prefix s p ≡ s
unfolding has_prefix drop_prefix
append-drop_prefix s [] h = refl
append-drop_prefix [] (b ∷ p) h = ground arith
append-drop_prefix (a ∷ s) (b ∷ p) h = ground (arith, append-drop_prefix s p)

-- strings.Contains
unfoldable pub contains : Bytes → Bytes → Bool
unfolding has_prefix
contains [] p = has_prefix [] p
contains (a ∷ s) p = has_prefix (a ∷ s) p || contains s p

-- strings.Split with a separator of one byte
unfoldable pub cons_head : ℕ → List Bytes → List Bytes
cons_head c [] = (c ∷ []) ∷ []
cons_head c (p ∷ ps) = (c ∷ p) ∷ ps

unfoldable pub split : Bytes → ℕ → List Bytes
unfolding cons_head
split [] sep = [] ∷ []
split (c ∷ s) sep = let rest = split s sep in if c == sep then [] ∷ rest else cons_head c rest

-- strings.Join with a separator of one byte
unfoldable pub join : List Bytes → ℕ → Bytes
join [] sep = []
join (p ∷ []) sep = p
join (p ∷ q ∷ ps) sep = p ++ sep ∷ join (q ∷ ps) sep

-- strings.Trim(s, cutset): the bytes that pass the test are taken off both ends.
pub trim_left : (ℕ → Bool) → Bytes → Bytes
trim_left p [] = []
trim_left p (c ∷ s) = let rest = trim_left p s in if p c then rest else c ∷ s

unfoldable pub trim_right : (ℕ → Bool) → Bytes → Bytes
trim_right p [] = []
trim_right p (c ∷ s) = elim (trim_right p s) [ [] ↦ if p c then [] else c ∷ [] | d ∷ r ↦ c ∷ d ∷ r ]

unfoldable pub trim : (ℕ → Bool) → Bytes → Bytes
unfolding trim_left trim_right
trim p s = trim_right p (trim_left p s)

-- unicode.IsSpace below U+0080
is_space : ℕ → Bool
is_space c = (leb 9 c && leb c 13) || c == 32

-- The white space characters of two and of three bytes in UTF-8: U+0085, U+00A0; U+1680,
-- U+2000 to U+200A, U+2028, U+2029, U+202F, U+205F, U+3000.
is_space₂ : ℕ → ℕ → Bool
is_space₂ a b = a == 0xc2 && (b == 0x85 || b == 0xa0)

is_space₃ : ℕ → ℕ → ℕ → Bool
is_space₃ a b c =
    (a == 0xe1 && (b == 0x9a && c == 0x80))
    || ((a == 0xe2
          && (b == 0x80 && ((leb 0x80 c && leb c 0x8a) || (c == 0xa8 || (c == 0xa9 || c == 0xaf)))))
        || ((a == 0xe2 && (b == 0x81 && c == 0x9f)) || (a == 0xe3 && (b == 0x80 && c == 0x80))))

-- The front of strings.TrimSpace.
unfoldable pub trim_space_left : Bytes → Bytes
unfolding is_space is_space₂ is_space₃
trim_space_left [] = []
trim_space_left (a ∷ []) = if is_space a then [] else a ∷ []
trim_space_left (a ∷ b ∷ []) = elim (is_space a) [
  | true ↦ trim_space_left (b ∷ [])
  | false ↦ if is_space₂ a b then [] else a ∷ b ∷ []
]
trim_space_left (a ∷ b ∷ c ∷ s) = elim (is_space a) [
  | true ↦ trim_space_left (b ∷ c ∷ s)
  | false ↦ elim (is_space₂ a b) [
    | true ↦ trim_space_left (c ∷ s)
    | false ↦ elim (is_space₃ a b c) [ true ↦ trim_space_left s | false ↦ a ∷ b ∷ c ∷ s ]
  ]
]

-- The end of strings.TrimSpace, on the text read backwards.
unfoldable pub trim_space_back : Bytes → Bytes
unfolding is_space is_space₂ is_space₃
trim_space_back [] = []
trim_space_back (a ∷ []) = if is_space a then [] else a ∷ []
trim_space_back (a ∷ b ∷ []) = elim (is_space a) [
  | true ↦ trim_space_back (b ∷ [])
  | false ↦ if is_space₂ b a then [] else a ∷ b ∷ []
]
trim_space_back (a ∷ b ∷ c ∷ s) = elim (is_space a) [
  | true ↦ trim_space_back (b ∷ c ∷ s)
  | false ↦ elim (is_space₂ b a) [
    | true ↦ trim_space_back (c ∷ s)
    | false ↦ elim (is_space₃ c b a) [ true ↦ trim_space_back s | false ↦ a ∷ b ∷ c ∷ s ]
  ]
]

-- strings.TrimSpace
unfoldable pub trim_space : Bytes → Bytes
unfolding trim_space_left trim_space_back
trim_space s = reverse (trim_space_back (reverse (trim_space_left s)))

-- strings.ToLower, as far as a comparison with an ASCII text can tell: the capital letters, and
-- U+0130 and U+212A, whose small letters are `i` and `k`. All other letters beyond ASCII have
-- small letters beyond ASCII, and are left alone.
unfoldable pub to_lower : Bytes → Bytes
to_lower [] = []
to_lower (a ∷ []) = (if leb 65 a && leb a 90 then a + 32 else a) ∷ []
to_lower (a ∷ b ∷ []) =
    let rest = to_lower (b ∷ []) in
    if a == 0xc4 && b == 0xb0 then 105 ∷ [] else (if leb 65 a && leb a 90 then a + 32 else a) ∷ rest
to_lower (a ∷ b ∷ c ∷ s) = elim (a == 0xc4 && b == 0xb0) [
  | true ↦ 105 ∷ to_lower (c ∷ s)
  | false ↦ elim (a == 0xe2 && (b == 0x84 && c == 0xaa)) [
    | true ↦ 107 ∷ to_lower s
    | false ↦ (if leb 65 a && leb a 90 then a + 32 else a) ∷ to_lower (b ∷ c ∷ s)
  ]
]
