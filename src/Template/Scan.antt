-- ===== src/Template/Scan.antt =====
-- The regular expressions of engine.go: a match at the front of a text, and the scans over a text.
use dynamic_annotation_contr.Base.{
  ℕ, zero, suc, ◌-◌, ◌==◌, Bool, true, false, not, ◌&&◌, ◌||◌, Option, none, some, List, [], ◌∷◌,
  ◌++◌, if◌then◌else◌, Bytes, is_empty, all, length,
}

-- A match: its whole text, and what its group holds.
pub record Match : Type 0 where
  pub text : Bytes
  pub content : Bytes

-- [^}]* up to the first `}`, and what follows that
unfoldable pub until_brace : Bytes → Option (Bytes × Bytes)
until_brace [] = none
until_brace (c ∷ s) =
    let rest = until_brace s in
    if c == b'}' then some ([], s) else elim rest [ none ↦ none | some (a, b) ↦ some (c ∷ a, b) ]

abbrev dollar_match : Option (Bytes × Bytes) → Option Match
dollar_match none = none
dollar_match (some (content, after)) =
    some (record { text = b'$' ∷ b'{' ∷ (content ++ b'}' ∷ []); content = content })

-- \$\{([^}]*)\} at the front
unfoldable pub match_dollar_or_empty : Bytes → Option Match
match_dollar_or_empty [] = none
match_dollar_or_empty (a ∷ []) = none
match_dollar_or_empty (a ∷ b ∷ s) =
    if a == b'$' && b == b'{' then dollar_match (until_brace s) else none

abbrev brace_match : Option (Bytes × Bytes) → Option Match
brace_match none = none
brace_match (some (content, [])) = none
brace_match (some (content, c ∷ after)) =
    if c == b'}'
    then some (record { text = b'{' ∷ b'{' ∷ (content ++ b'}' ∷ b'}' ∷ []); content = content })
    else none

-- \{\{([^}]*)\}\} at the front
unfoldable pub match_brace_or_empty : Bytes → Option Match
match_brace_or_empty [] = none
match_brace_or_empty (a ∷ []) = none
match_brace_or_empty (a ∷ b ∷ s) =
    if a == b'{' && b == b'{' then brace_match (until_brace s) else none

-- The match, if its content passes the test.
abbrev only_if : (Bytes → Bool) → Option Match → Option Match
only_if p none = none
only_if p (some m) = if p m.content then some m else none

-- \$\{([^}]+)\} and \{\{([^}]+)\}\}
unfoldable pub match_dollar : Bytes → Option Match
match_dollar s = only_if (λ c. not (is_empty c)) (match_dollar_or_empty s)

unfoldable pub match_brace : Bytes → Option Match
match_brace s = only_if (λ c. not (is_empty c)) (match_brace_or_empty s)

-- [\t\n\f\r ]
abbrev is_blank : ℕ → Bool
is_blank c = c == 9 || (c == 10 || (c == 12 || (c == 13 || c == 32)))

-- \$\{\s*\} and \{\{\s*\}\}
unfoldable pub empty_dollar : Bytes → Option Match
empty_dollar s = only_if (all is_blank) (match_dollar_or_empty s)

unfoldable pub empty_brace : Bytes → Option Match
empty_brace s = only_if (all is_blank) (match_brace_or_empty s)

abbrev is_some {ℓ} : {A : Type ℓ} → Option A → Bool
is_some none = false
is_some (some a) = true

-- MatchString
unfoldable pub found : (Bytes → Option Match) → Bytes → Bool
found front [] = is_some (front [])
found front (c ∷ s) = is_some (front (c ∷ s)) || found front s

-- ReplaceAllStringFunc. The number counts the bytes of the last match that are still to be passed.
unfoldable pub replace : (Bytes → Option Match) → (Match → Bytes) → ℕ → Bytes → Bytes
replace front f k [] = []
replace front f (suc k) (c ∷ s) = replace front f k s
replace front f zero (c ∷ s) = elim (front (c ∷ s)) [
  | none ↦ c ∷ replace front f zero s
  | some m ↦ f m ++ replace front f (length m.text - 1) s
]

-- FindAllString
unfoldable pub find_all : (Bytes → Option Match) → ℕ → Bytes → List Match
find_all front k [] = []
find_all front (suc k) (c ∷ s) = find_all front k s
find_all front zero (c ∷ s) = elim (front (c ∷ s)) [
  | none ↦ find_all front zero s
  | some m ↦ m ∷ find_all front (length m.text - 1) s
]

-- \$\{[^}]*$|\{\{[^}]*$
unfoldable pub unmatched : Bytes → Bool
unmatched [] = false
unmatched (a ∷ []) = false
unmatched (a ∷ b ∷ s) =
    (((a == b'$' || a == b'{') && b == b'{') && not (is_some (until_brace s))) || unmatched (b ∷ s)
