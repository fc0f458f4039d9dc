-- ===== src/SecurityConfig/Lists.antt =====
-- The lists of the configuration, one entry a line.
use dynamic_annotation_contr.Base.{
  ◌≡◌, refl, ◌==◌, false, List, [], ◌∷◌, ◌++◌, arith, Bytes, codes, All, split, join, is_empty,
  has_prefix, trim_space,
}
use dynamic_annotation_contr.SecurityConfig.{parse_string_list, entry_lines}

-- A line that is one entry: nothing to trim, no comment, no line break.
pub record IsEntry (line : Bytes) : Type 0 where
  pub trimmed : trim_space line ≡ line
  pub not_empty : is_empty line ≡ false
  pub not_comment : has_prefix line (codes "#") ≡ false
  pub one_line : All (λ c. (c == 10) ≡ false) line

split_one : (s : Bytes) → All (λ c. (c == 10) ≡ false) s → split s 10 ≡ s ∷ []
unfolding split
split_one [] h = refl
split_one (c ∷ s) h = ground (arith, split_one s h.1)

split_line :
    (s rest : Bytes)
    → All (λ c. (c == 10) ≡ false) s
    → split (s ++ 10 ∷ rest) 10 ≡ s ∷ split rest 10
unfolding split
split_line [] rest h = refl
split_line (c ∷ s) rest h = ground (arith, split_line s rest h.1)

split_lines :
    (line : Bytes) (lines : List Bytes)
    → All IsEntry (line ∷ lines)
    → split (join (line ∷ lines) 10) 10 ≡ line ∷ lines
unfolding join
split_lines line [] h = split_one line h.0.one_line
split_lines line (next ∷ lines) h =
    rw (split_line line (join (next ∷ lines) 10) h.0.one_line)
      (rw (split_lines next lines h.1) refl)

entry_lines-IsEntry : (lines : List Bytes) → All IsEntry lines → entry_lines lines ≡ lines
unfolding entry_lines
entry_lines-IsEntry [] h = refl
entry_lines-IsEntry (line ∷ lines) h =
    rw (h.0.trimmed, h.0.not_empty, h.0.not_comment) (rw (entry_lines-IsEntry lines h.1) refl)

join-ne :
    (line : Bytes) (lines : List Bytes)
    → is_empty line ≡ false
    → is_empty (join (line ∷ lines) 10) ≡ false
unfolding join
join-ne [] lines h = absurd (ground arith)
join-ne (c ∷ line) [] h = refl
join-ne (c ∷ line) (next ∷ lines) h = refl

-- Entries that are written one a line are read back as they are.
parse_string_list-join :
    (lines : List Bytes) → All IsEntry lines → parse_string_list (join lines 10) ≡ lines
unfolding parse_string_list
parse_string_list-join [] h = unfold join in refl
parse_string_list-join (line ∷ lines) h =
    rw (join-ne line lines h.0.not_empty)
      (rw (split_lines line lines h) (entry_lines-IsEntry (line ∷ lines) h))
