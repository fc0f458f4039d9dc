-- ===== src/Tracking/Text.antt =====
-- How the text of a tracking annotation is taken apart again.
use mathlib.Core.List.{map, reverse, reverse-cons, reverse-reverse}
use dynamic_annotation_contr.Base.{
  ℕ, ◌≡◌, ◌≢◌, refl, false, List, [], ◌∷◌, ◌++◌, arith, Bytes, All, All-append, split, join,
  trim_left, trim_right, trim, trim_space_left, trim_space_back, trim_space, is_empty,
}
use dynamic_annotation_contr.Validator.Parts.{IsKeyChar}
use dynamic_annotation_contr.Tracking.{format_keys, parse_keys, is_bracket}

-- Text that the tracking annotation can hold: keys as the validator lets them pass.
abbrev pub IsKeyText : Bytes → Type 0
IsKeyText key = (key ≢ []) × All IsKeyChar key

-- A byte that is no bracket.
abbrev Inner : ℕ → Type 0
Inner c = is_bracket c ≡ false

IsKeyChar-Inner : (c : ℕ) → IsKeyChar c → Inner c
unfolding is_bracket
IsKeyChar-Inner c h = ground arith

All-Inner : (s : Bytes) → All IsKeyChar s → All Inner s
All-Inner [] h = tt
All-Inner (c ∷ s) h = (IsKeyChar-Inner c h.0, All-Inner s h.1)

join-Inner : (ks : List Bytes) → All IsKeyText ks → All Inner (join ks b' ')
unfolding join
join-Inner [] h = tt
join-Inner (k ∷ []) h = All-Inner k h.0.1
join-Inner (k ∷ j ∷ ks) h =
    All-append Inner k (b' ' ∷ join (j ∷ ks) b' ') (All-Inner k h.0.1)
      (unfold is_bracket in refl, join-Inner (j ∷ ks) h.1)

trim_right_close : (s : Bytes) → All Inner s → trim_right is_bracket (s ++ b']' ∷ []) ≡ s
unfolding trim_right
trim_right_close [] h = unfold is_bracket in refl
trim_right_close (c ∷ []) h = unfold is_bracket in ground (arith, h.0)
trim_right_close (c ∷ d ∷ s) h = rw (trim_right_close (d ∷ s) h.1) refl

trim-brackets : (s : Bytes) → All Inner s → trim is_bracket (b'[' ∷ (s ++ b']' ∷ [])) ≡ s
unfolding trim
trim-brackets [] h = unfold is_bracket in refl
trim-brackets (c ∷ s) h = ground (arith, trim_right_close (c ∷ s) h, opened)
  where
    opened : trim_left is_bracket (b'[' ∷ (c ∷ s ++ b']' ∷ [])) ≡ c ∷ s ++ b']' ∷ []
    opened = unfold is_bracket in ground (arith, h.0)

split_key_text : (k : Bytes) → All IsKeyChar k → split k b' ' ≡ k ∷ []
unfolding split
split_key_text [] h = refl
split_key_text (c ∷ k) h = ground (arith, split_key_text k h.1)

split-append :
    (k rest : Bytes) → All IsKeyChar k → split (k ++ b' ' ∷ rest) b' ' ≡ k ∷ split rest b' '
unfolding split
split-append [] rest h = refl
split-append (c ∷ k) rest h = ground (arith, split-append k rest h.1)

split-join :
    (k : Bytes) (ks : List Bytes)
    → All IsKeyText (k ∷ ks)
    → split (join (k ∷ ks) b' ') b' ' ≡ k ∷ ks
unfolding join
split-join k [] h = split_key_text k h.0.1
split-join k (j ∷ ks) h =
    rw (split-append k (join (j ∷ ks) b' ') h.0.1) (rw (split-join j ks h.1) refl)

join-ne-nil : (k : Bytes) (ks : List Bytes) → k ≢ [] → join (k ∷ ks) b' ' ≢ []
unfolding join
join-ne-nil [] ks h e = h refl
join-ne-nil (c ∷ k) [] h e = cc
join-ne-nil (c ∷ k) (j ∷ ks) h e = cc

is_empty-false {ℓ} : {A : Type ℓ} (s : List A) → s ≢ [] → is_empty s ≡ false
is_empty-false [] h = absurd (h refl)
is_empty-false (c ∷ s) h = refl

-- Whatever keys a rule has applied, reading their tracking annotation gives them back in order.
pub parse_keys-format_keys : (ks : List Bytes) → All IsKeyText ks → parse_keys (format_keys ks) ≡ ks
unfolding parse_keys format_keys
parse_keys-format_keys [] h = refl
parse_keys-format_keys (k ∷ ks) h =
    rw (trim-brackets (join (k ∷ ks) b' ') (join-Inner (k ∷ ks) h))
      (rw (is_empty-false _ (join-ne-nil k ks h.0.0)) (split-join k ks h))

trim_left_key : (s : Bytes) → All IsKeyChar s → trim_space_left s ≡ s
unfolding trim_space_left
trim_left_key [] h = refl
trim_left_key (a ∷ []) h = ground arith
trim_left_key (a ∷ b ∷ []) h = ground arith
trim_left_key (a ∷ b ∷ c ∷ s) h = ground arith

trim_back_key : (s : Bytes) → All IsKeyChar s → trim_space_back s ≡ s
unfolding trim_space_back
trim_back_key [] h = refl
trim_back_key (a ∷ []) h = ground arith
trim_back_key (a ∷ b ∷ []) h = ground arith
trim_back_key (a ∷ b ∷ c ∷ s) h = ground arith

All-reverse : (s : Bytes) → All IsKeyChar s → All IsKeyChar (reverse s)
All-reverse [] h = tt
All-reverse (c ∷ s) h =
    rw reverse-cons (All-append IsKeyChar (reverse s) (c ∷ []) (All-reverse s h.1) (h.0, tt))

-- There is no white space to trim off such a key.
pub trim_space_key : (s : Bytes) → All IsKeyChar s → trim_space s ≡ s
unfolding trim_space
trim_space_key s h =
    rw (trim_left_key s h, trim_back_key (reverse s) (All-reverse s h)) (reverse-reverse s)

pub map-trim_space : (ks : List Bytes) → All IsKeyText ks → map trim_space ks ≡ ks
map-trim_space [] h = refl
map-trim_space (k ∷ ks) h = rw (trim_space_key k h.0.1, map-trim_space ks h.1) refl
