-- ===== src/Base/Int.antt =====
-- Go's `int` and `int32`: integers over the native numbers. `negsuc n` is -(n + 1).
use Prim.Native.Nat.{ℕ, suc, ◌+◌, ◌-◌, ◌≤◌}
use mathlib.Core.Path.{◌≡◌, refl}
use mathlib.Core.Bool.{Bool, true, false}
use native.Mathlib.Omega.{arith}
use dynamic_annotation_contr.Base.Tests.{ltb, leb, if◌then◌else◌}

pub data ℤ : Type 0 where
  pos : ℕ → ℤ
  negsuc : ℕ → ℤ

abbrev pub pos_part : ℤ → ℕ
pos_part (pos n) = n
pos_part (negsuc n) = 0

abbrev pub neg_part : ℤ → ℕ
neg_part (pos n) = 0
neg_part (negsuc n) = suc n

-- a < b
abbrev pub ltb_ℤ : ℤ → ℤ → Bool
ltb_ℤ (pos a) (pos b) = ltb a b
ltb_ℤ (pos a) (negsuc b) = false
ltb_ℤ (negsuc a) (pos b) = true
ltb_ℤ (negsuc a) (negsuc b) = ltb b a

infix 50 ◌≤ℤ◌
abbrev pub ◌≤ℤ◌ : ℤ → ℤ → Type 0
a ≤ℤ b = pos_part a + neg_part b ≤ pos_part b + neg_part a

pub not_lt→le : (a b : ℤ) → ltb_ℤ a b ≡ false → b ≤ℤ a
not_lt→le (pos a) (pos b) h = ground arith
not_lt→le (pos a) (negsuc b) h = omega arith
not_lt→le (negsuc a) (pos b) h = ground arith
not_lt→le (negsuc a) (negsuc b) h = ground arith

lt→le : (a b : ℤ) → ltb_ℤ a b ≡ true → a ≤ℤ b
lt→le (pos a) (pos b) h = ground arith
lt→le (pos a) (negsuc b) h = ground arith
lt→le (negsuc a) (pos b) h = omega arith
lt→le (negsuc a) (negsuc b) h = ground arith

pub le→not_lt : (a b : ℤ) → b ≤ℤ a → ltb_ℤ a b ≡ false
le→not_lt (pos a) (pos b) h = ground arith
le→not_lt (pos a) (negsuc b) h = refl
le→not_lt (negsuc a) (pos b) h = ground arith
le→not_lt (negsuc a) (negsuc b) h = ground arith

-- a - b, as an integer
abbrev pub sub_ℕ : ℕ → ℕ → ℤ
sub_ℕ a b = if leb b a then pos (a - b) else negsuc (b - a - 1)

infixl 65 ◌+ℤ◌
abbrev pub ◌+ℤ◌ : ℤ → ℤ → ℤ
a +ℤ b = sub_ℕ (pos_part a + pos_part b) (neg_part a + neg_part b)

-- The part above zero grows with the integer.
pub pos_part-le : (a b : ℤ) → a ≤ℤ b → pos_part a ≤ pos_part b
pos_part-le (pos a) (pos b) h = omega arith
pos_part-le (pos a) (negsuc b) h = absurd (omega arith)
pos_part-le (negsuc a) b h = omega arith
