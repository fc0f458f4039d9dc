-- ===== src/Examples/Delays.antt =====
-- Applications of the theorem on the delay of a retry.
use dynamic_annotation_contr.Base.{
  refl, ℕ, zero, suc, ◌+◌, ◌*◌, ◌≤◌, ◌≡◌, true, arith, ℤ, pos, negsuc, pos_part, neg_part, ltb_ℤ,
  sub_ℕ, ◌+ℤ◌, not_lt→le,
}
use dynamic_annotation_contr.Errors.Delays.{
  Floats, DelayConfig, IsRounded, calculate_delay, calculate_delay_lem,
}

abbrev product : ℤ → ℤ → ℤ
product a b =
    sub_ℕ (pos_part a * pos_part b + neg_part a * neg_part b)
      (pos_part a * neg_part b + neg_part a * pos_part b)

abbrev power_of : ℤ → ℕ → ℤ
power_of x zero = pos 1
power_of x (suc n) = product x (power_of x n)

-- floats that hold whole numbers only, so that 0.1 is rounded to 0
abbrev whole : Floats
whole = record {
  Float = ℤ;
  of_int = λ n. n;
  truncated = λ x. x;
  times = product;
  pow = λ x n. power_of x (pos_part n);
  less = ltb_ℤ;
  tenth = pos 0;
}

abbrev doubling : DelayConfig ℤ
doubling = record { base_delay = pos 1; max_delay = pos 10; backoff_factor = pos 2; jitter = true }

no_jitter : (d : ℤ) → pos_part (d +ℤ product (product d (pos 0)) (negsuc 0)) ≤ pos_part d
no_jitter (pos n) = ground arith
no_jitter (negsuc n) = ground arith

whole-IsRounded : IsRounded whole (pos 10)
whole-IsRounded = record {
  exact = refl;
  capped = λ x h. not_lt→le (pos 10) x h;
  shrinks = no_jitter;
}

calculate_delay_lem_example :
    (pos_part (calculate_delay whole doubling (pos 5) 7) ≤ 10)
    × (calculate_delay whole doubling (pos 5) 7 ≡ calculate_delay whole doubling (pos 5) 8)
calculate_delay_lem_example =
    calculate_delay_lem whole doubling (pos 5) 7 8 whole-IsRounded (omega arith)
