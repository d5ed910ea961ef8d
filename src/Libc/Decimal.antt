-- ===== src/Libc/Decimal.antt =====
-- The decimal digits of a number are read back as that number.
use native.Mathlib.Nat.{pow-suc}
use sys_agent.Prelude.{
  ℕ, zero, suc, ◌+◌, ◌/◌, ◌%◌, ◌^◌, ◌≤◌, ◌<◌, ◌≡◌, some, [], ◌∷◌, Bytes, length, All, ltb, arith,
  Bool-cases, inl, inr,
}
use sys_agent.Prelude.Decimal.{decimal_onto, decimal}
use sys_agent.Libc.{digit_value}
use sys_agent.Libc.Digits.{IsDigit, digits_value}

digit_value_of : (d : ℕ) → d < 10 → digit_value 10 (d + b'0') ≡ some d
unfolding digit_value
digit_value_of d h = ground arith

decimal_onto-value :
    (fuel n : ℕ) (acc : Bytes)
    → n < 10 ^ fuel
    → digits_value 10 0 (decimal_onto fuel n acc) ≡ digits_value 10 n acc
unfolding decimal_onto digits_value
decimal_onto-value zero n acc h = let e : n ≡ 0 = omega arith in rw e
decimal_onto-value (suc fuel) n acc h = ground (
  arith,
  digit_value_of n,
  digit_value_of (n % 10),
  decimal_onto-value fuel (n / 10) ((n % 10 + b'0') ∷ acc) (omega (arith, pow-suc 10 fuel)),
)

decimal_onto-digits :
    (fuel n : ℕ) (acc : Bytes)
    → n < 10 ^ fuel
    → All (IsDigit 10) acc
    → All (IsDigit 10) (decimal_onto fuel n acc)
unfolding decimal_onto
decimal_onto-digits zero n acc h t = t
decimal_onto-digits (suc fuel) n acc h t = elim (Bool-cases (ltb n 10)) [
  | inl small ↦ rw (small, All) ((n, digit_value_of n (ground arith)), t)
  | inr big ↦
      rw (big, All)
        (decimal_onto-digits fuel (n / 10) ((n % 10 + b'0') ∷ acc) (omega (arith, pow-suc 10 fuel))
          ((n % 10, digit_value_of (n % 10) (omega arith)), t))
]

decimal_onto-length :
    (fuel n : ℕ) (acc : Bytes) → length (decimal_onto fuel n acc) ≤ fuel + length acc
unfolding decimal_onto
decimal_onto-length zero n acc = omega arith
decimal_onto-length (suc fuel) n acc =
    ground (arith, decimal_onto-length fuel (n / 10) ((n % 10 + b'0') ∷ acc))

-- Something was put in front.
decimal_onto-cons : (fuel n : ℕ) (acc : Bytes) → length acc < length (decimal_onto (suc fuel) n acc)
unfolding decimal_onto
decimal_onto-cons zero n acc = ground arith
decimal_onto-cons (suc fuel) n acc =
    ground (arith, decimal_onto-cons fuel (n / 10) ((n % 10 + b'0') ∷ acc))

-- What the digits of a 64-bit number are.
pub record IsDecimalOf (n : ℕ) (ds : Bytes) : Type 0 where
  pub digits : All (IsDigit 10) ds
  pub value : digits_value 10 0 ds ≡ n
  pub short : length ds ≤ 20
  pub some_digit : 0 < length ds

pub decimal-IsDecimalOf : (n : ℕ) → n < 2 ^ 64 → IsDecimalOf n (decimal n)
unfolding decimal
decimal-IsDecimalOf n h = record {
  digits = decimal_onto-digits 20 n [] (omega arith) tt;
  value = unfold digits_value in decimal_onto-value 20 n [] (omega arith);
  short = decimal_onto-length 20 n [];
  some_digit = decimal_onto-cons 19 n [];
}
