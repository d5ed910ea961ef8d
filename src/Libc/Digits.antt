-- ===== src/Libc/Digits.antt =====
-- `strtoull` on texts of digits.
use sys_agent.Prelude.{
  ℕ, ◌+◌, ◌-◌, ◌*◌, ◌%◌, ◌≡◌, ◌≢◌, refl, false, none, some, [], ◌∷◌, Bytes, All, ltb, if◌then◌else◌,
  arith,
}
use sys_agent.Prelude.Word.{u64_mod, u64_max}
use sys_agent.Libc.{is_space, digit_value, read_digits, skip_prefix, strtoull, strtoull_whole}

-- A byte is a digit in the base.
abbrev pub IsDigit : ℕ → ℕ → Type 0
IsDigit base c = (d : ℕ) × (digit_value base c ≡ some d)

-- The number that digits stand for, behind a value read so far.
unfoldable pub digits_value : ℕ → ℕ → Bytes → ℕ
digits_value base value [] = value
digits_value base value (c ∷ cs) = elim (digit_value base c) [
  | none ↦ value
  | some d ↦ digits_value base (value * base + d) cs
]

read_digits-All :
    (base value : ℕ) (ds : Bytes)
    → All (IsDigit base) ds
    → read_digits base value ds ≡ (digits_value base value ds, [])
unfolding read_digits digits_value
read_digits-All base value [] h = refl
read_digits-All base value (c ∷ cs) ((d, e), t) =
    rw (e, read_digits, digits_value) (read_digits-All base (value * base + d) cs t)

-- A digit is no space, no sign, and no `x`.
pub digit_is_plain :
    (base c d : ℕ)
    → digit_value base c ≡ some d
    → (is_space c ≡ false) × (c ≢ b'-') × (c ≢ b'+') × (c ≢ b'x') × (c ≢ b'X')
unfolding digit_value is_space
digit_is_plain base c d h = ground arith

skip_prefix_none : (base : ℕ) (ds : Bytes) → All (IsDigit base) ds → skip_prefix base ds ≡ ds
unfolding skip_prefix
skip_prefix_none base [] h = refl
skip_prefix_none base (c ∷ []) h = refl
skip_prefix_none base (c ∷ x ∷ cs) (p, ((d, e), t)) = ground (arith, digit_is_plain base x d e)

-- A text of digits, behind nothing else: its value, unless that needs more than 64 bits.
pub strtoull_whole-digits :
    (base c : ℕ) (ds : Bytes)
    → All (IsDigit base) (c ∷ ds)
    → strtoull_whole (c ∷ ds) base ≡ (
        if ltb u64_max (digits_value base 0 (c ∷ ds))
        then none
        else some (digits_value base 0 (c ∷ ds)))
unfolding strtoull_whole strtoull
strtoull_whole-digits base c ds ((d, e), t) = ground (
  arith,
  digit_is_plain base c d e,
  skip_prefix_none base (c ∷ ds) ((d, e), t),
  read_digits-All base 0 (c ∷ ds) ((d, e), t),
)

-- The same behind a minus: the number is negated in 64 bits.
pub strtoull_whole_minus :
    (base c : ℕ) (ds : Bytes)
    → All (IsDigit base) (c ∷ ds)
    → strtoull_whole (b'-' ∷ c ∷ ds) base ≡ (
        if ltb u64_max (digits_value base 0 (c ∷ ds))
        then none
        else some ((u64_mod - digits_value base 0 (c ∷ ds)) % u64_mod))
unfolding strtoull_whole strtoull
strtoull_whole_minus base c ds ((d, e), t) = ground (
  arith,
  digit_is_plain base c d e,
  skip_prefix_none base (c ∷ ds) ((d, e), t),
  read_digits-All base 0 (c ∷ ds) ((d, e), t),
)
