-- ===== src/Trace/Spec/Unsigned.antt =====
-- What `parseUnsigned` reads: decimal and hexadecimal digits, and what else passes.
use sys_agent.Prelude.{
  ℕ, ◌-◌, ◌%◌, ◌≤◌, ◌≡◌, refl, true, ◌||◌, none, some, [], ◌∷◌, Bytes, All, ltb, ◌==◌,
  if◌then◌else◌, arith,
}
use sys_agent.Prelude.Word.{u64_mod, u64_max}
use sys_agent.Libc.{strtoull_whole, split_base, is_empty}
use sys_agent.Libc.Digits.{
  IsDigit, digits_value, digit_is_plain, strtoull_whole-digits, strtoull_whole_minus,
}
use sys_agent.Trace.Spec.{parse_unsigned}

split_base-decimal : (ds : Bytes) → All (IsDigit 10) ds → split_base ds ≡ (10, ds)
unfolding split_base
split_base-decimal [] h = refl
split_base-decimal (c ∷ []) h = refl
split_base-decimal (c ∷ x ∷ cs) (p, ((d, e), t)) = ground (arith, digit_is_plain 10 x d e)

pub parse_unsigned-decimal :
    (c : ℕ) (ds : Bytes)
    → All (IsDigit 10) (c ∷ ds)
    → parse_unsigned (c ∷ ds) ≡ (
        if ltb u64_max (digits_value 10 0 (c ∷ ds))
        then none
        else some (digits_value 10 0 (c ∷ ds)))
unfolding parse_unsigned is_empty
parse_unsigned-decimal c ds ((d, e), t) = ground (
  arith,
  digit_is_plain 10 c d e,
  split_base-decimal (c ∷ ds) ((d, e), t),
  strtoull_whole-digits 10 c ds ((d, e), t),
)

-- `0x` and a text.
pub parse_unsigned-prefixed :
    (x c : ℕ) (cs : Bytes)
    → (x == b'x' || x == b'X') ≡ true
    → parse_unsigned (b'0' ∷ x ∷ c ∷ cs) ≡ strtoull_whole (c ∷ cs) 16
unfolding parse_unsigned split_base is_empty
parse_unsigned-prefixed x c cs h = ground arith

-- `0x-` and hexadecimal digits: the minus behind the prefix is not refused, and the number comes
-- out negated in 64 bits, unless it needs more than 64 bits.
pub parse_unsigned_prefixed_minus :
    (x c : ℕ) (ds : Bytes)
    → (x == b'x' || x == b'X') ≡ true
    → All (IsDigit 16) (c ∷ ds)
    → digits_value 16 0 (c ∷ ds) ≤ u64_max
    → parse_unsigned (b'0' ∷ x ∷ b'-' ∷ c ∷ ds)
      ≡ some ((u64_mod - digits_value 16 0 (c ∷ ds)) % u64_mod)
parse_unsigned_prefixed_minus x c ds h digits small =
    ground (arith, parse_unsigned-prefixed x b'-' (c ∷ ds) h, strtoull_whole_minus 16 c ds digits)
