-- ===== src/Search/Compare/Decode.antt =====
-- The bytes that `searchEncodeUnsigned` writes are decoded to the number that was encoded.
use native.Mathlib.Nat.{
  mod-lt, mod-eq_of_lt, div-add-mod, add-mul-mod_self_right, mul-le-mul_right, pow-suc,
}
use native.Mathlib.Numerals.{towards_suc}
use sys_agent.Prelude.{
  ℕ, zero, suc, ◌+◌, ◌*◌, ◌/◌, ◌%◌, ◌^◌, ◌≤◌, ◌<◌, ◌≡◌, sym, ap, ◌∙◌, arith, bit_or,
}
use sys_agent.Prelude.Bits.{bit_or_disjoint}
use sys_agent.Search.Value.{value_bytes}
use sys_agent.Search.Compare.{decode_from, decode_unsigned}

-- The powers of 256 that the shifts stand for.
pub power_step : (i : ℕ) → 2 ^ ((i + 1) * 8) ≡ 2 ^ (i * 8) * 256
power_step i = let e : (i + 1) * 8 ≡ i * 8 + 8 = omega arith in rw e (shift (i * 8))
  where
    shift : (x : ℕ) → 2 ^ (x + 8) ≡ 2 ^ x * 256
    shift x = simp towards_suc (omega arith)

-- One more byte of a number, from its quotient and remainder.
byte_sum : (v p q r : ℕ) → 0 < p → r < p → p * q + r ≡ v → r + q % 256 * p ≡ v % (p * 256)
byte_sum v p q r h low whole =
    let digit : q % 256 ≤ 255 = omega arith in
    let top : q % 256 * p ≤ 255 * p = mul-le-mul_right p digit in
    let fits : r + q % 256 * p < p * 256 = omega arith in
    let high : p * q ≡ p * (q / 256 * 256 + q % 256) = ap (λ (t : ℕ). p * t) (omega arith) in
    let sum : v ≡ r + q % 256 * p + q / 256 * (p * 256) = omega arith in
    sym (
      ap (λ (t : ℕ). t % (p * 256)) sum
      ∙ add-mul-mod_self_right (r + q % 256 * p) (q / 256) (p * 256)
      ∙ mod-eq_of_lt fits)

byte_step : (v p : ℕ) → 0 < p → v % p + v / p % 256 * p ≡ v % (p * 256)
byte_step v p h = byte_sum v p (v / p) (v % p) h (mod-lt v h) (div-add-mod v p)

pub power_pos : (k : ℕ) → 0 < 2 ^ k
power_pos zero = omega arith
power_pos (suc k) = omega (arith, power_pos k, pow-suc 2 k)

decode_from-value_bytes :
    (n i value : ℕ)
    → decode_from n i (value % 2 ^ (i * 8)) (value_bytes n i value) ≡ value % 2 ^ ((i + n) * 8)
unfolding decode_from value_bytes
decode_from-value_bytes zero i value = let e : i + 0 ≡ i = omega arith in rw e
decode_from-value_bytes (suc n) i value =
    let p = power_pos (i * 8) in
    let e : i + suc n ≡ i + 1 + n = omega arith in
    let byte : bit_or (value % 2 ^ (i * 8)) (value / 2 ^ (i * 8) % 256 * 2 ^ (i * 8))
        ≡ value % 2 ^ ((i + 1) * 8) =
      bit_or_disjoint (i * 8) (value % 2 ^ (i * 8)) (value / 2 ^ (i * 8) % 256) (mod-lt value p)
      ∙ byte_step value (2 ^ (i * 8)) p
      ∙ ap (λ (t : ℕ). value % t) (sym (power_step i)) in
    rw (byte, e) (decode_from-value_bytes n (i + 1) value)

-- Decoding the bytes of a value gives the value, cut to the width.
pub decode_unsigned-value_bytes :
    (width value : ℕ) → decode_unsigned (value_bytes width 0 value) width ≡ value % 2 ^ (width * 8)
unfolding decode_unsigned
decode_unsigned-value_bytes width value =
    let start : 0 ≡ value % 2 ^ (0 * 8) = omega arith in
    let e : 0 + width ≡ width = omega arith in
    let all = decode_from-value_bytes width 0 value in
    ap (λ t. decode_from width 0 t (value_bytes width 0 value)) start
    ∙ all
    ∙ ap (λ (t : ℕ). value % 2 ^ (t * 8)) e
