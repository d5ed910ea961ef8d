-- ===== src/Prelude/Bits.antt =====
-- The bit operation `|` at variables, from the recursion on binary digits that it stands for.
use Prim.Native.Nat.{
  ℕ, zero, suc, ◌+◌, ◌*◌, ◌/◌, ◌^◌, ◌≤◌, ◌<◌, max, bit_or, digits, bit_or-bitwise,
}
use mathlib.Core.Path.{◌≡◌, ap, ◌∙◌}
use native.Mathlib.Nat.{pow-suc}
use native.Mathlib.Omega.{arith}

-- The recursion, with any fuel that covers the low part, joins it to a field above its `k` bits.
digits_field :
    (fuel k low field : ℕ)
    → low ≤ fuel
    → low < 2 ^ k
    → digits (λ high. high) max fuel low (field * 2 ^ k) ≡ low + field * 2 ^ k
digits_field zero k zero field covers small = omega arith
digits_field zero k (suc low) field covers small = absurd (omega arith)
digits_field (suc fuel) k zero field covers small = omega arith
digits_field (suc fuel) zero (suc low) field covers small = absurd (omega arith)
digits_field (suc fuel) (suc k) (suc low) field covers small =
    let twice : field * 2 ^ suc k ≡ field * 2 ^ k * 2 =
      omega (arith, ap (λ (t : ℕ). field * t) (pow-suc 2 k)) in
    let half : field * 2 ^ k * 2 / 2 ≡ field * 2 ^ k = omega arith in
    let rest = digits_field fuel k (suc low / 2) field (omega arith) (omega (arith, pow-suc 2 k)) in
    rw (twice, half, rest) (omega arith)

-- A field placed above the low `k` bits is joined by `|` as by a sum.
pub bit_or_disjoint : (k r q : ℕ) → r < 2 ^ k → bit_or r (q * 2 ^ k) ≡ r + q * 2 ^ k
bit_or_disjoint k r q h = bit_or-bitwise r (q * 2 ^ k) ∙ digits_field r k r q (omega arith) h
