-- ===== src/Search/Value.antt =====
-- sys-agent/source/search_value.c: the bytes of a number to search for, and the alignments.
use sys_agent.Prelude.{
  ℕ, zero, suc, ◌+◌, ◌-◌, ◌*◌, ◌/◌, ◌%◌, ◌^◌, ◌<◌, ◌≡◌, ◌⊎◌, refl, arith, Bool, true, false, not,
  ◌&&◌, ◌||◌, Option, none, some, [], ◌∷◌, Bytes, ltb, leb, ◌==◌, if◌then◌else◌, bit_and, all_below,
  all_below_sound, inl, inr,
}
use sys_agent.Libc.{strtoull_whole, is_empty}

-- The loop over `width` bytes: `(uint8_t)(value >> (index * 8))`.
unfoldable pub value_bytes : ℕ → ℕ → ℕ → Bytes
value_bytes zero index value = []
value_bytes (suc n) index value = (value / 2 ^ (index * 8) % 256) ∷ value_bytes n (index + 1) value

-- The widths of 1, 2, 4 and 8 bytes.
unfoldable pub width_is_valid : ℕ → Bool
width_is_valid width = width == 1 || width == 2 || width == 4 || width == 8

-- The number that the text stands for, and whether it fits the width.
unfoldable pub encode_parsed : Option ℕ → ℕ → Option Bytes
encode_parsed none width = none
encode_parsed (some value) width =
    if ltb width 8 && leb (2 ^ (width * 8)) value then none else some (value_bytes width 0 value)

-- `searchEncodeUnsigned` behind its first test.
unfoldable pub encode_text : Bytes → ℕ → Option Bytes
unfolding encode_parsed is_empty
encode_text (c ∷ x ∷ digits) width =
    if c == b'0' && (x == b'x' || x == b'X')
    then (if is_empty digits then none else encode_parsed (strtoull_whole digits 16) width)
    else encode_parsed (strtoull_whole (c ∷ x ∷ digits) 10) width
encode_text text width = encode_parsed (strtoull_whole text 10) width

-- `searchEncodeUnsigned`; `none` where it answers false.
unfoldable pub encode_unsigned : Bytes → ℕ → Option Bytes
unfolding width_is_valid
encode_unsigned [] width = none
encode_unsigned (c ∷ cs) width =
    if c == b'-' || not (width_is_valid width) then none else encode_text (c ∷ cs) width

-- `searchAlignmentIsValid`; `alignment - 1` is only read where `alignment` is not 0.
unfoldable pub alignment_is_valid : ℕ → Bool
alignment_is_valid alignment =
    not (alignment == 0) && leb alignment 256 && bit_and alignment (alignment - 1) == 0

-- Whether a number is one of the powers of two up to 256.
abbrev pub is_small_power : ℕ → Bool
is_small_power n =
    n == 1 || n == 2 || n == 4 || n == 8 || n == 16 || n == 32 || n == 64 || n == 128 || n == 256

abbrev agrees : Bool → Bool → Bool
agrees true b = b
agrees false b = not b

alignment_table : all_below 257 (λ n. agrees (alignment_is_valid n) (is_small_power n)) ≡ true
unfolding all_below alignment_is_valid
alignment_table = refl

agrees-eq : (a b : Bool) → agrees a b ≡ true → a ≡ b
agrees-eq true b h = ground arith
agrees-eq false b h = ground arith

alignment_large : (n : ℕ) → 256 < n → (alignment_is_valid n ≡ false) × (is_small_power n ≡ false)
unfolding alignment_is_valid
alignment_large n h = ground arith

-- `searchAlignmentIsValid` accepts exactly the powers of two from 1 to 256.
pub alignment_is_valid-is_small_power : (n : ℕ) → alignment_is_valid n ≡ is_small_power n
alignment_is_valid-is_small_power n = elim (split n) [
  | inl small ↦ agrees-eq _ _ (all_below_sound 257 _ n alignment_table small)
  | inr large ↦ ground (arith, alignment_large n large)
]
  where
    split : (n : ℕ) → (n < 257) ⊎ (256 < n)
    split n = omega arith
