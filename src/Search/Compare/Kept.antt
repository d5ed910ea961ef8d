-- ===== src/Search/Compare/Kept.antt =====
-- What `searchFilterUnsigned` of sys-agent/source/search_compare.c keeps, by the numbers that the bytes stand for.
use native.Mathlib.Nat.{mul-le-mul_right}
use sys_agent.Prelude.{
  ℕ, zero, suc, ◌+◌, ◌*◌, ◌/◌, ◌%◌, ◌^◌, ◌≤◌, ◌<◌, ◌≡◌, ◌≢◌, ◌↔◌, refl, sym, ap, ◌∙◌, arith, Bool,
  true, ◌&&◌, Bytes, [], ◌∷◌, length, drop, get_or, replicate, ltb, ◌==◌, Bool-cases, inl, inr,
  all_below, all_below_sound,
}
use sys_agent.Prelude.Bits.{bit_or_disjoint}
use sys_agent.Search.Compare.{
  CompareMode, exact, changed, unchanged, increased, decreased, decode_from, decode_unsigned,
  compare_values, compare_unsigned, bit_is_set, bit_set, slot_matches, filter_from, filter_unsigned,
}
use sys_agent.Search.Compare.Decode.{power_step}
use sys_agent.Search.Compare.Filter.{
  IsMask, agrees, agrees-eq, bit_test, bit_set-IsMask, length-bit_set, count_slots, get_or-zeros,
  length-zeros, filter_unsigned-Filtered,
}

-- The bit of a slot: eight to a byte, from the lowest on.
abbrev pub bit_of : Bytes → ℕ → ℕ
bit_of mask slot = get_or mask (slot / 8) 0 / 2 ^ (slot % 8) % 2

-- The number that so many bytes stand for, the lowest first.
abbrev pub value_of : ℕ → Bytes → ℕ
value_of zero bytes = 0
value_of (suc n) [] = 0
value_of (suc n) (b ∷ bytes) = b + 256 * value_of n bytes

-- How the numbers before and now, and the one looked for, have to compare.
abbrev pub Compares : CompareMode → ℕ → ℕ → ℕ → Type 0
Compares exact before now wanted = now ≡ wanted
Compares changed before now wanted = now ≢ before
Compares unchanged before now wanted = now ≡ before
Compares increased before now wanted = before < now
Compares decreased before now wanted = now < before

bit_check : ℕ → Bool
bit_check byte = all_below 8 (λ j. agrees (bit_test byte j) (byte / 2 ^ j % 2 == 1))

bit_table : all_below 256 bit_check ≡ true
unfolding all_below bit_check
bit_table = refl

bit_is_set-bit_of :
    (mask : Bytes) (slot : ℕ) → IsMask mask → bit_is_set mask slot ≡ (bit_of mask slot == 1)
unfolding bit_is_set bit_check
bit_is_set-bit_of mask slot h =
    let byte = get_or mask (slot / 8) 0 in
    let row = all_below_sound 256 bit_check byte bit_table (h (slot / 8)) in
    agrees-eq _ _ (all_below_sound 8 _ (slot % 8) row (omega arith))

IsMask-drop : (n : ℕ) (bytes : Bytes) → IsMask bytes → IsMask (drop n bytes)
IsMask-drop zero bytes h = h
IsMask-drop (suc n) [] h = h
IsMask-drop (suc n) (b ∷ bytes) h = IsMask-drop n bytes (λ i. h (suc i))

regroup : (r b p v : ℕ) → r + b * p + p * 256 * v ≡ r + p * (b + 256 * v)
regroup r b p v = grind arith

decode_from-value_of :
    (n i result : ℕ) (bytes : Bytes)
    → IsMask bytes
    → result < 2 ^ (i * 8)
    → decode_from n i result bytes ≡ result + 2 ^ (i * 8) * value_of n bytes
unfolding decode_from
decode_from-value_of zero i result bytes h low = omega arith
decode_from-value_of (suc n) i result [] h low = omega arith
decode_from-value_of (suc n) i result (b ∷ bytes) h low =
    let p = 2 ^ (i * 8) in
    let v = value_of n bytes in
    let fits : b * p ≤ 255 * p = mul-le-mul_right p (omega (arith, h 0)) in
    let rest =
      decode_from-value_of n (i + 1) (result + b * p) bytes (λ j. h (suc j))
        (omega (arith, power_step i, low, fits)) in
    rw (bit_or_disjoint (i * 8) result b low)
      (rest ∙ ap (λ (q : ℕ). result + b * p + q * v) (power_step i) ∙ regroup result b p v)

compare_values-Compares :
    (mode : CompareMode) (before now wanted : ℕ)
    → (compare_values mode before now wanted ≡ true) ↔ Compares mode before now wanted
unfolding compare_values
compare_values-Compares exact before now wanted = (λ e. ground arith, λ e. ground arith)
compare_values-Compares changed before now wanted = (λ e. ground arith, λ e. ground arith)
compare_values-Compares unchanged before now wanted = (λ e. ground arith, λ e. ground arith)
compare_values-Compares increased before now wanted = (λ e. ground arith, λ e. ground arith)
compare_values-Compares decreased before now wanted = (λ e. ground arith, λ e. ground arith)

bit-test :
    (bit slot count : ℕ) (q : Bool)
    → (bit == 1) ≡ (ltb slot count && q)
    → (bit ≡ 1) ↔ ((slot < count) × (q ≡ true))
bit-test bit slot count q h = (λ e. (ground arith, ground arith), λ e. ground arith)

bounded_test :
    (bit : Bool) (slot count : ℕ) (q : Bool) → bit ≡ (ltb slot count && q) → slot < count → q ≡ bit
bounded_test bit slot count q h lt = ground arith

-- Tests that agree on the first slots count alike.
count_slots-agree :
    (p q : ℕ → Bool) (n slot : ℕ)
    → ((t : ℕ) → t < slot + n → p t ≡ q t)
    → count_slots p n slot ≡ count_slots q n slot
count_slots-agree p q zero slot h = refl
count_slots-agree p q (suc n) slot h =
    rw (h slot (omega arith), count_slots-agree p q n (slot + 1) (λ t lt. h t (omega arith))) refl

module _ (mode : CompareMode) (previous current input_mask : Bytes) (width exact_value : ℕ) where
  -- Whether a slot is kept: it is set in the input mask, and its numbers compare.
  abbrev pub IsKept : ℕ → Type 0
  IsKept slot =
      (bit_of input_mask slot ≡ 1)
      × Compares mode (value_of width (drop (slot * width) previous))
          (value_of width (drop (slot * width) current)) exact_value

  decode_unsigned-value_of :
      (bytes : Bytes) → IsMask bytes → decode_unsigned bytes width ≡ value_of width bytes
  unfolding decode_unsigned
  decode_unsigned-value_of bytes h =
      decode_from-value_of width 0 0 bytes h (omega arith) ∙ omega arith

  slot_matches-IsKept :
      (slot : ℕ)
      → IsMask previous
      → IsMask current
      → IsMask input_mask
      → (slot_matches mode previous current input_mask width exact_value slot ≡ true) ↔ IsKept slot
  unfolding slot_matches compare_unsigned
  slot_matches-IsKept slot hp hc hm =
      let old =
        decode_unsigned-value_of (drop (slot * width) previous)
          (IsMask-drop (slot * width) previous hp) in
      let new =
        decode_unsigned-value_of (drop (slot * width) current)
          (IsMask-drop (slot * width) current hc) in
      let bit = bit_is_set-bit_of input_mask slot hm in
      let compared =
        compare_values-Compares mode (value_of width (drop (slot * width) previous))
          (value_of width (drop (slot * width) current)) exact_value in
      rw (old, new, bit)
        (λ e. (ground arith, compared.0 (ground arith)), λ h. ground (arith, compared.1 h.1))

  filter_from-IsMask :
      (n slot : ℕ) (output : Bytes) (matches : ℕ)
      → IsMask output
      → slot + n ≤ length output * 8
      → IsMask
          (filter_from mode previous current input_mask width exact_value n slot output matches).0
  unfolding filter_from
  filter_from-IsMask zero slot output matches h room = h
  filter_from-IsMask (suc n) slot output matches h room =
      elim (Bool-cases (slot_matches mode previous current input_mask width exact_value slot)) [
        | inr e ↦
            rw (e, filter_from) (filter_from-IsMask n (slot + 1) output matches h (omega arith))
        | inl e ↦
            rw (e, filter_from)
              (filter_from-IsMask n (slot + 1) (bit_set output slot) (matches + 1)
                (bit_set-IsMask output slot h (omega arith))
                (omega (arith, length-bit_set output slot)))
      ]

  -- For buffers and masks of bytes, the output mask has a byte for each eight slots and holds exactly the slots below the
  -- count that are set in the input mask and whose numbers before and now, little-endian, compare as the mode says, and
  -- the result is the number of bits that are set in the output mask.
  pub filter_unsigned-IsKept :
      (slot_count : ℕ)
      → IsMask previous
      → IsMask current
      → IsMask input_mask
      → let (output, matches) =
          filter_unsigned mode previous current input_mask width exact_value slot_count in
        ((slot : ℕ) → (bit_of output slot ≡ 1) ↔ ((slot < slot_count) × IsKept slot))
        × (matches ≡ count_slots (λ slot. bit_of output slot == 1) slot_count 0)
        × (length output ≡ (slot_count + 7) / 8)
  unfolding filter_unsigned
  filter_unsigned-IsKept slot_count hp hc hm =
      let output =
        (filter_unsigned mode previous current input_mask width exact_value slot_count).0 in
      let p = slot_matches mode previous current input_mask width exact_value in
      let f =
        filter_unsigned-Filtered mode previous current input_mask width exact_value slot_count in
      let blank = replicate ((slot_count + 7) / 8) 0 in
      let bytes : IsMask output =
        filter_from-IsMask slot_count 0 blank 0
          (λ i. rw (get_or-zeros ((slot_count + 7) / 8) i) (omega arith))
          (omega (arith, length-zeros ((slot_count + 7) / 8))) in
      let same : (slot : ℕ) → (bit_of output slot == 1) ≡ (ltb slot slot_count && p slot) =
        λ slot. sym (bit_is_set-bit_of output slot bytes) ∙ f.0 slot in
      (
        λ slot.
            let kept = slot_matches-IsKept slot hp hc hm in
            let here = bit-test (bit_of output slot) slot slot_count (p slot) (same slot) in
            (λ e. let h = here.0 e in (h.0, kept.0 h.1), λ h. here.1 (h.0, kept.1 h.1)),
        f.1
            ∙ count_slots-agree p (λ slot. bit_of output slot == 1) slot_count 0
                (λ t lt.
                  bounded_test (bit_of output t == 1) t slot_count (p t) (same t)
                    (omega (arith, lt))),
        f.2,
      )
