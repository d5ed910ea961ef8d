-- ===== src/Search/Compare.antt =====
-- sys-agent/source/search_compare.c: little-endian values and the filter over a block of slots.
pub mod Decode
pub mod Filter
pub mod Kept
use sys_agent.Prelude.{
  ℕ, zero, suc, ◌+◌, ◌-◌, ◌*◌, ◌/◌, ◌%◌, ◌^◌, ◌≤◌, ◌<◌, Bool, true, false, not, ◌&&◌, ◌||◌, Option,
  none, some, List, [], ◌∷◌, Bytes, length, drop, get_or, set, replicate, ltb, leb, ◌==◌,
  if◌then◌else◌, bit_and, bit_or,
}

-- `SearchCompareMode`
pub data CompareMode : Type 0 where
  exact changed unchanged increased decreased : CompareMode

-- The loop of `searchDecodeUnsigned` from byte `index` on, `n` bytes left.
unfoldable pub decode_from : ℕ → ℕ → ℕ → Bytes → ℕ
decode_from zero index result bytes = result
decode_from (suc n) index result [] = result
decode_from (suc n) index result (b ∷ bytes) =
    decode_from n (index + 1) (bit_or result (b * 2 ^ (index * 8))) bytes

-- `searchDecodeUnsigned`
unfoldable pub decode_unsigned : Bytes → ℕ → ℕ
unfolding decode_from
decode_unsigned value width = decode_from width 0 0 value

-- The `switch` of `searchCompareUnsigned`.
unfoldable pub compare_values : CompareMode → ℕ → ℕ → ℕ → Bool
compare_values exact old_value new_value exact_value = new_value == exact_value
compare_values changed old_value new_value exact_value = not (new_value == old_value)
compare_values unchanged old_value new_value exact_value = new_value == old_value
compare_values increased old_value new_value exact_value = ltb old_value new_value
compare_values decreased old_value new_value exact_value = ltb new_value old_value

-- `searchCompareUnsigned`
unfoldable pub compare_unsigned : CompareMode → Bytes → Bytes → ℕ → ℕ → Bool
unfolding compare_values
compare_unsigned mode previous current width exact_value =
    compare_values mode (decode_unsigned previous width) (decode_unsigned current width) exact_value

-- `mask[slot >> 3] & (1u << (slot & 7))`
unfoldable pub bit_is_set : Bytes → ℕ → Bool
bit_is_set mask slot = not (bit_and (get_or mask (slot / 8) 0) (2 ^ (slot % 8)) == 0)

-- `mask[slot >> 3] |= 1u << (slot & 7)`
unfoldable pub bit_set : Bytes → ℕ → Bytes
bit_set mask slot = set mask (slot / 8) (bit_or (get_or mask (slot / 8) 0) (2 ^ (slot % 8)))

module _ (mode : CompareMode) (previous current input_mask : Bytes) (width exact_value : ℕ) where
  -- Whether a slot is kept: it is in the input mask and its values compare.
  unfoldable pub slot_matches : ℕ → Bool
  slot_matches slot =
      bit_is_set input_mask slot
      && compare_unsigned mode (drop (slot * width) previous) (drop (slot * width) current) width
          exact_value

  -- The loop over the slots from `slot` on, `n` of them left.
  unfoldable pub filter_from : ℕ → ℕ → Bytes → ℕ → Bytes × ℕ
  filter_from zero slot output matches = (output, matches)
  filter_from (suc n) slot output matches = elim (slot_matches slot) [
    | false ↦ filter_from n (slot + 1) output matches
    | true ↦ filter_from n (slot + 1) (bit_set output slot) (matches + 1)
  ]

  -- `searchFilterUnsigned`: the output mask, cleared first, and the number of matches.
  unfoldable pub filter_unsigned : ℕ → Bytes × ℕ
  filter_unsigned slot_count = filter_from slot_count 0 (replicate ((slot_count + 7) / 8) 0) 0
