-- ===== src/Search/Match.antt =====
-- sys-agent/source/search_match.c: the search for a pattern in a buffer. The addresses are those
-- that the callback is called with, in that order; the result of the function is their number.
pub mod Occurrences
use sys_agent.Prelude.{
  ℕ, zero, suc, ◌+◌, ◌-◌, ◌*◌, ◌/◌, ◌%◌, ◌^◌, ◌≤◌, ◌<◌, Bool, true, false, not, ◌&&◌, ◌||◌, Option,
  none, some, List, [], ◌∷◌, Bytes, length, ltb, leb, ◌==◌, if◌then◌else◌,
}
use sys_agent.Prelude.Word.{add_u64}

-- `memcmp(buffer + offset, pattern, patternSize) == 0`
unfoldable pub starts_with : Bytes → Bytes → Bool
starts_with [] buffer = true
starts_with (p ∷ pattern) [] = false
starts_with (p ∷ pattern) (b ∷ buffer) = p == b && starts_with pattern buffer

module _ (pattern : Bytes) (buffer_address alignment : ℕ) where
  -- The loop over the offsets, `n` of them left; the buffer is what stands at the offset.
  unfoldable pub match_from : ℕ → ℕ → Bytes → List ℕ
  match_from zero offset buffer = []
  match_from (suc n) offset [] = []
  match_from (suc n) offset (b ∷ buffer) =
      let rest = match_from n (offset + 1) buffer in
      if add_u64 buffer_address offset % alignment == 0 && starts_with pattern (b ∷ buffer)
      then add_u64 buffer_address offset ∷ rest
      else rest

  -- `searchExactBufferAligned`
  unfoldable pub search_exact_buffer_aligned : Bytes → List ℕ
  unfolding match_from starts_with
  search_exact_buffer_aligned buffer =
      if length pattern == 0 || ltb (length buffer) (length pattern) || alignment == 0
      then []
      else match_from (length buffer - length pattern + 1) 0 buffer

-- `searchExactBuffer`
unfoldable pub search_exact_buffer : Bytes → ℕ → Bytes → List ℕ
search_exact_buffer pattern buffer_address buffer =
    search_exact_buffer_aligned pattern buffer_address 1 buffer
