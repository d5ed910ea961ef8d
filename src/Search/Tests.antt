-- ===== src/Search/Tests.antt =====
-- Cases in the manner of tests/search_range_test.c, tests/search_match_test.c,
-- tests/search_compare_test.c and tests/search_value_test.c, and examples of the theorems on the search.
use sys_agent.Prelude.{
  ◌↔◌, All, zero, suc, ◌==◌, ℕ, ◌+◌, ◌-◌, ◌*◌, ◌/◌, ◌%◌, ◌^◌, ◌<◌, ◌≡◌, ◌≢◌, ◌||◌, ◌++◌, refl,
  arith, Bool, true, false, Option, some, [], ◌∷◌, Bytes, length, take, ltb,
}
use sys_agent.Search.Range.{Mapping, invalid, read, plan_mapping}
use sys_agent.Search.Range.Scan.{IsPlan, plan_mapping-IsPlan, plan_mapping_valid_iff}
use sys_agent.Search.Value.{
  value_bytes, alignment_is_valid, is_small_power, alignment_is_valid-is_small_power,
}
use sys_agent.Search.Compare.{exact, filter_unsigned, decode_unsigned}
use sys_agent.Search.Compare.Decode.{decode_unsigned-value_bytes}
use sys_agent.Search.Compare.Filter.{IsMask, count_slots}
use sys_agent.Search.Compare.Kept.{bit_of, IsKept, filter_unsigned-IsKept}
use sys_agent.Search.Match.Occurrences.{memory_slice, occurrences}
use sys_agent.Search.Run.{Found, RunState, Ended, record_matches, scan_mapping, run_search}
use sys_agent.Search.Run.Chunks.{EndsWith, scan_mapping_whole}
use sys_agent.Search.Run.Results.{record_matches_lem}
use sys_agent.Search.Run.Total.{run_search_total}

abbrev heap : Mapping
heap = record { address = 4096; size = 4096; readable = true }

heap-plan : plan_mapping 4096 6000 heap ≡ record { action = read; start = 4096; end = 6000 }
unfolding plan_mapping
heap-plan = refl

heap-planned : (plan_mapping 4096 6000 heap).action ≢ invalid
unfolding plan_mapping
heap-planned e = cc

plan_mapping-IsPlan_example : IsPlan 4096 6000 heap (plan_mapping 4096 6000 heap)
plan_mapping-IsPlan_example =
    plan_mapping-IsPlan 4096 6000 heap (omega arith) (omega arith) heap-planned

plan_mapping_valid_iff_example :
    ((plan_mapping 5000 9000 heap).action ≢ invalid)
    ↔ ((5000 < 9000) × (5000 < 4096 + 4096) × (0 < 4096) × (4096 + 4096 < 2 ^ 64))
plan_mapping_valid_iff_example = plan_mapping_valid_iff 5000 9000 heap (omega arith) (omega arith)

alignment_is_valid-is_small_power_example : alignment_is_valid 64 ≡ is_small_power 64
alignment_is_valid-is_small_power_example = alignment_is_valid-is_small_power 64

decode_unsigned-value_bytes_example :
    decode_unsigned (value_bytes 4 0 0x12345678) 4 ≡ 0x12345678 % 2 ^ (4 * 8)
decode_unsigned-value_bytes_example = decode_unsigned-value_bytes 4 0x12345678

All-IsMask : (bytes : Bytes) → All (λ b. b < 256) bytes → IsMask bytes
All-IsMask [] h i = omega arith
All-IsMask (b ∷ bytes) h zero = h.0
All-IsMask (b ∷ bytes) h (suc i) = All-IsMask bytes h.1 i

-- Three slots of a byte, of which the first two are candidates.
filter_unsigned-IsKept_example :
    let (output, matches) =
      filter_unsigned exact (1 ∷ 1 ∷ 1 ∷ []) (1 ∷ 2 ∷ 2 ∷ []) (3 ∷ []) 1 2 3 in
    ((slot : ℕ)
      → (bit_of output slot ≡ 1)
        ↔ ((slot < 3) × IsKept exact (1 ∷ 1 ∷ 1 ∷ []) (1 ∷ 2 ∷ 2 ∷ []) (3 ∷ []) 1 2 slot))
    × (matches ≡ count_slots (λ slot. bit_of output slot == 1) 3 0)
    × (length output ≡ (3 + 7) / 8)
filter_unsigned-IsKept_example =
    filter_unsigned-IsKept exact (1 ∷ 1 ∷ 1 ∷ []) (1 ∷ 2 ∷ 2 ∷ []) (3 ∷ []) 1 2 3
      (All-IsMask (1 ∷ 1 ∷ 1 ∷ []) (omega arith, (omega arith, (omega arith, tt))))
      (All-IsMask (1 ∷ 2 ∷ 2 ∷ []) (omega arith, (omega arith, (omega arith, tt))))
      (All-IsMask (3 ∷ []) (omega arith, tt))

abbrev nothing_found : Found
nothing_found = record { total = 0; results = []; truncated = false }

abbrev fresh : RunState
fresh = record { found = nothing_found; scanned = 0; read_errors = 0; ticks = 0 }

record_matches_lem_example :
    let f = record_matches 2 nothing_found (10 ∷ 20 ∷ 30 ∷ []) in
    (f.total ≡ 0 + 3)
    × (f.results ≡ [] ++ take (2 - 0) (10 ∷ 20 ∷ 30 ∷ []))
    × (f.truncated ≡ (false || ltb (2 - 0) 3))
record_matches_lem_example = record_matches_lem 2 nothing_found (10 ∷ 20 ∷ 30 ∷ []) (omega arith)

-- A memory of zeros and ones in turn.
abbrev stripes : ℕ → ℕ
stripes address = address % 2

abbrev read_stripes : ℕ → ℕ → Option Bytes
read_stripes address n = some (memory_slice stripes address n)

abbrev never_cancelled : ℕ → Bool
never_cancelled t = false

scan_mapping_whole_example :
    EndsWith 3 5
      (0 ∷ 1 ∷ [])
      1
      stripes
      read_stripes
      never_cancelled
      (omega arith)
      (omega arith)
      (omega arith)
      (λ a n. refl)
      (λ t. refl)
      110
      nothing_found
      (occurrences stripes (0 ∷ 1 ∷ []) 1 (110 - 100 + 1 - 2) 100)
      (scan_mapping 3 5 (0 ∷ 1 ∷ []) 1 read_stripes never_cancelled 11 100 [] 110 fresh)
scan_mapping_whole_example =
    scan_mapping_whole 3 5 (0 ∷ 1 ∷ []) 1 stripes read_stripes never_cancelled (omega arith)
      (omega arith) (omega arith) (λ a n. refl) (λ t. refl) 11 100 110 fresh (omega arith)
      (omega arith) (omega arith)

abbrev query_heap : ℕ → Option Mapping
query_heap address = some heap

heap_words :
    (a : ℕ) (m : Mapping) → query_heap a ≡ some m → (m.address < 2 ^ 64) × (m.size < 2 ^ 64)
heap_words a m e = (ground arith, ground arith)

run_search_total_example :
    (r : Ended × RunState) × (run_search 3 5
        (0 ∷ 1 ∷ [])
        1
        read_stripes
        never_cancelled
        query_heap
        (λ t. true)
        true
        11
        4096
        4106
        fresh
      ≡ some r)
run_search_total_example =
    run_search_total 3 5 (0 ∷ 1 ∷ []) 1 read_stripes never_cancelled (omega arith) (λ t e. e)
      query_heap (λ t. true) heap_words true 11 4096 4106 fresh (omega arith) (omega arith)
