-- ===== src/Search/Run/Chunks.antt =====
-- A mapping is searched as a whole: where it is cut into chunks does not show.
use sys_agent.Prelude.{
  ℕ, zero, suc, ◌+◌, ◌-◌, ◌^◌, ◌≤◌, ◌<◌, ◌≡◌, refl, sym, subst, ap, ◌∙◌, arith, min, Bool, true,
  false, Option, none, some, List, [], ◌∷◌, ◌++◌, Bytes, length, drop, ltb, leb, Bool-cases, inl,
  inr,
}
use sys_agent.Prelude.Word.{add_u64}
use sys_agent.Search.Match.{search_exact_buffer_aligned}
use sys_agent.Search.Match.Occurrences.{
  memory_slice, occurrences, occurrences-append, length-memory_slice, match_from-occurrences,
}
use sys_agent.Search.Run.{
  Found, RunState, record_match, record_matches, overlap, search_chunk, scan_mapping,
}

record_matches-append :
    (max_results : ℕ) (f : Found) (xs ys : List ℕ)
    → record_matches max_results f (xs ++ ys)
      ≡ record_matches max_results (record_matches max_results f xs) ys
unfolding record_matches
record_matches-append max_results f [] ys = refl
record_matches-append max_results f (x ∷ xs) ys =
    record_matches-append max_results (record_match max_results f x) xs ys

memory_slice-append :
    (memory : ℕ → ℕ) (address n m : ℕ)
    → memory_slice memory address (n + m)
      ≡ memory_slice memory address n ++ memory_slice memory (address + n) m
memory_slice-append memory address zero m =
    let e : 0 + m ≡ m = omega arith in let f : address + 0 ≡ address = omega arith in rw (e, f)
memory_slice-append memory address (suc n) m =
    let e : suc n + m ≡ suc (n + m) = omega arith in
    let f : address + suc n ≡ address + 1 + n = omega arith in
    rw (e, f) (ap (◌∷◌ (memory address)) (memory_slice-append memory (address + 1) n m))

drop-memory_slice :
    (memory : ℕ → ℕ) (address k m n : ℕ)
    → n ≡ k + m
    → drop k (memory_slice memory address n) ≡ memory_slice memory (address + k) m
drop-memory_slice memory address zero m n e =
    let e' : n ≡ m = omega arith in let f : address + 0 ≡ address = omega arith in rw (e', f)
drop-memory_slice memory address (suc k) m zero e = absurd (omega arith)
drop-memory_slice memory address (suc k) m (suc n) e =
    let f : address + suc k ≡ address + 1 + k = omega arith in
    rw f (drop-memory_slice memory (address + 1) k m n (omega arith))

-- The matches in a piece of memory, whatever its length.
search-occurrences :
    (memory : ℕ → ℕ) (pattern : Bytes) (alignment base n : ℕ)
    → 0 < length pattern
    → 0 < alignment
    → base + n ≤ 2 ^ 64
    → search_exact_buffer_aligned pattern base alignment (memory_slice memory base n)
      ≡ occurrences memory pattern alignment (n + 1 - length pattern) base
unfolding search_exact_buffer_aligned
search-occurrences memory pattern alignment base n some_byte aligned top =
    elim (Bool-cases (ltb n (length pattern))) [
      | inl short ↦
          let e : n + 1 - length pattern ≡ 0 = ground arith in
          rw (length-memory_slice, short, e) (unfold occurrences in ground arith)
      | inr fits ↦
          let e : n + 1 - length pattern ≡ n - length pattern + 1 = ground arith in
          let z : base + 0 ≡ base = omega arith in
          rw (length-memory_slice, e)
            (ground (
              arith,
              z,
              match_from-occurrences memory pattern alignment base 0 (n - length pattern + 1) n
                  some_byte (ground arith) (omega arith),
            ))
    ]

module _ (chunk_size max_results : ℕ) (pattern : Bytes) (alignment : ℕ) (memory : ℕ → ℕ)
    (read_memory : ℕ → ℕ → Option Bytes) (cancel_requested : ℕ → Bool) (chunked : 0 < chunk_size)
    (some_byte : 0 < length pattern) (aligned : 0 < alignment) where
  -- What is left of a chunk for the next one.
  abbrev rest_of : ℕ → ℕ
  rest_of combined =
      min combined (overlap chunk_size max_results pattern alignment read_memory cancel_requested)

  -- One chunk behind `c` bytes that were carried over: `lo` is the address of the first of them.
  search_chunk-occurrences :
      (lo c amount : ℕ) (s : RunState)
      → lo + c + amount ≤ 2 ^ 64
      → c ≤ length pattern - 1
      → let (carry, s') =
          search_chunk chunk_size max_results pattern alignment read_memory cancel_requested
            (lo + c)
            (memory_slice memory lo c)
            (memory_slice memory (lo + c) amount)
            s in
        (carry
          ≡ memory_slice memory (lo + (c + amount + 1 - length pattern)) (rest_of (c + amount)))
        × (s'.found
            ≡ record_matches max_results s.found
                (occurrences memory pattern alignment (c + amount + 1 - length pattern) lo))
        × (s'.ticks ≡ s.ticks)
  unfolding search_chunk
  search_chunk-occurrences lo c amount s top small =
      let lo_eq : lo + c - c ≡ lo = omega arith in
      let n : ℕ = c + amount in
      let k : ℕ = n + 1 - length pattern in
      let kept : n - rest_of n ≡ k = ground arith in
      let split : n ≡ k + rest_of n = ground arith in
      (
        rw (length-memory_slice, length-memory_slice, ← memory_slice-append, kept)
            (drop-memory_slice memory lo k (rest_of n) n split),
        rw (length-memory_slice, lo_eq, ← memory_slice-append)
            (ap (record_matches max_results s.found)
              (search-occurrences memory pattern alignment lo n some_byte aligned (omega arith))),
        refl,
      )

  -- With every read answered and no cancelling, the loop ends behind the mapping.
  module _ (answered : (a n : ℕ) → read_memory a n ≡ some (memory_slice memory a n))
      (never : (t : ℕ) → cancel_requested t ≡ false) where
    abbrev scan : ℕ → ℕ → Bytes → ℕ → RunState → Option (ℕ × RunState)
    scan = scan_mapping chunk_size max_results pattern alignment read_memory cancel_requested

    -- The loop has ended behind the mapping, and has recorded the matches given.
    abbrev pub EndsWith : ℕ → Found → List ℕ → Option (ℕ × RunState) → Type 0
    EndsWith mapping_end before matches none = ⊥
    EndsWith mapping_end before matches (some (cursor, s)) =
        (cursor ≡ mapping_end) × (s.found ≡ record_matches max_results before matches)

    EndsWith-append :
        (mapping_end : ℕ) (f : Found) (xs ys : List ℕ) (r : Option (ℕ × RunState))
        → EndsWith mapping_end (record_matches max_results f xs) ys r
        → EndsWith mapping_end f (xs ++ ys) r
    EndsWith-append mapping_end f xs ys none h = h
    EndsWith-append mapping_end f xs ys (some (cursor, s)) h =
        (h.0, h.1 ∙ sym (record_matches-append max_results f xs ys))

    abbrev chunk : ℕ → ℕ → ℕ → RunState → Bytes × RunState
    chunk lo c amount s =
        search_chunk chunk_size max_results pattern alignment read_memory cancel_requested (lo + c)
          (memory_slice memory lo c) (memory_slice memory (lo + c) amount)
          (record s { ticks = s.ticks + 1 })

    scan_end :
        (fuel lo c mapping_end : ℕ) (s : RunState)
        → leb mapping_end (lo + c) ≡ true
        → scan (suc fuel) (lo + c) (memory_slice memory lo c) mapping_end s ≡ some (lo + c, s)
    unfolding scan_mapping
    scan_end fuel lo c mapping_end s h = rw h

    scan_step :
        (fuel lo c mapping_end : ℕ) (s : RunState)
        → leb mapping_end (lo + c) ≡ false
        → let amount = min chunk_size (mapping_end - (lo + c)) in
          scan (suc fuel) (lo + c) (memory_slice memory lo c) mapping_end s
          ≡ scan fuel
              (add_u64 (lo + c) amount)
              (chunk lo c amount s).0
              mapping_end
              (chunk lo c amount s).1
    unfolding scan_mapping
    scan_step fuel lo c mapping_end s h =
        rw (h, never s.ticks, answered (lo + c) (min chunk_size (mapping_end - (lo + c))))

    scan_mapping-occurrences :
        (fuel lo c mapping_end : ℕ) (s : RunState)
        → mapping_end < 2 ^ 64
        → lo + c ≤ mapping_end
        → mapping_end - (lo + c) < fuel
        → c ≤ length pattern - 1
        → EndsWith mapping_end s.found
            (occurrences memory pattern alignment (mapping_end - lo + 1 - length pattern) lo)
            (scan fuel (lo + c) (memory_slice memory lo c) mapping_end s)
    scan_mapping-occurrences zero lo c mapping_end s top in_range lt small = absurd (omega arith)
    scan_mapping-occurrences (suc fuel) lo c mapping_end s top in_range lt small =
        elim (Bool-cases (leb mapping_end (lo + c))) [
          | inl ended ↦
              let none_left : mapping_end - lo + 1 - length pattern ≡ 0 = ground arith in
              let here : lo + c ≡ mapping_end = ground arith in
              rw (scan_end fuel lo c mapping_end s ended, none_left)
                (here, unfold occurrences record_matches in refl)
          | inr more ↦
              let amount : ℕ = min chunk_size (mapping_end - (lo + c)) in
              let k : ℕ = c + amount + 1 - length pattern in
              let kept : ℕ = rest_of (c + amount) in
              let before : lo + c < mapping_end = ground arith in
              let kept_small : kept ≤ length pattern - 1 = ground arith in
              let place : lo + k + kept ≡ lo + c + amount = ground arith in
              let no_wrap : add_u64 (lo + c) amount ≡ lo + k + kept = omega arith in
              let total : mapping_end - lo + 1 - length pattern
                  ≡ k + (mapping_end - (lo + k) + 1 - length pattern) =
                omega arith in
              let done =
                search_chunk-occurrences lo c amount (record s { ticks = s.ticks + 1 })
                  (omega arith) small in
              let next =
                scan_mapping-occurrences fuel (lo + k) kept mapping_end (chunk lo c amount s).1 top
                  (omega arith) (omega arith) kept_small in
              rw
                (scan_step fuel lo c mapping_end s more, no_wrap, done.0, total, occurrences-append)
                (EndsWith-append mapping_end s.found _ _ _ (
                  subst
                    (λ f.
                      EndsWith mapping_end f
                        (occurrences memory pattern alignment
                          (mapping_end - (lo + k) + 1 - length pattern) (lo + k))
                        (scan fuel (lo + k + kept) (memory_slice memory (lo + k) kept) mapping_end
                          (chunk lo c amount s).1))
                    done.1 next))
        ]

    -- A mapping whose reads are all answered, in a search that is not cancelled: with as much fuel as
    -- bytes and one more the loop over its chunks ends at its end, and it has recorded exactly the
    -- aligned addresses, in order, at which the whole pattern stands inside the mapping, each
    -- once, wherever the chunks are cut.
    pub scan_mapping_whole :
        (fuel start mapping_end : ℕ) (s : RunState)
        → mapping_end < 2 ^ 64
        → start ≤ mapping_end
        → mapping_end - start < fuel
        → EndsWith mapping_end s.found
            (occurrences memory pattern alignment (mapping_end - start + 1 - length pattern) start)
            (scan_mapping chunk_size max_results pattern alignment read_memory cancel_requested fuel
              start [] mapping_end s)
    scan_mapping_whole fuel start mapping_end s top in_range lt =
        let e : start + 0 ≡ start = omega arith in
        subst
          (λ c.
            EndsWith mapping_end s.found
              (occurrences memory pattern alignment (mapping_end - start + 1 - length pattern)
                start)
              (scan fuel c [] mapping_end s))
          e
          (scan_mapping-occurrences fuel start 0 mapping_end s top (omega arith) (omega arith)
            (omega arith))
