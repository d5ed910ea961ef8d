-- ===== src/Search/Match/Occurrences.antt =====
-- The matches in a piece of memory are the aligned addresses at which the pattern stands.
use sys_agent.Prelude.{
  ℕ, zero, suc, ◌+◌, ◌%◌, ◌^◌, ◌≤◌, ◌<◌, ◌≡◌, refl, ap, arith, Bool, true, ◌&&◌, List, [], ◌∷◌,
  ◌++◌, Bytes, length, ◌==◌, if◌then◌else◌,
}
use sys_agent.Prelude.Word.{add_u64}
use sys_agent.Search.Match.{starts_with, match_from}

-- The bytes of memory in a range.
abbrev pub memory_slice : (ℕ → ℕ) → ℕ → ℕ → Bytes
memory_slice memory address zero = []
memory_slice memory address (suc n) = memory address ∷ memory_slice memory (address + 1) n

-- Whether a pattern stands at an address.
unfoldable pub stands_at : (ℕ → ℕ) → ℕ → Bytes → Bool
stands_at memory address [] = true
stands_at memory address (p ∷ pattern) =
    p == memory address && stands_at memory (address + 1) pattern

-- The aligned addresses, of the `n` from `address` on, at which the pattern stands.
unfoldable pub occurrences : (ℕ → ℕ) → Bytes → ℕ → ℕ → ℕ → List ℕ
occurrences memory pattern alignment zero address = []
occurrences memory pattern alignment (suc n) address =
    let rest = occurrences memory pattern alignment n (address + 1) in
    if address % alignment == 0 && stands_at memory address pattern then address ∷ rest else rest

pub length-memory_slice :
    (memory : ℕ → ℕ) (address n : ℕ) → length (memory_slice memory address n) ≡ n
length-memory_slice memory address zero = refl
length-memory_slice memory address (suc n) = ap suc (length-memory_slice memory (address + 1) n)

starts_with-stands_at :
    (memory : ℕ → ℕ) (pattern : Bytes) (address n : ℕ)
    → length pattern ≤ n
    → starts_with pattern (memory_slice memory address n) ≡ stands_at memory address pattern
unfolding starts_with stands_at
starts_with-stands_at memory [] address n h = refl
starts_with-stands_at memory (p ∷ pattern) address zero h = absurd (omega arith)
starts_with-stands_at memory (p ∷ pattern) address (suc n) h =
    ap (λ b. p == memory address && b)
      (starts_with-stands_at memory pattern (address + 1) n (omega arith))

pub occurrences-append :
    (memory : ℕ → ℕ) (pattern : Bytes) (alignment n m address : ℕ)
    → occurrences memory pattern alignment (n + m) address
      ≡ occurrences memory pattern alignment n address
        ++ occurrences memory pattern alignment m (address + n)
unfolding occurrences
occurrences-append memory pattern alignment zero m address =
    let e : 0 + m ≡ m = omega arith in let f : address + 0 ≡ address = omega arith in rw (e, f)
occurrences-append memory pattern alignment (suc n) m address =
    let e : suc n + m ≡ suc (n + m) = omega arith in
    let f : address + suc n ≡ address + 1 + n = omega arith in
    rw (e, f) (ground (arith, occurrences-append memory pattern alignment n m (address + 1)))

pub match_from-occurrences :
    (memory : ℕ → ℕ) (pattern : Bytes) (alignment base offset n m : ℕ)
    → 0 < length pattern
    → n + length pattern ≤ m + 1
    → base + offset + m ≤ 2 ^ 64
    → match_from pattern base alignment n offset (memory_slice memory (base + offset) m)
      ≡ occurrences memory pattern alignment n (base + offset)
unfolding match_from occurrences
match_from-occurrences memory pattern alignment base offset zero m some_byte fits top = refl
match_from-occurrences memory pattern alignment base offset (suc n) zero some_byte fits top =
    absurd (omega arith)
match_from-occurrences memory pattern alignment base offset (suc n) (suc m) some_byte fits top =
    let no_wrap : add_u64 base offset ≡ base + offset = omega arith in
    let next : base + offset + 1 ≡ base + (offset + 1) = omega arith in
    let rest =
      match_from-occurrences memory pattern alignment base (offset + 1) n m some_byte (omega arith)
        (omega arith) in
    let here = starts_with-stands_at memory pattern (base + offset) (suc m) (omega arith) in
    rw (no_wrap, here, next, rest)
