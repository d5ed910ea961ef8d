-- ===== src/Jpeg/Scan/Canonical.antt =====
-- The codes that a table of counts stands for, and that a code is read as its symbol.
use sys_agent.Prelude.{
  ℕ, zero, suc, ◌+◌, ◌-◌, ◌*◌, ◌/◌, ◌%◌, ◌^◌, ◌≤◌, ◌<◌, ◌≡◌, ◌⊎◌, refl, ap, ◌∙◌, arith, true, false,
  ◌||◌, List, [], ◌∷◌, Bytes, ltb, leb, ◌==◌, if◌then◌else◌, Bool-cases, inl, inr,
}
use native.Mathlib.Nat.{pow-suc, one-le-pow, mul-le-mul_right, div-add-mod, mod-lt}
use sys_agent.Jpeg.{ok, ◌>>=◌, element}
use sys_agent.Jpeg.Code.{assign_codes}
use sys_agent.Jpeg.Tables.{total_of}
use sys_agent.Jpeg.Scan.{ScanState, read_bit, find_code}

-- The code of the symbol at an index, its length first: the codes of a length are consecutive, and the first code of
-- the next length is twice the one behind them (ITU T.81, annex C).
unfoldable pub canonical_code : ℕ → List ℕ → ℕ → ℕ × ℕ
canonical_code first [] k = (0, first)
canonical_code first (n ∷ counts) k =
    let longer = canonical_code ((first + n) * 2) counts (k - n) in
    if ltb k n then (1, first + k) else (suc longer.0, longer.1)

-- The bits of a number, the highest first.
unfoldable pub bits_of : ℕ → ℕ → List ℕ
bits_of zero v = []
bits_of (suc n) v = v / 2 ^ n ∷ bits_of n (v % 2 ^ n)

-- The codes behind a length, doubled.
scaled : (a n m : ℕ) → a * (m * 2) ≤ (a + n) * 2 * m
scaled a n m = omega (arith, expand a n m)
  where
    expand : (b k c : ℕ) → (b + k) * 2 * c ≡ b * (c * 2) + k * (c * 2)
    expand b k c = omega arith

-- A quotient is not below what a multiple of the divisor leaves room for.
quotient-le : (a f m r : ℕ) → f * m ≤ a * m + r → r < m → f ≤ a
quotient-le a f m r le lt = elim (leq_or_gt f a) [
  | inl fits ↦ fits
  | inr above ↦ absurd (omega (arith, mul-le-mul_right m above, le, lt, suc_times a m))
]
  where
    suc_times : (b n : ℕ) → suc b * n ≡ b * n + n
    suc_times b n = omega arith

    leq_or_gt : (b c : ℕ) → (b ≤ c) ⊎ (suc c ≤ b)
    leq_or_gt b c = ground arith

module _ (bytes : Bytes) where
  -- From one state of the scan to another, these bits are read.
  abbrev pub Reads : List ℕ → ScanState → ScanState → Type 0
  Reads [] s t = s ≡ t
  Reads (b ∷ bits) s t = (u : ScanState) × (read_bit bytes s ≡ ok (b, u)) × Reads bits u t

  -- A code is not below the first one of the lengths in front of it.
  canonical_code-le :
      (first k : ℕ) (counts : List ℕ)
      → k < total_of bytes counts
      → (l : ℕ) × ((canonical_code first counts k).0 ≡ suc l)
        × (first * 2 ^ l ≤ (canonical_code first counts k).1)
  unfolding canonical_code total_of
  canonical_code-le first k [] lt = absurd (omega arith)
  canonical_code-le first k (n ∷ counts) lt = elim (Bool-cases (ltb k n)) [
    | inl e ↦ rw e (0, refl, omega arith)
    | inr e ↦ rw e (
        let r = canonical_code-le ((first + n) * 2) (k - n) counts (ground (arith, e)) in
        (
          suc r.0,
          ap suc r.1,
          omega (arith, r.2, scaled first n (2 ^ r.0), ap (λ p. first * p) (pow-suc 2 r.0)),
        ))
  ]

  -- The bit in front, of a code of one bit more.
  carried : (code w l : ℕ) → code * 2 ^ suc l + w ≡ (code * 2 + w / 2 ^ l) * 2 ^ l + w % 2 ^ l
  carried code w l = omega (
    arith,
    div-add-mod w (2 ^ l),
    ap (λ p. code * p) (pow-suc 2 l),
    expand code (2 ^ l) (w / 2 ^ l),
  )
    where
      expand : (c m q : ℕ) → (c * 2 + q) * m ≡ c * (m * 2) + m * q
      expand c m q = omega arith

  -- The first code behind a length, at the length of a longer code.
  behind : (f l m v : ℕ) → m ≡ suc l → f * 2 * 2 ^ l ≤ v → f * 2 ^ m ≤ v
  behind f l m v e le =
      omega (arith, le, scaled f 0 (2 ^ l), ap (λ p. f * 2 ^ p) e, ap (λ p. f * p) (pow-suc 2 l))

  the_bit : (b : ℕ) → b / 1 ≡ b
  the_bit b = omega arith

  read_code :
      (symbols : Bytes) (counts : List ℕ) (first index k code w : ℕ) (s t : ScanState)
      → index + total_of bytes counts ≤ 256
      → k < total_of bytes counts
      → (canonical_code first counts k).1 ≡ code * 2 ^ (canonical_code first counts k).0 + w
      → Reads (bits_of (canonical_code first counts k).0 w) s t
      → find_code bytes symbols (assign_codes first index counts) code s
        ≡ (element symbols (index + k) >>= λ symbol. ok (symbol, t))
  unfolding canonical_code bits_of total_of assign_codes find_code
  read_code symbols [] first index k code w s t fits lt = absurd (omega arith)
  read_code symbols (n ∷ counts) first index k code w s t fits lt = elim (Bool-cases (ltb k n)) [
    | inl here ↦ rw here (λ e (u, bit, same).
        let some_codes : (n == 0) ≡ false = ground (arith, here) in
        let last : leb (code * 2 + w) (first + n - 1) ≡ true = ground (arith, here, e) in
        let inside : (ltb (index + (code * 2 + w)) first
              || leb 256 (index + (code * 2 + w) - first))
            ≡ false =
          ground (arith, here, e) in
        let place : index + (code * 2 + w) - first ≡ index + k = omega (arith, e) in
        rw (bit ∙ ap (λ b. ok (b, u)) (the_bit w), some_codes, last, inside, place, same) refl)
    | inr there ↦ rw there (λ e (u, bit, more).
        let longer = canonical_code ((first + n) * 2) counts (k - n) in
        let next = code * 2 + w / 2 ^ longer.0 in
        let lower = canonical_code-le ((first + n) * 2) (k - n) counts (ground (arith, there)) in
        let split : longer.1 ≡ next * 2 ^ longer.0 + w % 2 ^ longer.0 =
          e ∙ carried code w longer.0 in
        let beyond : first + n ≤ next =
          quotient-le next (first + n) (2 ^ longer.0) (w % 2 ^ longer.0)
            (omega (arith, split, behind (first + n) lower.0 longer.0 longer.1 lower.1 lower.2))
            (mod-lt w (one-le-pow longer.0 2 (omega arith))) in
        let rest =
          read_code symbols counts ((first + n) * 2) (index + n) (k - n) next (w % 2 ^ longer.0) u t
            (omega (arith, fits)) (ground (arith, there)) split more in
        let place : index + n + (k - n) ≡ index + k = ground (arith, there) in
        rw bit (elim (Bool-cases (n == 0)) [
          | inl none_here ↦
              rw none_here (rest ∙ ap (λ i. element symbols i >>= λ symbol. ok (symbol, t)) place)
          | inr some_here ↦
              let past : leb next (first + n - 1) ≡ false = ground (arith, some_here, beyond) in
              rw (some_here, past)
                (rest ∙ ap (λ i. element symbols i >>= λ symbol. ok (symbol, t)) place)
        ]))
  ]

  from_zero : (i : ℕ) → 0 + i ≡ i
  from_zero i = omega arith

  -- The bits of the canonical code of a table's k-th symbol, when the scan reads them, are decoded as that symbol,
  -- and the scan stops behind them. The table has at most 256 codes.
  pub find_code-canonical_code :
      (symbols : Bytes) (counts : List ℕ) (k : ℕ) (s t : ScanState)
      → total_of bytes counts ≤ 256
      → k < total_of bytes counts
      → Reads (bits_of (canonical_code 0 counts k).0 (canonical_code 0 counts k).1) s t
      → find_code bytes symbols (assign_codes 0 0 counts) 0 s
        ≡ (element symbols k >>= λ symbol. ok (symbol, t))
  find_code-canonical_code symbols counts k s t fits lt reads =
      read_code symbols counts 0 0 k 0 (canonical_code 0 counts k).1 s t (omega (arith, fits)) lt
        (omega arith) reads
      ∙ ap (λ i. element symbols i >>= λ symbol. ok (symbol, t)) (from_zero k)
