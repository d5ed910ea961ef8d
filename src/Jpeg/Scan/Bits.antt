-- ===== src/Jpeg/Scan/Bits.antt =====
-- Reading bits, codes and coefficients keeps the sizes of the scan's arrays, without undefined behaviour.
use sys_agent.Prelude.{
  ℕ, zero, suc, ◌+◌, ◌-◌, ◌*◌, ◌/◌, ◌%◌, ◌^◌, ◌≤◌, ◌<◌, ◌≡◌, arith, not, ◌||◌, Option, none, some,
  List, [], ◌∷◌, Bytes, All, length, ltb, leb, ◌==◌, if◌then◌else◌, Bool-cases, inl, inr,
}
use sys_agent.Jpeg.{ok, ◌>>=◌, refuse_if, element, Ends, Ends->>=, Ends-refuse_if, Ends-element}
use sys_agent.Jpeg.Code.{Huffman, CodeRange}
use sys_agent.Jpeg.Header.Bounds.{HasSymbols, byte-Ends}
use sys_agent.Jpeg.Scan.{
  ScanState, extend, refill, read_bit, read_bits_from, read_bits, find_code, decode_huffman,
  read_difference, skip_coefficients, max_blocks_x, max_blocks_y,
}

-- A row of the picture's means: its length, and bytes.
abbrev pub IsRow : Bytes → Type 0
IsRow row = (length row ≡ max_blocks_x) × All (λ b. b < 256) row

-- The arrays of a scan have their sizes, and the picture holds bytes.
abbrev pub IsScan : ScanState → Type 0
IsScan s = (length s.predictions ≡ 4) × (length s.mean ≡ max_blocks_y) × All IsRow s.mean

-- A value was read.
abbrev pub Read : {A : Type 0} → A × ScanState → Type 0
Read r = IsScan r.1

-- A symbol with a property was read.
abbrev pub ReadSymbol : (ℕ → Type 0) → ℕ × ScanState → Type 0
ReadSymbol P r = P r.0 × IsScan r.1

-- Where `extend` is defined.
pub extend_defined : (value n : ℕ) → n ≤ 30 → Ends (λ v. Unit {0}) (extend value n)
unfolding extend
extend_defined value zero le = tt
extend_defined value (suc n) le = elim (Bool-cases (ltb 29 n)) [
  | inl e ↦ absurd (ground (arith, e))
  | inr e ↦ rw e (elim (Bool-cases (ltb value (2 ^ n))) [ inl f ↦ rw f tt | inr f ↦ rw f tt ])
]

module _ (bytes : Bytes) where
  refill-IsScan : (s : ScanState) → IsScan s → Ends IsScan (refill bytes s)
  unfolding refill
  refill-IsScan s h = Ends-refuse_if IsScan (leb (length bytes) s.scan_pos) _ (λ e.
      Ends->>= (λ b. Unit {0}) IsScan (element bytes s.scan_pos) _
        (byte-Ends bytes s.scan_pos (ground (arith, e))) (λ byte u. filled byte))
    where
      filled :
          (byte : ℕ)
          → Ends IsScan (
              if byte == 0xFF
              then refuse_if (leb (length bytes) (s.scan_pos + 1)) (
                  element bytes (s.scan_pos + 1) >>= λ next.
                  refuse_if
                    (not (next == 0))
                    (ok (record s { scan_pos = s.scan_pos + 2; bit_buffer = byte; bit_count = 8 })))
              else ok (record s { scan_pos = s.scan_pos + 1; bit_buffer = byte; bit_count = 8 }))
      filled byte = elim (Bool-cases (byte == 0xFF)) [
        | inl e ↦ rw e (
            Ends-refuse_if IsScan (leb (length bytes) (s.scan_pos + 1)) _ (λ f.
              Ends->>= (λ b. Unit {0}) IsScan (element bytes (s.scan_pos + 1)) _
                (byte-Ends bytes (s.scan_pos + 1) (ground (arith, f)))
                (λ next u. Ends-refuse_if IsScan (not (next == 0)) _ (λ g. h))))
        | inr e ↦ rw e h
      ]

  pub read_bit-Read : (s : ScanState) → IsScan s → Ends Read (read_bit bytes s)
  unfolding read_bit
  read_bit-Read s h =
      Ends->>= IsScan Read (if s.bit_count == 0 then refill bytes s else ok s) _ loaded (λ t k. k)
    where
      loaded : Ends IsScan (if s.bit_count == 0 then refill bytes s else ok s)
      loaded = elim (Bool-cases (s.bit_count == 0)) [
        | inl e ↦ rw e (refill-IsScan s h)
        | inr e ↦ rw e h
      ]

  read_bits_from-Read :
      (n value : ℕ) (s : ScanState) → IsScan s → Ends Read (read_bits_from bytes n value s)
  unfolding read_bits_from
  read_bits_from-Read zero value s h = h
  read_bits_from-Read (suc n) value s h =
      Ends->>= Read Read (read_bit bytes s) _ (read_bit-Read s h)
        (λ r k. read_bits_from-Read n ((value * 2 + r.0) % 2 ^ 32) r.1 k)

  pub read_bits-Read : (n : ℕ) (s : ScanState) → IsScan s → Ends Read (read_bits bytes n s)
  unfolding read_bits
  read_bits-Read n s h =
      Ends->>= Read Read (read_bits_from bytes n 0 s) _ (read_bits_from-Read n 0 s h)
        (λ r k. Ends-refuse_if Read (leb (2 ^ 31) r.0) _ (λ e. k))

  find_code-ReadSymbol :
      (P : ℕ → Type 0) (symbols : Bytes) (ranges : List (Option CodeRange)) (code : ℕ)
      (s : ScanState)
      → length symbols ≡ 256
      → All P symbols
      → IsScan s
      → Ends (ReadSymbol P) (find_code bytes symbols ranges code s)
  unfolding find_code
  find_code-ReadSymbol P symbols [] code s full all h = tt
  find_code-ReadSymbol P symbols (none ∷ longer) code s full all h =
      Ends->>= Read (ReadSymbol P) (read_bit bytes s) _ (read_bit-Read s h)
        (λ r k. find_code-ReadSymbol P symbols longer (code * 2 + r.0) r.1 full all k)
  find_code-ReadSymbol P symbols (some range ∷ longer) code s full all h =
      Ends->>= Read (ReadSymbol P) (read_bit bytes s) _ (read_bit-Read s h) (λ r k.
        elim (Bool-cases (leb (code * 2 + r.0) range.max_code)) [
          | inl e ↦ rw e (
              Ends-refuse_if (ReadSymbol P)
                (ltb (range.val_ptr + (code * 2 + r.0)) range.min_code
                  || leb 256 (range.val_ptr + (code * 2 + r.0) - range.min_code))
                _
                (λ f.
                  Ends->>= P (ReadSymbol P)
                    (element symbols (range.val_ptr + (code * 2 + r.0) - range.min_code)) _
                    (Ends-element P symbols (range.val_ptr + (code * 2 + r.0) - range.min_code) all
                      (ground (arith, f, full)))
                    (λ symbol p. (p, k))))
          | inr e ↦ rw e (find_code-ReadSymbol P symbols longer (code * 2 + r.0) r.1 full all k)
        ])

  pub decode_huffman-ReadSymbol :
      (P : ℕ → Type 0) (table : Huffman) (s : ScanState)
      → HasSymbols table
      → All P table.symbols
      → IsScan s
      → Ends (ReadSymbol P) (decode_huffman bytes table s)
  unfolding decode_huffman
  decode_huffman-ReadSymbol P table s full all h =
      Ends-refuse_if (ReadSymbol P) (not table.present) _
        (λ e. find_code-ReadSymbol P table.symbols table.codes 0 s full all h)

  pub read_difference-Read :
      (symbol : ℕ) (s : ScanState)
      → symbol ≤ 30
      → IsScan s
      → Ends Read (read_difference bytes symbol s)
  unfolding read_difference
  read_difference-Read symbol s le h = elim (Bool-cases (symbol == 0)) [
    | inl e ↦ rw e h
    | inr e ↦ rw e (
        Ends->>= Read Read (read_bits bytes symbol s) _ (read_bits-Read symbol s h) (λ r k.
          Ends->>= (λ v. Unit {0}) Read (extend r.0 symbol) _ (extend_defined r.0 symbol le)
            (λ v u. k)))
  ]

  abbrev AnySymbol : ℕ → Type 0
  AnySymbol n = Unit {0}

  All-AnySymbol : (ns : List ℕ) → All AnySymbol ns
  All-AnySymbol [] = tt
  All-AnySymbol (n ∷ ns) = (tt, All-AnySymbol ns)

  pub skip_coefficients-IsScan :
      (table : Huffman) (fuel coefficient : ℕ) (s : ScanState)
      → HasSymbols table
      → 0 < fuel
      → 64 < fuel + coefficient
      → IsScan s
      → Ends IsScan (skip_coefficients bytes table fuel coefficient s)
  unfolding skip_coefficients
  skip_coefficients-IsScan table zero coefficient s full some_fuel enough h = absurd (omega arith)
  skip_coefficients-IsScan table (suc fuel) coefficient s full some_fuel enough h =
      elim (Bool-cases (ltb coefficient 64)) [
        | inl e ↦ rw e (
            Ends->>= (ReadSymbol AnySymbol) IsScan (decode_huffman bytes table s) _
              (decode_huffman-ReadSymbol AnySymbol table s full (All-AnySymbol table.symbols) h)
              (λ r k. elim (Bool-cases (r.0 % 16 == 0)) [
                | inl f ↦ rw f (elim (Bool-cases (not (r.0 / 16 == 15))) [
                  | inl g ↦ rw g k.1
                  | inr g ↦ rw g (
                      skip_coefficients-IsScan table fuel (coefficient + 16) r.1 full
                        (ground (arith, e)) (omega arith) k.1)
                ])
                | inr f ↦ rw f (
                    Ends->>= Read IsScan (read_bits bytes (r.0 % 16) r.1) _
                      (read_bits-Read (r.0 % 16) r.1 k.1)
                      (λ v l.
                        skip_coefficients-IsScan table fuel (coefficient + r.0 / 16 + 1) v.1 full
                          (ground (arith, e)) (omega arith) l))
              ]))
        | inr e ↦ rw e h
      ]
