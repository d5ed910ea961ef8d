-- ===== src/Jpeg/Header/Bounds.antt =====
-- The markers are read within the bounds of every array, and to an end.
use sys_agent.Prelude.{
  ℕ, zero, suc, ◌+◌, ◌*◌, ◌/◌, ◌%◌, ◌≤◌, ◌<◌, ◌≡◌, refl, ap, ◌∙◌, arith, false, not, List, [], ◌∷◌,
  ◌++◌, Bytes, All, All-set, length, length-set, length-append, length-drop, drop, set, ltb, ltb→le,
  leb, ◌==◌, if◌then◌else◌, Bool-cases, inl, inr,
}
use sys_agent.Jpeg.{Answer, ok, element, Ends, Ends->>=, Ends-refuse_if, Ends-element}
use sys_agent.Jpeg.Code.{Huffman}
use sys_agent.Jpeg.Tables.{
  Decoder, read_u8, read_u16, read_many, parse_quant_table, parse_huffman_table, total_of,
  bad_table, parse_tables,
}

-- A table of quantisers has its first entry, which is the one that is used.
abbrev pub HasStep : Bytes → Type 0
HasStep table = 0 < length table

-- A Huffman table has its 256 symbols.
abbrev pub HasSymbols : Huffman → Type 0
HasSymbols table = length table.symbols ≡ 256

module _ (bytes : Bytes) where
  -- The arrays of a decoder have their sizes, and the position is inside the file.
  pub record IsDecoder (d : Decoder) : Type 0 where
    pub inside : d.at ≤ length bytes
    pub quant_tables : length d.quants ≡ 4
    pub steps : All HasStep d.quants
    pub huffman_tables : length d.huffman ≡ 8
    pub symbols : All HasSymbols d.huffman
    pub component_array : length d.components ≡ 4
    pub few_components : d.component_count ≤ 4

  -- A value was read, and the position is further on.
  abbrev pub Advanced : Decoder → {A : Type 0} → A × Decoder → Type 0
  Advanced d r = (d.at < r.1.at) × IsDecoder r.1

  -- A step left the decoder in order, no further back.
  abbrev pub Kept : ℕ → Decoder → Type 0
  Kept at d = (at ≤ d.at) × IsDecoder d

  -- The bytes at a place inside the file.
  pub byte-Ends : (i : ℕ) → i < length bytes → Ends (λ b. Unit {0}) (element bytes i)
  byte-Ends i lt = Ends-element (λ b. Unit) bytes i (go bytes) lt
    where
      go : (bs : Bytes) → All (λ b. Unit {0}) bs
      go [] = tt
      go (b ∷ bs) = (tt, go bs)

  pub read_u8-Advanced : (d : Decoder) → IsDecoder d → Ends (Advanced d) (read_u8 bytes d)
  unfolding read_u8
  read_u8-Advanced d h = Ends-refuse_if (Advanced d) (leb (length bytes) d.at) _ (λ e.
      Ends->>= (λ b. Unit) (Advanced d) (element bytes d.at) _ (byte-Ends d.at (ground arith))
        (λ b u. ground arith))

  pub read_u16-Advanced : (d : Decoder) → IsDecoder d → Ends (Advanced d) (read_u16 bytes d)
  unfolding read_u16
  read_u16-Advanced d h = Ends-refuse_if (Advanced d) (leb (length bytes) (d.at + 1)) _ (λ e.
      Ends->>= (λ b. Unit) (Advanced d) (element bytes d.at) _ (byte-Ends d.at (ground arith))
        (λ high u.
          Ends->>= (λ b. Unit) (Advanced d) (element bytes (d.at + 1)) _
            (byte-Ends (d.at + 1) (ground arith)) (λ low u. ground arith)))

  -- What a run of values gives.
  abbrev IsRun : ℕ → ℕ → List ℕ × Decoder → Type 0
  IsRun n at r = (length r.0 ≡ n) × Kept at r.1

  read_many-IsRun :
      (reader : Decoder → Answer (ℕ × Decoder)) (n at : ℕ) (d : Decoder)
      → ((t : Decoder) → IsDecoder t → Ends (Advanced t) (reader t))
      → Kept at d
      → Ends (IsRun n at) (read_many bytes reader n d)
  unfolding read_many
  read_many-IsRun reader zero at d reads h = (refl, h)
  read_many-IsRun reader (suc n) at d reads h =
      Ends->>= (Advanced d) (IsRun (suc n) at) (reader d) _ (reads d h.1) (λ r a.
        Ends->>= (IsRun n at) (IsRun (suc n) at) (read_many bytes reader n r.1) _
          (read_many-IsRun reader n at r.1 reads (omega (arith, h.0, a.0), a.1))
          (λ rs k. (ap suc k.0, k.1)))

  -- A table was read.
  abbrev pub Parsed : Decoder → Decoder → Type 0
  Parsed d d' = (d.at < d'.at) × IsDecoder d'

  pub parse_quant_table-Parsed :
      (d : Decoder) → IsDecoder d → Ends (Parsed d) (parse_quant_table bytes d)
  unfolding parse_quant_table
  parse_quant_table-Parsed d h =
      Ends->>= (Advanced d) (Parsed d) (read_u8 bytes d) _ (read_u8-Advanced d h) (λ r a.
        Ends-refuse_if (Parsed d) (bad_table bytes r.0) _ (λ e.
          Ends->>= (IsRun 64 r.1.at) (Parsed d)
            (read_many bytes (if r.0 / 16 == 0 then read_u8 bytes else read_u16 bytes) 64 r.1) _
            (read_many-IsRun _ 64 r.1.at r.1 (either r.0) (omega arith, a.1))
            (λ v k. (
              omega (arith, a.0, k.1.0),
              with_quants v.1 (r.0 % 16) v.0 k.1.1 (omega (arith, k.0)),
            ))))
    where
      either :
          (spec : ℕ) (t : Decoder)
          → IsDecoder t
          → Ends (Advanced t) ((if spec / 16 == 0 then read_u8 bytes else read_u16 bytes) t)
      either spec t g = elim (Bool-cases (spec / 16 == 0)) [
        | inl e ↦ rw e (read_u8-Advanced t g)
        | inr e ↦ rw e (read_u16-Advanced t g)
      ]

      with_quants :
          (t : Decoder) (i : ℕ) (values : Bytes)
          → IsDecoder t
          → 0 < length values
          → IsDecoder (record t { quants = set t.quants i values })
      with_quants t i values g some_value = record {
        inside = g.inside;
        quant_tables = length-set t.quants i values ∙ g.quant_tables;
        steps = All-set HasStep t.quants i values g.steps some_value;
        huffman_tables = g.huffman_tables;
        symbols = g.symbols;
        component_array = g.component_array;
        few_components = g.few_components;
      }

  pub parse_huffman_table-Parsed :
      (d : Decoder) → IsDecoder d → Ends (Parsed d) (parse_huffman_table bytes d)
  unfolding parse_huffman_table
  parse_huffman_table-Parsed d h =
      Ends->>= (Advanced d) (Parsed d) (read_u8 bytes d) _ (read_u8-Advanced d h) (λ r a.
        Ends-refuse_if (Parsed d) (bad_table bytes r.0) _ (λ e.
          Ends->>= (IsRun 16 r.1.at) (Parsed d) (read_many bytes (read_u8 bytes) 16 r.1) _
            (read_many-IsRun _ 16 r.1.at r.1 read_u8-Advanced (omega arith, a.1))
            (λ c k. Ends-refuse_if (Parsed d) (ltb 256 (total_of bytes c.0)) _ (λ few.
              Ends->>= (IsRun (total_of bytes c.0) c.1.at) (Parsed d)
                (read_many bytes (read_u8 bytes) (total_of bytes c.0) c.1) _
                (read_many-IsRun _ (total_of bytes c.0) c.1.at c.1 read_u8-Advanced
                  (omega arith, k.1.1))
                (λ s l.
                  Ends->>= HasSymbols (Parsed d) (element s.1.huffman (r.0 % 16 * 2 + r.0 / 16)) _
                    (Ends-element HasSymbols s.1.huffman (r.0 % 16 * 2 + r.0 / 16) l.1.1.symbols
                      (omega (arith, l.1.1.huffman_tables, small r.0 e)))
                    (λ old full. (
                      omega (arith, a.0, k.1.0, l.1.0),
                      with_huffman s.1 (r.0 % 16 * 2 + r.0 / 16) _ l.1.1 (
                          sized s.0 old.symbols (total_of bytes c.0) l.0 full
                            (ltb→le 256 (total_of bytes c.0) few)),
                    )))))))
    where
      small : (spec : ℕ) → bad_table bytes spec ≡ false → spec % 16 * 2 + spec / 16 < 8
      small spec e = ground arith

      sized :
          (new old : Bytes) (n : ℕ)
          → length new ≡ n
          → length old ≡ 256
          → n ≤ 256
          → length (new ++ drop (length new) old) ≡ 256
      sized new old n e f le =
          omega (arith, length-append new (drop (length new) old), length-drop (length new) old)

      with_huffman :
          (t : Decoder) (i : ℕ) (table : Huffman)
          → IsDecoder t
          → HasSymbols table
          → IsDecoder (record t { huffman = set t.huffman i table })
      with_huffman t i table g full = record {
        inside = g.inside;
        quant_tables = g.quant_tables;
        steps = g.steps;
        huffman_tables = length-set t.huffman i table ∙ g.huffman_tables;
        symbols = All-set HasSymbols t.huffman i table g.symbols full;
        component_array = g.component_array;
        few_components = g.few_components;
      }

  pub parse_tables-Kept :
      (table : Decoder → Answer Decoder) (fuel end at : ℕ) (d : Decoder)
      → ((t : Decoder) → IsDecoder t → Ends (Parsed t) (table t))
      → length bytes < fuel + d.at
      → Kept at d
      → Ends (Kept at) (parse_tables bytes table fuel end d)
  unfolding parse_tables
  parse_tables-Kept table zero end at d reads enough h = absurd (omega (arith, h.1.inside))
  parse_tables-Kept table (suc fuel) end at d reads enough h = elim (Bool-cases (ltb d.at end)) [
    | inl more ↦ rw more (
        Ends->>= (Parsed d) (Kept at) (table d) _ (reads d h.1) (λ t a.
          parse_tables-Kept table fuel end at t reads (omega (arith, a.0))
            (omega (arith, h.0, a.0), a.1)))
    | inr less ↦ rw less (Ends-refuse_if (Kept at) (not (d.at == end)) (ok d) (λ e. h))
  ]
