-- ===== src/Jpeg/Tables.antt =====
-- The state of sys-agent/source/jpeg_dc.c while the markers are read, its readers, and its tables. The fields of
-- `JpegDecoder` that only the scan changes are in `Jpeg.Scan`.
use sys_agent.Prelude.{
  ℕ, zero, suc, ◌+◌, ◌*◌, ◌/◌, ◌%◌, Bool, true, false, not, ◌||◌, Option, none, some, List, [], ◌∷◌,
  ◌++◌, Bytes, length, drop, set, replicate, ltb, leb, ◌==◌, if◌then◌else◌,
}
use sys_agent.Jpeg.{Answer, ok, unfinished, ◌>>=◌, refuse_if, element}
use sys_agent.Jpeg.Code.{Huffman, assign_codes}

-- `JpegComponent`, but for its prediction.
pub record Component : Type 0 where
  pub id : ℕ
  pub h_factor : ℕ
  pub v_factor : ℕ
  pub quant_id : ℕ
  pub dc_table : ℕ
  pub ac_table : ℕ
  pub blocks_w : ℕ
  pub blocks_h : ℕ

-- `JpegDecoder` while the markers are read.
pub record Decoder : Type 0 where
  pub at : ℕ
  pub quants : List Bytes
  pub huffman : List Huffman
  pub components : List Component
  pub component_count : ℕ
  pub max_h_factor : ℕ
  pub max_v_factor : ℕ
  pub width : ℕ
  pub height : ℕ
  pub restart_interval : ℕ

abbrev pub no_component : Component
no_component = record {
  id = 0;
  h_factor = 0;
  v_factor = 0;
  quant_id = 0;
  dc_table = 0;
  ac_table = 0;
  blocks_w = 0;
  blocks_h = 0;
}

abbrev pub no_huffman : Huffman
no_huffman = record { present = false; symbols = replicate 256 0; codes = [] }

-- `memset(&decoder, 0, sizeof(decoder))`, behind the two bytes of SOI.
abbrev pub new_decoder : Decoder
new_decoder = record {
  at = 2;
  quants = replicate 4 (replicate 64 0);
  huffman = replicate 8 no_huffman;
  components = replicate 4 no_component;
  component_count = 0;
  max_h_factor = 0;
  max_v_factor = 0;
  width = 0;
  height = 0;
  restart_interval = 0;
}

-- The largest of two factors.
abbrev pub larger : ℕ → ℕ → ℕ
larger a b = if ltb b a then a else b

module _ (bytes : Bytes) where
  -- `jpegReadU8`
  unfoldable pub read_u8 : Decoder → Answer (ℕ × Decoder)
  read_u8 d =
      refuse_if (leb (length bytes) d.at)
        (element bytes d.at >>= λ b. ok (b, record d { at = d.at + 1 }))

  -- `jpegReadU16`
  unfoldable pub read_u16 : Decoder → Answer (ℕ × Decoder)
  read_u16 d = refuse_if (leb (length bytes) (d.at + 1)) (
      element bytes d.at >>= λ high.
      element bytes (d.at + 1) >>= λ low. ok (high * 256 + low, record d { at = d.at + 2 }))

  -- `jpegNextMarker`; `none` stands for -1.
  unfoldable pub next_marker : ℕ → Decoder → Answer (Option ℕ × Decoder)
  next_marker zero d = unfinished
  next_marker (suc fuel) d =
      let behind_one = next_marker fuel (record d { at = d.at + 1 }) in
      let behind_two = next_marker fuel (record d { at = d.at + 2 }) in
      if leb (length bytes) (d.at + 1)
      then ok (none, d)
      else element bytes d.at >>= λ first. element bytes (d.at + 1) >>= λ marker.
          if not (first == 0xFF)
          then behind_one
          else if marker == 0xFF
          then behind_one
          else if marker == 0
          then behind_two
          else ok (some marker, record d { at = d.at + 2 })

  -- A run of values that one reader reads.
  unfoldable pub read_many :
      (Decoder → Answer (ℕ × Decoder)) → ℕ → Decoder → Answer (List ℕ × Decoder)
  read_many reader zero d = ok ([], d)
  read_many reader (suc n) d =
      reader d >>= λ (v, d'). read_many reader n d' >>= λ (vs, d''). ok (v ∷ vs, d'')

  -- An id above 3, or a precision or a class of table above 1.
  abbrev pub bad_table : ℕ → Bool
  bad_table spec = ltb 3 (spec % 16) || ltb 1 (spec / 16)

  -- One table of `jpegParseQuant`.
  unfoldable pub parse_quant_table : Decoder → Answer Decoder
  parse_quant_table d = read_u8 d >>= λ (spec, d1). refuse_if (bad_table spec) (
      read_many (if spec / 16 == 0 then read_u8 else read_u16) 64 d1 >>= λ (values, d2).
      ok (record d2 { quants = set d2.quants (spec % 16) values }))

  -- The sum of the counts.
  unfoldable pub total_of : List ℕ → ℕ
  total_of [] = 0
  total_of (n ∷ ns) = n + total_of ns

  -- One table of `jpegParseHuffman`. The symbols behind those read are the ones of an earlier table.
  unfoldable pub parse_huffman_table : Decoder → Answer Decoder
  unfolding total_of
  parse_huffman_table d = read_u8 d >>= λ (spec, d1). refuse_if (bad_table spec) (
      read_many read_u8 16 d1 >>= λ (counts, d2). refuse_if (ltb 256 (total_of counts)) (
        read_many read_u8 (total_of counts) d2 >>= λ (symbols, d3).
        element d3.huffman (spec % 16 * 2 + spec / 16) >>= λ old. ok (record d3 {
          huffman = set d3.huffman (spec % 16 * 2 + spec / 16) (record {
            present = true;
            symbols = symbols ++ drop (length symbols) old.symbols;
            codes = assign_codes 0 0 counts;
          });
        })))

  -- The loop of `jpegParseQuant` and `jpegParseHuffman` over the tables up to `end`.
  unfoldable pub parse_tables : (Decoder → Answer Decoder) → ℕ → ℕ → Decoder → Answer Decoder
  parse_tables table zero end d = unfinished
  parse_tables table (suc fuel) end d =
      let more = table d >>= parse_tables table fuel end in
      if ltb d.at end then more else refuse_if (not (d.at == end)) (ok d)
