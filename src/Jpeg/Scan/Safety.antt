-- ===== src/Jpeg/Scan/Safety.antt =====
-- The picture is decoded within the bounds of every array, and to an end.
use sys_agent.Prelude.{
  ℕ, zero, suc, ◌+◌, ◌-◌, ◌*◌, ◌/◌, ◌≤◌, ◌<◌, ◌≡◌, refl, ◌∙◌, arith, true, false, not, ◌&&◌, ◌||◌,
  List, [], ◌∷◌, Bytes, All, All-set, All-replicate, length, length-set, length-replicate,
  replicate, ltb, leb, ◌==◌, if◌then◌else◌, Bool-cases, inl, inr,
}
use sys_agent.Prelude.Int.{ℤ, pos, negsuc, wrap_i32}
use sys_agent.Jpeg.{
  Answer, ok, refused, fault, unfinished, ◌>>=◌, element, Ends, Ends->>=, Ends-refuse_if,
  Ends-element, Ends-count_up,
}
use sys_agent.Jpeg.Code.{Huffman}
use sys_agent.Jpeg.Tables.{Decoder, Component, new_decoder}
use sys_agent.Jpeg.Header.Bounds.{HasStep, HasSymbols, IsDecoder, byte-Ends}
use sys_agent.Jpeg.Header.Markers.{HeaderRead, read_header-HeaderRead, new_decoder-IsDecoder}
use sys_agent.Jpeg.Scan.{
  ScanState, DcImage, clamp_byte, brightness, store_mean, decode_block, decode_component, restart,
  decode_mcu, decode_mcus, units, scan_start, decode_scan, read_start, decode, max_blocks_x,
  max_blocks_y,
}
use sys_agent.Jpeg.Scan.Bits.{
  IsRow, IsScan, Read, ReadSymbol, decode_huffman-ReadSymbol, read_difference-Read,
  skip_coefficients-IsScan,
}

-- The tables that a component names are in the decoder's arrays.
abbrev pub NamesTables : Component → Type 0
NamesTables c = (c.quant_id < 4) × (c.dc_table < 4) × (c.ac_table < 4)

-- A table's symbols are sizes for which the code of a difference is defined.
abbrev pub HasSizes : Huffman → Type 0
HasSizes table = (length table.symbols ≡ 256) × All (λ n. n ≤ 30) table.symbols

-- What the scan relies on and the header does not check: the tables of the components, and the symbols of the
-- tables for the first coefficient.
pub record TablesKnown (d : Decoder) : Type 0 where
  pub named : All NamesTables d.components
  pub sizes : (i : ℕ) → i < 4 → Ends HasSizes (element d.huffman (i * 2))

-- A picture within the bounds of its array, of bytes.
pub record IsPicture (image : DcImage) : Type 0 where
  pub wide : image.blocks_w ≤ max_blocks_x
  pub high : image.blocks_h ≤ max_blocks_y
  pub finished : image.complete ≡ true
  pub rows : length image.mean ≡ max_blocks_y
  pub row_bytes : All IsRow image.mean

clamp_byte-lt : (v : ℤ) → clamp_byte v < 256
unfolding clamp_byte
clamp_byte-lt (pos v) = omega arith
clamp_byte-lt (negsuc v) = omega arith

brightness-lt : (p : ℤ) (step : ℕ) → brightness p step < 256
unfolding brightness
brightness-lt (pos p) step = clamp_byte-lt (wrap_i32 (pos (p * step)))
brightness-lt (negsuc p) zero = clamp_byte-lt (pos 0)
brightness-lt (negsuc p) (suc step) = clamp_byte-lt (wrap_i32 (negsuc ((p + 1) * suc step - 1)))

All-AnyInt : (vs : List ℤ) → All (λ v. Unit {0}) vs
All-AnyInt [] = tt
All-AnyInt (v ∷ vs) = (tt, All-AnyInt vs)

module _ (bytes : Bytes) where
  module _ (d : Decoder) (luma : Component) (header : IsDecoder bytes d) (known : TablesKnown d)
      (luma_table : luma.quant_id < 4) (wide : luma.blocks_w ≤ max_blocks_x)
      (high : luma.blocks_h ≤ max_blocks_y) where
    store_mean-IsScan :
        (row column : ℕ) (prediction : ℤ) (s : ScanState)
        → IsScan s
        → Ends IsScan (store_mean bytes d luma row column prediction s)
    unfolding store_mean
    store_mean-IsScan row column prediction s h =
        elim (Bool-cases (ltb column luma.blocks_w && ltb row luma.blocks_h)) [
          | inl e ↦ rw e (
              Ends->>= HasStep IsScan (element d.quants luma.quant_id) _
                (Ends-element HasStep d.quants luma.quant_id header.steps
                  (omega (arith, header.quant_tables)))
                (λ table filled.
                  Ends->>= (λ v. Unit {0}) IsScan (element table 0) _ (byte-Ends table 0 filled)
                    (λ step u.
                      Ends->>= IsRow IsScan (element s.mean row) _
                        (Ends-element IsRow s.mean row h.2 (ground (arith, e, h.1)))
                        (λ line is_row.
                          Ends->>= (λ v. Unit {0}) IsScan (element line column) _
                            (byte-Ends line column (ground (arith, e, is_row.0)))
                            (λ old v. (
                              h.0,
                              length-set s.mean row _ ∙ h.1,
                              All-set IsRow s.mean row _ h.2 (
                                length-set line column _ ∙ is_row.0,
                                All-set (λ b. b < 256) line column _ is_row.1
                                    (brightness-lt prediction step),
                              ),
                            ))))))
          | inr e ↦ rw e h
        ]

    decode_block-IsScan :
        (c : ℕ) (component : Component) (mcu_y mcu_x block_y block_x : ℕ) (s : ScanState)
        → c < 4
        → NamesTables component
        → IsScan s
        → Ends IsScan (decode_block bytes d luma c component mcu_y mcu_x block_y block_x s)
    unfolding decode_block
    decode_block-IsScan c component mcu_y mcu_x block_y block_x s lt names h =
        Ends->>= HasSizes IsScan (element d.huffman (component.dc_table * 2)) _
          (known.sizes component.dc_table names.1)
          (λ dc sized.
            Ends->>= HasSymbols IsScan (element d.huffman (component.ac_table * 2 + 1)) _
              (Ends-element HasSymbols d.huffman (component.ac_table * 2 + 1) header.symbols
                (omega (arith, header.huffman_tables, names.2)))
              (λ ac full.
                Ends->>= (ReadSymbol (λ n. n ≤ 30)) IsScan _ _
                  (decode_huffman-ReadSymbol bytes (λ n. n ≤ 30) dc s sized.0 sized.1 h)
                  (λ r k.
                    Ends->>= Read IsScan _ _ (read_difference-Read bytes r.0 r.1 k.0 k.1) (λ v l.
                      Ends->>= (λ i. Unit {0}) IsScan (element v.1.predictions c) _
                        (Ends-element (λ i. Unit) v.1.predictions c (All-AnyInt v.1.predictions)
                          (omega (arith, l.0)))
                        (λ old u.
                          Ends->>= IsScan IsScan _ _
                            (stored _ _ (length-set v.1.predictions c _ ∙ l.0, l.1, l.2))
                            (λ t m.
                              skip_coefficients-IsScan bytes ac 64 1 t full (omega arith)
                                (omega arith) m))))))
      where
        stored :
            (prediction : ℤ) (t : ScanState)
            → IsScan t
            → Ends IsScan (
                if c == 0
                then store_mean bytes d luma
                    (mcu_y * component.v_factor + block_y)
                    (mcu_x * component.h_factor + block_x)
                    prediction
                    t
                else ok t)
        stored prediction t k = elim (Bool-cases (c == 0)) [
          | inl e ↦ rw e (store_mean-IsScan _ _ prediction t k)
          | inr e ↦ rw e k
        ]

    decode_component-IsScan :
        (mcu_y mcu_x c : ℕ) (s : ScanState)
        → c < 4
        → IsScan s
        → Ends IsScan (decode_component bytes d luma mcu_y mcu_x c s)
    unfolding decode_component
    decode_component-IsScan mcu_y mcu_x c s lt h =
        Ends->>= NamesTables IsScan (element d.components c) _
          (Ends-element NamesTables d.components c known.named
            (omega (arith, header.component_array)))
          (λ component names.
            Ends-count_up IsScan component.v_factor component.v_factor 0 _ s
              (λ y t below k.
                Ends-count_up IsScan component.h_factor component.h_factor 0 _ t
                  (λ x u within l. decode_block-IsScan c component mcu_y mcu_x y x u lt names l)
                  (omega arith) k)
              (omega arith) h)

    restart-IsScan : (s : ScanState) → IsScan s → Ends IsScan (restart bytes d luma s)
    unfolding restart
    restart-IsScan s h =
        elim (Bool-cases (not (d.restart_interval == 0) && s.since_restart == d.restart_interval)) [
          | inl e ↦ rw e (
              Ends-refuse_if IsScan (leb (length bytes) (s.scan_pos + 1)) _ (λ f.
                Ends->>= (λ b. Unit {0}) IsScan (element bytes s.scan_pos) _
                  (byte-Ends bytes s.scan_pos (ground (arith, f)))
                  (λ first u.
                    Ends->>= (λ b. Unit {0}) IsScan (element bytes (s.scan_pos + 1)) _
                      (byte-Ends bytes (s.scan_pos + 1) (ground (arith, f)))
                      (λ marker v.
                        Ends-refuse_if IsScan (not (first == 0xFF) || not (marker / 8 == 0xD0 / 8))
                          _
                          (λ g.
                            (length-replicate (length s.predictions) (pos 0) ∙ h.0, h.1, h.2))))))
          | inr e ↦ rw e h
        ]

    decode_mcu-IsScan :
        (mcu_y mcu_x : ℕ) (s : ScanState)
        → IsScan s
        → Ends IsScan (decode_mcu bytes d luma mcu_y mcu_x s)
    unfolding decode_mcu
    decode_mcu-IsScan mcu_y mcu_x s h =
        Ends->>= IsScan IsScan _ _
          (Ends->>= IsScan IsScan (restart bytes d luma s) _ (restart-IsScan s h) (λ t k.
            Ends-count_up IsScan d.component_count d.component_count 0 _ t
              (λ c u lt l.
                decode_component-IsScan mcu_y mcu_x c u (omega (arith, header.few_components)) l)
              (omega arith) k))
          (λ t k. k)

    decode_mcus-IsScan : (s : ScanState) → IsScan s → Ends IsScan (decode_mcus bytes d luma s)
    unfolding decode_mcus
    decode_mcus-IsScan s h =
        Ends-count_up IsScan (units bytes d luma d.height d.max_v_factor) _ 0 _ s
          (λ y t below k.
            Ends-count_up IsScan (units bytes d luma d.width d.max_h_factor) _ 0 _ t
              (λ x u within l. decode_mcu-IsScan y x u l) (omega arith) k)
          (omega arith) h

  scan_start-IsScan : (at : ℕ) → IsScan (scan_start bytes at)
  scan_start-IsScan at = (
    refl,
    length-replicate max_blocks_y (replicate {A = ℕ} max_blocks_x 0),
    All-replicate IsRow max_blocks_y (replicate {A = ℕ} max_blocks_x 0) (
      length-replicate {A = ℕ} max_blocks_x 0,
      All-replicate (λ b. b < 256) max_blocks_x 0 (omega arith),
    ),
  )

  decode_scan-IsPicture :
      (d : Decoder) (at : ℕ)
      → IsDecoder bytes d
      → TablesKnown d
      → Ends IsPicture (decode_scan bytes d at)
  unfolding decode_scan
  decode_scan-IsPicture d at header known =
      Ends->>= NamesTables IsPicture (element d.components 0) _
        (Ends-element NamesTables d.components 0 known.named
          (omega (arith, header.component_array)))
        (λ luma names.
          Ends-refuse_if IsPicture
            (ltb max_blocks_x luma.blocks_w || ltb max_blocks_y luma.blocks_h) _
            (λ e.
              let wide : luma.blocks_w ≤ max_blocks_x = ground (arith, e) in
              let high : luma.blocks_h ≤ max_blocks_y = ground (arith, e) in
              Ends->>= IsScan IsPicture (decode_mcus bytes d luma (scan_start bytes at)) _
                (decode_mcus-IsScan d luma header known names.0 wide high (scan_start bytes at)
                  (scan_start-IsScan at))
                (λ s k. record {
                  wide = wide;
                  high = high;
                  finished = refl;
                  rows = k.1;
                  row_bytes = k.2;
                })))

  -- Whatever bytes a file holds, reading its markers up to the scan ends within its fuel, reads no array out of its
  -- bounds, and either refuses the file or leaves a decoder whose position is inside the file and whose tables
  -- have their full sizes, with at most four components.
  pub read_start-HeaderRead : Ends (HeaderRead bytes) (read_start bytes)
  unfolding read_start
  read_start-HeaderRead = Ends-refuse_if (HeaderRead bytes) (ltb (length bytes) 4) _ (λ e.
      Ends->>= (λ b. Unit {0}) (HeaderRead bytes) (element bytes 0) _
        (byte-Ends bytes 0 (ground (arith, e)))
        (λ first u.
          Ends->>= (λ b. Unit {0}) (HeaderRead bytes) (element bytes 1) _
            (byte-Ends bytes 1 (ground (arith, e)))
            (λ second v.
              Ends-refuse_if (HeaderRead bytes) (not (first == 0xFF) || not (second == 0xD8)) _
                (λ f.
                  read_header-HeaderRead bytes (length bytes + 1) false new_decoder (omega arith)
                    (new_decoder-IsDecoder bytes (ground (arith, e)))))))

  -- If the decoder behind the markers names only tables that it has, and the symbols of its tables for the first
  -- coefficients are at most 30, decoding ends, reads and writes no array out of its bounds, and either refuses the
  -- file or gives a complete picture of at most 192 times 136 blocks in an array of that size, of bytes.
  pub decode-IsPicture :
      ((d : Decoder) (at : ℕ) → read_start bytes ≡ ok (d, at) → TablesKnown d)
      → Ends IsPicture (decode bytes)
  unfolding decode
  decode-IsPicture known = go (read_start bytes) refl read_start-HeaderRead
    where
      go :
          (r : Answer (Decoder × ℕ))
          → read_start bytes ≡ r
          → Ends (HeaderRead bytes) r
          → Ends IsPicture (r >>= λ (d, at). decode_scan bytes d at)
      go (ok (d, at)) e h = decode_scan-IsPicture d at h (known d at e)
      go refused e h = tt
      go fault e h = h
      go unfinished e h = h
