-- ===== src/Jpeg/Header.antt =====
-- The markers of sys-agent/source/jpeg_dc.c: the frame, the scan's header and the loop over them.
pub mod Bounds
pub mod Safety
pub mod Markers
use sys_agent.Prelude.{
  ℕ, zero, suc, ◌+◌, ◌-◌, ◌*◌, ◌/◌, ◌%◌, Bool, true, false, not, ◌&&◌, ◌||◌, Option, none, some,
  List, [], ◌∷◌, ◌++◌, Bytes, length, drop, set, replicate, ltb, leb, ◌==◌, if◌then◌else◌,
}
use sys_agent.Jpeg.{Answer, ok, refused, fault, unfinished, ◌>>=◌, refuse_if, element, count_up}
use sys_agent.Jpeg.Code.{Huffman, CodeRange, assign_codes}
use sys_agent.Jpeg.Tables.{
  Component, Decoder, no_component, no_huffman, new_decoder, larger, read_u8, read_u16, next_marker,
  read_many, bad_table, parse_quant_table, total_of, parse_huffman_table, parse_tables,
}

module _ (bytes : Bytes) where
  -- The first loop of `jpegParseFrame`.
  unfoldable pub parse_component : ℕ → Decoder → Answer Decoder
  parse_component i d = read_u8 bytes d >>= λ (id, d1). read_u8 bytes d1 >>= λ (sampling, d2).
      read_u8 bytes d2 >>= λ (quant_id, d3). element d3.components i >>= λ old.
      refuse_if
        (sampling / 16 == 0 || ltb 4 (sampling / 16) || sampling % 16 == 0 || ltb 4 (sampling % 16))
        (ok (record d3 {
          components = set d3.components i (record old {
            id = id;
            h_factor = sampling / 16;
            v_factor = sampling % 16;
            quant_id = quant_id;
          });
          max_h_factor = larger (sampling / 16) d3.max_h_factor;
          max_v_factor = larger (sampling % 16) d3.max_v_factor;
        }))

  -- The second loop of `jpegParseFrame`; the factors are not 0 there.
  unfoldable pub size_component : ℕ → Decoder → Answer Decoder
  size_component i d = element d.components i >>= λ c. ok (record d {
    components = set d.components i (record c {
      blocks_w = ((d.width * c.h_factor + d.max_h_factor - 1) / d.max_h_factor + 7) / 8;
      blocks_h = ((d.height * c.v_factor + d.max_v_factor - 1) / d.max_v_factor + 7) / 8;
    });
  })

  -- `jpegParseFrame`
  unfoldable pub parse_frame : ℕ → ℕ → Decoder → Answer Decoder
  parse_frame size marker d = refuse_if (not (marker == 0xC0)) (
      read_u8 bytes d >>= λ (precision, d1). refuse_if (not (precision == 8)) (
        read_u16 bytes d1 >>= λ (height, d2). read_u16 bytes d2 >>= λ (width, d3).
        read_u8 bytes d3 >>= λ (count, d4). refuse_if (count == 0 || ltb 4 count) (
          refuse_if (not (size == 8 + 3 * count)) (
            count_up count 0 parse_component (record d4 {
              width = width;
              height = height;
              component_count = count;
              max_h_factor = 1;
              max_v_factor = 1;
            })
            >>= count_up count 0 size_component
            >>= λ d5. refuse_if (d5.width == 0 || d5.height == 0) (ok d5)))))

  -- The search for a component by its id, from index `i` on with `n` left.
  unfoldable pub find_component : List Component → ℕ → ℕ → ℕ → Option ℕ
  find_component components id zero i = none
  find_component [] id (suc n) i = none
  find_component (c ∷ rest) id (suc n) i =
      let further = find_component rest id n (i + 1) in if c.id == id then some i else further

  -- One component of `jpegParseScan`.
  unfoldable pub parse_selector : ℕ → Decoder → Answer Decoder
  parse_selector i d = read_u8 bytes d >>= λ (id, d1). read_u8 bytes d1 >>= λ (tables, d2).
      elim (find_component d2.components id d2.component_count 0) [
        | none ↦ refused
        | some j ↦ element d2.components j >>= λ c. ok (record d2 {
          components =
              set d2.components j (record c { dc_table = tables / 16; ac_table = tables % 16 });
        })
      ]

  -- `jpegParseScan`
  unfoldable pub parse_scan : ℕ → Decoder → Answer Decoder
  parse_scan size d = read_u8 bytes d >>= λ (count, d1).
      refuse_if (count == 0 || ltb d1.component_count count) (
        refuse_if (not (size == 6 + 2 * count)) (
          count_up count 0 parse_selector d1 >>= λ d2. read_u8 bytes d2 >>= λ (start, d3).
          read_u8 bytes d3 >>= λ (last, d4). read_u8 bytes d4 >>= λ (approximation, d5).
          refuse_if (not (start == 0 && last == 63 && approximation == 0)) (ok d5)))

  -- The markers of a frame.
  unfoldable pub is_frame : ℕ → Bool
  is_frame marker =
      leb 0xC0 marker
      && leb marker 0xCF
      && not (marker == 0xC4)
      && not (marker == 0xC8)
      && not (marker == 0xCC)

  -- The `switch` over a marker in front of the scan, with the size of its payload: whether a frame has been seen.
  unfoldable pub parse_segment : ℕ → ℕ → ℕ → Bool → Decoder → Answer (Bool × Decoder)
  parse_segment fuel marker size saw_frame d =
      if is_frame marker
      then (parse_frame size marker d >>= λ d'. ok (true, d'))
      else if marker == 0xC4
      then (parse_tables bytes (parse_huffman_table bytes) fuel (d.at + (size - 2)) d >>= λ d'.
          ok (saw_frame, d'))
      else if marker == 0xDB
      then (parse_tables bytes (parse_quant_table bytes) fuel (d.at + (size - 2)) d >>= λ d'.
          ok (saw_frame, d'))
      else if marker == 0xDD
      then refuse_if (not (size - 2 == 2)) (
          read_u16 bytes d >>= λ (interval, d').
          ok (saw_frame, record d' { restart_interval = interval }))
      else ok (saw_frame, record d { at = d.at + (size - 2) })

  -- The branch of `jpegDcDecode` for the start of the scan: the decoder and where the scan begins.
  unfoldable pub start_scan : Bool → Decoder → Answer (Decoder × ℕ)
  start_scan saw_frame d = read_u16 bytes d >>= λ (size, d1). refuse_if (ltb size 2) (
      refuse_if (not saw_frame) (
        refuse_if (ltb (length bytes) (d1.at - 2 + size))
          (parse_scan size d1 >>= λ d2. ok (d2, d1.at - 2 + size))))

  -- The loop of `jpegDcDecode` over the markers in front of the scan.
  unfoldable pub read_header : ℕ → Bool → Decoder → Answer (Decoder × ℕ)
  read_header zero saw_frame d = unfinished
  read_header (suc fuel) saw_frame d =
      let again : Bool × Decoder → Answer (Decoder × ℕ) = λ (saw, d'). read_header fuel saw d' in
      next_marker bytes (length bytes + 1) d >>= λ (marker, d1). elim marker [
        | none ↦ refused
        | some m ↦
            if m == 0xD9
            then refused
            else if m == 0xDA
            then start_scan saw_frame d1
            else read_u16 bytes d1 >>= λ (size, d2). refuse_if (ltb size 2) (
                refuse_if (ltb (length bytes) (d2.at + (size - 2)))
                  (parse_segment (length bytes + 1) m size saw_frame d2 >>= again))
      ]
