-- ===== src/Jpeg/Tests.antt =====
-- A picture of one block, for sys-agent/source/jpeg_dc.c.
use sys_agent.Prelude.{
  ℕ, zero, suc, ◌≤◌, ◌<◌, ◌*◌, ◌∙◌, sym, subst, ◌≡◌, refl, ap, arith, Option, none, some, List, [],
  ◌∷◌, ◌++◌, Bytes, true, All, All-replicate, replicate, get_elem?,
}
use sys_agent.Prelude.Int.{wrap_i32, ◌+ℤ◌}
use sys_agent.Jpeg.{count_up, Answer, ok, refused, fault, unfinished, element, Ends}
use sys_agent.Jpeg.Code.{assign_codes, CodeRange}
use sys_agent.Jpeg.Tables.{
  Decoder, new_decoder, no_huffman, no_component, next_marker, read_u16, parse_tables,
  parse_quant_table, read_u8, read_many, parse_huffman_table, total_of,
}
use sys_agent.Jpeg.Header.{
  read_header, parse_segment, is_frame, parse_frame, parse_component, size_component, start_scan,
  parse_scan, find_component, parse_selector,
}
use sys_agent.Jpeg.Header.Markers.{HeaderRead}
use sys_agent.Jpeg.Scan.Canonical.{canonical_code, bits_of, find_code-canonical_code}
use sys_agent.Jpeg.Scan.{
  ScanState, DcImage, read_start, decode, brightness, clamp_byte, decode_block, decode_component,
  decode_huffman, decode_mcu, decode_mcus, decode_scan, extend, find_code, read_bit, read_bits,
  read_bits_from, read_difference, refill, restart, skip_coefficients, store_mean,
}
use sys_agent.Jpeg.Scan.Safety.{
  TablesKnown, NamesTables, HasSizes, IsPicture, read_start-HeaderRead, decode-IsPicture,
}

-- Steps of 16, a frame of one component, tables with one code each, and the difference 6.
abbrev one_block : Bytes
one_block =
    0xFF ∷ 0xD8 ∷ 0xFF ∷ 0xDB ∷ 0 ∷ 67 ∷ 0 ∷ replicate 64 16
    ++ 0xFF
      ∷ 0xC0
      ∷ 0
      ∷ 11
      ∷ 8
      ∷ 0
      ∷ 8
      ∷ 0
      ∷ 8
      ∷ 1
      ∷ 1
      ∷ 0x11
      ∷ 0
      ∷ 0xFF
      ∷ 0xC4
      ∷ 0
      ∷ 20
      ∷ 0
      ∷ 1
      ∷ replicate 15 0
    ++ 3 ∷ 0xFF ∷ 0xC4 ∷ 0 ∷ 20 ∷ 0x10 ∷ 1 ∷ replicate 15 0
    ++ 0 ∷ 0xFF ∷ 0xDA ∷ 0 ∷ 8 ∷ 1 ∷ 1 ∷ 0 ∷ 0 ∷ 63 ∷ 0 ∷ 0x67 ∷ []

-- The brightness of a picture's first block.
abbrev first_block : Answer DcImage → Option (Option ℕ)
first_block (ok image) =
    some (elim (get_elem? image.mean 0) [ none ↦ none | some row ↦ get_elem? row 0 ])
first_block refused = none
first_block fault = none
first_block unfinished = none

decode_test : first_block (decode one_block) ≡ some (some 140)
unfolding decode read_start read_header next_marker read_u16 parse_segment is_frame parse_tables
    parse_quant_table read_u8 read_many parse_frame count_up parse_component size_component
    parse_huffman_table start_scan parse_scan assign_codes find_component parse_selector total_of
    brightness clamp_byte decode_block decode_component decode_huffman decode_mcu decode_mcus
    decode_scan extend find_code read_bit read_bits read_bits_from read_difference refill restart
    skip_coefficients store_mean wrap_i32 ◌+ℤ◌
decode_test = refl

read_start-HeaderRead_example : Ends (HeaderRead one_block) (read_start one_block)
read_start-HeaderRead_example = read_start-HeaderRead one_block

-- The decoder behind the markers of the picture of one block.
abbrev one_block_header : Decoder
one_block_header = record {
  at = 138;
  quants = replicate 64 16 ∷ replicate 3 (replicate 64 0);
  huffman =
      record { present = true; symbols = 3 ∷ replicate 255 0; codes = codes }
      ∷ record { present = true; symbols = replicate 256 0; codes = codes }
      ∷ replicate 6 no_huffman;
  components =
      record {
        id = 1;
        h_factor = 1;
        v_factor = 1;
        quant_id = 0;
        dc_table = 0;
        ac_table = 0;
        blocks_w = 1;
        blocks_h = 1;
      }
      ∷ replicate 3 no_component;
  component_count = 1;
  max_h_factor = 1;
  max_v_factor = 1;
  width = 8;
  height = 8;
  restart_interval = 0;
}
  where
    codes : List (Option CodeRange)
    codes = some (record { min_code = 0; max_code = 0; val_ptr = 0 }) ∷ replicate 15 none

read_start_test : read_start one_block ≡ ok (one_block_header, 138)
unfolding decode read_start read_header next_marker read_u16 parse_segment is_frame parse_tables
    parse_quant_table read_u8 read_many parse_frame count_up parse_component size_component
    parse_huffman_table start_scan parse_scan assign_codes find_component parse_selector total_of
read_start_test = refl

-- The decoder that a header gives.
abbrev header_of : Answer (Decoder × ℕ) → Decoder
header_of (ok (d, at)) = d
header_of refused = new_decoder
header_of fault = new_decoder
header_of unfinished = new_decoder

one_block_header-TablesKnown : TablesKnown one_block_header
one_block_header-TablesKnown = record {
  named = (named, All-replicate NamesTables 3 no_component named);
  sizes = sizes;
}
  where
    named : (0 < 4) × (0 < 4) × (0 < 4)
    named = (omega arith, omega arith, omega arith)

    zeros : (n : ℕ) → All (λ k. k ≤ 30) (replicate n 0)
    zeros n = All-replicate (λ k. k ≤ 30) n 0 (omega arith)

    blank : HasSizes no_huffman
    blank = (refl, zeros 256)

    sizes : (i : ℕ) → i < 4 → Ends HasSizes (element one_block_header.huffman (i * 2))
    sizes zero lt = (refl, (omega arith, zeros 255))
    sizes (suc zero) lt = blank
    sizes (suc (suc zero)) lt = blank
    sizes (suc (suc (suc zero))) lt = blank
    sizes (suc (suc (suc (suc n)))) lt = absurd (omega arith)

decode-IsPicture_example : Ends IsPicture (decode one_block)
decode-IsPicture_example = decode-IsPicture one_block (λ d at e.
    subst TablesKnown (ap header_of (sym read_start_test ∙ e)) one_block_header-TablesKnown)

-- Two codes of two bits and one of three, which is 100.
abbrev three_counts : List ℕ
three_counts = 0 ∷ 2 ∷ 1 ∷ []

-- A scan with some bits left of the byte 100 00000.
abbrev with_bits : ℕ → ScanState
with_bits n = record {
  scan_pos = 1;
  bit_buffer = 0x80;
  bit_count = n;
  predictions = [];
  since_restart = 0;
  mean = [];
}

find_code-canonical_code_example :
    find_code (0x80 ∷ []) (5 ∷ 6 ∷ 7 ∷ []) (assign_codes 0 0 three_counts) 0 (with_bits 8)
    ≡ ok (7, with_bits 5)
unfolding total_of canonical_code bits_of read_bit refill
find_code-canonical_code_example =
    find_code-canonical_code (0x80 ∷ []) (5 ∷ 6 ∷ 7 ∷ []) three_counts 2 (with_bits 8) (with_bits 5)
      (omega arith) (omega arith)
      (with_bits 7, refl, (with_bits 6, refl, (with_bits 5, refl, refl)))
