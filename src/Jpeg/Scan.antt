-- ===== src/Jpeg/Scan.antt =====
-- The entropy-coded picture of sys-agent/source/jpeg_dc.c: `jpegDecodeScan` and what it calls, and `jpegDcDecode`.
-- The decoder's tables stay as the header left them, so they are parameters.
pub mod Canonical
pub mod Bits
pub mod Safety
use sys_agent.Prelude.{
  ℕ, zero, suc, ◌+◌, ◌-◌, ◌*◌, ◌/◌, ◌%◌, ◌^◌, Bool, true, false, not, ◌&&◌, ◌||◌, Option, none,
  some, List, [], ◌∷◌, Bytes, length, get_or, set, replicate, ltb, leb, ◌==◌, if◌then◌else◌, min,
}
use sys_agent.Prelude.Int.{ℤ, pos, negsuc, ◌+ℤ◌, wrap_i32}
use sys_agent.Jpeg.{Answer, ok, refused, fault, unfinished, ◌>>=◌, refuse_if, element, count_up}
use sys_agent.Jpeg.Code.{Huffman, CodeRange}
use sys_agent.Jpeg.Tables.{Decoder, Component, new_decoder}
use sys_agent.Jpeg.Header.{read_header}

-- `JPEG_DC_MAX_BLOCKS_X`
abbrev pub max_blocks_x : ℕ
max_blocks_x = 192

-- `JPEG_DC_MAX_BLOCKS_Y`
abbrev pub max_blocks_y : ℕ
max_blocks_y = 136

-- What the scan changes: the fields of the bit reader, the predictions of the components, the distance to the last
-- restart, and the picture's `mean`.
pub record ScanState : Type 0 where
  pub scan_pos : ℕ
  pub bit_buffer : ℕ
  pub bit_count : ℕ
  pub predictions : List ℤ
  pub since_restart : ℕ
  pub mean : List Bytes

-- `JpegDcImage`
pub record DcImage : Type 0 where
  pub blocks_w : ℕ
  pub blocks_h : ℕ
  pub complete : Bool
  pub mean : List Bytes

-- `jpegExtend`, of an int by its 32 bits; a shift of 1 by more than 30 is not defined.
unfoldable pub extend : ℕ → ℕ → Answer ℤ
extend value zero = ok (pos 0)
extend value (suc n) =
    if ltb 29 n
    then fault
    else if ltb value (2 ^ n)
    then ok (negsuc (2 ^ suc n - 2 - value))
    else ok (pos value)

-- `value / 8 + 128`, cut to a byte; the division goes towards 0.
unfoldable pub clamp_byte : ℤ → ℕ
clamp_byte (pos v) = min 255 (v / 8 + 128)
clamp_byte (negsuc v) = 128 - (v + 1) / 8

-- The brightness of a prediction: `prediction * step` in 32 bits, as a byte.
unfoldable pub brightness : ℤ → ℕ → ℕ
brightness (pos p) step = clamp_byte (wrap_i32 (pos (p * step)))
brightness (negsuc p) zero = clamp_byte (pos 0)
brightness (negsuc p) (suc step) = clamp_byte (wrap_i32 (negsuc ((p + 1) * suc step - 1)))

module _ (bytes : Bytes) where
  -- The start of `jpegReadBit`, for an empty buffer.
  unfoldable pub refill : ScanState → Answer ScanState
  refill s = refuse_if (leb (length bytes) s.scan_pos) (
      element bytes s.scan_pos >>= λ byte.
      let filled : ℕ → Answer ScanState =
        λ p. ok (record s { scan_pos = p; bit_buffer = byte; bit_count = 8 }) in
      if byte == 0xFF
      then refuse_if (leb (length bytes) (s.scan_pos + 1)) (
          element bytes (s.scan_pos + 1) >>= λ next.
          refuse_if (not (next == 0)) (filled (s.scan_pos + 2)))
      else filled (s.scan_pos + 1))

  -- `jpegReadBit`; -1 is a refusal, since every caller gives up.
  unfoldable pub read_bit : ScanState → Answer (ℕ × ScanState)
  unfolding refill
  read_bit s = (if s.bit_count == 0 then refill s else ok s) >>= λ t.
      ok (t.bit_buffer / 2 ^ (t.bit_count - 1) % 2, record t { bit_count = t.bit_count - 1 })

  -- The loop of `jpegReadBits`, on the 32 bits of `value`.
  unfoldable pub read_bits_from : ℕ → ℕ → ScanState → Answer (ℕ × ScanState)
  read_bits_from zero value s = ok (value, s)
  read_bits_from (suc n) value s =
      read_bit s >>= λ (bit, t). read_bits_from n ((value * 2 + bit) % 2 ^ 32) t

  -- `jpegReadBits`; every caller gives up on a negative number.
  unfoldable pub read_bits : ℕ → ScanState → Answer (ℕ × ScanState)
  read_bits n s =
      read_bits_from n 0 s >>= λ (value, t). refuse_if (leb (2 ^ 31) value) (ok (value, t))

  -- The loop of `jpegDecodeHuffman`, from a length on, behind the bits of the code read so far.
  unfoldable pub find_code :
      Bytes → List (Option CodeRange) → ℕ → ScanState → Answer (ℕ × ScanState)
  find_code symbols [] code s = refused
  find_code symbols (range ∷ longer) code s = read_bit s >>= λ (bit, t).
      let further = find_code symbols longer (code * 2 + bit) t in
      elim range [
        | none ↦ further
        | some r ↦
            let found : Answer (ℕ × ScanState) =
              refuse_if
                (ltb (r.val_ptr + (code * 2 + bit)) r.min_code
                  || leb 256 (r.val_ptr + (code * 2 + bit) - r.min_code))
                (element symbols (r.val_ptr + (code * 2 + bit) - r.min_code) >>= λ symbol.
                  ok (symbol, t)) in
            if leb (code * 2 + bit) r.max_code then found else further
      ]

  -- `jpegDecodeHuffman`
  unfoldable pub decode_huffman : Huffman → ScanState → Answer (ℕ × ScanState)
  decode_huffman table s = refuse_if (not table.present) (find_code table.symbols table.codes 0 s)

  -- The difference of a block's prediction, by its symbol.
  unfoldable pub read_difference : ℕ → ScanState → Answer (ℤ × ScanState)
  read_difference symbol s =
      if symbol == 0
      then ok (pos 0, s)
      else read_bits symbol s >>= λ (value, t).
          extend value symbol >>= λ difference. ok (difference, t)

  -- The loop over the other coefficients.
  unfoldable pub skip_coefficients : Huffman → ℕ → ℕ → ScanState → Answer ScanState
  skip_coefficients table zero coefficient s = unfinished
  skip_coefficients table (suc fuel) coefficient s =
      let next = decode_huffman table s >>= λ (ac, t).
      let run = ac / 16 in
      let size = ac % 16 in
      let zeros = skip_coefficients table fuel (coefficient + 16) t in
      let skipped =
        read_bits size t >>= λ (value, u). skip_coefficients table fuel (coefficient + run + 1) u in
      if size == 0 then (if not (run == 15) then ok t else zeros) else skipped in
      if ltb coefficient 64 then next else ok s

  module _ (d : Decoder) (luma : Component) where
    -- The store of a luma block's brightness, for a block inside the picture. The `quantId` of a component is
    -- not checked by the header.
    unfoldable pub store_mean : ℕ → ℕ → ℤ → ScanState → Answer ScanState
    store_mean row column prediction s =
        if ltb column luma.blocks_w && ltb row luma.blocks_h
        then (element d.quants luma.quant_id >>= λ table. element table 0 >>= λ step.
            element s.mean row >>= λ line. element line column >>= λ old.
            ok (record s { mean = set s.mean row (set line column (brightness prediction step)) }))
        else ok s

    -- One block of component `c`, at its place in its unit and the unit's place in the picture. The sum of a prediction
    -- and a difference wraps in 32 bits, as does the product in the brightness, where C leaves an overflow undefined.
    unfoldable pub decode_block : ℕ → Component → ℕ → ℕ → ℕ → ℕ → ScanState → Answer ScanState
    decode_block c component mcu_y mcu_x block_y block_x s =
        element d.huffman (component.dc_table * 2) >>= λ dc.
        element d.huffman (component.ac_table * 2 + 1) >>= λ ac.
        decode_huffman dc s >>= λ (symbol, t). read_difference symbol t >>= λ (difference, u).
        element u.predictions c >>= λ old.
        let prediction = wrap_i32 (old +ℤ difference) in
        let predicted : ScanState = record u { predictions = set u.predictions c prediction } in
        (if c == 0
          then store_mean (mcu_y * component.v_factor + block_y)
              (mcu_x * component.h_factor + block_x) prediction predicted
          else ok predicted)
        >>= skip_coefficients ac 64 1

    -- The blocks of one component in a unit.
    unfoldable pub decode_component : ℕ → ℕ → ℕ → ScanState → Answer ScanState
    decode_component mcu_y mcu_x c s = element d.components c >>= λ component.
        count_up component.v_factor 0
          (λ block_y.
            count_up component.h_factor 0
              (λ block_x. decode_block c component mcu_y mcu_x block_y block_x))
          s

    -- The restart marker in front of a unit, if it is due.
    unfoldable pub restart : ScanState → Answer ScanState
    restart s =
        if not (d.restart_interval == 0) && s.since_restart == d.restart_interval
        then refuse_if (leb (length bytes) (s.scan_pos + 1)) (
            element bytes s.scan_pos >>= λ first. element bytes (s.scan_pos + 1) >>= λ marker.
            refuse_if (not (first == 0xFF) || not (marker / 8 == 0xD0 / 8)) (
              ok (record s {
                scan_pos = s.scan_pos + 2;
                bit_count = 0;
                predictions = replicate (length s.predictions) (pos 0);
                since_restart = 0;
              })))
        else ok s

    -- One unit of the scan.
    unfoldable pub decode_mcu : ℕ → ℕ → ScanState → Answer ScanState
    decode_mcu mcu_y mcu_x s =
        restart s >>= count_up d.component_count 0 (decode_component mcu_y mcu_x) >>= λ t.
        ok (record t { since_restart = t.since_restart + 1 })

    -- The number of units over a side, for the factor of the scan.
    abbrev pub units : ℕ → ℕ → ℕ
    units side factor = (side + 8 * factor - 1) / (8 * factor)

    -- The units of the scan, row by row.
    unfoldable pub decode_mcus : ScanState → Answer ScanState
    decode_mcus =
        count_up (units d.height d.max_v_factor) 0
          (λ mcu_y. count_up (units d.width d.max_h_factor) 0 (decode_mcu mcu_y))

  -- The state in front of a scan: the predictions are those of the cleared decoder.
  abbrev pub scan_start : ℕ → ScanState
  scan_start at = record {
    scan_pos = at;
    bit_buffer = 0;
    bit_count = 0;
    predictions = replicate 4 (pos 0);
    since_restart = 0;
    mean = replicate max_blocks_y (replicate max_blocks_x 0);
  }

  -- `jpegDecodeScan`
  unfoldable pub decode_scan : Decoder → ℕ → Answer DcImage
  decode_scan d at = element d.components 0 >>= λ luma.
      refuse_if (ltb max_blocks_x luma.blocks_w || ltb max_blocks_y luma.blocks_h) (
        decode_mcus d luma (scan_start at) >>= λ s. ok (record {
          blocks_w = luma.blocks_w;
          blocks_h = luma.blocks_h;
          complete = true;
          mean = s.mean;
        }))

  -- The start of `jpegDcDecode`.
  unfoldable pub read_start : Answer (Decoder × ℕ)
  read_start = refuse_if (ltb (length bytes) 4) (
      element bytes 0 >>= λ first. element bytes 1 >>= λ second.
      refuse_if (not (first == 0xFF) || not (second == 0xD8))
        (read_header bytes (length bytes + 1) false new_decoder))

  -- `jpegDcDecode`: the picture where it answers true.
  unfoldable pub decode : Answer DcImage
  decode = read_start >>= λ (d, at). decode_scan d at
