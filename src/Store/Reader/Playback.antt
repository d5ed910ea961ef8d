-- ===== src/Store/Reader/Playback.antt =====
-- Reading a file of the search store that the writer has finished: the blocks come back in order, with the candidates
-- and the values that were added.
use native.Mathlib.Nat.{mul-le-mul_left}
use sys_agent.Prelude.{
  ℕ, suc, ◌+◌, ◌*◌, ◌%◌, ◌^◌, ◌≤◌, ◌<◌, ◌≡◌, refl, ap, ◌∙◌, arith, true, false, ◌||◌, none, some,
  List, [], ◌∷◌, ◌++◌, append_assoc, Bytes, All, length, length-append, take_left, drop, drop_left,
  ltb, leb, ◌==◌, if◌then◌else◌, Bool-cases, inl, inr,
}
use sys_agent.Store.Crc.{crc32}
use sys_agent.Store.File.{Metadata, StoreHeader, Block, block_bytes, block_fields}
use sys_agent.Store.Layout.{fields_bytes, length-fields_bytes}
use sys_agent.Store.Payload.{mask_size, unpack}
use sys_agent.Store.Payload.RoundTrip.{Holds, unpack-payload}
use sys_agent.Store.Reader.{Reader, block_is_bad, read_payload, unpack_into, advance, reader_next}
use sys_agent.Store.Writer.{block_of}
use sys_agent.Store.Writer.Chain.{
  BlockInput, IsInput, input_count, Record, body, record_of, records,
}
use sys_agent.Store.Writer.Append.{IsRecord}
use sys_agent.Store.Writer.Index.{
  read_block_behind, in_front, in_front-split, in_front-next, next_offset, length-in_front,
}

module _ (values_capacity mask_capacity : ℕ) where
  -- The reader gives the blocks of these inputs, but those with no candidate, and then no more.
  abbrev pub Yields : ℕ → Reader → List BlockInput → Type 0
  Yields width r [] = reader_next true values_capacity mask_capacity r ≡ none
  Yields width r (i ∷ inputs) =
      if input_count i == 0
      then Yields width r inputs
      else (b : Block) × (after : Bytes × Bytes) × (r' : Reader) × (reader_next true values_capacity
            mask_capacity r
          ≡ some (b, after, r'))
        × (b.base ≡ i.base)
        × (b.slot_count ≡ i.slots)
        × (b.candidate_count ≡ input_count i)
        × Holds i.mask i.values width i.slots after
        × Yields width r' inputs

pub block_is_good :
    (h : StoreHeader) (offset : ℕ) (r : Record)
    → IsRecord h.metadata.width r
    → offset + (block_bytes + length r.1) ≤ h.index_offset
    → block_is_bad h offset r.0 ≡ false
unfolding block_is_bad
block_is_good h offset r good room = ground arith

-- The payload behind a block's header.
pub read_payload-chain :
    (width : ℕ) (content front rest : Bytes) (b : Block) (bytes : Bytes) (offset : ℕ)
    → content ≡ front ++ (fields_bytes (block_fields b) ++ (bytes ++ rest))
    → offset ≡ length front
    → IsRecord width (b, bytes)
    → read_payload true content offset b ≡ some bytes
unfolding read_payload
read_payload-chain width content front rest b bytes offset e at good =
    let header = fields_bytes (block_fields b) in
    let sized = length-fields_bytes (block_fields b) in
    let two = length-append front header in
    let grouped : content ≡ (front ++ header) ++ (bytes ++ rest) = e ∙ simp append_assoc in
    let behind : drop (offset + block_bytes) content ≡ bytes ++ rest =
      ap (drop (offset + block_bytes)) grouped
      ∙ drop_left (offset + block_bytes) (front ++ header) (bytes ++ rest)
          (omega (arith, at, two, sized)) in
    let size = good.size in
    let whole : ltb (length content) (offset + block_bytes + b.payload_size) ≡ false = ground (
      arith,
      ap length grouped,
      length-append (front ++ header) (bytes ++ rest),
      length-append bytes rest,
      two,
      sized,
    ) in
    let checked : (crc32 bytes == b.payload_crc) ≡ true = ground arith in
    rw (whole, behind, take_left b.payload_size bytes rest size, checked) refl

module _ (values_capacity mask_capacity : ℕ) where
  reader_next-record :
      (r : Reader) (front rest : Bytes) (b : Block) (bytes : Bytes) (after : Bytes × Bytes)
      → r.content ≡ front ++ (fields_bytes (block_fields b) ++ (bytes ++ rest))
      → r.next_offset ≡ length front
      → r.next_block < r.header.block_count
      → r.next_offset + (block_bytes + length bytes) ≤ r.header.index_offset
      → IsRecord r.header.metadata.width (b, bytes)
      → b.slot_count * b.width ≤ values_capacity
      → mask_size b.slot_count ≤ mask_capacity
      → unpack b.representation b.width b.slot_count b.candidate_count bytes ≡ some after
      → reader_next true values_capacity mask_capacity r ≡ some (b, after, advance r b)
  unfolding reader_next unpack_into
  reader_next-record r front rest b bytes after e at more room good values_fit mask_fits unpacked =
      let found =
        read_block_behind r.header.metadata.width r.content front rest b bytes r.next_offset e at
          good in
      let left : leb r.header.block_count r.next_block ≡ false = ground arith in
      let fits : (ltb values_capacity (b.slot_count * b.width)
            || ltb mask_capacity (mask_size b.slot_count))
          ≡ false =
        ground arith in
      rw
        (
          left,
          found,
          block_is_good r.header r.next_offset (b, bytes) good room,
          read_payload-chain r.header.metadata.width r.content front rest b bytes r.next_offset e at
              good,
          fits,
          unpacked,
        )
        refl

-- What an input is read as.
record_unpacked :
    (metadata : Metadata) (before : ℕ) (i : BlockInput)
    → 0 < metadata.width
    → metadata.width ≤ 8
    → IsInput metadata.width i
    → let (b, bytes) = record_of metadata before i in
      (after : Bytes × Bytes) × (unpack b.representation b.width b.slot_count b.candidate_count
          bytes
        ≡ some after)
      × Holds i.mask i.values metadata.width i.slots after
unfolding record_of block_of
record_unpacked metadata before i wide narrow ok =
    let each : i.slots * 1 ≤ i.slots * metadata.width = mul-le-mul_left i.slots wide in
    let width : metadata.width % 256 ≡ metadata.width = omega arith in
    rw width (
      unpack-payload i.values metadata.width i.slots ok.values i.mask ok.masked
        (omega (arith, each, ok.small)))

no_more :
    (values_capacity mask_capacity : ℕ) (r : Reader)
    → r.header.block_count ≤ r.next_block
    → reader_next true values_capacity mask_capacity r ≡ none
unfolding reader_next
no_more values_capacity mask_capacity r le =
    let last : leb r.header.block_count r.next_block ≡ true = ground arith in rw last refl

module _ (values_capacity mask_capacity : ℕ) (values_fit : 0x40000 ≤ values_capacity)
    (mask_fits : 0x8000 ≤ mask_capacity) (metadata : Metadata) (wide : 0 < metadata.width)
    (narrow : metadata.width ≤ 8) where
  -- The reader at some blocks yields their inputs.
  pub playback :
      (inputs : List BlockInput) (before : ℕ) (r : Reader) (front extra : Bytes)
      → All (IsInput metadata.width) inputs
      → All (IsRecord metadata.width) (records metadata before inputs)
      → r.header.metadata.width ≡ metadata.width
      → r.content ≡ front ++ (body (records metadata before inputs) ++ extra)
      → r.next_offset ≡ length front
      → r.next_block + length (records metadata before inputs) ≡ r.header.block_count
      → r.header.index_offset ≡ length (front ++ body (records metadata before inputs))
      → length (front ++ body (records metadata before inputs)) < 2 ^ 63
      → Yields values_capacity mask_capacity metadata.width r inputs
  unfolding records advance record_of block_of
  playback [] before r front extra ok good width e at count index bound =
      no_more values_capacity mask_capacity r (omega (arith, count))
  playback (i ∷ inputs) before r front extra ok good width e at count index bound =
      elim (Bool-cases (input_count i == 0)) [
        | inl none_set ↦ rw none_set (
            playback inputs (before + input_count i) r front extra ok.1 (rw none_set at good) width
              (rw none_set at e) at (rw none_set at count) (rw none_set at index)
              (rw none_set at bound))
        | inr some_set ↦
            let (b, bytes) = record_of metadata before i in
            let rest = records metadata (before + input_count i) inputs in
            let good' : All (IsRecord metadata.width) ((b, bytes) ∷ rest) = rw some_set at good in
            let e' : r.content ≡ in_front front (b, bytes) rest extra = rw some_set at e in
            let count' : r.next_block + suc (length rest) ≡ r.header.block_count =
              rw some_set at count in
            let index' : r.header.index_offset ≡ length (front ++ body ((b, bytes) ∷ rest)) =
              rw some_set at index in
            let bound' : length (front ++ body ((b, bytes) ∷ rest)) < 2 ^ 63 =
              rw some_set at bound in
            let front' = front ++ (fields_bytes (block_fields b) ++ bytes) in
            let joined : front ++ body ((b, bytes) ∷ rest) ≡ front' ++ body rest =
              simp append_assoc in
            let sized = length-in_front front b bytes in
            let u = record_unpacked metadata before i wide narrow ok.0 in
            let each : i.slots * 1 ≤ i.slots * metadata.width = mul-le-mul_left i.slots wide in
            let narrow_eq : metadata.width % 256 ≡ metadata.width = omega arith in
            let step =
              reader_next-record values_capacity mask_capacity r front (body rest ++ extra) b bytes
                u.0 (e' ∙ in_front-split front extra b bytes rest) at (omega (arith, count'))
                (omega
                  (arith, at, index', ap length joined, sized, length-append front' (body rest)))
                (rw width good'.0) (rw narrow_eq (omega (arith, ok.0.small)))
                (omega (arith, each, ok.0.small)) u.1 in
            let next =
              next_offset metadata.width front extra b bytes rest r.next_offset at good'.0 bound' in
            rw some_set (
              b,
              u.0,
              advance r b,
              step,
              refl,
              refl,
              refl,
              u.2,
              playback inputs (before + input_count i) (advance r b) front' extra ok.1 good'.1 width
                  (e' ∙ in_front-next front extra b bytes rest) (next ∙ omega (arith, at, sized))
                  (omega (arith, count')) (rw (← joined) index') (rw (← joined) bound'),
            )
      ]
