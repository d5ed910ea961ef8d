-- ===== src/Store/Reader/RoundTrip.antt =====
-- A whole run of the search store: `searchStoreWriterOpen`, `searchStoreWriterAddBlock` for each block and
-- `searchStoreWriterFinish`, then `searchStoreReaderOpen` and `searchStoreReaderNext` until it has no more blocks.
use sys_agent.Prelude.{
  ℕ, ◌+◌, ◌*◌, ◌^◌, ◌≤◌, ◌<◌, ◌≡◌, refl, sym, ap, ◌∙◌, arith, Bool, true, false, Option, none, some,
  List, [], ◌∷◌, ◌++◌, append-nil, Bytes, All, length, length-append, leb, ◌==◌, ==_refl,
  Bool-cases, inl, inr,
}
use sys_agent.Store.Crc.{crc32}
use sys_agent.Store.File.{
  Metadata, header_bytes, entry_bytes, header_fields, block_fields, read_store_header,
  read_store_header-fields_bytes, header_crc_of,
}
use sys_agent.Store.Layout.{Fits, fields_bytes, length-fields_bytes}
use sys_agent.Store.Payload.Size.{candidates-le, length-payload, payload_size_of_bounds}
use sys_agent.Store.Reader.{Reader, header_is_bad, size_is_bad, reader_open}
use sys_agent.Store.Reader.Playback.{Yields, playback}
use sys_agent.Store.Writer.{
  Writer, new_header, new_writer, block_of, seal, writer_open, writer_finish, path_max,
}
use sys_agent.Store.Writer.Chain.{
  BlockInput, IsInput, input_count, Record, body, total, header_with, record_of, records, chain,
  writer_at, fwrite_end,
}
use sys_agent.Store.Writer.Append.{IsRecord, crc32-lt, total-le, add_all, add_all-chain}
use sys_agent.Store.Writer.Index.{
  index_from, length-index_from, finished_header, finished, writer_finish-chain,
}

pub writer_open-chain :
    (path : Bytes) (metadata : Metadata)
    → length path < path_max
    → writer_open true none path metadata ≡ some (true, writer_at path metadata [])
unfolding writer_open new_writer
writer_open-chain path metadata short =
    let room : leb path_max (length path) ≡ false = ground arith in
    let front = fields_bytes (header_fields (new_header metadata)) in
    rw (room, fwrite_end (new_writer path metadata) front refl)
      (ap {B = Option (Bool × Writer)}
        (λ c. some (true, record (writer_at path metadata []) { content = c; position = length c }))
        (sym (append-nil front)))

module _ (metadata : Metadata) (wide : 0 < metadata.width) (narrow : metadata.width ≤ 8) where
  -- A block takes at most 320 KiB.
  pub length-records :
      (inputs : List BlockInput) (before : ℕ)
      → All (IsInput metadata.width) inputs
      → (length (body (records metadata before inputs)) ≤ 0x50028 * length inputs)
        × (length (records metadata before inputs) ≤ length inputs)
  unfolding records record_of block_of
  length-records [] before ok = (omega arith, omega arith)
  length-records (i ∷ inputs) before ok =
      let rest = length-records inputs (before + input_count i) ok.1 in
      elim (Bool-cases (input_count i == 0)) [
        | inl none_set ↦ rw none_set (omega (arith, rest.0), omega (arith, rest.1))
        | inr some_set ↦
            let (b, bytes) = record_of metadata before i in
            let more = records metadata (before + input_count i) inputs in
            let counted : 0 < input_count i = ground arith in
            let bounds =
              payload_size_of_bounds metadata.width i.slots (input_count i) wide ok.0.small counted
                (candidates-le i.mask i.slots) in
            rw some_set (
              omega (
                arith,
                rest.0,
                bounds.1,
                length-append (fields_bytes (block_fields b)) (bytes ++ body more),
                length-append bytes (body more),
                length-fields_bytes (block_fields b),
                length-payload i.mask i.values metadata.width i.slots ok.0.masked ok.0.values,
              ),
              omega (arith, rest.1),
            )
      ]

  pub length-finished :
      (rs : List Record)
      → length (finished metadata rs) ≡ header_bytes + length (body rs) + entry_bytes * length rs
  length-finished rs = omega (
    arith,
    length-fields_bytes (header_fields (finished_header metadata rs)),
    length-append (fields_bytes (header_fields (finished_header metadata rs)))
        (body rs ++ index_from header_bytes rs),
    length-append (body rs) (index_from header_bytes rs),
    length-index_from header_bytes rs,
  )

  finished-Fits :
      (rs : List Record)
      → Fits (header_fields (new_header metadata))
      → (total rs ≤ length (body rs)) × (length rs ≤ length (body rs))
      → length (finished metadata rs) < 2 ^ 63
      → Fits (header_fields (finished_header metadata rs))
  unfolding seal header_crc_of
  finished-Fits rs fits few bound = omega (
    arith,
    length-finished rs,
    crc32-lt (
        fields_bytes (
          header_fields
            (record (header_with metadata rs) { index_offset = header_bytes + length (body rs) }))),
  )

  header_is_good : (rs : List Record) → header_is_bad (finished_header metadata rs) ≡ false
  unfolding header_is_bad seal header_crc_of
  header_is_good rs =
      let crc = ==_refl (
        crc32 (
          fields_bytes (
            header_fields (record (header_with metadata rs) {
              index_offset = header_bytes + length (body rs);
            })))) in
      rw crc (ground (arith, wide, narrow))

  size_is_good :
      (rs : List Record) (size : ℕ)
      → size ≡ header_bytes + length (body rs) + entry_bytes * length rs
      → size < 2 ^ 63
      → size_is_bad (finished_header metadata rs) size ≡ false
  unfolding size_is_bad seal
  size_is_good rs size e bound = ground arith

  -- The header of a finished file is accepted.
  pub reader_open-finished :
      (rs : List Record)
      → Fits (header_fields (new_header metadata))
      → All (IsRecord metadata.width) rs
      → length (finished metadata rs) < 2 ^ 63
      → reader_open (some (finished metadata rs))
        ≡ some (record {
          content = finished metadata rs;
          header = finished_header metadata rs;
          next_block = 0;
          next_offset = header_bytes;
        })
  unfolding reader_open
  reader_open-finished rs fits good bound =
      let h = finished_header metadata rs in
      let long = length-finished rs in
      let few = total-le metadata.width rs good in
      let found : read_store_header (finished metadata rs) ≡ some h =
        read_store_header-fields_bytes h (body rs ++ index_from header_bytes rs)
          (finished-Fits rs fits few bound) (omega (arith, long)) in
      rw
        (
          reader_open,
          found,
          header_is_good rs,
          size_is_good rs (length (finished metadata rs)) long bound,
        )
        refl

-- Writing a file, with nothing failing: what its bytes are, and what its blocks are like.
pub finished_store :
    (path : Bytes) (metadata : Metadata) (inputs : List BlockInput)
    → length path < path_max
    → 0 < metadata.width
    → metadata.width ≤ 8
    → Fits (header_fields (new_header metadata))
    → All (IsInput metadata.width) inputs
    → length inputs < 2 ^ 40
    → (w w' w'' : Writer) × (writer_open true none path metadata ≡ some (true, w))
      × (add_all w inputs ≡ (true, w'))
      × (writer_finish (λ i. none) none true w' ≡ (true, w''))
      × (w''.content ≡ finished metadata (records metadata 0 inputs))
      × All (IsRecord metadata.width) (records metadata 0 inputs)
      × (length (finished metadata (records metadata 0 inputs)) < 2 ^ 63)
      × (w''.there ≡ true)
finished_store path metadata inputs short wide narrow fits ok few =
    let rs = records metadata 0 inputs in
    let front = fields_bytes (header_fields (new_header metadata)) in
    let sized = length-records metadata wide narrow inputs 0 ok in
    let start = length-fields_bytes (header_fields (new_header metadata)) in
    let chained : length (chain metadata rs) < 2 ^ 63 =
      omega (arith, length-append front (body rs), sized.0, start) in
    let filled = add_all-chain path metadata wide narrow inputs [] 0 refl tt ok chained in
    let done = writer_finish-chain path metadata rs filled.1 chained in
    (
      writer_at path metadata [],
      writer_at path metadata rs,
      done.0,
      writer_open-chain path metadata short,
      filled.0,
      done.1,
      done.2,
      filled.1,
      omega (arith, length-finished metadata wide narrow rs, sized.0, sized.1),
      done.3,
    )

finished-Yields :
    (values_capacity mask_capacity : ℕ)
    → 0x40000 ≤ values_capacity
    → 0x8000 ≤ mask_capacity
    → (metadata : Metadata) → 0 < metadata.width
    → metadata.width ≤ 8
    → (inputs : List BlockInput) → All (IsInput metadata.width) inputs
    → All (IsRecord metadata.width) (records metadata 0 inputs)
    → length (finished metadata (records metadata 0 inputs)) < 2 ^ 63
    → Yields values_capacity mask_capacity metadata.width
        (record {
          content = finished metadata (records metadata 0 inputs);
          header = finished_header metadata (records metadata 0 inputs);
          next_block = 0;
          next_offset = header_bytes;
        })
        inputs
unfolding seal
finished-Yields values_capacity mask_capacity values_fit mask_fits metadata wide narrow inputs ok
      good bound =
    let rs = records metadata 0 inputs in
    let header = fields_bytes (header_fields (finished_header metadata rs)) in
    let sized = length-fields_bytes (header_fields (finished_header metadata rs)) in
    let joined = length-append header (body rs) in
    let long = length-finished metadata wide narrow rs in
    playback values_capacity mask_capacity values_fit mask_fits metadata wide narrow inputs 0 _
      header (index_from header_bytes rs) ok good refl refl (sym sized) (omega arith)
      (omega (arith, joined, sized)) (omega (arith, joined, sized, long, bound))

-- The inputs are written to a new file, and read back.
abbrev pub IsReadBack : ℕ → ℕ → Bytes → Metadata → List BlockInput → Type 0
IsReadBack values_capacity mask_capacity path metadata inputs =
    (w w' w'' : Writer) × (r : Reader) × (writer_open true none path metadata ≡ some (true, w))
    × (add_all w inputs ≡ (true, w'))
    × (writer_finish (λ i. none) none true w' ≡ (true, w''))
    × (w''.there ≡ true)
    × (reader_open (some w''.content) ≡ some r)
    × Yields values_capacity mask_capacity metadata.width r inputs

-- A path shorter than 256 bytes, values of 1 to 8 bytes, metadata that fit their fields, fewer than 2^40 blocks, each of
-- at most 256 KiB of values, and buffers for that: where nothing fails, the writer takes all blocks and finishes the
-- file, which is then there; the reader accepts it and gives the blocks with a candidate, in order, each with its base,
-- its number of slots and its number of candidates, and in its buffers the candidates and their values; and then it has
-- no more blocks.
pub reader_next-add_block :
    (values_capacity mask_capacity : ℕ) (path : Bytes) (metadata : Metadata)
    (inputs : List BlockInput)
    → 0x40000 ≤ values_capacity
    → 0x8000 ≤ mask_capacity
    → length path < path_max
    → 0 < metadata.width
    → metadata.width ≤ 8
    → Fits (header_fields (new_header metadata))
    → All (IsInput metadata.width) inputs
    → length inputs < 2 ^ 40
    → IsReadBack values_capacity mask_capacity path metadata inputs
reader_next-add_block values_capacity mask_capacity path metadata inputs values_fit mask_fits short
      wide narrow fits ok few =
    let rs = records metadata 0 inputs in
    let s = finished_store path metadata inputs short wide narrow fits ok few in
    (
      s.0,
      s.1,
      s.2,
      record {
        content = finished metadata rs;
        header = finished_header metadata rs;
        next_block = 0;
        next_offset = header_bytes;
      },
      s.3,
      s.4,
      s.5,
      s.9,
      ap (λ c. reader_open (some c)) s.6
          ∙ reader_open-finished metadata wide narrow rs fits s.7 s.8,
      finished-Yields values_capacity mask_capacity values_fit mask_fits metadata wide narrow inputs
          ok s.7 s.8,
    )
