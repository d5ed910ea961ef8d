-- ===== src/Store/Reader.antt =====
-- The reader of sys-agent/source/search_store.c: `searchStoreReaderOpen` and `searchStoreReaderNext`. The bytes of an
-- opened file are read and measured without an error; a read behind its end fails.
pub mod Playback
pub mod RoundTrip
pub mod Addresses
use sys_agent.Prelude.{
  ℕ, ◌+◌, ◌-◌, ◌*◌, ◌/◌, ◌≡◌, Bool, not, ◌||◌, Option, none, some, Bytes, length, take, drop, ltb,
  leb, ◌==◌, if◌then◌else◌,
}
use sys_agent.Prelude.Word.{u64_max, add_u64}
use sys_agent.Store.Crc.{crc32}
use sys_agent.Store.File.{
  StoreHeader, Block, store_magic, store_version, block_magic, header_bytes, block_bytes,
  entry_bytes, read_store_header, read_block, header_crc_of,
}
use sys_agent.Store.Payload.{mask_size, unpack}

-- `SearchStoreReader`, with the bytes of its file.
pub record Reader : Type 0 where
  pub content : Bytes
  pub header : StoreHeader
  pub next_block : ℕ
  pub next_offset : ℕ

-- Whether the header of a file is refused.
unfoldable pub header_is_bad : StoreHeader → Bool
header_is_bad h =
    not (h.magic == store_magic)
    || not (h.version == store_version)
    || not (h.header_size == header_bytes)
    || not (h.header_crc == header_crc_of h)
    || h.metadata.width == 0
    || ltb 8 h.metadata.width

-- Whether the size of a file is not the one that its header tells.
unfoldable pub size_is_bad : StoreHeader → ℕ → Bool
size_is_bad h size =
    not (h.index_offset == add_u64 header_bytes h.data_bytes)
    || ltb (u64_max / entry_bytes) h.block_count
    || ltb (u64_max - h.block_count * entry_bytes) h.index_offset
    || not (size == h.index_offset + h.block_count * entry_bytes)

-- `searchStoreReaderOpen`, for a file with these bytes, if there is one; a reader that is refused has no file.
unfoldable pub reader_open : Option Bytes → Option Reader
unfolding header_is_bad size_is_bad
reader_open none = none
reader_open (some content) = elim (read_store_header content) [
  | none ↦ none
  | some h ↦
      if header_is_bad h || size_is_bad h (length content)
      then none
      else some
          (record { content = content; header = h; next_block = 0; next_offset = header_bytes })
]

-- `StoreMaximumPayload`
abbrev pub maximum_payload : ℕ
maximum_payload = 0x50000

-- Whether the header of the block at an offset is refused.
unfoldable pub block_is_bad : StoreHeader → ℕ → Block → Bool
block_is_bad h offset b =
    not (b.magic == block_magic)
    || not (b.width == h.metadata.width)
    || b.slot_count == 0
    || b.candidate_count == 0
    || ltb b.slot_count b.candidate_count
    || b.payload_size == 0
    || ltb maximum_payload b.payload_size
    || ltb h.index_offset offset
    || ltb (h.index_offset - offset) (block_bytes + b.payload_size)

-- `fread` of the payload behind the header of a block, with its checksum, if memory is given for it.
unfoldable pub read_payload : Bool → Bytes → ℕ → Block → Option Bytes
read_payload allocated content offset b =
    let bytes = take b.payload_size (drop (offset + block_bytes) content) in
    if not allocated
      || ltb (length content) (offset + block_bytes + b.payload_size)
      || not (crc32 bytes == b.payload_crc)
    then none
    else some bytes

-- The values and the mask of a block, if they fit the caller's buffers.
unfoldable pub unpack_into : ℕ → ℕ → Block → Bytes → Option (Bytes × Bytes)
unpack_into values_capacity mask_capacity b bytes =
    if ltb values_capacity (b.slot_count * b.width) || ltb mask_capacity (mask_size b.slot_count)
    then none
    else unpack b.representation b.width b.slot_count b.candidate_count bytes

-- Behind a block.
unfoldable pub advance : Reader → Block → Reader
advance r b = record r {
  next_block = r.next_block + 1;
  next_offset = add_u64 r.next_offset (block_bytes + b.payload_size);
}

-- `searchStoreReaderNext` for an open reader, by whether memory is given and the sizes of the buffers: the block, what
-- is written to the buffers, and the reader behind it. A refusal leaves the reader as it was.
unfoldable pub reader_next : Bool → ℕ → ℕ → Reader → Option (Block × (Bytes × Bytes) × Reader)
unfolding block_is_bad read_payload unpack_into advance
reader_next allocated values_capacity mask_capacity r =
    let found : Option (Block × (Bytes × Bytes) × Reader) =
      elim (read_block r.content r.next_offset) [
        | none ↦ none
        | some b ↦
            let unpacked : Option (Block × (Bytes × Bytes) × Reader) =
              elim (read_payload allocated r.content r.next_offset b) [
                | none ↦ none
                | some bytes ↦ elim (unpack_into values_capacity mask_capacity b bytes) [
                  | none ↦ none
                  | some after ↦ some (b, after, advance r b)
                ]
              ] in
            if block_is_bad r.header r.next_offset b then none else unpacked
      ] in
    if leb r.header.block_count r.next_block then none else found
