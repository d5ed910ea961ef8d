-- ===== src/Store/File.antt =====
-- The structures of sys-agent/source/search_store.h as they lie in the file.
use sys_agent.Prelude.{
  ℕ, ◌+◌, ◌≤◌, ◌≡◌, ap, arith, Option, none, some, List, [], ◌∷◌, ◌++◌, Bytes, length, drop,
  drop_left, get_or, true, leb, if◌then◌else◌,
}
use sys_agent.Store.Layout.{
  Fields, Fits, field_sizes, fields_bytes, read_fields, read_fields-fields_bytes,
}
use sys_agent.Store.Crc.{crc32}

-- `SEARCH_STORE_MAGIC`
abbrev pub store_magic : ℕ
store_magic = 0x53425343

-- `SEARCH_STORE_VERSION`
abbrev pub store_version : ℕ
store_version = 1

-- `SEARCH_STORE_BLOCK_MAGIC`
abbrev pub block_magic : ℕ
block_magic = 0x4B4C4243

-- `SearchStoreMetadata`; the 32 bytes of the build's id are one number.
pub record Metadata : Type 0 where
  pub process_id : ℕ
  pub title_id : ℕ
  pub start : ℕ
  pub end : ℕ
  pub region_base : ℕ
  pub region_offset : ℕ
  pub alignment : ℕ
  pub generation : ℕ
  pub type : ℕ
  pub region : ℕ
  pub backend : ℕ
  pub width : ℕ
  pub build_id : ℕ

-- `SearchStoreHeader`
pub record StoreHeader : Type 0 where
  pub magic : ℕ
  pub version : ℕ
  pub header_size : ℕ
  pub metadata : Metadata
  pub candidate_count : ℕ
  pub block_count : ℕ
  pub index_offset : ℕ
  pub data_bytes : ℕ
  pub header_crc : ℕ
  pub reserved : ℕ

-- `SearchStoreBlockHeader`
pub record Block : Type 0 where
  pub magic : ℕ
  pub representation : ℕ
  pub width : ℕ
  pub reserved : ℕ
  pub base : ℕ
  pub cumulative_candidates : ℕ
  pub slot_count : ℕ
  pub candidate_count : ℕ
  pub payload_size : ℕ
  pub payload_crc : ℕ

-- `SearchStoreIndexEntry`
pub record IndexEntry : Type 0 where
  pub file_offset : ℕ
  pub cumulative_candidates : ℕ
  pub base : ℕ
  pub slot_count : ℕ
  pub candidate_count : ℕ

-- `sizeof(SearchStoreHeader)`
abbrev pub header_bytes : ℕ
header_bytes = 160

-- `sizeof(SearchStoreBlockHeader)`
abbrev pub block_bytes : ℕ
block_bytes = 40

-- `sizeof(SearchStoreIndexEntry)`
abbrev pub entry_bytes : ℕ
entry_bytes = 32

abbrev pub header_fields : StoreHeader → Fields
header_fields h =
    (4, h.magic)
    ∷ (2, h.version)
    ∷ (2, h.header_size)
    ∷ (8, h.metadata.process_id)
    ∷ (8, h.metadata.title_id)
    ∷ (8, h.metadata.start)
    ∷ (8, h.metadata.end)
    ∷ (8, h.metadata.region_base)
    ∷ (8, h.metadata.region_offset)
    ∷ (8, h.metadata.alignment)
    ∷ (8, h.metadata.generation)
    ∷ (4, h.metadata.type)
    ∷ (4, h.metadata.region)
    ∷ (4, h.metadata.backend)
    ∷ (4, h.metadata.width)
    ∷ (32, h.metadata.build_id)
    ∷ (8, h.candidate_count)
    ∷ (8, h.block_count)
    ∷ (8, h.index_offset)
    ∷ (8, h.data_bytes)
    ∷ (4, h.header_crc)
    ∷ (4, h.reserved)
    ∷ []

abbrev pub block_fields : Block → Fields
block_fields b =
    (4, b.magic)
    ∷ (1, b.representation)
    ∷ (1, b.width)
    ∷ (2, b.reserved)
    ∷ (8, b.base)
    ∷ (8, b.cumulative_candidates)
    ∷ (4, b.slot_count)
    ∷ (4, b.candidate_count)
    ∷ (4, b.payload_size)
    ∷ (4, b.payload_crc)
    ∷ []

abbrev pub entry_fields : IndexEntry → Fields
entry_fields e =
    (8, e.file_offset)
    ∷ (8, e.cumulative_candidates)
    ∷ (8, e.base)
    ∷ (4, e.slot_count)
    ∷ (4, e.candidate_count)
    ∷ []

abbrev header_from : List ℕ → StoreHeader
header_from vs = record {
  magic = get_or vs 0 0;
  version = get_or vs 1 0;
  header_size = get_or vs 2 0;
  metadata = record {
    process_id = get_or vs 3 0;
    title_id = get_or vs 4 0;
    start = get_or vs 5 0;
    end = get_or vs 6 0;
    region_base = get_or vs 7 0;
    region_offset = get_or vs 8 0;
    alignment = get_or vs 9 0;
    generation = get_or vs 10 0;
    type = get_or vs 11 0;
    region = get_or vs 12 0;
    backend = get_or vs 13 0;
    width = get_or vs 14 0;
    build_id = get_or vs 15 0;
  };
  candidate_count = get_or vs 16 0;
  block_count = get_or vs 17 0;
  index_offset = get_or vs 18 0;
  data_bytes = get_or vs 19 0;
  header_crc = get_or vs 20 0;
  reserved = get_or vs 21 0;
}

abbrev block_from : List ℕ → Block
block_from vs = record {
  magic = get_or vs 0 0;
  representation = get_or vs 1 0;
  width = get_or vs 2 0;
  reserved = get_or vs 3 0;
  base = get_or vs 4 0;
  cumulative_candidates = get_or vs 5 0;
  slot_count = get_or vs 6 0;
  candidate_count = get_or vs 7 0;
  payload_size = get_or vs 8 0;
  payload_crc = get_or vs 9 0;
}

-- A structure with every field 0.
abbrev pub zero_header : StoreHeader
zero_header = header_from []

abbrev zero_block : Block
zero_block = block_from []

-- `fread` of a header at the start of a file.
unfoldable pub read_store_header : Bytes → Option StoreHeader
read_store_header file =
    if leb header_bytes (length file)
    then some (header_from (read_fields (field_sizes (header_fields zero_header)) file))
    else none

-- `fseek` and `fread` of a block's header at an offset. A file is shorter than 2 ^ 63 bytes, so that an offset that a
-- long cannot hold is behind its end.
unfoldable pub read_block : Bytes → ℕ → Option Block
read_block file offset =
    if leb (offset + block_bytes) (length file)
    then some (block_from (read_fields (field_sizes (block_fields zero_block)) (drop offset file)))
    else none

abbrev entry_from : List ℕ → IndexEntry
entry_from vs = record {
  file_offset = get_or vs 0 0;
  cumulative_candidates = get_or vs 1 0;
  base = get_or vs 2 0;
  slot_count = get_or vs 3 0;
  candidate_count = get_or vs 4 0;
}

abbrev zero_entry : IndexEntry
zero_entry = entry_from []

-- `fseek` and `fread` of an index entry at an offset.
unfoldable pub read_entry : Bytes → ℕ → Option IndexEntry
read_entry file offset =
    if leb (offset + entry_bytes) (length file)
    then some (entry_from (read_fields (field_sizes (entry_fields zero_entry)) (drop offset file)))
    else none

-- `headerCrc`
unfoldable pub header_crc_of : StoreHeader → ℕ
header_crc_of h = crc32 (fields_bytes (header_fields (record h { header_crc = 0 })))

pub read_store_header-fields_bytes :
    (h : StoreHeader) (rest : Bytes)
    → Fits (header_fields h)
    → header_bytes ≤ length (fields_bytes (header_fields h) ++ rest)
    → read_store_header (fields_bytes (header_fields h) ++ rest) ≡ some h
unfolding read_store_header
read_store_header-fields_bytes h rest fits le =
    let long : leb header_bytes (length (fields_bytes (header_fields h) ++ rest)) ≡ true =
      ground (arith, le) in
    rw long
      (ap (λ vs. some (header_from vs)) (read_fields-fields_bytes (header_fields h) rest fits))

pub read_block-fields_bytes :
    (b : Block) (front rest : Bytes) (offset : ℕ)
    → Fits (block_fields b)
    → offset + block_bytes ≤ length (front ++ (fields_bytes (block_fields b) ++ rest))
    → offset ≡ length front
    → read_block (front ++ (fields_bytes (block_fields b) ++ rest)) offset ≡ some b
unfolding read_block
read_block-fields_bytes b front rest offset fits le e =
    let long : leb (offset + block_bytes)
          (length (front ++ (fields_bytes (block_fields b) ++ rest)))
        ≡ true =
      ground (arith, le) in
    rw (long, drop_left offset front (fields_bytes (block_fields b) ++ rest) e)
      (ap (λ vs. some (block_from vs)) (read_fields-fields_bytes (block_fields b) rest fits))

pub read_entry-fields_bytes :
    (e : IndexEntry) (front rest : Bytes) (offset : ℕ)
    → Fits (entry_fields e)
    → offset + entry_bytes ≤ length (front ++ (fields_bytes (entry_fields e) ++ rest))
    → offset ≡ length front
    → read_entry (front ++ (fields_bytes (entry_fields e) ++ rest)) offset ≡ some e
unfolding read_entry
read_entry-fields_bytes e front rest offset fits le at =
    let long : leb (offset + entry_bytes)
          (length (front ++ (fields_bytes (entry_fields e) ++ rest)))
        ≡ true =
      ground (arith, le) in
    rw (long, drop_left offset front (fields_bytes (entry_fields e) ++ rest) at)
      (ap (λ vs. some (entry_from vs)) (read_fields-fields_bytes (entry_fields e) rest fits))
