-- ===== src/Store/Writer.antt =====
-- The writer of sys-agent/source/search_store.c: `searchStoreWriterOpen`, `searchStoreWriterAddBlock`, `writeIndex`,
-- `searchStoreWriterFinish` and `searchStoreWriterAbort`. What the system answers is an argument: whether a file opens,
-- memory is given and a file is flushed, synced and closed, and for each `fwrite` how many bytes it writes if not all.
pub mod Chain
pub mod Append
pub mod Index
use sys_agent.Prelude.{
  ℕ, zero, suc, ◌+◌, ◌%◌, Bool, true, false, not, ◌&&◌, ◌||◌, Option, none, some, [], ◌++◌, Bytes,
  length, take, drop, ltb, leb, ◌==◌, if◌then◌else◌,
}
use sys_agent.Prelude.Word.{u32_mod, u32_max, u64_mod, add_u64}
use sys_agent.Libc.{is_empty}
use sys_agent.Store.File.{
  Metadata, StoreHeader, Block, IndexEntry, store_magic, store_version, block_magic, header_bytes,
  block_bytes, header_fields, block_fields, entry_fields, read_block, header_crc_of,
}
use sys_agent.Store.Layout.{fields_bytes}
use sys_agent.Store.Crc.{crc32}
use sys_agent.Store.Payload.{candidates, representation_of, payload_size_of, payload}

-- `SearchStoreWriter`, with its file: whether it is open, its bytes, the position in it, and whether it is there.
pub record Writer : Type 0 where
  pub path : Bytes
  pub header : StoreHeader
  pub failed : Bool
  pub opened : Bool
  pub content : Bytes
  pub position : ℕ
  pub there : Bool

-- `SEARCH_STORE_PATH_MAX`
abbrev pub path_max : ℕ
path_max = 256

-- Bytes at a position of a file, over what is there.
abbrev pub overwrite : Bytes → ℕ → Bytes → Bytes
overwrite content position bytes =
    take position content ++ (bytes ++ drop (position + length bytes) content)

-- `fwrite` at the position of the file, of everything or of some bytes only.
unfoldable pub fwrite : Option ℕ → Writer → Bytes → Bool × Writer
fwrite none w bytes = (
  true,
  record w { content = overwrite w.content w.position bytes; position = w.position + length bytes },
)
fwrite (some n) w bytes = (
  false,
  record w {
    content = overwrite w.content w.position (take n bytes);
    position = w.position + length (take n bytes);
  },
)

-- `searchStoreWriterAbort`: the file is closed and removed.
unfoldable pub writer_abort : Writer → Writer
writer_abort w = record w { opened = false; there = w.there && is_empty w.path }

-- The header of a file with no blocks, which has no checksum yet.
abbrev pub new_header : Metadata → StoreHeader
new_header metadata = record {
  magic = store_magic;
  version = store_version;
  header_size = header_bytes;
  metadata = metadata;
  candidate_count = 0;
  block_count = 0;
  index_offset = 0;
  data_bytes = 0;
  header_crc = 0;
  reserved = 0;
}

-- A writer whose file is open and empty.
unfoldable pub new_writer : Bytes → Metadata → Writer
new_writer path metadata = record {
  path = path;
  header = new_header metadata;
  failed = false;
  opened = true;
  content = [];
  position = 0;
  there = true;
}

-- `searchStoreWriterOpen`, by whether the file opens and how its header is written. If there is no file to write,
-- nothing is answered.
unfoldable pub writer_open : Bool → Option ℕ → Bytes → Metadata → Option (Bool × Writer)
writer_open opens written path metadata =
    if leb path_max (length path) || not opens
    then none
    else let (ok, w) =
        fwrite written (new_writer path metadata)
          (fields_bytes (header_fields (new_header metadata))) in
      if ok then some (true, w) else some (false, writer_abort w)

-- The header of a block.
unfoldable pub block_of : StoreHeader → ℕ → ℕ → Option Bytes → Bytes → Block
block_of header base slots mask bytes = record {
  magic = block_magic;
  representation = representation_of header.metadata.width slots (candidates mask slots);
  width = header.metadata.width % 256;
  reserved = 0;
  base = base;
  cumulative_candidates = header.candidate_count;
  slot_count = slots;
  candidate_count = candidates mask slots;
  payload_size = payload_size_of header.metadata.width slots (candidates mask slots) % u32_mod;
  payload_crc = crc32 bytes;
}

-- The counters of the header behind one block more.
unfoldable pub count_block : StoreHeader → ℕ → ℕ → StoreHeader
count_block header count size = record header {
  candidate_count = add_u64 header.candidate_count count;
  block_count = add_u64 header.block_count 1;
  data_bytes = add_u64 header.data_bytes (block_bytes + size);
}

-- The header and the payload of a block are written; the second only if the first was.
unfoldable pub write_block : Option ℕ → Option ℕ → Writer → Bytes → Bytes → Bool × Writer
write_block first second w block bytes =
    let (ok, w') = fwrite first w block in if ok then fwrite second w' bytes else (false, w')

-- `searchStoreWriterAddBlock`, by whether memory is given and how the header and the payload are written.
unfoldable pub add_block :
    Bool → Option ℕ → Option ℕ → Writer → ℕ → ℕ → Bytes → Option Bytes → Bool × Writer
add_block allocated first second w base slots values mask =
    let width = w.header.metadata.width in
    let count = candidates mask slots in
    let size = payload_size_of width slots count in
    let bytes = payload mask values width slots (representation_of width slots count) in
    let (ok, w') =
      write_block first second w
        (fields_bytes (block_fields (block_of w.header base slots mask bytes))) bytes in
    if not w.opened || w.failed || slots == 0
    then (false, w)
    else if count == 0
    then (true, w)
    else if ltb u32_max size || not allocated
    then (false, record w { failed = true })
    else if ok
    then (true, record w' { header = count_block w.header count size })
    else (false, record w' { failed = true })

-- The index entry of a block at an offset.
unfoldable pub entry_of : ℕ → Block → IndexEntry
entry_of offset block = record {
  file_offset = offset;
  cumulative_candidates = block.cumulative_candidates;
  base = block.base;
  slot_count = block.slot_count;
  candidate_count = block.candidate_count;
}

-- `fwrite` of an entry at the end of the file.
unfoldable pub append_entry : Option ℕ → Writer → IndexEntry → Bool × Writer
append_entry written w entry =
    fwrite written (record w { position = length w.content }) (fields_bytes (entry_fields entry))

-- The loop of `writeIndex`, over the blocks that are left, from an index and an offset on; each entry is written as the
-- system answers for its index.
unfoldable pub write_entries : (ℕ → Option ℕ) → ℕ → ℕ → ℕ → Writer → Bool × Writer
write_entries written zero index offset w = (true, w)
write_entries written (suc n) index offset w = elim (read_block w.content offset) [
  | none ↦ (false, w)
  | some block ↦
      let step = append_entry (written index) w (entry_of offset block) in
      let rest =
        write_entries written n (index + 1) (add_u64 offset (block_bytes + block.payload_size))
          step.1 in
      if not (block.magic == block_magic)
      then (false, w)
      else if step.0
      then rest
      else (false, step.1)
]

-- `writeIndex`
unfoldable pub write_index : (ℕ → Option ℕ) → Writer → Bool × Writer
write_index written w = write_entries written w.header.block_count 0 header_bytes (record w {
  header = record w.header { index_offset = add_u64 header_bytes w.header.data_bytes };
})

-- The header with its checksum.
unfoldable pub seal : StoreHeader → StoreHeader
seal header = record header { header_crc = header_crc_of header }

-- The header is written at the start of the file.
unfoldable pub write_header : Option ℕ → Writer → Bool × Writer
write_header written w =
    fwrite written (record w { header = seal w.header; position = 0 })
      (fields_bytes (header_fields (seal w.header)))

-- `searchStoreWriterFinish`, by how the entries and the header are written, and whether the file is then flushed, synced
-- and closed.
unfoldable pub writer_finish : (ℕ → Option ℕ) → Option ℕ → Bool → Writer → Bool × Writer
writer_finish entries written closed w =
    let (indexed, w') = write_index entries w in
    let (ok, w'') = write_header written w' in
    if not w.opened || w.failed
    then (false, writer_abort w)
    else if not indexed
    then (false, writer_abort w')
    else (ok && closed, record w'' { opened = false; there = ok && closed })
