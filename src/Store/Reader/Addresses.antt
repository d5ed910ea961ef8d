-- ===== src/Store/Reader/Addresses.antt =====
-- `searchStoreReadAddresses` of sys-agent/source/search_store.c: a page of the addresses of the candidates, found
-- through the index. The bytes of an opened file are read without an error, and memory is given for a payload.
pub mod Page
pub mod Blocks
pub mod Records
pub mod Index
pub mod Bisect
pub mod Described
pub mod Whole
use sys_agent.Prelude.{
  ℕ, zero, suc, ◌+◌, ◌-◌, ◌*◌, ◌/◌, ◌%◌, Bool, true, false, not, ◌&&◌, ◌||◌, Option, none, some,
  List, [], ◌∷◌, ◌++◌, Bytes, length, drop, ltb, leb, ◌==◌, if◌then◌else◌,
}
use sys_agent.Prelude.Word.{add_u64, u64_mod}
use sys_agent.Search.Compare.{bit_is_set}
use sys_agent.Store.File.{StoreHeader, Block, IndexEntry, entry_bytes, read_block, read_entry}
use sys_agent.Store.Layout.{le_value}
use sys_agent.Store.Payload.{store_bitmap, store_sparse, not_behind}
use sys_agent.Store.Reader.{Reader, reader_open, block_is_bad, read_payload}

-- What reading gives: the addresses, a refusal, or a read behind the payload.
pub data Listing : Type 0 where
  listed : List ℕ → Listing
  refused : Listing
  behind_payload : Listing

-- What the search in the index gives: the block to start at, a refusal, or no fuel.
pub data Start : Type 0 where
  start_at : ℕ → Start
  damaged : Start
  unfinished : Start

-- Whether the candidates of an entry are not among those of the header.
unfoldable pub entry_is_bad : StoreHeader → IndexEntry → Bool
entry_is_bad h e =
    ltb h.candidate_count e.cumulative_candidates
    || ltb (h.candidate_count - e.cumulative_candidates) e.candidate_count

-- The number of candidates up to an entry.
unfoldable pub end_of : IndexEntry → ℕ
end_of e = add_u64 e.cumulative_candidates e.candidate_count

-- The offset of an entry of the index.
unfoldable pub entry_offset : StoreHeader → ℕ → ℕ
entry_offset h index = add_u64 h.index_offset (index * entry_bytes)

-- The binary search for the first block that ends behind the page's start, on fuel.
unfoldable pub find_start : ℕ → Bytes → StoreHeader → ℕ → ℕ → ℕ → Start
find_start zero content h offset low high = unfinished
find_start (suc fuel) content h offset low high =
    let middle = low + (high - low) / 2 in
    let below = find_start fuel content h offset low middle in
    let above = find_start fuel content h offset (middle + 1) high in
    let found : Start = elim (read_entry content (entry_offset h middle)) [
      | none ↦ damaged
      | some e ↦
          if entry_is_bad h e then damaged else if leb (end_of e) offset then above else below
    ] in
    if ltb low high then found else start_at low

-- The address of a slot.
unfoldable pub address_of : ℕ → ℕ → ℕ → ℕ
address_of alignment base slot = add_u64 base (slot * alignment % u64_mod)

-- A candidate with its ordinal is copied if it belongs to the page.
unfoldable pub copy : ℕ → ℕ → ℕ → ℕ → List ℕ → List ℕ
copy offset count ordinal address copied =
    if leb offset ordinal && ltb (length copied) count then copied ++ address ∷ [] else copied

-- The loop over the candidates of a sparse payload.
unfoldable pub sparse_addresses : ℕ → Block → ℕ → ℕ → ℕ → Option ℕ → Bytes → ℕ → List ℕ → Listing
sparse_addresses alignment b offset count zero previous bytes ordinal copied = listed copied
sparse_addresses alignment b offset count (suc n) previous bytes ordinal copied =
    let slot = le_value 4 bytes in
    let rest =
      sparse_addresses alignment b offset count n (some slot) (drop (4 + b.width) bytes)
        (ordinal + 1) (copy offset count ordinal (address_of alignment b.base slot) copied) in
    if ltb (length bytes) 4
    then behind_payload
    else if leb b.slot_count slot || not_behind previous slot
    then refused
    else rest

-- Whether a slot is a candidate of a payload that starts with a mask or has none.
unfoldable pub in_mask : Option Bytes → ℕ → Bool
in_mask none slot = true
in_mask (some mask) slot = bit_is_set mask slot

-- Whether the byte of a slot lies behind the mask.
unfoldable pub behind_mask : Option Bytes → ℕ → Bool
behind_mask none slot = false
behind_mask (some mask) slot = leb (length mask) (slot / 8)

-- The loop over the slots of another payload, of which n are left.
unfoldable pub dense_addresses : ℕ → Block → ℕ → ℕ → Option Bytes → ℕ → ℕ → ℕ → List ℕ → Listing
dense_addresses alignment b offset count mask zero slot ordinal copied = listed copied
dense_addresses alignment b offset count mask (suc n) slot ordinal copied =
    let unset = dense_addresses alignment b offset count mask n (slot + 1) ordinal copied in
    let taken =
      dense_addresses alignment b offset count mask n (slot + 1) (ordinal + 1)
        (copy offset count ordinal (address_of alignment b.base slot) copied) in
    if leb count (length copied)
    then listed copied
    else if behind_mask mask slot
    then behind_payload
    else if in_mask mask slot
    then taken
    else unset

-- The addresses of a block onto those that were copied before.
unfoldable pub block_addresses : ℕ → Block → ℕ → ℕ → Bytes → List ℕ → Listing
block_addresses alignment b offset count bytes copied =
    if b.representation == store_sparse
    then sparse_addresses alignment b offset count b.candidate_count none bytes
        b.cumulative_candidates copied
    else dense_addresses alignment b offset count
        (if b.representation == store_bitmap then some bytes else none) b.slot_count 0
        b.cumulative_candidates copied

-- Whether a block is not the one that its entry tells.
unfoldable pub entry_differs : IndexEntry → Block → Bool
entry_differs e b =
    not (e.cumulative_candidates == b.cumulative_candidates)
    || not (e.base == b.base)
    || not (e.slot_count == b.slot_count)
    || not (e.candidate_count == b.candidate_count)

-- The block of an entry, checked, with its addresses.
unfoldable pub entry_addresses : Bytes → StoreHeader → ℕ → ℕ → IndexEntry → List ℕ → Listing
entry_addresses content h offset count e copied = elim (read_block content e.file_offset) [
  | none ↦ refused
  | some b ↦
      let found : Listing = elim (read_payload true content e.file_offset b) [
        | none ↦ refused
        | some bytes ↦ block_addresses h.metadata.alignment b offset count bytes copied
      ] in
      if block_is_bad h e.file_offset b || entry_differs e b || entry_is_bad h e
      then refused
      else found
]

-- What follows, where addresses were listed.
unfoldable pub and_then : Listing → (List ℕ → Listing) → Listing
and_then (listed copied) next = next copied
and_then refused next = refused
and_then behind_payload next = behind_payload

-- The loop over the blocks, of which n are left.
unfoldable pub collect : Bytes → StoreHeader → ℕ → ℕ → ℕ → ℕ → List ℕ → Listing
collect content h offset count zero index copied = listed copied
collect content h offset count (suc n) index copied =
    let found : Listing = elim (read_entry content (entry_offset h index)) [
      | none ↦ refused
      | some e ↦
          let here = entry_addresses content h offset count e copied in
          let step : Listing = if leb (end_of e) offset then listed copied else here in
          and_then step (λ more. collect content h offset count n (index + 1) more)
    ] in
    if leb count (length copied) then listed copied else found

-- The blocks from the one that the search gives.
unfoldable pub collect_from : Bytes → StoreHeader → ℕ → ℕ → Start → Option Listing
collect_from content h offset count (start_at low) =
    some (collect content h offset count (h.block_count - low) low [])
collect_from content h offset count damaged = some refused
collect_from content h offset count unfinished = none

-- `searchStoreReadAddresses` for a file with these bytes, if there is one: the total and the addresses of a page. No
-- answer is left without fuel; the search ends within 65 rounds.
unfoldable pub read_addresses : Option Bytes → ℕ → ℕ → Option (ℕ × Listing)
read_addresses file offset count = elim (reader_open file) [
  | none ↦ some (0, refused)
  | some r ↦
      let found : Option (ℕ × Listing) =
        elim (collect_from r.content r.header offset count
          (find_start 65 r.content r.header offset 0 r.header.block_count)) [
            | none ↦ none
            | some l ↦ some (r.header.candidate_count, l)
          ] in
      if leb r.header.candidate_count offset || count == 0
      then some (r.header.candidate_count, listed [])
      else found
]
