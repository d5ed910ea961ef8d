-- ===== src/Store/Payload.antt =====
-- The candidates of a block as bytes, in sys-agent/source/search_store.c: how `searchStoreWriterAddBlock` chooses among
-- three representations and writes them, and how `searchStoreReaderNext` reads them. The mask's bits are tested and
-- set as in search_compare.c.
pub mod Sparse
pub mod RoundTrip
pub mod Size
use sys_agent.Prelude.{
  ℕ, zero, suc, ◌+◌, ◌-◌, ◌*◌, ◌/◌, ◌%◌, ◌^◌, Bool, true, false, ◌||◌, Option, none, some, List, [],
  ◌∷◌, ◌++◌, Bytes, length, take, drop, set, get_or, replicate, ltb, leb, ◌==◌, if◌then◌else◌,
  bit_and,
}
use sys_agent.Search.Compare.{bit_is_set, bit_set}
use sys_agent.Store.Layout.{le_bytes, le_value}

-- `StoreRepresentation`
abbrev pub store_all : ℕ
store_all = 1

abbrev pub store_bitmap : ℕ
store_bitmap = 2

abbrev pub store_sparse : ℕ
store_sparse = 3

-- The bytes of a mask. Slots are fewer than 2^32 - 7, so that the sum in 32 bits does not wrap.
abbrev pub mask_size : ℕ → ℕ
mask_size slots = (slots + 7) / 8

-- The set bits among n slots from a slot on.
unfoldable pub count_set : Bytes → ℕ → ℕ → ℕ
count_set mask zero slot = 0
count_set mask (suc n) slot = (if bit_is_set mask slot then 1 else 0) + count_set mask n (slot + 1)

-- The number of candidates; every slot is one without a mask.
unfoldable pub candidates : Option Bytes → ℕ → ℕ
candidates none slots = slots
candidates (some mask) slots = count_set mask slots 0

-- The representation of a block, by its slots and candidates.
unfoldable pub representation_of : ℕ → ℕ → ℕ → ℕ
representation_of width slots count =
    if count == slots
    then store_all
    else if ltb (count * (4 + width)) (mask_size slots + slots * width)
    then store_sparse
    else store_bitmap

-- The size of a representation.
unfoldable pub payload_size_of : ℕ → ℕ → ℕ → ℕ
unfolding representation_of
payload_size_of width slots count =
    let representation = representation_of width slots count in
    if representation == store_all
    then slots * width
    else if representation == store_sparse
    then count * (4 + width)
    else mask_size slots + slots * width

-- The loop that packs the candidates, from a slot on: each slot's number and value.
unfoldable pub pack_sparse : Bytes → Bytes → ℕ → ℕ → ℕ → Bytes
pack_sparse mask values width zero slot = []
pack_sparse mask values width (suc n) slot =
    let rest = pack_sparse mask values width n (slot + 1) in
    if bit_is_set mask slot
    then le_bytes 4 slot ++ (take width (drop (slot * width) values) ++ rest)
    else rest

-- The payload of a block. Without a mask every slot is a candidate, so that the values alone are written.
unfoldable pub payload : Option Bytes → Bytes → ℕ → ℕ → ℕ → Bytes
payload none values width slots representation = take (slots * width) values
payload (some mask) values width slots representation =
    if representation == store_all
    then take (slots * width) values
    else if representation == store_bitmap
    then take (mask_size slots) mask ++ take (slots * width) values
    else pack_sparse mask values width slots 0

-- `memcpy` to an index of an array.
unfoldable pub write_bytes : Bytes → ℕ → Bytes → Bytes
write_bytes xs i [] = xs
write_bytes xs i (b ∷ bytes) = write_bytes (set xs i b) (i + 1) bytes

-- The mask of a block whose slots are all candidates.
unfoldable pub full_mask : ℕ → Bytes
full_mask slots =
    let mask = replicate (mask_size slots) 0xFF in
    if slots % 8 == 0
    then mask
    else set mask (mask_size slots - 1)
        (bit_and (get_or mask (mask_size slots - 1) 0) (2 ^ (slots % 8) - 1))

-- Whether a slot is not behind the one before it.
abbrev pub not_behind : Option ℕ → ℕ → Bool
not_behind none slot = false
not_behind (some previous) slot = leb slot previous

-- The loop that unpacks n candidates, behind a previous slot.
unfoldable pub unpack_sparse : ℕ → ℕ → ℕ → Option ℕ → Bytes → Bytes → Bytes → Option (Bytes × Bytes)
unpack_sparse width slots zero previous bytes values mask = some (values, mask)
unpack_sparse width slots (suc n) previous bytes values mask =
    let slot = le_value 4 bytes in
    let rest =
      unpack_sparse width slots n (some slot) (drop (4 + width) bytes)
        (write_bytes values (slot * width) (take width (drop 4 bytes))) (bit_set mask slot) in
    if leb slots slot || not_behind previous slot then none else rest

-- The values and the mask of a block, by its representation.
unfoldable pub unpack : ℕ → ℕ → ℕ → ℕ → Bytes → Option (Bytes × Bytes)
unpack representation width slots count bytes =
    let sparse =
      unpack_sparse width slots count none bytes (replicate (slots * width) 0)
        (replicate (mask_size slots) 0) in
    if representation == store_all
    then (if length bytes == slots * width then some (bytes, full_mask slots) else none)
    else if representation == store_bitmap
    then (if length bytes == mask_size slots + slots * width
        then some (drop (mask_size slots) bytes, take (mask_size slots) bytes)
        else none)
    else if representation == store_sparse
    then (if length bytes == count * (4 + width) then sparse else none)
    else none
