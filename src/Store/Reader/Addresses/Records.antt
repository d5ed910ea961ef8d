-- ===== src/Store/Reader/Addresses/Records.antt =====
-- The addresses of a block that was written for an input, whichever representation was chosen.
use native.Mathlib.Nat.{mul-le-mul_left}
use sys_agent.Prelude.{
  ℕ, ◌+◌, ◌*◌, ◌/◌, ◌≤◌, ◌<◌, ◌≡◌, refl, sym, ap, ◌∙◌, arith, true, false, Option, none, some, List,
  ◌++◌, Bytes, length, length-append, take, get_or-append_left, ltb, ◌==◌, ==_iff, ==_refl,
  if◌then◌else◌, Bool-cases, inl, inr, ◌⊎◌,
}
use sys_agent.Search.Compare.{bit_is_set}
use sys_agent.Store.File.{Metadata, Block}
use sys_agent.Store.Payload.{
  store_all, store_bitmap, store_sparse, mask_size, count_set, candidates, representation_of,
  pack_sparse, payload,
}
use sys_agent.Store.Payload.RoundTrip.{IsMaskFor, is_candidate, count_set-all}
use sys_agent.Store.Reader.Addresses.{
  listed, sparse_addresses, in_mask, behind_mask, dense_addresses, block_addresses,
}
use sys_agent.Store.Reader.Addresses.Page.{page}
use sys_agent.Store.Writer.{new_header, block_of}
use sys_agent.Store.Writer.Chain.{take_all, BlockInput, IsInput, record_of}
use sys_agent.Store.Reader.Addresses.Blocks.{
  candidate_addresses, dense_addresses-page, sparse_addresses-page, input_addresses,
}

-- A mask in front of other bytes.
mask_in_front :
    (mask rest : Bytes) (slots t : ℕ)
    → length mask ≡ mask_size slots
    → t < slots
    → (behind_mask (some (mask ++ rest)) t ≡ false)
      × (in_mask (some (mask ++ rest)) t ≡ bit_is_set mask t)
unfolding behind_mask in_mask bit_is_set
mask_in_front mask rest slots t sized lt =
    let inside : t / 8 < length mask = omega (arith, sized, lt) in
    let long = length-append mask rest in
    (ground (arith, long), rw (get_or-append_left mask rest (t / 8) 0 inside) refl)

-- The loop that a representation takes.
block_addresses_shape :
    (alignment offset count r : ℕ) (b : Block) (bytes : Bytes) (copied : List ℕ)
    → b.representation ≡ r
    → block_addresses alignment b offset count bytes copied ≡ (
        if r == store_sparse
        then sparse_addresses alignment b offset count b.candidate_count none bytes
            b.cumulative_candidates copied
        else dense_addresses alignment b offset count
            (if r == store_bitmap then some bytes else none)
            b.slot_count
            0
            b.cumulative_candidates
            copied)
unfolding block_addresses
block_addresses_shape alignment offset count r b bytes copied e =
    ap
      (λ t.
        if t == store_sparse
        then sparse_addresses alignment b offset count b.candidate_count none bytes
            b.cumulative_candidates copied
        else dense_addresses alignment b offset count
            (if t == store_bitmap then some bytes else none) b.slot_count 0 b.cumulative_candidates
            copied)
      e

representation_of_all : (width slots : ℕ) → representation_of width slots slots ≡ store_all
unfolding representation_of
representation_of_all width slots = rw (==_refl slots) refl

-- The three representations.
representation_cases :
    (width slots count : ℕ)
    → ((representation_of width slots count ≡ store_all) × (count ≡ slots))
      ⊎ ((representation_of width slots count ≡ store_sparse)
          ⊎ (representation_of width slots count ≡ store_bitmap))
unfolding representation_of
representation_cases width slots count = elim (Bool-cases (count == slots)) [
  | inl full ↦ inl (rw full refl, (==_iff count slots).0 full)
  | inr partial ↦
      inr (elim (Bool-cases (ltb (count * (4 + width)) (mask_size slots + slots * width))) [
        | inl small ↦ inl (rw (partial, small) refl)
        | inr large ↦ inr (rw (partial, large) refl)
      ])
]

module _ (metadata : Metadata) (alignment offset count : ℕ) (wide : 0 < metadata.width)
    (narrow : metadata.width ≤ 8) (i : BlockInput) (before : List ℕ) (n : ℕ) (e : n ≡ length before)
    (ok : IsInput metadata.width i) where
  -- The payload of the input with a mask.
  abbrev bytes_of : Option Bytes → Bytes
  bytes_of mask =
      payload mask i.values metadata.width i.slots
        (representation_of metadata.width i.slots (candidates mask i.slots))

  -- The block of the input with a mask.
  abbrev block : Option Bytes → Block
  block mask =
      block_of (record (new_header metadata) { candidate_count = n }) i.base i.slots mask
        (bytes_of mask)

  abbrev IsListed : Option Bytes → Type 0
  IsListed mask =
      block_addresses alignment (block mask) offset count (bytes_of mask) (page offset count before)
      ≡ listed (page offset count (before ++ candidate_addresses alignment i.base mask i.slots 0))

  all-IsListed :
      (mask : Option Bytes)
      → representation_of metadata.width i.slots (candidates mask i.slots) ≡ store_all
      → ((t : ℕ) → t < i.slots → is_candidate mask t ≡ true)
      → IsListed mask
  unfolding block_of behind_mask in_mask
  all-IsListed mask r each =
      block_addresses_shape alignment offset count store_all (block mask) (bytes_of mask)
        (page offset count before) r
      ∙ dense_addresses-page alignment offset count (block mask) mask none i.slots 0 n before e
          (λ t le lt. (refl, sym (each t (omega (arith, lt)))))

  bitmap-IsListed :
      (mask : Bytes)
      → representation_of metadata.width i.slots (candidates (some mask) i.slots) ≡ store_bitmap
      → length mask ≡ mask_size i.slots
      → IsListed (some mask)
  unfolding block_of payload
  bitmap-IsListed mask r sized =
      let whole : bytes_of (some mask) ≡ mask ++ take (i.slots * metadata.width) i.values =
        ap (payload (some mask) i.values metadata.width i.slots) r
        ∙ ap (λ m. m ++ take (i.slots * metadata.width) i.values) (take_whole mask sized) in
      block_addresses_shape alignment offset count store_bitmap (block (some mask))
        (bytes_of (some mask)) (page offset count before) r
      ∙ dense_addresses-page alignment offset count (block (some mask)) (some mask)
          (some (bytes_of (some mask))) i.slots 0 n before e
          (λ t le lt. rw whole (
            mask_in_front mask (take (i.slots * metadata.width) i.values) i.slots t sized
              (omega (arith, lt))))
    where
      take_whole :
          (mask : Bytes) → length mask ≡ mask_size i.slots → take (mask_size i.slots) mask ≡ mask
      take_whole mask sized = rw (← sized) (take_all mask)

  sparse-IsListed :
      (mask : Bytes)
      → representation_of metadata.width i.slots (candidates (some mask) i.slots) ≡ store_sparse
      → IsListed (some mask)
  unfolding block_of payload candidates
  sparse-IsListed mask r =
      let packed : bytes_of (some mask) ≡ pack_sparse mask i.values metadata.width i.slots 0 =
        ap (payload (some mask) i.values metadata.width i.slots) r in
      let each : i.slots * 1 ≤ i.slots * metadata.width = mul-le-mul_left i.slots wide in
      block_addresses_shape alignment offset count store_sparse (block (some mask))
        (bytes_of (some mask)) (page offset count before) r
      ∙ ap
          (λ bytes.
            sparse_addresses alignment (block (some mask)) offset count (count_set mask i.slots 0)
              none bytes n (page offset count before))
          packed
      ∙ sparse_addresses-page alignment offset count (block (some mask)) mask i.values
          metadata.width i.slots ok.values (omega (arith, each, ok.small)) (omega (arith, narrow))
          refl i.slots 0 n none before e (omega arith) refl (λ t h. refl)

  IsListed-mask : (mask : Option Bytes) → IsMaskFor i.slots mask → IsListed mask
  unfolding candidates
  IsListed-mask none masked =
      all-IsListed none (representation_of_all metadata.width i.slots) (λ t lt. refl)
  IsListed-mask (some mask) masked =
      elim (representation_cases metadata.width i.slots (count_set mask i.slots 0)) [
        | inl full ↦
            all-IsListed (some mask) full.0
              (λ t lt. count_set-all mask i.slots 0 t full.1 (omega arith) (omega (arith, lt)))
        | inr (inl sparse) ↦ sparse-IsListed mask sparse
        | inr (inr bitmap) ↦ bitmap-IsListed mask bitmap masked.0
      ]

  -- The addresses of an input's candidates are listed behind those before.
  pub block_addresses-record :
      block_addresses alignment
        (record_of metadata n i).0
        offset
        count
        (record_of metadata n i).1
        (page offset count before)
      ≡ listed (page offset count (before ++ input_addresses alignment i))
  unfolding record_of
  block_addresses-record = IsListed-mask i.mask ok.masked
