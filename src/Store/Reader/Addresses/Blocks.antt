-- ===== src/Store/Reader/Addresses/Blocks.antt =====
-- The addresses of one block, from its payload: those of its candidates, in order, as far as they belong to the page.
use sys_agent.Prelude.{
  ℕ, zero, suc, ◌+◌, ◌*◌, ◌%◌, ◌^◌, ◌≤◌, ◌<◌, ◌≡◌, refl, sym, ap, ◌∙◌, arith, false, Option, none,
  some, List, [], ◌∷◌, ◌++◌, append_assoc, append-nil, Bytes, length, length-append, drop, ltb, leb,
  if◌then◌else◌, Bool-cases, inl, inr,
}
use sys_agent.Prelude.Word.{u64_mod}
use sys_agent.Search.Compare.{bit_is_set}
use sys_agent.Store.File.{Block}
use sys_agent.Store.Layout.{le_bytes, le_value, le_value-le_bytes, length-le_bytes}
use sys_agent.Store.Payload.{count_set, candidates, pack_sparse, not_behind}
use sys_agent.Store.Payload.RoundTrip.{is_candidate}
use sys_agent.Store.Payload.Sparse.{behind_value, chunk, length-chunk}
use sys_agent.Store.Reader.Addresses.{
  Listing, listed, address_of, copy, sparse_addresses, in_mask, behind_mask, dense_addresses,
}
use sys_agent.Store.Reader.Addresses.Page.{page, copy-page, page_full}
use sys_agent.Store.Writer.Chain.{BlockInput, input_count}

-- The addresses of the candidates among n slots from a slot on: each lies as many alignments behind the base as its slot
-- says, in 64 bits.
unfoldable pub candidate_addresses : ℕ → ℕ → Option Bytes → ℕ → ℕ → List ℕ
candidate_addresses alignment base mask zero slot = []
candidate_addresses alignment base mask (suc n) slot =
    let rest = candidate_addresses alignment base mask n (slot + 1) in
    if is_candidate mask slot then (base + slot * alignment) % u64_mod ∷ rest else rest

address_of_lem :
    (alignment base slot : ℕ) → address_of alignment base slot ≡ (base + slot * alignment) % u64_mod
unfolding address_of
address_of_lem alignment base slot = omega arith

pub length-candidate_addresses :
    (alignment base : ℕ) (mask : Bytes) (n slot : ℕ)
    → length (candidate_addresses alignment base (some mask) n slot) ≡ count_set mask n slot
unfolding candidate_addresses count_set
length-candidate_addresses alignment base mask zero slot = refl
length-candidate_addresses alignment base mask (suc n) slot =
    ground (arith, length-candidate_addresses alignment base mask n (slot + 1))

pub length-candidate_addresses_all :
    (alignment base n slot : ℕ) → length (candidate_addresses alignment base none n slot) ≡ n
unfolding candidate_addresses
length-candidate_addresses_all alignment base zero slot = refl
length-candidate_addresses_all alignment base (suc n) slot =
    ap suc (length-candidate_addresses_all alignment base n (slot + 1))

module _ (alignment offset count : ℕ) (b : Block) where
  -- What is listed with some addresses in front.
  abbrev pub lists : List ℕ → List ℕ → Listing
  lists before more = listed (page offset count (before ++ more))

  pub dense_addresses-page :
      (mask seen : Option Bytes) (n slot ordinal : ℕ) (before : List ℕ)
      → ordinal ≡ length before
      → ((t : ℕ)
          → slot ≤ t
          → t < slot + n
          → (behind_mask seen t ≡ false) × (in_mask seen t ≡ is_candidate mask t))
      → dense_addresses alignment b offset count seen n slot ordinal (page offset count before)
        ≡ lists before (candidate_addresses alignment b.base mask n slot)
  unfolding dense_addresses candidate_addresses
  dense_addresses-page mask seen zero slot ordinal before e same =
      ap (λ t. listed (page offset count t)) (sym (append-nil before))
  dense_addresses-page mask seen (suc n) slot ordinal before e same =
      elim (Bool-cases (leb count (length (page offset count before)))) [
        | inl full ↦
            rw full (ap listed (sym (page_full offset count before _ (ground (arith, full)))))
        | inr more ↦
            let here = same slot (omega arith) (omega arith) in
            let later = λ (t : ℕ) (le : slot + 1 ≤ t) (lt : t < slot + 1 + n).
              same t (omega arith) (omega arith) in
            rw (more, here.0, here.1)
              (elim (Bool-cases (is_candidate mask slot)) [
                | inl on ↦
                    let a = (b.base + slot * alignment) % u64_mod in
                    rw
                      (
                        on,
                        address_of_lem alignment b.base slot,
                        copy-page offset count before ordinal a e,
                      )
                      (dense_addresses-page mask seen n (slot + 1) (ordinal + 1) (before ++ a ∷ [])
                          (omega (arith, e, length-append before (a ∷ []))) later
                        ∙ ap (λ t. listed (page offset count t)) (append_assoc before (a ∷ []) _))
                | inr off ↦
                    rw off (dense_addresses-page mask seen n (slot + 1) ordinal before e later)
              ])
      ]

module _ (alignment offset count : ℕ) (b : Block) (mask values : Bytes) (width slots : ℕ)
    (whole : length values ≡ slots * width) (few : slots ≤ 256 ^ 4) (wide : b.width ≡ width)
    (sized : b.slot_count ≡ slots) where
  -- One round, by what the bytes hold.
  sparse_one :
      (n slot ordinal : ℕ) (previous : Option ℕ) (bytes rest : Bytes) (copied : List ℕ)
      → le_value 4 bytes ≡ slot
      → drop (4 + b.width) bytes ≡ rest
      → 4 ≤ length bytes
      → slot < slots
      → not_behind previous slot ≡ false
      → sparse_addresses alignment b offset count (suc n) previous bytes ordinal copied
        ≡ sparse_addresses alignment b offset count n
            (some slot)
            rest
            (ordinal + 1)
            (copy offset count ordinal (address_of alignment b.base slot) copied)
  unfolding sparse_addresses
  sparse_one n slot ordinal previous bytes rest copied e left long inside behind =
      let long_test : ltb (length bytes) 4 ≡ false = ground arith in
      let inside_test : leb b.slot_count slot ≡ false = ground (arith, inside) in
      rw (e, long_test, inside_test, behind, left) refl

  pub sparse_addresses-page :
      (n slot ordinal : ℕ) (previous : Option ℕ) (before : List ℕ)
      → ordinal ≡ length before
      → slot + n ≤ slots
      → not_behind previous slot ≡ false
      → ((t : ℕ) → not_behind previous t ≡ false → not_behind previous (t + 1) ≡ false)
      → sparse_addresses alignment b offset count
          (count_set mask n slot)
          previous
          (pack_sparse mask values width n slot)
          ordinal
          (page offset count before)
        ≡ lists alignment offset count b before
            (candidate_addresses alignment b.base (some mask) n slot)
  unfolding sparse_addresses pack_sparse count_set candidate_addresses
  sparse_addresses-page zero slot ordinal previous before e fits behind up =
      ap (λ t. listed (page offset count t)) (sym (append-nil before))
  sparse_addresses-page (suc n) slot ordinal previous before e fits behind up =
      elim (Bool-cases (bit_is_set mask slot)) [
        | inl on ↦
            let one : 1 + count_set mask n (slot + 1) ≡ suc (count_set mask n (slot + 1)) =
              omega arith in
            let a = (b.base + slot * alignment) % u64_mod in
            let rest = pack_sparse mask values width n (slot + 1) in
            let here = chunk mask values width slots whole few slot in
            let bytes = le_bytes 4 slot ++ (here ++ rest) in
            let long = length-append (le_bytes 4 slot) (here ++ rest) in
            let parts =
              behind_value slot width here rest
                (length-chunk mask values width slots whole few slot (omega (arith, fits))) in
            let step =
              sparse_one (count_set mask n (slot + 1)) slot ordinal previous bytes rest
                (page offset count before)
                (le_value-le_bytes 4 slot (here ++ rest) (omega (arith, fits, few)))
                (ap (λ k. drop (4 + k) bytes) wide ∙ parts.0)
                (omega (arith, long, length-le_bytes 4 slot)) (omega (arith, fits)) behind in
            rw (on, one)
              (step
                ∙ ap
                    (λ c.
                      sparse_addresses alignment b offset count (count_set mask n (slot + 1))
                        (some slot) rest (ordinal + 1) c)
                    (ap (λ t. copy offset count ordinal t (page offset count before))
                        (address_of_lem alignment b.base slot)
                      ∙ copy-page offset count before ordinal a e)
                ∙ sparse_addresses-page n (slot + 1) (ordinal + 1) (some slot) (before ++ a ∷ [])
                    (omega (arith, e, length-append before (a ∷ []))) (omega (arith, fits))
                    (ground arith) (λ t le. ground (arith, le))
                ∙ ap (λ t. listed (page offset count t)) (append_assoc before (a ∷ []) _))
        | inr off ↦
            let nothing : 0 + count_set mask n (slot + 1) ≡ count_set mask n (slot + 1) =
              omega arith in
            rw (off, nothing)
              (sparse_addresses-page n (slot + 1) ordinal previous before e (omega (arith, fits))
                (up slot behind) up)
      ]

-- The addresses of an input.
abbrev pub input_addresses : ℕ → BlockInput → List ℕ
input_addresses alignment i = candidate_addresses alignment i.base i.mask i.slots 0

pub length-input_addresses :
    (alignment : ℕ) (i : BlockInput) → length (input_addresses alignment i) ≡ input_count i
unfolding candidates
length-input_addresses alignment i = by_mask i.mask
  where
    by_mask :
        (mask : Option Bytes)
        → length (candidate_addresses alignment i.base mask i.slots 0) ≡ candidates mask i.slots
    by_mask none = length-candidate_addresses_all alignment i.base i.slots 0
    by_mask (some mask) = length-candidate_addresses alignment i.base mask i.slots 0
