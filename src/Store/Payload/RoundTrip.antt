-- ===== src/Store/Payload/RoundTrip.antt =====
-- Whatever representation is chosen for a block, its candidates and their values are read back.
use native.Mathlib.Nat.{mul-le-mul_right}
use sys_agent.Prelude.{
  ℕ, zero, suc, ◌+◌, ◌-◌, ◌*◌, ◌/◌, ◌%◌, ◌^◌, ◌≤◌, ◌<◌, ◌≡◌, refl, sym, ap, ap₂, ◌∙◌, arith, Bool,
  true, not, ◌&&◌, ◌||◌, Option, none, some, [], ◌∷◌, ◌++◌, Bytes, length, length-append,
  length-take, length-drop, length-replicate, take, take_left, drop, drop_left, get_or,
  get_or-set_self, get_or-set_ne, replicate, ltb, leb, ◌==◌, ==_iff, ==_refl, bit_and, Bool-cases,
  inl, inr, all_below, all_below_sound,
}
use sys_agent.Search.Compare.{bit_is_set}
use sys_agent.Search.Compare.Filter.{IsMask, get_or-zeros, zeros-bit}
use sys_agent.Store.Layout.{le_bytes, length-le_bytes}
use sys_agent.Store.Payload.{
  store_all, store_bitmap, store_sparse, mask_size, count_set, candidates, representation_of,
  pack_sparse, payload, full_mask, unpack,
}
use sys_agent.Store.Payload.Sparse.{unpack_sparse-pack_sparse}

-- Whether a slot is a candidate.
abbrev pub is_candidate : Option Bytes → ℕ → Bool
is_candidate none slot = true
is_candidate (some mask) slot = bit_is_set mask slot

-- A mask for a number of slots.
abbrev pub IsMaskFor : ℕ → Option Bytes → Type 0
IsMaskFor slots none = Unit
IsMaskFor slots (some mask) = (length mask ≡ mask_size slots) × IsMask mask

-- The values and the mask hold the candidates of a block, with their values.
pub record Holds (mask : Option Bytes) (values : Bytes) (width slots : ℕ) (after : Bytes × Bytes)
    : Type 0 where
  pub size : length after.0 ≡ slots * width
  pub set_bits : (t : ℕ) → t < slots → bit_is_set after.1 t ≡ is_candidate mask t
  pub bytes :
      (t k : ℕ)
      → t < slots
      → k < width
      → is_candidate mask t ≡ true
      → get_or after.0 (t * width + k) 0 ≡ get_or values (t * width + k) 0

get_or-replicate : (n i v d : ℕ) → i < n → get_or (replicate n v) i d ≡ v
get_or-replicate zero i v d lt = absurd (omega arith)
get_or-replicate (suc n) zero v d lt = refl
get_or-replicate (suc n) (suc i) v d lt = get_or-replicate n i v d (omega arith)

-- The bits of a byte that is full up to a bit.
low_bits : ℕ → Bool
low_bits r =
    all_below 8 (λ j. not (ltb j r) || not (bit_and (bit_and 0xFF (2 ^ r - 1)) (2 ^ j) == 0))

low_bits_table : all_below 9 low_bits ≡ true
unfolding all_below low_bits
low_bits_table = refl

low_bit :
    (r j : ℕ) → r < 9 → j < 8 → j < r → not (bit_and (bit_and 0xFF (2 ^ r - 1)) (2 ^ j) == 0) ≡ true
unfolding low_bits
low_bit r j small bit lt =
    let row = all_below_sound 9 low_bits r low_bits_table small in
    let cell = all_below_sound 8 _ j row bit in ground (arith, cell, lt)

full_byte : (j : ℕ) → j < 8 → not (bit_and 0xFF (2 ^ j) == 0) ≡ true
full_byte j bit = low_bit 8 j (omega arith) bit bit

-- Bytes with all bits set.
abbrev ones : ℕ → Bytes
ones n = replicate n 0xFF

full_mask-set_bits : (slots t : ℕ) → t < slots → bit_is_set (full_mask slots) t ≡ true
unfolding full_mask bit_is_set
full_mask-set_bits slots t lt = elim (Bool-cases (slots % 8 == 0)) [
  | inl e ↦ rw (e, whole) (full_byte (t % 8) (omega arith))
  | inr e ↦ rw e (elim (Bool-cases (mask_size slots - 1 == t / 8)) [
    | inl f ↦
        let at_last : mask_size slots - 1 ≡ t / 8 = ground (arith, f) in
        let filled : get_or (ones (mask_size slots)) (t / 8) 0 ≡ 0xFF = whole in
        rw
          (
            at_last,
            get_or-set_self (ones (mask_size slots)) (t / 8)
                (bit_and (get_or (ones (mask_size slots)) (t / 8) 0) (2 ^ (slots % 8) - 1)) 0
                (omega (arith, length-replicate {A = ℕ} (mask_size slots) 0xFF)),
            filled,
          )
          (low_bit (slots % 8) (t % 8) (omega arith) (omega arith) (ground (arith, at_last, e)))
    | inr f ↦
        rw
          (
            get_or-set_ne (ones (mask_size slots)) (mask_size slots - 1) (t / 8) _ 0
                (ground (arith, f)),
            whole,
          )
          (full_byte (t % 8) (omega arith))
  ])
]
  where
    whole : get_or (ones (mask_size slots)) (t / 8) 0 ≡ 0xFF
    whole = get_or-replicate (mask_size slots) (t / 8) 0xFF 0 (omega arith)

pub count_set-le : (mask : Bytes) (n slot : ℕ) → count_set mask n slot ≤ n
unfolding count_set
count_set-le mask zero slot = omega arith
count_set-le mask (suc n) slot = ground (arith, count_set-le mask n (slot + 1))

-- If all are set, each is.
pub count_set-all :
    (mask : Bytes) (n slot t : ℕ)
    → count_set mask n slot ≡ n
    → slot ≤ t
    → t < slot + n
    → bit_is_set mask t ≡ true
unfolding count_set
count_set-all mask zero slot t e le lt = absurd (omega arith)
count_set-all mask (suc n) slot t e le lt = elim (Bool-cases (slot == t)) [
  | inl same ↦ rw (← (==_iff slot t).0 same) (ground (arith, e, count_set-le mask n (slot + 1)))
  | inr other ↦
      count_set-all mask n (slot + 1) t (ground (arith, e, count_set-le mask n (slot + 1)))
        (ground (arith, other)) (omega arith)
]

-- The length of a sparse payload.
pub length-pack_sparse :
    (mask values : Bytes) (width slots n slot : ℕ)
    → length values ≡ slots * width
    → slot + n ≤ slots
    → length (pack_sparse mask values width n slot) ≡ count_set mask n slot * (4 + width)
unfolding pack_sparse count_set
length-pack_sparse mask values width slots zero slot whole fits = omega arith
length-pack_sparse mask values width slots (suc n) slot whole fits =
    let rest =
      length-pack_sparse mask values width slots n (slot + 1) whole (omega (arith, fits)) in
    elim (Bool-cases (bit_is_set mask slot)) [
      | inl on ↦ rw on (
          length-append (le_bytes 4 slot) _
          ∙ ap (λ m. length (le_bytes 4 slot) + m)
              (length-append (take width (drop (slot * width) values))
                (pack_sparse mask values width n (slot + 1)))
          ∙ sum (count_set mask n (slot + 1)) (length-le_bytes 4 slot) length-value rest)
      | inr off ↦ rw off (omega (arith, rest))
    ]
  where
    suc_times : (b m : ℕ) → suc b * m ≡ b * m + m
    suc_times b m = omega arith

    length-value : length (take width (drop (slot * width) values)) ≡ width
    length-value = omega (
      arith,
      whole,
      length-take width (drop (slot * width) values),
      length-drop (slot * width) values,
      mul-le-mul_right width (first fits),
      suc_times slot width,
    )
      where
        first : slot + suc n ≤ slots → suc slot ≤ slots
        first le = omega arith

    sum :
        (c : ℕ) {a b d : ℕ}
        → a ≡ 4
        → b ≡ width
        → d ≡ c * (4 + width)
        → a + (b + d) ≡ (1 + c) * (4 + width)
    sum c e f g = omega (arith, suc_times c (4 + width))

module _ (values : Bytes) (width slots : ℕ) (whole : length values ≡ slots * width) where
  -- What reading a block's payload gives.
  abbrev pub Reads : Option Bytes → ℕ → Type 0
  Reads mask representation =
      (after : Bytes × Bytes) × (unpack representation width slots (candidates mask slots)
          (payload mask values width slots representation)
        ≡ some after)
      × Holds mask values width slots after

  take_whole : take (slots * width) values ≡ values
  take_whole = rw (← whole) (take_all values)
    where
      take_all : (xs : Bytes) → take (length xs) xs ≡ xs
      take_all [] = refl
      take_all (x ∷ xs) = ap (◌∷◌ x) (take_all xs)

  Reads-all :
      (mask : Option Bytes)
      → ((t : ℕ) → t < slots → is_candidate mask t ≡ true)
      → Reads mask store_all
  unfolding unpack payload
  Reads-all none each = (
    (values, full_mask slots),
    rw (take_whole, whole, ==_refl (slots * width)) refl,
    record { size = whole; set_bits = full_mask-set_bits slots; bytes = λ t k lt within on. refl },
  )
  Reads-all (some mask) each = (
    (values, full_mask slots),
    rw (take_whole, whole, ==_refl (slots * width)) refl,
    record {
      size = whole;
      set_bits = λ t lt. full_mask-set_bits slots t lt ∙ sym (each t lt);
      bytes = λ t k lt within on. refl;
    },
  )

  Reads-bitmap : (mask : Bytes) → length mask ≡ mask_size slots → Reads (some mask) store_bitmap
  unfolding unpack payload
  Reads-bitmap mask sized = (
    (values, mask),
    rw (take_whole, take_mask, both, ==_refl (mask_size slots + slots * width))
        (ap₂ (λ a b. some (a, b)) (drop_left (mask_size slots) mask values (sym sized))
          (take_left (mask_size slots) mask values (sym sized))),
    record { size = whole; set_bits = λ t lt. refl; bytes = λ t k lt within on. refl },
  )
    where
      take_mask : take (mask_size slots) mask ≡ mask
      take_mask = rw (← sized) (take_all mask)
        where
          take_all : (xs : Bytes) → take (length xs) xs ≡ xs
          take_all [] = refl
          take_all (x ∷ xs) = ap (◌∷◌ x) (take_all xs)

      both : length (mask ++ values) ≡ mask_size slots + slots * width
      both = length-append mask values ∙ ap₂ (λ a b. a + b) sized whole

  Reads-sparse : (mask : Bytes) → slots ≤ 256 ^ 4 → Reads (some mask) store_sparse
  unfolding unpack payload candidates
  Reads-sparse mask few =
      let r =
        unpack_sparse-pack_sparse mask values width slots whole few slots 0 none
          (replicate (slots * width) 0, replicate (mask_size slots) 0) (omega arith) refl
          (λ t e. refl) (length-replicate {A = ℕ} (slots * width) 0)
          (length-replicate {A = ℕ} (mask_size slots) 0) (zeros-IsMask (mask_size slots)) in
      (
        r.0,
        rw
            (
              length-pack_sparse mask values width slots slots 0 whole (omega arith),
              ==_refl (count_set mask slots 0 * (4 + width)),
            )
            r.1,
        record {
          size = r.2.value_size ∙ length-replicate {A = ℕ} (slots * width) 0;
          set_bits = λ t lt. r.2.bits t ∙ rw (zeros-bit (mask_size slots) t) (ground (arith, lt));
          bytes = λ t k lt within on. r.2.bytes t k within ∙ rw (in_range t lt, on) refl;
        },
      )
    where
      zeros-IsMask : (n : ℕ) → IsMask (replicate n 0)
      zeros-IsMask n i = rw (get_or-zeros n i) (omega arith)

      in_range : (t : ℕ) → t < slots → (leb 0 t && ltb t (0 + slots)) ≡ true
      in_range t lt = ground (arith, lt)

  -- The representation that is written for a block with a candidate is read back: its values and its mask hold the
  -- block's candidates.
  pub unpack-payload :
      (mask : Option Bytes)
      → IsMaskFor slots mask
      → slots ≤ 256 ^ 4
      → Reads mask (representation_of width slots (candidates mask slots))
  unfolding representation_of candidates
  unpack-payload none is_mask few = rw (==_refl slots) (Reads-all none (λ t lt. refl))
  unpack-payload (some mask) is_mask few = elim (Bool-cases (count_set mask slots 0 == slots)) [
    | inl full ↦ rw full (
        Reads-all (some mask) (λ t lt.
          count_set-all mask slots 0 t ((==_iff _ _).0 full) (omega arith) (omega (arith, lt))))
    | inr partial ↦
        rw partial
          (elim (Bool-cases
            (ltb (count_set mask slots 0 * (4 + width)) (mask_size slots + slots * width))) [
              | inl small ↦ rw small (Reads-sparse mask few)
              | inr large ↦ rw large (Reads-bitmap mask is_mask.0)
            ])
  ]
