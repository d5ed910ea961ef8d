-- ===== src/Store/Payload/Sparse.antt =====
-- The candidates that are packed sparsely are unpacked as they were.
use native.Mathlib.Nat.{mul-le-mul_right}
use sys_agent.Prelude.{
  ℕ, zero, suc, ◌+◌, ◌*◌, ◌^◌, ◌≤◌, ◌<◌, ◌≡◌, ◌≢◌, ◌⊎◌, refl, sym, ap, ◌∙◌, arith, Bool, true,
  false, ◌&&◌, ◌||◌, Option, some, [], ◌∷◌, ◌++◌, append_assoc, Bytes, length, length-append,
  length-set, length-take, length-drop, take, take_left, drop, drop_left, set, get_or,
  get_or-set_self, get_or-set_ne, ltb, leb, ◌==◌, if◌then◌else◌, Bool-cases, inl, inr,
}
use sys_agent.Search.Compare.{bit_is_set, bit_set}
use sys_agent.Search.Compare.Filter.{
  IsMask, bit_is_set-bit_set, bit_set-IsMask, length-bit_set, range_take,
}
use sys_agent.Store.Layout.{le_bytes, le_value, length-le_bytes, le_value-le_bytes}
use sys_agent.Store.Payload.{
  count_set, pack_sparse, write_bytes, not_behind, unpack_sparse, mask_size,
}

pub length-write_bytes :
    (xs : Bytes) (i : ℕ) (bytes : Bytes) → length (write_bytes xs i bytes) ≡ length xs
unfolding write_bytes
length-write_bytes xs i [] = refl
length-write_bytes xs i (b ∷ bytes) =
    length-write_bytes (set xs i b) (i + 1) bytes ∙ length-set xs i b

-- What was written is found at its place, and the other bytes are as they were.
pub get_or-write_bytes_out :
    (xs bytes : Bytes) (i j : ℕ)
    → (j < i) ⊎ (i + length bytes ≤ j)
    → get_or (write_bytes xs i bytes) j 0 ≡ get_or xs j 0
unfolding write_bytes
get_or-write_bytes_out xs [] i j out = refl
get_or-write_bytes_out xs (b ∷ bytes) i j out =
    get_or-write_bytes_out (set xs i b) bytes (i + 1) j
      (elim out [ inl lt ↦ inl (omega (arith, lt)) | inr le ↦ inr (omega (arith, le)) ])
    ∙ get_or-set_ne xs i j b 0 (ground arith)

pub get_or-write_bytes_in :
    (xs bytes : Bytes) (i k : ℕ)
    → k < length bytes
    → i + length bytes ≤ length xs
    → get_or (write_bytes xs i bytes) (i + k) 0 ≡ get_or bytes k 0
unfolding write_bytes
get_or-write_bytes_in xs [] i k lt fits = absurd (omega arith)
get_or-write_bytes_in xs (b ∷ bytes) i zero lt fits =
    let start : i + 0 ≡ i = omega arith in
    rw start (
      get_or-write_bytes_out (set xs i b) bytes (i + 1) i (inl (omega arith))
      ∙ get_or-set_self xs i b 0 (omega arith))
get_or-write_bytes_in xs (b ∷ bytes) i (suc k) lt fits =
    let next : i + suc k ≡ i + 1 + k = omega arith in
    rw next (
      get_or-write_bytes_in (set xs i b) bytes (i + 1) k (omega arith)
        (omega (arith, length-set xs i b)))

-- The bytes of another slot lie outside a slot.
other_bytes :
    (s t k width : ℕ)
    → s ≢ t
    → k < width
    → (t * width + k < s * width) ⊎ (s * width + width ≤ t * width + k)
other_bytes s t k width ne lt = elim (Bool-cases (ltb t s)) [
  | inl e ↦
      let below : suc t ≤ s = ground (arith, e) in
      inl (omega (arith, mul-le-mul_right width below, suc_times t width))
  | inr e ↦
      let above : suc s ≤ t = ground (arith, e) in
      inr (omega (arith, mul-le-mul_right width above, suc_times s width))
]
  where
    suc_times : (b n : ℕ) → suc b * n ≡ b * n + n
    suc_times b n = omega arith

-- Among n slots from a slot on, and set in the mask.
abbrev pub chosen : Bytes → ℕ → ℕ → ℕ → Bool
chosen mask n slot t = leb slot t && ltb t (slot + n) && bit_is_set mask t

-- What unpacking makes of an array of values and a mask: the chosen slots are set, and have their values.
pub record Unpacked (mask values : Bytes) (width slots n slot : ℕ) (before after : Bytes × Bytes)
    : Type 0 where
  pub bits : (t : ℕ) → bit_is_set after.1 t ≡ (chosen mask n slot t || bit_is_set before.1 t)
  pub bytes :
      (t k : ℕ)
      → k < width
      → get_or after.0 (t * width + k) 0 ≡ (
          if chosen mask n slot t
          then get_or values (t * width + k) 0
          else get_or before.0 (t * width + k) 0)
  pub value_size : length after.0 ≡ length before.0
  pub mask_length : length after.1 ≡ length before.1

chosen_skip :
    (mask : Bytes) (n slot t : ℕ)
    → bit_is_set mask slot ≡ false
    → chosen mask n (slot + 1) t ≡ chosen mask (suc n) slot t
chosen_skip mask n slot t off = elim (Bool-cases (slot == t)) [
  | inl e ↦
      let eq : slot ≡ t = ground arith in
      let unset : bit_is_set mask t ≡ false = rw eq at off in ground arith
  | inr e ↦ ground arith
]

chosen_other :
    (mask : Bytes) (n slot t : ℕ)
    → (slot == t) ≡ false
    → chosen mask n (slot + 1) t ≡ chosen mask (suc n) slot t
chosen_other mask n slot t e = ground arith

chosen_self :
    (mask : Bytes) (n slot : ℕ)
    → bit_is_set mask slot ≡ true
    → (chosen mask n (slot + 1) slot ≡ false) × (chosen mask (suc n) slot slot ≡ true)
chosen_self mask n slot on = (ground arith, ground arith)

-- A value behind a number of four bytes, in front of others.
pub behind_value :
    (slot width : ℕ) (chunk rest : Bytes)
    → length chunk ≡ width
    → (drop (4 + width) (le_bytes 4 slot ++ (chunk ++ rest)) ≡ rest)
      × (take width (drop 4 (le_bytes 4 slot ++ (chunk ++ rest))) ≡ chunk)
behind_value slot width chunk rest e = (
  ap (drop (4 + width)) (sym (append_assoc (le_bytes 4 slot) chunk rest))
      ∙ drop_left (4 + width) (le_bytes 4 slot ++ chunk) rest
          (omega (arith, length-append (le_bytes 4 slot) chunk, length-le_bytes 4 slot, e)),
  ap (take width) (drop_left 4 (le_bytes 4 slot) (chunk ++ rest) (sym (length-le_bytes 4 slot)))
      ∙ take_left width chunk rest (sym e),
)

-- The chunk of a slot is its value.
get_or-take : (n k : ℕ) (xs : Bytes) → k < n → get_or (take n xs) k 0 ≡ get_or xs k 0
get_or-take zero k xs lt = absurd (omega arith)
get_or-take (suc n) k [] lt = refl
get_or-take (suc n) zero (x ∷ xs) lt = refl
get_or-take (suc n) (suc k) (x ∷ xs) lt = get_or-take n k xs (omega arith)

get_or-drop : (n k : ℕ) (xs : Bytes) → get_or (drop n xs) k 0 ≡ get_or xs (n + k) 0
get_or-drop zero k xs = ap (λ i. get_or xs i 0) (omega arith)
get_or-drop (suc n) k [] = refl
get_or-drop (suc n) k (x ∷ xs) =
    let next : suc n + k ≡ suc (n + k) = omega arith in rw next (get_or-drop n k xs)

module _ (mask values : Bytes) (width slots : ℕ) (whole : length values ≡ slots * width)
    (few : slots ≤ 256 ^ 4) where
  -- The value of a slot, as a chunk of the values.
  abbrev pub chunk : ℕ → Bytes
  chunk slot = take width (drop (slot * width) values)

  pub length-chunk : (slot : ℕ) → slot < slots → length (chunk slot) ≡ width
  length-chunk slot lt = omega (
    arith,
    whole,
    length-take width (drop (slot * width) values),
    length-drop (slot * width) values,
    mul-le-mul_right width lt,
    suc_times slot width,
  )
    where
      suc_times : (b n : ℕ) → suc b * n ≡ b * n + n
      suc_times b n = omega arith

  -- One candidate more in front of what is unpacked.
  Unpacked-step :
      (n slot : ℕ) (before after : Bytes × Bytes)
      → slot < slots
      → length before.0 ≡ slots * width
      → length before.1 ≡ mask_size slots
      → IsMask before.1
      → bit_is_set mask slot ≡ true
      → Unpacked mask values width slots n
          (slot + 1)
          (write_bytes before.0 (slot * width) (chunk slot), bit_set before.1 slot)
          after
      → Unpacked mask values width slots (suc n) slot before after
  Unpacked-step n slot before after lt sized masked is_mask on r = record {
    bits = λ t.
        r.bits t
        ∙ ap (λ b. chosen mask n (slot + 1) t || b)
            (bit_is_set-bit_set before.1 slot t is_mask (omega arith))
        ∙ range_take (bit_is_set mask) n slot t (bit_is_set before.1 t) on;
    bytes = λ t k within. elim (Bool-cases (slot == t)) [
      | inl e ↦ here t k within (ground (arith, e))
      | inr e ↦ there t k within e
    ];
    value_size = r.value_size ∙ length-write_bytes before.0 (slot * width) (chunk slot);
    mask_length = r.mask_length ∙ length-bit_set before.1 slot;
  }
    where
      suc_times : (b n : ℕ) → suc b * n ≡ b * n + n
      suc_times b n = omega arith

      room : slot * width + length (chunk slot) ≤ length before.0
      room =
          omega
            (arith, length-chunk slot lt, sized, mul-le-mul_right width lt, suc_times slot width)

      at_slot :
          (k : ℕ)
          → k < width
          → get_or after.0 (slot * width + k) 0 ≡ (
              if chosen mask (suc n) slot slot
              then get_or values (slot * width + k) 0
              else get_or before.0 (slot * width + k) 0)
      at_slot k within =
          let self = chosen_self mask n slot on in
          let from_rest = r.bytes slot k within in
          rw self.1 (
            rw self.0 at from_rest
            ∙ get_or-write_bytes_in before.0 (chunk slot) (slot * width) k
                (omega (arith, length-chunk slot lt, within)) room
            ∙ get_or-take width k (drop (slot * width) values) within
            ∙ get_or-drop (slot * width) k values)

      here :
          (t k : ℕ)
          → k < width
          → slot ≡ t
          → get_or after.0 (t * width + k) 0 ≡ (
              if chosen mask (suc n) slot t
              then get_or values (t * width + k) 0
              else get_or before.0 (t * width + k) 0)
      here t k within e = rw (← e) (at_slot k within)

      there :
          (t k : ℕ)
          → k < width
          → (slot == t) ≡ false
          → get_or after.0 (t * width + k) 0 ≡ (
              if chosen mask (suc n) slot t
              then get_or values (t * width + k) 0
              else get_or before.0 (t * width + k) 0)
      there t k within e =
          let out : (t * width + k < slot * width)
              ⊎ (slot * width + length (chunk slot) ≤ t * width + k) =
            rw (length-chunk slot lt) (other_bytes slot t k width (ground (arith, e)) within) in
          let same =
            get_or-write_bytes_out before.0 (chunk slot) (slot * width) (t * width + k) out in
          let from_rest = r.bytes t k within in
          rw (← chosen_other mask n slot t e) (rw same at from_rest)

  -- Behind a slot that is not chosen.
  Unpacked-skip :
      (n slot : ℕ) (before after : Bytes × Bytes)
      → bit_is_set mask slot ≡ false
      → Unpacked mask values width slots n (slot + 1) before after
      → Unpacked mask values width slots (suc n) slot before after
  Unpacked-skip n slot before after off r = record {
    bits = λ t. r.bits t ∙ ap (λ c. c || bit_is_set before.1 t) (chosen_skip mask n slot t off);
    bytes = λ t k within. rw (← chosen_skip mask n slot t off) (r.bytes t k within);
    value_size = r.value_size;
    mask_length = r.mask_length;
  }

  -- One round of unpacking, by what its bytes hold.
  unpack_one :
      (n slot : ℕ) (previous : Option ℕ) (bytes value rest before_values before_mask : Bytes)
      → le_value 4 bytes ≡ slot
      → drop (4 + width) bytes ≡ rest
      → take width (drop 4 bytes) ≡ value
      → leb slots slot ≡ false
      → not_behind previous slot ≡ false
      → unpack_sparse width slots (suc n) previous bytes before_values before_mask
        ≡ unpack_sparse width slots n
            (some slot)
            rest
            (write_bytes before_values (slot * width) value)
            (bit_set before_mask slot)
  unfolding unpack_sparse
  unpack_one n slot previous bytes value rest before_values before_mask e left here inside behind =
      rw (e, inside, behind, left, here) refl

  pub unpack_sparse-pack_sparse :
      (n slot : ℕ) (previous : Option ℕ) (before : Bytes × Bytes)
      → slot + n ≤ slots
      → not_behind previous slot ≡ false
      → ((t : ℕ) → not_behind previous t ≡ false → not_behind previous (t + 1) ≡ false)
      → length before.0 ≡ slots * width
      → length before.1 ≡ mask_size slots
      → IsMask before.1
      → (after : Bytes × Bytes) × (unpack_sparse width slots
            (count_set mask n slot)
            previous
            (pack_sparse mask values width n slot)
            before.0
            before.1
          ≡ some after)
        × Unpacked mask values width slots n slot before after
  unfolding unpack_sparse pack_sparse count_set
  unpack_sparse-pack_sparse zero slot previous before fits behind up sized masked is_mask = (
    before,
    refl,
    record {
      bits = λ t. ground arith;
      bytes = λ t k within. ground arith;
      value_size = refl;
      mask_length = refl;
    },
  )
  unpack_sparse-pack_sparse (suc n) slot previous before fits behind up sized masked is_mask =
      elim (Bool-cases (bit_is_set mask slot)) [
        | inl on ↦
            let one : 1 + count_set mask n (slot + 1) ≡ suc (count_set mask n (slot + 1)) =
              omega arith in
            let rest = pack_sparse mask values width n (slot + 1) in
            let value = le_value-le_bytes 4 slot (chunk slot ++ rest) (omega (arith, fits, few)) in
            let parts =
              behind_value slot width (chunk slot) rest (length-chunk slot (omega (arith, fits))) in
            let inside : leb slots slot ≡ false = ground (arith, fits) in
            let r =
              unpack_sparse-pack_sparse n (slot + 1) (some slot)
                (write_bytes before.0 (slot * width) (chunk slot), bit_set before.1 slot)
                (omega (arith, fits)) (ground arith) (λ t le. ground (arith, le))
                (length-write_bytes before.0 (slot * width) (chunk slot) ∙ sized)
                (length-bit_set before.1 slot ∙ masked)
                (bit_set-IsMask before.1 slot is_mask (omega (arith, fits, masked))) in
            (
              r.0,
              rw (on, one)
                  (unpack_one (count_set mask n (slot + 1)) slot previous _ (chunk slot) rest
                      before.0 before.1 value parts.0 parts.1 inside behind
                    ∙ r.1),
              Unpacked-step n slot before r.0 (omega (arith, fits)) sized masked is_mask on r.2,
            )
        | inr off ↦
            let nothing : 0 + count_set mask n (slot + 1) ≡ count_set mask n (slot + 1) =
              omega arith in
            let r =
              unpack_sparse-pack_sparse n (slot + 1) previous before (omega (arith, fits))
                (up slot behind) up sized masked is_mask in
            (r.0, rw (off, nothing) r.1, Unpacked-skip n slot before r.0 off r.2)
      ]
