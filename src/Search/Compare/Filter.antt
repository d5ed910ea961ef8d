-- ===== src/Search/Compare/Filter.antt =====
-- The filter keeps exactly the slots of the input mask whose values compare, and counts them.
use Prim.Native.Nat.{bit_and-bitwise}
use sys_agent.Prelude.{
  ℕ, zero, suc, ◌+◌, ◌*◌, ◌/◌, ◌%◌, ◌^◌, ◌≤◌, ◌<◌, ◌≡◌, ◌≢◌, refl, sym, subst, ap, ◌∙◌, arith, Bool,
  true, false, not, ◌&&◌, ◌||◌, Bytes, length, length-set, get_or, get_or-set_self, get_or-set_ne,
  replicate, ltb, leb, ◌==◌, if◌then◌else◌, bit_and, bit_or, Bool-cases, inl, inr, all_below,
  all_below_sound, ==_iff, ltb→lt,
}
use sys_agent.Search.Compare.{
  CompareMode, bit_is_set, bit_set, slot_matches, filter_from, filter_unsigned,
}

-- Every byte of a mask is below 256.
abbrev pub IsMask : Bytes → Type 0
IsMask mask = (i : ℕ) → get_or mask i 0 < 256

abbrev pub bit_test : ℕ → ℕ → Bool
bit_test byte j = not (bit_and byte (2 ^ j) == 0)

abbrev pub agrees : Bool → Bool → Bool
agrees true b = b
agrees false b = not b

pub agrees-eq : (a b : Bool) → agrees a b ≡ true → a ≡ b
agrees-eq true b h = ground arith
agrees-eq false b h = ground arith

-- Setting bit `j` of a byte sets that bit and no other, for every byte.
byte_check : ℕ → Bool
byte_check byte = all_below 8 (λ j.
    ltb (bit_or byte (2 ^ j)) 256
    && all_below 8 (λ k. agrees (bit_test (bit_or byte (2 ^ j)) k) (j == k || bit_test byte k)))

byte_table : all_below 256 byte_check ≡ true
unfolding all_below byte_check
byte_table = refl

and_parts : (a b : Bool) → (a && b) ≡ true → (a ≡ true) × (b ≡ true)
and_parts a b h = (ground arith, ground arith)

byte_bits :
    (byte j k : ℕ)
    → byte < 256
    → j < 8
    → k < 8
    → (bit_or byte (2 ^ j) < 256) × (bit_test (bit_or byte (2 ^ j)) k ≡ (j == k || bit_test byte k))
unfolding byte_check
byte_bits byte j k hb hj hk =
    let row = all_below_sound 256 byte_check byte byte_table hb in
    let cell =
      all_below_sound 8
        (λ j.
          ltb (bit_or byte (2 ^ j)) 256
          && all_below 8
              (λ k. agrees (bit_test (bit_or byte (2 ^ j)) k) (j == k || bit_test byte k)))
        j row hj in
    let parts = and_parts (ltb (bit_or byte (2 ^ j)) 256) _ cell in
    (ltb→lt _ _ parts.0, agrees-eq _ _ (all_below_sound 8 _ k parts.1 hk))

same_slot : (s t : ℕ) → s / 8 ≡ t / 8 → (s % 8 == t % 8) ≡ (s == t)
same_slot s t h = ground arith

other_slot : (s t : ℕ) → s / 8 ≢ t / 8 → (s == t) ≡ false
other_slot s t h = ground arith

pub bit_is_set-bit_set :
    (mask : Bytes) (s t : ℕ)
    → IsMask mask
    → s / 8 < length mask
    → bit_is_set (bit_set mask s) t ≡ (s == t || bit_is_set mask t)
unfolding bit_is_set bit_set
bit_is_set-bit_set mask s t h lt = elim (Bool-cases (s / 8 == t / 8)) [
  | inl e ↦
      let eq : s / 8 ≡ t / 8 = (==_iff _ _).0 e in
      rw
        (
          ← eq,
          get_or-set_self mask (s / 8) (bit_or (get_or mask (s / 8) 0) (2 ^ (s % 8))) 0 lt,
          ← same_slot s t eq,
        )
        (byte_bits (get_or mask (s / 8) 0) (s % 8) (t % 8) (h (s / 8)) (omega arith)
          (omega arith)).1
  | inr e ↦
      let ne : s / 8 ≢ t / 8 = λ eq. cc ((==_iff (s / 8) (t / 8)).1 eq) in
      rw (
        get_or-set_ne mask (s / 8) (t / 8) (bit_or (get_or mask (s / 8) 0) (2 ^ (s % 8))) 0 ne,
        other_slot s t ne,
      )
]

pub bit_set-IsMask :
    (mask : Bytes) (s : ℕ) → IsMask mask → s / 8 < length mask → IsMask (bit_set mask s)
unfolding bit_set
bit_set-IsMask mask s h lt i = elim (Bool-cases (s / 8 == i)) [
  | inl e ↦
      rw
        (
          ← (==_iff (s / 8) i).0 e,
          get_or-set_self mask (s / 8) (bit_or (get_or mask (s / 8) 0) (2 ^ (s % 8))) 0 lt,
        )
        (byte_bits (get_or mask (s / 8) 0) (s % 8) 0 (h (s / 8)) (omega arith) (omega arith)).0
  | inr e ↦
      rw
        (get_or-set_ne mask (s / 8) i (bit_or (get_or mask (s / 8) 0) (2 ^ (s % 8))) 0
          (λ eq. cc ((==_iff (s / 8) i).1 eq)))
        (h i)
]

pub length-bit_set : (mask : Bytes) (s : ℕ) → length (bit_set mask s) ≡ length mask
unfolding bit_set
length-bit_set mask s = length-set mask (s / 8) _

-- How many of the `n` slots from `slot` on satisfy a test.
abbrev pub count_slots : (ℕ → Bool) → ℕ → ℕ → ℕ
count_slots p zero slot = 0
count_slots p (suc n) slot = (if p slot then 1 else 0) + count_slots p n (slot + 1)

-- What the loop has made of an output mask.
record Filtered (p : ℕ → Bool) (n slot : ℕ) (before : Bytes) (matches : ℕ) (after : Bytes × ℕ)
    : Type 0 where
  bits :
      (t : ℕ)
      → bit_is_set after.0 t ≡ (leb slot t && ltb t (slot + n) && p t || bit_is_set before t)
  counted : after.1 ≡ matches + count_slots p n slot
  same_length : length after.0 ≡ length before

-- A range of slots without its first.
pub range_skip :
    (p : ℕ → Bool) (n slot t : ℕ) (b : Bool)
    → p slot ≡ false
    → (leb (slot + 1) t && ltb t (slot + 1 + n) && p t || b)
      ≡ (leb slot t && ltb t (slot + suc n) && p t || b)
range_skip p n slot t b h = elim (Bool-cases (slot == t)) [
  | inl e ↦ let eq : slot ≡ t = ground arith in let off : p t ≡ false = rw eq at h in ground arith
  | inr e ↦ ground arith
]

pub range_take :
    (p : ℕ → Bool) (n slot t : ℕ) (b : Bool)
    → p slot ≡ true
    → (leb (slot + 1) t && ltb t (slot + 1 + n) && p t || (slot == t || b))
      ≡ (leb slot t && ltb t (slot + suc n) && p t || b)
range_take p n slot t b h = elim (Bool-cases (slot == t)) [
  | inl e ↦ let eq : slot ≡ t = ground arith in let on : p t ≡ true = rw eq at h in ground arith
  | inr e ↦ ground arith
]

module _ (mode : CompareMode) (previous current input_mask : Bytes) (width exact_value : ℕ) where
  abbrev kept : ℕ → Bool
  kept = slot_matches mode previous current input_mask width exact_value

  abbrev run : ℕ → ℕ → Bytes → ℕ → Bytes × ℕ
  run = filter_from mode previous current input_mask width exact_value

  step_skip :
      (n slot : ℕ) (output : Bytes) (matches : ℕ)
      → kept slot ≡ false
      → run (suc n) slot output matches ≡ run n (slot + 1) output matches
  unfolding filter_from
  step_skip n slot output matches e = ground arith

  step_take :
      (n slot : ℕ) (output : Bytes) (matches : ℕ)
      → kept slot ≡ true
      → run (suc n) slot output matches ≡ run n (slot + 1) (bit_set output slot) (matches + 1)
  unfolding filter_from
  step_take n slot output matches e = ground arith

  filter_from-Filtered :
      (n slot : ℕ) (output : Bytes) (matches : ℕ)
      → IsMask output
      → slot + n ≤ length output * 8
      → Filtered kept n slot output matches (run n slot output matches)
  unfolding filter_from
  filter_from-Filtered zero slot output matches h room = record {
    bits = λ t. ground arith;
    counted = omega arith;
    same_length = refl;
  }
  filter_from-Filtered (suc n) slot output matches h room = elim (Bool-cases (kept slot)) [
    | inr e ↦
        let r = filter_from-Filtered n (slot + 1) output matches h (omega arith) in
        subst (Filtered kept (suc n) slot output matches) (sym (step_skip n slot output matches e))
          (record {
            bits = λ t. r.bits t ∙ range_skip kept n slot t (bit_is_set output t) e;
            counted = r.counted ∙ rw e (omega arith);
            same_length = r.same_length;
          })
    | inl e ↦
        let r =
          filter_from-Filtered n (slot + 1) (bit_set output slot) (matches + 1)
            (bit_set-IsMask output slot h (omega arith))
            (omega (arith, length-bit_set output slot)) in
        subst (Filtered kept (suc n) slot output matches) (sym (step_take n slot output matches e))
          (record {
            bits = λ t.
                r.bits t
                ∙ ap (λ b. leb (slot + 1) t && ltb t (slot + 1 + n) && kept t || b)
                    (bit_is_set-bit_set output slot t h (omega arith))
                ∙ range_take kept n slot t (bit_is_set output t) e;
            counted = r.counted ∙ rw e (omega arith);
            same_length = r.same_length ∙ length-bit_set output slot;
          })
  ]

pub get_or-zeros : (n i : ℕ) → get_or {A = ℕ} (replicate n 0) i 0 ≡ 0
get_or-zeros zero i = refl
get_or-zeros (suc n) zero = refl
get_or-zeros (suc n) (suc i) = get_or-zeros n i

pub length-zeros : (n : ℕ) → length {A = ℕ} (replicate n 0) ≡ n
length-zeros zero = refl
length-zeros (suc n) = ap suc (length-zeros n)

zero_bits : (j : ℕ) → bit_test 0 j ≡ false
zero_bits j = let e : bit_and 0 (2 ^ j) ≡ 0 = bit_and-bitwise 0 (2 ^ j) in rw e

pub zeros-bit : (n t : ℕ) → bit_is_set (replicate n 0) t ≡ false
unfolding bit_is_set
zeros-bit n t = rw (get_or-zeros n (t / 8)) (zero_bits (t % 8))

whole_range :
    (p : Bool) (t n : ℕ) (b : Bool)
    → b ≡ false
    → (leb 0 t && ltb t (0 + n) && p || b) ≡ (ltb t n && p)
whole_range p t n b h = ground arith

-- The output mask has a byte for each eight slots and holds exactly the slots below the count
-- that are in the input mask and whose previous and current values compare, and the result is the
-- number of those slots.
pub filter_unsigned-Filtered :
    (mode : CompareMode) (previous current input_mask : Bytes) (width exact_value slot_count : ℕ)
    → let p = slot_matches mode previous current input_mask width exact_value in
      let (output, matches) =
        filter_unsigned mode previous current input_mask width exact_value slot_count in
      ((t : ℕ) → bit_is_set output t ≡ (ltb t slot_count && p t))
      × (matches ≡ count_slots p slot_count 0)
      × (length output ≡ (slot_count + 7) / 8)
unfolding filter_unsigned
filter_unsigned-Filtered mode previous current input_mask width exact_value slot_count =
    let r =
      filter_from-Filtered mode previous current input_mask width exact_value slot_count 0
        (replicate ((slot_count + 7) / 8) 0) 0
        (λ i. rw (get_or-zeros ((slot_count + 7) / 8) i) (omega arith))
        (omega (arith, length-zeros ((slot_count + 7) / 8))) in
    (
      λ t. r.bits t ∙ whole_range _ t slot_count _ (zeros-bit ((slot_count + 7) / 8) t),
      omega (arith, r.counted),
      r.same_length ∙ length-zeros ((slot_count + 7) / 8),
    )
