-- ===== src/Store/Payload/Size.antt =====
-- The sizes of payloads: what is written is as long as the header of the block says, and small enough to be read.
use native.Mathlib.Nat.{mul-le-mul_left}
use sys_agent.Prelude.{
  ℕ, ◌+◌, ◌*◌, ◌≤◌, ◌<◌, ◌≡◌, ap₂, ◌∙◌, arith, Option, none, some, Bytes, length, length-append,
  length-take, ltb, ◌==◌, ==_refl, Bool-cases, inl, inr, take,
}
use sys_agent.Store.Payload.{
  mask_size, count_set, candidates, representation_of, payload_size_of, payload,
}
use sys_agent.Store.Payload.RoundTrip.{IsMaskFor, count_set-le, length-pack_sparse}

pub candidates-le : (mask : Option Bytes) (slots : ℕ) → candidates mask slots ≤ slots
unfolding candidates
candidates-le none slots = omega arith
candidates-le (some mask) slots = count_set-le mask slots 0

length-take_fits : (n : ℕ) (xs : Bytes) → n ≡ length xs → length (take n xs) ≡ n
length-take_fits n xs e = omega (arith, length-take n xs, e)

pub length-payload :
    (mask : Option Bytes) (values : Bytes) (width slots : ℕ)
    → IsMaskFor slots mask
    → length values ≡ slots * width
    → length
        (payload mask values width slots (representation_of width slots (candidates mask slots)))
      ≡ payload_size_of width slots (candidates mask slots)
unfolding payload payload_size_of representation_of candidates
length-payload none values width slots masked whole =
    rw (==_refl slots) (length-take_fits (slots * width) values (omega (arith, whole)))
length-payload (some mask) values width slots masked whole =
    elim (Bool-cases (count_set mask slots 0 == slots)) [
      | inl full ↦ rw full (length-take_fits (slots * width) values (omega (arith, whole)))
      | inr partial ↦
          rw partial
            (elim (Bool-cases
              (ltb (count_set mask slots 0 * (4 + width)) (mask_size slots + slots * width))) [
                | inl small ↦
                    rw small
                      (length-pack_sparse mask values width slots slots 0 whole (omega arith))
                | inr large ↦ rw large (
                    length-append (take (mask_size slots) mask) (take (slots * width) values)
                    ∙ ap₂ (λ a b. a + b)
                        (length-take_fits (mask_size slots) mask (omega (arith, masked.0)))
                        (length-take_fits (slots * width) values (omega (arith, whole))))
              ])
    ]

-- Blocks of at most 256 KiB of values have payloads that the reader takes, with a byte for each candidate.
pub payload_size_of_bounds :
    (width slots count : ℕ)
    → 0 < width
    → slots * width ≤ 0x40000
    → 0 < count
    → count ≤ slots
    → (count ≤ payload_size_of width slots count) × (payload_size_of width slots count ≤ 0x50000)
unfolding payload_size_of representation_of
payload_size_of_bounds width slots count wide small some_count few =
    let each : slots * 1 ≤ slots * width = mul-le-mul_left slots wide in
    let more : count * 1 ≤ count * (4 + width) = mul-le-mul_left count (omega arith) in
    ground (arith, each, more)
