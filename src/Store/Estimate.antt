-- ===== src/Store/Estimate.antt =====
-- `searchStoreEstimateMaximum` of sys-agent/source/search_store.c: the space that a search wants on the SD card.
use native.Mathlib.Nat.{mul-le-mul_left, mul-le-mul_right, le-div_iff_mul-le, add-mul-div_right}
use sys_agent.Prelude.{
  ℕ, ◌+◌, ◌-◌, ◌*◌, ◌/◌, ◌%◌, ◌^◌, ◌≤◌, ◌<◌, ◌≡◌, refl, ap, arith, false, ◌||◌, Option, none, some,
  ◌++◌, Bytes, List, [], ◌∷◌, All, length, length-append, length-take, min, ltb, ◌==◌,
  if◌then◌else◌,
}
use sys_agent.Prelude.Word.{add_u64, u64_mod, u64_max}
use sys_agent.Store.File.{Metadata, header_bytes, block_bytes, entry_bytes, block_fields}
use sys_agent.Store.Layout.{fields_bytes, length-fields_bytes}
use sys_agent.Store.Payload.{candidates, payload, representation_of}
use sys_agent.Store.Reader.RoundTrip.{length-records, length-finished}
use sys_agent.Store.Writer.{block_of}
use sys_agent.Store.Writer.Chain.{BlockInput, IsInput, input_count, body, record_of, records}
use sys_agent.Store.Writer.Index.{finished}

-- The bytes of memory that a block spans at most. The alignment and the width are such that this is not 0.
unfoldable pub maximum_span : ℕ → ℕ → ℕ
maximum_span alignment width =
    let span = 0x40000 / width * alignment % u64_mod in if ltb 0x40000 span then 0x40000 else span

-- `searchStoreEstimateMaximum`
unfoldable pub estimate_maximum : ℕ → ℕ → ℕ → ℕ
unfolding maximum_span
estimate_maximum size alignment width =
    let slots = add_u64 (size / alignment) 1 in
    let blocks = add_u64 (size / maximum_span alignment width) 2 in
    let per_block = block_bytes + entry_bytes in
    let overhead = blocks * per_block in
    let bitmap = add_u64 slots 7 / 8 in
    if alignment == 0 || width == 0
    then u64_max
    else if ltb ((u64_max - header_bytes) / width) slots
    then u64_max
    else if ltb (u64_max / per_block) blocks
    then u64_max
    else if ltb
        ((u64_max + u64_mod - header_bytes + u64_mod - overhead + u64_mod - bitmap) % u64_mod)
        (slots * width)
    then u64_max
    else (header_bytes + overhead + bitmap + slots * width) % u64_mod

-- The bytes of memory that a whole block spans.
abbrev pub span_of : Metadata → ℕ
span_of metadata = min 0x40000 (0x40000 / metadata.width * metadata.alignment)

-- The slots of some blocks.
abbrev pub total_slots : List BlockInput → ℕ
total_slots [] = 0
total_slots (i ∷ inputs) = i.slots + total_slots inputs

-- The bytes of blocks without masks.
length-body_unmasked :
    (metadata : Metadata) (inputs : List BlockInput) (before : ℕ)
    → All (IsInput metadata.width) inputs
    → All (λ i. i.mask ≡ none) inputs
    → (length (body (records metadata before inputs))
        ≡ block_bytes * length inputs + total_slots inputs * metadata.width)
      × (length (records metadata before inputs) ≡ length inputs)
unfolding records record_of block_of payload candidates
length-body_unmasked metadata [] before ok plain = (omega arith, refl)
length-body_unmasked metadata (i ∷ inputs) before ok plain =
    let rest = length-body_unmasked metadata inputs (before + input_count i) ok.1 plain.1 in
    let counted : input_count i ≡ i.slots = ap (λ m. candidates m i.slots) plain.0 in
    let some_set : (input_count i == 0) ≡ false = ground (arith, counted, ok.0.slots) in
    let (b, bytes) = record_of metadata before i in
    let sized : length bytes ≡ i.slots * metadata.width = length_unmasked i.mask plain.0 in
    rw some_set (
      omega (
        arith,
        rest.0,
        sized,
        length-append (fields_bytes (block_fields b))
            (bytes ++ body (records metadata (before + input_count i) inputs)),
        length-append bytes (body (records metadata (before + input_count i) inputs)),
        length-fields_bytes (block_fields b),
      ),
      omega (arith, rest.1),
    )
  where
    length_unmasked :
        (mask : Option Bytes)
        → mask ≡ none
        → length (
            payload mask i.values metadata.width i.slots
              (representation_of metadata.width i.slots (candidates mask i.slots)))
          ≡ i.slots * metadata.width
    length_unmasked none e =
        omega (arith, length-take (i.slots * metadata.width) i.values, ok.0.values)
    length_unmasked (some mask) e = cc

maximum_span_bounds :
    (alignment width : ℕ)
    → 0 < width
    → width ≤ 8
    → 0 < alignment
    → alignment ≤ 256
    → 0x8000 ≤ maximum_span alignment width
unfolding maximum_span
maximum_span_bounds alignment width wide narrow aligned fine =
    let low : 0x8000 ≤ 0x40000 / width = grind arith in
    let high : 0x40000 / width ≤ 0x40000 = grind arith in
    let least : 0x40000 / width * 1 ≤ 0x40000 / width * alignment =
      mul-le-mul_left (0x40000 / width) aligned in
    let most : 0x40000 / width * alignment ≤ 0x40000 * alignment =
      mul-le-mul_right alignment high in
    ground (arith, low, least, most)

maximum_span-span_of :
    (metadata : Metadata)
    → 0 < metadata.width
    → metadata.alignment ≤ 256
    → maximum_span metadata.alignment metadata.width ≡ span_of metadata
unfolding maximum_span
maximum_span-span_of metadata wide fine =
    let high : 0x40000 / metadata.width ≤ 0x40000 = grind arith in
    let most : 0x40000 / metadata.width * metadata.alignment ≤ 0x40000 * metadata.alignment =
      mul-le-mul_right metadata.alignment high in
    ground (arith, most)

-- As many times as a number fits another, and more.
le-div_add : (n a size extra : ℕ) → 0 < a → n * a ≤ size + extra * a → n ≤ size / a + extra
le-div_add n a size extra pos le =
    let fits : n ≤ (size + extra * a) / a = (le-div_iff_mul-le pos).1 le in
    rw (add-mul-div_right size extra pos) at fits

-- Few blocks fit the memory.
div_small : (size span : ℕ) → size < 2 ^ 63 → 0x8000 ≤ span → size / span < 2 ^ 48
div_small size span small le = grind arith

div-le : (size alignment : ℕ) → size / alignment ≤ size
div-le size alignment = grind arith

-- Blocks of 1 to 8 bytes a value in which every slot is a candidate, in less than 2^63 bytes of memory with an alignment
-- of 1 to 256: if their slots but the last fit the memory, the spans of all blocks but two fit it, a span being the bytes of
-- 256 KiB of values and at most 256 KiB, and there are fewer than 2^40 blocks, then the finished file is no larger than
-- the estimate.
pub length-finished-le-estimate_maximum :
    (metadata : Metadata) (inputs : List BlockInput) (size : ℕ)
    → 0 < metadata.width
    → metadata.width ≤ 8
    → 0 < metadata.alignment
    → metadata.alignment ≤ 256
    → size < 2 ^ 63
    → All (IsInput metadata.width) inputs
    → All (λ i. i.mask ≡ none) inputs
    → total_slots inputs * metadata.alignment ≤ size + metadata.alignment
    → length inputs * span_of metadata ≤ size + 2 * span_of metadata
    → length inputs < 2 ^ 40
    → length (finished metadata (records metadata 0 inputs))
      ≤ estimate_maximum size metadata.alignment metadata.width
unfolding estimate_maximum
length-finished-le-estimate_maximum metadata inputs size wide narrow aligned fine small ok plain
      slots blocks counted =
    let short = length-records metadata wide narrow inputs 0 ok in
    let span = maximum_span metadata.alignment metadata.width in
    let large = maximum_span_bounds metadata.alignment metadata.width wide narrow aligned fine in
    let same = maximum_span-span_of metadata wide fine in
    let spans = div_small size span small large in
    let some_slots : total_slots inputs ≤ size / metadata.alignment + 1 =
      le-div_add (total_slots inputs) metadata.alignment size 1 aligned (omega (arith, slots)) in
    let some_blocks : length inputs ≤ size / span + 2 =
      le-div_add (length inputs) span size 2 (omega (arith, large)) (rw same blocks) in
    let few = div-le size metadata.alignment in
    let sized = length-body_unmasked metadata inputs 0 ok plain in
    let long = length-finished metadata wide narrow (records metadata 0 inputs) in
    let bound : length (finished metadata (records metadata 0 inputs)) < 2 ^ 63 =
      omega (arith, long, short.0, short.1, counted) in
    let within = mul-le-mul_right metadata.width some_slots in
    ground (arith, some_blocks, spans, few, sized.0, sized.1, long, within)
