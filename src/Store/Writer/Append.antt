-- ===== src/Store/Writer/Append.antt =====
-- Adding blocks to a file of the search store, where nothing fails: each block with a candidate comes behind the chain.
use native.Mathlib.Nat.{mul-le-mul_left}
use sys_agent.Prelude.{
  ℕ, ◌+◌, ◌*◌, ◌^◌, ◌≤◌, ◌<◌, ◌≡◌, refl, sym, ap, ap₂, ◌∙◌, arith, Bool, true, false, none, List,
  [], ◌∷◌, ◌++◌, append_assoc, append-nil, Bytes, All, All-append, length, length-append, ltb, ◌==◌,
  if◌then◌else◌, Bool-cases, inl, inr,
}
use sys_agent.Prelude.Word.{add_u64, u32_max}
use sys_agent.Store.Crc.{crc32}
use sys_agent.Store.File.{Metadata, Block, block_bytes, header_fields, block_fields, block_magic}
use sys_agent.Store.Layout.{Fits, fields_bytes, length-fields_bytes}
use sys_agent.Store.Payload.{representation_of, payload_size_of, payload}
use sys_agent.Store.Payload.Size.{candidates-le, length-payload, payload_size_of_bounds}
use sys_agent.Store.Writer.{Writer, new_header, block_of, count_block, write_block, add_block}
use sys_agent.Store.Writer.Chain.{
  BlockInput, IsInput, input_count, Record, body, total, header_with, record_of, records, chain,
  writer_at, fwrite_end, body_one, total-append, length-chain-le,
}

pub crc32-lt : (bytes : Bytes) → crc32 bytes < 256 ^ 4
unfolding crc32
crc32-lt bytes = omega arith

-- What the reader relies on in a block.
pub record IsRecord (width : ℕ) (r : Record) : Type 0 where
  pub magic : r.0.magic ≡ block_magic
  pub width_eq : r.0.width ≡ width
  pub fits : Fits (block_fields r.0)
  pub size : r.0.payload_size ≡ length r.1
  pub crc : r.0.payload_crc ≡ crc32 r.1
  pub some_candidate : 0 < r.0.candidate_count
  pub few : r.0.candidate_count ≤ r.0.slot_count
  pub each : r.0.candidate_count ≤ length r.1
  pub small : length r.1 ≤ 0x50000

representation_of-lt : (width slots count : ℕ) → representation_of width slots count < 256 ^ 1
unfolding representation_of
representation_of-lt width slots count = ground arith

module _ (metadata : Metadata) (wide : 0 < metadata.width) (narrow : metadata.width ≤ 8) where
  pub record_of-IsRecord :
      (before : ℕ) (i : BlockInput)
      → before < 2 ^ 63
      → IsInput metadata.width i
      → 0 < input_count i
      → IsRecord metadata.width (record_of metadata before i)
  unfolding record_of block_of
  record_of-IsRecord before i bound ok some_candidate =
      let bytes =
        payload i.mask i.values metadata.width i.slots
          (representation_of metadata.width i.slots (input_count i)) in
      let long = length-payload i.mask i.values metadata.width i.slots ok.masked ok.values in
      let few = candidates-le i.mask i.slots in
      let bounds =
        payload_size_of_bounds metadata.width i.slots (input_count i) wide ok.small some_candidate
          few in
      let each : i.slots * 1 ≤ i.slots * metadata.width = mul-le-mul_left i.slots wide in
      record {
        magic = refl;
        width_eq = omega (arith, narrow);
        fits = omega (
          arith,
          representation_of-lt metadata.width i.slots (input_count i),
          ok.base,
          bound,
          each,
          ok.small,
          few,
          crc32-lt bytes,
        );
        size = omega (arith, long, bounds.1);
        crc = refl;
        some_candidate = some_candidate;
        few = few;
        each = omega (arith, long, bounds.0);
        small = omega (arith, long, bounds.1);
      }

-- The candidates and the blocks of a chain are at most its bytes.
pub total-le :
    (width : ℕ) (rs : List Record)
    → All (IsRecord width) rs
    → (total rs ≤ length (body rs)) × (length rs ≤ length (body rs))
total-le width [] h = (omega arith, omega arith)
total-le width ((b, bytes) ∷ rs) h =
    let rest = total-le width rs h.1 in
    let one = length-append (fields_bytes (block_fields b)) (bytes ++ body rs) in
    let two = length-append bytes (body rs) in
    let head = length-fields_bytes (block_fields b) in
    (omega (arith, rest.0, one, two, h.0.each), omega (arith, rest.1, one, two, head))

length-body_one :
    (rs : List Record) (b : Block) (bytes : Bytes)
    → length (body (rs ++ (b, bytes) ∷ [])) ≡ length (body rs) + block_bytes + length bytes
length-body_one rs b bytes =
    ap length (body_one rs b bytes)
    ∙ omega (
      arith,
      length-append (body rs) (fields_bytes (block_fields b) ++ bytes),
      length-append (fields_bytes (block_fields b)) bytes,
      length-fields_bytes (block_fields b),
    )

-- Adding the inputs in turn, until one is refused.
unfoldable pub add_all : Writer → List BlockInput → Bool × Writer
add_all w [] = (true, w)
add_all w (i ∷ inputs) =
    let (ok, w') = add_block true none none w i.base i.slots i.values i.mask in
    let rest = add_all w' inputs in if ok then rest else (false, w')

write_block_end :
    (w : Writer) (block bytes : Bytes)
    → w.position ≡ length w.content
    → write_block none none w block bytes ≡ (
      true,
      record w {
        content = w.content ++ (block ++ bytes);
        position = length (w.content ++ (block ++ bytes));
      },
    )
unfolding write_block
write_block_end w block bytes e = rw (fwrite_end w block e) (
    fwrite_end (record w { content = w.content ++ block; position = length (w.content ++ block) })
      bytes refl
    ∙ ap (λ c. (true, record w { content = c; position = length c }))
        (append_assoc w.content block bytes))

module _ (path : Bytes) (metadata : Metadata) (wide : 0 < metadata.width)
    (narrow : metadata.width ≤ 8) where
  header-append :
      (rs : List Record) (i : BlockInput)
      → All (IsRecord metadata.width) (rs ++ record_of metadata (total rs) i ∷ [])
      → length (
          payload i.mask i.values metadata.width i.slots
            (representation_of metadata.width i.slots (input_count i)))
        ≡ payload_size_of metadata.width i.slots (input_count i)
      → length (body (rs ++ record_of metadata (total rs) i ∷ [])) < 2 ^ 63
      → count_block
          (header_with metadata rs)
          (input_count i)
          (payload_size_of metadata.width i.slots (input_count i))
        ≡ header_with metadata (rs ++ record_of metadata (total rs) i ∷ [])
  unfolding count_block record_of block_of
  header-append rs i good long bound =
      let (b, bytes) = record_of metadata (total rs) i in
      let few = total-le metadata.width (rs ++ (b, bytes) ∷ []) good in
      let sum = total-append rs b bytes in
      let size = length-body_one rs b bytes in
      let counted : length (rs ++ (b, bytes) ∷ []) ≡ length rs + 1 =
        length-append rs ((b, bytes) ∷ []) in
      let p : add_u64 (total rs) (input_count i) ≡ total (rs ++ (b, bytes) ∷ []) =
        omega (arith, few.0, sum, bound) in
      let q : add_u64 (length rs) 1 ≡ length (rs ++ (b, bytes) ∷ []) =
        omega (arith, few.1, counted, bound) in
      let r : add_u64 (length (body rs))
            (block_bytes + payload_size_of metadata.width i.slots (input_count i))
          ≡ length (body (rs ++ (b, bytes) ∷ [])) =
        omega (arith, size, bound, long) in
      λ k. record (new_header metadata) {
        candidate_count = p k;
        block_count = q k;
        data_bytes = r k;
      }

  add_block-chain_some :
      (rs : List Record) (i : BlockInput)
      → All (IsRecord metadata.width) rs
      → IsInput metadata.width i
      → length (chain metadata (rs ++ record_of metadata (total rs) i ∷ [])) < 2 ^ 63
      → (input_count i == 0) ≡ false
      → (add_block true none none (writer_at path metadata rs) i.base i.slots i.values i.mask
          ≡ (true, writer_at path metadata (rs ++ record_of metadata (total rs) i ∷ [])))
        × All (IsRecord metadata.width) (rs ++ record_of metadata (total rs) i ∷ [])
  unfolding add_block record_of block_of
  add_block-chain_some rs i good ok bound some_candidate =
      let (b, bytes) = record_of metadata (total rs) i in
      let counted : 0 < input_count i = ground arith in
      let long = length-payload i.mask i.values metadata.width i.slots ok.masked ok.values in
      let bounds =
        payload_size_of_bounds metadata.width i.slots (input_count i) wide ok.small counted
          (candidates-le i.mask i.slots) in
      let inside =
        length-append (fields_bytes (header_fields (new_header metadata)))
          (body (rs ++ (b, bytes) ∷ [])) in
      let few = total-le metadata.width rs good in
      let sized = length-body_one rs b bytes in
      let total_small : total rs < 2 ^ 63 = omega (arith, few.0, bound, inside, sized) in
      let is_record = record_of-IsRecord metadata wide narrow (total rs) i total_small ok counted in
      let slots_some : (i.slots == 0) ≡ false = ground (arith, ok.slots) in
      let small : ltb u32_max (payload_size_of metadata.width i.slots (input_count i)) ≡ false =
        ground (arith, bounds.1) in
      let all_records =
        All-append (IsRecord metadata.width) rs ((b, bytes) ∷ []) good (is_record, tt) in
      let header = header-append rs i all_records long (omega (arith, inside, bound)) in
      let content =
        ap (λ t. fields_bytes (header_fields (new_header metadata)) ++ t) (body_one rs b bytes)
        ∙ sym (
            append_assoc (fields_bytes (header_fields (new_header metadata))) (body rs)
              (fields_bytes (block_fields b) ++ bytes)) in
      (
        rw
            (
              slots_some,
              some_candidate,
              small,
              write_block_end (writer_at path metadata rs) (fields_bytes (block_fields b)) bytes
                  refl,
            )
            (ap₂ {C = Bool × Writer}
              (λ h c. (
                true,
                record {
                  path = path;
                  header = h;
                  failed = false;
                  opened = true;
                  content = c;
                  position = length c;
                  there = true;
                },
              ))
              header (sym content)),
        all_records,
      )

  -- An input with no candidate leaves the file as it is.
  add_block_nothing :
      (rs : List Record) (i : BlockInput)
      → IsInput metadata.width i
      → (input_count i == 0) ≡ true
      → add_block true none none (writer_at path metadata rs) i.base i.slots i.values i.mask
        ≡ (true, writer_at path metadata rs)
  unfolding add_block
  add_block_nothing rs i ok e =
      let slots_some : (i.slots == 0) ≡ false = ground (arith, ok.slots) in rw (slots_some, e) refl

  record_total :
      (rs : List Record) (i : BlockInput)
      → total rs + input_count i ≡ total (rs ++ record_of metadata (total rs) i ∷ [])
  unfolding record_of block_of
  record_total rs i =
      let (b, bytes) = record_of metadata (total rs) i in omega (arith, total-append rs b bytes)

  -- All inputs are added behind the chain.
  pub add_all-chain :
      (inputs : List BlockInput) (rs : List Record) (n : ℕ)
      → n ≡ total rs
      → All (IsRecord metadata.width) rs
      → All (IsInput metadata.width) inputs
      → length (chain metadata (rs ++ records metadata n inputs)) < 2 ^ 63
      → (add_all (writer_at path metadata rs) inputs
          ≡ (true, writer_at path metadata (rs ++ records metadata n inputs)))
        × All (IsRecord metadata.width) (rs ++ records metadata n inputs)
  unfolding add_all records
  add_all-chain [] rs n same good ok bound = rw (append-nil rs) (refl, good)
  add_all-chain (i ∷ inputs) rs n same good ok bound = elim (Bool-cases (input_count i == 0)) [
    | inl e ↦
        rw (add_block_nothing rs i ok.0 e, e)
          (add_all-chain inputs rs (n + input_count i) (ground arith) good ok.1 (rw e at bound))
    | inr e ↦
        let r = record_of metadata (total rs) i in
        let rest = records metadata (total rs + input_count i) inputs in
        let joined = append_assoc rs (r ∷ []) rest in
        let whole : length (chain metadata ((rs ++ r ∷ []) ++ rest)) < 2 ^ 63 =
          rw joined (rw (e, same) at bound) in
        let step =
          add_block-chain_some rs i good ok.0
            (omega (arith, length-chain-le metadata (rs ++ r ∷ []) rest, whole)) e in
        rw (step.0, e, same, ← joined)
          (add_all-chain inputs (rs ++ r ∷ []) (total rs + input_count i) (record_total rs i) step.1
            ok.1 whole)
  ]
