-- ===== src/Store/Reader/Addresses/Index.antt =====
-- The entries of a finished file's index, found by their number, and the blocks that they lead to.
use sys_agent.Prelude.{
  ℕ, ◌+◌, ◌*◌, ◌^◌, ◌≤◌, ◌<◌, ◌≡◌, refl, sym, ap, ◌∙◌, arith, false, some, List, [], ◌∷◌, ◌++◌,
  append_assoc, Bytes, All, length, length-append, ==_refl,
}
use sys_agent.Prelude.Word.{add_u64}
use sys_agent.Store.File.{
  Metadata, Block, IndexEntry, header_bytes, block_bytes, entry_bytes, header_fields, block_fields,
  entry_fields, read_entry, read_entry-fields_bytes,
}
use sys_agent.Store.Layout.{fields_bytes, length-fields_bytes}
use sys_agent.Store.Reader.Playback.{block_is_good, read_payload-chain}
use sys_agent.Store.Reader.RoundTrip.{length-finished}
use sys_agent.Store.Reader.Addresses.{
  entry_is_bad, end_of, entry_offset, block_addresses, entry_differs, entry_addresses,
}
use sys_agent.Store.Writer.{entry_of, seal}
use sys_agent.Store.Writer.Chain.{Record, body, total, body-append}
use sys_agent.Store.Writer.Append.{IsRecord, total-le}
use sys_agent.Store.Writer.Index.{
  index_from, length-index_from, finished_header, finished, read_block_behind,
}

All_at {ℓ κ} : {A : Type ℓ} (P : A → Type κ) (xs ys : List A) (x : A) → All P (xs ++ x ∷ ys) → P x
All_at P [] ys x h = h.0
All_at P (y ∷ xs) ys x h = All_at P xs ys x h.1

index_from-append :
    (offset : ℕ) (rs ts : List Record)
    → index_from offset (rs ++ ts)
      ≡ index_from offset rs ++ index_from (offset + length (body rs)) ts
index_from-append offset [] ts = ap (λ o. index_from o ts) (omega arith)
index_from-append offset ((b, bytes) ∷ rs) ts =
    let entry = fields_bytes (entry_fields (entry_of offset b)) in
    let sized : offset + block_bytes + length bytes + length (body rs)
        ≡ offset + length (body ((b, bytes) ∷ rs)) =
      omega (
        arith,
        length-append (fields_bytes (block_fields b)) (bytes ++ body rs),
        length-append bytes (body rs),
        length-fields_bytes (block_fields b),
      ) in
    ap (λ t. entry ++ t)
      (index_from-append (offset + block_bytes + length bytes) rs ts
        ∙ ap (λ o. index_from (offset + block_bytes + length bytes) rs ++ index_from o ts) sized)
    ∙ sym (append_assoc entry (index_from (offset + block_bytes + length bytes) rs) _)

pub total-append_all : (rs ts : List Record) → total (rs ++ ts) ≡ total rs + total ts
total-append_all [] ts = omega arith
total-append_all ((b, bytes) ∷ rs) ts = omega (arith, total-append_all rs ts)

module _ (metadata : Metadata) (wide : 0 < metadata.width) (narrow : metadata.width ≤ 8)
    (front more : List Record) (b : Block) (bytes : Bytes)
    (good : All (IsRecord metadata.width) (front ++ (b, bytes) ∷ more))
    (bound : length (finished metadata (front ++ (b, bytes) ∷ more)) < 2 ^ 63) where
  abbrev rs : List Record
  rs = front ++ (b, bytes) ∷ more

  abbrev entry : IndexEntry
  entry = entry_of (header_bytes + length (body front)) b

  -- The entry with the number of the blocks in front.
  pub read_entry-finished :
      read_entry (finished metadata rs) (entry_offset (finished_header metadata rs) (length front))
      ≡ some entry
  unfolding entry_offset entry_of seal
  read_entry-finished =
      let header = fields_bytes (header_fields (finished_header metadata rs)) in
      let header_size = length-fields_bytes (header_fields (finished_header metadata rs)) in
      let here = header_bytes + length (body front) in
      let long = length-finished metadata wide narrow rs in
      let ahead = header ++ (body rs ++ index_from header_bytes front) in
      let rest = index_from (here + block_bytes + length bytes) more in
      let grouped : finished metadata rs ≡ ahead ++ (fields_bytes (entry_fields entry) ++ rest) =
        ap (λ t. header ++ (body rs ++ t))
          (index_from-append header_bytes front ((b, bytes) ∷ more))
        ∙ simp append_assoc in
      let ahead_size : length ahead ≡ header_bytes + length (body rs) + entry_bytes * length front =
        omega (
          arith,
          length-append header (body rs ++ index_from header_bytes front),
          header_size,
          length-append (body rs) (index_from header_bytes front),
          length-index_from header_bytes front,
        ) in
      let counted = length-append front ((b, bytes) ∷ more) in
      let at : add_u64 (header_bytes + length (body rs)) (length front * entry_bytes)
          ≡ length ahead =
        omega (arith, ahead_size, bound, long, counted) in
      let is_record = All_at (IsRecord metadata.width) front more (b, bytes) good in
      let bodies = ap length (body-append front ((b, bytes) ∷ more)) in
      rw (at, grouped)
        (read_entry-fields_bytes entry ahead rest (length ahead)
          (omega (
            arith,
            is_record.fits,
            bound,
            long,
            bodies,
            length-append (body front) (body ((b, bytes) ∷ more)),
          ))
          (omega (
            arith,
            length-append ahead (fields_bytes (entry_fields entry) ++ rest),
            length-append (fields_bytes (entry_fields entry)) rest,
            length-fields_bytes (entry_fields entry),
          ))
          refl)

  -- The entry counts no more than the header.
  pub entry_is_good :
      b.cumulative_candidates ≡ total front
      → entry_is_bad (finished_header metadata rs) entry ≡ false
  unfolding entry_is_bad entry_of seal
  entry_is_good counted =
      let sum = total-append_all front ((b, bytes) ∷ more) in ground (arith, sum)

  -- The candidates up to the entry.
  pub end_of-entry :
      b.cumulative_candidates ≡ total front → end_of entry ≡ total front + b.candidate_count
  unfolding end_of entry_of
  end_of-entry counted =
      let sum = total-append_all front ((b, bytes) ∷ more) in
      let few = total-le metadata.width rs good in
      omega (arith, sum, few.0, bound, length-finished metadata wide narrow rs)

  entry_is_same : entry_differs entry b ≡ false
  unfolding entry_differs entry_of
  entry_is_same =
      rw
        (
          ==_refl b.cumulative_candidates,
          ==_refl b.base,
          ==_refl b.slot_count,
          ==_refl b.candidate_count,
        )
        refl

  -- The entry leads to the block and its payload.
  pub entry_addresses-finished :
      (offset count : ℕ) (copied : List ℕ)
      → b.cumulative_candidates ≡ total front
      → entry_addresses
          (finished metadata rs)
          (finished_header metadata rs)
          offset
          count
          entry
          copied
        ≡ block_addresses metadata.alignment b offset count bytes copied
  unfolding entry_addresses entry_of seal
  entry_addresses-finished offset count copied counted =
      let header = fields_bytes (header_fields (finished_header metadata rs)) in
      let header_size = length-fields_bytes (header_fields (finished_header metadata rs)) in
      let here = header_bytes + length (body front) in
      let ahead = header ++ body front in
      let rest = body more ++ index_from header_bytes rs in
      let is_record = All_at (IsRecord metadata.width) front more (b, bytes) good in
      let bodies = body-append front ((b, bytes) ∷ more) in
      let grouped : finished metadata rs
          ≡ ahead ++ (fields_bytes (block_fields b) ++ (bytes ++ rest)) =
        ap (λ t. header ++ (t ++ index_from header_bytes rs)) bodies ∙ simp append_assoc in
      let at : here ≡ length ahead =
        omega (arith, length-append header (body front), header_size) in
      let sized = ap length bodies in
      let room : here + (block_bytes + length bytes) ≤ header_bytes + length (body rs) = omega (
        arith,
        sized,
        length-append (body front) (body ((b, bytes) ∷ more)),
        length-append (fields_bytes (block_fields b)) (bytes ++ body more),
        length-append bytes (body more),
        length-fields_bytes (block_fields b),
      ) in
      rw
        (
          entry_addresses,
          read_block_behind metadata.width (finished metadata rs) ahead rest b bytes here grouped at
              is_record,
          block_is_good (finished_header metadata rs) here (b, bytes) is_record room,
          entry_is_same,
          entry_is_good counted,
          read_payload-chain metadata.width (finished metadata rs) ahead rest b bytes here grouped
              at is_record,
        )
        refl
