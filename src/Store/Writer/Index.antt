-- ===== src/Store/Writer/Index.antt =====
-- The index and the final header of a file of the search store, where nothing fails: `writeIndex` finds each block of
-- the chain again and puts its entry at the end.
use sys_agent.Prelude.{
  ℕ, suc, ◌+◌, ◌*◌, ◌^◌, ◌<◌, ◌≡◌, refl, sym, ap, ap₂, ◌∙◌, arith, Bool, true, false, none, some,
  List, [], ◌∷◌, ◌++◌, append_assoc, append-nil, Bytes, All, length, length-append, drop, drop_left,
  ◌==◌,
}
use sys_agent.Prelude.Word.{add_u64}
use sys_agent.Store.File.{
  Metadata, StoreHeader, Block, IndexEntry, header_bytes, block_bytes, entry_bytes, header_fields,
  block_fields, entry_fields, block_magic, read_block, read_block-fields_bytes,
}
use sys_agent.Store.Layout.{fields_bytes, length-fields_bytes}
use sys_agent.Store.Writer.{
  Writer, fwrite, new_header, entry_of, append_entry, write_entries, write_index, seal,
  write_header, writer_finish,
}
use sys_agent.Store.Writer.Chain.{Record, body, header_with, chain, writer_at, fwrite_end}
use sys_agent.Store.Writer.Append.{IsRecord}

-- The index of a chain of blocks from an offset on.
abbrev pub index_from : ℕ → List Record → Bytes
index_from offset [] = []
index_from offset ((b, bytes) ∷ rs) =
    fields_bytes (entry_fields (entry_of offset b))
    ++ index_from (offset + block_bytes + length bytes) rs

pub length-index_from :
    (offset : ℕ) (rs : List Record) → length (index_from offset rs) ≡ entry_bytes * length rs
length-index_from offset [] = refl
length-index_from offset ((b, bytes) ∷ rs) =
    length-append (fields_bytes (entry_fields (entry_of offset b))) _
    ∙ omega (
      arith,
      length-fields_bytes (entry_fields (entry_of offset b)),
      length-index_from (offset + block_bytes + length bytes) rs,
    )

-- A writer with other bytes at another position.
abbrev moved : Writer → Bytes → ℕ → Writer
moved w content position = record w { content = content; position = position }

append_entry_lem :
    (w : Writer) (entry : IndexEntry)
    → append_entry none w entry ≡ (
      true,
      moved w
          (w.content ++ fields_bytes (entry_fields entry))
          (length (w.content ++ fields_bytes (entry_fields entry))),
    )
unfolding append_entry
append_entry_lem w entry =
    fwrite_end (record w { position = length w.content }) (fields_bytes (entry_fields entry)) refl

-- The block in front of a chain, behind some bytes.
abbrev pub in_front : Bytes → Record → List Record → Bytes → Bytes
in_front front r rs extra = front ++ (body (r ∷ rs) ++ extra)

pub in_front-split :
    (front extra : Bytes) (b : Block) (bytes : Bytes) (rs : List Record)
    → in_front front (b, bytes) rs extra
      ≡ front ++ (fields_bytes (block_fields b) ++ (bytes ++ (body rs ++ extra)))
in_front-split front extra b bytes rs =
    ap (λ t. front ++ t)
      (append_assoc (fields_bytes (block_fields b)) (bytes ++ body rs) extra
        ∙ ap (λ t. fields_bytes (block_fields b) ++ t) (append_assoc bytes (body rs) extra))

pub in_front-next :
    (front extra : Bytes) (b : Block) (bytes : Bytes) (rs : List Record)
    → in_front front (b, bytes) rs extra
      ≡ (front ++ (fields_bytes (block_fields b) ++ bytes)) ++ (body rs ++ extra)
in_front-next front extra b bytes rs = simp append_assoc

-- The block behind some bytes is found.
pub read_block_behind :
    (width : ℕ) (content front rest : Bytes) (b : Block) (bytes : Bytes) (offset : ℕ)
    → content ≡ front ++ (fields_bytes (block_fields b) ++ (bytes ++ rest))
    → offset ≡ length front
    → IsRecord width (b, bytes)
    → read_block content offset ≡ some b
read_block_behind width content front rest b bytes offset e at good = rw e (
    read_block-fields_bytes b front (bytes ++ rest) offset good.fits
      (omega (
        arith,
        at,
        length-append front (fields_bytes (block_fields b) ++ (bytes ++ rest)),
        length-append (fields_bytes (block_fields b)) (bytes ++ rest),
        length-fields_bytes (block_fields b),
      ))
      at)

pub length-in_front :
    (front : Bytes) (b : Block) (bytes : Bytes)
    → length (front ++ (fields_bytes (block_fields b) ++ bytes))
      ≡ length front + block_bytes + length bytes
length-in_front front b bytes = omega (
  arith,
  length-append front (fields_bytes (block_fields b) ++ bytes),
  length-append (fields_bytes (block_fields b)) bytes,
  length-fields_bytes (block_fields b),
)

-- The offset behind a block does not wrap.
pub next_offset :
    (width : ℕ) (front extra : Bytes) (b : Block) (bytes : Bytes) (rs : List Record) (offset : ℕ)
    → offset ≡ length front
    → IsRecord width (b, bytes)
    → length (front ++ body ((b, bytes) ∷ rs)) < 2 ^ 63
    → add_u64 offset (block_bytes + b.payload_size) ≡ offset + block_bytes + length bytes
next_offset width front extra b bytes rs offset at good bound =
    let joined : front ++ body ((b, bytes) ∷ rs)
        ≡ (front ++ (fields_bytes (block_fields b) ++ bytes)) ++ body rs =
      simp append_assoc in
    omega (
      arith,
      at,
      good.size,
      bound,
      ap length joined,
      length-in_front front b bytes,
      length-append (front ++ (fields_bytes (block_fields b) ++ bytes)) (body rs),
    )

-- One round, by the block that is found.
write_entries_step :
    (n index offset next : ℕ) (w w' : Writer) (b : Block)
    → read_block w.content offset ≡ some b
    → b.magic ≡ block_magic
    → append_entry none w (entry_of offset b) ≡ (true, w')
    → add_u64 offset (block_bytes + b.payload_size) ≡ next
    → write_entries (λ i. none) (suc n) index offset w
      ≡ write_entries (λ i. none) n (index + 1) next w'
unfolding write_entries
write_entries_step n index offset next w w' b found magic appended e =
    let same : (b.magic == block_magic) ≡ true = ground (arith, magic) in
    rw (found, write_entries, same, appended, e) refl

pub write_entries-chain :
    (width : ℕ) (rs : List Record) (index offset : ℕ) (w : Writer) (front extra : Bytes)
    → All (IsRecord width) rs
    → w.content ≡ front ++ (body rs ++ extra)
    → offset ≡ length front
    → length (front ++ body rs) < 2 ^ 63
    → (p : ℕ) × (write_entries (λ i. none) (length rs) index offset w
        ≡ (true, moved w (w.content ++ index_from offset rs) p))
unfolding write_entries
write_entries-chain width [] index offset w front extra good e at bound =
    (w.position, ap (λ c. (true, moved w c w.position)) (sym (append-nil w.content)))
write_entries-chain width ((b, bytes) ∷ rs) index offset w front extra good e at bound =
    let found =
      read_block_behind width w.content front (body rs ++ extra) b bytes offset
        (e ∙ in_front-split front extra b bytes rs) at good.0 in
    let entry = fields_bytes (entry_fields (entry_of offset b)) in
    let w' = moved w (w.content ++ entry) (length (w.content ++ entry)) in
    let front' = front ++ (fields_bytes (block_fields b) ++ bytes) in
    let content' : w.content ++ entry ≡ front' ++ (body rs ++ (extra ++ entry)) =
      ap (λ c. c ++ entry) (e ∙ in_front-next front extra b bytes rs) ∙ simp append_assoc in
    let joined : front ++ body ((b, bytes) ∷ rs) ≡ front' ++ body rs = simp append_assoc in
    let rest =
      write_entries-chain width rs (index + 1) (offset + block_bytes + length bytes) w' front'
        (extra ++ entry) good.1 content' (omega (arith, at, length-in_front front b bytes))
        (rw joined at bound) in
    (
      rest.0,
      write_entries_step (length rs) index offset (offset + block_bytes + length bytes) w w' b found
            good.0.magic (append_entry_lem w (entry_of offset b))
            (next_offset width front extra b bytes rs offset at good.0 bound)
          ∙ rest.1
          ∙ ap (λ c. (true, moved w c rest.0)) (append_assoc w.content entry _),
    )

-- The bytes of a finished file.
abbrev pub finished_header : Metadata → List Record → StoreHeader
finished_header metadata rs =
    seal (record (header_with metadata rs) { index_offset = header_bytes + length (body rs) })

abbrev pub finished : Metadata → List Record → Bytes
finished metadata rs =
    fields_bytes (header_fields (finished_header metadata rs))
    ++ (body rs ++ index_from header_bytes rs)

-- The header in front of the file is written over.
write_header_lem :
    (w : Writer) (front rest : Bytes)
    → w.content ≡ front ++ rest
    → length front ≡ header_bytes
    → write_header none w ≡ (
      true,
      record w {
        header = seal w.header;
        content = fields_bytes (header_fields (seal w.header)) ++ rest;
        position = header_bytes;
      },
    )
unfolding write_header fwrite
write_header_lem w front rest e long =
    let sized = length-fields_bytes (header_fields (seal w.header)) in
    ap₂ {C = Bool × Writer}
      (λ c p. (true, record w { header = seal w.header; content = c; position = p }))
      (ap (λ t. fields_bytes (header_fields (seal w.header)) ++ t)
        (ap (λ c. drop (0 + length (fields_bytes (header_fields (seal w.header)))) c) e
          ∙ drop_left (0 + length (fields_bytes (header_fields (seal w.header)))) front rest
              (omega (arith, long, sized))))
      (omega (arith, sized))

write_index-chain :
    (path : Bytes) (metadata : Metadata) (rs : List Record)
    → All (IsRecord metadata.width) rs
    → length (chain metadata rs) < 2 ^ 63
    → (p : ℕ) × (write_index (λ i. none) (writer_at path metadata rs) ≡ (
      true,
      record (writer_at path metadata rs) {
        header = record (header_with metadata rs) {
          index_offset = header_bytes + length (body rs);
        };
        content = chain metadata rs ++ index_from header_bytes rs;
        position = p;
      },
    ))
unfolding write_index
write_index-chain path metadata rs good bound =
    let front = fields_bytes (header_fields (new_header metadata)) in
    let sized = length-fields_bytes (header_fields (new_header metadata)) in
    let at : add_u64 header_bytes (length (body rs)) ≡ header_bytes + length (body rs) =
      omega (arith, bound, length-append front (body rs), sized) in
    let r =
      write_entries-chain metadata.width rs 0 header_bytes
        (record (writer_at path metadata rs) {
          header = record (header_with metadata rs) {
            index_offset = add_u64 header_bytes (length (body rs));
          };
        })
        front [] good (ap (λ t. front ++ t) (sym (append-nil (body rs)))) (sym sized) bound in
    (
      r.0,
      r.1
          ∙ ap
              (λ o. (
                true,
                record (writer_at path metadata rs) {
                  header = record (header_with metadata rs) { index_offset = o };
                  content = chain metadata rs ++ index_from header_bytes rs;
                  position = r.0;
                },
              ))
              at,
    )

-- Finishing the chain leaves the header, the blocks and the index of them.
pub writer_finish-chain :
    (path : Bytes) (metadata : Metadata) (rs : List Record)
    → All (IsRecord metadata.width) rs
    → length (chain metadata rs) < 2 ^ 63
    → (w : Writer) × (writer_finish (λ i. none) none true (writer_at path metadata rs) ≡ (true, w))
      × (w.content ≡ finished metadata rs)
      × (w.there ≡ true)
unfolding writer_finish
writer_finish-chain path metadata rs good bound =
    let front = fields_bytes (header_fields (new_header metadata)) in
    let indexed = write_index-chain path metadata rs good bound in
    let w = record (writer_at path metadata rs) {
      header = record (header_with metadata rs) { index_offset = header_bytes + length (body rs) };
      content = chain metadata rs ++ index_from header_bytes rs;
      position = indexed.0;
    } in
    let sealed =
      write_header_lem w front (body rs ++ index_from header_bytes rs)
        (append_assoc front (body rs) (index_from header_bytes rs))
        (length-fields_bytes (header_fields (new_header metadata))) in
    (
      record w {
        header = seal w.header;
        content = finished metadata rs;
        position = header_bytes;
        opened = false;
      },
      rw (indexed.1, sealed) refl,
      refl,
      refl,
    )
