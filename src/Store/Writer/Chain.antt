-- ===== src/Store/Writer/Chain.antt =====
-- A file of the search store as a chain of blocks: the writer of sys-agent/source/search_store.c puts each block with a
-- candidate behind those before it.
use sys_agent.Prelude.{
  ℕ, zero, suc, ◌+◌, ◌*◌, ◌^◌, ◌≤◌, ◌<◌, ◌≡◌, refl, sym, ap, ap₂, ◌∙◌, arith, true, false, Option,
  none, List, [], ◌∷◌, ◌++◌, append_assoc, append-nil, Bytes, length, length-append, take, drop,
  ◌==◌, if◌then◌else◌,
}
use sys_agent.Store.File.{Metadata, StoreHeader, Block, header_fields, block_fields}
use sys_agent.Store.Layout.{fields_bytes}
use sys_agent.Store.Payload.{candidates, representation_of, payload}
use sys_agent.Store.Payload.RoundTrip.{IsMaskFor}
use sys_agent.Store.Writer.{Writer, overwrite, fwrite, new_header, block_of}

-- What a caller adds as a block.
pub record BlockInput : Type 0 where
  pub base : ℕ
  pub slots : ℕ
  pub values : Bytes
  pub mask : Option Bytes

abbrev pub input_count : BlockInput → ℕ
input_count i = candidates i.mask i.slots

-- The values have the width that the metadata says and at most 256 KiB, and a mask has a bit for each slot.
pub record IsInput (width : ℕ) (i : BlockInput) : Type 0 where
  pub base : i.base < 256 ^ 8
  pub slots : 0 < i.slots
  pub small : i.slots * width ≤ 0x40000
  pub values : length i.values ≡ i.slots * width
  pub masked : IsMaskFor i.slots i.mask

-- A block as it lies in the file: its header and its payload.
abbrev pub Record : Type 0
Record = Block × Bytes

abbrev pub body : List Record → Bytes
body [] = []
body ((b, bytes) ∷ rs) = fields_bytes (block_fields b) ++ (bytes ++ body rs)

abbrev pub total : List Record → ℕ
total [] = 0
total ((b, bytes) ∷ rs) = b.candidate_count + total rs

-- The header behind some blocks.
abbrev pub header_with : Metadata → List Record → StoreHeader
header_with metadata rs = record (new_header metadata) {
  candidate_count = total rs;
  block_count = length rs;
  data_bytes = length (body rs);
}

-- The block of an input, behind some candidates.
unfoldable pub record_of : Metadata → ℕ → BlockInput → Record
record_of metadata before i =
    let bytes =
      payload i.mask i.values metadata.width i.slots
        (representation_of metadata.width i.slots (input_count i)) in
    (
      block_of (record (new_header metadata) { candidate_count = before }) i.base i.slots i.mask
          bytes,
      bytes,
    )

-- The blocks of the inputs with a candidate.
unfoldable pub records : Metadata → ℕ → List BlockInput → List Record
records metadata before [] = []
records metadata before (i ∷ inputs) =
    let rest = records metadata (before + input_count i) inputs in
    if input_count i == 0 then rest else record_of metadata before i ∷ rest

-- The bytes of a file behind some blocks, with the header that is written first.
abbrev pub chain : Metadata → List Record → Bytes
chain metadata rs = fields_bytes (header_fields (new_header metadata)) ++ body rs

-- The writer behind some blocks.
abbrev pub writer_at : Bytes → Metadata → List Record → Writer
writer_at path metadata rs = record {
  path = path;
  header = header_with metadata rs;
  failed = false;
  opened = true;
  content = chain metadata rs;
  position = length (chain metadata rs);
  there = true;
}

module _ {ℓ} {A : Type ℓ} where
  pub take_all : (xs : List A) → take (length xs) xs ≡ xs
  take_all [] = refl
  take_all (x ∷ xs) = ap (◌∷◌ x) (take_all xs)

  pub drop_behind : (n : ℕ) (xs : List A) → length xs ≤ n → drop n xs ≡ []
  drop_behind zero [] le = refl
  drop_behind zero (x ∷ xs) le = absurd (omega (arith, le))
  drop_behind (suc n) [] le = refl
  drop_behind (suc n) (x ∷ xs) le = drop_behind n xs (omega (arith, le))

pub overwrite_end :
    (content bytes : Bytes) → overwrite content (length content) bytes ≡ content ++ bytes
overwrite_end content bytes =
    rw
      (
        take_all content,
        drop_behind (length content + length bytes) content (omega arith),
        append-nil bytes,
      )
      refl

pub fwrite_end :
    (w : Writer) (bytes : Bytes)
    → w.position ≡ length w.content
    → fwrite none w bytes
      ≡ (true, record w { content = w.content ++ bytes; position = length (w.content ++ bytes) })
unfolding fwrite
fwrite_end w bytes e =
    ap₂ (λ c p. (true, record w { content = c; position = p }))
      (ap (λ p. overwrite w.content p bytes) e ∙ overwrite_end w.content bytes)
      (ap (λ p. p + length bytes) e ∙ sym (length-append w.content bytes))

pub body-append : (rs ts : List Record) → body (rs ++ ts) ≡ body rs ++ body ts
body-append [] ts = refl
body-append ((b, bytes) ∷ rs) ts =
    ap (λ t. fields_bytes (block_fields b) ++ (bytes ++ t)) (body-append rs ts)
    ∙ ap (λ t. fields_bytes (block_fields b) ++ t) (sym (append_assoc bytes (body rs) (body ts)))
    ∙ sym (append_assoc (fields_bytes (block_fields b)) (bytes ++ body rs) (body ts))

-- One block more.
pub body_one :
    (rs : List Record) (b : Block) (bytes : Bytes)
    → body (rs ++ (b, bytes) ∷ []) ≡ body rs ++ (fields_bytes (block_fields b) ++ bytes)
body_one rs b bytes =
    body-append rs ((b, bytes) ∷ [])
    ∙ ap (λ t. body rs ++ (fields_bytes (block_fields b) ++ t)) (append-nil bytes)

pub total-append :
    (rs : List Record) (b : Block) (bytes : Bytes)
    → total (rs ++ (b, bytes) ∷ []) ≡ total rs + b.candidate_count
total-append [] b bytes = omega arith
total-append ((b', bytes') ∷ rs) b bytes = omega (arith, total-append rs b bytes)

-- A chain is at least as long as one in front of it.
pub length-chain-le :
    (metadata : Metadata) (rs ts : List Record)
    → length (chain metadata rs) ≤ length (chain metadata (rs ++ ts))
length-chain-le metadata rs ts =
    let front = fields_bytes (header_fields (new_header metadata)) in
    omega (
      arith,
      length-append front (body rs),
      length-append front (body (rs ++ ts)),
      ap length (body-append rs ts),
      length-append (body rs) (body ts),
    )
