-- ===== src/Jpeg/Code.antt =====
-- The Huffman tables of sys-agent/source/jpeg_dc.c: `JpegHuffman`, and the canonical codes that `jpegParseHuffman`
-- assigns.
use sys_agent.Prelude.{
  ℕ, ◌+◌, ◌-◌, ◌*◌, Bool, Option, none, some, List, [], ◌∷◌, Bytes, ◌==◌, if◌then◌else◌,
}

-- The codes of one length: `minCode`, `maxCode` and `valPtr`, which are -1 for a length without codes.
pub record CodeRange : Type 0 where
  pub min_code : ℕ
  pub max_code : ℕ
  pub val_ptr : ℕ

-- `JpegHuffman`: `codes` has an entry for each length from 1 to 16.
pub record Huffman : Type 0 where
  pub present : Bool
  pub symbols : Bytes
  pub codes : List (Option CodeRange)

-- The loop that assigns the codes, from the first code of a length and the index of its first symbol. An int32_t
-- holds every code, as 16 counts of at most 255 stay below 2 ^ 25.
unfoldable pub assign_codes : ℕ → ℕ → List ℕ → List (Option CodeRange)
assign_codes code index [] = []
assign_codes code index (n ∷ counts) =
    (if n == 0
      then none
      else some (record { min_code = code; max_code = code + n - 1; val_ptr = index }))
    ∷ assign_codes ((code + n) * 2) (index + n) counts
