-- ===== src/Store/Crc.antt =====
-- `searchStoreCrc32` of sys-agent/source/search_store.c.
use sys_agent.Prelude.{ℕ, zero, suc, ◌-◌, ◌/◌, ◌%◌, [], ◌∷◌, Bytes, ◌==◌, if◌then◌else◌, bit_xor}
use sys_agent.Prelude.Word.{u32_max}

-- The loop over the bits of a byte.
unfoldable pub crc_bits : ℕ → ℕ → ℕ
crc_bits zero crc = crc
crc_bits (suc n) crc = crc_bits n (bit_xor (crc / 2) (if crc % 2 == 0 then 0 else 0xEDB88320))

-- The loop over the bytes.
unfoldable pub crc_from : ℕ → Bytes → ℕ
crc_from crc [] = crc
crc_from crc (b ∷ bytes) = crc_from (crc_bits 8 (bit_xor crc b)) bytes

-- `searchStoreCrc32`
unfoldable pub crc32 : Bytes → ℕ
crc32 bytes = u32_max - crc_from u32_max bytes
