-- ===== src/Store/Tests.antt =====
-- Files of the search store at work.
use sys_agent.Prelude.{zero, suc, ◌≡◌, ◌≤◌, refl, arith, true, false, none, some, [], ◌∷◌, length}
use sys_agent.Search.Compare.Filter.{IsMask}
use sys_agent.Store.Crc.{crc_bits, crc_from, crc32}
use sys_agent.Store.Commit.{Names, Answers, Committed, commit, is_stored, commit-Committed}
use sys_agent.Store.Directory.{prepare_directory}
use sys_agent.Store.Estimate.{estimate_maximum, length-finished-le-estimate_maximum}
use sys_agent.Store.File.{Metadata}
use sys_agent.Store.Reader.RoundTrip.{IsReadBack, reader_next-add_block}
use sys_agent.Store.Reader.Addresses.Whole.{IsPaged, read_addresses-page}
use sys_agent.Store.Writer.Chain.{BlockInput, IsInput, records}
use sys_agent.Store.Writer.Index.{finished}

-- The checksum of "123456789".
crc32_check : crc32 (b'1' ∷ b'2' ∷ b'3' ∷ b'4' ∷ b'5' ∷ b'6' ∷ b'7' ∷ b'8' ∷ b'9' ∷ []) ≡ 0xCBF43926
unfolding crc32 crc_from crc_bits
crc32_check = refl

abbrev metadata : Metadata
metadata = record {
  process_id = 80;
  title_id = 0x0100000000010000;
  start = 0x8000;
  end = 0x9000;
  region_base = 0x8000;
  region_offset = 0;
  alignment = 4;
  generation = 1;
  type = 1;
  region = 2;
  backend = 1;
  width = 2;
  build_id = 7;
}

-- The second and the third of three slots.
abbrev masked : BlockInput
masked = record {
  base = 0x8000;
  slots = 3;
  values = 1 ∷ 0 ∷ 2 ∷ 0 ∷ 3 ∷ 0 ∷ [];
  mask = some (6 ∷ []);
}

abbrev plain : BlockInput
plain = record { base = 0x8100; slots = 1; values = 9 ∷ 9 ∷ []; mask = none }

masked-IsMask : IsMask (6 ∷ [])
masked-IsMask zero = omega arith
masked-IsMask (suc i) = omega arith

masked-IsInput : IsInput 2 masked
masked-IsInput = record {
  base = omega arith;
  slots = omega arith;
  small = omega arith;
  values = refl;
  masked = (refl, masked-IsMask);
}

plain-IsInput : IsInput 2 plain
plain-IsInput = record {
  base = omega arith;
  slots = omega arith;
  small = omega arith;
  values = refl;
  masked = tt;
}

reader_next-add_block_example : IsReadBack 0x40008 0x8001 (b'a' ∷ []) metadata (masked ∷ plain ∷ [])
reader_next-add_block_example =
    reader_next-add_block 0x40008 0x8001 (b'a' ∷ []) metadata (masked ∷ plain ∷ []) (omega arith)
      (omega arith) (omega arith) (omega arith) (omega arith) (omega arith)
      (masked-IsInput, (plain-IsInput, tt)) (omega arith)

read_addresses-page_example : IsPaged (b'a' ∷ []) metadata (masked ∷ plain ∷ []) 1 2
read_addresses-page_example =
    read_addresses-page (b'a' ∷ []) metadata (masked ∷ plain ∷ []) 1 2 (omega arith) (omega arith)
      (omega arith) (omega arith) (masked-IsInput, (plain-IsInput, tt)) (omega arith)

-- There was a file, and the new one cannot be renamed.
abbrev before : Names
before = record { temporary = some (2 ∷ []); current = some (1 ∷ []); backup = none }

abbrev refusing : Answers
refusing = record {
  removed = false;
  saved = true;
  replaced = false;
  restored = true;
  cleaned = true;
}

commit-Committed_example :
    Committed refusing before (commit refusing (is_stored before.current) before)
commit-Committed_example = commit-Committed refusing before

length-finished-le-estimate_maximum_example :
    length (finished metadata (records metadata 0 (plain ∷ []))) ≤ estimate_maximum 0x1000 4 2
length-finished-le-estimate_maximum_example =
    length-finished-le-estimate_maximum metadata (plain ∷ []) 0x1000 (omega arith) (omega arith)
      (omega arith) (omega arith) (omega arith) (plain-IsInput, tt) (refl, tt) (omega arith)
      (omega arith) (omega arith)

-- The directories of `sd:/a/b` are made from the front.
prepared :
    prepare_directory (λ path. true) (b's' ∷ b'd' ∷ b':' ∷ b'/' ∷ b'a' ∷ b'/' ∷ b'b' ∷ []) ≡ (
      true,
      (b's' ∷ b'd' ∷ b':' ∷ b'/' ∷ b'a' ∷ [])
          ∷ (b's' ∷ b'd' ∷ b':' ∷ b'/' ∷ b'a' ∷ b'/' ∷ b'b' ∷ [])
          ∷ [],
    )
unfolding prepare_directory
prepared = refl
