-- ===== src/Files.antt =====
-- sys-agent/source/ftp_path.c: FTP paths on the SD card.
pub mod Sandbox
mod Tests
use sys_agent.Prelude.{
  ℕ, ◌+◌, Bool, true, false, not, ◌&&◌, ◌||◌, Option, none, some, List, [], ◌∷◌, ◌++◌, Bytes,
  length, ltb, ◌==◌, if◌then◌else◌,
}
use sys_agent.Config.Ini.{codes, text_eq}
use sys_agent.Libc.{is_empty}

-- `FTP_SD_PREFIX`
abbrev pub sd_prefix : Bytes
sd_prefix = codes "sdmc:"

-- `FTP_SEARCH_PATH`
abbrev pub search_path : Bytes
search_path = codes "/switch/sys-agent/search"

-- `strchr` as a test.
unfoldable pub has_byte : ℕ → Bytes → Bool
has_byte byte [] = false
has_byte byte (c ∷ cs) = c == byte || has_byte byte cs

-- The loop over the segments behind the first slash, with the bytes of the segment read so far: whether one is
-- `..`. A text that ends with a slash has no further segment.
unfoldable pub climbs_from : Bytes → Bytes → Bool
climbs_from segment [] = text_eq segment (b'.' ∷ b'.' ∷ [])
climbs_from segment (c ∷ cs) = elim (c == b'/') [
  | true ↦ text_eq segment (b'.' ∷ b'.' ∷ []) || climbs_from [] cs
  | false ↦ climbs_from (segment ++ (c ∷ [])) cs
]

-- `ftpPathResolve`, for arguments that are not `NULL`: what is written to the output.
unfoldable pub path_resolve : Bytes → ℕ → Option Bytes
path_resolve [] output_size = none
path_resolve (c ∷ cs) output_size =
    if not (c == b'/') || has_byte b':' (c ∷ cs)
    then none
    else if climbs_from [] cs
    then none
    else if ltb output_size (length sd_prefix + length (c ∷ cs) + 1)
    then none
    else some (sd_prefix ++ (c ∷ cs))

-- What stands behind a prefix, if the text begins with it.
unfoldable pub behind : Bytes → Bytes → Option Bytes
behind [] text = some text
behind (p ∷ ps) [] = none
behind (p ∷ ps) (c ∷ cs) = let further = behind ps cs in if p == c then further else none

-- The end of the text or of its first segment.
unfoldable pub ends_segment : Bytes → Bool
ends_segment [] = true
ends_segment (c ∷ cs) = c == b'/'

-- `ftpPathIsSearchStorage`
unfoldable pub is_search_storage : Bytes → Bool
is_search_storage path = elim (behind search_path path) [
  | none ↦ false
  | some rest ↦ ends_segment rest
]

-- `ftpPathCanMutate`
unfoldable pub can_mutate : Bytes → Bool → Bool
can_mutate path search_active = not search_active || not (is_search_storage path)
