-- ===== src/Text.antt =====
-- How command arguments are read: the number parsers and `parseStringToByteBuffer` of
-- sys-agent/source/util.c, and `parsePattern` of sys-agent/source/search.c.
pub mod Hex
pub mod Numbers
mod Tests
use sys_agent.Prelude.{
  ℕ, ◌+◌, ◌-◌, ◌*◌, ◌/◌, ◌%◌, Bool, true, false, not, ◌&&◌, ◌||◌, Option, none, some, List, [], ◌∷◌,
  Bytes, length, ltb, leb, ◌==◌, if◌then◌else◌,
}
use sys_agent.Libc.{strtoull, strtoull_whole, split_base, is_empty}

-- `tryParseStringToInt`, for an argument that is not `NULL`.
unfoldable pub try_parse_string_to_int : Bytes → Option ℕ
try_parse_string_to_int [] = none
try_parse_string_to_int (c ∷ cs) =
    if c == b'-'
    then none
    else let (base, digits) = split_base (c ∷ cs) in
      if is_empty digits then none else strtoull_whole digits base

-- A number, or 0.
unfoldable pub or_zero : Option ℕ → ℕ
or_zero none = 0
or_zero (some n) = n

-- `parseStringToInt`, for an argument that is not `NULL`.
unfoldable pub parse_string_to_int : Bytes → ℕ
parse_string_to_int text =
    if is_empty text
    then 0
    else let (base, digits) = split_base text in
      if is_empty digits then 0 else or_zero (strtoull_whole digits base)

-- `isHexDigit` of `parseStringToByteBuffer`.
unfoldable pub is_hex_digit : ℕ → Bool
is_hex_digit c = leb b'0' c && leb c b'9' || leb b'a' c && leb c b'f' || leb b'A' c && leb c b'F'

-- The loop over the characters.
unfoldable pub all_hex_digits : Bytes → Bool
all_hex_digits [] = true
all_hex_digits (c ∷ cs) = is_hex_digit c && all_hex_digits cs

-- A prefix `0x` in front of something.
unfoldable pub payload_of : Bytes → Bytes
payload_of (c ∷ x ∷ d ∷ cs) =
    if c == b'0' && (x == b'x' || x == b'X') then d ∷ cs else c ∷ x ∷ d ∷ cs
payload_of text = text

-- The loop over the pairs of characters.
unfoldable pub pairs_to_bytes : Bytes → Bytes
pairs_to_bytes (a ∷ b ∷ rest) = (strtoull (a ∷ b ∷ []) 16).value % 256 ∷ pairs_to_bytes rest
pairs_to_bytes text = []

-- `parseStringToByteBuffer`, for arguments that are not `NULL`, a text of fewer than 2^31 bytes, whose length is an `int`,
-- and a buffer that is allocated.
unfoldable pub parse_string_to_byte_buffer : Bytes → Option Bytes
parse_string_to_byte_buffer text =
    let payload = payload_of text in
    if length payload == 0 || not (length payload % 2 == 0)
    then none
    else if not (all_hex_digits payload)
    then none
    else some (pairs_to_bytes payload)

-- `SEARCH_MAX_PATTERN_SIZE`
abbrev pub max_pattern_size : ℕ
max_pattern_size = 256

-- `tolower` in the C locale.
unfoldable pub to_lower : ℕ → ℕ
to_lower c = if leb b'A' c && leb c b'Z' then c + 32 else c

-- `hexNibble`
unfoldable pub hex_nibble : ℕ → Option ℕ
hex_nibble c =
    let lower = to_lower c in
    if leb b'0' c && leb c b'9'
    then some (c - b'0')
    else if leb b'a' lower && leb lower b'f'
    then some (lower - b'a' + 10)
    else none

-- The byte of two nibbles; `high << 4 | low` is a sum.
unfoldable pub join_nibbles : Option ℕ → Option ℕ → Option ℕ
join_nibbles (some high) (some low) = some (high * 16 + low)
join_nibbles (some high) none = none
join_nibbles none low = none

-- The loop of `parsePattern`.
unfoldable pub nibbles_to_bytes : Bytes → Option Bytes
nibbles_to_bytes (a ∷ b ∷ rest) =
    let further = nibbles_to_bytes rest in
    elim (join_nibbles (hex_nibble a) (hex_nibble b)) [
      | none ↦ none
      | some byte ↦ elim further [ none ↦ none | some bytes ↦ some (byte ∷ bytes) ]
    ]
nibbles_to_bytes text = some []

-- `parsePattern`, for an argument that is not `NULL`.
unfoldable pub parse_pattern : Bytes → Option Bytes
parse_pattern text =
    let (base, payload) = split_base text in
    if length payload == 0
      || not (length payload % 2 == 0)
      || ltb max_pattern_size (length payload / 2)
    then none
    else nibbles_to_bytes payload
