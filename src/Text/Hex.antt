-- ===== src/Text/Hex.antt =====
-- Bytes that are written in hexadecimal are read back.
use sys_agent.Prelude.{
  ℕ, ◌+◌, ◌-◌, ◌*◌, ◌/◌, ◌%◌, ◌≤◌, ◌<◌, ◌≡◌, refl, ap, arith, Bool, true, false, not, ◌&&◌, ◌||◌,
  Option, none, some, [], ◌∷◌, Bytes, All, length, ltb, ◌==◌, if◌then◌else◌, all_below,
  all_below_sound,
}
use sys_agent.Libc.{
  strtoull, split_base, digit_value, skip_space, read_sign, skip_prefix, read_digits,
  starts_with_digit, is_space,
}
use sys_agent.Text.{
  is_hex_digit, all_hex_digits, payload_of, pairs_to_bytes, parse_string_to_byte_buffer,
  max_pattern_size, hex_nibble, join_nibbles, nibbles_to_bytes, parse_pattern, to_lower,
}

-- A digit in lower case.
abbrev pub hex_digit : ℕ → ℕ
hex_digit n = if ltb n 10 then b'0' + n else b'a' + (n - 10)

-- The text of bytes, two digits each.
abbrev pub hex_text : Bytes → Bytes
hex_text [] = []
hex_text (b ∷ bs) = hex_digit (b / 16) ∷ hex_digit (b % 16) ∷ hex_text bs

abbrev pub IsByte : ℕ → Type 0
IsByte b = b < 256

-- The byte of the option, or 256.
abbrev byte_or_none : Option ℕ → ℕ
byte_or_none none = 256
byte_or_none (some b) = b

abbrev reads_back : ℕ → Bool
reads_back b =
    is_hex_digit (hex_digit (b / 16))
    && is_hex_digit (hex_digit (b % 16))
    && (strtoull (hex_digit (b / 16) ∷ hex_digit (b % 16) ∷ []) 16).value % 256 == b
    && byte_or_none
        (join_nibbles (hex_nibble (hex_digit (b / 16))) (hex_nibble (hex_digit (b % 16))))
      == b

table : all_below 256 reads_back ≡ true
unfolding all_below is_hex_digit strtoull digit_value skip_space read_sign skip_prefix read_digits
    starts_with_digit is_space join_nibbles hex_nibble to_lower
table = refl

some_of : (o : Option ℕ) (b : ℕ) → IsByte b → byte_or_none o ≡ b → o ≡ some b
some_of none b h e = absurd (omega arith)
some_of (some a) b h e = ap some e

byte_reads_back :
    (b : ℕ)
    → IsByte b
    → (is_hex_digit (hex_digit (b / 16)) ≡ true)
      × (is_hex_digit (hex_digit (b % 16)) ≡ true)
      × ((strtoull (hex_digit (b / 16) ∷ hex_digit (b % 16) ∷ []) 16).value % 256 ≡ b)
      × (join_nibbles (hex_nibble (hex_digit (b / 16))) (hex_nibble (hex_digit (b % 16))) ≡ some b)
byte_reads_back b h =
    let t = all_below_sound 256 reads_back b table h in
    (ground (arith, t), ground (arith, t), ground (arith, t), some_of _ b h (ground (arith, t)))

length-hex_text : (bs : Bytes) → length (hex_text bs) ≡ 2 * length bs
length-hex_text [] = refl
length-hex_text (b ∷ bs) = omega (arith, length-hex_text bs)

all_hex_digits-hex_text : (bs : Bytes) → All IsByte bs → all_hex_digits (hex_text bs) ≡ true
unfolding all_hex_digits
all_hex_digits-hex_text [] h = refl
all_hex_digits-hex_text (b ∷ bs) h =
    rw ((byte_reads_back b h.0).0, (byte_reads_back b h.0).1) (all_hex_digits-hex_text bs h.1)

pairs_to_bytes-hex_text : (bs : Bytes) → All IsByte bs → pairs_to_bytes (hex_text bs) ≡ bs
unfolding pairs_to_bytes
pairs_to_bytes-hex_text [] h = refl
pairs_to_bytes-hex_text (b ∷ bs) h = rw ((byte_reads_back b h.0).2, pairs_to_bytes-hex_text bs h.1)

nibbles_to_bytes-hex_text : (bs : Bytes) → All IsByte bs → nibbles_to_bytes (hex_text bs) ≡ some bs
unfolding nibbles_to_bytes
nibbles_to_bytes-hex_text [] h = refl
nibbles_to_bytes-hex_text (b ∷ bs) h =
    rw ((byte_reads_back b h.0).3, nibbles_to_bytes-hex_text bs h.1, nibbles_to_bytes) refl

-- No digit is the `x` of a prefix.
hex_digit_ne_x : (n : ℕ) → n < 16 → (hex_digit n == b'x' || hex_digit n == b'X') ≡ false
hex_digit_ne_x n h = ground arith

split_base-hex_text : (bs : Bytes) → All IsByte bs → split_base (hex_text bs) ≡ (10, hex_text bs)
unfolding split_base
split_base-hex_text [] h = refl
split_base-hex_text (b ∷ bs) h = ground (arith, hex_digit_ne_x (b % 16) (omega arith))

payload_of-hex_text : (bs : Bytes) → All IsByte bs → payload_of (hex_text bs) ≡ hex_text bs
unfolding payload_of
payload_of-hex_text [] h = refl
payload_of-hex_text (b ∷ []) h = refl
payload_of-hex_text (b ∷ c ∷ bs) h = ground (arith, hex_digit_ne_x (b % 16) (omega arith))

-- What the parser makes of a payload.
payload_reads :
    (text : Bytes) (b : ℕ) (bs : Bytes)
    → All IsByte (b ∷ bs)
    → payload_of text ≡ hex_text (b ∷ bs)
    → parse_string_to_byte_buffer text ≡ some (b ∷ bs)
unfolding parse_string_to_byte_buffer
payload_reads text b bs h e =
    let n = length-hex_text (b ∷ bs) in
    let even : (length (hex_text (b ∷ bs)) == 0 || not (length (hex_text (b ∷ bs)) % 2 == 0))
        ≡ false =
      ground (arith, n) in
    rw (e, even, all_hex_digits-hex_text (b ∷ bs) h, pairs_to_bytes-hex_text (b ∷ bs) h) refl

pattern_reads :
    (text : Bytes) (base b : ℕ) (bs : Bytes)
    → All IsByte (b ∷ bs)
    → length (b ∷ bs) ≤ max_pattern_size
    → split_base text ≡ (base, hex_text (b ∷ bs))
    → parse_pattern text ≡ some (b ∷ bs)
unfolding parse_pattern
pattern_reads text base b bs h small e =
    let n = length-hex_text (b ∷ bs) in
    let fits : (length (hex_text (b ∷ bs)) == 0
          || not (length (hex_text (b ∷ bs)) % 2 == 0)
          || ltb max_pattern_size (length (hex_text (b ∷ bs)) / 2))
        ≡ false =
      ground (arith, n) in
    rw (e, fits) (nibbles_to_bytes-hex_text (b ∷ bs) h)

-- Some bytes that are written in hexadecimal, with a prefix `0x` or without, are read back by the
-- argument parser.
pub parse_string_to_byte_buffer-hex_text :
    (b : ℕ) (bs : Bytes)
    → All IsByte (b ∷ bs)
    → (parse_string_to_byte_buffer (hex_text (b ∷ bs)) ≡ some (b ∷ bs))
      × (parse_string_to_byte_buffer (b'0' ∷ b'x' ∷ hex_text (b ∷ bs)) ≡ some (b ∷ bs))
parse_string_to_byte_buffer-hex_text b bs h = (
  payload_reads _ b bs h (payload_of-hex_text (b ∷ bs) h),
  payload_reads _ b bs h (unfold payload_of in refl),
)

-- Between 1 and 256 bytes that are written in hexadecimal, with a prefix `0x` or without, are read back by the
-- pattern parser of the search.
pub parse_pattern-hex_text :
    (b : ℕ) (bs : Bytes)
    → All IsByte (b ∷ bs)
    → length (b ∷ bs) ≤ max_pattern_size
    → (parse_pattern (hex_text (b ∷ bs)) ≡ some (b ∷ bs))
      × (parse_pattern (b'0' ∷ b'x' ∷ hex_text (b ∷ bs)) ≡ some (b ∷ bs))
parse_pattern-hex_text b bs h small = (
  pattern_reads _ 10 b bs h small (split_base-hex_text (b ∷ bs) h),
  pattern_reads _ 16 b bs h small (unfold split_base in refl),
)
