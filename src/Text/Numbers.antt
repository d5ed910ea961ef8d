-- ===== src/Text/Numbers.antt =====
-- The number parsers agree.
use sys_agent.Prelude.{
  ℕ, ◌≡◌, ◌≢◌, refl, arith, true, Option, none, some, [], ◌∷◌, Bytes, if◌then◌else◌,
}
use sys_agent.Libc.{strtoull_whole, split_base, is_empty}
use sys_agent.Text.{try_parse_string_to_int, parse_string_to_int, or_zero}
use sys_agent.Search.Value.{
  encode_unsigned, encode_text, encode_parsed, width_is_valid, value_bytes,
}

-- The eight bytes of a number.
abbrev pub u64_bytes : Option ℕ → Option Bytes
u64_bytes none = none
u64_bytes (some n) = some (value_bytes 8 0 n)

u64_width : width_is_valid 8 ≡ true
unfolding width_is_valid
u64_width = refl

encode_parsed_8 : (o : Option ℕ) → encode_parsed o 8 ≡ u64_bytes o
unfolding encode_parsed
encode_parsed_8 none = refl
encode_parsed_8 (some n) = refl

-- The number behind the first test.
abbrev whole : Bytes → Option ℕ
whole text =
    if is_empty (split_base text).1
    then none
    else strtoull_whole (split_base text).1 (split_base text).0

encode_text_8 : (c : ℕ) (cs : Bytes) → encode_text (c ∷ cs) 8 ≡ u64_bytes (whole (c ∷ cs))
unfolding encode_text split_base is_empty
encode_text_8 c [] = encode_parsed_8 (strtoull_whole (c ∷ []) 10)
encode_text_8 c (x ∷ []) = ground (arith, encode_parsed_8 (strtoull_whole (c ∷ x ∷ []) 10))
encode_text_8 c (x ∷ d ∷ digits) = ground (
  arith,
  encode_parsed_8 (strtoull_whole (c ∷ x ∷ d ∷ digits) 10),
  encode_parsed_8 (strtoull_whole (d ∷ digits) 16),
)

-- On every text, the value of a search for an 8-byte number is encoded exactly if the command parser
-- accepts it, and then from the number that this parser reads.
pub encode_unsigned-try_parse_string_to_int :
    (text : Bytes) → encode_unsigned text 8 ≡ u64_bytes (try_parse_string_to_int text)
unfolding encode_unsigned try_parse_string_to_int
encode_unsigned-try_parse_string_to_int [] = refl
encode_unsigned-try_parse_string_to_int (c ∷ cs) = ground (arith, u64_width, encode_text_8 c cs)

-- On a text that does not begin with a minus, the lenient parser reads what the strict one accepts, and 0
-- where that refuses.
pub parse_string_to_int-try_parse_string_to_int :
    (c : ℕ) (cs : Bytes)
    → c ≢ b'-'
    → parse_string_to_int (c ∷ cs) ≡ or_zero (try_parse_string_to_int (c ∷ cs))
unfolding parse_string_to_int try_parse_string_to_int is_empty or_zero
parse_string_to_int-try_parse_string_to_int c cs ne = ground arith
