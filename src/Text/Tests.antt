-- ===== src/Text/Tests.antt =====
-- Arguments that are read.
use sys_agent.Prelude.{◌≡◌, arith, [], ◌∷◌, some, Bytes}
use sys_agent.Search.Value.{encode_unsigned}
use sys_agent.Text.{
  try_parse_string_to_int, parse_string_to_int, or_zero, parse_string_to_byte_buffer, parse_pattern,
}
use sys_agent.Text.Numbers.{
  u64_bytes, encode_unsigned-try_parse_string_to_int, parse_string_to_int-try_parse_string_to_int,
}
use sys_agent.Text.Hex.{hex_text, parse_string_to_byte_buffer-hex_text, parse_pattern-hex_text}

abbrev twelve : Bytes
twelve = b'0' ∷ b'x' ∷ b'C' ∷ []

encode_unsigned-try_parse_string_to_int_example :
    encode_unsigned twelve 8 ≡ u64_bytes (try_parse_string_to_int twelve)
encode_unsigned-try_parse_string_to_int_example = encode_unsigned-try_parse_string_to_int twelve

parse_string_to_int-try_parse_string_to_int_example :
    parse_string_to_int twelve ≡ or_zero (try_parse_string_to_int twelve)
parse_string_to_int-try_parse_string_to_int_example =
    parse_string_to_int-try_parse_string_to_int b'0' (b'x' ∷ b'C' ∷ []) (omega arith)

parse_string_to_byte_buffer-hex_text_example :
    (parse_string_to_byte_buffer (hex_text (0x50 ∷ 0 ∷ [])) ≡ some (0x50 ∷ 0 ∷ []))
    × (parse_string_to_byte_buffer (b'0' ∷ b'x' ∷ hex_text (0x50 ∷ 0 ∷ [])) ≡ some (0x50 ∷ 0 ∷ []))
parse_string_to_byte_buffer-hex_text_example =
    parse_string_to_byte_buffer-hex_text 0x50 (0 ∷ []) (omega arith, (omega arith, tt))

parse_pattern-hex_text_example :
    (parse_pattern (hex_text (0x50 ∷ 0 ∷ [])) ≡ some (0x50 ∷ 0 ∷ []))
    × (parse_pattern (b'0' ∷ b'x' ∷ hex_text (0x50 ∷ 0 ∷ [])) ≡ some (0x50 ∷ 0 ∷ []))
parse_pattern-hex_text_example =
    parse_pattern-hex_text 0x50 (0 ∷ []) (omega arith, (omega arith, tt)) (omega arith)
