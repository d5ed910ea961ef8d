-- ===== src/Libc.antt =====
-- The C library functions that the sources call: `isspace`, and `strtoull` in base 10 or 16 (which
-- is also `strtoul` where `unsigned long` has 64 bits). A text is its bytes up to the terminator.
pub mod Digits
pub mod Decimal
use sys_agent.Prelude.{
  ℕ, zero, suc, ◌+◌, ◌-◌, ◌*◌, ◌/◌, ◌%◌, ◌≤◌, ◌<◌, ◌≡◌, Bool, true, false, not, ◌&&◌, ◌||◌, Option,
  none, some, List, [], ◌∷◌, ◌++◌, Bytes, length, get_or, ltb, leb, ◌==◌, if◌then◌else◌,
}
use sys_agent.Prelude.Word.{u64_mod, u64_max}

-- `isspace` in the C locale.
unfoldable pub is_space : ℕ → Bool
is_space c = c == b' ' || leb 9 c && leb c 13

-- The value of a digit in the base, if it is one.
unfoldable pub digit_value : ℕ → ℕ → Option ℕ
digit_value base c =
    if leb b'0' c && leb c b'9'
    then some (c - b'0')
    else if base == 16 && leb b'a' c && leb c b'f'
    then some (c - b'a' + 10)
    else if base == 16 && leb b'A' c && leb c b'F'
    then some (c - b'A' + 10)
    else none

unfoldable pub skip_space : Bytes → Bytes
unfolding is_space
skip_space [] = []
skip_space (c ∷ cs) = elim (is_space c) [ true ↦ skip_space cs | false ↦ c ∷ cs ]

-- The digits in front: their value onto the one so far, and the text behind them.
unfoldable pub read_digits : ℕ → ℕ → Bytes → ℕ × Bytes
unfolding digit_value
read_digits base value [] = (value, [])
read_digits base value (c ∷ cs) = elim (digit_value base c) [
  | none ↦ (value, c ∷ cs)
  | some d ↦ read_digits base (value * base + d) cs
]

-- Whether a digit stands in front.
unfoldable pub starts_with_digit : ℕ → Bytes → Bool
unfolding digit_value
starts_with_digit base [] = false
starts_with_digit base (c ∷ cs) = elim (digit_value base c) [ none ↦ false | some d ↦ true ]

-- An optional sign: whether it is a minus, and the text behind it.
unfoldable pub read_sign : Bytes → Bool × Bytes
read_sign [] = (false, [])
read_sign (c ∷ cs) =
    if c == b'-' then (true, cs) else if c == b'+' then (false, cs) else (false, c ∷ cs)

-- In base 16 a `0x` in front of a digit is skipped.
unfoldable pub skip_prefix : ℕ → Bytes → Bytes
unfolding starts_with_digit
skip_prefix base (c ∷ x ∷ cs) =
    if base == 16 && c == b'0' && (x == b'x' || x == b'X') && starts_with_digit 16 cs
    then cs
    else c ∷ x ∷ cs
skip_prefix base text = text

-- What a call of `strtoull` gives: the value, the text at `*end`, whether `end` moved, and whether
-- `errno` is `ERANGE`.
pub record Parsed : Type 0 where
  pub value : ℕ
  pub rest : Bytes
  pub moved : Bool
  pub out_of_range : Bool

-- `strtoull`: a number behind a minus is negated in 64 bits.
unfoldable pub strtoull : Bytes → ℕ → Parsed
unfolding skip_space read_sign skip_prefix read_digits starts_with_digit
strtoull text base =
    let (negative, signless) = read_sign (skip_space text) in
    let digits = skip_prefix base signless in
    let (value, rest) = read_digits base 0 digits in
    if not (starts_with_digit base digits)
    then record { value = 0; rest = text; moved = false; out_of_range = false }
    else if ltb u64_max value
    then record { value = u64_max; rest = rest; moved = true; out_of_range = true }
    else record {
      value = if negative then (u64_mod - value) % u64_mod else value;
      rest = rest;
      moved = true;
      out_of_range = false;
    }

-- Whether the text is empty.
unfoldable pub is_empty : Bytes → Bool
is_empty [] = true
is_empty (c ∷ cs) = false

-- The sequence that the sources repeat: `errno = 0; value = strtoull(text, &end, base);`, refused if
-- `errno != 0 || end == text || *end != 0`.
unfoldable pub strtoull_whole : Bytes → ℕ → Option ℕ
unfolding is_empty
strtoull_whole text base =
    let p = strtoull text base in
    if p.out_of_range || not p.moved || not (is_empty p.rest) then none else some p.value

-- The base and the digits of a text: 16 behind `0x` or `0X`, else 10.
unfoldable pub split_base : Bytes → ℕ × Bytes
split_base (c ∷ x ∷ cs) =
    if c == b'0' && (x == b'x' || x == b'X') then (16, cs) else (10, c ∷ x ∷ cs)
split_base text = (10, text)
