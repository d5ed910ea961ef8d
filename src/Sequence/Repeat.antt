-- ===== src/Sequence/Repeat.antt =====
-- sys-agent/source/sequence_repeat.c: the expansion of `(A,W100)*10` and `DDOWN*3`.
-- The input, the size of the output buffer and the click cost do not change during an expansion:
-- they are arguments. A range `[pos, end)` of the input is its start and its bytes, so the test
-- `pos < end` is a match on the bytes. `out` holds the bytes in front of the terminator, and
-- `outLen` is its length. A `false` result carries the fields that `fail` sets.
pub mod Expand
pub mod Reads
pub mod Invariant
pub mod Handoff
use sys_agent.Prelude.{
  ℕ, zero, suc, ◌+◌, ◌-◌, ◌*◌, ◌/◌, ◌%◌, ◌≤◌, ◌<◌, ◌≡◌, Bool, true, false, not, ◌&&◌, ◌||◌, Option,
  none, some, List, [], ◌∷◌, ◌++◌, Bytes, length, get_or, ltb, leb, ◌==◌, if◌then◌else◌,
}
use sys_agent.Prelude.Word.{u64_max, add_u64}

abbrev pub repeat_max_count : ℕ
repeat_max_count = 1000

abbrev pub repeat_max_depth : ℕ
repeat_max_depth = 4

abbrev pub repeat_max_tokens : ℕ
repeat_max_tokens = 1024

pub data ExpandResult : Type 0 where
  expand_ok bad_syntax count_range too_deep too_many_tokens too_long : ExpandResult

-- The fields of `ExpandState` that change while items are expanded.
pub record ExpandState : Type 0 where
  pub out : Bytes
  pub tokens : ℕ
  pub estimated_ms : ℕ
  pub stick_value_next : Bool

-- A `bool` function on the state: `true`, or `false` with the result and the index that `fail`
-- stores. `out_of_fuel` stands for a walk that has not ended.
pub data Outcome : Type 0 where
  continue : ExpandState → Outcome
  failed : ExpandResult → ℕ → ExpandState → Outcome
  out_of_fuel : Outcome

infixl 5 ◌>>=◌
abbrev pub ◌>>=◌ : Outcome → (ExpandState → Outcome) → Outcome
continue s >>= f = f s
failed r i s >>= f = failed r i s
out_of_fuel >>= f = out_of_fuel

-- A function that reads the input and may `fail`.
pub data Scan (A : Type 0) : Type 0 where
  found : A → Scan A
  refused : ExpandResult → ℕ → Scan A

pub is_digit : ℕ → Bool
is_digit value = leb b'0' value && leb value b'9'

unfoldable pub is_control_byte : ℕ → Bool
is_control_byte byte = ltb byte 0x20 || byte == 0x7F

-- The value of a digit in `parseWaitMs`.
unfoldable pub wait_digit : ℕ → ℕ → Option ℕ
wait_digit base byte =
    if leb b'0' byte && leb byte b'9'
    then some (byte - b'0')
    else if base == 16 && leb b'a' byte && leb byte b'f'
    then some (byte - b'a' + 10)
    else if base == 16 && leb b'A' byte && leb byte b'F'
    then some (byte - b'A' + 10)
    else none

-- The loop of `parseWaitMs`, from the value so far.
unfoldable pub wait_digits : ℕ → ℕ → Bytes → ℕ
unfolding wait_digit
wait_digits base value [] = value
wait_digits base value (byte ∷ bytes) = elim (wait_digit base byte) [
  | none ↦ 0
  | some digit ↦ elim (ltb ((u64_max - digit) / base) value) [
    | true ↦ u64_max
    | false ↦ wait_digits base (value * base + digit) bytes
  ]
]

-- `parseWaitMs`, on the bytes behind the `W`.
unfoldable pub parse_wait_ms : Bytes → ℕ
unfolding wait_digits
parse_wait_ms (zero_digit ∷ x ∷ bytes) =
    if zero_digit == b'0' && (x == b'x' || x == b'X')
    then wait_digits 16 0 bytes
    else wait_digits 10 0 (zero_digit ∷ x ∷ bytes)
parse_wait_ms bytes = wait_digits 10 0 bytes

module _ (click_cost_ms : ℕ) where
  -- `tokenCostMs`: the cost, and the new `stickValueNext`. A token is not empty.
  unfoldable pub token_cost_ms : Bool → Bytes → ℕ × Bool
  token_cost_ms true token = (0, false)
  token_cost_ms false [] = (click_cost_ms, false)
  token_cost_ms false (first ∷ bytes) =
      if first == b'W'
      then (parse_wait_ms bytes, false)
      else if first == b'+' || first == b'-'
      then (0, false)
      else if first == b'%' || first == b'&'
      then (0, true)
      else (click_cost_ms, false)

module _ (out_size click_cost_ms : ℕ) where
  -- The bytes that `emitToken` appends: a comma in front of all tokens but the first.
  unfoldable pub appended : ExpandState → Bytes → Bytes
  appended s token = if s.tokens == 0 then s.out ++ token else s.out ++ (b',' ∷ token)

  -- `emitToken`; `begin` is the token's index in the input.
  unfoldable pub emit_token : ℕ → Bytes → ExpandState → Outcome
  unfolding appended
  emit_token begin token s =
      if ltb repeat_max_tokens (s.tokens + 1)
      then failed too_many_tokens begin s
      else if ltb out_size (length s.out + (length token + (if s.tokens == 0 then 0 else 1) + 1))
      then failed too_long begin s
      else let (cost, stick) = token_cost_ms click_cost_ms s.stick_value_next token in
        continue (record {
          out = appended s token;
          tokens = s.tokens + 1;
          estimated_ms = add_u64 s.estimated_ms cost;
          stick_value_next = stick;
        })

  -- The loop that emits one token `count` times.
  unfoldable pub emit_rounds : ℕ → ℕ → Bytes → ExpandState → Outcome
  emit_rounds zero begin token s = continue s
  emit_rounds (suc count) begin token s =
      emit_token begin token s >>= λ s'. emit_rounds count begin token s'

-- The loop that expands a group's body `count` times. After the first round a body that emitted
-- nothing is refused.
unfoldable pub group_rounds : (ExpandState → Outcome) → ℕ → ℕ → Bool → ℕ → ExpandState → Outcome
group_rounds body item_start emitted first zero s = continue s
group_rounds body item_start emitted first (suc count) s = body s >>= λ s'.
    elim (first && s'.tokens == emitted) [
      | true ↦ failed bad_syntax item_start s'
      | false ↦ group_rounds body item_start emitted false count s'
    ]
