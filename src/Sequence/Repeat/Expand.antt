-- ===== src/Sequence/Repeat/Expand.antt =====
-- sys-agent/source/sequence_repeat.c: `parseCount`, `expandItems` and `sequenceExpand`.
use sys_agent.Prelude.{
  ℕ, zero, suc, ◌+◌, ◌-◌, ◌*◌, Bool, true, false, not, ◌||◌, Option, none, some, [], ◌∷◌, Bytes,
  length, ltb, ◌==◌, if◌then◌else◌,
}
use sys_agent.Sequence.Repeat.{
  repeat_max_count, repeat_max_depth, ExpandResult, expand_ok, bad_syntax, count_range, too_deep,
  too_long, ExpandState, Outcome, continue, failed, out_of_fuel, ◌>>=◌, Scan, found, refused,
  is_digit, is_control_byte, emit_rounds, group_rounds,
}

-- What the walker found at an item's start, and where it stands behind it.
pub data Item : Type 0 where
  -- the index and the bytes of a group's body
  group : ℕ → Bytes → Item
  -- the index and the bytes of a token, which may be empty
  token : ℕ → Bytes → Item

-- A position of the walk: an index and the bytes from there to the end of the range.
pub record Place : Type 0 where
  pub pos : ℕ
  pub rest : Bytes

-- The loop that finds the `)` which closes a group: the body, and the place behind the `)`.
unfoldable pub find_close : ℕ → ℕ → ℕ → Bytes → Scan (Bytes × Place)
unfolding is_control_byte
find_close opening cursor nesting [] = refused bad_syntax opening
find_close opening cursor nesting (value ∷ rest) =
    let nesting' =
      if value == b'(' then nesting + 1 else if value == b')' then nesting - 1 else nesting in
    let further : Scan (Bytes × Place) = elim (find_close opening (cursor + 1) nesting' rest) [
      | found (body, place) ↦ found (value ∷ body, place)
      | refused r i ↦ refused r i
    ] in
    if is_control_byte value
    then refused bad_syntax cursor
    else if nesting' == 0
    then found ([], record { pos = cursor + 1; rest = rest })
    else further

-- A token ends at a comma, a star or a `)`.
abbrev pub ends_token : ℕ → Bool
ends_token value = value == b',' || value == b'*' || value == b')'

-- The loop over a token's bytes: the token, and the place behind it.
unfoldable pub read_token : ℕ → Bytes → Scan (Bytes × Place)
unfolding is_control_byte
read_token pos [] = found ([], record { pos = pos; rest = [] })
read_token pos (value ∷ rest) =
    let further : Scan (Bytes × Place) = elim (read_token (pos + 1) rest) [
      | found (bytes, place) ↦ found (value ∷ bytes, place)
      | refused r i ↦ refused r i
    ] in
    if ends_token value
    then found ([], record { pos = pos; rest = value ∷ rest })
    else if is_control_byte value
    then refused bad_syntax pos
    else further

-- The first half of the loop's body: an item in front of its count.
unfoldable pub read_item : ℕ → ℕ → Bytes → Scan (Item × Place)
unfolding find_close read_token
read_item depth pos [] = found (token pos [], record { pos = pos; rest = [] })
read_item depth pos (value ∷ rest) =
    let grouped : Scan (Item × Place) = elim (find_close pos (pos + 1) 1 rest) [
      | found (body, place) ↦ found (group (pos + 1) body, place)
      | refused r i ↦ refused r i
    ] in
    let plain : Scan (Item × Place) = elim (read_token pos (value ∷ rest)) [
      | found (bytes, place) ↦ found (token pos bytes, place)
      | refused r i ↦ refused r i
    ] in
    if value == b'('
    then (if ltb repeat_max_depth (depth + 1) then refused too_deep pos else grouped)
    else if value == b')'
    then refused bad_syntax pos
    else plain

-- The digits loop of `parseCount`: the value and the number of digits, and the place behind them.
unfoldable pub count_digits : ℕ → ℕ → ℕ → ℕ → Bytes → Scan (ℕ × ℕ × Place)
unfolding is_digit
count_digits star value digits pos [] = found (value, digits, record { pos = pos; rest = [] })
count_digits star value digits pos (byte ∷ rest) =
    let value' = value * 10 + (byte - b'0') in
    let further = count_digits star value' (digits + 1) (pos + 1) rest in
    if is_digit byte
    then (if ltb repeat_max_count value' then refused count_range star else further)
    else found (value, digits, record { pos = pos; rest = byte ∷ rest })

-- `parseCount`; `star` is the index of the `*`, and the bytes are those behind it.
unfoldable pub parse_count : ℕ → Bytes → Scan (ℕ × Place)
unfolding count_digits
parse_count star bytes = elim (count_digits star 0 0 (star + 1) bytes) [
  | refused r i ↦ refused r i
  | found (value, digits, place) ↦
      if digits == 0
      then refused bad_syntax star
      else if value == 0
      then refused count_range star
      else found (value, place)
]

-- `!group && tokenEnd == tokenBegin`
unfoldable pub is_empty_token : Item → Bool
is_empty_token (group pos body) = false
is_empty_token (token pos []) = true
is_empty_token (token pos (c ∷ cs)) = false

-- The count behind an item: 1 without a `*`.
unfoldable pub read_count : Item → ℕ → ℕ → Bytes → Scan (ℕ × Place)
unfolding parse_count is_empty_token
read_count item item_start pos [] = found (1, record { pos = pos; rest = [] })
read_count item item_start pos (value ∷ rest) =
    let counted : Scan (ℕ × Place) = elim (parse_count pos rest) [
      | refused r i ↦ refused r i
      | found (count, place) ↦
          if is_empty_token item then refused bad_syntax item_start else found (count, place)
    ] in
    if value == b'*' then counted else found (1, record { pos = pos; rest = value ∷ rest })

-- The end of the loop's body, behind an item: the range is used up, or a comma leads to the
-- next item. `walk` is the loop itself.
unfoldable pub after_item : (ℕ → Bytes → ExpandState → Outcome) → ℕ → Bytes → ExpandState → Outcome
after_item walk pos [] s = continue s
after_item walk pos (comma ∷ more) s = elim (comma == b',') [
  | true ↦ walk (pos + 1) more s
  | false ↦ failed bad_syntax pos s
]

module _ (out_size click_cost_ms : ℕ) where
  -- The second half of the loop's body: an item `count` times. A group's body is expanded by
  -- the function given; an empty token is skipped.
  unfoldable pub emit_item :
      (ℕ → Bytes → ExpandState → Outcome) → Item → ℕ → ℕ → ExpandState → Outcome
  emit_item expand (group pos body) item_start count s =
      group_rounds (expand pos body) item_start s.tokens true count s
  emit_item expand (token pos []) item_start count s = continue s
  emit_item expand (token pos (c ∷ cs)) item_start count s =
      emit_rounds out_size click_cost_ms count pos (c ∷ cs) s

  -- The body of the loop behind `parseCount`; `walk` expands a range at a depth.
  unfoldable pub with_count :
      (ℕ → ℕ → Bytes → ExpandState → Outcome)
      → ℕ
      → ℕ
      → Item
      → Scan (ℕ × Place)
      → ExpandState
      → Outcome
  with_count walk depth pos item (refused r i) s = failed r i s
  with_count walk depth pos item (found (count, place)) s =
      emit_item (walk (depth + 1)) item pos count s >>= λ s'.
      after_item (walk depth) place.pos place.rest s'

  -- The body of the loop behind the reading of the item.
  unfoldable pub with_item :
      (ℕ → ℕ → Bytes → ExpandState → Outcome) → ℕ → ℕ → Scan (Item × Place) → ExpandState → Outcome
  with_item walk depth pos (refused r i) s = failed r i s
  with_item walk depth pos (found (item, behind)) s =
      with_count walk depth pos item (read_count item pos behind.pos behind.rest) s

  -- `expandItems` on the range that starts at `pos` and holds the bytes given. The loop and the
  -- recursion take one unit of fuel for each item.
  unfoldable pub expand_items : ℕ → ℕ → ℕ → Bytes → ExpandState → Outcome
  expand_items zero depth pos bytes s = out_of_fuel
  expand_items (suc fuel) depth pos [] s = continue s
  expand_items (suc fuel) depth pos (value ∷ rest) s =
      with_item (expand_items fuel) depth pos (read_item depth pos (value ∷ rest)) s

-- `SequenceExpandInfo`, with the result and what `out` holds up to its terminator.
pub record Expansion : Type 0 where
  pub result : ExpandResult
  pub out : Bytes
  pub error_index : ℕ
  pub token_count : ℕ
  pub estimated_ms : ℕ

-- The state in front of the walk.
abbrev pub initial : ExpandState
initial = record { out = []; tokens = 0; estimated_ms = 0; stick_value_next = false }

-- How `sequenceExpand` answers; `none` for a walk that has not ended.
unfoldable pub answer : Outcome → Option Expansion
answer (continue s) = some (record {
  result = expand_ok;
  out = s.out;
  error_index = 0;
  token_count = s.tokens;
  estimated_ms = s.estimated_ms;
})
answer (failed r i s) =
    some
      (record { result = r; out = []; error_index = i; token_count = s.tokens; estimated_ms = 0 })
answer out_of_fuel = none

-- An answer with nothing in it but its result.
abbrev pub bare : ExpandResult → Expansion
bare r = record { result = r; out = []; error_index = 0; token_count = 0; estimated_ms = 0 }

-- `sequenceExpand`. `none` for the text is a null `sequence`; `has_out` is `out != NULL`.
unfoldable pub sequence_expand : Option Bytes → Bool → ℕ → ℕ → Option Expansion
unfolding answer
sequence_expand text has_out out_size click_cost_ms =
    if not has_out || out_size == 0 then some (bare too_long) else elim text [
      | none ↦ some (bare expand_ok)
      | some sequence ↦
          answer (expand_items out_size click_cost_ms (suc (length sequence)) 0 0 sequence initial)
    ]
