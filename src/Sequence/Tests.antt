-- ===== src/Sequence/Tests.antt =====
-- The cases of tests/sequence_repeat_test.c and tests/sequence_token_test.c, by evaluation, and
-- examples of the theorems on sequences.
use Prim.Native.Char.{code}
use Prim.Native.String.{String}
use sys_agent.Prelude.{ℕ, ◌≡◌, refl, arith, List, [], ◌∷◌, some, true, Bytes, length}
use sys_agent.Sequence.Token.{sequence_token_next, token_walk}
use sys_agent.Sequence.Token.Laws.{join, token_walk-join}
use sys_agent.Sequence.Repeat.Handoff.{Answers, sequence_expand-Answers}
use sys_agent.Sequence.Repeat.{
  expand_ok, bad_syntax, count_range, too_deep, too_long, ExpandResult, parse_wait_ms,
  token_cost_ms, emit_token, emit_rounds, group_rounds,
}
use sys_agent.Sequence.Repeat.Expand.{
  read_item, read_count, emit_item, after_item, with_count, with_item, expand_items,
  sequence_expand, Expansion,
}

-- The bytes of an ASCII text.
abbrev pub codes : String → Bytes
codes String.[] = []
codes (String.◌∷◌ c s) = code c ∷ codes s

abbrev expanded : String → ℕ → ℕ → Expansion
expanded out tokens ms = record {
  result = expand_ok;
  out = codes out;
  error_index = 0;
  token_count = tokens;
  estimated_ms = ms;
}

abbrev failure : ExpandResult → ℕ → ℕ → Expansion
failure r index tokens = record {
  result = r;
  out = [];
  error_index = index;
  token_count = tokens;
  estimated_ms = 0;
}

repeats :
    sequence_expand (some (codes "(A,W100)*2,DDOWN*3")) true 65536 50
    ≡ some (expanded "A,W100,A,W100,DDOWN,DDOWN,DDOWN" 7 450)
unfolding sequence_expand expand_items with_item with_count after_item read_item read_count
    emit_item emit_rounds group_rounds emit_token token_cost_ms parse_wait_ms
repeats = refl

nested :
    sequence_expand (some (codes "(A,(B,%10,20)*2)*2")) true 65536 50
    ≡ some (expanded "A,B,%10,20,B,%10,20,A,B,%10,20,B,%10,20" 14 300)
unfolding sequence_expand expand_items with_item with_count after_item read_item read_count
    emit_item emit_rounds group_rounds emit_token token_cost_ms parse_wait_ms
nested = refl

empty_group : sequence_expand (some (codes "A,()*2")) true 65536 50 ≡ some (failure bad_syntax 2 1)
unfolding sequence_expand expand_items with_item with_count after_item read_item read_count
    emit_item emit_rounds group_rounds emit_token token_cost_ms parse_wait_ms
empty_group = refl

deep : sequence_expand (some (codes "(((((A)))))")) true 65536 50 ≡ some (failure too_deep 4 0)
unfolding sequence_expand expand_items with_item with_count after_item read_item read_count
    emit_item emit_rounds group_rounds emit_token token_cost_ms parse_wait_ms
deep = refl

count_too_big :
    sequence_expand (some (codes "A*1001")) true 65536 50 ≡ some (failure count_range 1 0)
unfolding sequence_expand expand_items with_item with_count after_item read_item read_count
    emit_item emit_rounds group_rounds emit_token token_cost_ms parse_wait_ms
count_too_big = refl

small_buffer : sequence_expand (some (codes "A,B")) true 3 50 ≡ some (failure too_long 2 1)
unfolding sequence_expand expand_items with_item with_count after_item read_item read_count
    emit_item emit_rounds group_rounds emit_token token_cost_ms parse_wait_ms
small_buffer = refl

walked : token_walk 9 (some (codes ",HOME,,DRIGHT,")) ≡ codes "HOME" ∷ codes "DRIGHT" ∷ []
unfolding token_walk sequence_token_next
walked = refl

abbrev home_right : List Bytes
home_right = codes "HOME" ∷ codes "DRIGHT" ∷ []

token_walk-join_example : token_walk 3 (some (join home_right)) ≡ home_right
token_walk-join_example = token_walk-join home_right 3 (ground arith) (omega arith)

sequence_expand-Answers_example :
    (e : Expansion) × (sequence_expand (some (codes "(A,W100)*2")) true 64 50 ≡ some e)
    × Answers 64 50 (length (codes "(A,W100)*2")) e
sequence_expand-Answers_example = sequence_expand-Answers (codes "(A,W100)*2") 64 50 (omega arith)
