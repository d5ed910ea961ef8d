-- ===== src/Sequence/Token.antt =====
-- sys-agent/source/sequence_token.c: the tokenizer of a queued click sequence.
-- The `char**` cursor is `none` for a null pointer and else the text from the cursor to its
-- terminator. A token is returned as its bytes: the terminator that the code writes over the comma
-- is what ends it, and no later call reads at or before that place.
pub mod Laws
use sys_agent.Prelude.{
  ℕ, zero, suc, Bool, true, false, Option, none, some, List, [], ◌∷◌, Bytes, ◌==◌, if◌then◌else◌,
}

-- The text behind a run of commas.
unfoldable pub skip_commas : Bytes → Bytes
skip_commas [] = []
skip_commas (c ∷ cs) = elim (c == b',') [ true ↦ skip_commas cs | false ↦ c ∷ cs ]

-- The bytes in front of the first comma, and what the cursor becomes: the text behind that comma,
-- or a null pointer at the terminator.
unfoldable pub split_comma : Bytes → Bytes × Option Bytes
split_comma [] = ([], none)
split_comma (c ∷ cs) = elim (c == b',') [
  | true ↦ ([], some cs)
  | false ↦ let (token, cursor) = split_comma cs in (c ∷ token, cursor)
]

-- At a token: nothing is left if the text is empty.
unfoldable pub token_at : Bytes → Option Bytes × Option Bytes
token_at [] = (none, none)
token_at (c ∷ cs) = let (token, cursor) = split_comma (c ∷ cs) in (some token, cursor)

-- `sequenceTokenNext`: the token, and the cursor after the call.
unfoldable pub sequence_token_next : Option Bytes → Option Bytes × Option Bytes
unfolding skip_commas split_comma token_at
sequence_token_next none = (none, none)
sequence_token_next (some text) = token_at (skip_commas text)

-- A caller's loop over all tokens, as `clickSequence` runs it, with a bound on its rounds.
unfoldable pub token_walk : ℕ → Option Bytes → List Bytes
token_walk zero cursor = []
token_walk (suc fuel) cursor =
    let (token, cursor') = sequence_token_next cursor in
    elim token [ none ↦ [] | some t ↦ t ∷ token_walk fuel cursor' ]
