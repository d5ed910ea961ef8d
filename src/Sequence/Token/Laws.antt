-- ===== src/Sequence/Token/Laws.antt =====
-- What the loop over `sequenceTokenNext` yields.
use sys_agent.Prelude.{
  ℕ, zero, suc, ◌<◌, ◌≡◌, ◌≢◌, refl, none, some, List, [], ◌∷◌, ◌++◌, Bytes, length, All, arith,
}
use sys_agent.Sequence.Token.{split_comma, sequence_token_next, token_walk}

-- No byte is a comma.
abbrev pub HasNoComma : Bytes → Type 0
HasNoComma = All (λ c. c ≢ b',')

-- Tokens joined by single commas.
abbrev pub join : List Bytes → Bytes
join [] = []
join (t ∷ []) = t
join (t ∷ u ∷ ts) = t ++ (b',' ∷ join (u ∷ ts))

-- A token that the walk returns whole.
abbrev pub IsToken : Bytes → Type 0
IsToken t = (t ≢ []) × HasNoComma t

split_comma-append :
    (t rest : Bytes) → HasNoComma t → split_comma (t ++ (b',' ∷ rest)) ≡ (t, some rest)
unfolding split_comma
split_comma-append [] rest h = refl
split_comma-append (c ∷ cs) rest h = ground (arith, split_comma-append cs rest h.1)

split_comma_all : (t : Bytes) → HasNoComma t → split_comma t ≡ (t, none)
unfolding split_comma
split_comma_all [] h = refl
split_comma_all (c ∷ cs) h = ground (arith, split_comma_all cs h.1)

-- One call at a token that a comma follows.
pub next_middle :
    (t rest : Bytes)
    → IsToken t
    → sequence_token_next (some (t ++ (b',' ∷ rest))) ≡ (some t, some rest)
unfolding sequence_token_next
next_middle [] rest h = absurd (h.0 refl)
next_middle (c ∷ cs) rest h = ground (arith, split_comma-append cs rest h.1.1)

-- One call at the last token.
pub next_last : (t : Bytes) → IsToken t → sequence_token_next (some t) ≡ (some t, none)
unfolding sequence_token_next
next_last [] h = absurd (h.0 refl)
next_last (c ∷ cs) h = ground (arith, split_comma_all cs h.1.1)

walk_null : (fuel : ℕ) → token_walk fuel none ≡ []
unfolding token_walk sequence_token_next
walk_null zero = refl
walk_null (suc fuel) = refl

-- The walk over joined tokens returns those tokens.
pub token_walk-join :
    (ts : List Bytes) (fuel : ℕ)
    → All IsToken ts
    → length ts < fuel
    → token_walk fuel (some (join ts)) ≡ ts
unfolding token_walk
token_walk-join ts zero h lt = absurd (omega arith)
token_walk-join [] (suc fuel) h lt = unfold sequence_token_next in refl
token_walk-join (t ∷ []) (suc fuel) h lt = ground (arith, next_last t h.0, walk_null fuel)
token_walk-join (t ∷ u ∷ ts) (suc fuel) h lt =
    ground (arith, next_middle t (join (u ∷ ts)) h.0, token_walk-join (u ∷ ts) fuel h.1)
