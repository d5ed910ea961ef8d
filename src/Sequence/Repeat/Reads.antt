-- ===== src/Sequence/Repeat/Reads.antt =====
-- What the scans of `expandItems` find: how many bytes they take, and which.
use sys_agent.Prelude.{
  ℕ, ◌+◌, ◌-◌, ◌*◌, ◌≤◌, ◌<◌, ◌≡◌, ◌≢◌, false, [], ◌∷◌, Bytes, length, All, ◌==◌, if◌then◌else◌,
  arith,
}
use sys_agent.Sequence.Repeat.{Scan, found, refused, is_control_byte, expand_ok}
use sys_agent.Sequence.Repeat.Expand.{
  Item, group, token, Place, find_close, ends_token, read_token, read_item, count_digits,
  read_count,
}

-- A byte that may stand inside a token.
abbrev pub IsInner : ℕ → Type 0
IsInner c = (ends_token c ≡ false) × (is_control_byte c ≡ false)

-- A token as the grammar has it: not empty, only inner bytes, and no `(` in front.
abbrev pub IsPlain : Bytes → Type 0
IsPlain [] = ⊥
IsPlain (c ∷ cs) = (c ≢ b'(') × All IsInner (c ∷ cs)

-- What holds of the value that a scan found. A refusal is an error, and points below `end`.
abbrev pub Finds : ℕ → {A : Type 0} → (A → Type 0) → Scan A → Type 0
Finds end P (found a) = P a
Finds end P (refused r i) = (r ≢ expand_ok) × (i < end)

-- The place ends where the range of the scan ends, and is not in front of its start.
abbrev pub SameEnd : ℕ → Bytes → Place → Type 0
SameEnd pos bytes p = (p.pos + length p.rest ≡ pos + length bytes) × (length p.rest ≤ length bytes)

pub find_close-Finds :
    (opening cursor nesting : ℕ) (bytes : Bytes)
    → opening < cursor
    → Finds
        (cursor + length bytes)
        (λ (body, place).
          (length body + length place.rest + 1 ≡ length bytes) × SameEnd cursor bytes place)
        (find_close opening cursor nesting bytes)
unfolding find_close
find_close-Finds opening cursor nesting [] lt = ground arith
find_close-Finds opening cursor nesting (value ∷ rest) lt = ground (
  arith,
  find_close-Finds opening (cursor + 1)
      (if value == b'(' then nesting + 1 else if value == b')' then nesting - 1 else nesting) rest
      (omega arith),
)

pub read_token-Finds :
    (pos : ℕ) (bytes : Bytes)
    → Finds
        (pos + length bytes)
        (λ (t, place).
          (length t + length place.rest ≡ length bytes) × All IsInner t × SameEnd pos bytes place)
        (read_token pos bytes)
unfolding read_token
read_token-Finds pos [] = ground arith
read_token-Finds pos (value ∷ rest) = ground (arith, read_token-Finds (pos + 1) rest)

-- An item found in the bytes from `pos` on.
abbrev pub ItemFits : ℕ → Bytes → Item → Type 0
ItemFits pos bytes (group start body) =
    (length body < length bytes) × (start + length body ≤ pos + length bytes)
ItemFits pos bytes (token start []) = Unit
ItemFits pos bytes (token start (c ∷ cs)) = IsPlain (c ∷ cs) × (start < pos + length bytes)

pub read_item-Finds :
    (depth pos value : ℕ) (rest : Bytes)
    → Finds
        (pos + length (value ∷ rest))
        (λ (item, place). ItemFits pos (value ∷ rest) item × SameEnd pos (value ∷ rest) place)
        (read_item depth pos (value ∷ rest))
unfolding read_item read_token
read_item-Finds depth pos value rest =
    ground
      (arith, find_close-Finds pos (pos + 1) 1 rest (omega arith), read_token-Finds (pos + 1) rest)

count_digits-Finds :
    (star value digits pos : ℕ) (bytes : Bytes)
    → star < pos
    → Finds
        (pos + length bytes)
        (λ (v, d, place). SameEnd pos bytes place)
        (count_digits star value digits pos bytes)
unfolding count_digits
count_digits-Finds star value digits pos [] lt = ground arith
count_digits-Finds star value digits pos (byte ∷ rest) lt = ground (
  arith,
  count_digits-Finds star (value * 10 + (byte - b'0')) (digits + 1) (pos + 1) rest (omega arith),
)

pub read_count-Finds :
    (item : Item) (item_start pos end : ℕ) (bytes : Bytes)
    → item_start < end
    → end ≡ pos + length bytes
    → Finds end (λ (count, place). SameEnd pos bytes place) (read_count item item_start pos bytes)
unfolding read_count
read_count-Finds item item_start pos end [] lt e = ground arith
read_count-Finds item item_start pos end (value ∷ rest) lt e =
    ground (arith, count_digits-Finds pos 0 0 (pos + 1) rest (omega arith))
