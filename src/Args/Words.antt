-- ===== src/Args/Words.antt =====
-- The words that `parseArgs` of sys-agent/source/args.c finds, against a split of the text at every delimiter.
use sys_agent.Prelude.{
  ℕ, zero, suc, ◌+◌, ◌<◌, ◌≤◌, ◌≡◌, refl, sym, ap, ◌∙◌, arith, Bool, true, false, ◌==◌, Option,
  none, some, List, [], ◌∷◌, ◌++◌, append_assoc, length-append, subst, Bytes, length, set,
  replicate, if◌then◌else◌, Bool-cases, Option-cases, inl, inr,
}
use sys_agent.Args.{
  is_delimiter, skip_delimiters, take_token, strtok, count_args, fill_args, ArgsCall, Heap, malloc,
  without, free, Split, call_with_args, parse_args,
}

-- A byte in front of the first piece.
abbrev pub onto_first : ℕ → List Bytes → List Bytes
onto_first c [] = []
onto_first c (p ∷ ps) = (c ∷ p) ∷ ps

-- The bytes between which the words stand: the space and the ends of a line.
abbrev pub separators : List ℕ
separators = 0x20 ∷ 0x0d ∷ 0x0a ∷ []

abbrev pub is_among : ℕ → List ℕ → Bool
is_among c [] = false
is_among c (d ∷ ds) = if c == d then true else is_among c ds

-- The pieces between the separators.
abbrev pub pieces : Bytes → List Bytes
pieces [] = [] ∷ []
pieces (c ∷ cs) = if is_among c separators then [] ∷ pieces cs else onto_first c (pieces cs)

abbrev pub non_empty : List Bytes → List Bytes
non_empty [] = []
non_empty ([] ∷ ps) = non_empty ps
non_empty ((c ∷ cs) ∷ ps) = (c ∷ cs) ∷ non_empty ps

-- The words of a text: the pieces that are not empty.
abbrev pub words : Bytes → List Bytes
words text = non_empty (pieces text)

is_delimiter-is_among : (c : ℕ) → is_delimiter c ≡ is_among c separators
unfolding is_delimiter
is_delimiter-is_among c = ground arith

pieces-separator : (c : ℕ) (cs : Bytes) → is_delimiter c ≡ true → pieces (c ∷ cs) ≡ [] ∷ pieces cs
pieces-separator c cs e = rw (sym (is_delimiter-is_among c) ∙ e) refl

pieces-other :
    (c : ℕ) (cs : Bytes) → is_delimiter c ≡ false → pieces (c ∷ cs) ≡ onto_first c (pieces cs)
pieces-other c cs e = rw (sym (is_delimiter-is_among c) ∙ e) refl

words-skip_delimiters :
    (text : Bytes)
    → (words (skip_delimiters text) ≡ words text) × (length (skip_delimiters text) ≤ length text)
unfolding skip_delimiters
words-skip_delimiters [] = (refl, omega arith)
words-skip_delimiters (c ∷ cs) =
    let (same, shorter) = words-skip_delimiters cs in
    elim (Bool-cases (is_delimiter c)) [
      | inl e ↦
          let next = ap non_empty (pieces-separator c cs e) in
          (ground (arith, next, same), ground (arith, shorter))
      | inr e ↦ rw (e, skip_delimiters) (refl, omega arith)
    ]

pieces-take_token :
    (text : Bytes)
    → (ps : List Bytes) × (pieces text ≡ (take_token text).0 ∷ ps)
      × (non_empty ps ≡ words (take_token text).1)
      × (length (take_token text).1 ≤ length text)
unfolding take_token
pieces-take_token [] = ([], refl, refl, omega arith)
pieces-take_token (c ∷ cs) =
    let (ps, shape, same, shorter) = pieces-take_token cs in
    elim (Bool-cases (is_delimiter c)) [
      | inl e ↦ (pieces cs, ground (arith, pieces-separator c cs e), ground arith, ground arith)
      | inr e ↦ (ps, ground (arith, pieces-other c cs e), ground arith, ground arith)
    ]

skip_delimiters-stops :
    (text : Bytes) (c : ℕ) (cs : Bytes) → skip_delimiters text ≡ c ∷ cs → is_delimiter c ≡ false
unfolding skip_delimiters
skip_delimiters-stops [] c cs h = cc
skip_delimiters-stops (d ∷ ds) c cs h = ground (arith, skip_delimiters-stops ds c cs)

-- From a byte that is no delimiter the first word is the token.
words-take_token :
    (c : ℕ) (cs : Bytes)
    → is_delimiter c ≡ false
    → (words (c ∷ cs) ≡ (take_token (c ∷ cs)).0 ∷ words (take_token (c ∷ cs)).1)
      × (length (take_token (c ∷ cs)).1 < length (c ∷ cs))
unfolding take_token
words-take_token c cs e =
    let (ps, shape, same, shorter) = pieces-take_token cs in
    let first = ap non_empty (pieces-other c cs e ∙ ap (onto_first c) shape) in
    (ground (arith, first, same), ground arith)

-- What `strtok` finds is the first word.
abbrev pub NextWord : Bytes → Option (Bytes × Bytes) → Type 0
NextWord text none = words text ≡ []
NextWord text (some (token, rest)) = (words text ≡ token ∷ words rest) × (length rest < length text)

NextWord-after :
    (text s : Bytes)
    → skip_delimiters text ≡ s
    → NextWord text (elim s [ [] ↦ none | c ∷ cs ↦ some (take_token (c ∷ cs)) ])
NextWord-after text [] e = let (same, shorter) = words-skip_delimiters text in sym same ∙ ap words e
NextWord-after text (c ∷ cs) e =
    let (same, shorter) = words-skip_delimiters text in
    let (shape, less) = words-take_token c cs (skip_delimiters-stops text c cs e) in
    (sym same ∙ ap words e ∙ shape, ground (arith, ap length e))

strtok-NextWord : (text : Bytes) → NextWord text (strtok text)
unfolding strtok
strtok-NextWord text = NextWord-after text (skip_delimiters text) refl

next-none : (text : Bytes) → strtok text ≡ none → words text ≡ []
next-none text e = subst (NextWord text) e (strtok-NextWord text)

next-some :
    (text token rest : Bytes)
    → strtok text ≡ some (token, rest)
    → (words text ≡ token ∷ words rest) × (length rest < length text)
next-some text token rest e = subst (NextWord text) e (strtok-NextWord text)

count_args-words :
    (fuel argc : ℕ) (text : Bytes)
    → length text < fuel
    → count_args fuel argc text ≡ some (argc + length (words text))
unfolding count_args
count_args-words zero argc text enough = ground arith
count_args-words (suc fuel) argc text enough = elim (Option-cases (strtok text)) [
  | inl e ↦ ground (arith, next-none text e)
  | inr ((token, rest), e) ↦
      let (shape, less) = next-some text token rest e in
      let rest_counted = count_args-words fuel (argc + 1) rest (omega arith) in
      ground (arith, ap length shape)
]

set-append :
    (done more : List Bytes) (p w : Bytes)
    → set (done ++ p ∷ more) (length done) w ≡ (done ++ w ∷ []) ++ more
set-append [] more p w = refl
set-append (d ∷ ds) more p w = ap (λ r. d ∷ r) (set-append ds more p w)

fill_args-words :
    (fuel : ℕ) (text : Bytes) (done : List Bytes)
    → length text < fuel
    → fill_args fuel (length done) text (done ++ replicate (length (words text)) [])
      ≡ some (done ++ words text)
unfolding fill_args
fill_args-words zero text done enough = ground arith
fill_args-words (suc fuel) text done enough = elim (Option-cases (strtok text)) [
  | inl e ↦ ground (arith, next-none text e)
  | inr ((token, rest), e) ↦
      let (shape, less) = next-some text token rest e in
      let filled = fill_args-words fuel rest (done ++ token ∷ []) (omega arith) in
      let blank = ap (λ ws. done ++ replicate (length ws) []) shape in
      let stored = set-append done (replicate (length (words rest)) []) [] token in
      let counted = length-append done (token ∷ []) in
      let large = length-append done ([] ∷ replicate (length (words rest)) []) in
      ground (arith, ap (λ ws. done ++ ws) shape, append_assoc done (token ∷ []) (words rest))
]

-- The call for some words.
abbrev pub call_of : List Bytes → ArgsCall
call_of [] = (0, none)
call_of (w ∷ ws) = (length (w ∷ ws), some (w ∷ ws))

-- The heap that is left: a line without words has left a buffer behind.
abbrev pub heap_of : List Bytes → Heap → Heap
heap_of [] h = record { allocated = h.allocated + 1 + 1; live = h.allocated ∷ h.live }
heap_of (w ∷ ws) h = record { allocated = h.allocated + 1 + 1 + 1; live = h.live }

-- What `parseArgs` does for some words.
abbrev pub split_of {ℓ} : {R : Type ℓ} → (ArgsCall → R) → List Bytes → Heap → Split R
split_of callback ws h = record {
  result = callback (call_of ws);
  calls = call_of ws ∷ [];
  heap = heap_of ws h;
}

-- What was allocated last is freed.
free-head :
    (n a : ℕ) (live : List ℕ)
    → free n (record { allocated = a; live = n ∷ live })
      ≡ some record { allocated = a; live = live }
unfolding free without
free-head n a live = ground arith

split_of-words {ℓ} :
    {R : Type ℓ} (callback : ArgsCall → R) (text : Bytes) (h : Heap) (ws : List Bytes)
    → count_args (length text + 1) 0 text ≡ some (length ws)
    → fill_args (length text + 1) 0 text (replicate (length ws) []) ≡ some ws
    → parse_args callback text h ≡ some (split_of callback ws h)
unfolding parse_args malloc
split_of-words callback text h [] counted filled =
    let one = free-head (h.allocated + 1) (h.allocated + 1 + 1) (h.allocated ∷ h.live) in
    rw (parse_args, counted, one) refl
split_of-words callback text h (w ∷ ws) counted filled =
    let one = free-head (h.allocated + 1) (h.allocated + 1 + 1) (h.allocated ∷ h.live) in
    let two = free-head (h.allocated + 1 + 1) (h.allocated + 1 + 1 + 1) (h.allocated ∷ h.live) in
    let three = free-head h.allocated (h.allocated + 1 + 1 + 1) h.live in
    let many : (length (w ∷ ws) == 0) ≡ false = ground arith in
    rw (parse_args, counted, one, many, call_with_args, filled, two, three) refl

-- On every text, `parseArgs` returns without a write behind `argv` or a buffer that is freed twice. It calls back once,
-- with the words of the text, which are the pieces between spaces and ends of lines that are not empty, and their number, or with
-- `NULL` if there are none, and returns what the callback returns. It frees its buffers, but for one if there are no
-- words.
pub parse_args-words {ℓ} :
    {R : Type ℓ} (callback : ArgsCall → R) (text : Bytes) (h : Heap)
    → parse_args callback text h ≡ some (split_of callback (words text) h)
parse_args-words callback text h =
    split_of-words callback text h (words text)
      (ground (arith, count_args-words (length text + 1) 0 text (omega arith)))
      (fill_args-words (length text + 1) text [] (omega arith))
