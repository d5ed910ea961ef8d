-- ===== src/Args.antt =====
-- sys-agent/source/args.c: `parseArgs` splits a command into its words and calls back. `strtok` is that of the C library
-- for the delimiters that the code gives; its state between calls is the rest of the text.
pub mod Words
mod Tests
use sys_agent.Prelude.{
  ℕ, zero, suc, ◌+◌, Bool, true, false, ◌||◌, Option, none, some, List, [], ◌∷◌, Bytes, length, set,
  replicate, ltb, ◌==◌, if◌then◌else◌,
}

-- `" \r\n"`
unfoldable pub is_delimiter : ℕ → Bool
is_delimiter c = c == b' ' || c == 0x0d || c == 0x0a

unfoldable pub skip_delimiters : Bytes → Bytes
skip_delimiters [] = []
skip_delimiters (c ∷ cs) = if is_delimiter c then skip_delimiters cs else c ∷ cs

-- The bytes up to a delimiter, and what is behind it.
unfoldable pub take_token : Bytes → Bytes × Bytes
take_token [] = ([], [])
take_token (c ∷ cs) =
    let (token, rest) = take_token cs in if is_delimiter c then ([], cs) else (c ∷ token, rest)

-- The next token, if there is one, and the rest.
unfoldable pub strtok : Bytes → Option (Bytes × Bytes)
strtok text = elim (skip_delimiters text) [ [] ↦ none | c ∷ cs ↦ some (take_token (c ∷ cs)) ]

-- The loop that counts, on fuel.
unfoldable pub count_args : ℕ → ℕ → Bytes → Option ℕ
count_args zero argc text = none
count_args (suc fuel) argc text = elim (strtok text) [
  | none ↦ some argc
  | some (token, rest) ↦ count_args fuel (argc + 1) rest
]

-- The loop that fills `argv`, on fuel; nothing is left of a write behind its end.
unfoldable pub fill_args : ℕ → ℕ → Bytes → List Bytes → Option (List Bytes)
fill_args zero i text argv = none
fill_args (suc fuel) i text argv = elim (strtok text) [
  | none ↦ some argv
  | some (token, rest) ↦
      let filled = fill_args fuel (i + 1) rest (set argv i token) in
      if ltb i (length argv) then filled else none
]

-- The buffers of `malloc` that are live, by the number of their allocation, the last in front.
pub record Heap : Type 0 where
  pub allocated : ℕ
  pub live : List ℕ

-- A new buffer and the heap with it; there is always memory.
unfoldable pub malloc : Heap → ℕ × Heap
malloc h = (h.allocated, record { allocated = h.allocated + 1; live = h.allocated ∷ h.live })

-- The others, where a buffer is live.
unfoldable pub without : ℕ → List ℕ → Option (List ℕ)
without buffer [] = none
without buffer (b ∷ live) =
    let rest : Option (List ℕ) = elim (without buffer live) [
      | none ↦ none
      | some l ↦ some (b ∷ l)
    ] in
    if b == buffer then some live else rest

-- Freeing a buffer, which has to be live.
unfoldable pub free : ℕ → Heap → Option Heap
free buffer h = elim (without buffer h.live) [
  | none ↦ none
  | some live ↦ some (record h { live = live })
]

-- A call of the callback: `argc` and `argv`, where `none` is `NULL`.
abbrev pub ArgsCall : Type 0
ArgsCall = ℕ × Option (List Bytes)

-- What `parseArgs` returns, the calls of the callback in order, and the heap that it leaves.
pub record Split {ℓ} (R : Type ℓ) : Type ℓ where
  pub result : R
  pub calls : List ArgsCall
  pub heap : Heap

-- The second half of `parseArgs`, for at least one argument.
unfoldable pub call_with_args {ℓ} :
    {R : Type ℓ} → (ArgsCall → R) → ℕ → Bytes → ℕ → Heap → Option (Split R)
call_with_args {R = R} callback argc text argstr heap =
    let (argv, with_argv) = malloc heap in
    elim (fill_args (length text + 1) 0 text (replicate argc [])) [
      | none ↦ none
      | some args ↦ elim (free argv with_argv) [
        | none ↦ none
        | some without_argv ↦ elim (free argstr without_argv) [
          | none ↦ none
          | some freed ↦ some record {
            result = callback (argc, some args);
            calls = (argc, some args) ∷ [];
            heap = freed;
          }
        ]
      ]
    ]

-- `parseArgs`, for what the callback returns. Nothing is left of a write behind `argv` or of a buffer that is freed twice.
unfoldable pub parse_args {ℓ} : {R : Type ℓ} → (ArgsCall → R) → Bytes → Heap → Option (Split R)
unfolding call_with_args
parse_args {R = R} callback text heap =
    let (argstr, with_argstr) = malloc heap in
    let (tmpstr, with_tmpstr) = malloc with_argstr in
    elim (count_args (length text + 1) 0 text) [
      | none ↦ none
      | some argc ↦ elim (free tmpstr with_tmpstr) [
        | none ↦ none
        | some freed ↦
            let many = call_with_args callback argc text argstr freed in
            if argc == 0
            then some
                record { result = callback (argc, none); calls = (argc, none) ∷ []; heap = freed }
            else many
      ]
    ]
