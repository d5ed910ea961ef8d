-- ===== src/Config/Ini.antt =====
-- What the parsers of sys-agent/source/boot_unlock_config.c and ftp_config.c share: `trim`, the loop over the
-- lines by `strtok_r`, and the C library's `strchr` and `strcmp`.
use Prim.Native.Char.{code}
use Prim.Native.String.{String}
use sys_agent.Prelude.{
  ℕ, ◌≡◌, Bool, true, false, ◌&&◌, ◌||◌, Option, none, some, List, [], ◌∷◌, ◌++◌, Bytes, ◌==◌,
  if◌then◌else◌, Option-cases, inl, inr,
}
use sys_agent.Libc.{is_space, skip_space, is_empty}

-- The bytes of an ASCII text.
abbrev pub codes : String → Bytes
codes String.[] = []
codes (String.◌∷◌ c s) = code c ∷ codes s

-- `!strcmp(a, b)`
unfoldable pub text_eq : Bytes → Bytes → Bool
text_eq [] [] = true
text_eq [] (b ∷ bs) = false
text_eq (a ∷ as') [] = false
text_eq (a ∷ as') (b ∷ bs) = a == b && text_eq as' bs

-- `strchr`: the text in front of the first such byte, and the text behind it.
unfoldable pub split_first : ℕ → Bytes → Option (Bytes × Bytes)
split_first byte [] = none
split_first byte (c ∷ cs) =
    let further : Option (Bytes × Bytes) = elim (split_first byte cs) [
      | none ↦ none
      | some (front, back) ↦ some (c ∷ front, back)
    ] in
    if c == byte then some ([], cs) else further

-- The second loop of `trim`.
unfoldable pub trim_end : Bytes → Bytes
trim_end [] = []
trim_end (c ∷ cs) = let rest = trim_end cs in if is_space c && is_empty rest then [] else c ∷ rest

-- `trim`
unfoldable pub trim : Bytes → Bytes
trim text = trim_end (skip_space text)

-- The lines that `strtok_r(text, "\r\n", &save)` gives, one after the other, behind the bytes of the line read
-- so far; empty ones are not given.
unfoldable pub lines_from : Bytes → Bytes → List Bytes
lines_from line [] = if is_empty line then [] else line ∷ []
lines_from line (c ∷ cs) = elim (c == 13 || c == 10) [
  | true ↦ let rest = lines_from [] cs in if is_empty line then rest else line ∷ rest
  | false ↦ lines_from (line ++ (c ∷ [])) cs
]

-- What a property holds of both values, it holds of the choice between them.
pub either_value {ℓ κ} :
    {A : Type ℓ} (P : A → Type κ) (b : Bool) (x y : A) → P x → P y → P (if b then x else y)
either_value P true x y p q = p
either_value P false x y p q = q

-- What both branches of a test have, it has.
pub both_ways {ℓ κ} :
    {A : Type ℓ} (P : A → Type κ) (b : Bool) (x y : Option A) (a : A)
    → (x ≡ some a → P a)
    → (y ≡ some a → P a)
    → (if b then x else y) ≡ some a
    → P a
both_ways P true x y a f g e = f e
both_ways P false x y a f g e = g e

module _ {ℓ} {S : Type ℓ} (step : S → Bytes → Option S) where
  -- The loop over the lines: whether it got to the end, and the state it left. A step that answers `none`
  -- has found an invalid value and leaves the state as it is.
  unfoldable pub run_lines : S → List Bytes → Bool × S
  run_lines s [] = (true, s)
  run_lines s (line ∷ rest) = elim (step s (trim line)) [
    | none ↦ (false, s)
    | some s' ↦ run_lines s' rest
  ]

  -- What every step keeps, the loop keeps.
  pub run_lines_invariant {κ} :
      (P : S → Type κ) (s : S) (lines : List Bytes)
      → ((t : S) (line : Bytes) (u : S) → P t → step t line ≡ some u → P u)
      → P s
      → P (run_lines s lines).1
  unfolding run_lines
  run_lines_invariant P s [] keeps h = h
  run_lines_invariant P s (line ∷ rest) keeps h = elim (Option-cases (step s (trim line))) [
    | inl e ↦ rw (e, run_lines) h
    | inr (u, e) ↦
        rw (e, run_lines) (run_lines_invariant P u rest keeps (keeps s (trim line) u h e))
  ]

-- `BOOT_UNLOCK_CONFIG_FILE_LIMIT` and `FTP_CONFIG_FILE_LIMIT`
abbrev pub file_limit : ℕ
file_limit = 4096

-- What opening and reading the file gives: `fopen` may fail, with `ENOENT` or another error, and at most one
-- byte more than the limit is read, up to an error.
pub data FileRead : Type 0 where
  missing unopened : FileRead
  opened : Bool → Bytes → FileRead

-- The bytes in front of the first terminator.
unfoldable pub c_text : Bytes → Bytes
c_text [] = []
c_text (c ∷ cs) = let rest = c_text cs in if c == 0 then [] else c ∷ rest
