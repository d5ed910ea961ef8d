-- ===== src/Config/Hekate/Printed.antt =====
-- The configuration of hekate as it is written, line by line, and what `hekateFindMainConfigId` of
-- sys-agent/source/hekate_config.c makes of each line.
use sys_agent.Prelude.{
  ℕ, zero, suc, ◌<◌, ◌≤◌, ◌≡◌, ◌≢◌, ◌⊎◌, refl, ap, ◌∙◌, arith, true, false, some, List, [], ◌∷◌,
  ◌++◌, All, Bytes, length, ◌==◌,
}
use sys_agent.Libc.{is_space, skip_space, is_empty}
use sys_agent.Config.Ini.{codes, text_eq, split_first, trim_end, trim, c_text}
use sys_agent.Config.Hekate.{fgets, before_bracket}

-- A byte of a name, a key or a value: printable, and none of those that begin a line of another kind or end a key.
pub record IsWordByte (c : ℕ) : Type 0 where
  pub printable : 33 ≤ c
  pub ascii : c < 127
  pub plain : (c ≢ b'=') × (c ≢ b'[') × (c ≢ b'#') × (c ≢ b';') × (c ≢ b'{')

-- A word of at least one byte.
abbrev pub IsWord : Bytes → Type 0
IsWord [] = ⊥
IsWord (c ∷ cs) = IsWordByte c × All IsWordByte cs

-- `fgets` stops behind the end of a line that fits.
pub fgets-line :
    (room : ℕ) (text rest : Bytes)
    → All (λ c. c ≢ 10) text
    → length text < room
    → fgets room (text ++ 10 ∷ rest) ≡ (text ++ 10 ∷ [], rest)
unfolding fgets
fgets-line zero text rest plain fits = ground arith
fgets-line (suc room) [] rest plain fits = refl
fgets-line (suc room) (c ∷ cs) rest plain fits =
    let further = fgets-line room cs rest plain.1 (omega (arith, fits)) in
    let other : (c == 10) ≡ false = ground (arith, plain.0) in rw (other, further) refl

pub c_text-line :
    (text : Bytes) → All (λ c. c ≢ 0) text → c_text (text ++ 10 ∷ []) ≡ text ++ 10 ∷ []
unfolding c_text
c_text-line [] plain = refl
c_text-line (c ∷ cs) plain =
    let other : (c == 0) ≡ false = ground (arith, plain.0) in
    rw (other, c_text-line cs plain.1) refl

trim_end-line :
    (text : Bytes) → All (λ c. is_space c ≡ false) text → trim_end (text ++ 10 ∷ []) ≡ text
unfolding trim_end is_empty is_space
trim_end-line [] plain = refl
trim_end-line (c ∷ cs) plain = let rest = trim_end-line cs plain.1 in rw (rest, plain.0) refl

trim_end-word : (text : Bytes) → All (λ c. is_space c ≡ false) text → trim_end text ≡ text
unfolding trim_end is_empty
trim_end-word [] plain = refl
trim_end-word (c ∷ cs) plain = let rest = trim_end-word cs plain.1 in rw (rest, plain.0) refl

pub before_bracket-name : (name : Bytes) → before_bracket (name ++ b']' ∷ []) ≡ some name
unfolding before_bracket
before_bracket-name [] = refl
before_bracket-name (c ∷ []) = refl
before_bracket-name (c ∷ d ∷ ds) = let rest = before_bracket-name (d ∷ ds) in rw rest refl

pub split_first-key :
    (key value : Bytes)
    → All (λ c. c ≢ b'=') key
    → split_first b'=' (key ++ b'=' ∷ value) ≡ some (key, value)
unfolding split_first
split_first-key [] value plain = refl
split_first-key (c ∷ cs) value plain =
    let other : (c == b'=') ≡ false = ground (arith, plain.0) in
    rw (other, split_first-key cs value plain.1) refl

pub text_eq-same : (a : Bytes) → text_eq a a ≡ true
unfolding text_eq
text_eq-same [] = refl
text_eq-same (c ∷ cs) = ground (arith, text_eq-same cs)

pub text_eq→eq : (a b : Bytes) → text_eq a b ≡ true → a ≡ b
unfolding text_eq
text_eq→eq [] [] h = refl
text_eq→eq [] (c ∷ cs) h = cc
text_eq→eq (c ∷ cs) [] h = cc
text_eq→eq (c ∷ cs) (d ∷ ds) h = ground (arith, text_eq→eq cs ds)

pub All-map : {P Q : ℕ → Type 0} (xs : Bytes) → ((c : ℕ) → P c → Q c) → All P xs → All Q xs
All-map [] f h = tt
All-map (c ∷ cs) f h = (f c h.0, All-map cs f h.1)

pub All-append : (P : ℕ → Type 0) (xs ys : Bytes) → All P xs → All P ys → All P (xs ++ ys)
All-append P [] ys hx hy = hy
All-append P (c ∷ cs) ys hx hy = (hx.0, All-append P cs ys hx.1 hy)

-- A byte that is printed with ink.
abbrev pub IsInk : ℕ → Type 0
IsInk c = (33 ≤ c) × (c < 127)

pub ink-space : (c : ℕ) → IsInk c → is_space c ≡ false
unfolding is_space
ink-space c h = ground arith

pub IsWordByte-IsInk : (c : ℕ) → IsWordByte c → IsInk c
IsWordByte-IsInk c h = (h.printable, h.ascii)

pub skip_space-ink : (c : ℕ) (cs : Bytes) → IsInk c → skip_space (c ∷ cs) ≡ c ∷ cs
unfolding skip_space
skip_space-ink c cs h = let solid = ink-space c h in rw (solid, skip_space) refl

pub spaceless : (text : Bytes) → All IsInk text → All (λ c. is_space c ≡ false) text
spaceless text ink = All-map text ink-space ink

trim-end_of_line : trim (c_text (10 ∷ [])) ≡ []
unfolding trim skip_space is_space trim_end is_empty c_text
trim-end_of_line = refl

-- A line without spaces is read as it is printed.
pub trim-ink : (text : Bytes) → All IsInk text → trim (c_text (text ++ 10 ∷ [])) ≡ text
unfolding trim
trim-ink [] ink = trim-end_of_line
trim-ink (c ∷ cs) ink =
    let cut = c_text-line (c ∷ cs) (All-map (c ∷ cs) (λ d h. λ e. omega (arith, e, h.0)) ink) in
    ap trim cut
    ∙ ap trim_end (skip_space-ink c (cs ++ 10 ∷ []) ink.0)
    ∙ trim_end-line (c ∷ cs) (spaceless (c ∷ cs) ink)

pub trim-word : (text : Bytes) → All IsInk text → trim text ≡ text
unfolding trim skip_space trim_end
trim-word [] ink = refl
trim-word (c ∷ cs) ink =
    ap trim_end (skip_space-ink c cs ink.0) ∙ trim_end-word (c ∷ cs) (spaceless (c ∷ cs) ink)

-- A line of the file; brackets without a name are no heading.
pub data FileLine : Type 0 where
  blank brackets main_heading wanted_option : FileLine
  remark : ℕ → Bytes → FileLine
  heading : Bytes → FileLine
  other_option : Bytes → Bytes → FileLine

abbrev pub text_of : Bytes → FileLine → Bytes
text_of wanted blank = []
text_of wanted brackets = codes "[]"
text_of wanted main_heading = codes "[config]"
text_of wanted wanted_option = codes "id=" ++ wanted
text_of wanted (remark mark rest) = mark ∷ rest
text_of wanted (heading name) = b'[' ∷ name ++ b']' ∷ []
text_of wanted (other_option key value) = key ++ b'=' ∷ value

-- What a line holds: a mark and whatever follows, a name other than that of the main section, or a key and a value of
-- which one is not that of the wanted option.
abbrev pub IsLine : Bytes → FileLine → Type 0
IsLine wanted blank = Unit
IsLine wanted brackets = Unit
IsLine wanted main_heading = Unit
IsLine wanted wanted_option = Unit
IsLine wanted (remark mark rest) =
    ((mark ≡ b'#') ⊎ ((mark ≡ b';') ⊎ (mark ≡ b'{'))) × All (λ c. c ≢ 10) rest
IsLine wanted (heading name) = IsWord name × (name ≢ codes "config")
IsLine wanted (other_option key value) =
    IsWord key × All IsWordByte value × ((key ≢ codes "id") ⊎ (value ≢ wanted))

abbrev pub print : Bytes → List FileLine → Bytes
print wanted [] = []
print wanted (line ∷ lines) = text_of wanted line ++ 10 ∷ print wanted lines
