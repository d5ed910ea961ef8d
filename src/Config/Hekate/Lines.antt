-- ===== src/Config/Hekate/Lines.antt =====
-- Each line of the configuration of hekate is what it is printed for, in sys-agent/source/hekate_config.c.
use sys_agent.Prelude.{
  ℕ, ◌≡◌, ◌≢◌, ◌⊎◌, refl, ap, ◌∙◌, arith, Bool, true, false, ◌&&◌, none, some, [], ◌∷◌, ◌++◌, All,
  Bytes, length, length-append, leb, ◌==◌, if◌then◌else◌, Bool-cases, inl, inr,
}
use sys_agent.Libc.{is_space, skip_space, is_empty}
use sys_agent.Config.Ini.{codes, text_eq, split_first, trim_end, trim, c_text}
use sys_agent.Config.Hekate.{before_bracket, section_of, is_passed_over, is_id_line}
use sys_agent.Config.Hekate.Printed.{
  IsWordByte, IsWord, IsInk, FileLine, blank, brackets, main_heading, wanted_option, remark,
  heading, other_option, text_of, IsLine, trim-ink, trim-word, before_bracket-name, split_first-key,
  text_eq-same, text_eq→eq, All-map, All-append, IsWordByte-IsInk, ink-space, skip_space-ink,
}
use sys_agent.Config.Hekate.Entries.{Item, main_section, boot_section, id_line, other_line, item_of}

-- What a line is printed for.
abbrev pub meaning_of : FileLine → Item
meaning_of blank = other_line
meaning_of brackets = other_line
meaning_of main_heading = main_section
meaning_of wanted_option = id_line
meaning_of (remark mark rest) = other_line
meaning_of (heading name) = boot_section
meaning_of (other_option key value) = other_line

-- What the loop reads of a printed line.
abbrev pub read_back : Bytes → Bytes
read_back text = trim (c_text (text ++ 10 ∷ []))

main_heading-item : (wanted : Bytes) → item_of wanted (read_back (codes "[config]")) ≡ main_section
unfolding is_passed_over section_of before_bracket trim skip_space is_space trim_end is_empty
    text_eq c_text
main_heading-item wanted = refl

brackets-item : (wanted : Bytes) → item_of wanted (read_back (codes "[]")) ≡ other_line
unfolding is_passed_over section_of before_bracket is_id_line split_first trim skip_space is_space
    trim_end is_empty c_text
brackets-item wanted = refl

blank-item : (wanted : Bytes) → item_of wanted (read_back []) ≡ other_line
unfolding is_passed_over trim skip_space is_space trim_end is_empty c_text
blank-item wanted = refl

section_of-name : (c : ℕ) (cs : Bytes) → section_of (b'[' ∷ (c ∷ cs) ++ b']' ∷ []) ≡ some (c ∷ cs)
unfolding section_of
section_of-name c cs =
    let found = before_bracket-name (c ∷ cs) in
    let long = length-append cs (b']' ∷ []) in
    let large : leb 3 (length (b'[' ∷ (c ∷ cs) ++ b']' ∷ [])) ≡ true = ground (arith, long) in
    rw (large, section_of) found

-- What an item is, by what the tests say.
item-section :
    (wanted text name : Bytes)
    → is_passed_over text ≡ false
    → section_of text ≡ some name
    → item_of wanted text
      ≡ (if text_eq (trim name) (codes "config") then main_section else boot_section)
item-section wanted text name passed found = ground arith

item-option :
    (wanted text : Bytes) (given : Bool)
    → is_passed_over text ≡ false
    → section_of text ≡ none
    → is_id_line wanted text ≡ given
    → item_of wanted text ≡ (if given then id_line else other_line)
item-option wanted text given passed found e = ground arith

heading-item :
    (wanted name : Bytes)
    → IsWord name
    → name ≢ codes "config"
    → item_of wanted (b'[' ∷ name ++ b']' ∷ []) ≡ boot_section
unfolding is_passed_over
heading-item wanted [] word other = absurd word
heading-item wanted (c ∷ cs) word other =
    let name : Bytes = c ∷ cs in
    let kept = trim-word name (All-map name IsWordByte-IsInk word) in
    let different : text_eq name (codes "config") ≡ false =
      elim (Bool-cases (text_eq name (codes "config"))) [
        | inl e ↦ absurd (other (text_eq→eq name (codes "config") e))
        | inr e ↦ e
      ] in
    item-section wanted (b'[' ∷ name ++ b']' ∷ []) name refl (section_of-name c cs)
    ∙ rw (kept, different) refl

passed-word : (c : ℕ) (cs : Bytes) → IsWordByte c → is_passed_over (c ∷ cs) ≡ false
unfolding is_passed_over
passed-word c cs h = let plain = h.plain in ground arith

section-word : (c : ℕ) (cs : Bytes) → IsWordByte c → section_of (c ∷ cs) ≡ none
unfolding section_of
section-word c cs h = let plain = h.plain in ground arith

is_id_line-option :
    (wanted key value : Bytes)
    → All IsWordByte key
    → All IsInk value
    → is_id_line wanted (key ++ b'=' ∷ value) ≡ (text_eq key (codes "id") && text_eq value wanted)
unfolding is_id_line
is_id_line-option wanted key value word ink =
    let split = split_first-key key value (All-map key (λ d h. h.plain.0) word) in
    rw (split, is_id_line, trim-word key (All-map key IsWordByte-IsInk word), trim-word value ink)
      refl

option-item :
    (wanted value : Bytes) (c : ℕ) (cs : Bytes)
    → All IsWordByte (c ∷ cs)
    → All IsInk value
    → item_of wanted ((c ∷ cs) ++ b'=' ∷ value)
      ≡ (if text_eq (c ∷ cs) (codes "id") && text_eq value wanted then id_line else other_line)
option-item wanted value c cs word ink =
    item-option wanted ((c ∷ cs) ++ b'=' ∷ value)
      (text_eq (c ∷ cs) (codes "id") && text_eq value wanted)
      (passed-word c (cs ++ b'=' ∷ value) word.0) (section-word c (cs ++ b'=' ∷ value) word.0)
      (is_id_line-option wanted (c ∷ cs) value word ink)

id_word : All IsWordByte (codes "id")
id_word = (
  record {
    printable = omega arith;
    ascii = omega arith;
    plain = (omega arith, omega arith, omega arith, omega arith, omega arith);
  },
  (
    record {
      printable = omega arith;
      ascii = omega arith;
      plain = (omega arith, omega arith, omega arith, omega arith, omega arith);
    },
    tt,
  ),
)

passed-mark :
    (mark : ℕ) (rest : Bytes)
    → IsInk mark
    → (tail : Bytes) × (read_back (mark ∷ rest) ≡ mark ∷ tail)
unfolding trim c_text trim_end is_empty
passed-mark mark rest ink =
    let cut = c_text (rest ++ 10 ∷ []) in
    let solid = ink-space mark ink in
    let there : (mark == 0) ≡ false = ground (arith, ink) in
    (trim_end cut, rw there (ap trim_end (skip_space-ink mark cut ink) ∙ rw solid refl))

mark-item :
    (wanted : Bytes) (mark : ℕ) (tail : Bytes)
    → (mark ≡ b'#') ⊎ ((mark ≡ b';') ⊎ (mark ≡ b'{'))
    → item_of wanted (mark ∷ tail) ≡ other_line
unfolding is_passed_over
mark-item wanted mark tail h =
    let passed : is_passed_over (mark ∷ tail) ≡ true = ground arith in rw passed refl

remark-item :
    (wanted : Bytes) (mark : ℕ) (rest : Bytes)
    → (mark ≡ b'#') ⊎ ((mark ≡ b';') ⊎ (mark ≡ b'{'))
    → item_of wanted (read_back (mark ∷ rest)) ≡ other_line
remark-item wanted mark rest h =
    let (tail, shape) = passed-mark mark rest (ground (arith, h), ground (arith, h)) in
    ap (item_of wanted) shape ∙ mark-item wanted mark tail h

wanted-item :
    (wanted : Bytes)
    → (if text_eq (codes "id") (codes "id") && text_eq wanted wanted then id_line else other_line)
      ≡ id_line
wanted-item wanted = rw (text_eq-same (codes "id"), text_eq-same wanted) refl

different-item :
    (wanted key value : Bytes)
    → (key ≢ codes "id") ⊎ (value ≢ wanted)
    → (if text_eq key (codes "id") && text_eq value wanted then id_line else other_line)
      ≡ other_line
different-item wanted key value h = elim (Bool-cases (text_eq key (codes "id"))) [
  | inr e ↦ rw e refl
  | inl e ↦ elim (Bool-cases (text_eq value wanted)) [
    | inr e' ↦ rw (e, e') refl
    | inl e' ↦ elim h [
      | inl other ↦ absurd (other (text_eq→eq key (codes "id") e))
      | inr other ↦ absurd (other (text_eq→eq value wanted e'))
    ]
  ]
]

-- Each line is read as what it is printed for.
pub item_of-text_of :
    (wanted : Bytes) (line : FileLine)
    → All IsWordByte wanted
    → IsLine wanted line
    → item_of wanted (read_back (text_of wanted line)) ≡ meaning_of line
item_of-text_of wanted blank word ok = blank-item wanted
item_of-text_of wanted brackets word ok = brackets-item wanted
item_of-text_of wanted main_heading word ok = main_heading-item wanted
item_of-text_of wanted wanted_option word ok =
    let ink = All-map wanted IsWordByte-IsInk word in
    let whole =
      All-append IsInk (codes "id=") wanted
        ((omega arith, omega arith), ((omega arith, omega arith), ((omega arith, omega arith), tt)))
        ink in
    ap (item_of wanted) (trim-ink (codes "id=" ++ wanted) whole)
    ∙ option-item wanted wanted b'i' (b'd' ∷ []) id_word ink
    ∙ wanted-item wanted
item_of-text_of wanted (remark mark rest) word ok = remark-item wanted mark rest ok.0
item_of-text_of wanted (heading []) word ok = absurd ok.0
item_of-text_of wanted (heading (c ∷ cs)) word ok =
    let name : Bytes = c ∷ cs in
    ap (item_of wanted) (
      trim-ink (b'[' ∷ name ++ b']' ∷ []) (
        (omega arith, omega arith),
        All-append IsInk name (b']' ∷ []) (All-map name IsWordByte-IsInk ok.0)
            ((omega arith, omega arith), tt),
      ))
    ∙ heading-item wanted name ok.0 ok.1
item_of-text_of wanted (other_option [] value) word ok = absurd ok.0
item_of-text_of wanted (other_option (c ∷ cs) value) word ok =
    let key : Bytes = c ∷ cs in
    let ink = All-map value IsWordByte-IsInk ok.1 in
    ap (item_of wanted) (
      trim-ink (key ++ b'=' ∷ value) (
        All-append IsInk key (b'=' ∷ value) (All-map key IsWordByte-IsInk ok.0)
          ((omega arith, omega arith), ink)))
    ∙ option-item wanted value c cs ok.0 ink
    ∙ different-item wanted key value ok.2
