-- ===== src/Config/Hekate/Whole.antt =====
-- `hekateFindMainConfigId` of sys-agent/source/hekate_config.c on a whole file.
use sys_agent.Prelude.{
  ℕ, zero, suc, ◌+◌, ◌-◌, ◌<◌, ◌≡◌, ◌≢◌, refl, ap, ap₂, ◌∙◌, map, arith, some, List, [], ◌∷◌, ◌++◌,
  All, Bytes, length, length-append,
}
use sys_agent.Prelude.Word.{u32_mod}
use sys_agent.Config.Ini.{trim, c_text}
use sys_agent.Config.Hekate.{line_max, fgets, find_main_config_id}
use sys_agent.Config.Hekate.Printed.{
  IsWordByte, IsWord, IsInk, FileLine, blank, brackets, main_heading, wanted_option, remark,
  heading, other_option, text_of, IsLine, print, fgets-line, All-map, All-append, IsWordByte-IsInk,
}
use sys_agent.Config.Hekate.Lines.{meaning_of, item_of-text_of}
use sys_agent.Config.Hekate.Entries.{
  item_of, with_id, answer_of, lines_of, find_main_config_id-with_id,
}

-- A line as above that fits the buffer with its end and a terminator.
abbrev pub FitsBuffer : Bytes → FileLine → Type 0
FitsBuffer wanted line = IsLine wanted line × (length (text_of wanted line) < 511)

whole_bytes : (text : Bytes) → All IsInk text → All (λ c. c ≢ 10) text
whole_bytes text ink = All-map text (λ c h. λ e. omega (arith, e, h.0)) ink

text_of-whole :
    (wanted : Bytes) (line : FileLine)
    → All IsWordByte wanted
    → IsLine wanted line
    → All (λ c. c ≢ 10) (text_of wanted line)
text_of-whole wanted blank word ok = tt
text_of-whole wanted brackets word ok = (omega arith, (omega arith, tt))
text_of-whole wanted main_heading word ok = (
  omega arith,
  (
    omega arith,
    (omega arith, (omega arith, (omega arith, (omega arith, (omega arith, (omega arith, tt)))))),
  ),
)
text_of-whole wanted wanted_option word ok = (
  omega arith,
  (omega arith, (omega arith, whole_bytes wanted (All-map wanted IsWordByte-IsInk word))),
)
text_of-whole wanted (remark mark rest) word ok = (ground (arith, ok.0), ok.1)
text_of-whole wanted (heading []) word ok = absurd ok.0
text_of-whole wanted (heading (c ∷ cs)) word ok = (
  omega arith,
  All-append (λ b. b ≢ 10) (c ∷ cs) (b']' ∷ [])
      (whole_bytes (c ∷ cs) (All-map (c ∷ cs) IsWordByte-IsInk ok.0)) (omega arith, tt),
)
text_of-whole wanted (other_option [] value) word ok = absurd ok.0
text_of-whole wanted (other_option (c ∷ cs) value) word ok =
    All-append (λ b. b ≢ 10) (c ∷ cs) (b'=' ∷ value)
      (whole_bytes (c ∷ cs) (All-map (c ∷ cs) IsWordByte-IsInk ok.0))
      (omega arith, whole_bytes value (All-map value IsWordByte-IsInk ok.1))

lines_of-line :
    (n : ℕ) (text rest : Bytes)
    → lines_of (suc n) (text ++ 10 ∷ rest)
      ≡ trim (c_text (fgets (line_max - 1) (text ++ 10 ∷ rest)).0)
        ∷ lines_of n (fgets (line_max - 1) (text ++ 10 ∷ rest)).1
lines_of-line n [] rest = refl
lines_of-line n (c ∷ cs) rest = refl

lines_of-print :
    (n : ℕ) (wanted : Bytes) (lines : List FileLine)
    → All IsWordByte wanted
    → All (FitsBuffer wanted) lines
    → length (print wanted lines) < n
    → map (item_of wanted) (lines_of n (print wanted lines)) ≡ map meaning_of lines
lines_of-print zero wanted lines word ok enough = absurd (omega (arith, enough))
lines_of-print (suc n) wanted [] word ok enough = refl
lines_of-print (suc n) wanted (line ∷ lines) word ok enough =
    let text = text_of wanted line in
    let rest = print wanted lines in
    let long = length-append text (10 ∷ rest) in
    let taken =
      fgets-line (line_max - 1) text rest (text_of-whole wanted line word ok.0.0) ok.0.1 in
    let further = lines_of-print n wanted lines word ok.1 (omega (arith, long, enough)) in
    ap (map (item_of wanted)) (lines_of-line n text rest)
    ∙ ap (λ t. item_of wanted (trim (c_text t.0)) ∷ map (item_of wanted) (lines_of n t.1)) taken
    ∙ ap₂ (λ i is. i ∷ is) (item_of-text_of wanted line word ok.0.0) further

-- A configuration of less than 4 GiB, written line by line, each of at most 510 bytes: blank ones, remarks, empty brackets, headings of
-- the main section and of boot entries, and options, among which those with the wanted id, names, keys and values being
-- words without spaces. `hekateFindMainConfigId` answers by the boot entries that have the id, each listed as often as it
-- has it, and numbered by the headings of boot entries: the number of the only one if it is at most 15, and else the error
-- that fits. The id in the main section or in front of the first heading does not count.
pub find_main_config_id-print :
    (wanted : Bytes) (lines : List FileLine)
    → IsWord wanted
    → All (FitsBuffer wanted) lines
    → length (print wanted lines) < u32_mod
    → find_main_config_id (some (print wanted lines)) wanted
      ≡ some (answer_of (with_id 0 0 (map meaning_of lines)))
find_main_config_id-print [] lines word ok bound = absurd word
find_main_config_id-print (w ∷ ws) lines word ok bound =
    let text = print (w ∷ ws) lines in
    find_main_config_id-with_id text (w ∷ ws) (omega arith) bound
    ∙ ap (λ is. some (answer_of (with_id 0 0 is)))
        (lines_of-print (length text + 1) (w ∷ ws) lines word ok (omega arith))
