-- ===== src/Config/Hekate.antt =====
-- sys-agent/source/hekate_config.c: the number of the boot entry with an id, in the main configuration of hekate.
-- `hekateFindMainConfigId` runs over the bytes of the file, on fuel.
pub mod Entries
pub mod Printed
pub mod Lines
pub mod Whole
mod Tests
use sys_agent.Prelude.{
  ℕ, zero, suc, ◌+◌, ◌-◌, ◌%◌, Bool, true, false, not, ◌&&◌, ◌||◌, Option, none, some, List, [],
  ◌∷◌, Bytes, length, ltb, leb, ◌==◌, if◌then◌else◌,
}
use sys_agent.Prelude.Word.{u32_mod}
use sys_agent.Config.Ini.{codes, text_eq, split_first, trim, c_text}

-- `HEKATE_LINE_MAX` and `HEKATE_RTC_INDEX_MAX`
abbrev pub line_max : ℕ
line_max = 512

abbrev pub rtc_index_max : ℕ
rtc_index_max = 15

-- `HekateConfigResult`, with the index that is given where it is OK.
pub data IdResult : Type 0 where
  found : ℕ → IdResult
  open_failed id_not_found duplicate_id index_out_of_range : IdResult

-- What `fgets` takes where so many bytes have room, and what is left of the file.
unfoldable pub fgets : ℕ → Bytes → Bytes × Bytes
fgets zero text = ([], text)
fgets (suc room) [] = ([], [])
fgets (suc room) (c ∷ cs) =
    let (line, rest) = fgets room cs in if c == 10 then (c ∷ [], cs) else (c ∷ line, rest)

-- The text in front of the last byte, if that is a `]`.
unfoldable pub before_bracket : Bytes → Option Bytes
before_bracket [] = none
before_bracket (c ∷ cs) =
    let longer : Option Bytes = elim (before_bracket cs) [
      | none ↦ none
      | some front ↦ some (c ∷ front)
    ] in
    elim cs [ [] ↦ (if c == b']' then some [] else none) | d ∷ ds ↦ longer ]

-- The name of the section that a line starts, if it does.
unfoldable pub section_of : Bytes → Option Bytes
section_of [] = none
section_of (c ∷ cs) = if c == b'[' && leb 3 (length (c ∷ cs)) then before_bracket cs else none

-- Whether a line is passed over.
unfoldable pub is_passed_over : Bytes → Bool
is_passed_over [] = true
is_passed_over (c ∷ cs) = c == b'#' || c == b';' || c == b'{'

-- Whether a line gives an entry the id that is wanted.
unfoldable pub is_id_line : Bytes → Bytes → Bool
is_id_line wanted text = elim (split_first b'=' text) [
  | none ↦ false
  | some (front, back) ↦ text_eq (trim front) (codes "id") && text_eq (trim back) wanted
]

-- The variables of the loop; `found_index` is none where `found` is false.
pub record Progress : Type 0 where
  pub in_boot_entry : Bool
  pub index : ℕ
  pub current_index : ℕ
  pub found_index : Option ℕ

-- A section starts, which is the main one or not.
unfoldable pub enter_section : Bool → Progress → Progress
enter_section is_main s =
    let next = (s.index + 1) % u32_mod in
    if is_main
    then record s { in_boot_entry = false }
    else record s { in_boot_entry = true; index = next; current_index = next }

-- One round on a trimmed line; nothing is left where the id was found before.
unfoldable pub read_line : Bytes → Bytes → Progress → Option Progress
read_line wanted text s =
    let here : Option Progress = elim s.found_index [
      | none ↦ some record s { found_index = some s.current_index }
      | some i ↦ none
    ] in
    let entry = if s.in_boot_entry && is_id_line wanted text then here else some s in
    if is_passed_over text then some s else elim (section_of text) [
      | none ↦ entry
      | some name ↦ some (enter_section (text_eq (trim name) (codes "config")) s)
    ]

-- What the loop's variables give at its end.
unfoldable pub conclude : Option ℕ → IdResult
conclude none = id_not_found
conclude (some i) = if i == 0 || ltb rtc_index_max i then index_out_of_range else found i

-- The loop over the lines, on fuel.
unfoldable pub read_entries : ℕ → Bytes → Progress → Bytes → Option IdResult
read_entries zero wanted s text = none
read_entries (suc fuel) wanted s [] = some (conclude s.found_index)
read_entries (suc fuel) wanted s (c ∷ cs) =
    let (line, rest) = fgets (line_max - 1) (c ∷ cs) in
    elim (read_line wanted (trim (c_text line)) s) [
      | none ↦ some duplicate_id
      | some s' ↦ read_entries fuel wanted s' rest
    ]

abbrev pub no_progress : Progress
no_progress = record { in_boot_entry = false; index = 0; current_index = 0; found_index = none }

-- `hekateFindMainConfigId`, for a path and a place for the index that are not `NULL`, by what the file holds if it
-- can be opened.
unfoldable pub find_main_config_id : Option Bytes → Bytes → Option IdResult
find_main_config_id file [] = some id_not_found
find_main_config_id file (w ∷ ws) = elim file [
  | none ↦ some open_failed
  | some text ↦ read_entries (length text + 1) (w ∷ ws) no_progress text
]
