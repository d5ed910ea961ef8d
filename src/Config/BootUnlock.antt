-- ===== src/Config/BootUnlock.antt =====
-- sys-agent/source/boot_unlock_config.c: the schedule of the boot unlock.
pub mod Limits
use sys_agent.Prelude.{
  ℕ, ◌%◌, Bool, true, false, not, ◌&&◌, ◌||◌, Option, none, some, List, [], ◌∷◌, Bytes, length, ltb,
  leb, ◌==◌, if◌then◌else◌,
}
use sys_agent.Prelude.Word.{u32_mod}
use sys_agent.Libc.{is_space, is_empty, strtoull}
use sys_agent.Config.Ini.{
  codes, text_eq, split_first, trim, lines_from, run_lines, FileRead, missing, unopened, opened,
  c_text, file_limit,
}

-- `BootUnlockMode`
pub data UnlockMode : Type 0 where
  off armed every_boot : UnlockMode

-- `BootUnlockConfig`
pub record UnlockConfig : Type 0 where
  pub mode : UnlockMode
  pub first_delay_ms : ℕ
  pub wake_attempts : ℕ
  pub wake_delay_ms : ℕ
  pub verify_delay_ms : ℕ
  pub press_gap_ms : ℕ
  pub burst_presses : ℕ
  pub max_rounds : ℕ
  pub deadline_ms : ℕ

-- `BootUnlockConfigResult`
pub data UnlockResult : Type 0 where
  unlock_ok not_found invalid_value io_error : UnlockResult

-- `bootUnlockConfigDefaults`
abbrev pub unlock_defaults : UnlockConfig
unlock_defaults = record {
  mode = armed;
  first_delay_ms = 2000;
  wake_attempts = 4;
  wake_delay_ms = 600;
  verify_delay_ms = 1500;
  press_gap_ms = 250;
  burst_presses = 3;
  max_rounds = 8;
  deadline_ms = 90000;
}

-- `parseUnsigned`: a number in decimal that is at most `max`.
unfoldable pub parse_unsigned : Bytes → ℕ → Option ℕ
parse_unsigned value max =
    let p = strtoull value 10 in
    if is_empty value
    then none
    else if not p.moved || not (is_empty p.rest)
    then none
    else if ltb max p.value
    then none
    else some (p.value % u32_mod)

-- `bootUnlockModeFromName`
unfoldable pub mode_from_name : Bytes → Option UnlockMode
mode_from_name name =
    if text_eq name (codes "off")
    then some off
    else if text_eq name (codes "armed")
    then some armed
    else if text_eq name (codes "everyBoot")
        || text_eq name (codes "every-boot")
        || text_eq name (codes "always")
    then some every_boot
    else none

-- The loop that cuts a trailing comment; whether a comment may start here.
unfoldable pub strip_comment : Bool → Bytes → Bytes
strip_comment at_gap [] = []
strip_comment at_gap (c ∷ cs) =
    let rest = strip_comment (is_space c) cs in
    if (c == b'#' || c == b';') && at_gap then [] else c ∷ rest

-- The configuration with a number set, if it was accepted.
unfoldable pub with_number : Option ℕ → (ℕ → UnlockConfig) → Option UnlockConfig
with_number none f = none
with_number (some n) f = some (f n)

-- The chain over the keys; an unknown key is ignored.
unfoldable pub set_option : UnlockConfig → Bytes → Bytes → Option UnlockConfig
set_option config key value =
    if text_eq key (codes "mode")
    then elim (mode_from_name value) [ none ↦ none | some m ↦ some (record config { mode = m }) ]
    else if text_eq key (codes "firstDelayMs")
    then with_number (parse_unsigned value 600000) (λ n. record config { first_delay_ms = n })
    else if text_eq key (codes "wakeDelayMs")
    then with_number (parse_unsigned value 60000) (λ n. record config { wake_delay_ms = n })
    else if text_eq key (codes "wakeAttempts")
    then with_number (parse_unsigned value 10) (λ n. record config { wake_attempts = n })
    else if text_eq key (codes "verifyDelayMs")
    then with_number (parse_unsigned value 60000) (λ n. record config { verify_delay_ms = n })
    else if text_eq key (codes "pressGapMs")
    then with_number (parse_unsigned value 1000) (λ n. record config { press_gap_ms = n })
    else if text_eq key (codes "burstPresses")
    then with_number (parse_unsigned value 10) (λ n. record config { burst_presses = n })
    else if text_eq key (codes "maxRounds")
    then with_number (parse_unsigned value 32) (λ n. record config { max_rounds = n })
    else if text_eq key (codes "deadlineMs")
    then with_number (parse_unsigned value 600000) (λ n. record config { deadline_ms = n })
    else some config

-- A line `key = value` in the section.
unfoldable pub option_line : UnlockConfig → Bytes → Option UnlockConfig
option_line config line = elim (split_first b'=' line) [
  | none ↦ none
  | some (front, back) ↦ set_option config (trim front) (trim (strip_comment true (trim back)))
]

-- A line `[name]`: whether it opens the section.
unfoldable pub section_line : Bytes → Option Bool
section_line line = elim (split_first b']' line) [
  | none ↦ none
  | some (front, back) ↦
      some (text_eq (trim front) (codes "boot-unlock") || text_eq (trim front) (codes "bootunlock"))
]

-- The body of the loop, on a trimmed line: the section flag and the configuration.
unfoldable pub unlock_line : Bool × UnlockConfig → Bytes → Option (Bool × UnlockConfig)
unlock_line (in_section, config) [] = some (in_section, config)
unlock_line (in_section, config) (c ∷ cs) =
    if c == b'#' || c == b';'
    then some (in_section, config)
    else if c == b'['
    then elim (section_line cs) [ none ↦ none | some opens ↦ some (opens, config) ]
    else if not in_section
    then some (in_section, config)
    else elim (option_line config (c ∷ cs)) [
      | none ↦ none
      | some config' ↦ some (in_section, config')
    ]

-- The check behind the loop.
unfoldable pub is_schedule : UnlockConfig → Bool
is_schedule config = not (
    config.max_rounds == 0
    || config.burst_presses == 0
    || config.press_gap_ms == 0
    || config.deadline_ms == 0
    || leb 1000 config.press_gap_ms)

-- `bootUnlockConfigParseText`, with a copy of the text that may not be allocated.
unfoldable pub parse_unlock_text : Bool → Bytes → UnlockResult × UnlockConfig
parse_unlock_text allocated text =
    let (finished, (in_section, config)) =
      run_lines unlock_line (false, unlock_defaults) (lines_from [] text) in
    if not allocated
    then (invalid_value, unlock_defaults)
    else if finished && is_schedule config
    then (unlock_ok, config)
    else (invalid_value, config)

-- `bootUnlockConfigLoad`
unfoldable pub load_unlock_config : Bool → FileRead → UnlockResult × UnlockConfig
load_unlock_config allocated missing = (not_found, unlock_defaults)
load_unlock_config allocated unopened = (io_error, unlock_defaults)
load_unlock_config allocated (opened error bytes) =
    if error || ltb file_limit (length bytes)
    then (io_error, unlock_defaults)
    else parse_unlock_text allocated (c_text bytes)
