-- ===== src/Config/BootUnlock/Limits.antt =====
-- The schedule that a configuration file can set.
use sys_agent.Prelude.{
  ℕ, ◌≤◌, ◌<◌, ◌≡◌, subst, arith, Bool, true, false, not, ◌&&◌, ◌||◌, none, some, [], ◌∷◌, Bytes,
  length, ltb, Option-cases, inl, inr,
}
use sys_agent.Config.Ini.{
  either_value, both_ways, split_first, trim, lines_from, run_lines, run_lines_invariant, FileRead,
  missing, unopened, opened, c_text, file_limit,
}
use sys_agent.Config.BootUnlock.{
  UnlockConfig, UnlockResult, unlock_ok, unlock_defaults, parse_unsigned, mode_from_name,
  with_number, set_option, strip_comment, option_line, section_line, unlock_line, is_schedule,
  parse_unlock_text, load_unlock_config,
}

-- Every number is at most its limit.
abbrev pub IsLimited : UnlockConfig → Type 0
IsLimited config =
    (config.first_delay_ms ≤ 600000)
    × (config.wake_attempts ≤ 10)
    × (config.wake_delay_ms ≤ 60000)
    × (config.verify_delay_ms ≤ 60000)
    × (config.press_gap_ms ≤ 1000)
    × (config.burst_presses ≤ 10)
    × (config.max_rounds ≤ 32)
    × (config.deadline_ms ≤ 600000)

-- A schedule leaves the worker something to do, with a gap below a second between presses.
abbrev pub IsSchedule : UnlockConfig → Type 0
IsSchedule config =
    (0 < config.max_rounds)
    × (0 < config.burst_presses)
    × (0 < config.deadline_ms)
    × (0 < config.press_gap_ms)
    × (config.press_gap_ms < 1000)

parse_unsigned-limit : (value : Bytes) (max n : ℕ) → parse_unsigned value max ≡ some n → n ≤ max
unfolding parse_unsigned
parse_unsigned-limit value max n e = ground arith

-- A number that is set is within its limit, and so is the configuration.
with_number-IsLimited :
    (value : Bytes) (max : ℕ) (f : ℕ → UnlockConfig) (config : UnlockConfig)
    → ((n : ℕ) → n ≤ max → IsLimited (f n))
    → with_number (parse_unsigned value max) f ≡ some config
    → IsLimited config
unfolding with_number
with_number-IsLimited value max f config keeps e = elim (Option-cases (parse_unsigned value max)) [
  | inl none_read ↦ absurd (ground (arith, none_read))
  | inr (n, read) ↦
      let same : f n ≡ config = ground (arith, read) in
      subst IsLimited same (keeps n (parse_unsigned-limit value max n read))
]

module _ (config : UnlockConfig) (h : IsLimited config) (value : Bytes)
    (config' : UnlockConfig) where
  set_mode :
      elim (mode_from_name value) [ none ↦ none | some m ↦ some (record config { mode = m }) ]
        ≡ some config'
      → IsLimited config'
  set_mode e = elim (Option-cases (mode_from_name value)) [
    | inl r ↦ absurd (ground (arith, r))
    | inr (m, r) ↦
        let same : record config { mode = m } ≡ config' = ground (arith, r) in
        subst IsLimited same h
  ]

  unchanged : some config ≡ some config' → IsLimited config'
  unchanged e = let same : config ≡ config' = ground arith in subst IsLimited same h

  set_first_delay_ms :
      with_number (parse_unsigned value 600000) (λ n. record config { first_delay_ms = n })
        ≡ some config'
      → IsLimited config'
  set_first_delay_ms = with_number-IsLimited value 600000 _ config' (λ n le. ground (arith, le, h))

  set_wake_delay_ms :
      with_number (parse_unsigned value 60000) (λ n. record config { wake_delay_ms = n })
        ≡ some config'
      → IsLimited config'
  set_wake_delay_ms = with_number-IsLimited value 60000 _ config' (λ n le. ground (arith, le, h))

  set_wake_attempts :
      with_number (parse_unsigned value 10) (λ n. record config { wake_attempts = n })
        ≡ some config'
      → IsLimited config'
  set_wake_attempts = with_number-IsLimited value 10 _ config' (λ n le. ground (arith, le, h))

  set_verify_delay_ms :
      with_number (parse_unsigned value 60000) (λ n. record config { verify_delay_ms = n })
        ≡ some config'
      → IsLimited config'
  set_verify_delay_ms = with_number-IsLimited value 60000 _ config' (λ n le. ground (arith, le, h))

  set_press_gap_ms :
      with_number (parse_unsigned value 1000) (λ n. record config { press_gap_ms = n })
        ≡ some config'
      → IsLimited config'
  set_press_gap_ms = with_number-IsLimited value 1000 _ config' (λ n le. ground (arith, le, h))

  set_burst_presses :
      with_number (parse_unsigned value 10) (λ n. record config { burst_presses = n })
        ≡ some config'
      → IsLimited config'
  set_burst_presses = with_number-IsLimited value 10 _ config' (λ n le. ground (arith, le, h))

  set_max_rounds :
      with_number (parse_unsigned value 32) (λ n. record config { max_rounds = n }) ≡ some config'
      → IsLimited config'
  set_max_rounds = with_number-IsLimited value 32 _ config' (λ n le. ground (arith, le, h))

  set_deadline_ms :
      with_number (parse_unsigned value 600000) (λ n. record config { deadline_ms = n })
        ≡ some config'
      → IsLimited config'
  set_deadline_ms = with_number-IsLimited value 600000 _ config' (λ n le. ground (arith, le, h))

  set_option-IsLimited :
      (key : Bytes) → set_option config key value ≡ some config' → IsLimited config'
  unfolding set_option
  set_option-IsLimited key = both_ways IsLimited _ _ _ config' set_mode (
      both_ways IsLimited _ _ _ config' set_first_delay_ms (
        both_ways IsLimited _ _ _ config' set_wake_delay_ms (
          both_ways IsLimited _ _ _ config' set_wake_attempts (
            both_ways IsLimited _ _ _ config' set_verify_delay_ms (
              both_ways IsLimited _ _ _ config' set_press_gap_ms (
                both_ways IsLimited _ _ _ config' set_burst_presses (
                  both_ways IsLimited _ _ _ config' set_max_rounds
                    (both_ways IsLimited _ _ _ config' set_deadline_ms (unchanged)))))))))

option_line-IsLimited :
    (config : UnlockConfig) (line : Bytes) (config' : UnlockConfig)
    → IsLimited config
    → option_line config line ≡ some config'
    → IsLimited config'
unfolding option_line
option_line-IsLimited config line config' h e = elim (Option-cases (split_first b'=' line)) [
  | inl r ↦ absurd (ground (arith, r))
  | inr ((front, back), r) ↦
      set_option-IsLimited config h (trim (strip_comment true (trim back))) config' (trim front)
        (ground (arith, r))
]

-- The loop's state keeps its configuration within the limits.
abbrev StateIsLimited : Bool × UnlockConfig → Type 0
StateIsLimited s = IsLimited s.1

unlock_line-IsLimited :
    (s : Bool × UnlockConfig) (line : Bytes) (s' : Bool × UnlockConfig)
    → StateIsLimited s
    → unlock_line s line ≡ some s'
    → StateIsLimited s'
unfolding unlock_line
unlock_line-IsLimited (in_section, config) [] s' h e =
    let same : (in_section, config) ≡ s' = ground arith in subst StateIsLimited same h
unlock_line-IsLimited (in_section, config) (c ∷ cs) s' h e =
    both_ways StateIsLimited _ _ _ s' same_state
      (both_ways StateIsLimited _ _ _ s' section
        (both_ways StateIsLimited _ _ _ s' same_state option))
      e
  where
    same_state : some (in_section, config) ≡ some s' → StateIsLimited s'
    same_state e =
        let same : (in_section, config) ≡ s' = ground arith in subst StateIsLimited same h

    section :
        elim (section_line cs) [ none ↦ none | some opens ↦ some (opens, config) ] ≡ some s'
        → StateIsLimited s'
    section e = elim (Option-cases (section_line cs)) [
      | inl r ↦ absurd (ground (arith, r))
      | inr (opens, r) ↦
          let same : (opens, config) ≡ s' = ground (arith, r) in subst StateIsLimited same h
    ]

    option :
        elim (option_line config (c ∷ cs)) [
          | none ↦ none
          | some config' ↦ some (in_section, config')
        ]
          ≡ some s'
        → StateIsLimited s'
    option e = elim (Option-cases (option_line config (c ∷ cs))) [
      | inl r ↦ absurd (ground (arith, r))
      | inr (config', r) ↦
          let same : (in_section, config') ≡ s' = ground (arith, r) in
          subst StateIsLimited same (option_line-IsLimited config (c ∷ cs) config' h r)
    ]

-- An answer's configuration is within the limits.
abbrev AnswerIsLimited : UnlockResult × UnlockConfig → Type 0
AnswerIsLimited r = IsLimited r.1

-- Where the result is OK, there is something to do.
abbrev IsBusy : UnlockResult × UnlockConfig → Type 0
IsBusy r = r.0 ≡ unlock_ok → IsSchedule r.1

parse_unlock_text-IsLimited :
    (allocated : Bool) (text : Bytes) → AnswerIsLimited (parse_unlock_text allocated text)
unfolding parse_unlock_text
parse_unlock_text-IsLimited allocated text =
    let ended = run_lines unlock_line (false, unlock_defaults) (lines_from [] text) in
    let kept : StateIsLimited ended.1 =
      run_lines_invariant unlock_line StateIsLimited (false, unlock_defaults) (lines_from [] text)
        unlock_line-IsLimited (ground arith) in
    either_value AnswerIsLimited (not allocated) _ _ (ground arith)
      (either_value AnswerIsLimited (ended.0 && is_schedule ended.1.1) _ _ kept kept)

parse_unlock_text_ok : (allocated : Bool) (text : Bytes) → IsBusy (parse_unlock_text allocated text)
unfolding parse_unlock_text is_schedule
parse_unlock_text_ok allocated text e =
    let ended = run_lines unlock_line (false, unlock_defaults) (lines_from [] text) in ground arith

-- Whatever the file and the allocation of the copy give, every number of the configuration is at most its
-- limit, also when the result is an error.
pub load_unlock_config-IsLimited :
    (allocated : Bool) (file : FileRead) → IsLimited (load_unlock_config allocated file).1
unfolding load_unlock_config
load_unlock_config-IsLimited allocated missing = ground arith
load_unlock_config-IsLimited allocated unopened = ground arith
load_unlock_config-IsLimited allocated (opened error bytes) =
    either_value AnswerIsLimited (error || ltb file_limit (length bytes)) _ _ (ground arith)
      (parse_unlock_text-IsLimited allocated (c_text bytes))

-- Where the result is OK there is at least one round, at least one press, a deadline that is not 0, and a gap
-- between presses from 1 to 999 milliseconds.
pub load_unlock_config-IsSchedule :
    (allocated : Bool) (file : FileRead)
    → (load_unlock_config allocated file).0 ≡ unlock_ok
    → IsSchedule (load_unlock_config allocated file).1
unfolding load_unlock_config
load_unlock_config-IsSchedule allocated missing e = cc
load_unlock_config-IsSchedule allocated unopened e = cc
load_unlock_config-IsSchedule allocated (opened error bytes) e =
    either_value IsBusy (error || ltb file_limit (length bytes)) _ _ (λ e. cc)
      (parse_unlock_text_ok allocated (c_text bytes)) e
