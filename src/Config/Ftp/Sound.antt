-- ===== src/Config/Ftp/Sound.antt =====
-- The settings that a configuration file can give the FTP server.
use sys_agent.Prelude.{
  ℕ, ◌≤◌, ◌<◌, ◌≡◌, ◌⊎◌, refl, subst, arith, Bool, true, false, not, ◌&&◌, ◌||◌, Option, none, some,
  [], ◌∷◌, Bytes, length, ltb, Option-cases, inl, inr,
}
use sys_agent.Libc.{is_empty}
use sys_agent.Config.Ini.{
  either_value, both_ways, codes, text_eq, split_first, trim, lines_from, run_lines,
  run_lines_invariant, FileRead, missing, unopened, opened, c_text, file_limit,
}
use sys_agent.Config.Ftp.{
  FtpConfig, FtpResult, ftp_ok, ftp_defaults, credential_size, parse_bool, copy_credential,
  number_between, with_value, set_ftp_option, ftp_option_line, ftp_line, parse_ftp_text,
  load_ftp_config,
}

-- The port and the timeout are numbers of their widths, the port not 0, and the credentials fit their buffers.
abbrev pub IsServable : FtpConfig → Type 0
IsServable config =
    (0 < config.port)
    × (config.port ≤ 65535)
    × (config.timeout ≤ 4294967295)
    × (length config.username < credential_size)
    × (length config.password < credential_size)

number_between-bounds :
    (lowest highest n : ℕ) (value : Bytes)
    → number_between lowest highest value ≡ some n
    → (lowest ≤ n) × (n ≤ highest)
unfolding number_between
number_between-bounds lowest highest n value e = ground arith

copy_credential-fits :
    (value t : Bytes) → copy_credential value ≡ some t → length t < credential_size
unfolding copy_credential
copy_credential-fits value t e = ground arith

-- Setting an accepted value keeps the configuration servable, if every accepted value does.
with_value-IsServable :
    {A : Type 0} (o : Option A) (f : A → FtpConfig) (config : FtpConfig)
    → ((a : A) → o ≡ some a → IsServable (f a))
    → with_value o f ≡ some config
    → IsServable config
unfolding with_value
with_value-IsServable o f config keeps e = elim (Option-cases o) [
  | inl none_read ↦ absurd (ground (arith, none_read))
  | inr (a, read) ↦
      let same : f a ≡ config = ground (arith, read) in subst IsServable same (keeps a read)
]

module _ (config : FtpConfig) (h : IsServable config) (value : Bytes) (config' : FtpConfig) where
  unchanged : some config ≡ some config' → IsServable config'
  unchanged e = let same : config ≡ config' = ground arith in subst IsServable same h

  set_enabled :
      with_value (parse_bool value) (λ a. record config { enabled = a }) ≡ some config'
      → IsServable config'
  set_enabled = with_value-IsServable (parse_bool value) _ config' (λ a e. h)

  set_anonymous :
      with_value (parse_bool value) (λ a. record config { anonymous = a }) ≡ some config'
      → IsServable config'
  set_anonymous = with_value-IsServable (parse_bool value) _ config' (λ a e. h)

  set_port :
      with_value (number_between 1 65535 value) (λ a. record config { port = a }) ≡ some config'
      → IsServable config'
  set_port =
      with_value-IsServable (number_between 1 65535 value) _ config'
        (λ a e. ground (arith, number_between-bounds 1 65535 a value e, h))

  set_timeout :
      with_value (number_between 0 4294967295 value) (λ a. record config { timeout = a })
        ≡ some config'
      → IsServable config'
  set_timeout =
      with_value-IsServable (number_between 0 4294967295 value) _ config'
        (λ a e. ground (arith, number_between-bounds 0 4294967295 a value e, h))

  set_use_localtime :
      with_value (parse_bool value) (λ a. record config { use_localtime = a }) ≡ some config'
      → IsServable config'
  set_use_localtime = with_value-IsServable (parse_bool value) _ config' (λ a e. h)

  set_username :
      with_value (copy_credential value) (λ a. record config { username = a }) ≡ some config'
      → IsServable config'
  set_username =
      with_value-IsServable (copy_credential value) _ config'
        (λ a e. ground (arith, copy_credential-fits value a e, h))

  set_password :
      with_value (copy_credential value) (λ a. record config { password = a }) ≡ some config'
      → IsServable config'
  set_password =
      with_value-IsServable (copy_credential value) _ config'
        (λ a e. ground (arith, copy_credential-fits value a e, h))

  set_ftp_option-IsServable :
      (key : Bytes) → set_ftp_option config key value ≡ some config' → IsServable config'
  unfolding set_ftp_option
  set_ftp_option-IsServable key = both_ways IsServable _ _ _ config' set_enabled (
      both_ways IsServable _ _ _ config' set_anonymous (
        both_ways IsServable _ _ _ config' set_port (
          both_ways IsServable _ _ _ config' set_timeout (
            both_ways IsServable _ _ _ config' set_use_localtime (
              both_ways IsServable _ _ _ config' set_username
                (both_ways IsServable _ _ _ config' set_password (unchanged)))))))

ftp_option_line-IsServable :
    (config : FtpConfig) (line : Bytes) (config' : FtpConfig)
    → IsServable config
    → ftp_option_line config line ≡ some config'
    → IsServable config'
unfolding ftp_option_line
ftp_option_line-IsServable config line config' h e = elim (Option-cases (split_first b'=' line)) [
  | inl r ↦ absurd (ground (arith, r))
  | inr ((front, back), r) ↦
      set_ftp_option-IsServable config h (trim back) config' (trim front) (ground (arith, r))
]

-- The loop's state keeps its configuration servable.
abbrev StateIsServable : Bool × FtpConfig → Type 0
StateIsServable s = IsServable s.1

ftp_line-IsServable :
    (s : Bool × FtpConfig) (line : Bytes) (s' : Bool × FtpConfig)
    → StateIsServable s
    → ftp_line s line ≡ some s'
    → StateIsServable s'
unfolding ftp_line
ftp_line-IsServable (in_section, config) [] s' h e =
    let same : (in_section, config) ≡ s' = ground arith in subst StateIsServable same h
ftp_line-IsServable (in_section, config) (c ∷ cs) s' h e =
    both_ways StateIsServable _ _ _ s' same_state
      (both_ways StateIsServable _ _ _ s' section
        (both_ways StateIsServable _ _ _ s' same_state option))
      e
  where
    same_state : some (in_section, config) ≡ some s' → StateIsServable s'
    same_state e =
        let same : (in_section, config) ≡ s' = ground arith in subst StateIsServable same h

    section :
        elim (split_first b']' cs) [
          | none ↦ none
          | some (front, back) ↦ some (text_eq (trim front) (codes "ftp"), config)
        ]
          ≡ some s'
        → StateIsServable s'
    section e = elim (Option-cases (split_first b']' cs)) [
      | inl r ↦ absurd (ground (arith, r))
      | inr ((front, back), r) ↦
          let same : (text_eq (trim front) (codes "ftp"), config) ≡ s' = ground (arith, r) in
          subst StateIsServable same h
    ]

    option :
        elim (ftp_option_line config (c ∷ cs)) [
          | none ↦ none
          | some config' ↦ some (in_section, config')
        ]
          ≡ some s'
        → StateIsServable s'
    option e = elim (Option-cases (ftp_option_line config (c ∷ cs))) [
      | inl r ↦ absurd (ground (arith, r))
      | inr (config', r) ↦
          let same : (in_section, config') ≡ s' = ground (arith, r) in
          subst StateIsServable same (ftp_option_line-IsServable config (c ∷ cs) config' h r)
    ]

-- An answer's configuration is servable.
abbrev AnswerIsServable : FtpResult × FtpConfig → Type 0
AnswerIsServable r = IsServable r.1

parse_ftp_text-IsServable :
    (allocated : Bool) (text : Bytes) → AnswerIsServable (parse_ftp_text allocated text)
unfolding parse_ftp_text
parse_ftp_text-IsServable allocated text =
    let ended = run_lines ftp_line (false, ftp_defaults) (lines_from [] text) in
    let kept : StateIsServable ended.1 =
      run_lines_invariant ftp_line StateIsServable (false, ftp_defaults) (lines_from [] text)
        ftp_line-IsServable (ground arith) in
    let config = ended.1.1 in
    either_value AnswerIsServable (not allocated) _ _ (ground arith) (
      either_value AnswerIsServable (not ended.0) _ _ kept (
        either_value AnswerIsServable
          (not config.anonymous && (is_empty config.username || is_empty config.password)) _ _ kept
          kept))

-- Loading keeps a configuration servable: whatever the file and the allocation of the copy give, and also when
-- the result is an error, the port is from 1 to 65535, the timeout fits 32 bits, and the credentials fit their
-- buffers with a terminator.
pub load_ftp_config-IsServable :
    (allocated : Bool) (before : FtpConfig) (file : FileRead)
    → IsServable before
    → IsServable (load_ftp_config allocated before file).1
unfolding load_ftp_config
load_ftp_config-IsServable allocated before missing h = ground arith
load_ftp_config-IsServable allocated before unopened h = h
load_ftp_config-IsServable allocated before (opened error bytes) h =
    either_value AnswerIsServable (error || ltb file_limit (length bytes)) _ _ h
      (parse_ftp_text-IsServable allocated (c_text bytes))

-- A server that is not anonymous has a name and a password.
abbrev pub IsGuarded : FtpConfig → Type 0
IsGuarded config =
    (config.anonymous ≡ true)
    ⊎ ((is_empty config.username ≡ false) × (is_empty config.password ≡ false))

abbrev AnswerIsGuarded : FtpResult × FtpConfig → Type 0
AnswerIsGuarded r = r.0 ≡ ftp_ok → IsGuarded r.1

parse_ftp_text-IsGuarded :
    (allocated : Bool) (text : Bytes) → AnswerIsGuarded (parse_ftp_text allocated text)
unfolding parse_ftp_text
parse_ftp_text-IsGuarded allocated text e =
    let ended = run_lines ftp_line (false, ftp_defaults) (lines_from [] text) in ground arith

-- Where loading answers OK, the server is anonymous or has a user name and a password that are not empty.
pub load_ftp_config-IsGuarded :
    (allocated : Bool) (before : FtpConfig) (file : FileRead)
    → (load_ftp_config allocated before file).0 ≡ ftp_ok
    → IsGuarded (load_ftp_config allocated before file).1
unfolding load_ftp_config
load_ftp_config-IsGuarded allocated before missing e = inl refl
load_ftp_config-IsGuarded allocated before unopened e = cc
load_ftp_config-IsGuarded allocated before (opened error bytes) e =
    either_value AnswerIsGuarded (error || ltb file_limit (length bytes)) _ _ (λ e. cc)
      (parse_ftp_text-IsGuarded allocated (c_text bytes)) e
