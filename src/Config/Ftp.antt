-- ===== src/Config/Ftp.antt =====
-- sys-agent/source/ftp_config.c: the settings of the FTP server.
pub mod Sound
use sys_agent.Prelude.{
  ℕ, ◌-◌, ◌%◌, Bool, true, false, not, ◌&&◌, ◌||◌, Option, none, some, List, [], ◌∷◌, Bytes, length,
  take, drop, get_or, ltb, leb, ◌==◌, if◌then◌else◌,
}
use sys_agent.Libc.{is_empty, strtoull}
use sys_agent.Config.Ini.{
  codes, text_eq, split_first, trim, lines_from, run_lines, FileRead, missing, unopened, opened,
  c_text, file_limit,
}

-- `FTP_CREDENTIAL_SIZE`
abbrev pub credential_size : ℕ
credential_size = 128

-- `FtpConfig`
pub record FtpConfig : Type 0 where
  pub enabled : Bool
  pub port : ℕ
  pub anonymous : Bool
  pub username : Bytes
  pub password : Bytes
  pub timeout : ℕ
  pub use_localtime : Bool

-- `FtpConfigResult`
pub data FtpResult : Type 0 where
  ftp_ok bad_value credentials_required file_error : FtpResult

-- `ftpConfigDefaults`
abbrev pub ftp_defaults : FtpConfig
ftp_defaults = record {
  enabled = true;
  port = 6001;
  anonymous = true;
  username = [];
  password = [];
  timeout = 30;
  use_localtime = true;
}

-- `parseBool`
unfoldable pub parse_bool : Bytes → Option Bool
parse_bool value =
    if text_eq value (codes "1") || text_eq value (codes "true")
    then some true
    else if text_eq value (codes "0") || text_eq value (codes "false")
    then some false
    else none

-- `copyCredential`: a credential that fits, without the quotes around it.
unfoldable pub copy_credential : Bytes → Option Bytes
copy_credential value =
    let n = length value in
    let quoted = leb 2 n && get_or value 0 0 == b'"' && get_or value (n - 1) 0 == b'"' in
    let copied = if quoted then take (n - 2) (drop 1 value) else value in
    if leb credential_size n
    then none
    else if leb credential_size (length copied)
    then none
    else some copied

-- The number in decimal that `port` and `timeout` share, from `lowest` to `highest`.
unfoldable pub number_between : ℕ → ℕ → Bytes → Option ℕ
number_between lowest highest value =
    let p = strtoull value 10 in
    if p.out_of_range
      || is_empty value
      || not (is_empty (trim p.rest))
      || ltb p.value lowest
      || ltb highest p.value
    then none
    else some p.value

-- The configuration with a setting, if its value was accepted.
unfoldable pub with_value : {A : Type 0} → Option A → (A → FtpConfig) → Option FtpConfig
with_value none f = none
with_value (some a) f = some (f a)

-- The chain over the keys; an unknown key is ignored.
unfoldable pub set_ftp_option : FtpConfig → Bytes → Bytes → Option FtpConfig
set_ftp_option config key value =
    if text_eq key (codes "enabled")
    then with_value (parse_bool value) (λ b. record config { enabled = b })
    else if text_eq key (codes "anonymous")
    then with_value (parse_bool value) (λ b. record config { anonymous = b })
    else if text_eq key (codes "port")
    then with_value (number_between 1 65535 value) (λ n. record config { port = n })
    else if text_eq key (codes "timeout")
    then with_value (number_between 0 4294967295 value) (λ n. record config { timeout = n })
    else if text_eq key (codes "use_localtime")
    then with_value (parse_bool value) (λ b. record config { use_localtime = b })
    else if text_eq key (codes "username")
    then with_value (copy_credential value) (λ t. record config { username = t })
    else if text_eq key (codes "password")
    then with_value (copy_credential value) (λ t. record config { password = t })
    else some config

-- A line `key = value` in the section.
unfoldable pub ftp_option_line : FtpConfig → Bytes → Option FtpConfig
ftp_option_line config line = elim (split_first b'=' line) [
  | none ↦ none
  | some (front, back) ↦ set_ftp_option config (trim front) (trim back)
]

-- The body of the loop, on a trimmed line: the section flag and the configuration.
unfoldable pub ftp_line : Bool × FtpConfig → Bytes → Option (Bool × FtpConfig)
ftp_line (in_section, config) [] = some (in_section, config)
ftp_line (in_section, config) (c ∷ cs) =
    if c == b'#' || c == b';'
    then some (in_section, config)
    else if c == b'['
    then elim (split_first b']' cs) [
      | none ↦ none
      | some (front, back) ↦ some (text_eq (trim front) (codes "ftp"), config)
    ]
    else if not in_section
    then some (in_section, config)
    else elim (ftp_option_line config (c ∷ cs)) [
      | none ↦ none
      | some config' ↦ some (in_section, config')
    ]

-- `ftpConfigParseText`, with a copy of the text that may not be allocated.
unfoldable pub parse_ftp_text : Bool → Bytes → FtpResult × FtpConfig
parse_ftp_text allocated text =
    let (finished, (in_section, config)) =
      run_lines ftp_line (false, ftp_defaults) (lines_from [] text) in
    if not allocated
    then (file_error, ftp_defaults)
    else if not finished
    then (bad_value, config)
    else if not config.anonymous && (is_empty config.username || is_empty config.password)
    then (credentials_required, config)
    else (ftp_ok, config)

-- `ftpConfigLoad`, from what the caller's configuration was; a missing file stands for the defaults.
unfoldable pub load_ftp_config : Bool → FtpConfig → FileRead → FtpResult × FtpConfig
load_ftp_config allocated before missing = (ftp_ok, ftp_defaults)
load_ftp_config allocated before unopened = (file_error, before)
load_ftp_config allocated before (opened error bytes) =
    if error || ltb file_limit (length bytes)
    then (file_error, before)
    else parse_ftp_text allocated (c_text bytes)
