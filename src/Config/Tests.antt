-- ===== src/Config/Tests.antt =====
-- Files in the manner of tests/boot_unlock_config_test.c and tests/ftp_config_test.c.
use sys_agent.Prelude.{◌≡◌, refl, arith, true, false, ◌∷◌, ◌++◌}
use sys_agent.Libc.{
  is_space, skip_space, strtoull, digit_value, read_sign, skip_prefix, read_digits,
  starts_with_digit, is_empty,
}
use sys_agent.Config.Ini.{
  codes, text_eq, split_first, trim_end, trim, lines_from, run_lines, FileRead, opened, c_text,
}
use sys_agent.Config.BootUnlock.{
  unlock_ok, parse_unsigned, mode_from_name, strip_comment, with_number, set_option, option_line,
  section_line, unlock_line, is_schedule, parse_unlock_text, load_unlock_config,
}
use sys_agent.Config.BootUnlock.Limits.{
  IsLimited, IsSchedule, load_unlock_config-IsLimited, load_unlock_config-IsSchedule,
}
use sys_agent.Config.Ftp.{
  ftp_ok, ftp_defaults, parse_bool, copy_credential, number_between, with_value, set_ftp_option,
  ftp_option_line, ftp_line, parse_ftp_text, load_ftp_config,
}
use sys_agent.Config.Ftp.Sound.{
  IsServable, IsGuarded, load_ftp_config-IsServable, load_ftp_config-IsGuarded,
}

-- Two lines.
abbrev unlock_file : FileRead
unlock_file = opened false (codes "[boot-unlock]" ++ (10 ∷ codes "maxRounds = 5 ; tries"))

unlock_file-ok : (load_unlock_config true unlock_file).0 ≡ unlock_ok
unfolding load_unlock_config parse_unlock_text is_schedule unlock_line section_line option_line
    set_option with_number strip_comment mode_from_name parse_unsigned c_text run_lines lines_from
    trim trim_end split_first text_eq strtoull digit_value read_sign skip_prefix read_digits
    starts_with_digit is_empty skip_space is_space
unlock_file-ok = refl

load_unlock_config-IsLimited_example : IsLimited (load_unlock_config true unlock_file).1
load_unlock_config-IsLimited_example = load_unlock_config-IsLimited true unlock_file

load_unlock_config-IsSchedule_example : IsSchedule (load_unlock_config true unlock_file).1
load_unlock_config-IsSchedule_example =
    load_unlock_config-IsSchedule true unlock_file unlock_file-ok

abbrev ftp_file : FileRead
ftp_file = opened false (
    codes "[ftp]"
    ++ (10 ∷ codes "anonymous=0" ++ (10 ∷ codes "username=a" ++ (10 ∷ codes "password=b"))))

ftp_file-ok : (load_ftp_config true ftp_defaults ftp_file).0 ≡ ftp_ok
unfolding load_ftp_config parse_ftp_text ftp_line ftp_option_line set_ftp_option with_value
    number_between copy_credential parse_bool c_text run_lines lines_from trim trim_end split_first
    text_eq strtoull digit_value read_sign skip_prefix read_digits starts_with_digit is_empty
    skip_space is_space
ftp_file-ok = refl

ftp_defaults-IsServable : IsServable ftp_defaults
ftp_defaults-IsServable = (omega arith, omega arith, omega arith, omega arith, omega arith)

load_ftp_config-IsServable_example : IsServable (load_ftp_config true ftp_defaults ftp_file).1
load_ftp_config-IsServable_example =
    load_ftp_config-IsServable true ftp_defaults ftp_file ftp_defaults-IsServable

load_ftp_config-IsGuarded_example : IsGuarded (load_ftp_config true ftp_defaults ftp_file).1
load_ftp_config-IsGuarded_example = load_ftp_config-IsGuarded true ftp_defaults ftp_file ftp_file-ok
