-- ===== src/Config/Hekate/Tests.antt =====
-- A file in the manner of hekate's main configuration.
use sys_agent.Prelude.{ℕ, ◌≡◌, ◌<◌, ◌≤◌, refl, arith, All, List, some, ◌∷◌, [], inl}
use sys_agent.Config.Ini.{codes}
use sys_agent.Config.Hekate.{found, find_main_config_id}
use sys_agent.Config.Hekate.Printed.{
  IsWordByte, FileLine, brackets, main_heading, wanted_option, remark, heading, other_option, print,
}
use sys_agent.Config.Hekate.Whole.{FitsBuffer, find_main_config_id-print}

-- The id stands in the main section too, where it is passed over.
abbrev main_file : List FileLine
main_file =
    main_heading
    ∷ wanted_option
    ∷ remark b'#' (codes " x")
    ∷ heading (b'A' ∷ [])
    ∷ other_option (b'K' ∷ []) (b'V' ∷ [])
    ∷ brackets
    ∷ heading (b'B' ∷ [])
    ∷ wanted_option
    ∷ []

letter : (c : ℕ) → 65 ≤ c → c < 91 → IsWordByte c
letter c low high = record {
  printable = omega arith;
  ascii = omega arith;
  plain = (omega arith, omega arith, omega arith, omega arith, omega arith);
}

main_file-FitsBuffer : All (FitsBuffer (b'I' ∷ [])) main_file
main_file-FitsBuffer = (
  (tt, omega arith),
  (
    (tt, omega arith),
    (
      ((inl refl, (omega arith, (omega arith, tt))), omega arith),
      (
        (((letter b'A' (omega arith) (omega arith), tt), λ e. cc), omega arith),
        (
          (
            (
              (letter b'K' (omega arith) (omega arith), tt),
              (letter b'V' (omega arith) (omega arith), tt),
              inl (λ e. cc),
            ),
            omega arith,
          ),
          (
            (tt, omega arith),
            (
              (((letter b'B' (omega arith) (omega arith), tt), λ e. cc), omega arith),
              ((tt, omega arith), tt),
            ),
          ),
        ),
      ),
    ),
  ),
)

find_main_config_id-print_example :
    find_main_config_id (some (print (b'I' ∷ []) main_file)) (b'I' ∷ []) ≡ some (found 2)
find_main_config_id-print_example =
    find_main_config_id-print (b'I' ∷ []) main_file (letter b'I' (omega arith) (omega arith), tt)
      main_file-FitsBuffer (omega arith)
