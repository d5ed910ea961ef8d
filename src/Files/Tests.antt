-- ===== src/Files/Tests.antt =====
-- Paths in the manner of tests/ftp_path_test.c.
use sys_agent.Prelude.{
  ◌+◌, ◌≡◌, ◌||◌, ◌++◌, refl, arith, true, false, none, some, List, [], ◌∷◌, Bytes, length, ltb,
  if◌then◌else◌,
}
use sys_agent.Config.Ini.{codes}
use sys_agent.Files.{
  has_byte, path_resolve, sd_prefix, search_path, is_search_storage, can_mutate, behind,
  ends_segment,
}
use sys_agent.Files.Sandbox.{path_of, has_parent, path_resolve-path_of}

abbrev save_file : List Bytes
save_file = codes "a" ∷ codes "b" ∷ []

path_resolve-path_of_example : path_resolve (path_of save_file) 800 ≡ (
    if has_byte b':' (path_of save_file)
      || has_parent save_file
      || ltb 800 (length sd_prefix + length (path_of save_file) + 1)
    then none
    else some (sd_prefix ++ path_of save_file))
path_resolve-path_of_example =
    path_resolve-path_of (codes "a") (codes "b" ∷ []) 800
      (((λ e. absurd (omega arith)), tt), (((λ e. absurd (omega arith)), tt), tt))

in_search_storage : can_mutate (search_path ++ codes "/session.dat") true ≡ false
unfolding can_mutate is_search_storage behind ends_segment
in_search_storage = refl

beside_search_storage : can_mutate (search_path ++ codes "-old") true ≡ true
unfolding can_mutate is_search_storage behind ends_segment
beside_search_storage = refl
