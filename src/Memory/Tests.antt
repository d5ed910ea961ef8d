-- ===== src/Memory/Tests.antt =====
-- Cases in the manner of tests/process_memory_select_test.c, tests/result_check_test.c and tests/fnv1a_test.c.
use sys_agent.Prelude.{◌≡◌, ◌≢◌, ◌⊎◌, refl, true, false, List, [], ◌∷◌}
use sys_agent.Memory.{
  automatic, Backend, no_backend, Openers, select_backend, fnv1a_update, result_is_out_of_sessions,
}
use sys_agent.Memory.Choice.{select_backend-selected}

abbrev dmnt_fails : Openers
dmnt_fails = record { open_dmnt = 1; acquired = false; open_direct = 0 }

select_backend-selected_example :
    let (rc, selected, tried) = select_backend automatic dmnt_fails in
    ((rc ≡ 0) × ((rest : List Backend) × (tried ≡ selected ∷ rest)))
    ⊎ ((rc ≢ 0) × (selected ≡ no_backend))
select_backend-selected_example = select_backend-selected automatic dmnt_fails

-- The published vector of `foobar`.
foobar_hash : fnv1a_update 0x811C9DC5 (b'f' ∷ b'o' ∷ b'o' ∷ b'b' ∷ b'a' ∷ b'r' ∷ []) ≡ 0xBF9CF968
unfolding fnv1a_update
foobar_hash = refl

out_of_sessions : result_is_out_of_sessions 0x615 ≡ true
unfolding result_is_out_of_sessions
out_of_sessions = refl
