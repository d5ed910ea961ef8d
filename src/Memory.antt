-- ===== src/Memory.antt =====
-- sys-agent/source/process_memory_select.c: which backend opens a process's memory; result_check.c and
-- fnv1a.c: small routines on results and memory.
pub mod Choice
mod Tests
use sys_agent.Prelude.{
  ℕ, ◌*◌, ◌/◌, ◌%◌, Bool, true, false, not, ◌&&◌, ◌||◌, List, [], ◌∷◌, Bytes, bit_xor, ◌==◌,
  if◌then◌else◌,
}
use sys_agent.Prelude.Word.{u32_mod}

-- `PmSelectPolicy`
pub data SelectPolicy : Type 0 where
  automatic only_dmnt only_direct : SelectPolicy

-- `PmSelectBackend`
pub data Backend : Type 0 where
  no_backend dmnt_backend direct_backend : Backend

-- The answers of the two callbacks, each if it is called: `openDmnt`'s result and whether it acquired the
-- process, and `openDirect`'s result.
pub record Openers : Type 0 where
  pub open_dmnt : ℕ
  pub acquired : Bool
  pub open_direct : ℕ

-- A call of `openDirect`: the result, the backend, and the callbacks called so far.
abbrev pub direct_result : Openers → List Backend → ℕ × Backend × List Backend
direct_result o called = (
  o.open_direct,
  if o.open_direct == 0 then direct_backend else no_backend,
  direct_backend ∷ called,
)

-- `processMemorySelectBackend`: the result, `*selected`, and the backends that were tried, the last in front.
unfoldable pub select_backend : SelectPolicy → Openers → ℕ × Backend × List Backend
select_backend only_direct o = direct_result o []
select_backend only_dmnt o =
    if o.open_dmnt == 0
    then (0, dmnt_backend, dmnt_backend ∷ [])
    else (o.open_dmnt, no_backend, dmnt_backend ∷ [])
select_backend automatic o =
    if o.open_dmnt == 0
    then (0, dmnt_backend, dmnt_backend ∷ [])
    else if o.acquired
    then (o.open_dmnt, no_backend, dmnt_backend ∷ [])
    else direct_result o (dmnt_backend ∷ [])

-- `resultIsOutOfSessions`: module 21 and description 3.
unfoldable pub result_is_out_of_sessions : ℕ → Bool
result_is_out_of_sessions rc = not (rc == 0) && rc % 512 == 21 && rc / 512 % 8192 == 3

-- `fnv1a32Update`
unfoldable pub fnv1a_update : ℕ → Bytes → ℕ
fnv1a_update hash [] = hash
fnv1a_update hash (b ∷ bs) = fnv1a_update (bit_xor hash b * 0x01000193 % u32_mod) bs
