-- ===== src/Patch/Guarded.antt =====
-- Memory is written by `patchCodeRun` only behind its checks, and success is reported only where the patch was read back.
use sys_agent.Prelude.{
  ℕ, zero, suc, ◌+◌, ◌%◌, ◌<◌, ◌≤◌, ◌≡◌, ◌≢◌, ◌⊎◌, inl, inr, refl, sym, ap, ap₂, ◌∙◌, arith, Bool,
  true, false, not, ◌&&◌, ◌||◌, Option, none, some, List, [], ◌∷◌, ◌++◌, Bytes, length, take,
  replicate, ltb, leb, ◌==◌, ==_iff, if◌then◌else◌, Bool-cases, Option-cases, append_assoc, subst,
}
use sys_agent.Prelude.Word.{u64_mod}
use sys_agent.Patch.Kernel.{
  Kernel, Call, Log, Event, process_created, process_exited, other_event, application, close_dmnt,
  attach, wait, next_event, break_process, list_threads, read_context, read_memory, write_memory,
  resume, close_handle,
}
use sys_agent.Patch.Request.{
  max_threads, Request, Status, patched, busy_pc_in_range, expected_mismatch, readback_failed,
  PatchResult, no_result, max_size,
}
use sys_agent.Patch.Events.{drain_events, drain_all, drain_initial, await_break, pause_process}
use sys_agent.Patch.Run.{
  same_bytes, buffer, in_range, note_thread, check_threads, read_back, is_mismatch, write_patch,
  patch_stopped, release_stopped, patch_attached, release_dmnt, patch_process, target_of,
  expects_wrongly, run_patch, patch_code_run,
}
pub mod Stopped
pub mod Checks
pub mod Whole

-- The writes among some calls.
abbrev pub writes : Log → List (ℕ × Bytes)
writes [] = []
writes (write_memory a bytes ∷ log) = (a, bytes) ∷ writes log
writes (c ∷ log) = writes log

-- The results that the code makes itself are failures.
pub record HasFailures (k : Kernel) : Type 0 where
  pub bad_input : k.bad_input ≢ 0
  pub not_found : k.not_found ≢ 0
  pub owned : k.owned ≢ 0
  pub exited : k.exited ≢ 0
  pub timed_out : k.timed_out ≢ 0

-- The calls that look at some threads.
abbrev pub contexts_onto : List ℕ → Log → Log
contexts_onto [] log = log
contexts_onto (t ∷ ts) log = contexts_onto ts (read_context t ∷ log)

-- A pc in front of the code or behind it, whose end is taken in 64 bits, if it is known.
abbrev pub Outside : Request → ℕ → Option ℕ → Type 0
Outside q size none = Unit
Outside q size (some pc) = (pc < q.address) ⊎ ((q.address + size) % u64_mod ≤ pc)

-- After a break that the system granted, every wait has timed out.
pub data Breaking (k : Kernel) : Log → Type 0 where
  granted : {log : Log} → k.broken log ≡ 0 → Breaking k (break_process ∷ log)
  silent : {log : Log} → Breaking k log → k.waited log ≡ k.timed_out → Breaking k (wait ∷ log)

-- Then a wait was answered, and events were read, none of them the end of the process.
pub data Broken (k : Kernel) : Log → Type 0 where
  answered : {log : Log} → Breaking k log → k.waited log ≡ 0 → Broken k (wait ∷ log)
  observed :
      {log : Log} (e : Event)
      → Broken k log
      → k.event log ≡ some e
      → e ≢ process_exited
      → Broken k (next_event ∷ log)

-- The process is stopped: a break was granted, and all its events were read.
pub data IsStopped (k : Kernel) : Log → Type 0 where
  stopped : {log : Log} → Broken k log → k.event log ≡ none → IsStopped k (next_event ∷ log)

-- Whatever pc was seen of some threads is outside.
abbrev pub Inspected : Kernel → Request → ℕ → List ℕ → Log → Type 0
Inspected k q size [] log = Unit
Inspected k q size (t ∷ ts) log =
    Outside q size (k.context log t) × Inspected k q size ts (read_context t ∷ log)

abbrev pub Answer : Type 0
Answer = ℕ × PatchResult × Log

-- The patch is what is read after some calls.
abbrev pub IsReadBack : Kernel → Bytes → Log → Type 0
IsReadBack k patch log = ((k.memory log).0 ≡ 0) × (buffer (length patch) (k.memory log).1 ≡ patch)

-- Nothing was written, and no success is told.
abbrev pub Unwritten : Answer → Type 0
Unwritten r = (writes r.2 ≡ []) × (r.0 ≡ 0 → r.1.status ≢ patched)

-- The calls up to the last thread that is looked at.
abbrev pub looked_at : Log → List ℕ → Log
looked_at before ids = contexts_onto (take max_threads ids) (list_threads ∷ before)

-- The patch was written once, behind the checks.
pub record IsVerified (k : Kernel) (q : Request) (patch : Bytes) (r : Answer) : Type 0 where
  pub before : Log
  pub later : Log
  pub ids : List ℕ
  -- The threads were listed with the process stopped, and each of the first 128 looked at.
  pub stopped_before : IsStopped k before
  pub listed : k.threads before ≡ (0, ids)
  pub inspected :
      q.check_pc ≡ true
      → Inspected k q (length patch) (take max_threads ids) (list_threads ∷ before)
  -- Then the code was read, and was what is expected.
  pub readable : (k.memory (looked_at before ids)).0 ≡ 0
  pub expected :
      (q.skip_verify ≡ true)
      ⊎ (q.expected ≡ some (buffer (length patch) (k.memory (looked_at before ids)).1))
  -- Then it was written, and nothing else was.
  pub shape :
      r.2
      ≡ later
        ++ write_memory q.address patch
          ∷ read_memory q.address (length patch)
          ∷ looked_at before ids
  pub quiet_before : writes before ≡ []
  pub quiet_later : writes later ≡ []
  -- Success is told only if the patch was read back next.
  pub confirmed :
      r.0 ≡ 0
      → r.1.status ≡ patched
      → IsReadBack k patch (
          write_memory q.address patch
          ∷ read_memory q.address (length patch)
          ∷ looked_at before ids)

-- What the code does to memory.
abbrev pub IsGuarded : Kernel → Request → Bytes → Answer → Type 0
IsGuarded k q patch r = Unwritten r ⊎ IsVerified k q patch r
