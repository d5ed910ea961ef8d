-- ===== src/Patch/Kernel.antt =====
-- The calls that sys-agent/source/patch_code.c makes of the system, and what the system answers to them. An answer
-- depends on all calls before it, which are listed with the last one first. A result of 0 is a success.
use sys_agent.Prelude.{ℕ, Bool, Option, List, Bytes}

pub data Call : Type 0 where
  application : Call
  close_dmnt : Call
  attach : ℕ → Call
  wait : Call
  next_event : Call
  break_process : Call
  list_threads : Call
  read_context : ℕ → Call
  read_memory : ℕ → ℕ → Call
  write_memory : ℕ → Bytes → Call
  resume : Call
  close_handle : Call

abbrev pub Log : Type 0
Log = List Call

-- The debug events that the code tells apart.
pub data Event : Type 0 where
  process_created process_exited other_event : Event

pub record Kernel : Type 0 where
  -- `KERNELRESULT(TimedOut)` and the results that the code makes itself, which are not 0.
  pub timed_out : ℕ
  pub bad_input : ℕ
  pub not_found : ℕ
  pub owned : ℕ
  pub exited : ℕ
  -- `debugWatchIsActive`, `debugTraceIsActive` or `debugMultiTraceIsActive`.
  pub active : Bool
  -- `pmdmntGetApplicationProcessId`
  pub application_id : Log → ℕ × ℕ
  -- `dmntClientInitialize`, and then `dmntClientHasProcess`.
  pub dmnt_ready : Log → ℕ
  pub dmnt_attached : Log → ℕ × Bool
  -- `svcDebugActiveProcess`
  pub attached : Log → ℕ → ℕ
  -- `svcWaitSynchronization`, with the timeout of 20 ms.
  pub waited : Log → ℕ
  -- `svcGetDebugEvent`, if it succeeds.
  pub event : Log → Option Event
  -- `svcBreakDebugProcess`
  pub broken : Log → ℕ
  -- `svcGetThreadList`
  pub threads : Log → ℕ × List ℕ
  -- The pc of `svcGetDebugThreadContext`, if it succeeds.
  pub context : Log → ℕ → Option ℕ
  -- `svcReadDebugProcessMemory` and `svcWriteDebugProcessMemory`.
  pub memory : Log → ℕ × Bytes
  pub written : Log → ℕ
  -- `armGetSystemTick` and `armGetSystemTickFreq`.
  pub tick : Log → ℕ
  pub tick_freq : ℕ
