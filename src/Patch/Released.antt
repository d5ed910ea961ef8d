-- ===== src/Patch/Released.antt =====
-- `patchCodeRun` of sys-agent/source/patch_code.c returns once the system settles, and then holds the process no more.
use sys_agent.Prelude.{
  ℕ, zero, suc, ◌+◌, ◌≤◌, ◌<◌, ◌≡◌, ◌≢◌, ◌⊎◌, inl, inr, refl, sym, ap, ◌∙◌, subst, arith, Bool,
  true, false, ◌||◌, Option, none, some, List, [], ◌∷◌, Bytes, length, leb, ltb, ◌==◌, Bool-cases,
  Option-cases,
}
use sys_agent.Prelude.Word.{add_u64}
use sys_agent.Patch.Kernel.{
  Kernel, Log, process_created, process_exited, other_event, application, close_dmnt, attach, wait,
  next_event, break_process, list_threads, resume, close_handle,
}
use sys_agent.Patch.Request.{max_size, Request, PatchResult, no_result}
use sys_agent.Patch.Events.{drain_events, drain_all, drain_initial, await_break, pause_process}
use sys_agent.Patch.Run.{
  patch_stopped, release_stopped, patch_attached, release_dmnt, patch_process, expects_wrongly,
  target_of, run_patch, patch_code_run,
}
use sys_agent.Patch.Calls.{
  IgnoresEvents, Ignores, drain_events-Ignores, drain_initial-Ignores, pause_process-Ignores,
}
pub mod Returns
pub mod Closed
pub mod Whole

-- The waits among some calls.
abbrev pub waits : Log → ℕ
waits [] = 0
waits (wait ∷ log) = suc (waits log)
waits (c ∷ log) = waits log

-- Whether the threads were listed, with the process stopped.
abbrev pub was_stopped : Log → Bool
was_stopped [] = false
was_stopped (list_threads ∷ log) = true
was_stopped (c ∷ log) = was_stopped log

-- Whether the process was attached to.
abbrev pub was_attached : Kernel → Log → Bool
was_attached k [] = false
was_attached k (attach pid ∷ log) = k.attached log pid == 0 || was_attached k log
was_attached k (c ∷ log) = was_attached k log

-- Some further events are read.
abbrev pub after_events : ℕ → Log → Log
after_events zero log = log
after_events (suc i) log = after_events i (next_event ∷ log)

-- There are fewer than `n` events at a time, and after `m` waits there are none and the second is over.
pub record Settles (k : Kernel) (m n : ℕ) : Type 0 where
  pub quiet : (log : Log) → (i : ℕ) × (i < n) × (k.event (after_events i log) ≡ none)
  pub silent : (log : Log) → m ≤ waits log → k.waited log ≡ k.timed_out
  pub late :
      (start log : Log)
      → waits start ≡ 0
      → m ≤ waits log
      → add_u64 (k.tick start) k.tick_freq ≤ k.tick log

-- What was attached to is closed last, and what was stopped is resumed before that.
pub record IsReleased (k : Kernel) (log : Log) : Type 0 where
  pub closed : was_attached k log ≡ true → (rest : Log) × (log ≡ close_handle ∷ rest)
  pub resumed : was_stopped log ≡ true → (rest : Log) × (log ≡ close_handle ∷ resume ∷ rest)

pub target_of-untouched :
    (k : Kernel) (q : Request)
    → (waits (target_of k q).2 ≡ 0)
      × (was_stopped (target_of k q).2 ≡ false)
      × (was_attached k (target_of k q).2 ≡ false)
unfolding target_of
target_of-untouched k q = (ground arith, ground arith, ground arith)
