-- ===== src/Patch/Events.antt =====
-- Waiting for the process: `drainInitialEvents` and `pauseProcess` of sys-agent/source/patch_code.c, and the events of the
-- cleanup. The loops over events and waits run on fuel.
use sys_agent.Prelude.{
  ℕ, zero, suc, Bool, true, false, not, ◌||◌, Option, none, some, ◌∷◌, leb, ◌==◌, if◌then◌else◌,
}
use sys_agent.Patch.Kernel.{
  Kernel, Log, process_created, process_exited, other_event, wait, next_event, break_process,
}

module _ (k : Kernel) where
  -- The loop over the debug events: whether the process has exited, and whether its creation was seen.
  unfoldable pub drain_events : ℕ → Bool → Log → Option (Bool × Bool × Log)
  drain_events zero seen log = none
  drain_events (suc fuel) seen log =
      let quiet = drain_events fuel seen (next_event ∷ log) in
      let created = drain_events fuel true (next_event ∷ log) in
      elim (k.event log) [
        | none ↦ some (false, seen, next_event ∷ log)
        | some e ↦ elim e [
          | process_exited ↦ some (true, seen, next_event ∷ log)
          | process_created ↦ created
          | other_event ↦ quiet
        ]
      ]

  -- The loop over the events of the cleanup, whatever they are.
  unfoldable pub drain_all : ℕ → Log → Option Log
  drain_all zero log = none
  drain_all (suc fuel) log =
      let rest = drain_all fuel (next_event ∷ log) in
      elim (k.event log) [ none ↦ some (next_event ∷ log) | some e ↦ rest ]

  -- `drainInitialEvents`, with the tick at which it gives up: its result.
  unfoldable pub drain_initial : ℕ → ℕ → ℕ → Bool → Log → Option (ℕ × Log)
  unfolding drain_events
  drain_initial zero events deadline seen log = none
  drain_initial (suc fuel) events deadline seen log =
      let rc = k.waited log in
      let later = drain_initial fuel events deadline seen (wait ∷ log) in
      let drained : Option (ℕ × Log) = elim (drain_events events seen (wait ∷ log)) [
        | none ↦ none
        | some (exited, seen', log') ↦
            let rest = drain_initial fuel events deadline seen' log' in
            if exited then some (k.exited, log') else rest
      ] in
      if rc == k.timed_out
      then (if seen || leb deadline (k.tick (wait ∷ log)) then some (0, wait ∷ log) else later)
      else if not (rc == 0)
      then some (rc, wait ∷ log)
      else drained

  -- The loop of `pauseProcess`, over the attempts that are left.
  unfoldable pub await_break : ℕ → ℕ → Log → Option (ℕ × Log)
  unfolding drain_events
  await_break zero events log = some (k.timed_out, log)
  await_break (suc n) events log =
      let rc = k.waited log in
      let later = await_break n events (wait ∷ log) in
      let drained : Option (ℕ × Log) = elim (drain_events events false (wait ∷ log)) [
        | none ↦ none
        | some (exited, seen, log') ↦ some (if exited then k.exited else 0, log')
      ] in
      if rc == k.timed_out then later else if not (rc == 0) then some (rc, wait ∷ log) else drained

  -- `pauseProcess`
  unfoldable pub pause_process : ℕ → Log → Option (ℕ × Log)
  unfolding await_break
  pause_process events log =
      let paused = await_break 50 events (break_process ∷ log) in
      if not (k.broken log == 0) then some (k.broken log, break_process ∷ log) else paused
