-- ===== src/Patch/Guarded/Stopped.antt =====
-- `pauseProcess` of sys-agent/source/patch_code.c succeeds only on a process that the system has stopped.
use sys_agent.Prelude.{
  ℕ, zero, suc, ◌≡◌, subst, arith, Bool, true, false, some, ◌∷◌, ◌==◌, Bool-cases, Option-cases,
  inl, inr,
}
use sys_agent.Patch.Kernel.{
  Kernel, Log, process_created, process_exited, other_event, break_process, wait, next_event,
}
use sys_agent.Patch.Events.{drain_events, await_break, pause_process}
use sys_agent.Patch.Guarded.{
  HasFailures, Breaking, granted, silent, Broken, answered, observed, IsStopped, stopped,
}

module _ (k : Kernel) where
  drain_events-IsStopped :
      (fuel : ℕ) (seen seen' : Bool) (log log' : Log)
      → Broken k log
      → drain_events k fuel seen log ≡ some (false, seen', log')
      → IsStopped k log'
  unfolding drain_events
  drain_events-IsStopped zero seen seen' log log' b h = cc
  drain_events-IsStopped (suc fuel) seen seen' log log' b h = elim (Option-cases (k.event log)) [
    | inl e ↦ subst (IsStopped k) (ground arith) (stopped b e)
    | inr (process_exited, e) ↦ ground arith
    | inr (process_created, e) ↦
        drain_events-IsStopped fuel true seen' (next_event ∷ log) log'
          (observed process_created b e (λ d. cc)) (ground arith)
    | inr (other_event, e) ↦
        drain_events-IsStopped fuel seen seen' (next_event ∷ log) log'
          (observed other_event b e (λ d. cc)) (ground arith)
  ]

  await_break-IsStopped :
      (n events rc : ℕ) (log log' : Log)
      → HasFailures k
      → Breaking k log
      → await_break k n events log ≡ some (rc, log')
      → rc ≡ 0
      → IsStopped k log'
  unfolding await_break
  await_break-IsStopped zero events rc log log' f b h z = ground (arith, f.timed_out)
  await_break-IsStopped (suc n) events rc log log' f b h z =
      elim (Bool-cases (k.waited log == k.timed_out)) [
        | inl e ↦
            await_break-IsStopped n events rc (wait ∷ log) log' f (silent b (ground arith))
              (ground arith) z
        | inr e ↦ elim (Bool-cases (k.waited log == 0)) [
          | inr e' ↦ ground arith
          | inl e' ↦ elim (Option-cases (drain_events k events false (wait ∷ log))) [
            | inl d ↦ ground arith
            | inr ((true, seen', log''), d) ↦ ground (arith, f.exited)
            | inr ((false, seen', log''), d) ↦ subst (IsStopped k) (ground arith) (
                drain_events-IsStopped events false seen' (wait ∷ log) log''
                  (answered b (ground arith)) d)
          ]
        ]
      ]

  -- Where `pauseProcess` returns 0, the process is stopped.
  pub pause_process-IsStopped :
      (events rc : ℕ) (log log' : Log)
      → HasFailures k
      → pause_process k events log ≡ some (rc, log')
      → rc ≡ 0
      → IsStopped k log'
  unfolding pause_process
  pause_process-IsStopped events rc log log' f h z = elim (Bool-cases (k.broken log == 0)) [
    | inl e ↦
        await_break-IsStopped 50 events rc (break_process ∷ log) log' f (granted (ground arith))
          (ground arith) z
    | inr e ↦ ground arith
  ]
