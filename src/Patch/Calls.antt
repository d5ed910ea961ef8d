-- ===== src/Patch/Calls.antt =====
-- What holds of the calls that the loops of sys-agent/source/patch_code.c add to those before, for whatever is read off
-- the calls without regard to waits, events and the break.
use sys_agent.Prelude.{
  ℕ, zero, suc, ◌≡◌, arith, Bool, true, false, some, ◌∷◌, Option-cases, inl, inr,
}
use sys_agent.Patch.Kernel.{Kernel, Log, wait, next_event, break_process}
use sys_agent.Patch.Events.{drain_events, drain_initial, await_break, pause_process}

-- What is read off the calls has no regard to events.
pub record IgnoresEvents {A : Type 0} (g : Log → A) : Type 0 where
  pub event : (log : Log) → g (next_event ∷ log) ≡ g log

-- Nor to waits and to the break.
pub record Ignores {A : Type 0} (g : Log → A) : Type 0 where
  pub events : IgnoresEvents g
  pub waiting : (log : Log) → g (wait ∷ log) ≡ g log
  pub breaking : (log : Log) → g (break_process ∷ log) ≡ g log

module _ (k : Kernel) {A : Type 0} (g : Log → A) where
  pub drain_events-Ignores :
      (fuel : ℕ) (seen : Bool) (log : Log) (r : Bool × Bool × Log)
      → IgnoresEvents g
      → drain_events k fuel seen log ≡ some r
      → g r.2 ≡ g log
  unfolding drain_events
  drain_events-Ignores zero seen log r i h = cc
  drain_events-Ignores (suc fuel) seen log r i h = ground (
    arith,
    drain_events-Ignores fuel seen (next_event ∷ log) r i,
    drain_events-Ignores fuel true (next_event ∷ log) r i,
    i.event log,
  )

  pub drain_initial-Ignores :
      (fuel events deadline : ℕ) (seen : Bool) (log : Log) (r : ℕ × Log)
      → Ignores g
      → drain_initial k fuel events deadline seen log ≡ some r
      → g r.1 ≡ g log
  unfolding drain_initial
  drain_initial-Ignores zero events deadline seen log r i h = cc
  drain_initial-Ignores (suc fuel) events deadline seen log r i h =
      let later = drain_initial-Ignores fuel events deadline seen (wait ∷ log) r i in
      elim (Option-cases (drain_events k events seen (wait ∷ log))) [
        | inl e ↦ ground (arith, later, i.waiting log)
        | inr ((exited, seen', log'), e) ↦ ground (
          arith,
          later,
          i.waiting log,
          drain_events-Ignores events seen (wait ∷ log) (exited, seen', log') i.events e,
          drain_initial-Ignores fuel events deadline seen' log' r i,
        )
      ]

  pub await_break-Ignores :
      (n events : ℕ) (log : Log) (r : ℕ × Log)
      → Ignores g
      → await_break k n events log ≡ some r
      → g r.1 ≡ g log
  unfolding await_break
  await_break-Ignores zero events log r i h = ground arith
  await_break-Ignores (suc n) events log r i h =
      let later = await_break-Ignores n events (wait ∷ log) r i in
      elim (Option-cases (drain_events k events false (wait ∷ log))) [
        | inl e ↦ ground (arith, later, i.waiting log)
        | inr ((exited, seen', log'), e) ↦ ground (
          arith,
          later,
          i.waiting log,
          drain_events-Ignores events false (wait ∷ log) (exited, seen', log') i.events e,
        )
      ]

  pub pause_process-Ignores :
      (events : ℕ) (log : Log) (r : ℕ × Log)
      → Ignores g
      → pause_process k events log ≡ some r
      → g r.1 ≡ g log
  unfolding pause_process
  pause_process-Ignores events log r i h =
      ground (arith, i.breaking log, await_break-Ignores 50 events (break_process ∷ log) r i)
