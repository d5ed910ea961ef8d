-- ===== src/Patch/Released/Returns.antt =====
-- The loops of `patchCodeRun` in sys-agent/source/patch_code.c end once the system settles.
use sys_agent.Prelude.{
  ℕ, zero, suc, ◌+◌, ◌≤◌, ◌<◌, ◌≡◌, ◌≢◌, inl, inr, refl, ◌∙◌, arith, Bool, true, false, none, ◌∷◌,
  Bytes, length, leb, Bool-cases, Option-cases,
}
use sys_agent.Prelude.Word.{add_u64}
use sys_agent.Patch.Kernel.{Kernel, Log, attach, wait, next_event, break_process}
use sys_agent.Patch.Request.{Request, PatchResult, no_result}
use sys_agent.Patch.Events.{drain_events, drain_all, drain_initial, await_break, pause_process}
use sys_agent.Patch.Run.{
  patch_stopped, release_stopped, patch_attached, release_dmnt, patch_process, target_of, run_patch,
  patch_code_run,
}
use sys_agent.Patch.Calls.{IgnoresEvents, drain_events-Ignores}
use sys_agent.Patch.Released.{waits, after_events, Settles, target_of-untouched}

waits-IgnoresEvents : IgnoresEvents waits
waits-IgnoresEvents = record { event = λ log. refl }

waits-release_dmnt :
    (k : Kernel) (q : Request) (size pid : ℕ) (log : Log)
    → waits (release_dmnt k q size pid log).1 ≡ waits log
unfolding release_dmnt
waits-release_dmnt k q size pid log = ground arith

module _ (k : Kernel) where
  drain_events-quiet :
      (n i : ℕ) (seen : Bool) (log : Log)
      → i < n
      → k.event (after_events i log) ≡ none
      → drain_events k n seen log ≢ none
  unfolding drain_events
  drain_events-quiet zero i seen log less e = ground arith
  drain_events-quiet (suc n) zero seen log less e = ground arith
  drain_events-quiet (suc n) (suc i) seen log less e = ground (
    arith,
    drain_events-quiet n i seen (next_event ∷ log) (omega arith) e,
    drain_events-quiet n i true (next_event ∷ log) (omega arith) e,
  )

  drain_all-quiet :
      (n i : ℕ) (log : Log) → i < n → k.event (after_events i log) ≡ none → drain_all k n log ≢ none
  unfolding drain_all
  drain_all-quiet zero i log less e = ground arith
  drain_all-quiet (suc n) zero log less e = ground arith
  drain_all-quiet (suc n) (suc i) log less e =
      ground (arith, drain_all-quiet n i (next_event ∷ log) (omega arith) e)

  module _ (m n : ℕ) (settles : Settles k m n) where
    drain_events-returns : (seen : Bool) (log : Log) → drain_events k n seen log ≢ none
    drain_events-returns seen log =
        let (i, less, e) = settles.quiet log in drain_events-quiet n i seen log less e

    drain_all-returns : (log : Log) → drain_all k n log ≢ none
    drain_all-returns log = let (i, less, e) = settles.quiet log in drain_all-quiet n i log less e

    drain_initial-returns :
        (fuel : ℕ) (start : Log) (seen : Bool) (log : Log)
        → waits start ≡ 0
        → waits log ≤ m
        → m < waits log + fuel
        → drain_initial k fuel n (add_u64 (k.tick start) k.tick_freq) seen log ≢ none
    unfolding drain_initial
    drain_initial-returns zero start seen log first few enough = ground arith
    drain_initial-returns (suc fuel) start seen log first few enough =
        elim (Bool-cases (leb m (waits log))) [
          | inl e ↦ ground (
            arith,
            settles.silent log (ground arith),
            settles.late start (wait ∷ log) first (ground arith),
          )
          | inr e ↦
              let later =
                drain_initial-returns fuel start seen (wait ∷ log) first (ground arith)
                  (ground arith) in
              elim (Option-cases (drain_events k n seen (wait ∷ log))) [
                | inl e' ↦ ground (arith, drain_events-returns seen (wait ∷ log))
                | inr ((exited, seen', log'), e') ↦
                    let kept =
                      drain_events-Ignores k waits n seen (wait ∷ log) (exited, seen', log')
                        waits-IgnoresEvents e' in
                    ground (
                      arith,
                      later,
                      drain_initial-returns fuel start seen' log' first (ground (arith, kept))
                          (ground (arith, kept)),
                    )
              ]
        ]

    await_break-returns : (attempts : ℕ) (log : Log) → await_break k attempts n log ≢ none
    unfolding await_break
    await_break-returns zero log = ground arith
    await_break-returns (suc attempts) log =
        ground (
          arith,
          drain_events-returns false (wait ∷ log),
          await_break-returns attempts (wait ∷ log),
        )

    pause_process-returns : (log : Log) → pause_process k n log ≢ none
    unfolding pause_process
    pause_process-returns log = ground (arith, await_break-returns 50 (break_process ∷ log))

    release_stopped-returns :
        (q : Request) (size : ℕ) (a : ℕ × PatchResult × Log) → release_stopped k q size n a ≢ none
    unfolding release_stopped
    release_stopped-returns q size (rc, out, log) = ground (arith, drain_all-returns log)

    patch_attached-returns :
        (q : Request) (size : ℕ) (patch : Bytes) (out : PatchResult) (log : Log)
        → waits log ≡ 0
        → m < n
        → patch_attached k q size n patch out log ≢ none
    unfolding patch_attached
    patch_attached-returns q size patch out log first enough =
        elim (Option-cases (drain_initial k n n (add_u64 (k.tick log) k.tick_freq) false log)) [
          | inl e ↦
              absurd (drain_initial-returns n log false log first (omega arith) (omega arith) e)
          | inr ((rc, log'), e) ↦ elim (Option-cases (pause_process k n log')) [
            | inl e' ↦ absurd (pause_process-returns log' e')
            | inr ((rc', log''), e') ↦
                ground
                  (arith, release_stopped-returns q size (patch_stopped k q size patch out log''))
          ]
        ]

    patch_process-returns :
        (q : Request) (size : ℕ) (patch : Bytes) (pid : ℕ) (log : Log)
        → waits log ≡ 0
        → m < n
        → patch_process k q size n patch pid log ≢ none
    unfolding patch_process
    patch_process-returns q size patch pid log first enough =
        let (closed, log') = release_dmnt k q size pid log in
        ground (
          arith,
          patch_attached-returns q size patch (record no_result { dmnt_closed = closed })
              (attach pid ∷ log') (waits-release_dmnt k q size pid log ∙ first) enough,
        )

    pub patch_code_run-returns : (q : Request) → m < n → patch_code_run k n q ≢ none
    unfolding patch_code_run run_patch
    patch_code_run-returns q enough = elim (Option-cases q.patch) [
      | inl e ↦ ground arith
      | inr (patch, e) ↦
          let (rc, pid, log) = target_of k q in
          ground (
            arith,
            patch_process-returns q (length patch) patch pid log (target_of-untouched k q).0 enough,
          )
    ]
