-- ===== src/Patch/Released/Closed.antt =====
-- The cleanup of `patchCodeRun` in sys-agent/source/patch_code.c, on every way to it.
use sys_agent.Prelude.{
  ℕ, ◌≡◌, inl, inr, refl, ap, ◌∙◌, arith, false, ◌||◌, some, ◌∷◌, Bytes, length, ltb, ◌==◌,
  Bool-cases, Option-cases,
}
use sys_agent.Prelude.Word.{add_u64}
use sys_agent.Patch.Kernel.{Kernel, Log, attach, resume, close_handle}
use sys_agent.Patch.Request.{max_size, Request, PatchResult, no_result}
use sys_agent.Patch.Events.{drain_all, drain_initial, pause_process}
use sys_agent.Patch.Run.{
  patch_stopped, release_stopped, patch_attached, release_dmnt, patch_process, expects_wrongly,
  target_of, run_patch, patch_code_run,
}
use sys_agent.Patch.Calls.{Ignores, drain_initial-Ignores, pause_process-Ignores}
use sys_agent.Patch.Released.{was_stopped, was_attached, IsReleased, target_of-untouched}

was_stopped-Ignores : Ignores was_stopped
was_stopped-Ignores = record {
  events = record { event = λ log. refl };
  waiting = λ log. refl;
  breaking = λ log. refl;
}

module _ (k : Kernel) where
  release_stopped-resumes :
      (q : Request) (size events : ℕ) (a r : ℕ × PatchResult × Log)
      → release_stopped k q size events a ≡ some r
      → (rest : Log) × (r.2 ≡ close_handle ∷ resume ∷ rest)
  unfolding release_stopped
  release_stopped-resumes q size events (rc, out, log) r h =
      elim (Option-cases (drain_all k events log)) [
        | inl e ↦ ground arith
        | inr (log', e) ↦ (log', ground arith)
      ]

  unstopped-IsReleased :
      (log log' : Log) → was_stopped log ≡ false → log' ≡ close_handle ∷ log → IsReleased k log'
  unstopped-IsReleased log log' idle shape = record {
    closed = λ g. (log, shape);
    resumed = λ g. ground (arith, ap was_stopped shape);
  }

  patch_attached-IsReleased :
      (q : Request) (size fuel : ℕ) (patch : Bytes) (out : PatchResult) (log : Log)
      (r : ℕ × PatchResult × Log)
      → was_stopped log ≡ false
      → patch_attached k q size fuel patch out log ≡ some r
      → IsReleased k r.2
  unfolding patch_attached
  patch_attached-IsReleased q size fuel patch out log r idle h =
      elim (Option-cases (drain_initial k fuel fuel (add_u64 (k.tick log) k.tick_freq) false log)) [
        | inl e ↦ ground arith
        | inr ((rc, log'), e) ↦
            let idle' =
              drain_initial-Ignores k was_stopped fuel fuel (add_u64 (k.tick log) k.tick_freq) false
                log (rc, log') was_stopped-Ignores e
              ∙ idle in
            elim (Bool-cases (rc == 0)) [
              | inr e' ↦ unstopped-IsReleased log' r.2 idle' (ground arith)
              | inl e' ↦ elim (Option-cases (pause_process k fuel log')) [
                | inl e'' ↦ ground arith
                | inr ((rc', log''), e'') ↦
                    let idle'' =
                      pause_process-Ignores k was_stopped fuel log' (rc', log'') was_stopped-Ignores
                        e''
                      ∙ idle' in
                    elim (Bool-cases (rc' == 0)) [
                      | inr d ↦ unstopped-IsReleased log'' r.2 idle'' (ground arith)
                      | inl d ↦
                          let (rest, shape) =
                            release_stopped-resumes q size fuel
                              (patch_stopped k q size patch out log'') r (ground arith) in
                          record {
                            closed = λ g. (resume ∷ rest, shape);
                            resumed = λ g. (rest, shape);
                          }
                    ]
              ]
            ]
      ]

  untouched-IsReleased :
      (log : Log) → was_attached k log ≡ false → was_stopped log ≡ false → IsReleased k log
  untouched-IsReleased log free idle = record {
    closed = λ g. ground arith;
    resumed = λ g. ground arith;
  }

  release_dmnt-untouched :
      (q : Request) (size pid : ℕ) (log : Log)
      → (was_stopped (release_dmnt k q size pid log).1 ≡ was_stopped log)
        × (was_attached k (release_dmnt k q size pid log).1 ≡ was_attached k log)
  unfolding release_dmnt
  release_dmnt-untouched q size pid log = (ground arith, ground arith)

  patch_process-IsReleased :
      (q : Request) (size fuel : ℕ) (patch : Bytes) (pid : ℕ) (log : Log)
      (r : ℕ × PatchResult × Log)
      → was_attached k log ≡ false
      → was_stopped log ≡ false
      → patch_process k q size fuel patch pid log ≡ some r
      → IsReleased k r.2
  unfolding patch_process
  patch_process-IsReleased q size fuel patch pid log r free idle h =
      let (closed, log') = release_dmnt k q size pid log in
      let (idle', free') = release_dmnt-untouched q size pid log in
      elim (Bool-cases (k.attached log' pid == 0)) [
        | inr e ↦ untouched-IsReleased r.2 (ground (arith, free')) (ground (arith, idle'))
        | inl e ↦
            patch_attached-IsReleased q size fuel patch (record no_result { dmnt_closed = closed })
              (attach pid ∷ log') r (idle' ∙ idle) (ground arith)
      ]

  run_patch-IsReleased :
      (q : Request) (fuel : ℕ) (patch : Bytes) (r : ℕ × PatchResult × Log)
      → run_patch k fuel q patch ≡ some r
      → IsReleased k r.2
  unfolding run_patch
  run_patch-IsReleased q fuel patch r h =
      let (rc, pid, log) = target_of k q in
      let (first, idle, free) = target_of-untouched k q in
      elim (Bool-cases
        (length patch == 0 || ltb max_size (length patch) || expects_wrongly q (length patch))) [
          | inl e ↦ untouched-IsReleased r.2 (ground arith) (ground arith)
          | inr e ↦ elim (Bool-cases k.active) [
            | inl e' ↦ untouched-IsReleased r.2 (ground arith) (ground arith)
            | inr e' ↦ elim (Bool-cases (rc == 0)) [
              | inr d ↦ untouched-IsReleased r.2 (ground (arith, free)) (ground (arith, idle))
              | inl d ↦ elim (Bool-cases (pid == 0)) [
                | inl e'' ↦ untouched-IsReleased r.2 (ground arith) (ground arith)
                | inr e'' ↦
                    patch_process-IsReleased q (length patch) fuel patch pid log r free idle
                      (ground arith)
              ]
            ]
          ]
        ]

  pub returned-IsReleased :
      (q : Request) (fuel : ℕ) (r : ℕ × PatchResult × Log)
      → patch_code_run k fuel q ≡ some r
      → IsReleased k r.2
  unfolding patch_code_run
  returned-IsReleased q fuel r h = elim (Option-cases q.patch) [
    | inl e ↦ untouched-IsReleased r.2 (ground arith) (ground arith)
    | inr (patch, e) ↦ run_patch-IsReleased q fuel patch r (ground arith)
  ]
