-- ===== src/Patch/Guarded/Whole.antt =====
-- All of `patchCodeRun` in sys-agent/source/patch_code.c, around its checks.
use sys_agent.Prelude.{
  ℕ, zero, suc, ◌≡◌, ◌⊎◌, inl, inr, refl, sym, ap, ap₂, ◌∙◌, arith, false, ◌||◌, some, [], ◌∷◌,
  ◌++◌, Bytes, length, ltb, ◌==◌, Bool-cases, Option-cases, append_assoc, subst,
}
use sys_agent.Prelude.Word.{add_u64}
use sys_agent.Patch.Kernel.{
  Kernel, Log, application, close_dmnt, attach, wait, next_event, break_process, list_threads,
  read_context, read_memory, write_memory, resume, close_handle,
}
use sys_agent.Patch.Request.{Request, PatchResult, no_result, max_size}
use sys_agent.Patch.Events.{drain_all, drain_initial, pause_process}
use sys_agent.Patch.Run.{
  patch_stopped, release_stopped, patch_attached, release_dmnt, patch_process, target_of,
  expects_wrongly, run_patch, patch_code_run,
}
use sys_agent.Patch.Guarded.{
  writes, HasFailures, Answer, Unwritten, looked_at, IsVerified, IsGuarded,
}
use sys_agent.Patch.Calls.{Ignores, drain_initial-Ignores, pause_process-Ignores}
use sys_agent.Patch.Guarded.Stopped.{pause_process-IsStopped}
use sys_agent.Patch.Guarded.Checks.{patch_stopped-IsGuarded}

-- Calls that write nothing, made after others.
abbrev Quietly : Log → Log → Type 0
Quietly log log' = (ext : Log) × (log' ≡ ext ++ log) × (writes ext ≡ [])

writes-append : (xs ys : Log) → writes (xs ++ ys) ≡ writes xs ++ writes ys
writes-append [] ys = refl
writes-append (write_memory a bytes ∷ xs) ys = ap (λ r. (a, bytes) ∷ r) (writes-append xs ys)
writes-append (application ∷ xs) ys = writes-append xs ys
writes-append (close_dmnt ∷ xs) ys = writes-append xs ys
writes-append (attach p ∷ xs) ys = writes-append xs ys
writes-append (wait ∷ xs) ys = writes-append xs ys
writes-append (next_event ∷ xs) ys = writes-append xs ys
writes-append (break_process ∷ xs) ys = writes-append xs ys
writes-append (list_threads ∷ xs) ys = writes-append xs ys
writes-append (read_context t ∷ xs) ys = writes-append xs ys
writes-append (read_memory a n ∷ xs) ys = writes-append xs ys
writes-append (resume ∷ xs) ys = writes-append xs ys
writes-append (close_handle ∷ xs) ys = writes-append xs ys

Quietly-trans : (a b c : Log) → Quietly a b → Quietly b c → Quietly a c
Quietly-trans a b c (xs, shape, quiet) (ys, shape', quiet') = (
  ys ++ xs,
  shape' ∙ ap (λ r. ys ++ r) shape ∙ sym (append_assoc ys xs a),
  writes-append ys xs ∙ ap₂ (λ u v. u ++ v) quiet' quiet,
)

drain_all-Quietly :
    (k : Kernel) (fuel : ℕ) (log log' : Log) → drain_all k fuel log ≡ some log' → Quietly log log'
unfolding drain_all
drain_all-Quietly k zero log log' h = cc
drain_all-Quietly k (suc fuel) log log' h =
    let one : Quietly log (next_event ∷ log) = (next_event ∷ [], refl, refl) in
    elim (Option-cases (k.event log)) [
      | inl e ↦ (next_event ∷ [], ground arith, refl)
      | inr (e, he) ↦
          Quietly-trans log (next_event ∷ log) log' one
            (drain_all-Quietly k fuel (next_event ∷ log) log' (ground arith))
    ]

writes-Ignores : Ignores writes
writes-Ignores = record {
  events = record { event = λ log. refl };
  waiting = λ log. refl;
  breaking = λ log. refl;
}

module _ (k : Kernel) (q : Request) where
  module _ (patch : Bytes) where
    IsGuarded-Quietly :
        (rc : ℕ) (out : PatchResult) (log log' : Log)
        → IsGuarded k q patch (rc, out, log)
        → Quietly log log'
        → IsGuarded k q patch (rc, out, log')
    IsGuarded-Quietly rc out log log' (inl (none_yet, told)) (ext, shape, quiet) =
        inl (ap writes shape ∙ writes-append ext log ∙ ap₂ (λ u v. u ++ v) quiet none_yet, told)
    IsGuarded-Quietly rc out log log' (inr v) (ext, shape, quiet) = inr record {
      before = v.before;
      later = ext ++ v.later;
      ids = v.ids;
      stopped_before = v.stopped_before;
      listed = v.listed;
      inspected = v.inspected;
      readable = v.readable;
      expected = v.expected;
      shape =
          shape
          ∙ ap (λ l. ext ++ l) v.shape
          ∙ sym (
              append_assoc ext v.later (
                write_memory q.address patch
                ∷ read_memory q.address (length patch)
                ∷ looked_at v.before v.ids));
      quiet_before = v.quiet_before;
      quiet_later = writes-append ext v.later ∙ ap₂ (λ u v. u ++ v) quiet v.quiet_later;
      confirmed = v.confirmed;
    }

    release_stopped-IsGuarded :
        (fuel : ℕ) (a : Answer) (r : Answer)
        → IsGuarded k q patch a
        → release_stopped k q (length patch) fuel a ≡ some r
        → IsGuarded k q patch r
    unfolding release_stopped
    release_stopped-IsGuarded fuel (rc, out, log) r g h =
        elim (Option-cases (drain_all k fuel log)) [
          | inl e ↦ ground arith
          | inr (log', e) ↦
              let loud =
                IsGuarded-Quietly rc out log log' g (drain_all-Quietly k fuel log log' e) in
              let closed =
                IsGuarded-Quietly rc out log' (close_handle ∷ resume ∷ log') loud
                  (close_handle ∷ resume ∷ [], refl, refl) in
              subst (IsGuarded k q patch) (ground arith) closed
        ]

    patch_attached-IsGuarded :
        (fuel : ℕ) (out : PatchResult) (log : Log) (r : Answer)
        → HasFailures k
        → writes log ≡ []
        → patch_attached k q (length patch) fuel patch out log ≡ some r
        → IsGuarded k q patch r
    unfolding patch_attached
    patch_attached-IsGuarded fuel out log r fails quiet h =
        elim (Option-cases
          (drain_initial k fuel fuel (add_u64 (k.tick log) k.tick_freq) false log)) [
            | inl e ↦ ground arith
            | inr ((rc, log'), e) ↦
                let none_yet =
                  drain_initial-Ignores k writes fuel fuel (add_u64 (k.tick log) k.tick_freq) false
                    log (rc, log') writes-Ignores e
                  ∙ quiet in
                elim (Bool-cases (rc == 0)) [
                  | inr e' ↦ inl (ground arith, ground arith)
                  | inl e' ↦ elim (Option-cases (pause_process k fuel log')) [
                    | inl e'' ↦ ground arith
                    | inr ((rc', log''), e'') ↦
                        let none_yet' =
                          pause_process-Ignores k writes fuel log' (rc', log'') writes-Ignores e''
                          ∙ none_yet in
                        elim (Bool-cases (rc' == 0)) [
                          | inr d ↦ inl (ground arith, ground arith)
                          | inl d ↦
                              release_stopped-IsGuarded fuel
                                (patch_stopped k q (length patch) patch out log'') r
                                (patch_stopped-IsGuarded k q patch out log'' none_yet' (
                                  pause_process-IsStopped k fuel rc' log' log'' fails e''
                                    (ground arith)))
                                (ground arith)
                        ]
                  ]
                ]
          ]

    writes-release_dmnt :
        (pid : ℕ) (log : Log) → writes (release_dmnt k q (length patch) pid log).1 ≡ writes log
    unfolding release_dmnt
    writes-release_dmnt pid log = ground arith

    patch_process-IsGuarded :
        (fuel pid : ℕ) (log : Log) (r : Answer)
        → HasFailures k
        → writes log ≡ []
        → patch_process k q (length patch) fuel patch pid log ≡ some r
        → IsGuarded k q patch r
    unfolding patch_process
    patch_process-IsGuarded fuel pid log r fails quiet h =
        let (closed, log') = release_dmnt k q (length patch) pid log in
        let none_yet = writes-release_dmnt pid log ∙ quiet in
        elim (Bool-cases (k.attached log' pid == 0)) [
          | inr e ↦ inl (ground arith, ground arith)
          | inl e ↦
              patch_attached-IsGuarded fuel (record no_result { dmnt_closed = closed })
                (attach pid ∷ log') r fails none_yet (ground arith)
        ]

    writes-target_of : writes (target_of k q).2 ≡ []
    unfolding target_of
    writes-target_of = ground arith

    run_patch-IsGuarded :
        (fuel : ℕ) (r : Answer)
        → HasFailures k
        → run_patch k fuel q patch ≡ some r
        → IsGuarded k q patch r
    unfolding run_patch
    run_patch-IsGuarded fuel r fails h =
        let (rc, pid, log) = target_of k q in
        let quiet : writes log ≡ [] = writes-target_of in
        elim (Bool-cases
          (length patch == 0 || ltb max_size (length patch) || expects_wrongly q (length patch))) [
            | inl e ↦ inl (ground arith, ground arith)
            | inr e ↦ elim (Bool-cases k.active) [
              | inl e ↦ inl (ground arith, ground arith)
              | inr e' ↦ elim (Bool-cases (rc == 0)) [
                | inr d ↦ inl (ground arith, ground arith)
                | inl d ↦ elim (Bool-cases (pid == 0)) [
                  | inl e'' ↦ inl (ground arith, ground arith)
                  | inr e'' ↦ patch_process-IsGuarded fuel pid log r fails quiet (ground arith)
                ]
              ]
            ]
          ]

  -- Whenever `patchCodeRun` answers, and the results that it makes itself are failures, memory was left alone and success
  -- is not told, or the patch was written once. Then the process had been stopped: a break was granted, waits timed out
  -- until one was answered, and its events were read to the end, none of them the end of the process. With the process
  -- stopped the first 128 threads were looked at, and, if that is asked for, every pc that was read is in front of the code
  -- or behind its end, which is taken in 64 bits; the code was read and, if that is asked for, found to be as expected; and
  -- success is told only if the patch was read back.
  pub patch_code_run-IsVerified :
      (fuel : ℕ) (r : Answer)
      → HasFailures k
      → patch_code_run k fuel q ≡ some r
      → Unwritten r ⊎ ((patch : Bytes) × (q.patch ≡ some patch) × IsVerified k q patch r)
  unfolding patch_code_run
  patch_code_run-IsVerified fuel r fails h = elim (Option-cases q.patch) [
    | inl e ↦ inl (ground arith, ground arith)
    | inr (patch, e) ↦ elim (run_patch-IsGuarded patch fuel r fails (ground arith)) [
      | inl u ↦ inl u
      | inr v ↦ inr (patch, e, v)
    ]
  ]
