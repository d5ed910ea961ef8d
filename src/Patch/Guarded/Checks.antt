-- ===== src/Patch/Guarded/Checks.antt =====
-- The checks of `patchCodeRun` in sys-agent/source/patch_code.c, from the list of threads to the reading back.
use sys_agent.Prelude.{
  ℕ, ◌+◌, ◌%◌, ◌<◌, ◌≤◌, leb, ◌≡◌, ◌⊎◌, inl, inr, refl, sym, ap, ◌∙◌, arith, true, false, Option,
  none, some, List, [], ◌∷◌, Bytes, length, take, ◌==◌, Bool-cases, Option-cases, subst,
}
use sys_agent.Prelude.Word.{u64_max}
use sys_agent.Prelude.Word.{u64_mod}
use sys_agent.Patch.Kernel.{Kernel, Log, list_threads, read_context, read_memory, write_memory}
use sys_agent.Patch.Request.{max_threads, Request, patched, busy_pc_in_range, PatchResult}
use sys_agent.Patch.Run.{
  same_bytes, buffer, in_range, note_thread, check_threads, read_back, is_mismatch, write_patch,
  patch_stopped,
}
use sys_agent.Patch.Guarded.{
  writes, IsStopped, contexts_onto, Outside, Inspected, IsReadBack, looked_at, IsGuarded,
}

same_bytes→eq : (xs ys : Bytes) → same_bytes xs ys ≡ true → xs ≡ ys
unfolding same_bytes
same_bytes→eq [] [] h = refl
same_bytes→eq [] (y ∷ ys) h = cc
same_bytes→eq (x ∷ xs) [] h = cc
same_bytes→eq (x ∷ xs) (y ∷ ys) h = ground (arith, same_bytes→eq xs ys)

writes-contexts_onto : (ids : List ℕ) (log : Log) → writes (contexts_onto ids log) ≡ writes log
writes-contexts_onto [] log = refl
writes-contexts_onto (t ∷ ts) log = writes-contexts_onto ts (read_context t ∷ log)

Outside-unknown : (q : Request) (size : ℕ) (o : Option ℕ) → o ≡ none → Outside q size o
Outside-unknown q size none h = tt
Outside-unknown q size (some pc) h = cc

in_range-outside :
    (q : Request) (size pc : ℕ)
    → in_range pc q.address size ≡ false
    → (pc < q.address) ⊎ ((q.address + size) % u64_mod ≤ pc)
unfolding in_range
in_range-outside q size pc e = elim (Bool-cases (leb q.address pc)) [
  | inl above ↦ inr (ground arith)
  | inr below ↦ inl (ground arith)
]

Outside-known :
    (q : Request) (size pc : ℕ) (o : Option ℕ)
    → o ≡ some pc
    → in_range pc q.address size ≡ false
    → Outside q size o
Outside-known q size pc none h out = cc
Outside-known q size pc (some pc') h out =
    let same : pc ≡ pc' = ground arith in
    subst (λ p. Outside q size (some p)) same (in_range-outside q size pc out)

module _ (k : Kernel) (q : Request) where
  -- Threads of which none is in the way were all looked at.
  check_threads-Inspected :
      (size : ℕ) (ts : List ℕ) (best : ℕ) (out : PatchResult) (log : Log)
      → (check_threads k q size ts best out log).0 ≡ false
      → ((check_threads k q size ts best out log).2 ≡ contexts_onto ts log)
        × (q.check_pc ≡ true → Inspected k q size ts log)
  unfolding check_threads
  check_threads-Inspected size [] best out log h = (refl, λ c. tt)
  check_threads-Inspected size (t ∷ ts) best out log h = elim (Option-cases (k.context log t)) [
    | inl e ↦
        let (shape, rest) =
          check_threads-Inspected size ts best out (read_context t ∷ log) (ground arith) in
        (ground arith, λ c. (Outside-unknown q size (k.context log t) e, rest c))
    | inr (pc, e) ↦
        let (best', noted) = note_thread k q size pc best out in
        let (shape, rest) =
          check_threads-Inspected size ts best' noted (read_context t ∷ log) (ground arith) in
        (ground arith, λ c. (Outside-known q size pc (k.context log t) e (ground arith), rest c))
  ]

  -- A thread in the way ends the run without a write.
  check_threads-busy :
      (size : ℕ) (ts : List ℕ) (best : ℕ) (out : PatchResult) (log : Log)
      → (check_threads k q size ts best out log).0 ≡ true
      → (writes (check_threads k q size ts best out log).2 ≡ writes log)
        × ((check_threads k q size ts best out log).1.status ≡ busy_pc_in_range)
  unfolding check_threads
  check_threads-busy size [] best out log h = cc
  check_threads-busy size (t ∷ ts) best out log h = elim (Option-cases (k.context log t)) [
    | inl e ↦ ground (arith, check_threads-busy size ts best out (read_context t ∷ log))
    | inr (pc, e) ↦
        let (best', noted) = note_thread k q size pc best out in
        ground (arith, check_threads-busy size ts best' noted (read_context t ∷ log))
  ]

  expected-is_mismatch :
      (size : ℕ) (old : Bytes)
      → is_mismatch k q size old ≡ false
      → (q.skip_verify ≡ true) ⊎ (q.expected ≡ some old)
  unfolding is_mismatch
  expected-is_mismatch size old h = elim (Bool-cases q.skip_verify) [
    | inl e ↦ inl e
    | inr e ↦ elim (Option-cases q.expected) [
      | inl e' ↦ inl (ground arith)
      | inr (bytes, e') ↦
          let same : old ≡ bytes = same_bytes→eq old bytes (ground arith) in
          inr (e' ∙ ap (λ b. some b) (sym same))
    ]
  ]

  module _ (patch : Bytes) where
    -- What was read back decides whether success is told.
    read_back-IsReadBack :
        (out : PatchResult) (log : Log)
        → (read_back k q (length patch) patch out log).0 ≡ 0
        → (read_back k q (length patch) patch out log).1.status ≡ patched
        → IsReadBack k patch log
    unfolding read_back
    read_back-IsReadBack out log h g =
        elim (Bool-cases (same_bytes (buffer (length patch) (k.memory log).1) patch)) [
          | inl e ↦ (ground arith, same_bytes→eq (buffer (length patch) (k.memory log).1) patch e)
          | inr e ↦ ground arith
        ]

    read_back-calls :
        (out : PatchResult) (log : Log)
        → (read_back k q (length patch) patch out log).2
          ≡ read_memory q.address (length patch) ∷ log
    unfolding read_back
    read_back-calls out log = ground arith

    write_patch-read_back :
        (out : PatchResult) (log : Log)
        → ((k.memory log).0 == 0) ≡ true
        → is_mismatch k q (length patch) (buffer (length patch) (k.memory log).1) ≡ false
        → (k.written (read_memory q.address (length patch) ∷ log) == 0) ≡ true
        → write_patch k q (length patch) patch out log
          ≡ read_back k q
              (length patch)
              patch
              (record out { old_bytes = buffer (length patch) (k.memory log).1 })
              (write_memory q.address patch ∷ read_memory q.address (length patch) ∷ log)
    unfolding write_patch
    write_patch-read_back out log e e' e'' = ground arith

    write_patch-IsGuarded :
        (out : PatchResult) (before : Log) (ids : List ℕ)
        → k.threads before ≡ (0, ids)
        → (q.check_pc ≡ true
            → Inspected k q (length patch) (take max_threads ids) (list_threads ∷ before))
        → writes before ≡ []
        → IsStopped k before
        → IsGuarded k q patch (write_patch k q (length patch) patch out (looked_at before ids))
    unfolding write_patch
    write_patch-IsGuarded out before ids listed inspected quiet halted =
        let log : Log = looked_at before ids in
        let log' : Log = read_memory q.address (length patch) ∷ log in
        let log'' : Log = write_memory q.address patch ∷ log' in
        let old : Bytes = buffer (length patch) (k.memory log).1 in
        let none_yet : writes log ≡ [] =
          writes-contexts_onto (take max_threads ids) (list_threads ∷ before) ∙ quiet in
        let out' = record out { old_bytes = old } in
        elim (Bool-cases ((k.memory log).0 == 0)) [
          | inr e ↦ inl (ground arith, ground arith)
          | inl e ↦ elim (Bool-cases (is_mismatch k q (length patch) old)) [
            | inl e' ↦ inl (ground arith, ground arith)
            | inr e' ↦ elim (Bool-cases (k.written log' == 0)) [
              | inr e'' ↦ inr record {
                before = before;
                later = [];
                ids = ids;
                listed = listed;
                inspected = inspected;
                readable = ground arith;
                expected = expected-is_mismatch (length patch) old e';
                shape = ground arith;
                quiet_before = quiet;
                stopped_before = halted;
                quiet_later = refl;
                confirmed = ground arith;
              }
              | inl e'' ↦
                  let runs = write_patch-read_back out log e e' e'' in
                  inr record {
                    before = before;
                    later = read_memory q.address (length patch) ∷ [];
                    ids = ids;
                    listed = listed;
                    inspected = inspected;
                    readable = ground arith;
                    expected = expected-is_mismatch (length patch) old e';
                    shape = ap (λ r. r.2) runs ∙ read_back-calls out' log'';
                    quiet_before = quiet;
                    stopped_before = halted;
                    quiet_later = refl;
                    confirmed = λ h g.
                        read_back-IsReadBack out' log'' (ap (λ r. r.0) (sym runs) ∙ h)
                          (ap (λ r. r.1.status) (sym runs) ∙ g);
                  }
            ]
          ]
        ]

    patch_stopped-write_patch :
        (out : PatchResult) (log : Log)
        → ((k.threads log).0 == 0) ≡ true
        → let seen =
            check_threads k q
              (length patch)
              (take max_threads (k.threads log).1)
              u64_max
              (record out { patch_size = length patch })
              (list_threads ∷ log) in
          seen.0 ≡ false
          → patch_stopped k q (length patch) patch out log
            ≡ write_patch k q (length patch) patch seen.1 seen.2
    unfolding patch_stopped
    patch_stopped-write_patch out log e e' = ground arith

    pub patch_stopped-IsGuarded :
        (out : PatchResult) (log : Log)
        → writes log ≡ []
        → IsStopped k log
        → IsGuarded k q patch (patch_stopped k q (length patch) patch out log)
    unfolding patch_stopped
    patch_stopped-IsGuarded out log quiet halted =
        let ids = (k.threads log).1 in
        let sized = record out { patch_size = length patch } in
        let ts = take max_threads ids in
        let seen = check_threads k q (length patch) ts u64_max sized (list_threads ∷ log) in
        elim (Bool-cases ((k.threads log).0 == 0)) [
          | inr e ↦ inl (ground arith, ground arith)
          | inl e ↦ elim (Bool-cases seen.0) [
            | inl e' ↦
                let (none_yet, busy) =
                  check_threads-busy (length patch) ts u64_max sized (list_threads ∷ log) e' in
                inl (ground (arith, none_yet), ground (arith, busy))
            | inr e' ↦
                let (shape, inspected) =
                  check_threads-Inspected (length patch) ts u64_max sized (list_threads ∷ log) e' in
                subst (IsGuarded k q patch)
                  (ap (λ l. write_patch k q (length patch) patch seen.1 l) (sym shape)
                    ∙ sym (patch_stopped-write_patch out log e e'))
                  (write_patch-IsGuarded seen.1 log ids (ground arith) inspected quiet halted)
          ]
        ]
