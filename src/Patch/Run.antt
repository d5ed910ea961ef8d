-- ===== src/Patch/Run.antt =====
-- The transaction of sys-agent/source/patch_code.c: `patchCodeRun` with `distanceToRange`. A buffer that is not `NULL` is
-- the list of its bytes.
use sys_agent.Prelude.{
  ℕ, ◌+◌, ◌-◌, Bool, true, false, not, ◌&&◌, ◌||◌, Option, none, some, List, [], ◌∷◌, ◌++◌, Bytes,
  length, take, replicate, ltb, leb, ◌==◌, if◌then◌else◌,
}
use sys_agent.Prelude.Word.{u64_max, add_u64}
use sys_agent.Patch.Kernel.{
  Kernel, Log, application, close_dmnt, attach, list_threads, read_context, read_memory,
  write_memory, resume, close_handle,
}
use sys_agent.Patch.Request.{
  max_size, max_threads, Request, patched, busy_pc_in_range, expected_mismatch, readback_failed,
  PatchResult, no_result,
}
use sys_agent.Patch.Events.{drain_all, drain_initial, pause_process}

-- `memcmp` of buffers of one size.
unfoldable pub same_bytes : Bytes → Bytes → Bool
same_bytes [] [] = true
same_bytes [] (b ∷ bs) = false
same_bytes (a ∷ as') [] = false
same_bytes (a ∷ as') (b ∷ bs) = a == b && same_bytes as' bs

-- What a read leaves in a buffer of zeros.
unfoldable pub buffer : ℕ → Bytes → Bytes
buffer size bytes = take size (bytes ++ replicate size 0)

-- `distanceToRange`
unfoldable pub distance_to_range : ℕ → ℕ → ℕ → ℕ
distance_to_range pc address size =
    if ltb pc address
    then address - pc
    else if ltb pc (add_u64 address size)
    then 0
    else pc - add_u64 address size

-- Whether a pc lies in the code that is patched.
unfoldable pub in_range : ℕ → ℕ → ℕ → Bool
in_range pc address size = leb address pc && ltb pc (add_u64 address size)

module _ (k : Kernel) (q : Request) (size : ℕ) where
  -- What is noted of a thread.
  unfoldable pub note_thread : ℕ → ℕ → PatchResult → ℕ × PatchResult
  note_thread pc best out =
      let d = distance_to_range pc q.address size in
      let counted = record out { paused_threads = out.paused_threads + 1 } in
      if ltb d best then (d, record counted { nearest_pc = pc }) else (best, counted)

  -- The loop over the threads: whether one is in the way, what was noted, and the calls.
  unfoldable pub check_threads : List ℕ → ℕ → PatchResult → Log → Bool × PatchResult × Log
  check_threads [] best out log = (false, out, log)
  check_threads (t ∷ ts) best out log =
      let unknown = check_threads ts best out (read_context t ∷ log) in
      elim (k.context log t) [
        | none ↦ unknown
        | some pc ↦
            let (best', noted) = note_thread pc best out in
            let further = check_threads ts best' noted (read_context t ∷ log) in
            if q.check_pc && in_range pc q.address size
            then (
              true,
              record noted { status = busy_pc_in_range; pc_hit_thread = t; pc_hit_value = pc },
              read_context t ∷ log,
            )
            else further
      ]

  -- Reading back what was written.
  unfoldable pub read_back : Bytes → PatchResult → Log → ℕ × PatchResult × Log
  read_back patch out log =
      let (rc, bytes) = k.memory log in
      let out' = record out { new_bytes = buffer size bytes } in
      let log' = read_memory q.address size ∷ log in
      if not (rc == 0)
      then (rc, record out { new_bytes = replicate size 0 }, log')
      else if same_bytes (buffer size bytes) patch
      then (0, record out' { status = patched }, log')
      else (0, record out' { status = readback_failed }, log')

  -- Whether the bytes that were read are not those expected.
  unfoldable pub is_mismatch : Bytes → Bool
  is_mismatch old =
      not q.skip_verify
      && not (elim q.expected [ none ↦ false | some expected ↦ same_bytes old expected ])

  -- Reading, comparing and writing the code.
  unfoldable pub write_patch : Bytes → PatchResult → Log → ℕ × PatchResult × Log
  write_patch patch out log =
      let (rc, bytes) = k.memory log in
      let old = buffer size bytes in
      let out' = record out { old_bytes = old } in
      let log' = read_memory q.address size ∷ log in
      if not (rc == 0)
      then (rc, out, log')
      else if is_mismatch old
      then (0, record out' { status = expected_mismatch }, log')
      else if not (k.written log' == 0)
      then (k.written log', out', write_memory q.address patch ∷ log')
      else read_back patch out' (write_memory q.address patch ∷ log')

  -- From the list of threads on, with the process stopped.
  unfoldable pub patch_stopped : Bytes → PatchResult → Log → ℕ × PatchResult × Log
  patch_stopped patch out log =
      let (rc, ids) = k.threads log in
      let (busy, out', log') =
        check_threads (take max_threads ids) u64_max (record out { patch_size = size })
          (list_threads ∷ log) in
      if not (rc == 0)
      then (rc, record out { patch_size = size }, list_threads ∷ log)
      else if busy
      then (0, out', log')
      else write_patch patch out' log'

  -- The cleanup of a stopped process; a failed resume is left to the close.
  unfoldable pub release_stopped : ℕ → ℕ × PatchResult × Log → Option (ℕ × PatchResult × Log)
  unfolding drain_all
  release_stopped events (rc, out, log) = elim (drain_all k events log) [
    | none ↦ none
    | some log' ↦ some (rc, out, close_handle ∷ resume ∷ log')
  ]

  -- From the attached handle on.
  unfoldable pub patch_attached : ℕ → Bytes → PatchResult → Log → Option (ℕ × PatchResult × Log)
  patch_attached fuel patch out log =
      elim (drain_initial k fuel fuel (add_u64 (k.tick log) k.tick_freq) false log) [
        | none ↦ none
        | some (rc, log') ↦
            let paused : Option (ℕ × PatchResult × Log) = elim (pause_process k fuel log') [
              | none ↦ none
              | some (rc', log'') ↦
                  let released = release_stopped fuel (patch_stopped patch out log'') in
                  if not (rc' == 0) then some (rc', out, close_handle ∷ log'') else released
            ] in
            if not (rc == 0) then some (rc, out, close_handle ∷ log') else paused
      ]

  -- The debugger's client of the foreground application is closed if that is the target.
  unfoldable pub release_dmnt : ℕ → Log → Bool × Log
  release_dmnt pid log =
      let (rc, app) = k.application_id log in
      let log' = application ∷ log in
      if rc == 0
        && app == pid
        && k.dmnt_ready log' == 0
        && (k.dmnt_attached log').0 == 0
        && (k.dmnt_attached log').1
      then (true, close_dmnt ∷ log')
      else (false, log')

  -- A process with a known id.
  unfoldable pub patch_process : ℕ → Bytes → ℕ → Log → Option (ℕ × PatchResult × Log)
  patch_process fuel patch pid log =
      let (closed, log') = release_dmnt pid log in
      let out = record no_result { dmnt_closed = closed } in
      let rc = k.attached log' pid in
      let run = patch_attached fuel patch out (attach pid ∷ log') in
      if not (rc == 0) then some (rc, out, attach pid ∷ log') else run

-- Whether the bytes to expect are not of the patch's size.
unfoldable pub expects_wrongly : Request → ℕ → Bool
expects_wrongly q size =
    not q.skip_verify
    && elim q.expected [ none ↦ true | some expected ↦ not (length expected == size) ]

-- The result and the process id where none was given.
unfoldable pub target_of : Kernel → Request → ℕ × ℕ × Log
target_of k q =
    let (rc, pid) = k.application_id [] in
    if q.pid == 0 then (rc, pid, application ∷ []) else (0, q.pid, [])

-- `patchCodeRun` for a patch that is not `NULL`.
unfoldable pub run_patch : Kernel → ℕ → Request → Bytes → Option (ℕ × PatchResult × Log)
run_patch k fuel q patch =
    let (rc, pid, log) = target_of k q in
    let run = patch_process k q (length patch) fuel patch pid log in
    if length patch == 0 || ltb max_size (length patch) || expects_wrongly q (length patch)
    then some (k.bad_input, no_result, [])
    else if k.active
    then some (k.owned, no_result, [])
    else if not (rc == 0)
    then some (rc, no_result, log)
    else if pid == 0
    then some (k.not_found, no_result, log)
    else run

-- `patchCodeRun`: its result, what it tells, and the calls that it made. No answer is left without fuel.
unfoldable pub patch_code_run : Kernel → ℕ → Request → Option (ℕ × PatchResult × Log)
patch_code_run k fuel q = elim q.patch [
  | none ↦ some (k.bad_input, no_result, [])
  | some patch ↦ run_patch k fuel q patch
]
