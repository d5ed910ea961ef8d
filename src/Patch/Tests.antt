-- ===== src/Patch/Tests.antt =====
-- A system with two threads, on which the transaction of sys-agent/source/patch_code.c runs to its end.
use sys_agent.Prelude.{
  ℕ, ◌*◌, ◌≡◌, refl, arith, true, false, Option, none, some, [], ◌∷◌, Bytes, leb, ◌==◌, ◌||◌,
  if◌then◌else◌, ◌⊎◌,
}
use sys_agent.Patch.Kernel.{
  Kernel, Log, Event, process_created, application, close_dmnt, attach, wait, next_event,
  break_process, list_threads, read_context, read_memory, write_memory, resume, close_handle,
}
use sys_agent.Patch.Request.{Request, patched}
use sys_agent.Patch.Events.{drain_initial, pause_process, await_break, drain_all, drain_events}
use sys_agent.Patch.Run.{
  patch_code_run, run_patch, expects_wrongly, target_of, patch_process, patch_attached,
  release_dmnt, release_stopped, patch_stopped, check_threads, in_range, write_patch, is_mismatch,
  same_bytes, buffer, read_back, distance_to_range, note_thread,
}
use sys_agent.Patch.Guarded.{HasFailures, Answer, Unwritten, IsVerified}
use sys_agent.Patch.Guarded.Whole.{patch_code_run-IsVerified}
use sys_agent.Patch.Released.{waits, Settles, IsReleased}
use sys_agent.Patch.Released.Whole.{patch_code_run-IsReleased}

-- The process is seen after the first wait and stopped after the third.
abbrev first_event : Log → Option Event
first_event (wait ∷ log) = some process_created
first_event log = none

abbrev code : Log → ℕ × Bytes
code (write_memory a bytes ∷ log) = (0, bytes)
code log = (0, 1 ∷ 2 ∷ [])

abbrev small_kernel : Kernel
small_kernel = record {
  timed_out = 0xea01;
  bad_input = 1;
  not_found = 2;
  owned = 3;
  exited = 4;
  active = false;
  application_id = λ log. (0, 7);
  dmnt_ready = λ log. 0;
  dmnt_attached = λ log. (0, true);
  attached = λ log pid. 0;
  waited = λ log. if leb 3 (waits log) || waits log == 1 then 0xea01 else 0;
  event = first_event;
  broken = λ log. 0;
  threads = λ log. (0, 1 ∷ 2 ∷ []);
  context = λ log t. some (t * 0x1000);
  memory = code;
  written = λ log. 0;
  tick = waits;
  tick_freq = 3;
}

abbrev small_request : Request
small_request = record {
  address = 0x1800;
  expected = some (1 ∷ 2 ∷ []);
  skip_verify = false;
  patch = some (3 ∷ 4 ∷ []);
  check_pc = true;
  pid = 0;
}

abbrev small_answer : Answer
small_answer = (
  0,
  record {
    status = patched;
    dmnt_closed = true;
    paused_threads = 2;
    nearest_pc = 0x2000;
    pc_hit_thread = 0;
    pc_hit_value = 0;
    patch_size = 2;
    old_bytes = 1 ∷ 2 ∷ [];
    new_bytes = 3 ∷ 4 ∷ [];
  },
  close_handle
      ∷ resume
      ∷ next_event
      ∷ read_memory 0x1800 2
      ∷ write_memory 0x1800 (3 ∷ 4 ∷ [])
      ∷ read_memory 0x1800 2
      ∷ read_context 2
      ∷ read_context 1
      ∷ list_threads
      ∷ next_event
      ∷ next_event
      ∷ wait
      ∷ break_process
      ∷ wait
      ∷ next_event
      ∷ next_event
      ∷ wait
      ∷ attach 7
      ∷ close_dmnt
      ∷ application
      ∷ application
      ∷ [],
)

small_runs : patch_code_run small_kernel 4 small_request ≡ some small_answer
unfolding patch_code_run run_patch expects_wrongly target_of patch_process patch_attached
    drain_initial release_dmnt pause_process release_stopped patch_stopped check_threads in_range
    write_patch is_mismatch same_bytes buffer read_back await_break distance_to_range drain_all
    drain_events note_thread
small_runs = refl

small_kernel-HasFailures : HasFailures small_kernel
small_kernel-HasFailures = record {
  bad_input = omega arith;
  not_found = omega arith;
  owned = omega arith;
  exited = omega arith;
  timed_out = omega arith;
}

patch_code_run-IsVerified_example :
    Unwritten small_answer
    ⊎ ((patch : Bytes) × (small_request.patch ≡ some patch)
        × IsVerified small_kernel small_request patch small_answer)
patch_code_run-IsVerified_example =
    patch_code_run-IsVerified small_kernel small_request 4 small_answer small_kernel-HasFailures
      small_runs

small_kernel-Settles : Settles small_kernel 3 4
small_kernel-Settles = record {
  quiet = λ log. (1, omega arith, refl);
  silent = λ log many. ground arith;
  late = λ start log first many. omega arith;
}

patch_code_run-IsReleased_example :
    (r : Answer) × (patch_code_run small_kernel 4 small_request ≡ some r)
    × IsReleased small_kernel r.2
patch_code_run-IsReleased_example =
    patch_code_run-IsReleased small_kernel 3 4 small_request small_kernel-Settles (omega arith)
