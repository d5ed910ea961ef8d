-- ===== src/Trace/Ring.antt =====
-- The event ring: `recordEvent` and `debugTraceGetEvent` of sys-agent/source/debug_trace.c, over the
-- index functions of sys-agent/source/debug_trace_model.c. The mutex makes each call one step.
pub mod Window
use sys_agent.Prelude.{
  ℕ, zero, suc, ◌+◌, ◌-◌, ◌%◌, ◌≤◌, ◌<◌, Bool, true, false, not, ◌&&◌, ◌||◌, Option, none, some,
  List, [], ◌∷◌, Bytes, length, get_elem?, get_or, set, ltb, leb, ◌==◌, if◌then◌else◌,
}
use sys_agent.Prelude.Word.{u32_max, u32_mod, add_u64}

-- `DebugTraceEvent`
pub record TraceEvent : Type 0 where
  pub sequence : ℕ
  pub target_address : ℕ
  pub thread_id : ℕ
  pub pc : ℕ
  pub lr : ℕ
  pub sp : ℕ
  pub x : List ℕ
  pub tick : ℕ
  pub core : ℕ
  pub args_count : ℕ
  pub insn_bytes : ℕ
  pub context_result : ℕ
  pub core_result : ℕ
  pub target_index : ℕ
  pub snapshot_count : ℕ
  pub snapshot_addresses : List ℕ
  pub snapshot_bytes : List ℕ
  pub snapshot_results : List ℕ
  pub snapshots : List Bytes
  pub insn : Bytes

-- The fields of `traceState` that recording touches.
pub record TraceState : Type 0 where
  pub target_count : ℕ
  pub target_hits : List ℕ
  pub duration_from_first_hit : Bool
  pub duration_start_tick : ℕ
  pub hit_count : ℕ
  pub ring_size : ℕ
  pub ring_count : ℕ
  pub ring_next : ℕ
  pub ring : List TraceEvent
  pub last_event : TraceEvent
  pub has_event : Bool
  pub last_pc : ℕ
  pub last_lr : ℕ
  pub last_sp : ℕ
  pub last_thread_id : ℕ
  pub last_core : ℕ

-- `debugTraceRingOldestIndex`; the sums stay below 2 ^ 32 for rings of at most 64 events.
unfoldable pub ring_oldest_index : ℕ → ℕ → ℕ → ℕ → ℕ
ring_oldest_index next capacity count index =
    if capacity == 0 || count == 0 || ltb capacity count || leb count index
    then u32_max
    else ((next + capacity - count) % capacity + index) % capacity

-- `debugTraceOverwrittenCount`
unfoldable pub overwritten_count : ℕ → ℕ → ℕ
overwritten_count hit_count stored_count =
    if ltb stored_count hit_count then hit_count - stored_count else 0

-- `debugTraceHitLimitReached`
unfoldable pub hit_limit_reached : ℕ → ℕ → Bool
hit_limit_reached hit_count max_hits = not (max_hits == 0) && leb max_hits hit_count

-- The event with the number that `recordEvent` gives it.
abbrev pub numbered : TraceEvent → ℕ → TraceEvent
numbered event n = record event { sequence = n }

-- The hit counters of the targets.
unfoldable pub count_target : TraceState → TraceEvent → List ℕ
count_target s event =
    if ltb event.target_index s.target_count
    then set s.target_hits event.target_index
        ((get_or s.target_hits event.target_index 0 + 1) % u32_mod)
    else s.target_hits

-- `recordEvent`
unfoldable pub record_event : TraceState → TraceEvent → TraceState
record_event s event =
    let hits = add_u64 s.hit_count 1 in
    let stored : TraceEvent = numbered event hits in
    record s {
      hit_count = hits;
      duration_start_tick =
          if s.duration_from_first_hit && s.duration_start_tick == 0
          then event.tick
          else s.duration_start_tick;
      target_hits = count_target s event;
      last_event = stored;
      has_event = true;
      ring = if ltb 0 s.ring_size then set s.ring s.ring_next stored else s.ring;
      ring_next = if ltb 0 s.ring_size then (s.ring_next + 1) % s.ring_size else s.ring_next;
      ring_count =
          if ltb 0 s.ring_size && ltb s.ring_count s.ring_size
          then s.ring_count + 1
          else s.ring_count;
      last_pc = event.pc;
      last_lr = event.lr;
      last_sp = event.sp;
      last_thread_id = event.thread_id;
      last_core = event.core;
    }

-- `debugTraceGetEvent`
unfoldable pub get_event : TraceState → ℕ → Option TraceEvent
get_event s index =
    if not s.has_event
    then none
    else if s.ring_size == 0
    then (if not (index == 0) then none else some s.last_event)
    else let stored = ring_oldest_index s.ring_next s.ring_size s.ring_count index in
      if stored == u32_max then none else get_elem? s.ring stored

-- A run of recorded events.
unfoldable pub record_all : TraceState → List TraceEvent → TraceState
record_all s [] = s
record_all s (e ∷ es) = record_all (record_event s e) es
