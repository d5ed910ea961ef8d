-- ===== src/Trace/Tests.antt =====
-- Cases in the manner of tests/debug_trace_model_test.c, and examples of the theorems on the tracer.
use sys_agent.Prelude.{
  inl, ℕ, ◌+◌, ◌-◌, ◌%◌, ◌≤◌, ◌<◌, ◌≡◌, ◌⊎◌, ◌↔◌, refl, arith, min, true, false, none, some, List,
  [], ◌∷◌, length, get_or, replicate,
}
use sys_agent.Prelude.Word.{u32_max, u64_max, u64_mod}
use sys_agent.Prelude.Int.{negsuc}
use sys_agent.Libc.{digit_value}
use sys_agent.Libc.Digits.{digits_value}
use sys_agent.Trace.Spec.{
  SnapshotSpec, parse_unsigned, parse_snapshot_spec, address_is_valid, snapshot_spec_is_valid,
}
use sys_agent.Trace.Spec.Unsigned.{parse_unsigned_prefixed_minus}
use sys_agent.Trace.Spec.RoundTrip.{
  IsWritable, spec_text, parse_snapshot_spec-spec_text, parse_snapshot_spec-IsWritable,
}
use sys_agent.Trace.Address.{
  Registers, compute_snapshot_address, IsSum, compute_snapshot_address_iff,
}
use sys_agent.Trace.Config.{
  TraceConfig, targets_are_valid, snapshots_are_valid, config_is_valid, find_target,
}
use sys_agent.Trace.Config.Sound.{IsTraceable, config_is_valid-IsTraceable, find_target-config}
use sys_agent.Trace.Ring.{
  TraceEvent, TraceState, record_all, get_event, numbered, overwritten_count,
}
use sys_agent.Trace.Ring.Window.{IsArmed, record_all-window}

-- `x1-0x20:64`
abbrev below_x1 : SnapshotSpec
below_x1 = record { base = 0; register_index = 1; offset = negsuc 31; size = 64 }

below_x1-is_valid : snapshot_spec_is_valid below_x1 ≡ true
unfolding snapshot_spec_is_valid
below_x1-is_valid = refl

below_x1-IsWritable : IsWritable below_x1
below_x1-IsWritable = record {
  valid = below_x1-is_valid;
  offset_fits = omega arith;
  numbered = λ ne. absurd (ne refl);
}

parse_snapshot_spec-spec_text_example : parse_snapshot_spec (spec_text below_x1) ≡ some below_x1
parse_snapshot_spec-spec_text_example = parse_snapshot_spec-spec_text below_x1 below_x1-IsWritable

parse_snapshot_spec-IsWritable_example : IsWritable below_x1
parse_snapshot_spec-IsWritable_example =
    parse_snapshot_spec-IsWritable (spec_text below_x1) below_x1
      (parse_snapshot_spec-spec_text below_x1 below_x1-IsWritable)

parse_unsigned_prefixed_minus_example :
    parse_unsigned (b'0' ∷ b'x' ∷ b'-' ∷ b'5' ∷ [])
    ≡ some ((u64_mod - digits_value 16 0 (b'5' ∷ [])) % u64_mod)
unfolding digit_value digits_value
parse_unsigned_prefixed_minus_example =
    parse_unsigned_prefixed_minus b'x' b'5' [] refl ((5, refl), tt) (omega arith)

abbrev registers : Registers
registers = record { gprs = replicate 31 4096; sp = 0; pc = 0; lr = 0 }

compute_snapshot_address_iff_example :
    (compute_snapshot_address below_x1 registers ≡ some 4064)
    ↔ (IsSum 4096 (negsuc 31) 4064 × (4064 ≤ u64_max))
compute_snapshot_address_iff_example =
    compute_snapshot_address_iff below_x1 registers 4096 4064 below_x1-is_valid (inl (refl, refl))
      (omega arith) (omega arith)

abbrev two_targets : TraceConfig
two_targets = record {
  addresses = 4096 ∷ 8192 ∷ 0 ∷ 0 ∷ [];
  target_count = 2;
  max_hits = 0;
  duration_seconds = 0;
  ring_size = 2;
  args_count = 8;
  snapshots = below_x1 ∷ below_x1 ∷ [];
  snapshot_count = 1;
}

two_targets-is_valid : config_is_valid two_targets ≡ true
unfolding config_is_valid targets_are_valid address_is_valid snapshots_are_valid
    snapshot_spec_is_valid
two_targets-is_valid = refl

config_is_valid-IsTraceable_example : IsTraceable two_targets
config_is_valid-IsTraceable_example =
    config_is_valid-IsTraceable two_targets refl two_targets-is_valid

find_target-config_example :
    ((i : ℕ) → i < 2 → find_target two_targets.addresses 2 (get_or two_targets.addresses i 0) ≡ i)
    × ((address : ℕ)
        → (find_target two_targets.addresses 2 address ≡ u32_max)
          ⊎ ((j : ℕ) × (find_target two_targets.addresses 2 address ≡ j)
              × (j < 2)
              × (get_or two_targets.addresses j 0 ≡ address)))
find_target-config_example = find_target-config two_targets refl two_targets-is_valid

-- An event at a program counter.
abbrev event_at : ℕ → TraceEvent
event_at at = record {
  sequence = 0;
  target_address = at;
  thread_id = 1;
  pc = at;
  lr = 0;
  sp = 0;
  x = [];
  tick = 7;
  core = 0;
  args_count = 0;
  insn_bytes = 0;
  context_result = 0;
  core_result = 0;
  target_index = 0;
  snapshot_count = 0;
  snapshot_addresses = [];
  snapshot_bytes = [];
  snapshot_results = [];
  snapshots = [];
  insn = [];
}

abbrev armed : TraceState
armed = record {
  target_count = 1;
  target_hits = 0 ∷ 0 ∷ 0 ∷ 0 ∷ [];
  duration_from_first_hit = false;
  duration_start_tick = 0;
  hit_count = 0;
  ring_size = 2;
  ring_count = 0;
  ring_next = 0;
  ring = replicate 64 (event_at 0);
  last_event = event_at 0;
  has_event = false;
  last_pc = 0;
  last_lr = 0;
  last_sp = 0;
  last_thread_id = 0;
  last_core = 0;
}

armed-IsArmed : IsArmed armed
armed-IsArmed = record {
  ring_nonempty = omega arith;
  ring_small = omega arith;
  storage = refl;
  no_hits = refl;
  no_events = refl;
  at_start = refl;
}

abbrev three_events : List TraceEvent
three_events = event_at 4 ∷ event_at 8 ∷ event_at 12 ∷ []

record_all-window_example :
    ((i : ℕ)
      → i < min (length three_events) 2
      → get_event (record_all armed three_events) i
        ≡ some (
            numbered
              (get_or three_events
                (length three_events - min (length three_events) 2 + i)
                (event_at 0))
              (length three_events - min (length three_events) 2 + i + 1)))
    × ((i : ℕ)
        → min (length three_events) 2 ≤ i
        → get_event (record_all armed three_events) i ≡ none)
    × (overwritten_count
          (record_all armed three_events).hit_count
          (record_all armed three_events).ring_count
        ≡ length three_events - min (length three_events) 2)
record_all-window_example =
    record_all-window (event_at 0) armed three_events armed-IsArmed (omega arith)
