-- ===== src/Trace/Config.antt =====
-- sys-agent/source/debug_trace_model.c: `debugTraceConfigIsValid` and `debugTraceFindTarget`.
pub mod Sound
use sys_agent.Prelude.{
  ℕ, zero, suc, ◌+◌, ◌-◌, ◌≤◌, ◌<◌, Bool, true, false, not, ◌&&◌, ◌||◌, Option, none, some, List,
  [], ◌∷◌, length, get_or, take, ltb, leb, ◌==◌, if◌then◌else◌,
}
use sys_agent.Prelude.Word.{u32_max}
use sys_agent.Trace.Spec.{SnapshotSpec, address_is_valid, snapshot_spec_is_valid}

abbrev pub trace_ring_max : ℕ
trace_ring_max = 64

abbrev pub trace_args_max : ℕ
trace_args_max = 8

abbrev pub trace_target_max : ℕ
trace_target_max = 4

abbrev pub trace_snapshot_max : ℕ
trace_snapshot_max = 2

-- `DebugTraceConfigModel`; the arrays are lists of their fixed lengths.
pub record TraceConfig : Type 0 where
  pub addresses : List ℕ
  pub target_count : ℕ
  pub max_hits : ℕ
  pub duration_seconds : ℕ
  pub ring_size : ℕ
  pub args_count : ℕ
  pub snapshots : List SnapshotSpec
  pub snapshot_count : ℕ

-- The inner loop: whether one of the first `i` addresses, from `prior` on, is that given.
unfoldable pub has_prior : List ℕ → ℕ → ℕ → Bool
has_prior [] address i = false
has_prior (a ∷ rest) address zero = false
has_prior (a ∷ rest) address (suc i) = a == address || has_prior rest address i

-- The outer loop over the addresses from index `i` on, `n` of them left.
unfoldable pub targets_are_valid : List ℕ → ℕ → List ℕ → ℕ → Bool
unfolding has_prior
targets_are_valid all i rest zero = true
targets_are_valid all i [] (suc n) = true
targets_are_valid all i (a ∷ rest) (suc n) =
    address_is_valid a && not (has_prior all a i) && targets_are_valid all (i + 1) rest n

-- The loop over the snapshots, `n` of them left.
unfoldable pub snapshots_are_valid : List SnapshotSpec → ℕ → Bool
snapshots_are_valid rest zero = true
snapshots_are_valid [] (suc n) = true
snapshots_are_valid (spec ∷ rest) (suc n) =
    snapshot_spec_is_valid spec && snapshots_are_valid rest n

-- `debugTraceConfigIsValid`
unfoldable pub config_is_valid : TraceConfig → Bool
config_is_valid config =
    if config.target_count == 0 || ltb trace_target_max config.target_count
    then false
    else if not (targets_are_valid config.addresses 0 config.addresses config.target_count)
    then false
    else if config.max_hits == 0 && config.ring_size == 0
    then false
    else if ltb trace_ring_max config.ring_size
    then false
    else if ltb trace_args_max config.args_count
    then false
    else if ltb trace_snapshot_max config.snapshot_count
    then false
    else snapshots_are_valid config.snapshots config.snapshot_count

-- The loop of `debugTraceFindTarget` at index `i`, `n` addresses left.
unfoldable pub find_from : ℕ → List ℕ → ℕ → ℕ → ℕ
find_from i addresses zero address = u32_max
find_from i [] (suc n) address = u32_max
find_from i (a ∷ rest) (suc n) address =
    let further = find_from (i + 1) rest n address in if a == address then i else further

-- `debugTraceFindTarget`; `UINT32_MAX` for none.
unfoldable pub find_target : List ℕ → ℕ → ℕ → ℕ
unfolding find_from
find_target addresses count address =
    if ltb trace_target_max count then u32_max else find_from 0 addresses count address
