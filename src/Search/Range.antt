-- ===== src/Search/Range.antt =====
-- sys-agent/source/search_range.c: what to do with the mapping at the search cursor.
pub mod Scan
use sys_agent.Prelude.{
  ℕ, zero, suc, ◌+◌, ◌-◌, ◌%◌, ◌≤◌, ◌<◌, Bool, true, false, not, ◌&&◌, ◌||◌, Option, none, some,
  List, [], ◌∷◌, length, ltb, leb, ◌==◌, if◌then◌else◌,
}
use sys_agent.Prelude.Word.{u64_mod, add_u64}

-- `SearchRangeAction`
pub data RangeAction : Type 0 where
  invalid skip read : RangeAction

-- `SearchRangePlan`
pub record RangePlan : Type 0 where
  pub action : RangeAction
  pub start : ℕ
  pub end : ℕ

-- What `svcQueryMemory` tells of a mapping.
pub record Mapping : Type 0 where
  pub address : ℕ
  pub size : ℕ
  pub readable : Bool

-- The plan in front of a mapping that starts behind the cursor.
unfoldable pub plan_gap : ℕ → ℕ → Mapping → RangePlan
plan_gap cursor search_end m =
    let gap : RangePlan = record {
      action = skip;
      start = cursor;
      end = if ltb m.address search_end then m.address else search_end;
    } in
    if ltb gap.start gap.end then gap else record { action = invalid; start = cursor; end = cursor }

-- The plan in a mapping that starts at or in front of the cursor.
unfoldable pub plan_inside : ℕ → ℕ → Mapping → RangePlan
plan_inside cursor search_end m =
    let mapping_end = add_u64 m.address m.size in
    let clipped = if ltb search_end mapping_end then search_end else mapping_end in
    if leb clipped cursor
    then record { action = invalid; start = cursor; end = cursor }
    else record { action = if m.readable then read else skip; start = cursor; end = clipped }

-- `searchPlanMapping`; the sum wraps in 64 bits.
unfoldable pub plan_mapping : ℕ → ℕ → Mapping → RangePlan
unfolding plan_gap plan_inside
plan_mapping cursor search_end m =
    if leb search_end cursor || m.size == 0 || leb (add_u64 m.address m.size) m.address
    then record { action = invalid; start = cursor; end = cursor }
    else if ltb cursor m.address
    then plan_gap cursor search_end m
    else plan_inside cursor search_end m
