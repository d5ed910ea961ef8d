-- ===== src/Search/Run.antt =====
-- sys-agent/source/search.c: `recordMatch`, `runSearch` and `finishSearch`.
-- What the kernel answers is given by the functions of a section: the mapping at an address, the
-- bytes of a range, and for each tick (the number of calls of `shouldCancel` and
-- `processIsCurrent` so far) whether the search is cancelled and the process is still there.
pub mod Chunks
pub mod Results
pub mod Total
use sys_agent.Prelude.{
  ℕ, zero, suc, ◌+◌, ◌-◌, ◌*◌, ◌/◌, ◌%◌, ◌^◌, ◌≤◌, ◌<◌, min, Bool, true, false, not, ◌&&◌, ◌||◌,
  Option, none, some, List, [], ◌∷◌, ◌++◌, Bytes, length, drop, ltb, leb, ◌==◌, if◌then◌else◌,
}
use sys_agent.Prelude.Word.{add_u64}
use sys_agent.Search.Range.{Mapping, RangePlan, RangeAction, invalid, skip, read, plan_mapping}
use sys_agent.Search.Match.{search_exact_buffer_aligned}

-- The matches of a session: `totalMatches`, the `storedMatches` addresses and `truncated`.
pub record Found : Type 0 where
  pub total : ℕ
  pub results : List ℕ
  pub truncated : Bool

-- The session's counters, and the ticks that have passed.
pub record RunState : Type 0 where
  pub found : Found
  pub scanned : ℕ
  pub read_errors : ℕ
  pub ticks : ℕ

-- Why a search stops early.
pub data Failure : Type 0 where
  process_gone query_failed bad_mapping out_of_memory : Failure

-- The `SearchState` that `finishSearch` stores.
pub data Ended : Type 0 where
  done cancelled : Ended
  failed : Failure → Ended

module _ (max_results : ℕ) where
  -- `recordMatch`
  unfoldable pub record_match : Found → ℕ → Found
  record_match f address =
      if ltb (length f.results) max_results
      then record f { total = f.total + 1; results = f.results ++ (address ∷ []) }
      else record f { total = f.total + 1; truncated = true }

  -- The callbacks of one call of the matcher.
  unfoldable pub record_matches : Found → List ℕ → Found
  record_matches f [] = f
  record_matches f (a ∷ rest) = record_matches (record_match f a) rest

module _ (chunk_size max_results : ℕ) (pattern : Bytes) (alignment : ℕ)
    (read_memory : ℕ → ℕ → Option Bytes) (cancel_requested : ℕ → Bool) where
  -- The bytes that a chunk and the next have in common.
  abbrev pub overlap : ℕ
  overlap = if ltb 1 (length pattern) then length pattern - 1 else 0

  -- One chunk that was read, behind the bytes carried over: the new carry and state.
  unfoldable pub search_chunk : ℕ → Bytes → Bytes → RunState → Bytes × RunState
  search_chunk cursor carry bytes s =
      let buffer = carry ++ bytes in
      let combined = length carry + length bytes in
      let address = cursor - length carry in
      let kept = min combined overlap in
      (
        drop (combined - kept) buffer,
        record s {
          found =
              record_matches max_results s.found
                (search_exact_buffer_aligned pattern address alignment buffer);
          scanned = add_u64 s.scanned (length bytes);
        },
      )

  -- The loop over the chunks of a mapping: the cursor behind it, and the state. `none` for a loop
  -- that has not ended.
  unfoldable pub scan_mapping : ℕ → ℕ → Bytes → ℕ → RunState → Option (ℕ × RunState)
  scan_mapping zero cursor carry mapping_end s = none
  scan_mapping (suc fuel) cursor carry mapping_end s =
      let asked : RunState = record s { ticks = s.ticks + 1 } in
      let amount = min chunk_size (mapping_end - cursor) in
      let after_error : Option (ℕ × RunState) =
        scan_mapping fuel (add_u64 cursor amount) [] mapping_end (record asked {
          read_errors = asked.read_errors + 1;
          scanned = add_u64 asked.scanned amount;
        }) in
      let after_read : Bytes → Option (ℕ × RunState) = λ bytes.
        let (carry', s') = search_chunk cursor carry bytes asked in
        scan_mapping fuel (add_u64 cursor amount) carry' mapping_end s' in
      if leb mapping_end cursor
      then some (cursor, s)
      else if cancel_requested s.ticks
      then some (cursor, asked)
      else elim (read_memory cursor amount) [ none ↦ after_error | some bytes ↦ after_read bytes ]

  module _ (query_mapping : ℕ → Option Mapping) (process_is_current : ℕ → Bool) where
    -- What the outer loop does with a plan, by its action; `walk` is the loop itself.
    unfoldable pub follow_plan :
        (ℕ → RunState → Option (Option Failure × RunState))
        → ℕ
        → ℕ
        → ℕ
        → RangeAction
        → RunState
        → Option (Option Failure × RunState)
    follow_plan walk fuel cursor plan_end invalid s = some (some bad_mapping, s)
    follow_plan walk fuel cursor plan_end skip s =
        walk plan_end (record s { scanned = add_u64 s.scanned (plan_end - cursor) })
    follow_plan walk fuel cursor plan_end read s = elim (scan_mapping fuel cursor [] plan_end s) [
      | none ↦ none
      | some (cursor', s') ↦ walk cursor' s'
    ]

    -- The outer loop of `runSearch`: how it stops (`none` if by its condition), and the state.
    unfoldable pub scan_ranges : ℕ → ℕ → ℕ → RunState → Option (Option Failure × RunState)
    scan_ranges zero cursor search_end s = none
    scan_ranges (suc fuel) cursor search_end s =
        let asked : RunState = record s { ticks = s.ticks + 1 } in
        let checked : RunState = record s { ticks = s.ticks + 2 } in
        let planned : RangePlan → Option (Option Failure × RunState) = λ plan.
          follow_plan (λ c t. scan_ranges fuel c search_end t) (suc fuel) cursor plan.end
            plan.action checked in
        if leb search_end cursor
        then some (none, s)
        else if cancel_requested s.ticks
        then some (none, asked)
        else if not (process_is_current asked.ticks)
        then some (some process_gone, checked)
        else elim (query_mapping cursor) [
          | none ↦ some (some query_failed, checked)
          | some m ↦ planned (plan_mapping cursor search_end m)
        ]

    -- The end of `runSearch`: a cancelled search is reported as such, else the failure if any.
    unfoldable pub finish_search : Option (Option Failure × RunState) → Option (Ended × RunState)
    finish_search none = none
    finish_search (some (failure, s)) =
        if cancel_requested s.ticks
        then some (cancelled, s)
        else elim failure [ none ↦ some (done, s) | some f ↦ some (failed f, s) ]

    -- `runSearch`; the buffer may not be allocated.
    unfoldable pub run_search : Bool → ℕ → ℕ → ℕ → RunState → Option (Ended × RunState)
    unfolding finish_search
    run_search allocated fuel start search_end s =
        if not allocated
        then some (failed out_of_memory, s)
        else finish_search (scan_ranges fuel start search_end s)
