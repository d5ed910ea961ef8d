-- ===== src/Search/Run/Total.antt =====
-- A search ends, whatever the kernel answers.
use sys_agent.Prelude.{
  ℕ, zero, suc, ◌+◌, ◌-◌, ◌^◌, ◌≤◌, ◌<◌, ◌≡◌, ◌≢◌, ◌⊎◌, refl, arith, min, Bool, true, false, leb,
  Option, none, some, Option-cases, Bool-cases, inl, inr, Bytes, [],
}
use sys_agent.Prelude.Word.{add_u64}
use sys_agent.Search.Range.{RangeAction, invalid, skip, read, RangePlan, Mapping, plan_mapping}
use sys_agent.Search.Range.Scan.{IsPlan, plan_mapping-IsPlan}
use sys_agent.Search.Run.{
  RunState, Failure, Ended, done, cancelled, failed, scan_mapping, scan_ranges, follow_plan,
  finish_search, run_search,
}

module _ (chunk_size max_results : ℕ) (pattern : Bytes) (alignment : ℕ)
    (read_memory : ℕ → ℕ → Option Bytes) (cancel_requested : ℕ → Bool) (chunked : 0 < chunk_size)
    -- a request to cancel is not taken back
    (sticky : (t : ℕ) → cancel_requested t ≡ true → cancel_requested (t + 1) ≡ true) where
  abbrev scan : ℕ → ℕ → Bytes → ℕ → RunState → Option (ℕ × RunState)
  scan = scan_mapping chunk_size max_results pattern alignment read_memory cancel_requested

  -- The loop over a mapping ends at its end, or because of a request to cancel.
  abbrev Stops : ℕ → Option (ℕ × RunState) → Type 0
  Stops mapping_end none = ⊥
  Stops mapping_end (some (cursor, s)) = (cursor ≡ mapping_end) ⊎ (cancel_requested s.ticks ≡ true)

  scan_mapping-Stops :
      (fuel cursor : ℕ) (carry : Bytes) (mapping_end : ℕ) (s : RunState)
      → mapping_end < 2 ^ 64
      → cursor ≤ mapping_end
      → mapping_end - cursor < fuel
      → Stops mapping_end (scan fuel cursor carry mapping_end s)
  unfolding scan_mapping
  scan_mapping-Stops zero cursor carry mapping_end s top le lt = absurd (omega arith)
  scan_mapping-Stops (suc fuel) cursor carry mapping_end s top le lt =
      elim (Bool-cases (leb mapping_end cursor)) [
        | inl ended ↦ rw (ended, Stops) (inl (ground arith))
        | inr more ↦ elim (Bool-cases (cancel_requested s.ticks)) [
          | inl stop ↦ rw (more, stop, Stops) (inr (sticky s.ticks stop))
          | inr go ↦
              let amount : ℕ = min chunk_size (mapping_end - cursor) in
              let before : cursor < mapping_end = ground arith in
              let next : add_u64 cursor amount ≡ cursor + amount = omega arith in
              let further = λ (c : Bytes) (t : RunState).
                scan_mapping-Stops fuel (add_u64 cursor amount) c mapping_end t top
                  (omega (arith, next)) (omega (arith, next)) in
              elim (Option-cases (read_memory cursor amount)) [
                | inl e ↦ rw (more, go, e) (further [] _)
                | inr (bytes, e) ↦ rw (more, go, e) (further _ _)
              ]
        ]
      ]

  module _ (query_mapping : ℕ → Option Mapping) (process_is_current : ℕ → Bool)
      -- what the kernel reports are 64-bit numbers
      (words : (a : ℕ) (m : Mapping)
        → query_mapping a ≡ some m
        → (m.address < 2 ^ 64) × (m.size < 2 ^ 64)) where
    abbrev walk : ℕ → ℕ → ℕ → RunState → Option (Option Failure × RunState)
    walk =
        scan_ranges chunk_size max_results pattern alignment read_memory cancel_requested
          query_mapping process_is_current

    -- The walk has ended.
    abbrev Ends : Option (Option Failure × RunState) → Type 0
    Ends none = ⊥
    Ends (some r) = Unit {0}

    -- A walk that finds the request to cancel, or nothing left, ends at once.
    walk_stops :
        (fuel cursor search_end : ℕ) (s : RunState)
        → cancel_requested s.ticks ≡ true
        → Ends (walk (suc fuel) cursor search_end s)
    unfolding scan_ranges
    walk_stops fuel cursor search_end s stop = elim (Bool-cases (leb search_end cursor)) [
      | inl ended ↦ rw (ended, Ends) tt
      | inr more ↦ rw (more, stop, Ends) tt
    ]

    module _ (fuel : ℕ) (search_end : ℕ) (top : search_end < 2 ^ 64)
        (ih : (cursor : ℕ) (s : RunState)
          → search_end - cursor < fuel
          → Ends (walk fuel cursor search_end s))
        (cursor : ℕ) (left : search_end - cursor < suc fuel) (more : cursor < search_end) where
      -- A walk that was asked to cancel has fuel left for one more look.
      stopped :
          (f c : ℕ) (t : RunState)
          → search_end - cursor < suc f
          → cancel_requested t.ticks ≡ true
          → Ends (walk f c search_end t)
      stopped zero c t l stop = absurd (omega arith)
      stopped (suc f) c t l stop = walk_stops f c search_end t stop

      -- Behind a mapping that was read.
      after_mapping :
          (end : ℕ) (r : Option (ℕ × RunState))
          → cursor < end
          → Stops end r
          → Ends (elim r [ none ↦ none | some (c, t) ↦ walk fuel c search_end t ])
      after_mapping end none lt h = h
      after_mapping end (some (c, t)) lt (inl e) = ih c t (omega arith)
      after_mapping end (some (c, t)) lt (inr stop) = stopped fuel c t left stop

      follow_plan-Ends :
          (m : Mapping) (p : RangePlan) (a : RangeAction) (s : RunState)
          → p.action ≡ a
          → (p.action ≢ invalid → IsPlan cursor search_end m p)
          → Ends (
              follow_plan chunk_size max_results pattern alignment read_memory cancel_requested
                query_mapping process_is_current
                (λ c t. walk fuel c search_end t)
                (suc fuel)
                cursor
                p.end
                a
                s)
      unfolding follow_plan
      follow_plan-Ends m p invalid s e h = tt
      follow_plan-Ends m p skip s e h =
          let plan = h (λ x. cc) in ih p.end _ (omega (arith, plan.advances))
      follow_plan-Ends m p read s e h =
          let plan = h (λ x. cc) in
          after_mapping p.end _ plan.advances (
            scan_mapping-Stops (suc fuel) cursor [] p.end s (omega (arith, plan.inside))
              (omega (arith, plan.advances)) (omega (arith, plan.inside, plan.advances)))

    walk-Ends :
        (fuel cursor search_end : ℕ) (s : RunState)
        → search_end < 2 ^ 64
        → search_end - cursor < fuel
        → Ends (walk fuel cursor search_end s)
    unfolding scan_ranges
    walk-Ends zero cursor search_end s top lt = absurd (omega arith)
    walk-Ends (suc fuel) cursor search_end s top lt = elim (Bool-cases (leb search_end cursor)) [
      | inl ended ↦ rw (ended, Ends) tt
      | inr more ↦ elim (Bool-cases (cancel_requested s.ticks)) [
        | inl stop ↦ rw (more, stop, Ends) tt
        | inr go ↦ elim (Bool-cases (process_is_current (s.ticks + 1))) [
          | inr gone ↦ rw (more, go, gone, Ends) tt
          | inl here ↦ elim (Option-cases (query_mapping cursor)) [
            | inl e ↦ rw (more, go, here, e, Ends) tt
            | inr (m, e) ↦
                rw (more, go, here, e)
                  (follow_plan-Ends fuel search_end top
                    (λ c t l. walk-Ends fuel c search_end t top l) cursor lt (ground arith) m
                    (plan_mapping cursor search_end m) _ _ refl
                    (plan_mapping-IsPlan cursor search_end m (words cursor m e).0
                      (words cursor m e).1))
          ]
        ]
      ]
    ]

    finishes :
        (w : Option (Option Failure × RunState))
        → Ends w
        → (r : Ended × RunState) × (finish_search chunk_size max_results pattern alignment
              read_memory cancel_requested query_mapping process_is_current w
            ≡ some r)
    unfolding finish_search
    finishes none h = absurd h
    finishes (some (none, s)) h = elim (Bool-cases (cancel_requested s.ticks)) [
      | inl stop ↦ ((cancelled, s), rw stop)
      | inr go ↦ ((done, s), rw go)
    ]
    finishes (some (some x, s)) h = elim (Bool-cases (cancel_requested s.ticks)) [
      | inl stop ↦ ((cancelled, s), rw stop)
      | inr go ↦ ((failed x, s), rw go)
    ]

    -- With one unit of fuel more than the range has bytes `runSearch` ends, whatever mappings the kernel reports,
    -- whichever reads fail, and whenever the search is cancelled or the process goes away.
    pub run_search_total :
        (allocated : Bool) (fuel start search_end : ℕ) (s : RunState)
        → search_end < 2 ^ 64
        → search_end - start < fuel
        → (r : Ended × RunState) × (run_search chunk_size max_results pattern alignment read_memory
              cancel_requested query_mapping process_is_current allocated fuel start search_end s
            ≡ some r)
    unfolding run_search
    run_search_total false fuel start search_end s top lt = (_, refl)
    run_search_total true fuel start search_end s top lt =
        finishes _ (walk-Ends fuel start search_end s top lt)
