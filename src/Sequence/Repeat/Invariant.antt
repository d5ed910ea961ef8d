-- ===== src/Sequence/Repeat/Invariant.antt =====
-- An invariant that `emitToken` keeps holds wherever the walk of `expandItems` ends, and with one
-- unit of fuel more than there are bytes the walk ends.
use sys_agent.Prelude.{
  ℕ, zero, suc, ◌+◌, ◌≤◌, ◌<◌, ◌≢◌, Bool, true, false, ◌&&◌, [], ◌∷◌, Bytes, length, ◌==◌, arith,
  Bool-cases, inl, inr,
}
use sys_agent.Sequence.Repeat.{
  ExpandState, Outcome, continue, failed, out_of_fuel, ◌>>=◌, Scan, found, refused, emit_token,
  emit_rounds, group_rounds, expand_ok,
}
use sys_agent.Sequence.Repeat.Expand.{
  Item, group, token, Place, read_item, emit_item, after_item, with_count, with_item, expand_items,
}
use sys_agent.Sequence.Repeat.Reads.{
  IsPlain, Finds, ItemFits, SameEnd, read_item-Finds, read_count-Finds,
}

-- The state that the walk ends in, by success or by `fail`. A failure is an error that points at a
-- byte in front of `end`.
abbrev pub Ends : ℕ → (ExpandState → Type 0) → Outcome → Type 0
Ends end P (continue s) = P s
Ends end P (failed r i s) = (r ≢ expand_ok) × (i < end) × P s
Ends end P out_of_fuel = ⊥

module _ (end : ℕ) (P : ExpandState → Type 0) where
  pub >>=-Ends :
      (m : Outcome) (f : ExpandState → Outcome)
      → Ends end P m
      → ((s : ExpandState) → P s → Ends end P (f s))
      → Ends end P (m >>= f)
  >>=-Ends (continue s) f h k = k s h
  >>=-Ends (failed r i s) f h k = h
  >>=-Ends out_of_fuel f h k = h

  group_rounds-Ends :
      (body : ExpandState → Outcome)
      → ((s : ExpandState) → P s → Ends end P (body s))
      → (item_start emitted count : ℕ) (first : Bool) (s : ExpandState) → item_start < end
      → P s
      → Ends end P (group_rounds body item_start emitted first count s)
  unfolding group_rounds
  group_rounds-Ends body keep item_start emitted zero first s lt h = h
  group_rounds-Ends body keep item_start emitted (suc count) first s lt h =
      >>=-Ends (body s) _ (keep s h) λ s' h'. elim (Bool-cases (first && s'.tokens == emitted)) [
        | inl e ↦ rw e (λ x. cc, lt, h')
        | inr e ↦ rw e (group_rounds-Ends body keep item_start emitted count false s' lt h')
      ]

  after_item-Ends :
      (walk : ℕ → Bytes → ExpandState → Outcome) (n : ℕ)
      → ((pos : ℕ) (bytes : Bytes) (s : ExpandState)
          → length bytes < n
          → pos + length bytes ≤ end
          → P s
          → Ends end P (walk pos bytes s))
      → (pos : ℕ) (bytes : Bytes) (s : ExpandState) → length bytes ≤ n
      → pos + length bytes ≤ end
      → P s
      → Ends end P (after_item walk pos bytes s)
  unfolding after_item
  after_item-Ends walk n ends pos [] s le inside h = h
  after_item-Ends walk n ends pos (comma ∷ more) s le inside h = elim (Bool-cases (comma == b',')) [
    | inl e ↦ rw (e, Ends) (ends (pos + 1) more s (omega arith) (omega arith) h)
    | inr e ↦ rw (e, Ends) (λ x. cc, omega arith, h)
  ]

module _ (out_size click_cost_ms end : ℕ) (P : ExpandState → Type 0)
    (keep : (begin : ℕ) (t : Bytes) (s : ExpandState)
      → begin < end
      → IsPlain t
      → P s
      → Ends end P (emit_token out_size click_cost_ms begin t s)) where
  emit_rounds-Ends :
      (count begin : ℕ) (t : Bytes) (s : ExpandState)
      → begin < end
      → IsPlain t
      → P s
      → Ends end P (emit_rounds out_size click_cost_ms count begin t s)
  unfolding emit_rounds
  emit_rounds-Ends zero begin t s lt plain h = h
  emit_rounds-Ends (suc count) begin t s lt plain h =
      >>=-Ends end P (emit_token out_size click_cost_ms begin t s) _ (keep begin t s lt plain h)
        (λ s' h'. emit_rounds-Ends count begin t s' lt plain h')

  emit_item-Ends :
      (expand : ℕ → Bytes → ExpandState → Outcome) (n : ℕ)
      → ((pos : ℕ) (bytes : Bytes) (s : ExpandState)
          → length bytes < n
          → pos + length bytes ≤ end
          → P s
          → Ends end P (expand pos bytes s))
      → (pos : ℕ) (all : Bytes) (item : Item) (count : ℕ) (s : ExpandState) → length all ≤ n
      → pos < end
      → pos + length all ≤ end
      → ItemFits pos all item
      → P s
      → Ends end P (emit_item out_size click_cost_ms expand item pos count s)
  unfolding emit_item
  emit_item-Ends expand n body pos all (group start bytes) count s le lt inside fits h =
      group_rounds-Ends end P (expand start bytes)
        (λ s' h'. body start bytes s' (omega arith) (omega arith) h') pos s.tokens count true s lt h
  emit_item-Ends expand n body pos all (token start []) count s le lt inside fits h = h
  emit_item-Ends expand n body pos all (token start (c ∷ cs)) count s le lt inside fits h =
      emit_rounds-Ends count start (c ∷ cs) s (omega arith) fits.0 h

  module _ (walk : ℕ → ℕ → Bytes → ExpandState → Outcome) (n : ℕ)
      (ends : (depth pos : ℕ) (bytes : Bytes) (s : ExpandState)
        → length bytes < n
        → pos + length bytes ≤ end
        → P s
        → Ends end P (walk depth pos bytes s))
      (all : Bytes) (depth pos : ℕ) (le : length all ≤ n) (lt : pos < end)
      (inside : pos + length all ≤ end) where
    with_count-Ends :
        (item : Item) (behind : Place) (scan : Scan (ℕ × Place)) (s : ExpandState)
        → ItemFits pos all item
        → SameEnd pos all behind
        → Finds (pos + length all) (λ (count, place). SameEnd behind.pos behind.rest place) scan
        → P s
        → Ends end P (with_count out_size click_cost_ms walk depth pos item scan s)
    unfolding with_count
    with_count-Ends item behind (refused r i) s fits same short h = (short.0, omega arith, h)
    with_count-Ends item behind (found (count, place)) s fits same short h =
        >>=-Ends end P (emit_item out_size click_cost_ms (walk (depth + 1)) item pos count s) _
          (emit_item-Ends (walk (depth + 1)) n (ends (depth + 1)) pos all item count s le lt inside
            fits h)
          (λ s' h'.
            after_item-Ends end P (walk depth) n (ends depth) place.pos place.rest s' (omega arith)
              (omega arith) h')

    with_item-Ends :
        (scan : Scan (Item × Place)) (s : ExpandState)
        → Finds
            (pos + length all)
            (λ (item, place). ItemFits pos all item × SameEnd pos all place)
            scan
        → 0 < length all
        → P s
        → Ends end P (with_item out_size click_cost_ms walk depth pos scan s)
    unfolding with_item
    with_item-Ends (refused r i) s fits some_byte h = (fits.0, omega arith, h)
    with_item-Ends (found (item, behind)) s fits some_byte h =
        with_count-Ends item behind _ s fits.0 fits.1
          (read_count-Finds item pos behind.pos (pos + length all) behind.rest (omega arith)
            (omega arith))
          h

  -- The rule for the walk.
  pub expand_items-Ends :
      (fuel depth pos : ℕ) (bytes : Bytes) (s : ExpandState)
      → length bytes < fuel
      → pos + length bytes ≤ end
      → P s
      → Ends end P (expand_items out_size click_cost_ms fuel depth pos bytes s)
  unfolding expand_items
  expand_items-Ends zero depth pos bytes s lt inside h = absurd (omega arith)
  expand_items-Ends (suc fuel) depth pos [] s lt inside h = h
  expand_items-Ends (suc fuel) depth pos (value ∷ rest) s lt inside h =
      with_item-Ends (expand_items out_size click_cost_ms fuel) fuel (expand_items-Ends fuel)
        (value ∷ rest) depth pos (omega arith) (omega arith) inside
        (read_item depth pos (value ∷ rest)) s (read_item-Finds depth pos value rest) (omega arith)
        h
