-- ===== src/Trace/Ring/Window.antt =====
-- The ring holds the last events recorded, and reads them back oldest first.
use native.Mathlib.Nat.{mod-add-mod, mod-eq_of_lt, mod-eq-sub-mod, mod-lt}
use sys_agent.Prelude.{
  ℕ, ◌+◌, ◌-◌, ◌%◌, ◌^◌, ◌≤◌, ◌<◌, ◌≡◌, ◌≢◌, refl, sym, subst, ap, ◌∙◌, arith, min, true, none,
  some, List, [], ◌∷◌, ◌++◌, length, length-append, length-set, get_or, get_or-set_self,
  get_or-set_ne, get_or-append_right, get_or-append_left, get_elem?-eq-get_or, set, ltb, Bool-cases,
  inl, inr, append_assoc, append-nil,
}
use sys_agent.Prelude.Word.{add_u64}
use sys_agent.Trace.Ring.{
  TraceEvent, TraceState, ring_oldest_index, overwritten_count, numbered, record_event, get_event,
  record_all,
}

-- Adding fewer than `s` steps changes the place on a ring of `s`.
add-mod-ne : (r d s : ℕ) → r < s → 0 < d → d < s → (r + d) % s ≢ r
add-mod-ne r d s hr h0 hd = elim (Bool-cases (ltb (r + d) s)) [
  | inl p ↦ omega (arith, mod-eq_of_lt {n = r + d} {m = s} (ground arith))
  | inr p ↦
      let past : s ≤ r + d = ground arith in
      omega (
        arith,
        mod-eq-sub-mod {n = r + d} {m = s} past,
        mod-eq_of_lt {n = r + d - s} {m = s} (omega arith),
      )
]

place-ne : (k n s : ℕ) → k < n → n < k + s → k % s ≢ n % s
place-ne k n s lt near e =
    let there : (k % s + (n - k)) % s ≡ n % s = rw mod-add-mod (ap (λ t. t % s) (omega arith)) in
    add-mod-ne (k % s) (n - k) s (mod-lt k (omega arith)) (omega arith) (omega arith)
      (there ∙ sym e)

-- The place of the `i`-th stored event, when `n` were recorded and `count` are kept.
stored_place :
    (n s count i : ℕ)
    → 0 < s
    → count ≡ min n s
    → i < count
    → ((n % s + s - count) % s + i) % s ≡ (n - count + i) % s
stored_place n s count i hs hc hi = elim (Bool-cases (ltb n s)) [
  | inl small ↦
      let c : count ≡ n = ground arith in
      let e : n % s ≡ n = mod-eq_of_lt (ground arith) in
      rw (mod-add-mod, e) (ap (λ t. t % s) (omega arith) ∙ wraps (n - count + i))
  | inr big ↦
      let c : count ≡ s = ground arith in
      rw mod-add-mod (
        ap (λ t. t % s) (omega arith)
        ∙ mod-add-mod n s i
        ∙ ap (λ t. t % s) (omega arith)
        ∙ wraps (n - count + i))
]
  where
    wraps : (t : ℕ) → (t + s) % s ≡ t % s
    wraps t = mod-eq-sub-mod (omega arith) ∙ ap (λ u. u % s) (omega arith)

module _ (d : TraceEvent) where
  -- The state after the events of a history, the first of which was recorded first.
  pub record Holds (history : List TraceEvent) (s : TraceState) : Type 0 where
    pub ring_nonempty : 0 < s.ring_size
    pub ring_small : s.ring_size ≤ 64
    pub storage : s.ring_size ≤ length s.ring
    pub hits : s.hit_count ≡ length history
    pub kept : s.ring_count ≡ min (length history) s.ring_size
    pub next : s.ring_next ≡ length history % s.ring_size
    pub seen : 0 < length history → s.has_event ≡ true
    pub slots :
        (k : ℕ)
        → k < length history
        → length history ≤ k + s.ring_count
        → get_or s.ring (k % s.ring_size) d ≡ numbered (get_or history k d) (k + 1)

  module _ (history : List TraceEvent) (s : TraceState) (e : TraceEvent) (h : Holds history s)
      (room : length history + 1 < 2 ^ 64) where
    next_hits : add_u64 s.hit_count 1 ≡ length history + 1
    next_hits = omega (arith, h.hits)

    longer : length (history ++ (e ∷ [])) ≡ length history + 1
    longer = length-append history (e ∷ [])

    next_count : (record_event s e).ring_count ≡ min (length history + 1) s.ring_size
    unfolding record_event
    next_count = ground (arith, h.kept, h.ring_nonempty)

    next_place : (record_event s e).ring_next ≡ (length history + 1) % s.ring_size
    unfolding record_event
    next_place = ground (arith, h.next, h.ring_nonempty, mod-add-mod (length history) s.ring_size 1)

    ring_after :
        (record_event s e).ring
        ≡ set s.ring (length history % s.ring_size) (numbered e (length history + 1))
    unfolding record_event
    ring_after = ground (arith, h.next, h.ring_nonempty, next_hits)

    slots_after :
        (k : ℕ)
        → k < length history + 1
        → length history + 1 ≤ k + (record_event s e).ring_count
        → get_or (record_event s e).ring (k % s.ring_size) d
          ≡ numbered (get_or (history ++ (e ∷ [])) k d) (k + 1)
    slots_after k lt near = elim (Bool-cases (ltb k (length history))) [
      | inl older ↦
          rw
            (
              ring_after,
              get_or-set_ne s.ring (length history % s.ring_size) (k % s.ring_size)
                  (numbered e (length history + 1)) d
                  (λ eq.
                    place-ne k (length history) s.ring_size (ground arith)
                      (omega (arith, next_count)) (sym eq)),
              get_or-append_left history (e ∷ []) k d (ground arith),
            )
            (h.slots k (ground arith) (omega (arith, next_count, h.kept)))
      | inr latest ↦
          let eq : k ≡ length history = ground arith in
          rw (
            eq,
            ring_after,
            get_or-set_self s.ring (length history % s.ring_size) (numbered e (length history + 1))
                d (omega (arith, mod-lt (length history) h.ring_nonempty, h.storage)),
            get_or-append_right history (e ∷ []) (length history) 0 d (omega arith),
          )
    ]

    size_after : (record_event s e).ring_size ≡ s.ring_size
    unfolding record_event
    size_after = refl

    hits_after : (record_event s e).hit_count ≡ length history + 1
    unfolding record_event
    hits_after = next_hits

    pub record_event-Holds : Holds (history ++ (e ∷ [])) (record_event s e)
    record_event-Holds = record {
      ring_nonempty = rw size_after h.ring_nonempty;
      ring_small = rw size_after h.ring_small;
      storage = rw (size_after, ring_after, length-set) h.storage;
      hits = rw longer hits_after;
      kept = rw (longer, size_after) next_count;
      next = rw (longer, size_after) next_place;
      seen = λ _. unfold record_event in refl;
      slots = λ k lt near.
          rw size_after (slots_after k (omega (arith, longer)) (omega (arith, longer)));
    }

  record_all-Holds :
      (history es : List TraceEvent) (s : TraceState)
      → Holds history s
      → length history + length es < 2 ^ 64
      → Holds (history ++ es) (record_all s es)
  unfolding record_all
  record_all-Holds history [] s h room = rw append-nil h
  record_all-Holds history (e ∷ es) s h room =
      let step : Holds ((history ++ (e ∷ [])) ++ es) (record_all (record_event s e) es) =
        record_all-Holds (history ++ (e ∷ [])) es (record_event s e)
          (record_event-Holds history s e h (omega arith))
          (omega (arith, length-append history (e ∷ []))) in
      rw append_assoc at step

  -- Reading in a state that holds a history.
  get_event-Holds :
      (history : List TraceEvent) (s : TraceState) (i : ℕ)
      → Holds history s
      → i < s.ring_count
      → get_event s i
        ≡ some (
            numbered
              (get_or history (length history - s.ring_count + i) d)
              (length history - s.ring_count + i + 1))
  unfolding get_event ring_oldest_index
  get_event-Holds history s i h lt =
      let k : ℕ = length history - s.ring_count + i in
      let place =
        stored_place (length history) s.ring_size s.ring_count i h.ring_nonempty h.kept lt in
      let inside : k % s.ring_size < s.ring_size = mod-lt k h.ring_nonempty in
      ground (
        arith,
        h.seen (omega (arith, h.kept)),
        h.next,
        h.kept,
        h.ring_small,
        h.storage,
        place,
        inside,
        get_elem?-eq-get_or s.ring (k % s.ring_size) d (omega (arith, h.storage)),
        h.slots k (omega (arith, h.kept)) (omega (arith, h.kept)),
      )

  get_event-past :
      (history : List TraceEvent) (s : TraceState) (i : ℕ)
      → Holds history s
      → s.ring_count ≤ i
      → get_event s i ≡ none
  unfolding get_event ring_oldest_index
  get_event-past history s i h le = ground (arith, h.ring_nonempty)

-- A ring tracer as it starts: nothing recorded, and room for 64 events in the array.
pub record IsArmed (s : TraceState) : Type 0 where
  pub ring_nonempty : 0 < s.ring_size
  pub ring_small : s.ring_size ≤ 64
  pub storage : length s.ring ≡ 64
  pub no_hits : s.hit_count ≡ 0
  pub no_events : s.ring_count ≡ 0
  pub at_start : s.ring_next ≡ 0

IsArmed-Holds : (d : TraceEvent) (s : TraceState) → IsArmed s → Holds d [] s
IsArmed-Holds d s a = record {
  ring_nonempty = a.ring_nonempty;
  ring_small = a.ring_small;
  storage = omega (arith, a.ring_small, a.storage);
  hits = a.no_hits;
  kept = omega (arith, a.no_events);
  next = omega (arith, a.at_start, mod-eq_of_lt a.ring_nonempty);
  seen = λ lt. absurd (omega arith);
  slots = λ k lt near. absurd (omega arith);
}

record_all-size :
    (s : TraceState) (es : List TraceEvent) → (record_all s es).ring_size ≡ s.ring_size
unfolding record_all record_event
record_all-size s [] = refl
record_all-size s (e ∷ es) = record_all-size (record_event s e) es

-- After any run of fewer than 2^64 recorded events, a tracer that started with a ring reads back the
-- last of them, as many as the ring is large or as there were, oldest first, each with the number
-- of its hit; it reads nothing past those, and the overwritten count is the number of the others.
pub record_all-window :
    (d : TraceEvent) (s : TraceState) (es : List TraceEvent)
    → IsArmed s
    → length es < 2 ^ 64
    → let t = record_all s es in
      let kept = min (length es) s.ring_size in
      ((i : ℕ)
        → i < kept
        → get_event t i
          ≡ some (numbered (get_or es (length es - kept + i) d) (length es - kept + i + 1)))
      × ((i : ℕ) → kept ≤ i → get_event t i ≡ none)
      × (overwritten_count t.hit_count t.ring_count ≡ length es - kept)
unfolding overwritten_count
record_all-window d s es a room =
    let h = record_all-Holds d [] es s (IsArmed-Holds d s a) (omega arith) in
    let kept : (record_all s es).ring_count ≡ min (length es) s.ring_size =
      rw (record_all-size s es) at h.kept in
    (
      λ i lt.
          subst
            (λ c.
              get_event (record_all s es) i
              ≡ some (numbered (get_or es (length es - c + i) d) (length es - c + i + 1)))
            kept (get_event-Holds d es (record_all s es) i h (omega (arith, kept))),
      λ i le. get_event-past d es (record_all s es) i h (omega (arith, kept)),
      rw (kept, h.hits) (ground arith),
    )
