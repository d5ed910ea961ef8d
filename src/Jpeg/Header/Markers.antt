-- ===== src/Jpeg/Header/Markers.antt =====
-- The loop over the markers keeps the decoder in order, and ends within its fuel.
use sys_agent.Prelude.{
  ℕ, zero, suc, ◌+◌, ◌-◌, ◌≤◌, ◌<◌, ◌≡◌, refl, arith, Bool, true, not, Option, none, some, Bytes,
  All-replicate, length, length-replicate, replicate, ltb, leb, ◌==◌, if◌then◌else◌, Bool-cases,
  inl, inr,
}
use sys_agent.Jpeg.{Answer, ok, refused, ◌>>=◌, refuse_if, element, Ends, Ends->>=, Ends-refuse_if}
use sys_agent.Jpeg.Tables.{Decoder, no_huffman, new_decoder, read_u16, next_marker}
use sys_agent.Jpeg.Header.{parse_scan, is_frame, parse_segment, start_scan, read_header}
use sys_agent.Jpeg.Header.Bounds.{
  HasStep, HasSymbols, IsDecoder, Advanced, Kept, byte-Ends, read_u16-Advanced,
  parse_quant_table-Parsed, parse_huffman_table-Parsed, parse_tables-Kept,
}
use sys_agent.Jpeg.Header.Safety.{parse_scan-Kept, parse_frame-Kept}

module _ (bytes : Bytes) where
  moved :
      (d : Decoder) (at : ℕ)
      → IsDecoder bytes d
      → at ≤ length bytes
      → IsDecoder bytes (record d { at = at })
  moved d at g le = record {
    inside = le;
    quant_tables = g.quant_tables;
    steps = g.steps;
    huffman_tables = g.huffman_tables;
    symbols = g.symbols;
    component_array = g.component_array;
    few_components = g.few_components;
  }

  -- What the search for a marker gives, from a position on: a marker lies two bytes in front of the new position.
  abbrev Marked : ℕ → Option ℕ × Decoder → Type 0
  Marked at r = ((m : ℕ) → r.0 ≡ some m → at + 2 ≤ r.1.at) × IsDecoder bytes r.1

  next_marker-Marked :
      (fuel at : ℕ) (d : Decoder)
      → length bytes < fuel + d.at
      → Kept bytes at d
      → Ends (Marked at) (next_marker bytes fuel d)
  unfolding next_marker
  next_marker-Marked zero at d enough h = absurd (omega (arith, h.1.inside))
  next_marker-Marked (suc fuel) at d enough h =
      let again : (n : ℕ)
          → 1 ≤ n
          → d.at + n ≤ length bytes
          → Ends (Marked at) (next_marker bytes fuel (record d { at = d.at + n })) =
        λ n some_step le.
          next_marker-Marked fuel at (record d { at = d.at + n }) (omega (arith, enough))
            (omega (arith, h.0), moved d (d.at + n) h.1 le) in
      elim (Bool-cases (leb (length bytes) (d.at + 1))) [
        | inl past ↦ rw past ((λ m e. cc), h.1)
        | inr within ↦ rw within (
            Ends->>= (λ b. Unit {0}) (Marked at) (element bytes d.at) _
              (byte-Ends bytes d.at (ground arith))
              (λ first u.
                Ends->>= (λ b. Unit {0}) (Marked at) (element bytes (d.at + 1)) _
                  (byte-Ends bytes (d.at + 1) (ground arith))
                  (λ marker v. step first marker again (ground arith))))
      ]
    where
      step :
          (first marker : ℕ)
          → ((n : ℕ)
              → 1 ≤ n
              → d.at + n ≤ length bytes
              → Ends (Marked at) (next_marker bytes fuel (record d { at = d.at + n })))
          → d.at + 2 ≤ length bytes
          → Ends (Marked at) (
              if not (first == 0xFF)
              then next_marker bytes fuel (record d { at = d.at + 1 })
              else if marker == 0xFF
              then next_marker bytes fuel (record d { at = d.at + 1 })
              else if marker == 0
              then next_marker bytes fuel (record d { at = d.at + 2 })
              else ok (some marker, record d { at = d.at + 2 }))
      step first marker again le =
          let one = again 1 (omega arith) (omega arith) in
          let two = again 2 (omega arith) le in
          elim (Bool-cases (not (first == 0xFF))) [
            | inl e ↦ rw e one
            | inr e ↦ rw e (elim (Bool-cases (marker == 0xFF)) [
              | inl f ↦ rw f one
              | inr f ↦ rw f (elim (Bool-cases (marker == 0)) [
                | inl g ↦ rw g two
                | inr g ↦ rw g ((λ m e. omega (arith, h.0)), moved d (d.at + 2) h.1 le)
              ])
            ])
          ]

  -- The decoder behind a segment.
  abbrev Behind : ℕ → Bool × Decoder → Type 0
  Behind at r = Kept bytes at r.1

  parse_segment-Behind :
      (at fuel marker size : ℕ) (saw_frame : Bool) (d : Decoder)
      → length bytes < fuel
      → d.at + (size - 2) ≤ length bytes
      → Kept bytes at d
      → Ends (Behind at) (parse_segment bytes fuel marker size saw_frame d)
  unfolding parse_segment
  parse_segment-Behind at fuel marker size saw_frame d enough room h =
      elim (Bool-cases (is_frame bytes marker)) [
        | inl e ↦ rw e (kept true _ (parse_frame-Kept bytes at size marker d h))
        | inr e ↦ rw e (elim (Bool-cases (marker == 0xC4)) [
          | inl f ↦ rw f (
              kept saw_frame _ (
                parse_tables-Kept bytes _ fuel (d.at + (size - 2)) at d
                  (parse_huffman_table-Parsed bytes) (omega arith) h))
          | inr f ↦ rw f (elim (Bool-cases (marker == 0xDB)) [
            | inl g ↦ rw g (
                kept saw_frame _ (
                  parse_tables-Kept bytes _ fuel (d.at + (size - 2)) at d
                    (parse_quant_table-Parsed bytes) (omega arith) h))
            | inr g ↦ rw g (elim (Bool-cases (marker == 0xDD)) [
              | inl i ↦ rw i (
                  Ends-refuse_if (Behind at) (not (size - 2 == 2)) _ (λ two.
                    Ends->>= (Advanced bytes d) (Behind at) (read_u16 bytes d) _
                      (read_u16-Advanced bytes d h.1)
                      (λ r a. (omega (arith, h.0, a.0), with_interval r.1 r.0 a.1))))
              | inr i ↦ rw i (omega (arith, h.0), moved d (d.at + (size - 2)) h.1 room)
            ])
          ])
        ])
      ]
    where
      kept :
          (saw : Bool) (r : Answer Decoder)
          → Ends (Kept bytes at) r
          → Ends (Behind at) (r >>= λ d'. ok (saw, d'))
      kept saw r k = Ends->>= (Kept bytes at) (Behind at) r _ k (λ t p. p)

      with_interval :
          (t : Decoder) (interval : ℕ)
          → IsDecoder bytes t
          → IsDecoder bytes (record t { restart_interval = interval })
      with_interval t interval g = record {
        inside = g.inside;
        quant_tables = g.quant_tables;
        steps = g.steps;
        huffman_tables = g.huffman_tables;
        symbols = g.symbols;
        component_array = g.component_array;
        few_components = g.few_components;
      }

  -- The header was read.
  abbrev pub HeaderRead : Decoder × ℕ → Type 0
  HeaderRead r = IsDecoder bytes r.0

  start_scan-HeaderRead :
      (saw_frame : Bool) (d : Decoder)
      → IsDecoder bytes d
      → Ends HeaderRead (start_scan bytes saw_frame d)
  unfolding start_scan
  start_scan-HeaderRead saw_frame d h =
      Ends->>= (Advanced bytes d) HeaderRead (read_u16 bytes d) _ (read_u16-Advanced bytes d h)
        (λ r a. Ends-refuse_if HeaderRead (ltb r.0 2) _ (λ e.
          Ends-refuse_if HeaderRead (not saw_frame) _ (λ f.
            Ends-refuse_if HeaderRead (ltb (length bytes) (r.1.at - 2 + r.0)) _ (λ g.
              Ends->>= (Kept bytes 0) HeaderRead (parse_scan bytes r.0 r.1) _
                (parse_scan-Kept bytes 0 r.0 r.1 (omega arith, a.1)) (λ t k. k.1)))))

  pub read_header-HeaderRead :
      (fuel : ℕ) (saw_frame : Bool) (d : Decoder)
      → length bytes < fuel + d.at
      → IsDecoder bytes d
      → Ends HeaderRead (read_header bytes fuel saw_frame d)
  unfolding read_header
  read_header-HeaderRead zero saw_frame d enough h = absurd (omega (arith, h.inside))
  read_header-HeaderRead (suc fuel) saw_frame d enough h =
      Ends->>= (Marked d.at) HeaderRead (next_marker bytes (length bytes + 1) d) _
        (next_marker-Marked (length bytes + 1) d.at d (omega arith) (omega arith, h))
        (λ r a.
          found r.0 r.1
            (λ s t far g. read_header-HeaderRead fuel s t (omega (arith, far, enough)) g) a)
    where
      Further : Type 0
      Further =
          (s : Bool) (t : Decoder)
          → d.at + 1 ≤ t.at
          → IsDecoder bytes t
          → Ends HeaderRead (read_header bytes fuel s t)

      segment :
          (m : ℕ) (t : Decoder)
          → Further
          → d.at + 2 ≤ t.at
          → IsDecoder bytes t
          → Ends HeaderRead (
              read_u16 bytes t >>= λ (size, d2). refuse_if (ltb size 2) (
                refuse_if (ltb (length bytes) (d2.at + (size - 2))) (
                  parse_segment bytes (length bytes + 1) m size saw_frame d2 >>= λ (saw, d').
                  read_header bytes fuel saw d')))
      segment m t further far g =
          Ends->>= (Advanced bytes t) HeaderRead (read_u16 bytes t) _ (read_u16-Advanced bytes t g)
            (λ r a. Ends-refuse_if HeaderRead (ltb r.0 2) _ (λ e.
              Ends-refuse_if HeaderRead (ltb (length bytes) (r.1.at + (r.0 - 2))) _ (λ f.
                Ends->>= (Behind r.1.at) HeaderRead
                  (parse_segment bytes (length bytes + 1) m r.0 saw_frame r.1) _
                  (parse_segment-Behind r.1.at (length bytes + 1) m r.0 saw_frame r.1 (omega arith)
                    (ground (arith, f)) (omega arith, a.1))
                  (λ s k. further s.0 s.1 (omega (arith, far, a.0, k.0)) k.1))))

      found :
          (m : Option ℕ) (t : Decoder)
          → Further
          → Marked d.at (m, t)
          → Ends HeaderRead (elim m [
            | none ↦ refused
            | some m ↦
                if m == 0xD9
                then refused
                else if m == 0xDA
                then start_scan bytes saw_frame t
                else read_u16 bytes t >>= λ (size, d2). refuse_if (ltb size 2) (
                    refuse_if (ltb (length bytes) (d2.at + (size - 2))) (
                      parse_segment bytes (length bytes + 1) m size saw_frame d2 >>= λ (saw, d').
                      read_header bytes fuel saw d'))
          ])
      found none t further a = tt
      found (some m) t further a = elim (Bool-cases (m == 0xD9)) [
        | inl e ↦ rw e tt
        | inr e ↦ rw e (elim (Bool-cases (m == 0xDA)) [
          | inl f ↦ rw f (start_scan-HeaderRead saw_frame t a.1)
          | inr f ↦ rw f (segment m t further (a.0 m refl) a.1)
        ])
      ]

  pub new_decoder-IsDecoder : 2 ≤ length bytes → IsDecoder bytes new_decoder
  new_decoder-IsDecoder le = record {
    inside = le;
    quant_tables = refl;
    steps = All-replicate HasStep 4 (replicate 64 0) (omega arith);
    huffman_tables = refl;
    symbols = All-replicate HasSymbols 8 no_huffman (length-replicate {A = ℕ} 256 0);
    component_array = refl;
    few_components = omega arith;
  }
