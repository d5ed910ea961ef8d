-- ===== src/Jpeg/Header/Safety.antt =====
-- The frame, the scan's header and the loop over the markers keep the decoder in order, and end.
use sys_agent.Prelude.{
  ℕ, zero, suc, ◌+◌, ◌*◌, ◌/◌, ◌%◌, ◌≤◌, ◌<◌, ◌≡◌, refl, ◌∙◌, arith, not, ◌&&◌, ◌||◌, Option, none,
  some, List, [], ◌∷◌, Bytes, All, length, length-set, set, ltb, ◌==◌, Bool-cases, inl, inr,
}
use sys_agent.Jpeg.{
  ok, refused, ◌>>=◌, refuse_if, element, count_up, Ends, Ends->>=, Ends-refuse_if, Ends-element,
  Ends-count_up,
}
use sys_agent.Jpeg.Tables.{Decoder, Component, read_u8, read_u16}
use sys_agent.Jpeg.Header.{
  parse_component, size_component, parse_frame, find_component, parse_selector, parse_scan,
}
use sys_agent.Jpeg.Header.Bounds.{IsDecoder, Advanced, Kept, read_u8-Advanced, read_u16-Advanced}

-- A component as it stands.
abbrev Any : Component → Type 0
Any c = Unit {0}

All-Any : (cs : List Component) → All Any cs
All-Any [] = tt
All-Any (c ∷ cs) = (tt, All-Any cs)

module _ (bytes : Bytes) where
  find_component-lt :
      (cs : List Component) (id n i j : ℕ)
      → find_component bytes cs id n i ≡ some j
      → j < i + length cs
  unfolding find_component
  find_component-lt cs id zero i j e = cc
  find_component-lt [] id (suc n) i j e = cc
  find_component-lt (c ∷ rest) id (suc n) i j e = elim (Bool-cases (c.id == id)) [
    | inl here ↦ ground (arith, here)
    | inr there ↦ omega (arith, find_component-lt rest id n (i + 1) j (ground (arith, there)))
  ]

  with_component :
      (d : Decoder) (i : ℕ) (c : Component)
      → IsDecoder bytes d
      → IsDecoder bytes (record d { components = set d.components i c })
  with_component d i c g = record {
    inside = g.inside;
    quant_tables = g.quant_tables;
    steps = g.steps;
    huffman_tables = g.huffman_tables;
    symbols = g.symbols;
    component_array = length-set d.components i c ∙ g.component_array;
    few_components = g.few_components;
  }

  -- A component of the array.
  pub component-Ends :
      (d : Decoder) (i : ℕ) → IsDecoder bytes d → i < 4 → Ends Any (element d.components i)
  component-Ends d i g lt =
      Ends-element Any d.components i (All-Any d.components) (omega (arith, g.component_array))

  parse_component-Kept :
      (at i : ℕ) (d : Decoder)
      → i < 4
      → Kept bytes at d
      → Ends (Kept bytes at) (parse_component bytes i d)
  unfolding parse_component
  parse_component-Kept at i d lt h =
      Ends->>= (Advanced bytes d) (Kept bytes at) (read_u8 bytes d) _ (read_u8-Advanced bytes d h.1)
        (λ r a.
          Ends->>= (Advanced bytes r.1) (Kept bytes at) (read_u8 bytes r.1) _
            (read_u8-Advanced bytes r.1 a.1)
            (λ s b.
              Ends->>= (Advanced bytes s.1) (Kept bytes at) (read_u8 bytes s.1) _
                (read_u8-Advanced bytes s.1 b.1)
                (λ q c.
                  Ends->>= Any (Kept bytes at) (element q.1.components i) _
                    (component-Ends q.1 i c.1 lt)
                    (λ old u.
                      Ends-refuse_if (Kept bytes at)
                        (s.0 / 16 == 0 || ltb 4 (s.0 / 16) || s.0 % 16 == 0 || ltb 4 (s.0 % 16)) _
                        (λ e. (
                          omega (arith, h.0, a.0, b.0, c.0),
                          record {
                            inside = c.1.inside;
                            quant_tables = c.1.quant_tables;
                            steps = c.1.steps;
                            huffman_tables = c.1.huffman_tables;
                            symbols = c.1.symbols;
                            component_array = length-set q.1.components i _ ∙ c.1.component_array;
                            few_components = c.1.few_components;
                          },
                        ))))))

  size_component-Kept :
      (at i : ℕ) (d : Decoder)
      → i < 4
      → Kept bytes at d
      → Ends (Kept bytes at) (size_component bytes i d)
  unfolding size_component
  size_component-Kept at i d lt h =
      Ends->>= Any (Kept bytes at) (element d.components i) _ (component-Ends d i h.1 lt)
        (λ c u. (h.0, with_component d i _ h.1))

  parse_selector-Kept :
      (at i : ℕ) (d : Decoder) → Kept bytes at d → Ends (Kept bytes at) (parse_selector bytes i d)
  unfolding parse_selector
  parse_selector-Kept at i d h =
      Ends->>= (Advanced bytes d) (Kept bytes at) (read_u8 bytes d) _ (read_u8-Advanced bytes d h.1)
        (λ r a.
          Ends->>= (Advanced bytes r.1) (Kept bytes at) (read_u8 bytes r.1) _
            (read_u8-Advanced bytes r.1 a.1)
            (λ s b.
              go s.1 r.0 s.0 (omega (arith, h.0, a.0, b.0), b.1)
                (find_component bytes s.1.components r.0 s.1.component_count 0) refl))
    where
      go :
          (t : Decoder) (id tables : ℕ)
          → Kept bytes at t
          → (found : Option ℕ) → find_component bytes t.components id t.component_count 0 ≡ found
          → Ends (Kept bytes at) (elim found [
            | none ↦ refused
            | some j ↦ element t.components j >>= λ c. ok (record t {
              components =
                  set t.components j (record c { dc_table = tables / 16; ac_table = tables % 16 });
            })
          ])
      go t id tables k none e = tt
      go t id tables k (some j) e =
          let lt = find_component-lt t.components id t.component_count 0 j e in
          Ends->>= Any (Kept bytes at) (element t.components j) _
            (component-Ends t j k.1 (omega (arith, lt, k.1.component_array)))
            (λ c u. (k.0, with_component t j _ k.1))

  pub parse_scan-Kept :
      (at size : ℕ) (d : Decoder) → Kept bytes at d → Ends (Kept bytes at) (parse_scan bytes size d)
  unfolding parse_scan
  parse_scan-Kept at size d h =
      Ends->>= (Advanced bytes d) (Kept bytes at) (read_u8 bytes d) _ (read_u8-Advanced bytes d h.1)
        (λ r a. Ends-refuse_if (Kept bytes at) (r.0 == 0 || ltb r.1.component_count r.0) _ (λ e.
          Ends-refuse_if (Kept bytes at) (not (size == 6 + 2 * r.0)) _ (λ f.
            Ends->>= (Kept bytes at) (Kept bytes at) (count_up r.0 0 (parse_selector bytes) r.1) _
              (Ends-count_up (Kept bytes at) r.0 r.0 0 (parse_selector bytes) r.1
                (λ j t lt k. parse_selector-Kept at j t k) (omega arith)
                (omega (arith, h.0, a.0), a.1))
              (λ d2 k.
                Ends->>= (Advanced bytes d2) (Kept bytes at) (read_u8 bytes d2) _
                  (read_u8-Advanced bytes d2 k.1)
                  (λ s b.
                    Ends->>= (Advanced bytes s.1) (Kept bytes at) (read_u8 bytes s.1) _
                      (read_u8-Advanced bytes s.1 b.1)
                      (λ l c.
                        Ends->>= (Advanced bytes l.1) (Kept bytes at) (read_u8 bytes l.1) _
                          (read_u8-Advanced bytes l.1 c.1)
                          (λ p g.
                            Ends-refuse_if (Kept bytes at) (not (s.0 == 0 && l.0 == 63 && p.0 == 0))
                              _ (λ i. (omega (arith, k.0, b.0, c.0, g.0), g.1)))))))))

  pub parse_frame-Kept :
      (at size marker : ℕ) (d : Decoder)
      → Kept bytes at d
      → Ends (Kept bytes at) (parse_frame bytes size marker d)
  unfolding parse_frame
  parse_frame-Kept at size marker d h =
      Ends-refuse_if (Kept bytes at) (not (marker == 0xC0)) _ (λ base.
        Ends->>= (Advanced bytes d) (Kept bytes at) (read_u8 bytes d) _
          (read_u8-Advanced bytes d h.1)
          (λ r a. Ends-refuse_if (Kept bytes at) (not (r.0 == 8)) _ (λ eight.
            Ends->>= (Advanced bytes r.1) (Kept bytes at) (read_u16 bytes r.1) _
              (read_u16-Advanced bytes r.1 a.1)
              (λ y b.
                Ends->>= (Advanced bytes y.1) (Kept bytes at) (read_u16 bytes y.1) _
                  (read_u16-Advanced bytes y.1 b.1)
                  (λ x c.
                    Ends->>= (Advanced bytes x.1) (Kept bytes at) (read_u8 bytes x.1) _
                      (read_u8-Advanced bytes x.1 c.1)
                      (λ n g. Ends-refuse_if (Kept bytes at) (n.0 == 0 || ltb 4 n.0) _ (λ few.
                        Ends-refuse_if (Kept bytes at) (not (size == 8 + 3 * n.0)) _ (λ sized.
                          components n.1 x.0 y.0 n.0 (omega (arith, h.0, a.0, b.0, c.0, g.0), g.1)
                            (ground (arith, few))))))))))
    where
      framed : Decoder → ℕ → ℕ → ℕ → Decoder
      framed t width height count = record t {
        width = width;
        height = height;
        component_count = count;
        max_h_factor = 1;
        max_v_factor = 1;
      }

      framed-Kept :
          (t : Decoder) (width height count : ℕ)
          → Kept bytes at t
          → count ≤ 4
          → Kept bytes at (framed t width height count)
      framed-Kept t width height count k few = (
        k.0,
        record {
          inside = k.1.inside;
          quant_tables = k.1.quant_tables;
          steps = k.1.steps;
          huffman_tables = k.1.huffman_tables;
          symbols = k.1.symbols;
          component_array = k.1.component_array;
          few_components = few;
        },
      )

      components :
          (t : Decoder) (width height count : ℕ)
          → Kept bytes at t
          → count ≤ 4
          → Ends (Kept bytes at) (
              count_up count 0 (parse_component bytes) (framed t width height count)
              >>= count_up count 0 (size_component bytes)
              >>= λ d5. refuse_if (d5.width == 0 || d5.height == 0) (ok d5))
      components t width height count k few =
          Ends->>= (Kept bytes at) (Kept bytes at)
            (count_up count 0 (parse_component bytes) (framed t width height count)
              >>= count_up count 0 (size_component bytes))
            _
            (Ends->>= (Kept bytes at) (Kept bytes at)
              (count_up count 0 (parse_component bytes) (framed t width height count)) _
              (Ends-count_up (Kept bytes at) count count 0 (parse_component bytes) _
                (λ j u lt p. parse_component-Kept at j u (omega arith) p) (omega arith)
                (framed-Kept t width height count k few))
              (λ u p.
                Ends-count_up (Kept bytes at) count count 0 (size_component bytes) u
                  (λ j v lt q. size_component-Kept at j v (omega arith) q) (omega arith) p))
            (λ u p. Ends-refuse_if (Kept bytes at) (u.width == 0 || u.height == 0) (ok u) (λ e. p))
