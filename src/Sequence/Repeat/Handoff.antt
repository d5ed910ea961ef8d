-- ===== src/Sequence/Repeat/Handoff.antt =====
-- What `sequenceExpand` hands to the walk over `sequenceTokenNext`.
use sys_agent.Prelude.{
  ℕ, suc, ◌+◌, ◌≤◌, ◌<◌, ◌≡◌, ◌≢◌, refl, sym, ap, ◌∙◌, Bool, true, false, some, List, [], ◌∷◌, ◌++◌,
  Bytes, length, All, ltb, ◌==◌, if◌then◌else◌, arith, Bool-cases, inl, inr, length-append,
  All-append, append_assoc, ne→==, ◌⊎◌,
}
use sys_agent.Prelude.Word.{add_u64}
use sys_agent.Sequence.Token.{token_walk}
use sys_agent.Sequence.Token.Laws.{join, IsToken, HasNoComma, token_walk-join}
use sys_agent.Sequence.Repeat.{
  ExpandState, Outcome, continue, failed, out_of_fuel, token_cost_ms, emit_token, repeat_max_tokens,
  expand_ok,
}
use sys_agent.Sequence.Repeat.Expand.{expand_items, sequence_expand, answer, initial, Expansion}
use sys_agent.Sequence.Repeat.Reads.{IsPlain, IsInner}
use sys_agent.Sequence.Repeat.Invariant.{Ends, expand_items-Ends}

HasNoComma-inner : (t : Bytes) → All IsInner t → HasNoComma t
HasNoComma-inner [] h = tt
HasNoComma-inner (c ∷ cs) h = (ground arith, HasNoComma-inner cs h.1)

IsToken-plain : (t : Bytes) → IsPlain t → IsToken t
IsToken-plain [] h = absurd h
IsToken-plain (c ∷ cs) h = (ground arith, HasNoComma-inner (c ∷ cs) h.1)

-- Plain tokens are returned whole by the tokenizer.
pub tokens_of_plain : (ts : List Bytes) → All IsPlain ts → All IsToken ts
tokens_of_plain [] h = tt
tokens_of_plain (t ∷ ts) h = (IsToken-plain t h.0, tokens_of_plain ts h.1)

-- One more token goes behind a comma, or alone into an empty text.
join-concat :
    (ts : List Bytes) (t : Bytes)
    → join (ts ++ (t ∷ [])) ≡ (if length ts == 0 then join ts ++ t else join ts ++ (b',' ∷ t))
join-concat [] t = refl
join-concat (u ∷ []) t = refl
join-concat (u ∷ v ∷ ts) t =
    ground (arith, join-concat (v ∷ ts) t, append_assoc u (b',' ∷ join (v ∷ ts)) (b',' ∷ t))

-- The estimate that tokens add up to, and whether a stick's second value is still to come.
unfoldable pub charge : ℕ → List Bytes → ℕ → Bool → ℕ × Bool
charge click [] ms stick = (ms, stick)
charge click (t ∷ ts) ms stick =
    let (cost, stick') = token_cost_ms click stick t in charge click ts (add_u64 ms cost) stick'

charge-concat :
    (click : ℕ) (ts : List Bytes) (t : Bytes) (ms : ℕ) (stick : Bool)
    → charge click (ts ++ (t ∷ [])) ms stick
      ≡ (let (ms', stick') = charge click ts ms stick in charge click (t ∷ []) ms' stick')
unfolding charge
charge-concat click [] t ms stick = refl
charge-concat click (u ∷ ts) t ms stick =
    let (cost, stick') = token_cost_ms click stick u in
    charge-concat click ts t (add_u64 ms cost) stick'

charge_step :
    (click : ℕ) (ts : List Bytes) (t : Bytes) (ms : ℕ) (stick : Bool)
    → (ms, stick) ≡ charge click ts 0 false
    → (let (cost, stick') = token_cost_ms click stick t in (add_u64 ms cost, stick'))
      ≡ charge click (ts ++ (t ∷ [])) 0 false
unfolding charge
charge_step click ts t ms stick h =
    ap (λ (p : ℕ × Bool). charge click (t ∷ []) p.0 p.1) h ∙ sym (charge-concat click ts t 0 false)

module _ (out_size click_cost_ms : ℕ) where
  -- The output is the tokens emitted so far, and the counters are about them.
  record Emitted (s : ExpandState) : Type 0 where
    tokens : List Bytes
    plain : All IsPlain tokens
    joined : s.out ≡ join tokens
    counted : s.tokens ≡ length tokens
    few : s.tokens ≤ repeat_max_tokens
    fits : length s.out < out_size
    charged : (s.estimated_ms, s.stick_value_next) ≡ charge click_cost_ms tokens 0 false

  emit_token-Emitted :
      (end begin : ℕ) (t : Bytes) (s : ExpandState)
      → begin < end
      → IsPlain t
      → Emitted s
      → Ends end Emitted (emit_token out_size click_cost_ms begin t s)
  unfolding emit_token
  emit_token-Emitted end begin t s lt plain e =
      elim (Bool-cases (ltb repeat_max_tokens (s.tokens + 1))) [
        | inl many ↦ rw (many, Ends) (λ x. cc, lt, e)
        | inr few ↦
            elim (Bool-cases
              (ltb out_size (length s.out + (length t + (if s.tokens == 0 then 0 else 1) + 1)))) [
                | inl long ↦ rw (few, long, Ends) (λ x. cc, lt, e)
                | inr fits ↦
                    rw (few, fits, Ends)
                      (record {
                        tokens = e.tokens ++ (t ∷ []);
                        plain = All-append IsPlain e.tokens (t ∷ []) e.plain (plain, tt);
                        joined = rw (join-concat, ← e.joined, ← e.counted);
                        counted = omega (arith, length-append e.tokens (t ∷ []), e.counted);
                        few = ground arith;
                        fits =
                            ground (arith, length-append s.out t, length-append s.out (b',' ∷ t));
                        charged =
                            charge_step click_cost_ms e.tokens t s.estimated_ms s.stick_value_next
                              e.charged;
                      })
              ]
      ]

  walk-Emitted :
      (text : Bytes)
      → 0 < out_size
      → Ends
          (length text)
          Emitted
          (expand_items out_size click_cost_ms (suc (length text)) 0 0 text initial)
  walk-Emitted text size =
      expand_items-Ends out_size click_cost_ms (length text) Emitted
        (emit_token-Emitted (length text)) (suc (length text)) 0 0 text initial (omega arith)
        (omega arith)
        (record {
          tokens = [];
          plain = tt;
          joined = refl;
          counted = refl;
          few = omega arith;
          fits = size;
          charged = unfold charge in refl;
        })

-- What a successful expansion is.
pub record HandsOver (out_size click_cost_ms : ℕ) (e : Expansion) : Type 0 where
  -- the tokens that `clickSequence` will walk over
  pub walked : List Bytes
  pub by_the_walk : token_walk (suc e.token_count) (some e.out) ≡ walked
  pub all_plain : All IsPlain walked
  pub joined : e.out ≡ join walked
  pub counted : e.token_count ≡ length walked
  pub few : e.token_count ≤ repeat_max_tokens
  pub fits : length e.out < out_size
  pub estimated : e.estimated_ms ≡ (charge click_cost_ms walked 0 false).0

HandsOver-Emitted :
    (out_size click_cost_ms : ℕ) (s : ExpandState)
    → Emitted out_size click_cost_ms s
    → HandsOver out_size click_cost_ms (record {
      result = expand_ok;
      out = s.out;
      error_index = 0;
      token_count = s.tokens;
      estimated_ms = s.estimated_ms;
    })
HandsOver-Emitted out_size click_cost_ms s h = record {
  walked = h.tokens;
  by_the_walk = rw h.joined (
      token_walk-join h.tokens (suc s.tokens) (tokens_of_plain h.tokens h.plain)
        (omega (arith, h.counted)));
  all_plain = h.plain;
  joined = h.joined;
  counted = h.counted;
  few = h.few;
  fits = h.fits;
  estimated = ap (λ (p : ℕ × Bool). p.0) h.charged;
}

-- What an answer of `sequenceExpand` on a text of the length given means: a success hands its
-- tokens over; a failure leaves nothing in the buffer, and points at a byte of the text.
abbrev pub Answers : ℕ → ℕ → ℕ → Expansion → Type 0
Answers size click_cost_ms len e =
    ((e.result ≡ expand_ok) × HandsOver size click_cost_ms e)
    ⊎ ((e.result ≢ expand_ok)
        × (e.out ≡ [])
        × (e.error_index < len)
        × (e.token_count ≤ repeat_max_tokens))

answer-Answers :
    (out_size click_cost_ms len : ℕ) (m : Outcome)
    → Ends len (Emitted out_size click_cost_ms) m
    → (e : Expansion) × (answer m ≡ some e) × Answers out_size click_cost_ms len e
unfolding answer
answer-Answers out_size click_cost_ms len (continue s) h =
    (_, refl, inl (refl, HandsOver-Emitted out_size click_cost_ms s h))
answer-Answers out_size click_cost_ms len (failed r i s) h =
    (_, refl, inr (h.0, refl, h.1, h.2.few))
answer-Answers out_size click_cost_ms len out_of_fuel h = absurd h

-- `sequenceExpand` on a text and a buffer of at least one byte ends. Either it succeeds, and then
-- the loop over `sequenceTokenNext` on its output yields exactly `tokenCount` tokens, at most 1024,
-- none of them empty or with a comma, a star, a `)`, a control byte or a `(` in front, which joined by
-- single commas make up the output, which with its terminator fits the buffer, and whose costs add
-- up to the estimate. Or it fails: then the output is empty, the error points at a byte of the
-- text, and at most 1024 tokens are reported.
pub sequence_expand-Answers :
    (text : Bytes) (out_size click_cost_ms : ℕ)
    → 0 < out_size
    → (e : Expansion) × (sequence_expand (some text) true out_size click_cost_ms ≡ some e)
      × Answers out_size click_cost_ms (length text) e
unfolding sequence_expand
sequence_expand-Answers text out_size click_cost_ms size = rw (ne→== out_size 0 (omega arith)) (
    answer-Answers out_size click_cost_ms (length text) _
      (walk-Emitted out_size click_cost_ms text size))
