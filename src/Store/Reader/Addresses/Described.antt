-- ===== src/Store/Reader/Addresses/Described.antt =====
-- The blocks of a file of the search store, described by the addresses of their candidates.
use sys_agent.Prelude.{
  ℕ, ◌+◌, ◌≤◌, ◌<◌, ◌≡◌, refl, sym, ap, ◌∙◌, subst, arith, List, [], ◌∷◌, ◌++◌, append_assoc, All,
  length, length-append, ◌==◌, ==_iff, Bool-cases, inl, inr,
}
use native.Mathlib.Nat.{add-zero, add_assoc}
use sys_agent.Store.File.{Metadata}
use sys_agent.Store.Reader.Addresses.{listed, block_addresses}
use sys_agent.Store.Reader.Addresses.Page.{page}
use sys_agent.Store.Reader.Addresses.Blocks.{input_addresses, length-input_addresses}
use sys_agent.Store.Reader.Addresses.Records.{block_addresses-record}
use sys_agent.Store.Reader.Addresses.Bisect.{AreCounted}
use sys_agent.Store.Writer.{block_of}
use sys_agent.Store.Writer.Chain.{
  BlockInput, IsInput, input_count, Record, total, record_of, records,
}

-- The addresses of the candidates of all inputs.
abbrev pub all_addresses : ℕ → List BlockInput → List ℕ
all_addresses alignment [] = []
all_addresses alignment (i ∷ inputs) = input_addresses alignment i ++ all_addresses alignment inputs

nil_of_length : (xs : List ℕ) → length xs ≡ 0 → xs ≡ []
nil_of_length [] e = refl
nil_of_length (x ∷ xs) e = absurd (omega (arith, e))

module _ (alignment offset count : ℕ) where
  -- The addresses of some blocks behind n candidates, block by block.
  abbrev pub Described : ℕ → List Record → List ℕ → Type 0
  Described n [] found = found ≡ []
  Described n (r ∷ rs) found =
      (here more : List ℕ) × (found ≡ here ++ more)
      × (length here ≡ r.0.candidate_count)
      × (r.0.cumulative_candidates ≡ n)
      × ((before : List ℕ)
          → n ≡ length before
          → block_addresses alignment r.0 offset count r.1 (page offset count before)
            ≡ listed (page offset count (before ++ here)))
      × Described (n + r.0.candidate_count) rs more

  pub Described-counted :
      (n : ℕ) (rs : List Record) (found : List ℕ)
      → Described n rs found
      → AreCounted n rs × (length found ≡ total rs)
  Described-counted n [] found d = (tt, ap length d)
  Described-counted n ((b, bytes) ∷ rs) found d =
      let rest = Described-counted (n + b.candidate_count) rs d.1 d.6 in
      ((d.4, rest.0), omega (arith, ap length d.2, length-append d.0 d.1, d.3, rest.1))

  -- The description of what stands behind some blocks.
  pub Described-behind :
      (front more : List Record) (n : ℕ) (found : List ℕ)
      → Described n (front ++ more) found
      → (before behind : List ℕ) × (found ≡ before ++ behind)
        × (length before ≡ total front)
        × Described (n + total front) more behind
  Described-behind [] more n found d = ([], found, refl, refl, rw (add-zero n) d)
  Described-behind (r ∷ front) more n found d =
      let rest = Described-behind front more (n + r.0.candidate_count) d.1 d.6 in
      (
        d.0 ++ rest.0,
        rest.1,
        d.2 ∙ ap (λ t. d.0 ++ t) rest.2 ∙ sym (append_assoc d.0 rest.0 rest.1),
        omega (arith, length-append d.0 rest.0, d.3, rest.3),
        subst (λ k. Described k more rest.1) (add_assoc n r.0.candidate_count (total front)) rest.4,
      )

module _ (metadata : Metadata) (wide : 0 < metadata.width) (narrow : metadata.width ≤ 8)
    (offset count : ℕ) where
  -- The inputs' blocks are described by the inputs' addresses.
  pub Described-records :
      (inputs : List BlockInput) (n : ℕ)
      → All (IsInput metadata.width) inputs
      → Described metadata.alignment offset count n
          (records metadata n inputs)
          (all_addresses metadata.alignment inputs)
  unfolding records record_of block_of
  Described-records [] n ok = refl
  Described-records (i ∷ inputs) n ok =
      let rest = Described-records inputs (n + input_count i) ok.1 in
      elim (Bool-cases (input_count i == 0)) [
        | inl none_set ↦
            let nothing = nil_of_length (input_addresses metadata.alignment i) (
              length-input_addresses metadata.alignment i
              ∙ (==_iff (input_count i) 0).0 none_set) in
            let same : n + input_count i ≡ n = ground arith in
            rw (none_set, nothing, same) (rw same at rest)
        | inr some_set ↦ rw some_set (
          input_addresses metadata.alignment i,
          all_addresses metadata.alignment inputs,
          refl,
          length-input_addresses metadata.alignment i,
          refl,
          λ before e.
              block_addresses-record metadata metadata.alignment offset count wide narrow i before n
                e ok.0,
          rest,
        )
      ]
