-- ===== src/Store/Reader/Addresses/Bisect.antt =====
-- The binary search of `searchStoreReadAddresses` in the index of a finished file: it ends, at a block in front of which
-- no candidate belongs to the page.
use sys_agent.Prelude.{
  ℕ, zero, suc, ◌+◌, ◌-◌, ◌/◌, ◌^◌, ◌≤◌, ◌<◌, ◌≡◌, refl, sym, ap, ◌∙◌, subst, arith, true, false,
  some, List, [], ◌∷◌, ◌++◌, append_assoc, Bytes, All, length, length-append, take, take_left, ltb,
  leb, if◌then◌else◌, Bool-cases, inl, inr,
}
use native.Mathlib.Nat.{pow-suc}
use sys_agent.Store.File.{Metadata, Block, IndexEntry, header_bytes, read_entry}
use sys_agent.Store.Reader.Addresses.{start_at, entry_is_bad, end_of, entry_offset, find_start}
use sys_agent.Store.Reader.Addresses.Index.{read_entry-finished, entry_is_good, end_of-entry}
use sys_agent.Store.Writer.{entry_of}
use sys_agent.Store.Writer.Chain.{Record, body, total, total-append}
use sys_agent.Store.Writer.Append.{IsRecord}
use sys_agent.Store.Writer.Index.{finished_header, finished}

-- The cumulative counts of some blocks behind n candidates.
abbrev pub AreCounted : ℕ → List Record → Type 0
AreCounted n [] = Unit {0}
AreCounted n ((b, bytes) ∷ rs) =
    (b.cumulative_candidates ≡ n) × AreCounted (n + b.candidate_count) rs

-- A block by its number, with those in front and behind.
pub record Placed (rs : List Record) (k n : ℕ) : Type 0 where
  pub front : List Record
  pub here : Record
  pub more : List Record
  pub whole : rs ≡ front ++ here ∷ more
  pub number : length front ≡ k
  pub counted : here.0.cumulative_candidates ≡ n + total front

pub placed : (rs : List Record) (k n : ℕ) → AreCounted n rs → k < length rs → Placed rs k n
placed [] k n c lt = absurd (omega arith)
placed ((b, bytes) ∷ rs) zero n c lt = record {
  front = [];
  here = (b, bytes);
  more = rs;
  whole = refl;
  number = refl;
  counted = omega (arith, c.0);
}
placed ((b, bytes) ∷ rs) (suc k) n c lt =
    let p = placed rs k (n + b.candidate_count) c.1 (omega (arith, lt)) in
    record {
      front = (b, bytes) ∷ p.front;
      here = p.here;
      more = p.more;
      whole = ap (λ t. (b, bytes) ∷ t) p.whole;
      number = ap suc p.number;
      counted = omega (arith, p.counted);
    }

take_up_to :
    (front more : List Record) (b : Block) (bytes : Bytes)
    → total (take (suc (length front)) (front ++ (b, bytes) ∷ more))
      ≡ total front + b.candidate_count
take_up_to front more b bytes =
    ap (λ t. total (take (suc (length front)) t)) (sym (append_assoc front ((b, bytes) ∷ []) more))
    ∙ ap total (
        take_left (suc (length front)) (front ++ (b, bytes) ∷ []) more
          (omega (arith, length-append front ((b, bytes) ∷ []))))
    ∙ total-append front b bytes

-- The index tells at a number where the block's candidates end.
abbrev IsIndexed : Metadata → List Record → ℕ → Type 0
IsIndexed metadata rs k =
    (e : IndexEntry) × (read_entry (finished metadata rs)
        (entry_offset (finished_header metadata rs) k)
      ≡ some e)
    × (entry_is_bad (finished_header metadata rs) e ≡ false)
    × (end_of e ≡ total (take (suc k) rs))

module _ (metadata : Metadata) (wide : 0 < metadata.width) (narrow : metadata.width ≤ 8) where
  index_behind :
      (front more : List Record) (here : Record)
      → All (IsRecord metadata.width) (front ++ here ∷ more)
      → length (finished metadata (front ++ here ∷ more)) < 2 ^ 63
      → here.0.cumulative_candidates ≡ total front
      → IsIndexed metadata (front ++ here ∷ more) (length front)
  index_behind front more here good bound counted = (
    entry_of (header_bytes + length (body front)) here.0,
    read_entry-finished metadata wide narrow front more here.0 here.1 good bound,
    entry_is_good metadata wide narrow front more here.0 here.1 good bound counted,
    end_of-entry metadata wide narrow front more here.0 here.1 good bound counted
        ∙ sym (take_up_to front more here.0 here.1),
  )

  module _ (rs : List Record) (good : All (IsRecord metadata.width) rs)
      (bound : length (finished metadata rs) < 2 ^ 63) (counted : AreCounted 0 rs) where
    index_at : (k : ℕ) → k < length rs → IsIndexed metadata rs k
    index_at k lt =
        let p = placed rs k 0 counted lt in
        subst (λ t. IsIndexed metadata t k) (sym p.whole)
          (subst (IsIndexed metadata (p.front ++ p.here ∷ p.more)) p.number (
            index_behind p.front p.more p.here (subst (All (IsRecord metadata.width)) p.whole good)
              (subst (λ t. length (finished metadata t) < 2 ^ 63) p.whole bound)
              (omega (arith, p.counted))))

    empty_range :
        (fuel offset low high : ℕ)
        → high ≤ low
        → find_start (suc fuel) (finished metadata rs) (finished_header metadata rs) offset low high
          ≡ start_at low
    unfolding find_start
    empty_range fuel offset low high le =
        let ended : ltb low high ≡ false = ground (arith, le) in rw ended refl

    -- One round, by what the index tells.
    round :
        (fuel offset low high : ℕ) (e : IndexEntry)
        → ltb low high ≡ true
        → read_entry
            (finished metadata rs)
            (entry_offset (finished_header metadata rs) (low + (high - low) / 2))
          ≡ some e
        → entry_is_bad (finished_header metadata rs) e ≡ false
        → find_start (suc fuel) (finished metadata rs) (finished_header metadata rs) offset low high
          ≡ (if leb (end_of e) offset
              then find_start fuel
                  (finished metadata rs)
                  (finished_header metadata rs)
                  offset
                  (low + (high - low) / 2 + 1)
                  high
              else find_start fuel
                  (finished metadata rs)
                  (finished_header metadata rs)
                  offset
                  low
                  (low + (high - low) / 2))
    unfolding find_start
    round fuel offset low high e open_range found fine =
        rw (found, find_start, open_range, fine) refl

    -- The search ends, in front of a block of the page.
    pub find_start-ends :
        (fuel offset low high : ℕ)
        → high - low < 2 ^ fuel
        → low ≤ high
        → high ≤ length rs
        → total (take low rs) ≤ offset
        → (k : ℕ) × (find_start
              (suc fuel)
              (finished metadata rs)
              (finished_header metadata rs)
              offset
              low
              high
            ≡ start_at k)
          × (k ≤ length rs)
          × (total (take k rs) ≤ offset)
    find_start-ends zero offset low high small le fits early =
        (low, empty_range zero offset low high (omega (arith, small)), omega arith, early)
    find_start-ends (suc fuel) offset low high small le fits early =
        elim (Bool-cases (ltb low high)) [
          | inr ended ↦ (
            low,
            empty_range (suc fuel) offset low high (ground (arith, ended)),
            omega arith,
            early,
          )
          | inl more ↦
              let middle = low + (high - low) / 2 in
              let inside : low < high = ground (arith, more) in
              let r = index_at middle (omega (arith, inside)) in
              let step = round (suc fuel) offset low high r.0 more r.1 r.2 in
              elim (Bool-cases (leb (end_of r.0) offset)) [
                | inl after ↦
                    let next : middle + 1 ≡ suc middle = omega arith in
                    let passed : end_of r.0 ≤ offset = ground (arith, after) in
                    let rest =
                      find_start-ends fuel offset (middle + 1) high
                        (omega (arith, small, inside, pow-suc 2 fuel)) (omega (arith, inside)) fits
                        (rw next (omega (arith, r.3, passed))) in
                    (rest.0, rw after at step ∙ rest.1, rest.2, rest.3)
                | inr before ↦
                    let rest =
                      find_start-ends fuel offset low middle
                        (omega (arith, small, inside, pow-suc 2 fuel)) (omega arith)
                        (omega (arith, inside)) early in
                    (rest.0, rw before at step ∙ rest.1, rest.2, rest.3)
              ]
        ]
