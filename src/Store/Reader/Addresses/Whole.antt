-- ===== src/Store/Reader/Addresses/Whole.antt =====
-- `searchStoreReadAddresses` on a file that the writer has finished gives the page of the candidates' addresses.
use sys_agent.Prelude.{
  ℕ, zero, suc, ◌+◌, ◌-◌, ◌^◌, ◌≤◌, ◌<◌, ◌≡◌, refl, sym, ap, ap₂, ◌∙◌, subst, arith, true, false,
  ◌||◌, none, some, List, [], ◌∷◌, ◌++◌, append_assoc, append-nil, Bytes, All, length,
  length-append, take, length-take, length-drop, take-append-drop, drop, leb, ◌==◌, if◌then◌else◌,
  Bool-cases, inl, inr,
}
use sys_agent.Store.File.{Metadata, IndexEntry, header_bytes, header_fields, read_entry}
use sys_agent.Store.Layout.{Fits}
use sys_agent.Store.Reader.RoundTrip.{length-finished, reader_open-finished, finished_store}
use sys_agent.Store.Reader.Addresses.{
  Listing, listed, block_addresses, end_of, entry_offset, entry_addresses, and_then, collect,
  collect_from, read_addresses,
}
use sys_agent.Store.Reader.Addresses.Page.{page, page_full, page_below}
use sys_agent.Store.Reader.Addresses.Index.{
  read_entry-finished, end_of-entry, entry_addresses-finished,
}
use sys_agent.Store.Reader.Addresses.Bisect.{find_start-ends}
use sys_agent.Store.Writer.{
  Writer, new_header, entry_of, seal, writer_open, writer_finish, path_max,
}
use sys_agent.Store.Writer.Chain.{BlockInput, IsInput, Record, body, total, total-append, records}
use sys_agent.Store.Writer.Append.{IsRecord, add_all}
use sys_agent.Store.Writer.Index.{finished_header, finished}
use sys_agent.Store.Reader.Addresses.Described.{
  all_addresses, Described, Described-counted, Described-behind, Described-records,
}

and_then_listed :
    (copied : List ℕ) (next : List ℕ → Listing) → and_then (listed copied) next ≡ next copied
unfolding and_then
and_then_listed copied next = refl

module _ (metadata : Metadata) (wide : 0 < metadata.width) (narrow : metadata.width ≤ 8)
    (offset count : ℕ) where
  module _ (rs : List Record) (good : All (IsRecord metadata.width) rs)
      (bound : length (finished metadata rs) < 2 ^ 63) where
    abbrev content : Bytes
    content = finished metadata rs

    -- The page of some addresses behind others.
    abbrev IsPage : ℕ → ℕ → List ℕ → List ℕ → Type 0
    IsPage n index before found =
        collect content (finished_header metadata rs) offset count n index
          (page offset count before)
        ≡ listed (page offset count (before ++ found))

    collect_full :
        (n index : ℕ) (before found : List ℕ)
        → leb count (length (page offset count before)) ≡ true
        → IsPage n index before found
    unfolding collect
    collect_full zero index before found full =
        ap listed (sym (page_full offset count before found (ground (arith, full))))
    collect_full (suc n) index before found full =
        rw full (ap listed (sym (page_full offset count before found (ground (arith, full)))))

    collect_one :
        (n index : ℕ) (e : IndexEntry) (copied : List ℕ)
        → leb count (length copied) ≡ false
        → read_entry content (entry_offset (finished_header metadata rs) index) ≡ some e
        → collect content (finished_header metadata rs) offset count (suc n) index copied
          ≡ and_then
              (if leb (end_of e) offset
                then listed copied
                else entry_addresses content (finished_header metadata rs) offset count e copied)
              (λ more.
                collect content (finished_header metadata rs) offset count n (index + 1) more)
    unfolding collect
    collect_one n index e copied more found = rw (found, collect, more) refl

    -- What is known of a block's entry.
    entry_known :
        (more front : List Record) (r : Record)
        → rs ≡ front ++ r ∷ more
        → r.0.cumulative_candidates ≡ total front
        → (e : IndexEntry) × (read_entry content
              (entry_offset (finished_header metadata rs) (length front))
            ≡ some e)
          × (end_of e ≡ total front + r.0.candidate_count)
          × ((copied : List ℕ)
              → entry_addresses content (finished_header metadata rs) offset count e copied
                ≡ block_addresses metadata.alignment r.0 offset count r.1 copied)
    entry_known more front r whole counted = (
      entry_of (header_bytes + length (body front)) r.0,
      subst
          (λ t.
            read_entry (finished metadata t)
              (entry_offset (finished_header metadata t) (length front))
            ≡ some (entry_of (header_bytes + length (body front)) r.0))
          (sym whole) (read_entry-finished metadata wide narrow front more r.0 r.1 good' bound'),
      end_of-entry metadata wide narrow front more r.0 r.1 good' bound' counted,
      λ copied.
          subst
            (λ t.
              entry_addresses (finished metadata t) (finished_header metadata t) offset count
                (entry_of (header_bytes + length (body front)) r.0) copied
              ≡ block_addresses metadata.alignment r.0 offset count r.1 copied)
            (sym whole)
            (entry_addresses-finished metadata wide narrow front more r.0 r.1 good' bound' offset
              count copied counted),
    )
      where
        good' : All (IsRecord metadata.width) (front ++ r ∷ more)
        good' = subst (All (IsRecord metadata.width)) whole good

        bound' : length (finished metadata (front ++ r ∷ more)) < 2 ^ 63
        bound' = subst (λ t. length (finished metadata t) < 2 ^ 63) whole bound

    -- From a block on, the page is filled from the blocks that are left.
    collect-IsPage :
        (more front : List Record) (before found : List ℕ)
        → rs ≡ front ++ more
        → length before ≡ total front
        → Described metadata.alignment offset count (total front) more found
        → IsPage (length more) (length front) before found
    unfolding collect
    collect-IsPage [] front before found whole e d =
        ap (λ t. listed (page offset count t))
          (sym (append-nil before) ∙ ap (λ t. before ++ t) (sym d))
    collect-IsPage (r ∷ more) front before found whole e d =
        elim (Bool-cases (leb count (length (page offset count before)))) [
          | inl full ↦ collect_full (suc (length more)) (length front) before found full
          | inr room ↦
              let k = entry_known more front r whole d.4 in
              let here = d.0 in
              let sum : total (front ++ r ∷ []) ≡ total front + r.0.candidate_count =
                total-append front r.0 r.1 in
              let next : length front + 1 ≡ length (front ++ r ∷ []) =
                sym (length-append front (r ∷ [])) in
              let copied : (if leb (end_of k.0) offset
                    then listed (page offset count before)
                    else entry_addresses content (finished_header metadata rs) offset count k.0
                        (page offset count before))
                  ≡ listed (page offset count (before ++ here)) =
                elim (Bool-cases (leb (end_of k.0) offset)) [
                  | inl passed ↦
                      let early : length (before ++ here) ≤ offset =
                        ground (arith, passed, k.2, e, d.3, length-append before here) in
                      rw passed (
                        ap listed (
                          page_below offset count before
                            (omega (arith, early, length-append before here))
                          ∙ sym (page_below offset count (before ++ here) early)))
                  | inr reached ↦ rw reached (k.3 (page offset count before) ∙ d.5 before (sym e))
                ] in
              let rest =
                collect-IsPage more (front ++ r ∷ []) (before ++ here) d.1
                  (whole ∙ sym (append_assoc front (r ∷ []) more))
                  (omega (arith, length-append before here, e, d.3, sum))
                  (subst (λ n. Described metadata.alignment offset count n more d.1) (sym sum)
                    d.6) in
              collect_one (length more) (length front) k.0 (page offset count before) room k.1
              ∙ ap
                  (λ l. and_then l (λ t.
                    collect content (finished_header metadata rs) offset count (length more)
                      (length front + 1) t))
                  copied
              ∙ and_then_listed (page offset count (before ++ here)) _
              ∙ ap
                  (λ i.
                    collect content (finished_header metadata rs) offset count (length more) i
                      (page offset count (before ++ here)))
                  next
              ∙ rest
              ∙ ap (λ t. listed (page offset count t))
                  (append_assoc before here d.1 ∙ ap (λ t. before ++ t) (sym d.2))
        ]

    -- The whole function on a finished file.
    pub read_addresses-finished :
        (found : List ℕ)
        → Fits (header_fields (new_header metadata))
        → Described metadata.alignment offset count 0 rs found
        → read_addresses (some (finished metadata rs)) offset count
          ≡ some (length found, listed (page offset count found))
    unfolding read_addresses collect_from seal
    read_addresses-finished found fits d =
        let opened = reader_open-finished metadata wide narrow rs fits good bound in
        let known = Described-counted metadata.alignment offset count 0 rs found d in
        let few : length rs < 2 ^ 64 =
          omega (arith, length-finished metadata wide narrow rs, bound) in
        elim (Bool-cases (leb (total rs) offset || count == 0)) [
          | inl outside ↦
              rw (opened, read_addresses, outside)
                (ap₂ (λ n t. some (n, listed t)) (sym known.1) (sym (nothing known.1 outside)))
          | inr inside ↦
              let start =
                find_start-ends metadata wide narrow rs good bound known.0 64 offset 0 (length rs)
                  (omega (arith, few)) (omega arith) (omega arith) (omega arith) in
              rw (opened, read_addresses, inside, start.1, known.1)
                (ap (λ l. some (total rs, l)) (from_start start.0 start.2 start.3))
        ]
      where
        nothing :
            length found ≡ total rs
            → (leb (total rs) offset || count == 0) ≡ true
            → page offset count found ≡ []
        nothing e outside = elim (Bool-cases (leb (total rs) offset)) [
          | inl behind ↦ page_below offset count found (ground (arith, behind, e))
          | inr before ↦
              let none_wanted : count ≡ 0 = ground (arith, before, outside) in rw none_wanted refl
        ]

        from_start :
            (k : ℕ)
            → k ≤ length rs
            → total (take k rs) ≤ offset
            → collect content (finished_header metadata rs) offset count (length rs - k) k []
              ≡ listed (page offset count found)
        from_start k fits early =
            let whole : rs ≡ take k rs ++ drop k rs = sym (take-append-drop k rs) in
            let split =
              Described-behind metadata.alignment offset count (take k rs) (drop k rs) 0 found
                (subst (λ t. Described metadata.alignment offset count 0 t found) whole d) in
            let zero_on : 0 + total (take k rs) ≡ total (take k rs) = omega arith in
            let left : length rs - k ≡ length (drop k rs) = sym (length-drop k rs) in
            let at : k ≡ length (take k rs) = omega (arith, fits, length-take k rs) in
            let empty : [] ≡ page offset count split.0 =
              sym (page_below offset count split.0 (omega (arith, split.3, early))) in
            let r = collect-IsPage (drop k rs) (take k rs) split.0 split.1 whole split.3 (
              subst (λ n. Described metadata.alignment offset count n (drop k rs) split.1) zero_on
                split.4) in
            ap₂ (λ n i. collect content (finished_header metadata rs) offset count n i []) left at
            ∙ ap
                (collect content (finished_header metadata rs) offset count (length (drop k rs))
                  (length (take k rs)))
                empty
            ∙ r
            ∙ ap (λ t. listed (page offset count t)) (sym split.2)

-- The inputs are written to a new file, and a page of the candidates' addresses is read from it.
abbrev pub IsPaged : Bytes → Metadata → List BlockInput → ℕ → ℕ → Type 0
IsPaged path metadata inputs offset count =
    (w w' w'' : Writer) × (writer_open true none path metadata ≡ some (true, w))
    × (add_all w inputs ≡ (true, w'))
    × (writer_finish (λ i. none) none true w' ≡ (true, w''))
    × (read_addresses (some w''.content) offset count
        ≡ some (
          length (all_addresses metadata.alignment inputs),
          listed (page offset count (all_addresses metadata.alignment inputs)),
        ))

-- A path shorter than 256 bytes, values of 1 to 8 bytes, metadata that fit their fields, and fewer than 2^40 blocks of
-- at most 256 KiB of values each: where nothing fails, the file is finished, and reading a page from it ends, without a
-- read behind a payload, with the number of all candidates and with the addresses of the candidates from the offset on,
-- in order, as many as are asked for or are left. The address of a candidate is its block's base and as many alignments as
-- the number of its slot, in 64 bits.
pub read_addresses-page :
    (path : Bytes) (metadata : Metadata) (inputs : List BlockInput) (offset count : ℕ)
    → length path < path_max
    → 0 < metadata.width
    → metadata.width ≤ 8
    → Fits (header_fields (new_header metadata))
    → All (IsInput metadata.width) inputs
    → length inputs < 2 ^ 40
    → IsPaged path metadata inputs offset count
read_addresses-page path metadata inputs offset count short wide narrow fits ok few =
    let s = finished_store path metadata inputs short wide narrow fits ok few in
    (
      s.0,
      s.1,
      s.2,
      s.3,
      s.4,
      s.5,
      ap (λ c. read_addresses (some c) offset count) s.6
          ∙ read_addresses-finished metadata wide narrow offset count (records metadata 0 inputs)
              s.7 s.8 (all_addresses metadata.alignment inputs) fits
              (Described-records metadata wide narrow offset count inputs 0 ok),
    )
