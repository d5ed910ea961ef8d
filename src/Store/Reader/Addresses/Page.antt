-- ===== src/Store/Reader/Addresses/Page.antt =====
-- A page of a list, built by one element after the other as in `searchStoreReadAddresses`.
use sys_agent.Prelude.{
  ℕ, zero, suc, ◌≤◌, ◌≡◌, refl, sym, ap, ◌∙◌, arith, true, false, ◌&&◌, List, [], ◌∷◌, ◌++◌, length,
  take, drop, ltb, leb, if◌then◌else◌, Bool-cases, inl, inr,
}
use sys_agent.Store.Reader.Addresses.{copy}

-- The elements from an offset on, at most a number of them.
abbrev pub page : ℕ → ℕ → List ℕ → List ℕ
page offset count xs = take count (drop offset xs)

take_nil : (count : ℕ) (a : ℕ) → take (suc count) (a ∷ []) ≡ a ∷ []
take_nil zero a = refl
take_nil (suc count) a = refl

leb-suc : (a b : ℕ) → leb (suc a) (suc b) ≡ leb a b
leb-suc a b = ground arith

take_onto :
    (count : ℕ) (xs : List ℕ) (a : ℕ)
    → take count (xs ++ a ∷ [])
      ≡ (if ltb (length (take count xs)) count then take count xs ++ a ∷ [] else take count xs)
take_onto zero xs a = refl
take_onto (suc count) [] a =
    let room : ltb 0 (suc count) ≡ true = ground arith in rw room (take_nil count a)
take_onto (suc count) (x ∷ xs) a = elim (Bool-cases (ltb (length (take count xs)) count)) [
  | inl e ↦ ap (◌∷◌ x) (take_onto count xs a) ∙ ground arith
  | inr e ↦ ap (◌∷◌ x) (take_onto count xs a) ∙ ground arith
]

page_nil : (offset count a : ℕ) → page (suc offset) count (a ∷ []) ≡ page (suc offset) count []
page_nil zero count a = refl
page_nil (suc offset) count a = refl

-- One element more.
page_onto :
    (offset count : ℕ) (xs : List ℕ) (a : ℕ)
    → page offset count (xs ++ a ∷ []) ≡ (
        if leb offset (length xs) && ltb (length (page offset count xs)) count
        then page offset count xs ++ a ∷ []
        else page offset count xs)
page_onto zero count xs a =
    let all_of : leb 0 (length xs) ≡ true = ground arith in rw all_of (take_onto count xs a)
page_onto (suc offset) count [] a =
    let not_yet : leb (suc offset) 0 ≡ false = ground arith in rw not_yet (page_nil offset count a)
page_onto (suc offset) count (x ∷ xs) a =
    rw (leb-suc offset (length xs)) (page_onto offset count xs a)

-- A page with an element more than its list is the one that `copy` makes.
pub copy-page :
    (offset count : ℕ) (xs : List ℕ) (n a : ℕ)
    → n ≡ length xs
    → copy offset count n a (page offset count xs) ≡ page offset count (xs ++ a ∷ [])
unfolding copy
copy-page offset count xs n a e = rw e (sym (page_onto offset count xs a))

take_full :
    (count : ℕ) (xs ys : List ℕ)
    → count ≤ length (take count xs)
    → take count (xs ++ ys) ≡ take count xs
take_full zero xs ys h = refl
take_full (suc count) [] ys h = absurd (omega (arith, h))
take_full (suc count) (x ∷ xs) ys h = ap (◌∷◌ x) (take_full count xs ys (omega (arith, h)))

-- A full page stays as it is.
pub page_full :
    (offset count : ℕ) (xs ys : List ℕ)
    → count ≤ length (page offset count xs)
    → page offset count (xs ++ ys) ≡ page offset count xs
page_full zero count xs ys h = take_full count xs ys h
page_full (suc offset) zero [] ys h = refl
page_full (suc offset) (suc count) [] ys h = absurd (omega (arith, h))
page_full (suc offset) count (x ∷ xs) ys h = page_full offset count xs ys h

-- In front of the offset a page is empty.
pub page_below : (offset count : ℕ) (xs : List ℕ) → length xs ≤ offset → page offset count xs ≡ []
page_below zero zero [] h = refl
page_below zero (suc count) [] h = refl
page_below (suc offset) zero [] h = refl
page_below (suc offset) (suc count) [] h = refl
page_below zero count (x ∷ xs) h = absurd (omega (arith, h))
page_below (suc offset) count (x ∷ xs) h = page_below offset count xs (omega (arith, h))
