-- ===== src/Search/Run/Results.antt =====
-- What a session keeps of its matches.
use sys_agent.Prelude.{
  ℕ, zero, suc, ◌+◌, ◌-◌, ◌≤◌, ◌<◌, ◌≡◌, refl, arith, ◌||◌, List, [], ◌∷◌, ◌++◌, length,
  length-append, take, ltb, Bool-cases, inl, inr, append_assoc, append-nil,
}
use sys_agent.Search.Run.{Found, record_match, record_matches}

take-nil : (n : ℕ) → take {A = ℕ} n [] ≡ []
take-nil zero = refl
take-nil (suc n) = refl

take-cons : (n m x : ℕ) (xs : List ℕ) → n ≡ suc m → take n (x ∷ xs) ≡ x ∷ take m xs
take-cons n m x xs e = rw e

-- After any matches the total has grown by their number, the results are those kept before and as many
-- of the matches, in order, as fit below the limit, and the session is marked as truncated
-- exactly if it was before or some match did not fit.
pub record_matches_lem :
    (max_results : ℕ) (f : Found) (xs : List ℕ)
    → length f.results ≤ max_results
    → let g = record_matches max_results f xs in
      (g.total ≡ f.total + length xs)
      × (g.results ≡ f.results ++ take (max_results - length f.results) xs)
      × (g.truncated ≡ (f.truncated || ltb (max_results - length f.results) (length xs)))
unfolding record_matches record_match
record_matches_lem max_results f [] h = (omega arith, rw (take-nil, append-nil), ground arith)
record_matches_lem max_results f (x ∷ xs) h =
    elim (Bool-cases (ltb (length f.results) max_results)) [
      | inl room ↦
          let fits : length f.results < max_results = ground arith in
          ground (
            arith,
            length-append f.results (x ∷ []),
            append_assoc f.results (x ∷ []) (take (max_results - length f.results - 1) xs),
            take-cons (max_results - length f.results) (max_results - length f.results - 1) x xs
                (omega arith),
            record_matches_lem max_results (record_match max_results f x) xs
                (ground (arith, length-append f.results (x ∷ []))),
          )
      | inr full ↦
          let none_left : max_results - length f.results ≡ 0 = ground arith in
          ground (
            arith,
            none_left,
            record_matches_lem max_results (record_match max_results f x) xs (ground arith),
          )
    ]
