-- ===== src/Trace/Config/Sound.antt =====
-- A configuration that is accepted has distinct targets, and each of them is found again.
use sys_agent.Prelude.{
  ℕ, zero, suc, ◌+◌, ◌≤◌, ◌<◌, ◌≡◌, ◌≢◌, ◌⊎◌, ◌%◌, refl, ◌∙◌, arith, true, false, List, [], ◌∷◌,
  length, get_or, ltb, ◌==◌, Bool-cases, inl, inr,
}
use sys_agent.Prelude.Word.{u32_max}
use sys_agent.Trace.Spec.{address_is_valid}
use sys_agent.Trace.Config.{
  TraceConfig, trace_ring_max, trace_args_max, trace_target_max, trace_snapshot_max, has_prior,
  targets_are_valid, config_is_valid, find_from, find_target,
}

-- An address with no equal among the first `i` differs from each of them.
has_prior-ne :
    (xs : List ℕ) (a i j : ℕ) → has_prior xs a i ≡ false → j < i → j < length xs → get_or xs j 0 ≢ a
unfolding has_prior
has_prior-ne [] a i j h lt len = absurd (omega arith)
has_prior-ne (x ∷ xs) a zero j h lt len = absurd (omega arith)
has_prior-ne (x ∷ xs) a (suc i) zero h lt len = ground arith
has_prior-ne (x ∷ xs) a (suc i) (suc j) h lt len =
    has_prior-ne xs a i j (ground arith) (omega arith) (omega arith)

-- What the outer loop checks of the address at index `i + j`.
targets-at :
    (all : List ℕ) (i : ℕ) (rest : List ℕ) (n j : ℕ)
    → targets_are_valid all i rest n ≡ true
    → j < n
    → j < length rest
    → (address_is_valid (get_or rest j 0) ≡ true)
      × (has_prior all (get_or rest j 0) (i + j) ≡ false)
unfolding targets_are_valid
targets-at all i rest zero j h lt len = absurd (omega arith)
targets-at all i [] (suc n) j h lt len = absurd (omega arith)
targets-at all i (a ∷ rest) (suc n) zero h lt len =
    let e : i + 0 ≡ i = omega arith in rw e (ground arith, ground arith)
targets-at all i (a ∷ rest) (suc n) (suc j) h lt len =
    let e : i + suc j ≡ i + 1 + j = omega arith in
    rw e (targets-at all (i + 1) rest n j (ground arith) (omega arith) (omega arith))

find_from-found :
    (i : ℕ) (rest : List ℕ) (n j : ℕ)
    → j < n
    → j < length rest
    → ((k : ℕ) → k < j → get_or rest k 0 ≢ get_or rest j 0)
    → find_from i rest n (get_or rest j 0) ≡ i + j
unfolding find_from
find_from-found i rest zero j lt len first = absurd (omega arith)
find_from-found i [] (suc n) j lt len first = absurd (omega arith)
find_from-found i (a ∷ rest) (suc n) zero lt len first = ground arith
find_from-found i (a ∷ rest) (suc n) (suc j) lt len first = ground (
  arith,
  first 0,
  find_from-found (i + 1) rest n j (omega arith) (omega arith) (λ k p. first (suc k) (omega arith)),
)

find_from_bounds :
    (i : ℕ) (rest : List ℕ) (n address : ℕ)
    → n ≤ length rest
    → (find_from i rest n address ≡ u32_max)
      ⊎ ((j : ℕ) × (find_from i rest n address ≡ i + j) × (j < n) × (get_or rest j 0 ≡ address))
unfolding find_from
find_from_bounds i rest zero address h = inl refl
find_from_bounds i [] (suc n) address h = inl refl
find_from_bounds i (a ∷ rest) (suc n) address h = elim (Bool-cases (a == address)) [
  | inl e ↦ inr (0, rw e (omega arith), omega arith, ground arith)
  | inr e ↦ elim (find_from_bounds (i + 1) rest n address (omega arith)) [
    | inl none_left ↦ inl (rw e none_left)
    | inr (j, at, lt, eq) ↦ inr (suc j, rw (e, at) (omega arith), omega arith, eq)
  ]
]

-- What an accepted configuration is.
pub record IsTraceable (config : TraceConfig) : Type 0 where
  pub some_target : 0 < config.target_count
  pub few_targets : config.target_count ≤ trace_target_max
  pub aligned :
      (i : ℕ)
      → i < config.target_count
      → (get_or config.addresses i 0 ≢ 0) × (get_or config.addresses i 0 % 4 ≡ 0)
  pub distinct :
      (i j : ℕ)
      → i < j
      → j < config.target_count
      → get_or config.addresses i 0 ≢ get_or config.addresses j 0
  pub bounded : (0 < config.max_hits) ⊎ (0 < config.ring_size)
  pub ring_fits : config.ring_size ≤ trace_ring_max
  pub args_fit : config.args_count ≤ trace_args_max
  pub snapshots_fit : config.snapshot_count ≤ trace_snapshot_max

config_targets :
    (config : TraceConfig)
    → config_is_valid config ≡ true
    → targets_are_valid config.addresses 0 config.addresses config.target_count ≡ true
unfolding config_is_valid
config_targets config h = ground arith

address_valid_parts : (a : ℕ) → address_is_valid a ≡ true → (a ≢ 0) × (a % 4 ≡ 0)
unfolding address_is_valid
address_valid_parts a h = ground arith

config_counts :
    (config : TraceConfig)
    → config_is_valid config ≡ true
    → (0 < config.target_count)
      × (config.target_count ≤ trace_target_max)
      × ((0 < config.max_hits) ⊎ (0 < config.ring_size))
      × (config.ring_size ≤ trace_ring_max)
      × (config.args_count ≤ trace_args_max)
      × (config.snapshot_count ≤ trace_snapshot_max)
unfolding config_is_valid
config_counts config h = ground arith

-- An accepted configuration whose address array has its four entries has between one and four targets, which
-- are pairwise distinct, not 0 and multiples of 4, stops by hits or keeps a ring, and stays within the
-- sizes of the ring, the arguments and the snapshots.
pub config_is_valid-IsTraceable :
    (config : TraceConfig)
    → length config.addresses ≡ trace_target_max
    → config_is_valid config ≡ true
    → IsTraceable config
config_is_valid-IsTraceable config len h = record {
  some_target = (config_counts config h).0;
  few_targets = (config_counts config h).1;
  aligned = λ i lt.
      address_valid_parts _
        (targets-at config.addresses 0 config.addresses config.target_count i
          (config_targets config h) lt (omega (arith, config_counts config h))).0;
  distinct = λ i j lt ltn.
      has_prior-ne config.addresses (get_or config.addresses j 0) (0 + j) i
        (targets-at config.addresses 0 config.addresses config.target_count j
          (config_targets config h) ltn (omega (arith, config_counts config h))).1
        (omega arith) (omega (arith, config_counts config h));
  bounded = (config_counts config h).2;
  ring_fits = (config_counts config h).3;
  args_fit = (config_counts config h).4;
  snapshots_fit = (config_counts config h).5;
}

-- In an accepted configuration `debugTraceFindTarget` finds each target at its own index, and whatever it
-- answers for an address is the index of a target with that address, or `UINT32_MAX`.
pub find_target-config :
    (config : TraceConfig)
    → length config.addresses ≡ trace_target_max
    → config_is_valid config ≡ true
    → ((i : ℕ)
        → i < config.target_count
        → find_target config.addresses config.target_count (get_or config.addresses i 0) ≡ i)
      × ((address : ℕ)
          → (find_target config.addresses config.target_count address ≡ u32_max)
            ⊎ ((j : ℕ) × (find_target config.addresses config.target_count address ≡ j)
                × (j < config.target_count)
                × (get_or config.addresses j 0 ≡ address)))
unfolding find_target
find_target-config config len h =
    let t = config_is_valid-IsTraceable config len h in
    let few = t.few_targets in
    let small : ltb trace_target_max config.target_count ≡ false = ground arith in
    (
      λ i lt. rw small (
          find_from-found 0 config.addresses config.target_count i lt (omega arith)
            (λ k p. t.distinct k i p lt)
          ∙ omega arith),
      λ address.
          elim (find_from_bounds 0 config.addresses config.target_count address (omega arith)) [
            | inl e ↦ inl (rw small e)
            | inr (j, e, lt, eq) ↦ inr (j, rw small (e ∙ omega arith), lt, eq)
          ],
    )
