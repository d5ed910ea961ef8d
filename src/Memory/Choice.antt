-- ===== src/Memory/Choice.antt =====
-- The backend that is chosen.
use sys_agent.Prelude.{◌≡◌, ◌≢◌, ◌⊎◌, inl, inr, refl, arith, List, [], ◌∷◌, ◌==◌, Bool-cases}
use sys_agent.Memory.{
  SelectPolicy, automatic, only_dmnt, only_direct, Backend, no_backend, dmnt_backend, Openers,
  select_backend,
}

-- The result is 0 exactly if a backend was selected, and the backend selected is the one tried last.
pub select_backend-selected :
    (policy : SelectPolicy) (o : Openers)
    → let (rc, selected, tried) = select_backend policy o in
      ((rc ≡ 0) × ((rest : List Backend) × (tried ≡ selected ∷ rest)))
      ⊎ ((rc ≢ 0) × (selected ≡ no_backend))
unfolding select_backend
select_backend-selected only_direct o = elim (Bool-cases (o.open_direct == 0)) [
  | inl e ↦ inl (ground (arith, e), ([], rw e refl))
  | inr e ↦ inr (ground (arith, e), rw e refl)
]
select_backend-selected only_dmnt o = elim (Bool-cases (o.open_dmnt == 0)) [
  | inl e ↦ rw e (inl (refl, ([], refl)))
  | inr e ↦ rw e (inr (ground (arith, e), refl))
]
select_backend-selected automatic o = elim (Bool-cases (o.open_dmnt == 0)) [
  | inl e ↦ rw e (inl (refl, ([], refl)))
  | inr e ↦ elim (Bool-cases o.acquired) [
    | inl a ↦ rw (e, a) (inr (ground (arith, e), refl))
    | inr a ↦ elim (Bool-cases (o.open_direct == 0)) [
      | inl d ↦ rw (e, a) (inl (ground (arith, d), (dmnt_backend ∷ [], rw d refl)))
      | inr d ↦ rw (e, a) (inr (ground (arith, d), rw d refl))
    ]
  ]
]
