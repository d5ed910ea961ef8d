-- ===== src/Trace/Address.antt =====
-- sys-agent/source/debug_trace_model.c: `debugTraceComputeSnapshotAddress`.
use sys_agent.Prelude.{
  ℕ, zero, suc, ◌+◌, ◌-◌, ◌%◌, ◌^◌, ◌≤◌, ◌<◌, ◌≡◌, ◌↔◌, true, not, Option, none, some, List, get_or,
  get_elem?, [], ◌∷◌, ◌⊎◌, inl, inr, ltb, ◌==◌, if◌then◌else◌, arith,
}
use sys_agent.Prelude.Word.{u64_max, u64_mod}
use sys_agent.Prelude.Int.{ℤ, pos, negsuc}
use sys_agent.Trace.Spec.{SnapshotSpec, base_gpr, base_sp, base_pc, base_lr, snapshot_spec_is_valid}

-- The registers of a stopped thread.
pub record Registers : Type 0 where
  pub gprs : List ℕ
  pub sp : ℕ
  pub pc : ℕ
  pub lr : ℕ

-- The `switch` over the base.
unfoldable pub base_value : SnapshotSpec → Registers → Option ℕ
base_value spec r =
    if spec.base == base_gpr
    then some (get_or r.gprs spec.register_index 0)
    else if spec.base == base_sp
    then some r.sp
    else if spec.base == base_pc
    then some r.pc
    else if spec.base == base_lr
    then some r.lr
    else none

-- The sum of a base and an offset in 64 bits, refused where it would wrap. The magnitude of a negative
-- offset is `-(offset + 1) + 1`.
unfoldable pub offset_address : ℕ → ℤ → Option ℕ
offset_address base (pos offset) =
    if ltb (u64_max - offset) base then none else some ((base + offset) % u64_mod)
offset_address base (negsuc n) =
    let magnitude = n + 1 in if ltb base magnitude then none else some (base - magnitude)

-- `debugTraceComputeSnapshotAddress`
unfoldable pub compute_snapshot_address : SnapshotSpec → Registers → Option ℕ
unfolding base_value
compute_snapshot_address spec r =
    if not (snapshot_spec_is_valid spec)
    then none
    else elim (base_value spec r) [ none ↦ none | some base ↦ offset_address base spec.offset ]

-- An address is a base plus an offset, as integers.
abbrev pub IsSum : ℕ → ℤ → ℕ → Type 0
IsSum base (pos n) a = a ≡ base + n
IsSum base (negsuc n) a = a + n + 1 ≡ base

-- The range of `int64_t`.
abbrev pub IsInt64 : ℤ → Type 0
IsInt64 (pos n) = n < 2 ^ 63
IsInt64 (negsuc n) = n < 2 ^ 63

offset_address_iff :
    (base a : ℕ) (o : ℤ)
    → base ≤ u64_max
    → IsInt64 o
    → (offset_address base o ≡ some a) ↔ (IsSum base o a × (a ≤ u64_max))
unfolding offset_address
offset_address_iff base a (pos n) h k = (λ e. ground arith, λ p. ground arith)
offset_address_iff base a (negsuc n) h k = (λ e. ground arith, λ p. ground arith)

-- The register that a specification names: a general one by its index, or the stack pointer, the program counter or the
-- link register.
abbrev pub IsNamed : SnapshotSpec → Registers → ℕ → Type 0
IsNamed spec r value =
    ((spec.base ≡ base_gpr) × (get_elem? r.gprs spec.register_index ≡ some value))
    ⊎ ((spec.base ≡ base_sp) × (r.sp ≡ value))
    ⊎ ((spec.base ≡ base_pc) × (r.pc ≡ value))
    ⊎ ((spec.base ≡ base_lr) × (r.lr ≡ value))

get_or-get_elem? : (xs : List ℕ) (i value : ℕ) → get_elem? xs i ≡ some value → get_or xs i 0 ≡ value
get_or-get_elem? [] i value h = cc
get_or-get_elem? (x ∷ xs) zero value h = ground arith
get_or-get_elem? (x ∷ xs) (suc i) value h = get_or-get_elem? xs i value h

base_value-IsNamed :
    (spec : SnapshotSpec) (r : Registers) (value : ℕ)
    → IsNamed spec r value
    → base_value spec r ≡ some value
unfolding base_value
base_value-IsNamed spec r value (inl (e, h)) =
    let same = get_or-get_elem? r.gprs spec.register_index value h in ground (arith, same)
base_value-IsNamed spec r value (inr (inl (e, h))) = ground arith
base_value-IsNamed spec r value (inr (inr (inl (e, h)))) = ground arith
base_value-IsNamed spec r value (inr (inr (inr (e, h)))) = ground arith

-- For a valid specification and 64-bit registers, an address is computed exactly if the register that the
-- specification names plus its offset, as integers, is a 64-bit number, and then it is that number. The register is a
-- general one by its index, or the stack pointer, the program counter or the link register, by the base of the specification.
pub compute_snapshot_address_iff :
    (spec : SnapshotSpec) (r : Registers) (base a : ℕ)
    → snapshot_spec_is_valid spec ≡ true
    → IsNamed spec r base
    → base ≤ u64_max
    → IsInt64 spec.offset
    → (compute_snapshot_address spec r ≡ some a) ↔ (IsSum base spec.offset a × (a ≤ u64_max))
unfolding compute_snapshot_address
compute_snapshot_address_iff spec r base a valid named small k =
    let at = base_value-IsNamed spec r base named in
    (
      λ e. (offset_address_iff base a spec.offset small k).0 (ground (arith, at)),
      λ p. ground (arith, at, (offset_address_iff base a spec.offset small k).1 p),
    )
