-- ===== src/Trace/Spec/RoundTrip.antt =====
-- A snapshot specification that is written out is parsed back.
use sys_agent.Prelude.{
  ℕ, zero, suc, ◌^◌, ◌≤◌, ◌<◌, ◌≡◌, ◌≢◌, refl, Bool, true, false, ◌&&◌, ◌||◌, Option, none, some,
  [], ◌∷◌, ◌++◌, Bytes, All, All-append, ◌==◌, if◌then◌else◌, arith, Bool-cases, Option-cases, inl,
  inr, all_below, all_below_sound, append-nil,
}
use sys_agent.Prelude.Int.{ℤ, pos, negsuc}
use sys_agent.Prelude.Decimal.{decimal}
use sys_agent.Libc.{digit_value, is_empty}
use sys_agent.Libc.Digits.{IsDigit}
use sys_agent.Libc.Decimal.{decimal-IsDecimalOf, IsDecimalOf}
use sys_agent.Trace.Spec.{
  SnapshotSpec, base_gpr, base_sp, base_pc, base_lr, snapshot_bytes_max, parse_unsigned,
  parse_unsigned_range, parse_register_name, split_colon, split_sign, signed_offset, parse_offset,
  parse_base_offset, parse_snapshot_spec, snapshot_spec_is_valid,
}
use sys_agent.Trace.Spec.Unsigned.{parse_unsigned-decimal}

-- The name of a base: `sp`, `pc`, `lr`, or `x` and the register's number.
abbrev pub register_name : ℕ → ℕ → Bytes
register_name base index =
    if base == base_sp
    then b's' ∷ b'p' ∷ []
    else if base == base_pc
    then b'p' ∷ b'c' ∷ []
    else if base == base_lr
    then b'l' ∷ b'r' ∷ []
    else b'x' ∷ decimal index

-- An offset with its sign; nothing for 0.
abbrev pub offset_text : ℤ → Bytes
offset_text (pos zero) = []
offset_text (pos (suc n)) = b'+' ∷ decimal (suc n)
offset_text (negsuc n) = b'-' ∷ decimal (suc n)

-- A specification as a client writes it.
abbrev pub spec_text : SnapshotSpec → Bytes
spec_text spec =
    (register_name spec.base spec.register_index ++ offset_text spec.offset)
    ++ (b':' ∷ decimal spec.size)

-- The specifications that can be written: the offset needs fewer than 64 bits, and only a general
-- register has a number.
abbrev pub OffsetFits : ℤ → Type 0
OffsetFits (pos n) = n < 2 ^ 63
OffsetFits (negsuc n) = suc n < 2 ^ 63

pub record IsWritable (spec : SnapshotSpec) : Type 0 where
  pub valid : snapshot_spec_is_valid spec ≡ true
  pub offset_fits : OffsetFits spec.offset
  pub numbered : spec.base ≢ base_gpr → spec.register_index ≡ 0

-- A decimal number is read whole.
pub parse_unsigned_of : (n : ℕ) → n < 2 ^ 64 → parse_unsigned (decimal n) ≡ some n
parse_unsigned_of n h = go (decimal n) (decimal-IsDecimalOf n h)
  where
    go : (ds : Bytes) → IsDecimalOf n ds → parse_unsigned ds ≡ some n
    go [] d = absurd (omega (arith, d.some_digit))
    go (c ∷ cs) d = ground (arith, parse_unsigned-decimal c cs d.digits, d.value)

parse_unsigned_range_of : (n : ℕ) → n < 2 ^ 64 → parse_unsigned_range (decimal n) ≡ some n
unfolding parse_unsigned_range
parse_unsigned_range_of n h =
    let d = decimal-IsDecimalOf n h in ground (arith, parse_unsigned_of n h, d.short, d.some_digit)

abbrev Apart : ℕ → Type 0
Apart c = (c ≢ b':') × (c ≢ b'+') × (c ≢ b'-')

digit-Apart : (c d : ℕ) → digit_value 10 c ≡ some d → Apart c
unfolding digit_value
digit-Apart c d h = ground arith

digits-Apart : (ds : Bytes) → All (IsDigit 10) ds → All Apart ds
digits-Apart [] h = tt
digits-Apart (c ∷ cs) ((d, e), t) = (digit-Apart c d e, digits-Apart cs t)

decimal-Apart : (n : ℕ) → n < 2 ^ 64 → All Apart (decimal n)
decimal-Apart n h = digits-Apart (decimal n) (decimal-IsDecimalOf n h).digits

-- No colon in front of the one that is written.
abbrev NoColon : ℕ → Type 0
NoColon c = c ≢ b':'

no_colon : (ds : Bytes) → All Apart ds → All NoColon ds
no_colon [] h = tt
no_colon (c ∷ cs) h = (h.0.0, no_colon cs h.1)

split_colon-append :
    (front back : Bytes)
    → All NoColon front
    → split_colon (front ++ (b':' ∷ back)) ≡ some (front, back)
unfolding split_colon
split_colon-append [] back h = refl
split_colon-append (c ∷ cs) back h = ground (arith, split_colon-append cs back h.1)

split_sign-append :
    (name rest : Bytes) (c : ℕ)
    → All Apart name
    → (c == b'+' || c == b'-') ≡ true
    → split_sign (name ++ (c ∷ rest)) ≡ (name, some (c == b'-', rest))
unfolding split_sign
split_sign-append [] rest c h s = ground arith
split_sign-append (n ∷ ns) rest c h s = ground (arith, split_sign-append ns rest c h.1 s)

split_sign-none : (name : Bytes) → All Apart name → split_sign name ≡ (name, none)
unfolding split_sign
split_sign-none [] h = refl
split_sign-none (n ∷ ns) h = ground (arith, split_sign-none ns h.1)

-- What the name of a register gives, for the numbers 0 to 30 by evaluation.
reads_back : ℕ → ℕ → Option (ℕ × ℕ) → Bool
reads_back b i none = false
reads_back b i (some (b', i')) = b' == b && i' == i

register_table :
    all_below 31 (λ i. reads_back base_gpr i (parse_register_name (b'x' ∷ decimal i))) ≡ true
unfolding all_below reads_back parse_register_name parse_unsigned sys_agent.Libc.strtoull_whole
    sys_agent.Libc.strtoull sys_agent.Libc.split_base is_empty decimal
register_table = refl

reads_back-eq : (b i : ℕ) (o : Option (ℕ × ℕ)) → reads_back b i o ≡ true → o ≡ some (b, i)
unfolding reads_back
reads_back-eq b i none h = cc
reads_back-eq b i (some (b', i')) h = ground arith

register_name-reads :
    (base index : ℕ)
    → base ≤ base_lr
    → index ≤ 30
    → (base ≢ base_gpr → index ≡ 0)
    → parse_register_name (register_name base index) ≡ some (base, index)
unfolding parse_register_name
register_name-reads base index hb hi h0 = ground (
  arith,
  h0,
  reads_back-eq base_gpr index (parse_register_name (b'x' ∷ decimal index)),
  all_below_sound 31 (λ i. reads_back base_gpr i (parse_register_name (b'x' ∷ decimal i))) index
      register_table,
)

parse_offset-reads :
    (o : ℤ)
    → OffsetFits o
    → (name : Bytes) → All Apart name
    → (sign : Option (Bool × Bytes)) × (split_sign (name ++ offset_text o) ≡ (name, sign))
      × (parse_offset sign ≡ some o)
unfolding parse_offset signed_offset
parse_offset-reads (pos zero) h name apart =
    (none, rw append-nil (split_sign-none name apart), refl)
parse_offset-reads (pos (suc n)) h name apart = (
  some (false, decimal (suc n)),
  split_sign-append name (decimal (suc n)) b'+' apart refl,
  ground (arith, parse_unsigned_range_of (suc n) (omega arith)),
)
parse_offset-reads (negsuc n) h name apart = (
  some (true, decimal (suc n)),
  split_sign-append name (decimal (suc n)) b'-' apart refl,
  ground (arith, parse_unsigned_range_of (suc n) (omega arith)),
)

offset_text-NoColon : (o : ℤ) → OffsetFits o → All NoColon (offset_text o)
offset_text-NoColon (pos zero) h = tt
offset_text-NoColon (pos (suc n)) h =
    (omega arith, no_colon _ (decimal-Apart (suc n) (omega arith)))
offset_text-NoColon (negsuc n) h = (omega arith, no_colon _ (decimal-Apart (suc n) (omega arith)))

register_name-Apart : (base index : ℕ) → index ≤ 30 → All Apart (register_name base index)
register_name-Apart base index h = elim (Bool-cases (base == base_sp)) [
  | inl e ↦ rw (e, All) (omega arith)
  | inr e ↦ elim (Bool-cases (base == base_pc)) [
    | inl f ↦ rw (e, f, All) (omega arith)
    | inr f ↦ elim (Bool-cases (base == base_lr)) [
      | inl g ↦ rw (e, f, g, All) (omega arith)
      | inr g ↦ rw (e, f, g, All) (omega arith, decimal-Apart index (omega arith))
    ]
  ]
]

front-ne-nil : (base index : ℕ) (r : Bytes) → is_empty (register_name base index ++ r) ≡ false
unfolding is_empty
front-ne-nil base index r = ground arith

valid_parts :
    (spec : SnapshotSpec)
    → snapshot_spec_is_valid spec ≡ true
    → (spec.base ≤ base_lr)
      × (spec.base ≡ base_gpr → spec.register_index ≤ 30)
      × (0 < spec.size)
      × (spec.size ≤ snapshot_bytes_max)
unfolding snapshot_spec_is_valid
valid_parts spec h = (ground arith, λ e. ground arith, ground arith, ground arith)

parse_base_offset-reads :
    (spec : SnapshotSpec)
    → IsWritable spec
    → (spec.register_index ≤ 30)
    → parse_base_offset spec.size
        (register_name spec.base spec.register_index ++ offset_text spec.offset)
      ≡ some spec
unfolding parse_base_offset
parse_base_offset-reads spec w small =
    let v = valid_parts spec w.valid in
    let (sign, split, offset) =
      parse_offset-reads spec.offset w.offset_fits (register_name spec.base spec.register_index)
        (register_name-Apart spec.base spec.register_index small) in
    ground (
      arith,
      split,
      offset,
      w.valid,
      register_name-reads spec.base spec.register_index v.0 small w.numbered,
    )

-- Every writable specification is parsed back from its text: the name of its base, its offset with a
-- sign if it is not 0, a colon and its size, the numbers in decimal.
pub parse_snapshot_spec-spec_text :
    (spec : SnapshotSpec) → IsWritable spec → parse_snapshot_spec (spec_text spec) ≡ some spec
unfolding parse_snapshot_spec
parse_snapshot_spec-spec_text spec w =
    let v = valid_parts spec w.valid in
    let small : spec.register_index ≤ 30 = ground (arith, v.1, w.numbered) in
    ground (
      arith,
      v,
      split_colon-append (register_name spec.base spec.register_index ++ offset_text spec.offset)
          (decimal spec.size)
          (All-append NoColon (register_name spec.base spec.register_index)
            (offset_text spec.offset)
            (no_colon _ (register_name-Apart spec.base spec.register_index small))
            (offset_text-NoColon spec.offset w.offset_fits)),
      front-ne-nil spec.base spec.register_index (offset_text spec.offset),
      parse_unsigned_of spec.size (omega arith),
      parse_base_offset-reads spec w small,
    )

register_name-numbered :
    (name : Bytes) (base index : ℕ)
    → parse_register_name name ≡ some (base, index)
    → base ≢ base_gpr
    → index ≡ 0
unfolding parse_register_name
register_name-numbered [] base index h ne = cc
register_name-numbered (a ∷ []) base index h ne = cc
register_name-numbered (a ∷ b ∷ []) base index h ne = ground arith
register_name-numbered (a ∷ b ∷ c ∷ []) base index h ne = ground arith
register_name-numbered (a ∷ b ∷ c ∷ d ∷ r) base index h ne = cc

parse_offset-OffsetFits :
    (sign : Option (Bool × Bytes)) (o : ℤ) → parse_offset sign ≡ some o → OffsetFits o
unfolding parse_offset signed_offset
parse_offset-OffsetFits none (pos n) h = ground arith
parse_offset-OffsetFits none (negsuc n) h = cc
parse_offset-OffsetFits (some (neg, text)) (pos n) h = ground arith
parse_offset-OffsetFits (some (neg, text)) (negsuc n) h = ground arith

parse_base_offset-IsWritable :
    (size : ℕ) (front : Bytes) (spec : SnapshotSpec)
    → parse_base_offset size front ≡ some spec
    → IsWritable spec
unfolding parse_base_offset
parse_base_offset-IsWritable size front spec h = ground (
  arith,
  parse_offset-OffsetFits (split_sign front).1 spec.offset,
  register_name-numbered (split_sign front).0 spec.base spec.register_index,
)

-- Whatever text is accepted, the specification is a writable one: its base is one of the four, the
-- number of a general register is at most 30 and that of another base 0, the size is 1 to 256, and the
-- offset lies strictly between -2^63 and 2^63.
pub parse_snapshot_spec-IsWritable :
    (text : Bytes) (spec : SnapshotSpec) → parse_snapshot_spec text ≡ some spec → IsWritable spec
unfolding parse_snapshot_spec
parse_snapshot_spec-IsWritable text spec h = elim (Option-cases (split_colon text)) [
  | inl e ↦ absurd (ground arith)
  | inr ((front, back), e) ↦ elim (Option-cases (parse_unsigned back)) [
    | inl f ↦ absurd (ground arith)
    | inr (size, f) ↦ parse_base_offset-IsWritable size front spec (ground arith)
  ]
]
