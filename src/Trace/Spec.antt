-- ===== src/Trace/Spec.antt =====
-- sys-agent/source/debug_trace_model.c and .h: snapshot specifications such as `x1+0x20:64`.
pub mod RoundTrip
pub mod Unsigned
use sys_agent.Prelude.{
  ℕ, zero, suc, ◌+◌, ◌-◌, ◌*◌, ◌/◌, ◌%◌, ◌≤◌, ◌<◌, ◌≡◌, ◌^◌, Bool, true, false, not, ◌&&◌, ◌||◌,
  Option, none, some, List, [], ◌∷◌, ◌++◌, Bytes, length, get_or, ltb, leb, ◌==◌, if◌then◌else◌,
}
use sys_agent.Prelude.Int.{ℤ, pos, negsuc}
use sys_agent.Libc.{strtoull_whole, split_base, is_empty}

abbrev pub snapshot_bytes_max : ℕ
snapshot_bytes_max = 0x100

-- `DebugTraceSnapshotBase`
abbrev pub base_gpr : ℕ
base_gpr = 0

abbrev pub base_sp : ℕ
base_sp = 1

abbrev pub base_pc : ℕ
base_pc = 2

abbrev pub base_lr : ℕ
base_lr = 3

-- `DebugTraceSnapshotSpec`
pub record SnapshotSpec : Type 0 where
  pub base : ℕ
  pub register_index : ℕ
  pub offset : ℤ
  pub size : ℕ

-- Both `parseUnsigned` and its refusal of a sign in front.
unfoldable pub parse_unsigned : Bytes → Option ℕ
parse_unsigned [] = none
parse_unsigned (c ∷ cs) =
    if c == b'+' || c == b'-'
    then none
    else let (base, text) = split_base (c ∷ cs) in
      if is_empty text then none else strtoull_whole text base

-- `parseUnsignedRange`, on the bytes of the range.
unfoldable pub parse_unsigned_range : Bytes → Option ℕ
parse_unsigned_range text =
    if length text == 0 || leb 64 (length text) then none else parse_unsigned text

-- `parseRegisterName`, on the bytes of the name: the base and the register index.
unfoldable pub parse_register_name : Bytes → Option (ℕ × ℕ)
parse_register_name (a ∷ b ∷ []) =
    if a == b's' && b == b'p'
    then some (base_sp, 0)
    else if a == b'p' && b == b'c'
    then some (base_pc, 0)
    else if a == b'l' && b == b'r'
    then some (base_lr, 0)
    else if not (a == b'x')
    then none
    else elim (parse_unsigned (b ∷ [])) [
      | none ↦ none
      | some index ↦ if ltb 30 index then none else some (base_gpr, index)
    ]
parse_register_name (a ∷ b ∷ c ∷ []) =
    if not (a == b'x') then none else elim (parse_unsigned (b ∷ c ∷ [])) [
      | none ↦ none
      | some index ↦ if ltb 30 index then none else some (base_gpr, index)
    ]
parse_register_name text = none

-- `debugTraceAddressIsValid`; `address & 3` is the remainder by 4.
unfoldable pub address_is_valid : ℕ → Bool
address_is_valid address = not (address == 0) && address % 4 == 0

-- `debugTraceSnapshotSpecIsValid`
unfoldable pub snapshot_spec_is_valid : SnapshotSpec → Bool
snapshot_spec_is_valid spec =
    not (ltb base_lr spec.base)
    && not (spec.base == base_gpr && ltb 30 spec.register_index)
    && ltb 0 spec.size
    && leb spec.size snapshot_bytes_max

-- `strchr(text, ':')`: the bytes in front of the first colon and those behind it.
unfoldable pub split_colon : Bytes → Option (Bytes × Bytes)
split_colon [] = none
split_colon (c ∷ cs) =
    let further : Option (Bytes × Bytes) = elim (split_colon cs) [
      | none ↦ none
      | some (front, back) ↦ some (c ∷ front, back)
    ] in
    if c == b':' then some ([], cs) else further

-- The loop that looks for a sign in front of the colon: the name, and the sign with what follows it.
unfoldable pub split_sign : Bytes → Bytes × Option (Bool × Bytes)
split_sign [] = ([], none)
split_sign (c ∷ cs) =
    let further : Bytes × Option (Bool × Bytes) =
      (let (name, sign) = split_sign cs in (c ∷ name, sign)) in
    if c == b'+' || c == b'-' then ([], some (c == b'-', cs)) else further

-- `-(int64_t)magnitude`, or the magnitude itself.
unfoldable pub signed_offset : Bool → ℕ → ℤ
signed_offset false magnitude = pos magnitude
signed_offset true zero = pos 0
signed_offset true (suc n) = negsuc n

-- The offset behind the name; 0 without a sign.
unfoldable pub parse_offset : Option (Bool × Bytes) → Option ℤ
parse_offset none = some (pos 0)
parse_offset (some (negative, text)) = elim (parse_unsigned_range text) [
  | none ↦ none
  | some magnitude ↦
      if ltb (2 ^ 63 - 1) magnitude then none else some (signed_offset negative magnitude)
]

-- `debugTraceParseSnapshotSpec` behind the size, on the bytes in front of the colon.
unfoldable pub parse_base_offset : ℕ → Bytes → Option SnapshotSpec
parse_base_offset size front =
    let (name, sign) = split_sign front in
    elim (parse_register_name name) [
      | none ↦ none
      | some (base, index) ↦ elim (parse_offset sign) [
        | none ↦ none
        | some offset ↦
            let parsed : SnapshotSpec = record {
              base = base;
              register_index = index;
              offset = offset;
              size = size;
            } in
            if snapshot_spec_is_valid parsed then some parsed else none
      ]
    ]

-- `debugTraceParseSnapshotSpec`
unfoldable pub parse_snapshot_spec : Bytes → Option SnapshotSpec
parse_snapshot_spec text = elim (split_colon text) [
  | none ↦ none
  | some (front, back) ↦ if is_empty front then none else elim (parse_unsigned back) [
    | none ↦ none
    | some size ↦
        if size == 0 || ltb snapshot_bytes_max size then none else parse_base_offset size front
  ]
]
