-- ===== src/Store/Layout.antt =====
-- The memory of the structures that sys-agent/source/search_store.c writes with `fwrite`: their fields one behind the
-- other, little-endian; the compiler leaves no gaps between them.
use native.Mathlib.Nat.{pow-suc}
use sys_agent.Prelude.{
  ℕ, zero, suc, ◌+◌, ◌*◌, ◌/◌, ◌%◌, ◌^◌, ◌<◌, ◌≡◌, refl, sym, ap, ap₂, ◌∙◌, arith, List, [], ◌∷◌,
  ◌++◌, Bytes, append_assoc, All, length, length-append, drop, drop_left,
}

-- An integer of n bytes.
unfoldable pub le_bytes : ℕ → ℕ → Bytes
le_bytes zero v = []
le_bytes (suc n) v = v % 256 ∷ le_bytes n (v / 256)

-- The integer in the first n bytes.
unfoldable pub le_value : ℕ → Bytes → ℕ
le_value zero bytes = 0
le_value (suc n) [] = 0
le_value (suc n) (b ∷ bytes) = b + 256 * le_value n bytes

-- A structure: the sizes and the values of its fields.
abbrev pub Fields : Type 0
Fields = List (ℕ × ℕ)

unfoldable pub fields_bytes : Fields → Bytes
fields_bytes [] = []
fields_bytes ((n, v) ∷ fields) = le_bytes n v ++ fields_bytes fields

-- The values of the fields at the start of some bytes, by their sizes.
unfoldable pub read_fields : List ℕ → Bytes → List ℕ
read_fields [] bytes = []
read_fields (n ∷ sizes) bytes = le_value n bytes ∷ read_fields sizes (drop n bytes)

abbrev pub field_sizes : Fields → List ℕ
field_sizes [] = []
field_sizes ((n, v) ∷ fields) = n ∷ field_sizes fields

abbrev pub field_values : Fields → List ℕ
field_values [] = []
field_values ((n, v) ∷ fields) = v ∷ field_values fields

-- Every value fits its field.
abbrev pub Fits : Fields → Type 0
Fits = All (λ f. f.1 < 256 ^ f.0)

-- The size of a structure.
abbrev pub size_of : Fields → ℕ
size_of [] = 0
size_of ((n, v) ∷ fields) = n + size_of fields

pub length-le_bytes : (n v : ℕ) → length (le_bytes n v) ≡ n
unfolding le_bytes
length-le_bytes zero v = refl
length-le_bytes (suc n) v = ap suc (length-le_bytes n (v / 256))

pub length-fields_bytes : (fields : Fields) → length (fields_bytes fields) ≡ size_of fields
unfolding fields_bytes
length-fields_bytes [] = refl
length-fields_bytes ((n, v) ∷ fields) =
    length-append (le_bytes n v) (fields_bytes fields)
    ∙ ap₂ (λ a b. a + b) (length-le_bytes n v) (length-fields_bytes fields)

pub le_value-le_bytes :
    (n v : ℕ) (rest : Bytes) → v < 256 ^ n → le_value n (le_bytes n v ++ rest) ≡ v
unfolding le_value le_bytes
le_value-le_bytes zero v rest lt = omega arith
le_value-le_bytes (suc n) v rest lt =
    let high = le_value-le_bytes n (v / 256) rest (omega (arith, lt, pow-suc 256 n)) in
    omega (arith, high)

-- A structure is read back as it was written.
pub read_fields-fields_bytes :
    (fields : Fields) (rest : Bytes)
    → Fits fields
    → read_fields (field_sizes fields) (fields_bytes fields ++ rest) ≡ field_values fields
unfolding read_fields fields_bytes
read_fields-fields_bytes [] rest h = refl
read_fields-fields_bytes ((n, v) ∷ fields) rest h =
    let joined : (le_bytes n v ++ fields_bytes fields) ++ rest
        ≡ le_bytes n v ++ (fields_bytes fields ++ rest) =
      append_assoc (le_bytes n v) (fields_bytes fields) rest in
    rw (
      joined,
      le_value-le_bytes n v (fields_bytes fields ++ rest) h.0,
      drop_left n (le_bytes n v) (fields_bytes fields ++ rest) (sym (length-le_bytes n v)),
      read_fields-fields_bytes fields rest h.1,
    )
