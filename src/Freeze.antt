-- ===== src/Freeze.antt =====
-- sys-agent/source/freeze.c: the table of frozen addresses. A slot holds the number of its buffer; the heap
-- that `free` returns to is the list of the buffers freed so far, the last one in front.
pub mod Table
mod Tests
use sys_agent.Prelude.{
  ℕ, zero, suc, ◌+◌, Bool, true, false, not, Option, none, some, List, [], ◌∷◌, length, get_elem?,
  set, replicate, ◌==◌, if◌then◌else◌,
}

-- `FREEZE_DIC_LENGTH`
abbrev pub table_length : ℕ
table_length = 255

-- `FreezeBlock`
pub record FreezeBlock : Type 0 where
  pub state : ℕ
  pub address : ℕ
  pub v_data : ℕ
  pub size : ℕ
  pub title_id : ℕ

-- The table and the buffers that were freed.
pub record Freezes : Type 0 where
  pub slots : List FreezeBlock
  pub freed : List ℕ

-- A slot of `calloc`.
abbrev pub empty_block : FreezeBlock
empty_block = record { state = 0; address = 0; v_data = 0; size = 0; title_id = 0 }

-- `initFreezes`
abbrev pub init_freezes : Freezes
init_freezes = record { slots = replicate table_length empty_block; freed = [] }

-- The loop of `findAddrSlot`; `none` stands for -1.
unfoldable pub find_addr_slot : List FreezeBlock → ℕ → Option ℕ
find_addr_slot [] addr = none
find_addr_slot (b ∷ rest) addr =
    let further : Option ℕ = elim (find_addr_slot rest addr) [
      | none ↦ none
      | some i ↦ some (i + 1)
    ] in
    if b.address == addr then some 0 else further

-- `findNextEmptySlot`
unfoldable pub find_next_empty_slot : List FreezeBlock → Option ℕ
find_next_empty_slot slots = find_addr_slot slots 0

-- Clearing a slot: its address and its state; the other fields stay.
unfoldable pub clear_slot : Freezes → ℕ → Freezes
clear_slot f i = elim (get_elem? f.slots i) [
  | none ↦ f
  | some b ↦ record {
    slots = set f.slots i (record b { address = 0; state = 0 });
    freed = b.v_data ∷ f.freed;
  }
]

-- `removeFromFreezeMap`: the slot, or 0 for none.
unfoldable pub remove_from_freeze_map : Freezes → ℕ → ℕ × Freezes
remove_from_freeze_map f addr = elim (find_addr_slot f.slots addr) [
  | none ↦ (0, f)
  | some i ↦ (i, clear_slot f i)
]

-- Filling a slot.
unfoldable pub fill_slot : Freezes → ℕ → FreezeBlock → Freezes
fill_slot f i b = record f { slots = set f.slots i b }

-- `addToFreezeMap`: the slot, or 0 for a full table.
unfoldable pub add_to_freeze_map : Freezes → ℕ → ℕ → ℕ → ℕ → ℕ × Freezes
add_to_freeze_map f addr v_data v_size tid =
    let block : FreezeBlock = record {
      state = 1;
      address = addr;
      v_data = v_data;
      size = v_size;
      title_id = tid;
    } in
    elim (find_addr_slot f.slots addr) [
      | some i ↦ (i, fill_slot (remove_from_freeze_map f addr).1 i block)
      | none ↦ elim (find_next_empty_slot f.slots) [
        | none ↦ (0, f)
        | some i ↦ (i, fill_slot f i block)
      ]
    ]

-- `getFreezeCount`, without the printing.
unfoldable pub get_freeze_count : List FreezeBlock → ℕ
get_freeze_count [] = 0
get_freeze_count (b ∷ rest) =
    let further = get_freeze_count rest in if not (b.state == 0) then further + 1 else further

-- The loop of `clearFreezes` over `n` slots from `i` on.
unfoldable pub clear_from : ℕ → ℕ → Bool → Freezes → Bool × Freezes
clear_from zero i cleared_one f = (cleared_one, f)
clear_from (suc n) i cleared_one f = elim (get_elem? f.slots i) [
  | none ↦ (cleared_one, f)
  | some b ↦ elim (b.state == 0) [
    | true ↦ clear_from n (i + 1) cleared_one f
    | false ↦ clear_from n (i + 1) true (remove_from_freeze_map f b.address).1
  ]
]

-- `clearFreezes`
unfoldable pub clear_freezes : Freezes → Bool × Freezes
clear_freezes f = clear_from table_length 0 false f
