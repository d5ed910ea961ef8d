-- ===== src/Freeze/Table.antt =====
-- What the table answers after an address is frozen or thawed.
use sys_agent.Prelude.{
  ℕ, zero, suc, ◌<◌, ◌≡◌, ◌≢◌, ◌⊎◌, refl, sym, ◌∙◌, ap, arith, false, Option, none, some, List, [],
  ◌∷◌, length, get_elem?, get_or, set, ◌==◌, if◌then◌else◌, Bool-cases, Option-cases, inl, inr,
}
use sys_agent.Freeze.{
  FreezeBlock, Freezes, find_addr_slot, find_next_empty_slot, clear_slot, remove_from_freeze_map,
  fill_slot, add_to_freeze_map,
}

-- The block that a lookup finds for an address, if any.
abbrev pub frozen_at : List FreezeBlock → ℕ → Option FreezeBlock
frozen_at [] addr = none
frozen_at (b ∷ rest) addr = if b.address == addr then some b else frozen_at rest addr

-- A found slot holds the address, and no slot in front does.
pub record IsFound (slots : List FreezeBlock) (addr i : ℕ) : Type 0 where
  pub in_table : i < length slots
  pub holds_it : (d : FreezeBlock) → (get_or slots i d).address ≡ addr
  pub is_first : (j : ℕ) (d : FreezeBlock) → j < i → (get_or slots j d).address ≢ addr

find_addr_slot-IsFound :
    (slots : List FreezeBlock) (addr i : ℕ)
    → find_addr_slot slots addr ≡ some i
    → IsFound slots addr i
unfolding find_addr_slot
find_addr_slot-IsFound [] addr i e = cc
find_addr_slot-IsFound (b ∷ rest) addr i e = elim (Bool-cases (b.address == addr)) [
  | inl here ↦
      let at : i ≡ 0 = ground (arith, here) in
      record {
        in_table = omega (arith, at);
        holds_it = λ d. rw at (ground (arith, here));
        is_first = λ j d lt. absurd (omega (arith, at));
      }
  | inr there ↦ elim (Option-cases (find_addr_slot rest addr)) [
    | inl r ↦ absurd (ground (arith, there, r))
    | inr (k, r) ↦
        let at : i ≡ suc k = ground (arith, there, r) in
        let f = find_addr_slot-IsFound rest addr k r in
        record {
          in_table = omega (arith, at, f.in_table);
          holds_it = λ d. rw at (f.holds_it d);
          is_first = λ j d lt. go b addr rest there k f j d (omega (arith, at));
        }
  ]
]
  where
    go :
        (b : FreezeBlock) (addr : ℕ) (rest : List FreezeBlock)
        → (b.address == addr) ≡ false
        → (k : ℕ) → IsFound rest addr k
        → (j : ℕ) (d : FreezeBlock) → j < suc k
        → (get_or (b ∷ rest) j d).address ≢ addr
    go b addr rest there k f zero d lt = ground arith
    go b addr rest there k f (suc j) d lt = f.is_first j d (omega arith)

-- A write to a slot that holds another address, of another address, does not change what is found.
frozen_at-set_other :
    (slots : List FreezeBlock) (i : ℕ) (b d : FreezeBlock) (a : ℕ)
    → (i < length slots → (get_or slots i d).address ≢ a)
    → b.address ≢ a
    → frozen_at (set slots i b) a ≡ frozen_at slots a
frozen_at-set_other [] i b d a h k = refl
frozen_at-set_other (x ∷ rest) zero b d a h k =
    let other : x.address ≢ a = h (omega arith) in ground (arith, other, k)
frozen_at-set_other (x ∷ rest) (suc i) b d a h k =
    ap (λ o. if x.address == a then some x else o)
      (frozen_at-set_other rest i b d a (λ lt. h (omega (arith, lt))) k)

-- A write of an address that no slot in front holds is found.
frozen_at-set_self :
    (slots : List FreezeBlock) (i : ℕ) (b : FreezeBlock)
    → i < length slots
    → ((j : ℕ) (d : FreezeBlock) → j < i → (get_or slots j d).address ≢ b.address)
    → frozen_at (set slots i b) b.address ≡ some b
frozen_at-set_self [] i b lt h = absurd (omega arith)
frozen_at-set_self (x ∷ rest) zero b lt h = ground arith
frozen_at-set_self (x ∷ rest) (suc i) b lt h =
    let other : x.address ≢ b.address = h 0 b (omega arith) in
    let further = frozen_at-set_self rest i b (omega arith) (λ j d l. h (suc j) d (omega arith)) in
    ground (arith, other, further)

find_addr_slot-none :
    (slots : List FreezeBlock) (addr : ℕ)
    → find_addr_slot slots addr ≡ none
    → (j : ℕ) (d : FreezeBlock) → j < length slots
    → (get_or slots j d).address ≢ addr
unfolding find_addr_slot
find_addr_slot-none [] addr e j d lt = absurd (omega arith)
find_addr_slot-none (b ∷ rest) addr e zero d lt = ground arith
find_addr_slot-none (b ∷ rest) addr e (suc j) d lt =
    let further : find_addr_slot rest addr ≡ none = ground arith in
    find_addr_slot-none rest addr further j d (omega arith)

set-set :
    (slots : List FreezeBlock) (i : ℕ) (b c : FreezeBlock) → set (set slots i b) i c ≡ set slots i c
set-set [] i b c = refl
set-set (x ∷ rest) zero b c = refl
set-set (x ∷ rest) (suc i) b c = ap (◌∷◌ x) (set-set rest i b c)

-- The table after a slot was cleared and filled is the table after it was filled.
fill_slot-clear_slot :
    (f : Freezes) (i : ℕ) (b : FreezeBlock)
    → (fill_slot (clear_slot f i) i b).slots ≡ set f.slots i b
unfolding fill_slot clear_slot
fill_slot-clear_slot f i b = elim (Option-cases (get_elem? f.slots i)) [
  | inl e ↦ rw (e, clear_slot) refl
  | inr (old, e) ↦ rw (e, clear_slot) (set-set f.slots i _ b)
]

remove_found :
    (f : Freezes) (addr i : ℕ)
    → find_addr_slot f.slots addr ≡ some i
    → remove_from_freeze_map f addr ≡ (i, clear_slot f i)
unfolding remove_from_freeze_map
remove_found f addr i e = rw (e, remove_from_freeze_map) refl

-- There is a slot for an address: its own or an empty one.
abbrev pub HasRoom : Freezes → ℕ → Type 0
HasRoom f addr =
    ((i : ℕ) × (find_addr_slot f.slots addr ≡ some i))
    ⊎ ((i : ℕ) × (find_next_empty_slot f.slots ≡ some i))

-- The block that freezing an address stores.
abbrev pub new_block : ℕ → ℕ → ℕ → ℕ → FreezeBlock
new_block addr v_data v_size tid = record {
  state = 1;
  address = addr;
  v_data = v_data;
  size = v_size;
  title_id = tid;
}

-- The slot that is used: its own, or else the first empty one.
add_to_freeze_map-slot :
    (f : Freezes) (addr v_data v_size tid : ℕ)
    → HasRoom f addr
    → (i : ℕ) × ((add_to_freeze_map f addr v_data v_size tid).1.slots
        ≡ set f.slots i (new_block addr v_data v_size tid))
      × (IsFound f.slots addr i
          ⊎ (IsFound f.slots 0 i
              × ((j : ℕ) (d : FreezeBlock)
                  → j < length f.slots
                  → (get_or f.slots j d).address ≢ addr)))
unfolding add_to_freeze_map find_next_empty_slot
add_to_freeze_map-slot f addr v_data v_size tid room =
    elim (Option-cases (find_addr_slot f.slots addr)) [
      | inr (i, e) ↦ (
        i,
        rw (e, add_to_freeze_map, remove_found f addr i e)
            (fill_slot-clear_slot f i (new_block addr v_data v_size tid)),
        inl (find_addr_slot-IsFound f.slots addr i e),
      )
      | inl e ↦ elim (Option-cases (find_addr_slot f.slots 0)) [
        | inl full ↦ absurd (elim room [ inl (i, x) ↦ cc | inr (i, x) ↦ cc ])
        | inr (i, x) ↦ (
          i,
          rw (e, x, add_to_freeze_map) (unfold fill_slot in refl),
          inr (find_addr_slot-IsFound f.slots 0 i x, find_addr_slot-none f.slots addr e),
        )
      ]
    ]

-- Freezing an address other than 0, in a table with a slot for it, makes its block the one that is found for
-- the address, and leaves what is found for every other address but 0.
pub add_to_freeze_map-frozen_at :
    (f : Freezes) (addr v_data v_size tid : ℕ)
    → addr ≢ 0
    → HasRoom f addr
    → let slots = (add_to_freeze_map f addr v_data v_size tid).1.slots in
      (frozen_at slots addr ≡ some (new_block addr v_data v_size tid))
      × ((a : ℕ) → a ≢ 0 → a ≢ addr → frozen_at slots a ≡ frozen_at f.slots a)
add_to_freeze_map-frozen_at f addr v_data v_size tid ne room =
    let block = new_block addr v_data v_size tid in
    let (i, slots, place) = add_to_freeze_map-slot f addr v_data v_size tid room in
    elim place [
      | inl own ↦ rw slots (
        frozen_at-set_self f.slots i block own.in_table own.is_first,
        λ a z o.
            frozen_at-set_other f.slots i block block a (λ lt e. o (sym e ∙ own.holds_it block))
              (λ e. o (sym e)),
      )
      | inr (empty, absent) ↦ rw slots (
        frozen_at-set_self f.slots i block empty.in_table
            (λ j d lt. absent j d (omega (arith, empty.in_table))),
        λ a z o.
            frozen_at-set_other f.slots i block block a (λ lt e. z (sym e ∙ empty.holds_it block))
              (λ e. o (sym e)),
      )
    ]
