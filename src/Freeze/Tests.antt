-- ===== src/Freeze/Tests.antt =====
-- A table of frozen addresses at work.
use sys_agent.Prelude.{ℕ, ◌≡◌, ◌≢◌, refl, arith, some, inr}
use sys_agent.Freeze.{init_freezes, find_next_empty_slot, find_addr_slot, add_to_freeze_map}
use sys_agent.Freeze.Table.{HasRoom, frozen_at, new_block, add_to_freeze_map-frozen_at}

room : HasRoom init_freezes 4096
unfolding find_next_empty_slot find_addr_slot
room = inr (0, refl)

add_to_freeze_map-frozen_at_example :
    let slots = (add_to_freeze_map init_freezes 4096 7 4 1).1.slots in
    (frozen_at slots 4096 ≡ some (new_block 4096 7 4 1))
    × ((a : ℕ) → a ≢ 0 → a ≢ 4096 → frozen_at slots a ≡ frozen_at init_freezes.slots a)
add_to_freeze_map-frozen_at_example =
    add_to_freeze_map-frozen_at init_freezes 4096 7 4 1 (omega arith) room
