-- ===== src/Search/Range/Scan.antt =====
-- What a plan of `searchPlanMapping` is.
use sys_agent.Prelude.{ℕ, ◌+◌, ◌^◌, ◌≤◌, ◌<◌, ◌≡◌, ◌≢◌, ◌↔◌, min, ltb, if◌then◌else◌, arith, true}
use sys_agent.Search.Range.{invalid, skip, read, RangePlan, Mapping, plan_mapping}

-- A plan that the search follows: it starts at the cursor, ends behind it where the mapping starts or, from there on, ends,
-- and not behind the search, only a readable
-- mapping that holds the whole of it is read, and no readable byte of the mapping is skipped.
pub record IsPlan (cursor search_end : ℕ) (m : Mapping) (p : RangePlan) : Type 0 where
  pub starts : p.start ≡ cursor
  pub advances : cursor < p.end
  pub inside : p.end ≤ search_end
  pub ends : p.end ≡ (
      if ltb cursor m.address
      then min search_end m.address
      else min search_end (m.address + m.size))
  pub reads :
      p.action ≡ read → (m.readable ≡ true) × (m.address ≤ cursor) × (p.end ≤ m.address + m.size)
  pub skips : p.action ≡ skip → m.readable ≡ true → (a : ℕ) → a < p.end → m.address ≤ a → a < cursor

-- Whatever the kernel answers, in 64 bits, every plan but the invalid one starts at the cursor and ends behind it:
-- where the mapping starts if the cursor is in front of it, else where the mapping ends, but not behind the end of
-- the search. A read lies in a readable mapping, and a skip passes over no byte of a readable one.
pub plan_mapping-IsPlan :
    (cursor search_end : ℕ) (m : Mapping)
    → m.address < 2 ^ 64
    → m.size < 2 ^ 64
    → (plan_mapping cursor search_end m).action ≢ invalid
    → IsPlan cursor search_end m (plan_mapping cursor search_end m)
unfolding plan_mapping
plan_mapping-IsPlan cursor search_end m ha hs ne = record {
  starts = ground arith;
  advances = ground (arith, ne);
  inside = ground (arith, ne);
  ends = ground (arith, ne);
  reads = λ e. (ground arith, ground arith, ground arith);
  skips = λ e readable a before from. ground arith;
}

-- A plan for a mapping in 64 bits is invalid unless the cursor is in front of the search's end and of the mapping's end,
-- and the mapping is not empty and ends below 2^64.
pub plan_mapping_valid_iff :
    (cursor search_end : ℕ) (m : Mapping)
    → m.address < 2 ^ 64
    → m.size < 2 ^ 64
    → ((plan_mapping cursor search_end m).action ≢ invalid) ↔ (
        (cursor < search_end)
        × (cursor < m.address + m.size)
        × (0 < m.size)
        × (m.address + m.size < 2 ^ 64))
unfolding plan_mapping
plan_mapping_valid_iff cursor search_end m ha hs = (
  λ ne. (ground (arith, ne), ground (arith, ne), ground (arith, ne), ground (arith, ne)),
  λ p e. ground arith,
)
