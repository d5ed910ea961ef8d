-- ===== src/Config/Hekate/Entries.antt =====
-- The boot entries that `hekateFindMainConfigId` of sys-agent/source/hekate_config.c counts, against a list of all of them.
use sys_agent.Prelude.{
  ℕ, zero, suc, ◌+◌, ◌-◌, ◌%◌, map, subst, ◌<◌, ◌≤◌, ◌≡◌, refl, sym, ap, arith, Bool, true, false,
  Option, none, some, List, [], ◌∷◌, Bytes, length, leb, ◌==◌, if◌then◌else◌, Bool-cases,
  Option-cases, inl, inr,
}
use sys_agent.Prelude.Word.{u32_mod}
use sys_agent.Config.Ini.{codes, text_eq, trim, c_text}
use sys_agent.Config.Hekate.{
  line_max, IdResult, found, id_not_found, duplicate_id, index_out_of_range, fgets, section_of,
  is_passed_over, is_id_line, Progress, enter_section, read_line, conclude, read_entries,
  no_progress, find_main_config_id,
}

-- What a line is.
pub data Item : Type 0 where
  main_section boot_section id_line other_line : Item

abbrev pub item_of : Bytes → Bytes → Item
item_of wanted text = if is_passed_over text then other_line else elim (section_of text) [
  | none ↦ (if is_id_line wanted text then id_line else other_line)
  | some name ↦ (if text_eq (trim name) (codes "config") then main_section else boot_section)
]

-- The number of the entry that a line stands in, from that of the entry in front and the number of entries so far:
-- 0 is none. The entries with the wanted id are listed, each as often as it has it.
abbrev pub with_id : ℕ → ℕ → List Item → List ℕ
with_id entry count [] = []
with_id entry count (main_section ∷ is) = with_id 0 count is
with_id entry count (boot_section ∷ is) = with_id (suc count) (suc count) is
with_id entry count (other_line ∷ is) = with_id entry count is
with_id entry count (id_line ∷ is) =
    let rest = with_id entry count is in if entry == 0 then rest else entry ∷ rest

-- The answer for those entries.
abbrev pub answer_of : List ℕ → IdResult
answer_of [] = id_not_found
answer_of (i ∷ []) = if leb i 15 then found i else index_out_of_range
answer_of (i ∷ j ∷ is) = duplicate_id

-- The lines of a text of at most so many bytes.
abbrev pub lines_of : ℕ → Bytes → List Bytes
lines_of zero text = []
lines_of (suc n) [] = []
lines_of (suc n) (c ∷ cs) =
    let (line, rest) = fgets (line_max - 1) (c ∷ cs) in trim (c_text line) ∷ lines_of n rest

length-fgets : (room c : ℕ) (cs : Bytes) → length (fgets (suc room) (c ∷ cs)).1 ≤ length cs
unfolding fgets
length-fgets zero c cs = ground arith
length-fgets (suc room) c [] = ground arith
length-fgets (suc room) c (d ∷ ds) = ground (arith, length-fgets room d ds)

-- The entry that the loop is in.
abbrev pub entry_of : Progress → ℕ
entry_of s = if s.in_boot_entry then s.current_index else 0

abbrev pub onto : Option ℕ → List ℕ → List ℕ
onto none is = is
onto (some i) is = i ∷ is

-- The answer from here on.
abbrev pub answer_from : Progress → List Item → IdResult
answer_from s is = answer_of (onto s.found_index (with_id (entry_of s) s.index is))

abbrev pub AtLeastOne : Option ℕ → Type 0
AtLeastOne none = Unit
AtLeastOne (some i) = 1 ≤ i

-- The loop counts, and does not wrap within so many lines.
pub record IsCounting (n : ℕ) (s : Progress) : Type 0 where
  pub small : s.index + n < u32_mod
  pub current : s.in_boot_entry ≡ true → (s.current_index ≡ s.index) × (1 ≤ s.index)
  pub sound : AtLeastOne s.found_index

-- One line, of an item, is worth the rest of the loop.
abbrev pub IsRound : ℕ → Item → List Item → Progress → Progress → Type 0
IsRound n i is s s' = (answer_from s (i ∷ is) ≡ answer_from s' is) × IsCounting n s'

enter_section-IsRound :
    (n : ℕ) (is_main : Bool) (s : Progress) (is : List Item)
    → IsCounting (suc n) s
    → IsRound n (if is_main then main_section else boot_section) is s (enter_section is_main s)
unfolding enter_section
enter_section-IsRound n true s is c =
    (refl, record { small = omega (arith, c.small); current = λ h. ground arith; sound = c.sound })
enter_section-IsRound n false s is c =
    let next : (s.index + 1) % u32_mod ≡ suc s.index = omega (arith, c.small) in
    (
      ap (λ m. answer_of (onto s.found_index (with_id m m is))) (sym next),
      record {
        small = omega (arith, c.small, next);
        current = λ h. (refl, omega (arith, next));
        sound = c.sound;
      },
    )

id_line-IsRound :
    (n : ℕ) (s : Progress) (is : List Item)
    → IsCounting (suc n) s
    → s.in_boot_entry ≡ true
    → s.found_index ≡ none
    → IsRound n id_line is s (record s { found_index = some s.current_index })
id_line-IsRound n s is c inside e = (
  ground (arith, c.current inside),
  record {
    small = omega (arith, c.small);
    current = c.current;
    sound = ground (arith, c.current inside);
  },
)

id_line-duplicate :
    (s : Progress) (i : ℕ) (is : List Item)
    → (s.in_boot_entry ≡ true → (s.current_index ≡ s.index) × (1 ≤ s.index))
    → s.in_boot_entry ≡ true
    → s.found_index ≡ some i
    → answer_from s (id_line ∷ is) ≡ duplicate_id
id_line-duplicate s i is current inside e = ground (arith, current inside)

id_line-outside :
    (s : Progress) (is : List Item)
    → s.in_boot_entry ≡ false
    → answer_from s (id_line ∷ is) ≡ answer_from s is
id_line-outside s is outside = ground arith

-- A line that is nothing leaves the loop as it is.
other_line-IsRound :
    (n : ℕ) (s : Progress) (is : List Item) → IsCounting (suc n) s → IsRound n other_line is s s
other_line-IsRound n s is c =
    (refl, record { small = omega (arith, c.small); current = c.current; sound = c.sound })

-- What a round leaves, or that the id was given twice.
abbrev pub AfterRound : ℕ → Item → List Item → Progress → Option Progress → Type 0
AfterRound n i is s none = answer_from s (i ∷ is) ≡ duplicate_id
AfterRound n i is s (some s') = IsRound n i is s s'

AfterRound-from :
    (n : ℕ) (i j : Item) (is : List Item) (s : Progress) (q r : Option Progress)
    → j ≡ i
    → q ≡ r
    → AfterRound n i is s r
    → AfterRound n j is s q
AfterRound-from n i j is s q r e f h =
    subst (λ j'. AfterRound n j' is s q) (sym e) (subst (AfterRound n i is s) (sym f) h)

read_line-AfterRound :
    (n : ℕ) (wanted text : Bytes) (s : Progress) (is : List Item)
    → IsCounting (suc n) s
    → AfterRound n (item_of wanted text) is s (read_line wanted text s)
unfolding read_line
read_line-AfterRound n wanted text s is c =
    let from = λ (i : Item) (r : Option Progress).
      AfterRound-from n i (item_of wanted text) is s (read_line wanted text s) r in
    elim (Bool-cases (is_passed_over text)) [
      | inl e ↦ from other_line (some s) (ground arith) (ground arith) (other_line-IsRound n s is c)
      | inr e ↦ elim (Option-cases (section_of text)) [
        | inr (name, e') ↦
            let is_main = text_eq (trim name) (codes "config") in
            from (if is_main then main_section else boot_section) (some (enter_section is_main s))
              (ground arith) (ground arith) (enter_section-IsRound n is_main s is c)
        | inl e' ↦ elim (Bool-cases (is_id_line wanted text)) [
          | inr d ↦
              from other_line (some s) (ground arith) (ground arith) (other_line-IsRound n s is c)
          | inl d ↦ elim (Bool-cases s.in_boot_entry) [
            | inr b ↦
                from id_line (some s) (ground arith) (ground arith)
                  (id_line-outside s is b, (other_line-IsRound n s is c).1)
            | inl b ↦ elim (Option-cases s.found_index) [
              | inl f ↦
                  from id_line (some (record s { found_index = some s.current_index }))
                    (ground arith) (ground arith) (id_line-IsRound n s is c b f)
              | inr (i, f) ↦
                  from id_line none (ground arith) (ground arith)
                    (id_line-duplicate s i is c.current b f)
            ]
          ]
        ]
      ]
    ]

conclude-answer_of : (o : Option ℕ) → AtLeastOne o → conclude o ≡ answer_of (onto o [])
unfolding conclude
conclude-answer_of none h = refl
conclude-answer_of (some i) h = ground arith

read_entries-items :
    (fuel : ℕ) (wanted text : Bytes) (s : Progress)
    → length text < fuel
    → IsCounting (length text) s
    → read_entries fuel wanted s text
      ≡ some (answer_from s (map (item_of wanted) (lines_of fuel text)))
unfolding read_entries
read_entries-items zero wanted text s enough c = ground arith
read_entries-items (suc fuel) wanted [] s enough c =
    ap (λ a. some a) (conclude-answer_of s.found_index c.sound)
read_entries-items (suc fuel) wanted (b ∷ bs) s enough c =
    let (line, rest) = fgets (line_max - 1) (b ∷ bs) in
    let shorter = length-fgets 510 b bs in
    let text = trim (c_text line) in
    let is = map (item_of wanted) (lines_of fuel rest) in
    let round = read_line-AfterRound (length bs) wanted text s is c in
    elim (Option-cases (read_line wanted text s)) [
      | inl e ↦ ground (arith, subst (AfterRound (length bs) (item_of wanted text) is s) e round)
      | inr (s', e) ↦
          let (same, c') = subst (AfterRound (length bs) (item_of wanted text) is s) e round in
          let counting : IsCounting (length rest) s' = record {
            small = omega (arith, c'.small, shorter);
            current = c'.current;
            sound = c'.sound;
          } in
          let further =
            read_entries-items fuel wanted rest s' (omega (arith, shorter, enough)) counting in
          ground (arith, further, same)
    ]

-- For an id that is not empty, `hekateFindMainConfigId` returns on every file of less than 4 GiB. It answers by the boot
-- entries that have a line with the id, each listed as often as it has one, and numbered by the sections in front
-- that are not the main one: the number of the only one if it is at most 15, and else the error that fits.
pub find_main_config_id-with_id :
    (text wanted : Bytes)
    → 0 < length wanted
    → length text < u32_mod
    → find_main_config_id (some text) wanted
      ≡ some (answer_of (with_id 0 0 (map (item_of wanted) (lines_of (length text + 1) text))))
unfolding find_main_config_id
find_main_config_id-with_id text [] some_id bound = ground arith
find_main_config_id-with_id text (w ∷ ws) some_id bound =
    read_entries-items (length text + 1) (w ∷ ws) text no_progress (omega arith)
      record { small = omega (arith, bound); current = λ h. ground arith; sound = tt }
