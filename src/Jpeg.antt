-- ===== src/Jpeg.antt =====
-- sys-agent/source/jpeg_dc.c: the decoder of the mean brightness of each block of a JPEG picture. `Header` walks
-- the markers, `Scan` reads the entropy-coded picture. A read of an array out of its bounds, and a shift that C
-- does not define, is a `fault`.
pub mod Code
pub mod Tables
pub mod Header
pub mod Scan
mod Tests
use sys_agent.Prelude.{
  ℕ, zero, suc, ◌+◌, ◌≤◌, ◌<◌, ◌≡◌, refl, arith, Bool, true, false, Option, none, some, List, [],
  ◌∷◌, All, length, get_elem?, if◌then◌else◌,
}

-- How a call ends: with a result, with `false`, with undefined behaviour, or not within its fuel.
pub data Answer (A : Type 0) : Type 0 where
  ok : A → Answer A
  refused fault unfinished : Answer A

infixl 5 ◌>>=◌
abbrev pub ◌>>=◌ : {A B : Type 0} → Answer A → (A → Answer B) → Answer B
ok a >>= f = f a
refused >>= f = refused
fault >>= f = fault
unfinished >>= f = unfinished

-- `if (condition) return false;`
abbrev pub refuse_if : {A : Type 0} → Bool → Answer A → Answer A
refuse_if c r = if c then refused else r

-- An element of an array.
abbrev pub element : {A : Type 0} → List A → ℕ → Answer A
element xs i = elim (get_elem? xs i) [ none ↦ fault | some a ↦ ok a ]

-- `for (int i = first; i < first + n; i++)`, for a body that changes the state.
unfoldable pub count_up : {S : Type 0} → ℕ → ℕ → (ℕ → S → Answer S) → S → Answer S
count_up zero i body s = ok s
count_up (suc n) i body s = body i s >>= count_up n (i + 1) body

-- A call ends, without undefined behaviour, and its result, if it has one, has the property.
abbrev pub Ends : {A : Type 0} → (A → Type 0) → Answer A → Type 0
Ends P (ok a) = P a
Ends P refused = Unit
Ends P fault = ⊥
Ends P unfinished = ⊥

pub Ends->>= :
    {A B : Type 0} (P : A → Type 0) (Q : B → Type 0) (m : Answer A) (f : A → Answer B)
    → Ends P m
    → ((a : A) → P a → Ends Q (f a))
    → Ends Q (m >>= f)
Ends->>= P Q (ok a) f h k = k a h
Ends->>= P Q refused f h k = tt
Ends->>= P Q fault f h k = h
Ends->>= P Q unfinished f h k = h

pub Ends-refuse_if :
    {A : Type 0} (P : A → Type 0) (c : Bool) (r : Answer A)
    → (c ≡ false → Ends P r)
    → Ends P (refuse_if c r)
Ends-refuse_if P true r h = tt
Ends-refuse_if P false r h = h refl

pub Ends-element :
    {A : Type 0} (P : A → Type 0) (xs : List A) (i : ℕ)
    → All P xs
    → i < length xs
    → Ends P (element xs i)
Ends-element P [] i h lt = absurd (omega arith)
Ends-element P (x ∷ xs) zero h lt = h.0
Ends-element P (x ∷ xs) (suc i) h lt = Ends-element P xs i h.1 (omega arith)

-- The rule for a counted loop.
pub Ends-count_up :
    {S : Type 0} (P : S → Type 0) (last n i : ℕ) (body : ℕ → S → Answer S) (s : S)
    → ((j : ℕ) (t : S) → j < last → P t → Ends P (body j t))
    → i + n ≤ last
    → P s
    → Ends P (count_up n i body s)
unfolding count_up
Ends-count_up P last zero i body s keeps le h = h
Ends-count_up P last (suc n) i body s keeps le h =
    Ends->>= P P (body i s) (count_up n (i + 1) body) (keeps i s (omega arith) h)
      (λ t p. Ends-count_up P last n (i + 1) body t keeps (omega arith) p)
