-- ===== src/RegMap/Entries.antt =====
-- What comes to one address of a register map (src/uvmsc/reg/uvm_reg_map.cpp) when a register is put there.
use uvm_systemc.Common.{
  ℕ, ◌≡◌, ◌≢◌, refl, ap, subst, ==_iff, Option, none, some, List, [], ◌∷◌, ◌++◌, ◌==◌, arith, inl,
  inr, ◌⊎◌, Bool-cases,
}
use uvm_systemc.Common.Maps.{Map, find, insert, find-insert, nat_key}
use uvm_systemc.RegMap.Tables.{
  RegAccess, read_only, write_only, read_write, Range, Tables, share, memories_at, put, place,
}

find-here : (a v : ℕ) (m : Map ℕ ℕ) → find a (insert a v m) ≡ some v
find-here a v m = rw (find-insert a a v m) (grind (arith, ==_iff a a))

find-there : (a b v : ℕ) (m : Map ℕ ℕ) → a ≢ b → find b (insert a v m) ≡ find b m
find-there a b v m other = rw (find-insert b a v m) (grind (arith, ==_iff a b))

pub first_silent : {A : Type 0} (xs ys : List A) → xs ++ ys ≡ [] → xs ≡ []
first_silent [] ys silent = refl
first_silent (x ∷ xs) ys silent = absurd (cc)

pub then_silent : {A : Type 0} (xs ys : List A) → xs ++ ys ≡ [] → ys ≡ []
then_silent [] ys silent = silent
then_silent (x ∷ xs) ys silent = absurd (cc)

pub equal_cases : (a b : ℕ) → (a ≡ b) ⊎ (a ≢ b)
equal_cases a b = elim (Bool-cases (a == b)) [
  | inl same ↦ inl ((==_iff a b).0 same)
  | inr other ↦ inr (λ same. absurd (grind (arith, ==_iff a b)))
]

abbrev pub no_registers : Tables
no_registers = record { regs_by_offset = []; regs_by_offset_wo = []; mems_by_offset = [] }

-- What stands in the two tables at one address.
abbrev pub Entry : Type 0
Entry = Option ℕ × Option ℕ

abbrev pub entry : Tables → ℕ → Entry
entry t a = (find a t.regs_by_offset, find a t.regs_by_offset_wo)

module _ (access : ℕ → RegAccess) where
  -- A second entry is only beside a read-only register, and is write-only.
  pub data Sound : Entry → Type 0 where
    empty : Sound (none, none)
    one : (rg : ℕ) → Sound (some rg, none)
    two :
        {reader writer : ℕ}
        → access reader ≡ read_only
        → access writer ≡ write_only
        → Sound (some reader, some writer)

  -- The register can be found in the entry.
  pub data Found (rg : ℕ) : Entry → Type 0 where
    alone : Found rg (some rg, none)
    reads : {writer : ℕ} → access rg ≡ read_only → Found rg (some rg, some writer)
    writes :
        {reader writer : ℕ}
        → access rg ≡ write_only
        → access writer ≡ write_only
        → Found rg (some reader, some writer)

  -- A register comes to an address: the entry is sound, has the register, and keeps those it had.
  abbrev pub Takes : ℕ → Entry → Entry → Type 0
  Takes rg e e' = Sound e' × Found rg e' × ((r : ℕ) → Found r e → Found r e')

  Found-empty : {r : ℕ} {e : Entry} → Found r (none, none) → Found r e
  Found-empty found = elim found [ ]

  to_empty : (rg : ℕ) {y : Option ℕ} → Sound (none, y) → Takes rg (none, y) (some rg, y)
  to_empty rg empty = (one rg, alone, λ r found. Found-empty found)

  before_writer :
      {there rg : ℕ} {y : Option ℕ}
      → access there ≡ write_only
      → access rg ≡ read_only
      → (r : ℕ) → Found r (some there, y)
      → Found r (some rg, some there)
  before_writer w r0 r alone = writes w w
  before_writer w r0 r (reads q) = absurd (cc)
  before_writer w r0 r (writes q v) = writes q w

  beside_reader :
      {there rg : ℕ} {y : Option ℕ}
      → access there ≡ read_only
      → access rg ≡ write_only
      → (r : ℕ) → Found r (some there, y)
      → Found r (some there, some rg)
  beside_reader r0 w r alone = reads r0
  beside_reader r0 w r (reads q) = reads q
  beside_reader r0 w r (writes q v) = writes q w

  share-Takes :
      (α β : RegAccess) (t : Tables) (there rg a : ℕ)
      → access there ≡ α
      → access rg ≡ β
      → find a t.regs_by_offset ≡ some there
      → (share α β t there rg a).1 ≡ []
      → Takes rg (entry t a) (entry (share α β t there rg a).0 a)
  unfolding share
  share-Takes write_only read_only t there rg a w r0 is silent =
      rw (find-here a rg t.regs_by_offset) (
        rw (find-here a there t.regs_by_offset_wo) (rw is (two r0 w, reads r0, before_writer w r0)))
  share-Takes read_only write_only t there rg a r0 w is silent =
      rw (find-here a rg t.regs_by_offset_wo) (rw is (two r0 w, writes w w, beside_reader r0 w))
  share-Takes read_only read_only t there rg a p q is silent = absurd (cc)
  share-Takes read_only read_write t there rg a p q is silent = absurd (cc)
  share-Takes write_only write_only t there rg a p q is silent = absurd (cc)
  share-Takes write_only read_write t there rg a p q is silent = absurd (cc)
  share-Takes read_write y t there rg a p q is silent = absurd (cc)

  put-Takes :
      (o : Option ℕ) (t : Tables) (rg a : ℕ)
      → find a t.regs_by_offset ≡ o
      → Sound (entry t a)
      → (put access o t rg a).1 ≡ []
      → Takes rg (entry t a) (entry (put access o t rg a).0 a)
  unfolding put
  put-Takes none t rg a gone sound silent =
      rw (find-here a rg t.regs_by_offset)
        (rw gone (to_empty rg (subst (λ e. Sound (e, find a t.regs_by_offset_wo)) gone sound)))
  put-Takes (some there) t rg a is sound silent =
      share-Takes (access there) (access rg) t there rg a refl refl is silent

  pub place-Takes :
      (mems : List (Range × ℕ)) (t : Tables) (rg a : ℕ)
      → Sound (entry t a)
      → (place access mems t rg a).1 ≡ []
      → Takes rg (entry t a) (entry (place access mems t rg a).0 a)
  unfolding place
  place-Takes mems t rg a sound silent =
      put-Takes (find a t.regs_by_offset) t rg a refl sound (
        first_silent (put access (find a t.regs_by_offset) t rg a).1 (memories_at mems rg a) silent)

  share-away :
      (α β : RegAccess) (t : Tables) (there rg a b : ℕ)
      → a ≢ b
      → entry (share α β t there rg a).0 b ≡ entry t b
  unfolding share
  share-away write_only read_only t there rg a b other =
      rw (find-there a b rg t.regs_by_offset other)
        (rw (find-there a b there t.regs_by_offset_wo other) refl)
  share-away read_only write_only t there rg a b other =
      rw (find-there a b rg t.regs_by_offset_wo other) refl
  share-away read_only read_only t there rg a b other = refl
  share-away read_only read_write t there rg a b other = refl
  share-away write_only write_only t there rg a b other = refl
  share-away write_only read_write t there rg a b other = refl
  share-away read_write β t there rg a b other = refl

  put-away :
      (o : Option ℕ) (t : Tables) (rg a b : ℕ) → a ≢ b → entry (put access o t rg a).0 b ≡ entry t b
  unfolding put
  put-away none t rg a b other =
      ap (λ (e : Option ℕ). (e, find b t.regs_by_offset_wo))
        (find-there a b rg t.regs_by_offset other)
  put-away (some there) t rg a b other = share-away (access there) (access rg) t there rg a b other

  pub place-away :
      (mems : List (Range × ℕ)) (t : Tables) (rg a b : ℕ)
      → a ≢ b
      → entry (place access mems t rg a).0 b ≡ entry t b
  unfolding place
  place-away mems t rg a b other = put-away (find a t.regs_by_offset) t rg a b other
