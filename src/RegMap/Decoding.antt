-- ===== src/RegMap/Decoding.antt =====
-- What the tables by address of a register map (src/uvmsc/reg/uvm_reg_map.cpp) answer for an address.
use uvm_systemc.Common.{
  ℕ, ◌≡◌, ◌≢◌, refl, sym, subst, true, false, Option, none, some, List, [], ◌∷◌, inl, inr, ◌⊎◌, All,
}
use uvm_systemc.Common.Maps.{find, nat_key}
use uvm_systemc.RegMap.Tables.{
  RegAccess, read_only, write_only, Range, Tables, Warning, place, place_all, get_reg_by_offset,
}
use uvm_systemc.RegMap.Entries.{
  no_registers, entry, Sound, Found, Takes, empty, two, alone, reads, writes, first_silent,
  then_silent, equal_cases, place-Takes, place-away,
}

module _ (access : ℕ → RegAccess) where
  abbrev Holds : Tables → ℕ × ℕ → Type 0
  Holds t (rg, a) = Found access rg (entry t a)

  -- Registers are put into tables that are sound: these stay sound, have the registers, and lose none.
  abbrev Grows : Tables → List (ℕ × ℕ) → Tables → Type 0
  Grows t rs t' =
      ((b : ℕ) → Sound access (entry t' b))
      × All (Holds t') rs
      × ((r b : ℕ) → Found access r (entry t b) → Found access r (entry t' b))

  -- Two tables that differ at one address at most.
  module _ (t t' : Tables) (rg a : ℕ) (away : (b : ℕ) → a ≢ b → entry t' b ≡ entry t b) where
    Takes-Sound :
        Takes access rg (entry t a) (entry t' a)
        → ((b : ℕ) → Sound access (entry t b))
        → (b : ℕ) → Sound access (entry t' b)
    Takes-Sound takes sound b = elim (equal_cases a b) [
      | inl same ↦ subst (λ c. Sound access (entry t' c)) same takes.0
      | inr other ↦ subst (Sound access) (sym (away b other)) (sound b)
    ]

    Takes-Found :
        Takes access rg (entry t a) (entry t' a)
        → (r b : ℕ) → Found access r (entry t b)
        → Found access r (entry t' b)
    Takes-Found takes r b found = elim (equal_cases a b) [
      | inl same ↦
          subst (λ c. Found access r (entry t' c)) same
            (takes.2 r (subst (λ c. Found access r (entry t c)) (sym same) found))
      | inr other ↦ subst (Found access r) (sym (away b other)) found
    ]

  place_all-Grows :
      (mems : List (Range × ℕ)) (t : Tables) (rs : List (ℕ × ℕ))
      → ((b : ℕ) → Sound access (entry t b))
      → (place_all access mems t rs).1 ≡ []
      → Grows t rs (place_all access mems t rs).0
  unfolding place_all
  place_all-Grows mems t [] sound silent = (sound, tt, λ r b found. found)
  place_all-Grows mems t ((rg, a) ∷ rest) sound silent =
      let takes = place-Takes access mems t rg a (sound a) (first_silent first more silent) in
      let ih =
        place_all-Grows mems after rest (Takes-Sound t after rg a away takes sound)
          (then_silent first more silent) in
      (
        ih.0,
        (ih.2 rg a takes.1, ih.1),
        λ r b found. ih.2 r b (Takes-Found t after rg a away takes r b found),
      )
    where
      after : Tables
      after = (place access mems t rg a).0

      first : List Warning
      first = (place access mems t rg a).1

      more : List Warning
      more = (place_all access mems after rest).1

      away : (b : ℕ) → a ≢ b → entry after b ≡ entry t b
      away b = place-away access mems t rg a b

  -- What a locked block finds for the register and its address.
  abbrev pub Decoded : Tables → ℕ × ℕ → Type 0
  Decoded t (rg, a) =
      ((get_reg_by_offset t true a true ≡ some rg) × (get_reg_by_offset t true a false ≡ some rg))
      ⊎ ((reader : ℕ) × (writer : ℕ) × (access reader ≡ read_only)
          × (access writer ≡ write_only)
          × (get_reg_by_offset t true a true ≡ some reader)
          × (get_reg_by_offset t true a false ≡ some writer)
          × ((rg ≡ reader) ⊎ (access rg ≡ write_only)))

  entry-Decoded :
      (t : Tables) (rg a : ℕ) (x y : Option ℕ)
      → find a t.regs_by_offset ≡ x
      → find a t.regs_by_offset_wo ≡ y
      → Sound access (x, y)
      → Found access rg (x, y)
      → Decoded t (rg, a)
  unfolding get_reg_by_offset
  entry-Decoded t rg a none none p q sound found = elim found [ ]
  entry-Decoded t rg a none (some y) p q sound found = elim found [ ]
  entry-Decoded t rg a (some x) none p q sound alone = inl (p, rw q p)
  entry-Decoded t rg a (some x) (some y) p q (two r w) (reads v) =
      inr (x, y, r, w, p, rw q refl, inl refl)
  entry-Decoded t rg a (some x) (some y) p q (two r w) (writes v u) =
      inr (x, y, r, w, p, rw q refl, inr v)

  empty-Sound : (b : ℕ) → Sound access (entry no_registers b)
  unfolding find
  empty-Sound b = empty

  Holds-Decoded :
      (t : Tables) (rs : List (ℕ × ℕ))
      → ((b : ℕ) → Sound access (entry t b))
      → All (Holds t) rs
      → All (Decoded t) rs
  Holds-Decoded t [] sound held = tt
  Holds-Decoded t ((rg, a) ∷ rest) sound held = (
    entry-Decoded t rg a (find a t.regs_by_offset) (find a t.regs_by_offset_wo) refl refl (sound a)
        held.0,
    Holds-Decoded t rest sound held.1,
  )

  -- Registers are put into empty tables, and no warning is given: at each register's address either it is
  -- found for reads and for writes, or a read-only register is found for reads and a write-only one for
  -- writes, and the register is that reader or is write-only too.
  pub place_all-decodes :
      (mems : List (Range × ℕ)) (rs : List (ℕ × ℕ))
      → (place_all access mems no_registers rs).1 ≡ []
      → All (Decoded (place_all access mems no_registers rs).0) rs
  place_all-decodes mems rs silent =
      let grown = place_all-Grows mems no_registers rs empty-Sound silent in
      Holds-Decoded (place_all access mems no_registers rs).0 rs grown.0 grown.1
