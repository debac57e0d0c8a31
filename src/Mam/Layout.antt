-- ===== src/Mam/Layout.antt =====
-- The order in which the memory manager keeps its regions, and the set of addresses that they take.
use Prim.Native.Nat.{max}
use uvm_systemc.Common.{
  Bool-cases, All, ltb, none, true, ℕ, suc, ◌≤◌, ◌<◌, ◌≡◌, refl, Bool, false, ◌&&◌, ◌||◌, some,
  List, [], ◌∷◌, arith, leb, Option-cases, inl, inr,
}
use uvm_systemc.Mam.{Region, Mam, insert_region, overlaps}

-- Regions fall along the list, within `[lo, hi)`, and share no address.
abbrev pub Packed : ℕ → ℕ → List Region → Type 0
Packed lo hi [] = Unit {0}
Packed lo hi (r ∷ rs) =
    (lo ≤ r.start_offset)
    × (r.start_offset ≤ r.end_offset)
    × (r.end_offset < hi)
    × Packed lo r.start_offset rs

pub record IsValid (m : Mam) : Type 0 where
  pub unit : 0 < m.cfg.n_bytes
  pub packed : Packed m.cfg.start_offset (suc m.cfg.end_offset) m.in_use
  pub fresh : All (λ r. r.handle < m.next_handle) m.in_use

abbrev pub covers : Region → ℕ → Bool
covers r a = leb r.start_offset a && leb a r.end_offset

-- The abstract view: which addresses are taken.
unfoldable pub taken : List Region → ℕ → Bool
taken [] a = false
taken (r ∷ rs) a = covers r a || taken rs a

pub Packed-mono :
    (lo hi lo' hi' : ℕ) (rs : List Region)
    → lo' ≤ lo
    → hi ≤ hi'
    → Packed lo hi rs
    → Packed lo' hi' rs
Packed-mono lo hi lo' hi' [] h k p = tt
Packed-mono lo hi lo' hi' (r ∷ rs) h k (a, b, c, d) =
    (omega arith, b, omega arith, Packed-mono lo _ lo' _ rs h (omega arith) d)

pub taken_below : (lo hi a : ℕ) (rs : List Region) → Packed lo hi rs → hi ≤ a → taken rs a ≡ false
unfolding taken
taken_below lo hi a [] p h = refl
taken_below lo hi a (r ∷ rs) (b, c, d, e) h =
    ground (arith, taken_below lo r.start_offset a rs e (omega arith))

module _ (lo : ℕ) (r : Region) (low : lo ≤ r.start_offset)
    (ordered : r.start_offset ≤ r.end_offset) where
  -- A new region goes where it keeps the order.
  pub insert_region-Packed :
      (hi : ℕ) (rs out : List Region)
      → r.end_offset < hi
      → Packed lo hi rs
      → insert_region r rs ≡ some out
      → Packed lo hi out
  unfolding insert_region
  insert_region-Packed hi [] out h p e = ground arith
  insert_region-Packed hi (x ∷ xs) out h (a, b, c, d) e = elim (Option-cases (insert_region r xs)) [
    | inl stop ↦ ground arith
    | inr (ys, go) ↦ ground (arith, insert_region-Packed x.start_offset xs ys)
  ]

-- A new region adds its own addresses.
pub insert_region-taken :
    (a : ℕ) (r : Region) (rs out : List Region)
    → insert_region r rs ≡ some out
    → taken out a ≡ (covers r a || taken rs a)
unfolding insert_region taken
insert_region-taken a r [] out e = ground arith
insert_region-taken a r (x ∷ xs) out e = elim (Option-cases (insert_region r xs)) [
  | inl stop ↦ ground arith
  | inr (ys, go) ↦ ground (arith, insert_region-taken a r xs ys)
]

-- The early stop of the search misses no overlap, since the regions fall along the list.
pub insert_region_clash :
    (lo hi a : ℕ) (r : Region) (rs : List Region)
    → Packed lo hi rs
    → covers r a ≡ true
    → taken rs a ≡ true
    → insert_region r rs ≡ none
unfolding insert_region taken
insert_region_clash lo hi a r [] p c t = cc
insert_region_clash lo hi a r (x ∷ xs) (b, d, e, f) c t =
    ground (
      arith,
      taken_below lo x.start_offset a xs f,
      insert_region_clash lo x.start_offset a r xs f c,
    )

pub insert_region_fits :
    (r : Region) (rs : List Region)
    → r.start_offset ≤ r.end_offset
    → (lo hi : ℕ) → Packed lo hi rs
    → ((a : ℕ) → covers r a ≡ true → taken rs a ≡ false)
    → (out : List Region) × (insert_region r rs ≡ some out)
unfolding insert_region taken
insert_region_fits r [] o lo hi p free = (r ∷ [], refl)
insert_region_fits r (x ∷ xs) o lo hi (a, b, c, d) free = elim (Bool-cases (overlaps r x)) [
  | inl hit ↦ ground (arith, free (max r.start_offset x.start_offset))
  | inr miss ↦ elim (Bool-cases (ltb x.start_offset r.start_offset)) [
    | inl stop ↦ (r ∷ x ∷ xs, ground arith)
    | inr go ↦
        let (out, e) =
          insert_region_fits r xs o lo x.start_offset d (λ k ck. ground (arith, free k)) in
        (x ∷ out, ground arith)
  ]
]

pub All-handle_mono :
    (n : ℕ) (rs : List Region) → All (λ r. r.handle < n) rs → All (λ r. r.handle < suc n) rs
All-handle_mono n [] f = tt
All-handle_mono n (x ∷ xs) f = (omega arith, All-handle_mono n xs f.1)

pub insert_region-fresh :
    (n : ℕ) (r : Region) (rs out : List Region)
    → r.handle < n
    → All (λ x. x.handle < n) rs
    → insert_region r rs ≡ some out
    → All (λ x. x.handle < n) out
unfolding insert_region
insert_region-fresh n r [] out h f e = ground arith
insert_region-fresh n r (x ∷ xs) out h f e = elim (Option-cases (insert_region r xs)) [
  | inl stop ↦ ground arith
  | inr (ys, go) ↦ ground (arith, insert_region-fresh n r xs ys h f.1 go)
]
