-- ===== src/RegMap/Order.antt =====
-- The order of the addresses of a map at the top.
use native.Mathlib.Nat.{div-eq_of_lt}
use mathlib.Core.List.{map}
use uvm_systemc.Common.{
  ℕ, zero, suc, ◌+◌, ◌-◌, ◌*◌, ◌/◌, ◌<◌, ◌≡◌, ◌≢◌, refl, ap, sym, ◌∙◌, some, List, [], ◌∷◌, arith,
  leb, replicate, get_elem?, Bool-cases, inl, inr,
}
use uvm_systemc.RegMap.{
  Endianness, RegMap, word, multiplier, ascending, descending, spread, local_addrs,
  get_physical_addresses,
}
use uvm_systemc.RegMap.Coverage.{nonzero}

-- The number of accesses to a register or a memory location.
abbrev pub accesses : RegMap → ℕ → ℕ
accesses m n_bytes = (n_bytes - 1) / m.n_bytes + 1

-- Which of its addresses the access of a number goes to.
abbrev pub place : Endianness → ℕ → ℕ → ℕ
place Endianness.no_endian n i = i
place Endianness.little_endian n i = i
place Endianness.big_endian n i = n - 1 - i
place Endianness.little_fifo n i = 0
place Endianness.big_fifo n i = 0

get_elem-ascending :
    (n base step j i : ℕ)
    → i < n
    → get_elem? (ascending n base step j) i ≡ some (word (base + (j + i) * step))
get_elem-ascending zero base step j i h = absurd (omega arith)
get_elem-ascending (suc n) base step j zero h =
    ap (λ k. some (word (base + k * step))) (omega arith)
get_elem-ascending (suc n) base step j (suc i) h =
    get_elem-ascending n base step (suc j) i (omega arith)
    ∙ ap (λ k. some (word (base + k * step))) (omega arith)

get_elem-descending :
    (n base step i : ℕ)
    → i < n
    → get_elem? (descending n base step) i ≡ some (word (base + (n - 1 - i) * step))
get_elem-descending zero base step i h = absurd (omega arith)
get_elem-descending (suc n) base step zero h = ap (λ k. some (word (base + k * step))) (omega arith)
get_elem-descending (suc n) base step (suc i) h =
    get_elem-descending n base step i (omega arith)
    ∙ ap (λ k. some (word (base + k * step))) (omega (arith, h))

get_elem-replicate : (n x i : ℕ) → i < n → get_elem? (replicate n x) i ≡ some x
get_elem-replicate zero x i h = absurd (omega arith)
get_elem-replicate (suc n) x zero h = refl
get_elem-replicate (suc n) x (suc i) h = get_elem-replicate n x i (omega arith)

word_at_zero : (base step : ℕ) → word base ≡ base → some base ≡ some (word (base + 0 * step))
word_at_zero base step small = ap some (sym small ∙ ap word (plus base (0 * step) zero_times))
  where
    zero_times : 0 * step ≡ 0
    zero_times = omega arith

    plus : (a b : ℕ) → b ≡ 0 → a ≡ a + b
    plus a b e = omega (arith, e)

get_elem-spread :
    (e : Endianness) (n base step i : ℕ)
    → e ≢ Endianness.no_endian
    → word base ≡ base
    → i < n
    → get_elem? (spread e n base step) i ≡ some (word (base + place e n i * step))
get_elem-spread Endianness.no_endian n base step i known small h = absurd (known refl)
get_elem-spread Endianness.little_endian n base step i known small h =
    get_elem-ascending n base step 0 i h ∙ ap (λ k. some (word (base + k * step))) (omega arith)
get_elem-spread Endianness.big_endian n base step i known small h =
    get_elem-descending n base step i h
get_elem-spread Endianness.little_fifo n base step i known small h =
    get_elem-replicate n base i h ∙ word_at_zero base step small
get_elem-spread Endianness.big_fifo n base step i known small h =
    get_elem-replicate n base i h ∙ word_at_zero base step small

get_elem-map :
    (f : ℕ → ℕ) (xs : List ℕ) (i x : ℕ)
    → get_elem? xs i ≡ some x
    → get_elem? (map f xs) i ≡ some (f x)
get_elem-map f [] i x e = absurd (cc)
get_elem-map f (y ∷ xs) zero x e = cc
get_elem-map f (y ∷ xs) (suc i) x e = get_elem-map f xs i x e

place_of_one : (e : Endianness) (i : ℕ) → i < 1 → place e 1 i ≡ 0
place_of_one Endianness.no_endian i h = omega arith
place_of_one Endianness.little_endian i h = omega arith
place_of_one Endianness.big_endian i h = omega arith
place_of_one Endianness.little_fifo i h = refl
place_of_one Endianness.big_fifo i h = refl

word-word : (a : ℕ) → word (word a) ≡ word a
word-word a = omega arith

sum_of_words :
    (top base s t : ℕ) → word (word (word (base + s) + t) + top) ≡ word (top + base + (s + t))
sum_of_words top base s t = omega arith

steps : (j n i step : ℕ) → j * (n * step) + i * step ≡ (j * n + i) * step
steps j n i step = omega arith

outer : (top base s t : ℕ) → s ≡ t → word (word (base + s) + top) ≡ word (top + base + t)
outer top base s t e = omega (arith, e)

local_place :
    (m : RegMap) (base mem_offset n_bytes i : ℕ)
    → 0 < n_bytes
    → m.endian ≢ Endianness.no_endian
    → i < accesses m n_bytes
    → (a : ℕ) × (get_elem? (local_addrs m base mem_offset n_bytes) i ≡ some a)
      × ((top : ℕ)
          → word (a + top)
            ≡ word (
                top
                + base
                + (mem_offset * accesses m n_bytes + place m.endian (accesses m n_bytes) i)
                  * multiplier m))
unfolding local_addrs
local_place m base mem_offset n_bytes i pos known h = elim (Bool-cases (leb n_bytes m.n_bytes)) [
  | inl one ↦
      let few : accesses m n_bytes ≡ 1 = ap (λ q. q + 1) (div-eq_of_lt (ground (arith, pos))) in
      let first : i ≡ 0 = omega (arith, h, few) in
      rw (one, few, first)
        (
          word (base + mem_offset * multiplier m),
          refl,
          λ top.
              single top mem_offset (place m.endian 1 0) (multiplier m)
                (place_of_one m.endian 0 (omega arith)),
        )
  | inr more ↦
      let n = accesses m n_bytes in
      let start = word (base + mem_offset * (n * multiplier m)) in
      rw more (
        word (start + place m.endian n i * multiplier m),
        get_elem-spread m.endian n start (multiplier m) i known
            (word-word (base + mem_offset * (n * multiplier m))) h,
        λ top.
            sum_of_words top base (mem_offset * (n * multiplier m))
              (place m.endian n i * multiplier m)
            ∙ ap (λ x. word (top + base + x))
                (steps mem_offset n (place m.endian n i) (multiplier m)),
      )
]
  where
    single :
        (top j p step : ℕ)
        → p ≡ 0
        → word (word (base + j * step) + top) ≡ word (top + base + (j * 1 + p) * step)
    single top j p step e = rw e (outer top base (j * step) ((j * 1 + 0) * step) (omega arith))

-- At a map without parents, the accesses to a register, or to the locations of a memory one after the
-- other, take the addresses one step of the map apart from its base address and the offset on: those of
-- one location in ascending order for a little-endian map, in descending order for a big-endian one, and
-- all at the first address of the location for a FIFO. The map has an endianness.
pub get_physical_addresses-place :
    (m : RegMap) (base mem_offset n_bytes i : ℕ)
    → 0 < n_bytes
    → m.endian ≢ Endianness.no_endian
    → i < accesses m n_bytes
    → get_elem? (get_physical_addresses m [] base mem_offset n_bytes).0 i
      ≡ some (
          word (
            m.base_addr
            + base
            + (mem_offset * accesses m n_bytes + place m.endian (accesses m n_bytes) i)
              * multiplier m))
unfolding get_physical_addresses
get_physical_addresses-place m base mem_offset n_bytes i pos known h =
    let (a, found, sum) = local_place m base mem_offset n_bytes i pos known h in
    rw (nonzero n_bytes pos) (
      get_elem-map (λ x. word (x + m.base_addr)) (local_addrs m base mem_offset n_bytes) i a found
      ∙ ap some (sum m.base_addr))
