-- ===== src/RegMap/Coverage.antt =====
-- The number of the physical addresses, and the width of the accesses.
use native.Mathlib.Nat.{mul-le-mul_left, div-add-mod, mod-lt}
use mathlib.Core.List.{map}
use uvm_systemc.Common.{
  ℕ, zero, suc, ◌+◌, ◌-◌, ◌*◌, ◌/◌, ◌≤◌, ◌<◌, ◌≡◌, refl, ap, ◌∙◌, false, List, [], ◌∷◌, ◌++◌, arith,
  ◌==◌, ltb, leb, if◌then◌else◌, replicate, length, length-append, All, Bool-cases, inl, inr,
}
use uvm_systemc.RegMap.{
  Endianness, RegMap, word, multiplier, ascending, descending, spread, local_addrs, each, scale,
  get_physical_addresses,
}

-- The width that the addresses of a map are accessed with: the least from the map to the top.
abbrev pub least_width : RegMap → List RegMap → ℕ
least_width m [] = m.n_bytes
least_width m (up ∷ ups) =
    if ltb (least_width up ups) m.n_bytes then least_width up ups else m.n_bytes

length-ascending : (n base step i : ℕ) → length (ascending n base step i) ≡ n
length-ascending zero base step i = refl
length-ascending (suc n) base step i = ap suc (length-ascending n base step (suc i))

length-descending : (n base step : ℕ) → length (descending n base step) ≡ n
length-descending zero base step = refl
length-descending (suc n) base step = ap suc (length-descending n base step)

length-replicate : (n x : ℕ) → length (replicate n x) ≡ n
length-replicate zero x = refl
length-replicate (suc n) x = ap suc (length-replicate n x)

length-spread : (e : Endianness) (n base step : ℕ) → length (spread e n base step) ≡ n
length-spread Endianness.no_endian n base step = length-replicate n 0
length-spread Endianness.little_endian n base step = length-ascending n base step 0
length-spread Endianness.big_endian n base step = length-descending n base step
length-spread Endianness.little_fifo n base step = length-replicate n base
length-spread Endianness.big_fifo n base step = length-replicate n base

length-map : (f : ℕ → ℕ) (xs : List ℕ) → length (map f xs) ≡ length xs
length-map f [] = refl
length-map f (x ∷ xs) = ap suc (length-map f xs)

-- Whole accesses of a width reach all of a number of bytes.
rounded_up : (n w : ℕ) → 0 < w → n ≤ ((n - 1) / w + 1) * w
rounded_up n w pos = omega (arith, div-add-mod (n - 1) w, mod-lt (n - 1) pos)

-- The local addresses, one to an access of the map's width, are enough.
local_addrs-enough :
    (m : RegMap) (base mem_offset n_bytes : ℕ)
    → 0 < m.n_bytes
    → (n_bytes ≤ length (local_addrs m base mem_offset n_bytes) * m.n_bytes)
      × (0 < length (local_addrs m base mem_offset n_bytes))
unfolding local_addrs
local_addrs-enough m base mem_offset n_bytes pos = elim (Bool-cases (leb n_bytes m.n_bytes)) [
  | inl one ↦ rw one (ground arith, omega arith)
  | inr more ↦
      let n = (n_bytes - 1) / m.n_bytes + 1 in
      let e =
        length-spread m.endian n (word (base + mem_offset * (n * multiplier m))) (multiplier m) in
      rw (more, e) (rounded_up n_bytes m.n_bytes pos, omega arith)
]

-- What a translation into the map above answers, for any address.
record IsEnough (above : ℕ → List ℕ × ℕ) (w need : ℕ) : Type 0 where
  width : (a : ℕ) → (above a).1 ≡ w
  enough : (a : ℕ) → need ≤ w * length (above a).0
  some_address : (a : ℕ) → 0 < length (above a).0

each-width :
    (above : ℕ → List ℕ × ℕ) (w : ℕ) (xs : List ℕ) (w0 : ℕ)
    → ((a : ℕ) → (above a).1 ≡ w)
    → 0 < length xs
    → (each above xs w0).1 ≡ w
each-width above w [] w0 same pos = absurd (omega arith)
each-width above w (x ∷ []) w0 same pos = same x
each-width above w (x ∷ y ∷ xs) w0 same pos =
    each-width above w (y ∷ xs) (above x).1 same (omega arith)

each-covers :
    (above : ℕ → List ℕ × ℕ) (w need : ℕ) (xs : List ℕ) (w0 : ℕ)
    → IsEnough above w need
    → (length xs * need ≤ w * length (each above xs w0).0)
      × (length xs ≤ length (each above xs w0).0)
each-covers above w need [] w0 c = (omega arith, omega arith)
each-covers above w need (x ∷ xs) w0 c =
    let rest = each-covers above w need xs (above x).1 c in
    let e = length-append (above x).0 (each above xs (above x).1).0 in
    let product : w * length ((above x).0 ++ (each above xs (above x).1).0)
        ≡ w * length (above x).0 + w * length (each above xs (above x).1).0 =
      ap (λ n. w * n) e ∙ omega arith in
    (omega (arith, product, rest.0, c.enough x), omega (arith, e, rest.1, c.some_address x))

-- The scale to a smaller width.
narrowed :
    (nb n bus w total : ℕ)
    → nb ≤ n * bus
    → n * bus ≤ w * total
    → n ≤ total
    → nb ≤ (if ltb w bus then w else bus) * total
narrowed nb n bus w total a b c = elim (Bool-cases (ltb w bus)) [
  | inl less ↦ rw less (omega (arith, a, b))
  | inr more ↦ rw more (omega (arith, a, mul-le-mul_left bus c))
]

pub nonzero : (n : ℕ) → 0 < n → (n == 0) ≡ false
nonzero n pos = ground arith

-- If every map has a bus of at least a byte, the width that is answered is the least from the map to the
-- top, and there are as many addresses as accesses of that width to all the bytes need.
pub get_physical_addresses-covers :
    (m : RegMap) (ups : List RegMap) (base mem_offset n_bytes : ℕ)
    → 0 < n_bytes
    → All (λ (u : RegMap). 0 < u.n_bytes) (m ∷ ups)
    → ((get_physical_addresses m ups base mem_offset n_bytes).1 ≡ least_width m ups)
      × (n_bytes
          ≤ least_width m ups * length (get_physical_addresses m ups base mem_offset n_bytes).0)
      × (0 < length (get_physical_addresses m ups base mem_offset n_bytes).0)
unfolding get_physical_addresses
get_physical_addresses-covers m [] base mem_offset n_bytes pos widths =
    let locals = local_addrs-enough m base mem_offset n_bytes widths.0 in
    let e = length-map (λ a. word (a + m.base_addr)) (local_addrs m base mem_offset n_bytes) in
    rw (nonzero n_bytes pos, e) (refl, omega (arith, locals.0), locals.1)
get_physical_addresses-covers m (up ∷ ups) base mem_offset n_bytes pos widths =
    let locals = local_addrs-enough m base mem_offset n_bytes widths.0 in
    let xs = local_addrs m base mem_offset n_bytes in
    let above = λ (a : ℕ).
      get_physical_addresses up ups (word (m.submap_offset + a * scale m up)) 0 m.n_bytes in
    let w = least_width up ups in
    let c : IsEnough above w m.n_bytes = record {
      width = λ a.
          (get_physical_addresses-covers up ups (word (m.submap_offset + a * scale m up)) 0
            m.n_bytes widths.0 widths.1).0;
      enough = λ a.
          (get_physical_addresses-covers up ups (word (m.submap_offset + a * scale m up)) 0
            m.n_bytes widths.0 widths.1).1;
      some_address = λ a.
          (get_physical_addresses-covers up ups (word (m.submap_offset + a * scale m up)) 0
            m.n_bytes widths.0 widths.1).2;
    } in
    let all = each-covers above w m.n_bytes xs m.n_bytes c in
    let e = each-width above w xs m.n_bytes c.width locals.1 in
    rw (nonzero n_bytes pos, e)
      (
        refl,
        narrowed n_bytes (length xs) m.n_bytes w (length (each above xs m.n_bytes).0) locals.0 all.0
            all.1,
        omega (arith, locals.1, all.1),
      )
