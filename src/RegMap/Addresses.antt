-- ===== src/RegMap/Addresses.antt =====
-- Where the physical addresses lie.
use native.Mathlib.Nat.{div-eq_of_lt}
use mathlib.Core.List.{append-nil}
use uvm_systemc.Common.{
  ℕ, ◌+◌, ◌-◌, ◌*◌, ◌/◌, ◌≤◌, ◌<◌, ◌≡◌, refl, ap, ◌∙◌, true, List, [], ◌∷◌, arith, leb, Bool-cases,
  inl, inr,
}
use uvm_systemc.RegMap.{
  RegMap, word, multiplier, local_addrs, each, scale, get_physical_addresses, get_base_addr,
}
use uvm_systemc.RegMap.Coverage.{nonzero}

word-word_left : (a b : ℕ) → word (word a + b) ≡ word (a + b)
word-word_left a b = omega arith

-- Local addresses are not scaled for a bus that is as wide or wider.
scale_wide : (m up : RegMap) → 0 < m.n_bytes → m.n_bytes ≤ up.n_bytes → scale m up ≡ 1
scale_wide m up pos wide = elim (Bool-cases (leb up.n_bytes m.n_bytes)) [
  | inl equal ↦
      let quotient : (m.n_bytes - 1) / up.n_bytes ≡ 0 = div-eq_of_lt (omega (arith, pos, wide)) in
      rw (equal, quotient) refl
  | inr wider ↦ rw wider refl
]

-- One access of a map.
pub local_addrs_one :
    (m : RegMap) (base mem_offset n_bytes : ℕ)
    → n_bytes ≤ m.n_bytes
    → local_addrs m base mem_offset n_bytes ≡ word (base + mem_offset * multiplier m) ∷ []
unfolding local_addrs
local_addrs_one m base mem_offset n_bytes fits =
    let one : leb n_bytes m.n_bytes ≡ true = ground (arith, fits) in rw one refl

-- No map's bus is wider than its parent's.
abbrev pub Widens : RegMap → List RegMap → Type 0
Widens m [] = Unit
Widens m (up ∷ ups) = (m.n_bytes ≤ up.n_bytes) × Widens up ups

each-one : (above : ℕ → List ℕ × ℕ) (a w : ℕ) → (each above (a ∷ []) w).0 ≡ (above a).0
each-one above a w = append-nil (above a).0

translated :
    (offset a above : ℕ)
    → word (word (offset + word a * 1) + above) ≡ word (a + word (offset + above))
translated offset a above = omega arith

-- If no map's bus is wider than its parent's, an access of at most the map's width takes one address: the
-- offset, and the index in a memory times the step of the map, added to the base address that
-- `get_base_addr` gives over the hierarchy.
pub get_physical_addresses-get_base_addr :
    (m : RegMap) (ups : List RegMap) (base mem_offset n_bytes : ℕ)
    → 0 < n_bytes
    → n_bytes ≤ m.n_bytes
    → Widens m ups
    → (get_physical_addresses m ups base mem_offset n_bytes).0
      ≡ word (base + mem_offset * multiplier m + get_base_addr m ups) ∷ []
unfolding get_physical_addresses get_base_addr
get_physical_addresses-get_base_addr m [] base mem_offset n_bytes pos fits widens =
    rw (nonzero n_bytes pos, local_addrs_one m base mem_offset n_bytes fits)
      (ap (λ a. a ∷ []) (word-word_left (base + mem_offset * multiplier m) m.base_addr))
get_physical_addresses-get_base_addr m (up ∷ ups) base mem_offset n_bytes pos fits widens =
    let a = word (base + mem_offset * multiplier m) in
    let above = λ (x : ℕ).
      get_physical_addresses up ups (word (m.submap_offset + x * scale m up)) 0 m.n_bytes in
    let next =
      get_physical_addresses-get_base_addr up ups (word (m.submap_offset + a * 1)) 0 m.n_bytes
        (omega (arith, pos, fits)) widens.0 widens.1 in
    rw (nonzero n_bytes pos, local_addrs_one m base mem_offset n_bytes fits)
      (each-one above a m.n_bytes
        ∙ ap (λ k. (get_physical_addresses up ups (word (m.submap_offset + a * k)) 0 m.n_bytes).0)
            (scale_wide m up (omega (arith, pos, fits)) widens.0)
        ∙ next
        ∙ ap (λ x. x ∷ [])
            (ap (λ x. word (word (m.submap_offset + a * 1) + x + get_base_addr up ups))
                (zero_times (multiplier up))
              ∙ ap (λ x. word (x + get_base_addr up ups))
                  (plus_zero (word (m.submap_offset + a * 1)))
              ∙ translated m.submap_offset (base + mem_offset * multiplier m)
                  (get_base_addr up ups)))
  where
    zero_times : (n : ℕ) → 0 * n ≡ 0
    zero_times n = omega arith

    plus_zero : (n : ℕ) → n + 0 ≡ n
    plus_zero n = omega arith
