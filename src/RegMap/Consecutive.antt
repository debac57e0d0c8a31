-- ===== src/RegMap/Consecutive.antt =====
-- The addresses that a map with word addresses and little-endian order takes at the top, where all the
-- maps above it are alike: get_physical_addresses of src/uvmsc/reg/uvm_reg_map.cpp.
use native.Mathlib.Nat.{div-eq_of_lt, div-add-mod}
use mathlib.Core.List.{map}
use uvm_systemc.Common.{
  ℕ, zero, suc, ◌+◌, ◌-◌, ◌*◌, ◌/◌, ◌%◌, ◌^◌, ◌≤◌, ◌<◌, ◌≡◌, refl, ap, sym, subst, ◌∙◌, false, List,
  [], ◌∷◌, ◌++◌, arith, leb, length, All, Bool-cases, inl, inr,
}
use uvm_systemc.RegMap.{
  Endianness, RegMap, word, ascending, local_addrs, each, scale, get_physical_addresses,
}
use uvm_systemc.RegMap.Coverage.{least_width, nonzero, get_physical_addresses-covers}
use uvm_systemc.RegMap.Order.{accesses}

-- `n` addresses of 64 bits, one after the other.
abbrev pub consecutive : ℕ → ℕ → List ℕ
consecutive zero a = []
consecutive (suc n) a = a % 2 ^ 64 ∷ consecutive n (suc a)

abbrev pub IsWordwise : RegMap → Type 0
IsWordwise m = (0 < m.n_bytes) × (m.byte_addressing ≡ false) × (m.endian ≡ Endianness.little_endian)

-- How many addresses at the top one address of the map becomes.
abbrev pub factor : RegMap → List RegMap → ℕ
factor m [] = 1
factor m (up ∷ ups) = ((m.n_bytes - 1) / up.n_bytes + 1) * factor up ups

-- Where the address 0 of the map is at the top.
abbrev pub origin : RegMap → List RegMap → ℕ
origin m [] = m.base_addr
origin m (up ∷ ups) = origin up ups + m.submap_offset * factor up ups

consecutive-word : (n a b : ℕ) → word a ≡ word b → consecutive n a ≡ consecutive n b
consecutive-word zero a b e = refl
consecutive-word (suc n) a b e =
    ap (λ x. x ∷ consecutive n (suc a)) e
    ∙ ap (λ xs. word b ∷ xs) (consecutive-word n (suc a) (suc b) (omega (arith, e)))

consecutive-append : (n k a : ℕ) → consecutive n a ++ consecutive k (a + n) ≡ consecutive (n + k) a
consecutive-append zero k a =
    ap (consecutive k) (plus_zero a) ∙ ap (λ j. consecutive j a) (zero_plus k)
  where
    plus_zero : (x : ℕ) → x + 0 ≡ x
    plus_zero x = omega arith

    zero_plus : (x : ℕ) → x ≡ 0 + x
    zero_plus x = omega arith
consecutive-append (suc n) k a =
    ap (λ xs. word a ∷ xs)
      (ap (λ b. consecutive n (suc a) ++ consecutive k b) (move a n)
        ∙ consecutive-append n k (suc a))
    ∙ ap (λ j. consecutive j a) (sum n k)
  where
    move : (x y : ℕ) → x + suc y ≡ suc x + y
    move x y = omega arith

    sum : (x y : ℕ) → suc (x + y) ≡ suc x + y
    sum x y = omega arith

ascending-consecutive : (n base i : ℕ) → ascending n base 1 i ≡ consecutive n (base + i)
ascending-consecutive zero base i = refl
ascending-consecutive (suc n) base i =
    ap (λ x. word (base + x) ∷ ascending n base 1 (suc i)) (omega arith)
    ∙ ap (λ xs. word (base + i) ∷ xs)
        (ascending-consecutive n base (suc i) ∙ ap (consecutive n) (omega arith))

length-consecutive : (n a : ℕ) → length (consecutive n a) ≡ n
length-consecutive zero a = refl
length-consecutive (suc n) a = ap suc (length-consecutive n (suc a))

map-consecutive :
    (top n a : ℕ) → map (λ x. word (x + top)) (consecutive n a) ≡ consecutive n (top + a)
map-consecutive top zero a = refl
map-consecutive top (suc n) a =
    ap (λ x. x ∷ map (λ x. word (x + top)) (consecutive n (suc a))) (omega arith)
    ∙ ap (λ xs. word (top + a) ∷ xs)
        (map-consecutive top n (suc a) ∙ ap (consecutive n) (omega arith))

word-mul : (x y k : ℕ) → word (x + word y * k) ≡ word (x + y * k)
word-mul x y k = omega (arith, split, expand)
  where
    split : 2 ^ 64 * (y / 2 ^ 64) + word y ≡ y
    split = div-add-mod y (2 ^ 64)

    expand : y * k ≡ 2 ^ 64 * (y / 2 ^ 64 * k) + word y * k
    expand = ap (λ z. z * k) (sym split) ∙ omega arith

-- Addresses that follow each other become blocks that follow each other.
each-consecutive :
    (above : ℕ → List ℕ × ℕ) (start k n a w : ℕ)
    → ((x : ℕ) → (above x).0 ≡ consecutive k (start + x * k))
    → (each above (consecutive n a) w).0 ≡ consecutive (n * k) (start + a * k)
each-consecutive above start k zero a w block = ap (λ j. consecutive j (start + a * k)) (none_of k)
  where
    none_of : (x : ℕ) → 0 ≡ 0 * x
    none_of x = omega arith
each-consecutive above start k (suc n) a w block =
    ap (λ xs. xs ++ (each above (consecutive n (suc a)) (above (word a)).1).0)
      (block (word a)
        ∙ consecutive-word k (start + word a * k) (start + a * k) (word-mul start a k))
    ∙ ap (λ xs. consecutive k (start + a * k) ++ xs)
        (each-consecutive above start k n (suc a) (above (word a)).1 block
          ∙ ap (consecutive (n * k)) (next start a k))
    ∙ consecutive-append k (n * k) (start + a * k)
    ∙ ap (λ j. consecutive j (start + a * k)) (one_more n k)
  where
    next : (x y z : ℕ) → x + suc y * z ≡ x + y * z + z
    next x y z = omega arith

    one_more : (x y : ℕ) → y + x * y ≡ suc x * y
    one_more x y = omega arith

-- The local addresses of a map with word addresses.
local_addrs-consecutive :
    (m : RegMap) (base mem_offset n_bytes : ℕ)
    → IsWordwise m
    → 0 < n_bytes
    → local_addrs m base mem_offset n_bytes
      ≡ consecutive (accesses m n_bytes) (base + mem_offset * accesses m n_bytes)
unfolding local_addrs
local_addrs-consecutive m base mem_offset n_bytes ok pos =
    elim (Bool-cases (leb n_bytes m.n_bytes)) [
      | inl one ↦
          let few : (n_bytes - 1) / m.n_bytes ≡ 0 = div-eq_of_lt (ground (arith, pos)) in
          rw (one, ok.1, few) refl
      | inr more ↦
          let n = accesses m n_bytes in
          rw (more, ok.1, ok.2)
            (ascending-consecutive n (word (base + mem_offset * (n * 1))) 0
              ∙ consecutive-word n (word (base + mem_offset * (n * 1)) + 0) (base + mem_offset * n)
                  (start base mem_offset n))
    ]
  where
    start : (b j n : ℕ) → word (word (b + j * (n * 1)) + 0) ≡ word (b + j * n)
    start b j n = omega arith

scale_factor :
    (m up : RegMap) → 0 < m.n_bytes → 0 < up.n_bytes → scale m up ≡ (m.n_bytes - 1) / up.n_bytes + 1
scale_factor m up pos pos_up = elim (Bool-cases (leb up.n_bytes m.n_bytes)) [
  | inl narrow ↦ rw narrow refl
  | inr wide ↦
      let short : m.n_bytes - 1 < up.n_bytes = ground (arith, pos) in
      rw (wide, div-eq_of_lt short) refl
]

-- An address of the map in its parent.
in_parent :
    (m up : RegMap) (ups : List RegMap) (a : ℕ)
    → let k = accesses up m.n_bytes in
      consecutive
        (k * factor up ups)
        (origin up ups + (word (m.submap_offset + a * k) + 0 * k) * factor up ups)
      ≡ consecutive (factor m (up ∷ ups)) (origin m (up ∷ ups) + a * factor m (up ∷ ups))
in_parent m up ups a =
    let k = accesses up m.n_bytes in
    consecutive-word (k * factor up ups)
      (origin up ups + (word (m.submap_offset + a * k) + 0 * k) * factor up ups)
      (origin m (up ∷ ups) + a * factor m (up ∷ ups))
      (ap (λ x. word (origin up ups + x * factor up ups))
          (plus_none (word (m.submap_offset + a * k)) k)
        ∙ word-mul (origin up ups) (m.submap_offset + a * k) (factor up ups)
        ∙ ap word (moved (origin up ups) m.submap_offset a k (factor up ups)))
  where
    plus_none : (x y : ℕ) → x + 0 * y ≡ x
    plus_none x y = omega arith

    moved : (o s a k f : ℕ) → o + (s + a * k) * f ≡ o + s * f + a * (k * f)
    moved o s a k f = omega arith

-- The addresses of a whole register or memory location.
addresses-consecutive :
    (m : RegMap) (ups : List RegMap) (base mem_offset n_bytes : ℕ)
    → 0 < n_bytes
    → All IsWordwise (m ∷ ups)
    → (get_physical_addresses m ups base mem_offset n_bytes).0
      ≡ consecutive
          (accesses m n_bytes * factor m ups)
          (origin m ups + (base + mem_offset * accesses m n_bytes) * factor m ups)
unfolding get_physical_addresses
addresses-consecutive m [] base mem_offset n_bytes pos ok =
    let n = accesses m n_bytes in
    let a = base + mem_offset * n in
    rw (nonzero n_bytes pos, local_addrs-consecutive m base mem_offset n_bytes ok.0 pos)
      (map-consecutive m.base_addr n a
        ∙ ap (λ j. consecutive j (m.base_addr + a)) (once n)
        ∙ ap (λ x. consecutive (n * 1) (m.base_addr + x)) (once a))
  where
    once : (x : ℕ) → x ≡ x * 1
    once x = omega arith
addresses-consecutive m (up ∷ ups) base mem_offset n_bytes pos ok =
    let n = accesses m n_bytes in
    let above = λ (a : ℕ).
      get_physical_addresses up ups (word (m.submap_offset + a * scale m up)) 0 m.n_bytes in
    rw (nonzero n_bytes pos, local_addrs-consecutive m base mem_offset n_bytes ok.0 pos)
      (each-consecutive above (origin m (up ∷ ups)) (factor m (up ∷ ups)) n (base + mem_offset * n)
        m.n_bytes
        (λ a.
          ap (λ k. (get_physical_addresses up ups (word (m.submap_offset + a * k)) 0 m.n_bytes).0)
            (scale_factor m up ok.0.0 ok.1.0.0)
          ∙ addresses-consecutive up ups (word (m.submap_offset + a * accesses up m.n_bytes)) 0
              m.n_bytes ok.0.0 ok.1
          ∙ in_parent m up ups a))

-- Where a map and all those above it have word addresses and little-endian order, and a bus of a byte at
-- least, a register, or a location of a memory, is at consecutive addresses at the top: from the origin of
-- the map there on, each address of the map taking as many as its bus is wider. Accessed with the width
-- that is answered, which is the least from the map to the top, they take in all the bytes asked for.
pub get_physical_addresses-consecutive :
    (m : RegMap) (ups : List RegMap) (base mem_offset n_bytes : ℕ)
    → 0 < n_bytes
    → All IsWordwise (m ∷ ups)
    → let (addrs, width) = get_physical_addresses m ups base mem_offset n_bytes in
      let n = accesses m n_bytes in
      (addrs
        ≡ consecutive (n * factor m ups) (origin m ups + (base + mem_offset * n) * factor m ups))
      × (width ≡ least_width m ups)
      × (n_bytes ≤ width * (n * factor m ups))
get_physical_addresses-consecutive m ups base mem_offset n_bytes pos ok =
    let n = accesses m n_bytes in
    let covers =
      get_physical_addresses-covers m ups base mem_offset n_bytes pos (widths (m ∷ ups) ok) in
    let placed = addresses-consecutive m ups base mem_offset n_bytes pos ok in
    let count =
      ap length placed
      ∙ length-consecutive (n * factor m ups)
          (origin m ups + (base + mem_offset * n) * factor m ups) in
    (placed, covers.0, rw covers.0 (subst (λ k. n_bytes ≤ least_width m ups * k) count covers.1))
  where
    widths : (ms : List RegMap) → All IsWordwise ms → All (λ (u : RegMap). 0 < u.n_bytes) ms
    widths [] ok = tt
    widths (u ∷ us) ok = (ok.0.0, widths us ok.1)
