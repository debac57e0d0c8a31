-- ===== src/Mam/Defects.antt =====
-- Requests that the memory manager answers against its documentation: a range that wraps past the end
-- of `unsigned long`, and requests that leave the choice of the address to the default policy.
use uvm_systemc.Common.{
  ℕ, suc, ◌+◌, ◌^◌, ◌≤◌, ◌<◌, ◌≡◌, refl, true, false, none, [], ◌∷◌, arith, ◌⊎◌, inl, inr, ◌==◌,
}
use uvm_systemc.Mam.{
  Region, Mam, Error, region, null, overlap, last_offset, make_region, insert_region,
  reserve_region, request_region, fill_policy, store,
}
use uvm_systemc.Mam.Layout.{IsValid, taken, insert_region_clash}
use uvm_systemc.Mam.Reserve.{last, reserve_region_cases}

-- If the end of the range passes 2^64 by less than the managed space reaches, an empty manager grants
-- it, as a region that ends before it starts.
pub reserve_region_wraps :
    (m : Mam) (start n : ℕ)
    → m.in_use ≡ []
    → 0 < m.cfg.n_bytes
    → 0 < n
    → n < 2 ^ 32
    → start < 2 ^ 64
    → m.cfg.start_offset ≤ start
    → 2 ^ 64 ≤ last m start n
    → last m start n ≤ m.cfg.end_offset + 2 ^ 64
    → (m' : Mam) × (r : Region) × (reserve_region m start n ≡ (m', region r))
      × (r.end_offset < r.start_offset)
unfolding reserve_region insert_region
reserve_region_wraps m start n empty unit some_bytes int word low wraps fits =
    let r = make_region m start (last_offset m.cfg start n) in
    (
      record m { in_use = r ∷ []; next_handle = suc m.next_handle },
      r,
      rw empty (ground arith),
      ground arith,
    )

-- A request with no policy asks for offset 0, whatever is free: where the managed space starts above 0,
-- or address 0 is taken, it gets a null pointer with an error, and the
-- regions stay as they were.
pub request_region_default_null :
    (m : Mam) (n : ℕ)
    → IsValid m
    → 0 < n
    → n < 2 ^ 32
    → m.default_alloc.start_offset ≡ 0
    → (0 < m.cfg.start_offset) ⊎ (taken m.in_use 0 ≡ true)
    → let (m', alloc, out) = request_region m n none in
      (m'.in_use ≡ m.in_use) × ((e : Error) × (out ≡ null e))
unfolding request_region
request_region_default_null m n v some_bytes word zero_start why =
    let m₀ = record m { default_alloc = fill_policy m n m.default_alloc } in
    let start = m.default_alloc.start_offset in
    rw (positive-ne_zero m.cfg.n_bytes v.unit) (
      reserve_region_cases (λ p. (p.0.in_use ≡ m.in_use) × ((e : Error) × (p.1 ≡ null e))) m₀ start
        n (omega arith) v.unit (λ e. (refl, (e, refl)))
        λ _ low fits.
          let clash =
            insert_region_clash m.cfg.start_offset (suc m.cfg.end_offset) 0
              (make_region m₀ start (last m₀ start n)) m.in_use v.packed (ground arith)
              (not_above why (omega arith)) in
          rw (clash, store) (refl, (overlap, refl)))
  where
    positive-ne_zero : (k : ℕ) → 0 < k → (k == 0) ≡ false
    positive-ne_zero k h = ground arith

    not_above :
        (0 < m.cfg.start_offset) ⊎ (taken m.in_use 0 ≡ true)
        → m.cfg.start_offset ≤ 0
        → taken m.in_use 0 ≡ true
    not_above (inl above) low = absurd (omega arith)
    not_above (inr t) low = t
