-- ===== src/Mam/Reserve.antt =====
-- What `uvm_mem_mam::reserve_region` promises: it hands out exactly the free ranges of the managed
-- space, and a refusal changes nothing.
use uvm_systemc.Common.{
  ℕ, suc, ◌+◌, ◌-◌, ◌/◌, ◌^◌, ◌≤◌, ◌<◌, ◌≡◌, refl, true, false, ◌||◌, some, List, arith,
  Option-cases, inl, inr, ◌==◌, ltb, Bool-cases,
}
use uvm_systemc.Mam.{
  Region, Mam, Error, overlap, Reserved, region, null, last_offset, make_region, insert_region,
  reserve_region, store, zero_bytes, before_start, past_end,
}
use uvm_systemc.Mam.Layout.{
  IsValid, covers, taken, insert_region-Packed, insert_region-taken, insert_region_clash,
  insert_region_fits, insert_region-fresh, All-handle_mono,
}

-- The last location of `n` bytes from `start`, without the wrap of `unsigned long`.
abbrev pub last : Mam → ℕ → ℕ → ℕ
last m start n = start + (n - 1) / m.cfg.n_bytes

last_offset-last :
    (m : Mam) (start n : ℕ) → last m start n < 2 ^ 64 → last_offset m.cfg start n ≡ last m start n
last_offset-last m start n w = omega arith

-- The ways that a call can end, for a range whose end does not wrap.
pub reserve_region_cases {ℓ} :
    (P : Mam × Reserved → Type ℓ) (m : Mam) (start n : ℕ)
    → last m start n < 2 ^ 64
    → 0 < m.cfg.n_bytes
    → ((e : Error) → P (m, null e))
    → (0 < n
        → m.cfg.start_offset ≤ start
        → last m start n ≤ m.cfg.end_offset
        → let r = make_region m start (last m start n) in P (store m r (insert_region r m.in_use)))
    → P (reserve_region m start n)
unfolding reserve_region
reserve_region_cases P m start n w u refused tried = elim (Bool-cases (n == 0)) [
  | inl e ↦ rw e (refused zero_bytes)
  | inr e ↦ rw e (elim (Bool-cases (ltb start m.cfg.start_offset)) [
    | inl f ↦ rw f (refused before_start)
    | inr f ↦ rw f (elim (Bool-cases (m.cfg.n_bytes == 0)) [
      | inl g ↦ absurd (ground arith)
      | inr g ↦
          rw (g, last_offset-last m start n w)
            (elim (Bool-cases (ltb m.cfg.end_offset (last m start n))) [
              | inl h ↦ rw h (refused past_end)
              | inr h ↦ rw h (tried (ground arith) (ground arith) (ground arith))
            ])
    ])
  ])
]

stored :
    (m : Mam) (start n : ℕ)
    → IsValid m
    → last m start n < 2 ^ 64
    → last m start n ≤ m.cfg.end_offset
    → m.cfg.start_offset ≤ start
    → (out : List Region) → insert_region (make_region m start (last m start n)) m.in_use ≡ some out
    → IsValid (record m { in_use = out; next_handle = suc m.next_handle })
stored m start n v w fits low out e = record {
  unit = v.unit;
  packed =
      insert_region-Packed m.cfg.start_offset (make_region m start (last m start n)) low
        (omega arith) (suc m.cfg.end_offset) m.in_use out (omega arith) v.packed e;
  fresh =
      insert_region-fresh (suc m.next_handle) (make_region m start (last m start n)) m.in_use out
        (omega arith) (All-handle_mono m.next_handle m.in_use v.fresh) e;
}

-- Whatever is asked, a valid manager stays valid, provided that the end of the range does not wrap.
pub reserve_region-IsValid :
    (m : Mam) (start n : ℕ)
    → IsValid m
    → last m start n < 2 ^ 64
    → IsValid (reserve_region m start n).0
reserve_region-IsValid m start n v w =
    reserve_region_cases (λ p. IsValid p.0) m start n w v.unit (λ _. v)
      λ _ low fits.
        elim (Option-cases (insert_region (make_region m start (last m start n)) m.in_use)) [
          | inl clash ↦ rw (clash, store) v
          | inr (out, e) ↦ rw (e, store) (stored m start n v w fits low out e)
        ]

-- A call that returns a null pointer leaves the manager as it was.
pub reserve_region_refusal :
    (m m' : Mam) (start n : ℕ) (e : Error) → reserve_region m start n ≡ (m', null e) → m' ≡ m
unfolding reserve_region
reserve_region_refusal m m' start n e h =
    elim (Option-cases (insert_region (make_region m start (last_offset m.cfg start n)) m.in_use)) [
      | inl clash ↦ ground arith
      | inr (out, i) ↦ ground arith
    ]

-- In a valid manager, a range of at least one byte that lies in the managed space and holds no taken
-- address is granted from the offset that was asked for. The addresses taken afterwards are those
-- taken before and those of the new region, and the manager stays valid.
pub reserve_region_grants :
    (m : Mam) (start n : ℕ)
    → IsValid m
    → 0 < n
    → m.cfg.start_offset ≤ start
    → last m start n ≤ m.cfg.end_offset
    → m.cfg.end_offset < 2 ^ 64
    → ((a : ℕ) → start ≤ a → a ≤ last m start n → taken m.in_use a ≡ false)
    → (m' : Mam) × (r : Region) × (reserve_region m start n ≡ (m', region r))
      × IsValid m'
      × (r.start_offset ≡ start)
      × (r.end_offset ≡ last m start n)
      × ((a : ℕ) → taken m'.in_use a ≡ (covers r a || taken m.in_use a))
unfolding reserve_region
reserve_region_grants m start n v some_bytes low fits word free =
    let r = make_region m start (last m start n) in
    let (out, e) =
      insert_region_fits r m.in_use (omega arith) m.cfg.start_offset (suc m.cfg.end_offset) v.packed
        λ a c. free a (ground arith) (ground arith) in
    (
      record m { in_use = out; next_handle = suc m.next_handle },
      r,
      rw (last_offset-last m start n (omega arith)) (ground (arith, v.unit)),
      stored m start n v (omega arith) fits low out e,
      refl,
      refl,
      λ a. insert_region-taken a r m.in_use out e,
    )

-- In a valid manager, a range that holds a taken address is refused.
pub reserve_region_overlap :
    (m : Mam) (start n a : ℕ)
    → IsValid m
    → 0 < n
    → m.cfg.start_offset ≤ start
    → last m start n ≤ m.cfg.end_offset
    → m.cfg.end_offset < 2 ^ 64
    → start ≤ a
    → a ≤ last m start n
    → taken m.in_use a ≡ true
    → reserve_region m start n ≡ (m, null overlap)
unfolding reserve_region
reserve_region_overlap m start n a v some_bytes low fits word above below t =
    let clash =
      insert_region_clash m.cfg.start_offset (suc m.cfg.end_offset) a
        (make_region m start (last m start n)) m.in_use v.packed (ground arith) t in
    rw (last_offset-last m start n (omega arith)) (ground (arith, v.unit, clash))
