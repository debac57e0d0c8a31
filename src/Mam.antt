-- ===== src/Mam.antt =====
-- The memory allocation manager: src/uvmsc/reg/uvm_mem_mam.cpp, with the records of
-- uvm_mem_mam_cfg.h, uvm_mem_mam_policy.h and uvm_mem_region.h.
-- A `uvm_mem_region*` is a record that carries its address as `handle`; `new` takes the next unused
-- one. `unsigned long` has 64 bits and `unsigned int` 32; both wrap. A division by zero is `fault`.
-- The messages, file names and line numbers that a call only reports are left out.
pub mod Layout
pub mod Reserve
pub mod Release
pub mod Iterate
pub mod Defects
mod Samples
use uvm_systemc.Common.{
  ℕ, zero, suc, ◌+◌, ◌-◌, ◌*◌, ◌/◌, ◌%◌, ◌^◌, Bool, true, false, ◌&&◌, ◌||◌, Option, none, some,
  List, [], ◌∷◌, ltb, leb, ◌==◌, if◌then◌else◌, length, get_elem?,
}
use mathlib.Core.Option

abbrev pub wrap32 : ℕ → ℕ
wrap32 n = n % 2 ^ 32

abbrev pub wrap64 : ℕ → ℕ
wrap64 n = n % 2 ^ 64

-- The allocation mode and the locality are stored and never read by the manager.
pub data Mode : Type 0 where
  greedy thrifty : Mode

pub data Locality : Type 0 where
  broad nearby : Locality

pub record Config : Type 0 where
  pub n_bytes : ℕ
  pub start_offset : ℕ
  pub end_offset : ℕ
  pub mode : Mode
  pub locality : Locality

pub record Region : Type 0 where
  pub handle : ℕ
  pub start_offset : ℕ
  pub end_offset : ℕ
  pub len : ℕ
  pub n_bytes : ℕ

pub record Policy : Type 0 where
  pub len : ℕ
  pub start_offset : ℕ
  pub min_offset : ℕ
  pub max_offset : ℕ
  pub in_use : List Region

-- `for_each_next` is `m_for_each_idx + 1`, which starts at 0.
pub record Mam : Type 0 where
  pub cfg : Config
  pub in_use : List Region
  pub default_alloc : Policy
  pub for_each_next : ℕ
  pub next_handle : ℕ

abbrev pub new_policy : Policy
new_policy = record { len = 0; start_offset = 0; min_offset = 0; max_offset = 0; in_use = [] }

unfoldable pub new_mam : Config → Mam
new_mam cfg = record {
  cfg = cfg;
  in_use = [];
  default_alloc = new_policy;
  for_each_next = 0;
  next_handle = 0;
}

pub data Error : Type 0 where
  zero_bytes before_start past_end overlap n_bytes_differ region_outside not_allocated : Error

-- A returned region, a null pointer with the error reported, or a division by zero.
pub data Reserved : Type 0 where
  region : Region → Reserved
  null : Error → Reserved
  fault : Reserved

abbrev pub overlaps : Region → Region → Bool
overlaps r x = leb r.start_offset x.end_offset && leb x.start_offset r.end_offset

-- The loop of `reserve_region`: `none` is an overlap.
unfoldable pub insert_region : Region → List Region → Option (List Region)
insert_region r [] = some (r ∷ [])
insert_region r (x ∷ xs) =
    if overlaps r x
    then none
    else if ltb x.start_offset r.start_offset
    then some (r ∷ x ∷ xs)
    else Option.map (λ ys. x ∷ ys) (insert_region r xs)

-- `start_offset + ((n_bytes-1) / m_cfg->n_bytes)`
abbrev pub last_offset : Config → ℕ → ℕ → ℕ
last_offset cfg start n = wrap64 (start + (n - 1) / cfg.n_bytes)

abbrev pub make_region : Mam → ℕ → ℕ → Region
make_region m start last = record {
  handle = m.next_handle;
  start_offset = start;
  end_offset = last;
  len = wrap32 (last + 2 ^ 64 - start + 1);
  n_bytes = wrap32 (wrap64 (last + 2 ^ 64 - start + 1) * m.cfg.n_bytes);
}

abbrev pub store : Mam → Region → Option (List Region) → Mam × Reserved
store m r none = (m, null overlap)
store m r (some rs) = (record m { in_use = rs; next_handle = suc m.next_handle }, region r)

unfoldable pub reserve_region : Mam → ℕ → ℕ → Mam × Reserved
reserve_region m start n =
    if n == 0
    then (m, null zero_bytes)
    else if ltb start m.cfg.start_offset
    then (m, null before_start)
    else if m.cfg.n_bytes == 0
    then (m, fault)
    else if ltb m.cfg.end_offset (last_offset m.cfg start n)
    then (m, null past_end)
    else let r = make_region m start (last_offset m.cfg start n) in
      store m r (insert_region r m.in_use)

-- What `request_region` writes into the policy that it uses. `n_bytes-1` is an `unsigned int`.
abbrev pub fill_policy : Mam → ℕ → Policy → Policy
fill_policy m n alloc = record alloc {
  len = wrap32 (wrap32 (n + 2 ^ 32 - 1) / m.cfg.n_bytes + 1);
  min_offset = m.cfg.start_offset;
  max_offset = m.cfg.end_offset;
  in_use = m.in_use;
}

-- A null `alloc` stands for the manager's own policy object. The second part is the caller's policy
-- object after the call.
unfoldable pub request_region : Mam → ℕ → Option Policy → Mam × Option Policy × Reserved
request_region m n none =
    if m.cfg.n_bytes == 0
    then (m, none, fault)
    else let alloc = fill_policy m n m.default_alloc in
      let (m', out) = reserve_region (record m { default_alloc = alloc }) alloc.start_offset n in
      (m', none, out)
request_region m n (some alloc) =
    if m.cfg.n_bytes == 0
    then (m, some alloc, fault)
    else let alloc' = fill_policy m n alloc in
      let (m', out) = reserve_region m alloc'.start_offset n in (m', some alloc', out)

-- `m_in_use.erase(it)` at the first entry that is the given pointer; `none` if there is none.
unfoldable pub erase_region : ℕ → List Region → Option (List Region)
erase_region h [] = none
erase_region h (x ∷ xs) =
    if x.handle == h then some xs else Option.map (λ ys. x ∷ ys) (erase_region h xs)

abbrev released : Mam → Option (List Region) → Mam × Option Error
released m none = (m, some not_allocated)
released m (some rs) = (record m { in_use = rs }, none)

-- A null pointer is ignored. The second part is the error reported.
unfoldable pub release_region : Mam → Option ℕ → Mam × Option Error
release_region m none = (m, none)
release_region m (some h) = released m (erase_region h m.in_use)

unfoldable pub release_all_regions : Mam → Mam
release_all_regions m = record m { in_use = [] }

unfoldable pub all_within : Config → List Region → Bool
all_within cfg [] = true
all_within cfg (x ∷ xs) =
    if ltb x.start_offset cfg.start_offset || ltb cfg.end_offset x.end_offset
    then false
    else all_within cfg xs

-- The new manager, the configuration returned and the error reported.
unfoldable pub reconfigure : Mam → Option Config → Mam × Config × Option Error
unfolding all_within
reconfigure m none = (m, m.cfg, none)
reconfigure m (some cfg) =
    if cfg.n_bytes == m.cfg.n_bytes
    then (if all_within cfg m.in_use
        then (record m { cfg = cfg }, m.cfg, none)
        else (m, m.cfg, some region_outside))
    else (m, m.cfg, some n_bytes_differ)

unfoldable pub for_each : Mam → Bool → Mam × Option Region
for_each m reset =
    let i = if reset then 0 else m.for_each_next in
    (record m { for_each_next = suc i }, get_elem? m.in_use i)
