-- ===== src/Mam/Iterate.antt =====
-- The iterator `uvm_mem_mam::for_each`, driven the way its comment describes: reset, then step until a
-- null pointer.
use uvm_systemc.Common.{
  ℕ, zero, suc, ◌+◌, ◌<◌, ◌≡◌, Bool, true, false, none, some, List, [], ◌∷◌, Option, length,
  get_elem?, arith, sym, ◌∙◌, ap,
}
use uvm_systemc.Mam.{Region, Mam, for_each}
use mathlib.Core.Option
use native.Mathlib.Nat.{add-zero}

-- The regions that a caller sees, if the null pointer is reached within the steps given.
pub collect : ℕ → Mam → Bool → Option (List Region)
unfolding for_each
collect zero m reset = none
collect (suc n) m reset = elim (for_each m reset).1 [
  | none ↦ some []
  | some r ↦ Option.map (λ rs. r ∷ rs) (collect n (for_each m reset).0 false)
]

at_index :
    (m : Mam) {o : Option Region}
    → get_elem? m.in_use (m.for_each_next + 0) ≡ o
    → get_elem? m.in_use m.for_each_next ≡ o
at_index m e = ap (get_elem? m.in_use) (sym (add-zero m.for_each_next)) ∙ e

collect-rest :
    (n : ℕ) (m : Mam) (rest : List Region)
    → length rest < n
    → ((j : ℕ) → get_elem? m.in_use (m.for_each_next + j) ≡ get_elem? rest j)
    → collect n m false ≡ some rest
unfolding collect for_each
collect-rest zero m rest h e = absurd (omega arith)
collect-rest (suc n) m [] h e = ground (arith, at_index m (e 0))
collect-rest (suc n) m (r ∷ rest) h e =
    ground (arith, at_index m (e 0), collect-rest n (for_each m false).0 rest (omega arith) later)
  where
    later : (j : ℕ) → get_elem? m.in_use ((for_each m false).0.for_each_next + j) ≡ get_elem? rest j
    later j = ap (get_elem? m.in_use) (omega arith) ∙ e (suc j)

-- From a reset, the iterator returns every region that the manager holds, once and in the order of the
-- list, and then a null pointer; one step more than there are regions suffices.
pub collect-in_use : (m : Mam) (n : ℕ) → length m.in_use < n → collect n m true ≡ some m.in_use
unfolding collect for_each
collect-in_use m zero h = absurd (omega arith)
collect-in_use m (suc n) h =
    collect-rest (suc n) (record m { for_each_next = 0 }) m.in_use h
      λ j. ap (get_elem? m.in_use) (omega arith)
