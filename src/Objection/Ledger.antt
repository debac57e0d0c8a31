-- ===== src/Objection/Ledger.antt =====
-- The ledger of an objection: what each object has passed on to its parent, and the balance between the
-- totals, the objections that objects raise themselves, and what their children have passed on.
use uvm_systemc.Common.{
  ℕ, ◌+◌, ◌*◌, ◌≡◌, Bool, true, some, List, [], ◌∷◌, ◌++◌, arith, ◌==◌, if◌then◌else◌, Option-cases,
  inl, inr,
}
use uvm_systemc.Common.Maps.{Map, insert, erase, nat_key, find-insert, find-erase}
use uvm_systemc.Objection.Hierarchy.{occurrences}
use uvm_systemc.Objection.{Context, Objection, count_of, take_first, is_own, is_at}

pub count_of-insert :
    (j k v : ℕ) (m : Map ℕ ℕ) → count_of j (insert k v m) ≡ (if k == j then v else count_of j m)
unfolding count_of
count_of-insert j k v m = ground (arith, find-insert j k v m)

pub count_of-erase :
    (j k : ℕ) (m : Map ℕ ℕ) → count_of j (erase k m) ≡ (if k == j then 0 else count_of j m)
unfolding count_of
count_of-erase j k m = ground (arith, find-erase j k m)

-- The counts of the contexts that pass a test.
abbrev pub pending_in : (Context → Bool) → List Context → ℕ
pending_in p [] = 0
pending_in p (x ∷ xs) = (if p x then x.count else 0) + pending_in p xs

abbrev pub pending_procs : ℕ → Map ℕ Context → ℕ
pending_procs obj [] = 0
pending_procs obj ((pid, x) ∷ xs) = (if is_at obj x then x.count else 0) + pending_procs obj xs

-- The counts of an object that have been dropped and are still draining.
unfoldable pub pending : Objection → ℕ → ℕ
pending s obj =
    pending_in (is_own s.self obj) s.scheduled
    + pending_in (is_at obj) s.forked_list
    + pending_procs obj s.draining

-- What an object has passed on to its parent.
unfoldable pub flow : Objection → ℕ → ℕ
unfolding pending
flow s obj = count_of obj s.total_count + pending s obj

abbrev pub sum_flows : Objection → List ℕ → ℕ
sum_flows s [] = 0
sum_flows s (c ∷ cs) = flow s c + sum_flows s cs

pub pending_in-append :
    (p : Context → Bool) (xs ys : List Context)
    → pending_in p (xs ++ ys) ≡ pending_in p xs + pending_in p ys
pending_in-append p [] ys = omega arith
pending_in-append p (x ∷ xs) ys = omega (arith, pending_in-append p xs ys)

-- Taking a context out of a list takes its count out of the sum of each test that it passes.
pub take_first-pending :
    (p q : Context → Bool) (xs rest : List Context) (c : Context)
    → take_first p xs ≡ some (c, rest)
    → pending_in q xs ≡ (if q c then c.count else 0) + pending_in q rest
unfolding take_first
take_first-pending p q [] rest c e = cc
take_first-pending p q (x ∷ xs) rest c e = elim (Option-cases (take_first p xs)) [
  | inl nothing ↦ ground arith
  | inr ((d, ys), found) ↦ ground (arith, take_first-pending p q xs ys d found)
]

pub take_first-test :
    (p : Context → Bool) (xs rest : List Context) (c : Context)
    → take_first p xs ≡ some (c, rest)
    → p c ≡ true
unfolding take_first
take_first-test p [] rest c e = cc
take_first-test p (x ∷ xs) rest c e = elim (Option-cases (take_first p xs)) [
  | inl nothing ↦ ground arith
  | inr ((d, ys), found) ↦ ground (arith, take_first-test p xs ys d found)
]

-- Two states whose flows agree but for one object, which has gained an amount.
pub sum_flows-gain :
    (s t : Objection) (obj d : ℕ) (cs : List ℕ)
    → ((c : ℕ) → flow t c ≡ flow s c + (if obj == c then d else 0))
    → sum_flows t cs ≡ sum_flows s cs + d * occurrences obj cs
sum_flows-gain s t obj d [] h = omega arith
sum_flows-gain s t obj d (c ∷ cs) h = ground (arith, h c, sum_flows-gain s t obj d cs h)
