-- ===== src/Objection/Catch.antt =====
-- A raise takes back a drain at its object: what the three searches of `m_raise` leave.
use uvm_systemc.Common.{
  ℕ, ◌+◌, ◌≡◌, refl, subst, Bool, true, Option, none, some, List, [], ◌∷◌, arith, ◌==◌,
  if◌then◌else◌, Option-cases, Bool-cases, inl, inr, ==_iff, All,
}
use uvm_systemc.Common.Maps.{Map, find, erase, nat_key, find-erase}
use uvm_systemc.Objection.Hierarchy.{Objects, IsTree}
use uvm_systemc.Objection.{
  Context, Objection, take_first, is_own, is_at, catch_drain, catch_scheduled, catch_listed,
  catch_forked, kill_drain,
}
use uvm_systemc.Objection.Ledger.{pending_procs, flow, take_first-pending, take_first-test}
use uvm_systemc.Objection.Balance.{IsDeep, IsMatched, HasOnce, IsSound, end-IsMatched}

take_first-All :
    (P : Context → Type 0) (p : Context → Bool) (xs rest : List Context) (c : Context)
    → take_first p xs ≡ some (c, rest)
    → All P xs
    → All P rest
unfolding take_first
take_first-All P p [] rest c e a = cc
take_first-All P p (x ∷ xs) rest c e a = elim (Bool-cases (p x)) [
  | inl hit ↦ let same : xs ≡ rest = ground arith in subst (All P) same a.1
  | inr miss ↦ elim (Option-cases (take_first p xs)) [
    | inl nothing ↦ absurd (ground arith)
    | inr ((d, ys), found) ↦
        let same : x ∷ ys ≡ rest = ground arith in
        subst (All P) same (a.0, take_first-All P p xs ys d found a.1)
  ]
]

pub HasOnce-erase : (pid : ℕ) (m : Map ℕ Context) → HasOnce m → HasOnce (erase pid m)
unfolding erase
HasOnce-erase pid [] o = tt
HasOnce-erase pid ((i, c) ∷ m) o = elim (Bool-cases (i == pid)) [
  | inl hit ↦ rw hit (HasOnce-erase pid m o.1)
  | inr miss ↦ rw miss (ground (arith, find-erase i pid m, o.0), HasOnce-erase pid m o.1)
]

pub erase-All :
    (P : Context → Type 0) (pid : ℕ) (m : Map ℕ Context)
    → All (λ pc. P pc.1) m
    → All (λ pc. P pc.1) (erase pid m)
unfolding erase
erase-All P pid [] a = tt
erase-All P pid ((i, c) ∷ m) a = elim (Bool-cases (i == pid)) [
  | inl hit ↦ rw hit (erase-All P pid m a.1)
  | inr miss ↦ rw miss (a.0, erase-All P pid m a.1)
]

erase_missing :
    (pid x : ℕ) (m : Map ℕ Context)
    → find pid m ≡ none
    → pending_procs x (erase pid m) ≡ pending_procs x m
unfolding erase find
erase_missing pid x [] e = refl
erase_missing pid x ((i, c) ∷ m) e = ground (arith, erase_missing pid x m)

erase_here :
    (i pid x : ℕ) (m : Map ℕ Context)
    → find i m ≡ none
    → (i == pid) ≡ true
    → pending_procs x (erase pid m) ≡ pending_procs x m
erase_here i pid x m e hit =
    erase_missing pid x m (subst (λ k. find k m ≡ none) ((==_iff i pid).0 hit) e)

-- The end of a process takes its count out of what is pending.
pub erase-pending :
    (pid x : ℕ) (m : Map ℕ Context) (c : Context)
    → HasOnce m
    → find pid m ≡ some c
    → pending_procs x m ≡ (if is_at x c then c.count else 0) + pending_procs x (erase pid m)
unfolding erase find
erase-pending pid x [] c o e = cc
erase-pending pid x ((i, d) ∷ m) c o e = elim (Bool-cases (i == pid)) [
  | inl hit ↦ ground (arith, erase_here i pid x m o.0 hit)
  | inr miss ↦ ground (arith, erase-pending pid x m c o.1)
]

abbrev pub caught_count : Option Context → ℕ
caught_count none = 0
caught_count (some c) = c.count

-- What a search for the drain at an object does to the books: it leaves the counts, and takes the count
-- of what it has caught out of what the object has passed on.
pub record Caught {h : Objects} (tree : IsTree h) (s : Objection) (obj : ℕ)
    (r : Objection × Option Context) : Type 0 where
  pub totals : r.0.total_count ≡ s.total_count
  pub sources : r.0.source_count ≡ s.source_count
  pub sound : IsSound tree r.0
  pub less : (x : ℕ) → flow s x ≡ flow r.0 x + (if obj == x then caught_count r.1 else 0)

module _ {h : Objects} (tree : IsTree h) (s : Objection) (obj : ℕ) (v : IsSound tree s) where
  catch_none : Caught tree s obj (s, none)
  catch_none = record { totals = refl; sources = refl; sound = v; less = λ x. ground arith }

  module _ (c : Context) (pid : ℕ) (here : c.obj ≡ obj) (proc : find obj s.drain_proc ≡ some pid)
      (runs : find pid s.draining ≡ some c) where
    killed : Objection
    killed = kill_drain (record s { forked_contexts = erase obj s.forked_contexts }) obj (some pid)

    killed-IsMatched : IsMatched killed
    unfolding killed
    killed-IsMatched = end-IsMatched s c obj pid here runs v.matched

    kill-Caught : Caught tree s obj (killed, some c)
    unfolding killed flow
    kill-Caught = record {
      totals = refl;
      sources = refl;
      sound = record {
        hierarchical = v.hierarchical;
        matched = killed-IsMatched;
        once = HasOnce-erase pid s.draining v.once;
        deep_scheduled = v.deep_scheduled;
        deep_forked = v.deep_forked;
        deep_draining = erase-All (IsDeep tree) pid s.draining v.deep_draining;
      };
      less = λ x. ground (arith, erase-pending pid x s.draining c v.once runs, here);
    }

  catch_forked-Caught :
      (o : Option Context)
      → find obj s.forked_contexts ≡ o
      → Caught tree s obj (catch_forked s obj o)
  unfolding killed
  catch_forked-Caught none e = catch_none
  catch_forked-Caught (some c) e =
      let (here, (pid, proc, runs)) = v.matched obj c e in
      rw proc (kill-Caught c pid here proc runs)

  catch_listed-Caught :
      (o : Option (Context × List Context))
      → take_first (is_at obj) s.forked_list ≡ o
      → Caught tree s obj (catch_listed s obj o)
  unfolding flow
  catch_listed-Caught none e = catch_forked-Caught (find obj s.forked_contexts) refl
  catch_listed-Caught (some (c, rest)) e = record {
    totals = refl;
    sources = refl;
    sound = record {
      hierarchical = v.hierarchical;
      matched = v.matched;
      once = v.once;
      deep_scheduled = v.deep_scheduled;
      deep_forked = take_first-All (IsDeep tree) (is_at obj) s.forked_list rest c e v.deep_forked;
      deep_draining = v.deep_draining;
    };
    less = λ x. ground (
      arith,
      take_first-pending (is_at obj) (is_at x) s.forked_list rest c e,
      take_first-test (is_at obj) s.forked_list rest c e,
    );
  }

  catch_scheduled-Caught :
      (o : Option (Context × List Context))
      → take_first (is_own s.self obj) s.scheduled ≡ o
      → Caught tree s obj (catch_scheduled s obj o)
  unfolding flow
  catch_scheduled-Caught none e = catch_listed-Caught (take_first (is_at obj) s.forked_list) refl
  catch_scheduled-Caught (some (c, rest)) e = record {
    totals = refl;
    sources = refl;
    sound = record {
      hierarchical = v.hierarchical;
      matched = v.matched;
      once = v.once;
      deep_scheduled =
          take_first-All (IsDeep tree) (is_own s.self obj) s.scheduled rest c e v.deep_scheduled;
      deep_forked = v.deep_forked;
      deep_draining = v.deep_draining;
    };
    less = λ x. ground (
      arith,
      take_first-pending (is_own s.self obj) (is_own s.self x) s.scheduled rest c e,
      take_first-test (is_own s.self obj) s.scheduled rest c e,
    );
  }

  pub catch_drain-Caught : Caught tree s obj (catch_drain s obj)
  unfolding catch_drain
  catch_drain-Caught = catch_scheduled-Caught (take_first (is_own s.self obj) s.scheduled) refl
