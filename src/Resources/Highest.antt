-- ===== src/Resources/Highest.antt =====
-- The resource of the highest precedence, and the first of the sorted queue.
use uvm_systemc.Common.{
  ℕ, ◌≤◌, ◌<◌, ◌^◌, ◌≡◌, refl, ap, sym, ◌∙◌, subst, Bool, true, false, none, some, List, [], ◌∷◌,
  arith, ==_iff, ltb, if◌then◌else◌, All, Bool-cases, inl, inr,
}
use uvm_systemc.Resources.{
  Rsrcs, select, first, highest, buckets, refill, as_int, get_highest_precedence,
  sort_by_precedence,
}
use uvm_systemc.Resources.Precedence.{IsDescending, of_key, refill-buckets}

module _ (key : ℕ → ℕ) where
  -- The highest key, and the first resource that has it.
  abbrev IsHighestOf : ℕ → List ℕ → Type 0
  IsHighestOf h q = All (λ s. key s ≤ key h) q × (first (select (of_key key (key h)) q) ≡ some h)

  highest-IsHighestOf : (best : ℕ) (q : List ℕ) → IsHighestOf (highest key best q) (best ∷ q)
  highest-IsHighestOf best [] =
      let own : of_key key (key best) best ≡ true = (==_iff (key best) (key best)).1 refl in
      ((omega arith, tt), rw own refl)
  highest-IsHighestOf best (r ∷ q) = elim (Bool-cases (ltb (key best) (key r))) [
    | inl less ↦
        let (bound, found) = highest-IsHighestOf r q in
        let h = highest key r q in
        let below : of_key key (key h) best ≡ false = ground (arith, less, bound.0) in
        subst (λ b. IsHighestOf (highest key (if b then r else best) q) (best ∷ r ∷ q)) (sym less)
          (
            (ground (arith, less, bound.0), bound),
            ap
                  (λ b. first (
                    if b
                    then best ∷ select (of_key key (key h)) (r ∷ q)
                    else select (of_key key (key h)) (r ∷ q)))
                  below
                ∙ found,
          )
    | inr more ↦
        let (bound, found) = highest-IsHighestOf best q in
        let h = highest key best q in
        subst (λ b. IsHighestOf (highest key (if b then r else best) q) (best ∷ r ∷ q)) (sym more)
          (
            (bound.0, (ground (arith, more, bound.0), bound.1)),
            skip h found (ground (arith, more)) bound.0,
          )
  ]
    where
      skip :
          (h : ℕ)
          → first (select (of_key key (key h)) (best ∷ q)) ≡ some h
          → key r ≤ key best
          → key best ≤ key h
          → first (select (of_key key (key h)) (best ∷ r ∷ q)) ≡ some h
      skip h found less bound = elim (Bool-cases (of_key key (key h) best)) [
        | inl here ↦ rw here (sym (rw here refl) ∙ found)
        | inr not_here ↦
            let nor_there : of_key key (key h) r ≡ false = ground (arith, not_here, less, bound) in
            rw (not_here, nor_there) (sym (rw not_here refl) ∙ found)
      ]

  select-none :
      (a k : ℕ) (q : List ℕ) → a < k → All (λ s. key s ≤ a) q → select (of_key key k) q ≡ []
  select-none a k [] h t = refl
  select-none a k (s ∷ q) h t =
      let no : of_key key k s ≡ false = ground (arith, h, t.0) in rw no (select-none a k q h t.1)

  first-select :
      (P : ℕ → Type 0) (test : ℕ → Bool) (q : List ℕ) (f : ℕ)
      → All P q
      → first (select test q) ≡ some f
      → P f
  first-select P test [] f t e = absurd (cc)
  first-select P test (s ∷ q) f t e = elim (Bool-cases (test s)) [
    | inl passes ↦
        subst P
          (some_injective
            (sym (ap (λ b. first (if b then s ∷ select test q else select test q)) passes) ∙ e))
          (t.0)
    | inr fails ↦
        first-select P test q f t.1
          (sym (ap (λ b. first (if b then s ∷ select test q else select test q)) fails) ∙ e)
  ]
    where
      some_injective : {a b : ℕ} → some a ≡ some b → a ≡ b
      some_injective e = cc

  -- The first of a descending queue whose keys are bounded by one that occurs.
  first-IsDescending :
      (k h : ℕ) (s : List ℕ)
      → IsDescending key s
      → first (select (of_key key k) s) ≡ some h
      → ((f : ℕ) → first s ≡ some f → key f ≤ k)
      → first s ≡ some h
  first-IsDescending k h [] d e bound = absurd (cc)
  first-IsDescending k h (f ∷ s) d e bound = elim (Bool-cases (of_key key k f)) [
    | inl here ↦
        sym (
          ap (λ b. first (if b then f ∷ select (of_key key k) s else select (of_key key k) s)) here)
        ∙ e
    | inr not_here ↦
        let less : key f < k = ground (arith, not_here, bound f refl) in
        let nothing = select-none (key f) k s less d.0 in
        let bad : none ≡ some h =
          sym (
            ap (λ b. first (if b then f ∷ select (of_key key k) s else select (of_key key k) s))
              not_here
            ∙ ap first nothing)
          ∙ e in
        absurd (cc)
  ]

  first-own :
      (f : ℕ) (s : List ℕ) → first s ≡ some f → first (select (of_key key (key f)) s) ≡ some f
  first-own f [] e = absurd (cc)
  first-own f (g ∷ s) e =
      let same : of_key key (key f) g ≡ true =
        (==_iff (key g) (key f)).1 (ap key (some_injective e)) in
      rw same e
    where
      some_injective : {a b : ℕ} → some a ≡ some b → a ≡ b
      some_injective e = cc

  first-refill :
      (r : ℕ) (q : List ℕ) → first (refill (buckets key (r ∷ q) []) []) ≡ some (highest key r q)
  first-refill r q =
      let h = highest key r q in
      let (bound, found) = highest-IsHighestOf r q in
      let s = refill (buckets key (r ∷ q) []) [] in
      let stable = λ (k : ℕ). (refill-buckets key (r ∷ q) k).1 in
      first-IsDescending (key h) h s (refill-buckets key (r ∷ q) 0).0
        (ap first (stable (key h)) ∙ found)
        (λ f e.
          first-select (λ x. key x ≤ key h) (of_key key (key f)) (r ∷ q) f bound
            (sym (ap first (stable (key f))) ∙ first-own f s e))

-- The order of precedences below 2^31 is the same as numbers of `int`.
highest-as_int :
    (precedence : ℕ → ℕ) (best : ℕ) (q : List ℕ)
    → All (λ r. precedence r < 2 ^ 31) (best ∷ q)
    → highest (λ r. as_int (precedence r)) best q ≡ highest precedence best q
highest-as_int precedence best [] small = refl
highest-as_int precedence best (r ∷ q) small =
    elim (Bool-cases (ltb (precedence best) (precedence r))) [
      | inl less ↦ rw (less, same_test ∙ less) (highest-as_int precedence r q small.1)
      | inr more ↦
          rw (more, same_test ∙ more) (highest-as_int precedence best q (small.0, small.1.1))
    ]
  where
    same_test :
        ltb (as_int (precedence best)) (as_int (precedence r))
        ≡ ltb (precedence best) (precedence r)
    same_test = ground (arith, small.0, small.1.0)

-- The resource that get_highest_precedence answers with is the first after a sort by precedence, for any
-- queue of resources whose precedences are below 2^31; from there on the sort takes them as negative.
pub first-sort_by_precedence :
    (rs : Rsrcs) (q : List ℕ)
    → All (λ r. rs.precedence r < 2 ^ 31) q
    → first (sort_by_precedence rs q) ≡ get_highest_precedence rs q
unfolding get_highest_precedence sort_by_precedence
first-sort_by_precedence rs [] small = refl
first-sort_by_precedence rs (r ∷ q) small =
    first-refill (λ x. as_int (rs.precedence x)) r q
    ∙ ap some (highest-as_int rs.precedence r q small)
