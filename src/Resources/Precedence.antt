-- ===== src/Resources/Precedence.antt =====
-- The order of resources by their precedence.
use uvm_systemc.Common.{
  ℕ, suc, ◌≤◌, ◌<◌, ◌≡◌, refl, ap, sym, ◌∙◌, Bool, true, false, List, [], ◌∷◌, ◌++◌, arith, ◌==◌,
  ==_iff, ltb, if◌then◌else◌, All, Bool-cases, inl, inr,
}
use mathlib.Core.List.{append-nil}
use uvm_systemc.Resources.{
  Rsrcs, select, bucket, buckets, push_all_front, refill, as_int, sort_by_precedence,
}

-- Resources, each with a key by which they are sorted.
module _ (key : ℕ → ℕ) where
  -- No resource has a higher key than one before it.
  abbrev pub IsDescending : List ℕ → Type 0
  IsDescending [] = Unit
  IsDescending (r ∷ q) = All (λ s. key s ≤ key r) q × IsDescending q

  abbrev pub of_key : ℕ → ℕ → Bool
  of_key k r = key r == k

  -- The buckets of one key, pushed to the front.
  abbrev gather : ℕ → List (ℕ × List ℕ) → List ℕ → List ℕ
  gather k [] x = x
  gather k ((j, q) ∷ m) x = gather k m (if j == k then push_all_front q x else x)

  -- Buckets in the order of their keys, from a least one on, and what is in them.
  abbrev IsOrdered : ℕ → List (ℕ × List ℕ) → Type 0
  IsOrdered least [] = Unit
  IsOrdered least ((j, q) ∷ m) = (least ≤ j) × (All (λ r. key r ≡ j) q) × IsOrdered (suc j) m

  bucket-IsOrdered :
      (least r : ℕ) (m : List (ℕ × List ℕ))
      → least ≤ key r
      → IsOrdered least m
      → IsOrdered least (bucket (key r) r m)
  bucket-IsOrdered least r [] h o = (h, (refl, tt), tt)
  bucket-IsOrdered least r ((j, q) ∷ m) h o = elim (Bool-cases (key r == j)) [
    | inl same ↦ rw same (o.0, ((==_iff (key r) j).0 same, o.1), o.2)
    | inr other ↦ elim (Bool-cases (ltb (key r) j)) [
      | inl less ↦ rw (other, less) (h, (refl, tt), (ground (arith, less), o.1, o.2))
      | inr more ↦
          rw (other, more)
            (o.0, o.1, bucket-IsOrdered (suc j) r m (ground (arith, other, more)) o.2)
    ]
  ]

  buckets-IsOrdered :
      (q : List ℕ) (m : List (ℕ × List ℕ)) → IsOrdered 0 m → IsOrdered 0 (buckets key q m)
  buckets-IsOrdered [] m o = o
  buckets-IsOrdered (r ∷ q) m o =
      buckets-IsOrdered q (bucket (key r) r m) (bucket-IsOrdered 0 r m (omega arith) o)

  push-IsDescending :
      (j : ℕ) (p q : List ℕ)
      → All (λ r. key r ≡ j) p
      → All (λ s. key s ≤ j) q
      → IsDescending q
      → IsDescending (push_all_front p q) × All (λ s. key s ≤ j) (push_all_front p q)
  push-IsDescending j [] q e below d = (d, below)
  push-IsDescending j (r ∷ p) q e below d =
      push-IsDescending j p (r ∷ q) e.1 (omega (arith, e.0), below) (raise q below, d)
    where
      raise : (q : List ℕ) → All (λ s. key s ≤ j) q → All (λ s. key s ≤ key r) q
      raise [] b = tt
      raise (s ∷ q) b = (omega (arith, b.0, e.0), raise q b.1)

  weaken : (a b : ℕ) (q : List ℕ) → a ≤ b → All (λ s. key s ≤ a) q → All (λ s. key s < suc b) q
  weaken a b [] h t = tt
  weaken a b (s ∷ q) h t = (omega (arith, t.0, h), weaken a b q h t.1)

  lower : (a b : ℕ) (q : List ℕ) → a ≤ b → All (λ s. key s < a) q → All (λ s. key s ≤ b) q
  lower a b [] h t = tt
  lower a b (s ∷ q) h t = (omega (arith, t.0, h), lower a b q h t.1)

  refill-IsDescending :
      (least : ℕ) (m : List (ℕ × List ℕ)) (q : List ℕ)
      → IsOrdered least m
      → All (λ s. key s < least) q
      → IsDescending q
      → IsDescending (refill m q)
  refill-IsDescending least [] q o below d = d
  refill-IsDescending least ((j, p) ∷ m) q o below d =
      let pushed = push-IsDescending j p q o.1 (lower least j q o.0 below) d in
      refill-IsDescending (suc j) m (push_all_front p q) o.2
        (weaken j j (push_all_front p q) (omega arith) pushed.1) pushed.0

  select-push :
      (test : ℕ → Bool) (p q : List ℕ)
      → select test (push_all_front p q) ≡ push_all_front (select test p) (select test q)
  select-push test [] q = refl
  select-push test (r ∷ p) q = elim (Bool-cases (test r)) [
    | inl passes ↦ rw passes (select-push test p (r ∷ q) ∙ rw passes refl)
    | inr fails ↦ rw fails (select-push test p (r ∷ q) ∙ rw fails refl)
  ]

  select-bucket :
      (j k : ℕ) (p : List ℕ)
      → All (λ r. key r ≡ j) p
      → select (of_key k) p ≡ (if j == k then p else [])
  select-bucket j k [] e = either (j == k)
    where
      either : (b : Bool) → ◌≡◌ {A = List ℕ} [] (if b then [] else [])
      either true = refl
      either false = refl
  select-bucket j k (r ∷ p) e = elim (Bool-cases (j == k)) [
    | inl same ↦
        let here : of_key k r ≡ true = ap (λ a. a == k) e.0 ∙ same in
        rw (here, same) (ap (λ q. r ∷ q) (select-bucket j k p e.1 ∙ rw same refl))
    | inr other ↦
        let there : of_key k r ≡ false = ap (λ a. a == k) e.0 ∙ other in
        rw (there, other) (select-bucket j k p e.1 ∙ rw other refl)
  ]

  push-if :
      (b : Bool) (p x : List ℕ)
      → push_all_front (if b then p else []) x ≡ (if b then push_all_front p x else x)
  push-if true p x = refl
  push-if false p x = refl

  select-refill :
      (least k : ℕ) (m : List (ℕ × List ℕ)) (q : List ℕ)
      → IsOrdered least m
      → select (of_key k) (refill m q) ≡ gather k m (select (of_key k) q)
  select-refill least k [] q o = refl
  select-refill least k ((j, p) ∷ m) q o =
      select-refill (suc j) k m (push_all_front p q) o.2
      ∙ ap (gather k m) (
          select-push (of_key k) p q
          ∙ ap (λ s. push_all_front s (select (of_key k) q)) (select-bucket j k p o.1)
          ∙ push-if (j == k) p (select (of_key k) q))

  gather-bucket :
      (i k r : ℕ) (m : List (ℕ × List ℕ)) (x : List ℕ)
      → gather k (bucket i r m) x ≡ gather k m (if i == k then r ∷ x else x)
  gather-bucket i k r [] x = refl
  gather-bucket i k r ((j, q) ∷ m) x = elim (Bool-cases (i == j)) [
    | inl same ↦ rw same (
        ap (gather k m) (
          ap (λ a. if a == k then push_all_front (r ∷ q) x else x) (sym ((==_iff i j).0 same))
          ∙ both (i == k) q x
          ∙ ap
              (λ a.
                if a == k
                then push_all_front q (if i == k then r ∷ x else x)
                else (if i == k then r ∷ x else x))
              ((==_iff i j).0 same)))
    | inr other ↦ elim (Bool-cases (ltb i j)) [
      | inl less ↦ rw (other, less) refl
      | inr more ↦
          rw (other, more)
            (gather-bucket i k r m (if j == k then push_all_front q x else x)
              ∙ ap (gather k m) (apart i j k q x other))
    ]
  ]
    where
      both :
          (b : Bool) (q x : List ℕ)
          → (if b then push_all_front (r ∷ q) x else x)
            ≡ (if b then push_all_front q (if b then r ∷ x else x) else (if b then r ∷ x else x))
      both true q x = refl
      both false q x = refl

      apart :
          (i j k : ℕ) (q x : List ℕ)
          → (i == j) ≡ false
          → (if i == k
              then r ∷ (if j == k then push_all_front q x else x)
              else (if j == k then push_all_front q x else x))
            ≡ (if j == k
                then push_all_front q (if i == k then r ∷ x else x)
                else (if i == k then r ∷ x else x))
      apart i j k q x other = elim (Bool-cases (j == k)) [
        | inl j_is_k ↦
            let i_not_k : (i == k) ≡ false =
              ap (λ a. i == a) (sym ((==_iff j k).0 j_is_k)) ∙ other in
            rw (j_is_k, i_not_k) refl
        | inr j_not_k ↦ rw j_not_k refl
      ]

  gather-buckets :
      (k : ℕ) (q : List ℕ) (m : List (ℕ × List ℕ)) (x : List ℕ)
      → gather k (buckets key q m) x ≡ gather k m (select (of_key k) q ++ x)
  gather-buckets k [] m x = refl
  gather-buckets k (r ∷ q) m x =
      gather-buckets k q (bucket (key r) r m) x
      ∙ gather-bucket (key r) k r m (select (of_key k) q ++ x)
      ∙ ap (gather k m) (front (of_key k r) (select (of_key k) q))
    where
      front :
          (b : Bool) (s : List ℕ)
          → (if b then r ∷ (s ++ x) else s ++ x) ≡ (if b then r ∷ s else s) ++ x
      front true s = refl
      front false s = refl

  pub refill-buckets :
      (q : List ℕ) (k : ℕ)
      → IsDescending (refill (buckets key q []) [])
        × (select (of_key k) (refill (buckets key q []) []) ≡ select (of_key k) q)
  refill-buckets q k =
      let ordered = buckets-IsOrdered q [] tt in
      (
        refill-IsDescending 0 (buckets key q []) [] ordered tt tt,
        select-refill 0 k (buckets key q []) [] ordered
            ∙ gather-buckets k q [] []
            ∙ append-nil (select (of_key k) q),
      )

-- Sorting by precedence puts no resource behind one of a lower precedence, where precedences are compared
-- as the `int` that the program converts them to, so that those from 2^31 on are the lowest. It keeps the
-- resources of each precedence, none lost or added, in the order they had in the queue: the comment of
-- sort_by_precedence promises those most recently set first, and `set` puts them at the back of the
-- queue, unless they override.
pub sort_by_precedence-IsDescending :
    (rs : Rsrcs) (q : List ℕ) (k : ℕ)
    → IsDescending (λ r. as_int (rs.precedence r)) (sort_by_precedence rs q)
      × (select (of_key (λ r. as_int (rs.precedence r)) k) (sort_by_precedence rs q)
          ≡ select (of_key (λ r. as_int (rs.precedence r)) k) q)
unfolding sort_by_precedence
sort_by_precedence-IsDescending rs q k = refill-buckets (λ r. as_int (rs.precedence r)) q k
