-- ===== src/Reg/Layout.antt =====
-- The places of the fields in a register: `add_field` of src/uvmsc/reg/uvm_reg.cpp.
use uvm_systemc.Common.{
  ℕ, zero, suc, ◌+◌, ◌≤◌, ◌<◌, ◌^◌, subst, ◌≡◌, refl, ◌∙◌, Bool, true, false, ◌||◌, List, [], ◌∷◌,
  ltb, if◌then◌else◌, arith, inl, inr, Bool-cases, Option, none, some, All, ◌⊎◌, get_elem?,
}
use native.Mathlib.Numerals.{unary_clauses}
use uvm_systemc.RegField.{Field}
use uvm_systemc.Reg.{
  LayoutError, insert_field, run_into, runs_into, preceding, overlaps_below, overlaps_above,
}

-- The first position after a field.
abbrev pub end_of : Field → ℕ
end_of f = f.lsb + f.size

-- In the order of their positions, and apart.
abbrev pub IsLaidOut : List Field → Type 0
IsLaidOut [] = Unit
IsLaidOut (f ∷ fs) = All (λ g. end_of f ≤ g.lsb) fs × IsLaidOut fs

abbrev pub Disjoint : Field → Field → Type 0
Disjoint f g = (end_of f ≤ g.lsb) ⊎ (end_of g ≤ f.lsb)

-- The end of the field is an `unsigned int`.
abbrev pub Fits : Field → Type 0
Fits f = end_of f < 2 ^ 32

-- The tests of `add_field` on ends that do not wrap.
abbrev pub enters : Field → Option Field → Bool
enters f none = false
enters f (some g) = ltb g.lsb (end_of f)

abbrev pub entered : Option Field → Field → Bool
entered none f = false
entered (some g) f = ltb f.lsb (end_of g)

abbrev pub is_overlap : LayoutError → Bool
is_overlap overlaps_below = true
is_overlap overlaps_above = true
is_overlap _ = false

abbrev pub reports_overlap : List LayoutError → Bool
reports_overlap [] = false
reports_overlap (e ∷ es) = is_overlap e || reports_overlap es

-- The tests of `add_field`, made where the loop stops; `prev` is the field before.
pub clash : Field → Option Field → List Field → Bool
clash f prev [] = entered prev f
clash f prev (g ∷ gs) =
    if ltb f.lsb g.lsb then entered prev f || ltb g.lsb (f.lsb + f.size) else clash f (some g) gs

All-map :
    {P Q : Field → Type 0} → ((h : Field) → P h → Q h) → (fs : List Field) → All P fs → All Q fs
All-map weaken [] ps = tt
All-map weaken (f ∷ fs) ps = (weaken f ps.0, All-map weaken fs ps.1)

module _ (f : Field) where
  -- The tests on the neighbours of the place `i`, where `prev` stands before the list.
  beside : Option Field → List Field → ℕ → Bool
  beside prev fs zero = entered prev f || enters f (get_elem? fs (0 + 1))
  beside prev fs (suc i) = entered (get_elem? fs i) f || enters f (get_elem? fs (suc i + 1))

  beside-suc :
      (prev : Option Field) (g : Field) (gs : List Field) (i : ℕ)
      → beside prev (g ∷ gs) (suc i) ≡ beside (some g) gs i
  unfolding beside
  beside-suc prev g gs zero = refl
  beside-suc prev g gs (suc i) = simp unary_clauses refl

  beside-clash :
      (prev : Option Field) (fs : List Field)
      → beside prev (insert_field f fs).0 (insert_field f fs).1 ≡ clash f prev fs
  unfolding beside clash insert_field
  beside-clash prev [] = ground arith
  beside-clash prev (g ∷ gs) = elim (Bool-cases (ltb f.lsb g.lsb)) [
    | inl before ↦ rw before refl
    | inr after ↦
        rw after
          (beside-suc prev g (insert_field f gs).0 (insert_field f gs).1 ∙ beside-clash (some g) gs)
  ]

  ends_before :
      (p : Field) (fs : List Field)
      → clash f (some p) fs ≡ false
      → IsLaidOut (p ∷ fs)
      → end_of p ≤ f.lsb
  unfolding clash
  ends_before p [] quiet after = ground arith
  ends_before p (g ∷ gs) quiet after = elim (Bool-cases (ltb f.lsb g.lsb)) [
    | inl before ↦ ground arith
    | inr past ↦ omega (arith, after.0.0, ends_before g gs (rest past) after.1)
  ]
    where
      rest : ltb f.lsb g.lsb ≡ false → clash f (some g) gs ≡ false
      rest past = ground arith

  pub insert_field-All :
      (P : Field → Type 0) (fs : List Field) → P f → All P fs → All P (insert_field f fs).0
  unfolding insert_field
  insert_field-All P [] p ps = (p, tt)
  insert_field-All P (g ∷ gs) p ps = elim (Bool-cases (ltb f.lsb g.lsb)) [
    | inl before ↦ rw before (p, ps)
    | inr after ↦ rw after (ps.0, insert_field-All P gs p ps.1)
  ]

  later :
      (g : Field) (gs : List Field)
      → end_of f ≤ g.lsb
      → All (λ h. end_of g ≤ h.lsb) gs
      → All (λ h. end_of f ≤ h.lsb) gs
  later g [] le after = tt
  later g (h ∷ hs) le after = (omega (arith, after.0), later g hs le after.1)

  -- The list stays laid out where the tests find nothing.
  pub insert_field-IsLaidOut :
      (prev : Option Field) (fs : List Field)
      → clash f prev fs ≡ false
      → IsLaidOut fs
      → IsLaidOut (insert_field f fs).0
  unfolding clash insert_field
  insert_field-IsLaidOut prev [] quiet laid = (tt, tt)
  insert_field-IsLaidOut prev (g ∷ gs) quiet laid = elim (Bool-cases (ltb f.lsb g.lsb)) [
    | inl before ↦ rw before ((fits before, later g gs (fits before) laid.0), laid)
    | inr past ↦ rw past (
      insert_field-All (λ h. end_of g ≤ h.lsb) gs (ends_before g gs (rest past) laid) laid.0,
      insert_field-IsLaidOut (some g) gs (rest past) laid.1,
    )
  ]
    where
      fits : ltb f.lsb g.lsb ≡ true → end_of f ≤ g.lsb
      fits before = ground arith

      rest : ltb f.lsb g.lsb ≡ false → clash f (some g) gs ≡ false
      rest past = ground arith

  -- The tests find nothing exactly where the field is apart from all the others.
  pub clash-Disjoint :
      (prev : Option Field) (fs : List Field)
      → clash f prev fs ≡ false
      → IsLaidOut fs
      → All (Disjoint f) fs
  unfolding clash
  clash-Disjoint prev [] quiet laid = tt
  clash-Disjoint prev (g ∷ gs) quiet laid = elim (Bool-cases (ltb f.lsb g.lsb)) [
    | inl before ↦
        (inl (fits before), All-map (λ h le. inl le) gs (later g gs (fits before) laid.0))
    | inr past ↦
        (inr (ends_before g gs (rest past) laid), clash-Disjoint (some g) gs (rest past) laid.1)
  ]
    where
      fits : ltb f.lsb g.lsb ≡ true → end_of f ≤ g.lsb
      fits before = ground arith

      rest : ltb f.lsb g.lsb ≡ false → clash f (some g) gs ≡ false
      rest past = ground arith

  pub Disjoint-clash :
      (prev : Option Field) (fs : List Field)
      → 0 < f.size
      → entered prev f ≡ false
      → All (Disjoint f) fs
      → clash f prev fs ≡ false
  unfolding clash
  Disjoint-clash prev [] positive ok apart = ok
  Disjoint-clash prev (g ∷ gs) positive ok apart = elim (Bool-cases (ltb f.lsb g.lsb)) [
    | inl before ↦ elim apart.0 [ inl le ↦ ground arith | inr le ↦ absurd (ground arith) ]
    | inr past ↦ elim apart.0 [
      | inl le ↦ absurd (ground arith)
      | inr le ↦ rw past (Disjoint-clash (some g) gs positive (ground arith) apart.1)
    ]
  ]

get_elem-Fits :
    (fs : List Field) (i : ℕ) (g : Field) → All Fits fs → get_elem? fs i ≡ some g → Fits g
get_elem-Fits [] i g fit e = absurd (cc)
get_elem-Fits (h ∷ hs) zero g fit e = let same : h ≡ g = cc in subst Fits same fit.0
get_elem-Fits (h ∷ hs) (suc i) g fit e = get_elem-Fits hs i g fit.1 e

runs_into-enters : (f : Field) (o : Option Field) → Fits f → runs_into f o ≡ enters f o
runs_into-enters f none fit = refl
runs_into-enters f (some g) fit = ground (arith, fit)

run_into-entered :
    (f : Field) (o : Option Field)
    → ((g : Field) → o ≡ some g → Fits g)
    → run_into o f ≡ entered o f
run_into-entered f none fit = refl
run_into-entered f (some g) fit = ground (arith, fit g refl)

beside_start :
    (f : Field) (fs : List Field) (i : ℕ)
    → Fits f
    → All Fits fs
    → (run_into (preceding fs i) f || runs_into f (get_elem? fs (i + 1))) ≡ beside f none fs i
unfolding beside
beside_start f fs zero fit fits = runs_into-enters f (get_elem? fs 1) fit
beside_start f fs (suc i) fit fits =
    rw
      (
        runs_into-enters f (get_elem? fs (suc i + 1)) fit,
        run_into-entered f (get_elem? fs i) (λ g e. get_elem-Fits fs i g fits e),
      )
      refl

-- The tests on the neighbours, as `add_field` makes them.
pub neighbours-clash :
    (f : Field) (fs : List Field)
    → Fits f
    → All Fits fs
    → let placed = insert_field f fs in
      (run_into (preceding placed.0 placed.1) f || runs_into f (get_elem? placed.0 (placed.1 + 1)))
      ≡ clash f none fs
neighbours-clash f fs fit fits =
    beside_start f (insert_field f fs).0 (insert_field f fs).1 fit
      (insert_field-All f Fits fs fit fits)
    ∙ beside-clash f none fs
