-- ===== src/Reg/Adding.antt =====
-- What `add_field` of src/uvmsc/reg/uvm_reg.cpp reports, and the register that it leaves.
use uvm_systemc.Common.{
  ℕ, ◌+◌, ◌%◌, ◌^◌, ◌≤◌, ◌<◌, ◌≡◌, refl, ap, ◌∙◌, sym, subst, Bool, false, ◌||◌, List, [], ◌∷◌,
  ◌++◌, ltb, if_false, arith, inl, inr, Bool-cases, none, All, ◌↔◌, get_elem?,
}
use uvm_systemc.RegField.{Field}
use uvm_systemc.Reg.{
  Reg, LayoutError, new_reg, insert_field, run_into, runs_into, preceding, report, add_field,
  add_fields, too_many_bits, overlaps_below, overlaps_above,
}
use uvm_systemc.Reg.Layout.{
  IsLaidOut, Disjoint, Fits, end_of, insert_field-All, reports_overlap, clash, neighbours-clash,
  insert_field-IsLaidOut, clash-Disjoint, Disjoint-clash,
}

overlap_reports :
    (many below above : Bool)
    → reports_overlap
        (report many too_many_bits ++ report below overlaps_below ++ report above overlaps_above)
      ≡ (below || above)
overlap_reports many below above = ground arith

add_field-unlocked :
    (r : Reg) (f : Field)
    → r.locked ≡ false
    → let placed = insert_field f r.fields in
      let used = (r.n_used_bits + f.size) % 2 ^ 32 in
      add_field r f ≡ (
        record r { fields = placed.0; n_used_bits = used },
        report (ltb r.n_bits used) too_many_bits
            ++ report (run_into (preceding placed.0 placed.1) f) overlaps_below
            ++ report (runs_into f (get_elem? placed.0 (placed.1 + 1))) overlaps_above,
      )
unfolding add_field
add_field-unlocked r f unlocked = if_false r.locked _ _ unlocked

reports-clash :
    (r : Reg) (f : Field)
    → r.locked ≡ false
    → Fits f
    → All Fits r.fields
    → reports_overlap (add_field r f).1 ≡ clash f none r.fields
reports-clash r f unlocked fit fits =
    ap (λ (a : Reg × List LayoutError). reports_overlap a.1) (add_field-unlocked r f unlocked)
    ∙ overlap_reports _ _ _
    ∙ neighbours-clash f r.fields fit fits

-- `add_field` on an unlocked register with its fields in order and apart reports no overlap exactly if
-- the new field, which has at least one bit, is apart from every field of the register, if no field ends
-- at 2^32 or further: the ends are computed as `unsigned int`, and one that wraps reports nothing.
pub add_field-Disjoint :
    (r : Reg) (f : Field)
    → r.locked ≡ false
    → 0 < f.size
    → IsLaidOut r.fields
    → Fits f
    → All Fits r.fields
    → (reports_overlap (add_field r f).1 ≡ false) ↔ All (Disjoint f) r.fields
add_field-Disjoint r f unlocked positive laid fit fits = (
  λ quiet. clash-Disjoint f none r.fields (sym (reports-clash r f unlocked fit fits) ∙ quiet) laid,
  λ apart. reports-clash r f unlocked fit fits ∙ Disjoint-clash f none r.fields positive refl apart,
)

abbrev pub total : List Field → ℕ
total [] = 0
total (f ∷ fs) = f.size + total fs

insert_field-total : (f : Field) (fs : List Field) → total (insert_field f fs).0 ≡ f.size + total fs
unfolding insert_field
insert_field-total f [] = refl
insert_field-total f (g ∷ gs) = elim (Bool-cases (ltb f.lsb g.lsb)) [
  | inl before ↦ rw before refl
  | inr past ↦ rw past (omega (arith, insert_field-total f gs))
]

-- Fields that are apart have no more bits than the end of the last.
total-le :
    (low : ℕ) (fs : List Field)
    → low < 2 ^ 32
    → All (λ f. low ≤ f.lsb) fs
    → IsLaidOut fs
    → All Fits fs
    → low + total fs < 2 ^ 32
total-le low [] small above laid fits = omega (arith, small)
total-le low (f ∷ fs) small above laid fits =
    omega (arith, above.0, total-le (end_of f) fs fits.0 laid.0 laid.1 fits.1)

all_above_zero : (fs : List Field) → All (λ f. 0 ≤ f.lsb) fs
all_above_zero [] = tt
all_above_zero (f ∷ fs) = (omega arith, all_above_zero fs)

-- What holds of a register that was built without a report.
pub record IsBuilt (r : Reg) : Type 0 where
  pub unlocked : r.locked ≡ false
  pub laid_out : IsLaidOut r.fields
  pub fits : All Fits r.fields
  pub counted : r.n_used_bits ≡ total r.fields
  pub room : r.n_used_bits ≤ r.n_bits

no_report :
    (many : Bool) (e : LayoutError) (xs ys : List LayoutError)
    → report many e ++ xs ++ ys ≡ []
    → many ≡ false
no_report many e xs ys h = ground arith

add_field-IsBuilt :
    (r : Reg) (f : Field) → Fits f → (add_field r f).1 ≡ [] → IsBuilt r → IsBuilt (add_field r f).0
add_field-IsBuilt r f fit quiet h =
    subst IsBuilt (sym (ap (λ (a : Reg × List LayoutError). a.0) added)) record {
      unlocked = h.unlocked;
      laid_out = laid;
      fits = fits;
      counted = omega (arith, h.counted, sum, insert_field-total f r.fields);
      room = within (
          no_report _ too_many_bits _ _
            (sym (ap (λ (a : Reg × List LayoutError). a.1) added) ∙ quiet));
    }
  where
    used : ℕ
    used = (r.n_used_bits + f.size) % 2 ^ 32

    added :
        let placed = insert_field f r.fields in
        add_field r f ≡ (
          record r { fields = placed.0; n_used_bits = used },
          report (ltb r.n_bits used) too_many_bits
              ++ report (run_into (preceding placed.0 placed.1) f) overlaps_below
              ++ report (runs_into f (get_elem? placed.0 (placed.1 + 1))) overlaps_above,
        )
    added = add_field-unlocked r f h.unlocked

    laid : IsLaidOut (insert_field f r.fields).0
    laid =
        insert_field-IsLaidOut f none r.fields
          (sym (reports-clash r f h.unlocked fit h.fits) ∙ ap reports_overlap quiet) h.laid_out

    fits : All Fits (insert_field f r.fields).0
    fits = insert_field-All f Fits r.fields fit h.fits

    sum : total (insert_field f r.fields).0 < 2 ^ 32
    sum = omega (
      arith,
      total-le 0 (insert_field f r.fields).0 (omega arith)
          (all_above_zero (insert_field f r.fields).0) laid fits,
    )

    within : ltb r.n_bits used ≡ false → used ≤ r.n_bits
    within h = ground arith

append_nil : {A : Type 0} (xs ys : List A) → xs ++ ys ≡ [] → (xs ≡ []) × (ys ≡ [])
append_nil [] ys h = (refl, h)
append_nil (x ∷ xs) ys h = ground arith

add_fields-IsBuilt :
    (r : Reg) (fs : List Field)
    → All Fits fs
    → (add_fields r fs).1 ≡ []
    → IsBuilt r
    → IsBuilt (add_fields r fs).0
unfolding add_fields
add_fields-IsBuilt r [] fit quiet h = h
add_fields-IsBuilt r (f ∷ fs) fit quiet h =
    let split = append_nil (add_field r f).1 (add_fields (add_field r f).0 fs).1 quiet in
    add_fields-IsBuilt (add_field r f).0 fs fit.1 split.1 (add_field-IsBuilt r f fit.0 split.0 h)

-- Whatever fields that end below 2^32 are added to a new register, in whatever order: if no call reports
-- an error, the fields of the register are in the order of their positions and pairwise apart, the count
-- of used bits, though it is kept in 32 bits, is the sum of their sizes, and it is at most the size of the
-- register.
pub add_fields-new_reg :
    (n_bits : ℕ) (fs : List Field)
    → All Fits fs
    → (add_fields (new_reg n_bits) fs).1 ≡ []
    → let r = (add_fields (new_reg n_bits) fs).0 in
      IsLaidOut r.fields × (r.n_used_bits ≡ total r.fields) × (r.n_used_bits ≤ r.n_bits)
add_fields-new_reg n_bits fs fit quiet =
    let built =
      add_fields-IsBuilt (new_reg n_bits) fs fit quiet
        record { unlocked = refl; laid_out = tt; fits = tt; counted = refl; room = omega arith } in
    (built.laid_out, built.counted, built.room)
