-- ===== src/Factory/Fresh.antt =====
-- The overrides of those types that a search has not left yet.
use uvm_systemc.Common.{
  ℕ, suc, ◌+◌, ◌≤◌, ◌<◌, ◌≡◌, refl, ap, sym, ◌∙◌, subst, Bool, true, false, ◌||◌, Option, none,
  some, List, [], ◌∷◌, ◌++◌, arith, ◌==◌, if◌then◌else◌, All, inl, inr, Bool-cases, length,
}
use uvm_systemc.Common.Maps.{Map, find, nat_key, string_key}
use uvm_systemc.Factory.{Override, Factory, or_empty, is_type, first_match}
use uvm_systemc.Factory.Trace.{taken_for}

-- Every override of the factory.
abbrev pub queued : Map ℕ (List Override) → List Override
queued [] = []
queued ((w, q) ∷ m) = q ++ queued m

abbrev pub all_overrides : Factory → List Override
all_overrides f = f.m_type_overrides ++ queued f.m_inst_override_queues

-- An override of this type has been taken.
abbrev pub done_for : Option ℕ → List Override → Bool
done_for none info = false
done_for (some w) info = taken_for w info

abbrev pub done_with : Override → List Override → Bool
done_with o info = done_for o.orig_type info

-- The overrides of types for which none has been taken.
abbrev pub fresh : List Override → List Override → ℕ
fresh info [] = 0
fresh info (o ∷ os) = if done_with o info then fresh info os else suc (fresh info os)

pub fresh-length : (info os : List Override) → fresh info os ≤ length os
fresh-length info [] = omega arith
fresh-length info (o ∷ os) = ground (arith, fresh-length info os)

pub fresh-append :
    (info os ps : List Override) → fresh info (os ++ ps) ≡ fresh info os + fresh info ps
fresh-append info [] ps = omega arith
fresh-append info (o ∷ os) ps = ground (arith, fresh-append info os ps)

pub taken_for-append :
    (w : ℕ) (info : List Override) (o : Override)
    → taken_for w (info ++ (o ∷ [])) ≡ (taken_for w info || is_type o.orig_type w)
taken_for-append w [] o = ground arith
taken_for-append w (p ∷ info) o = ground (arith, taken_for-append w info o)

done_for-append :
    (t : Option ℕ) (info : List Override) (o : Override)
    → done_for t info ≡ true
    → done_for t (info ++ (o ∷ [])) ≡ true
done_for-append none info o e = e
done_for-append (some w) info o e =
    taken_for-append w info o ∙ ap (λ b. b || is_type o.orig_type w) e

pub fresh-shrinks :
    (info : List Override) (o : Override) (os : List Override)
    → fresh (info ++ (o ∷ [])) os ≤ fresh info os
fresh-shrinks info o [] = omega arith
fresh-shrinks info o (p ∷ os) =
    ground (arith, fresh-shrinks info o os, done_for-append p.orig_type info o)

-- The first override that passes a test is no longer fresh once it is taken.
pub fresh-drops :
    (info : List Override) (o : Override) (test : Override → Bool) (os : List Override)
    → first_match test os ≡ some o
    → done_with o info ≡ false
    → done_with o (info ++ (o ∷ [])) ≡ true
    → fresh (info ++ (o ∷ [])) os < fresh info os
fresh-drops info o test [] e before after = absurd (cc)
fresh-drops info o test (p ∷ os) e before after = elim (Bool-cases (test p)) [
  | inl here ↦
      let same : p ≡ o = found_here p o os here e in
      rw
        (
          ap (λ q. done_with q info) same ∙ before,
          ap (λ q. done_with q (info ++ (o ∷ []))) same ∙ after,
        )
        (omega (arith, fresh-shrinks info o os))
  | inr later ↦
      let e' : first_match test os ≡ some o = sym (skipped p os later) ∙ e in
      ground (arith, fresh-drops info o test os e' before after, done_for-append p.orig_type info o)
]
  where
    found_here :
        (p o : Override) (os : List Override)
        → test p ≡ true
        → first_match test (p ∷ os) ≡ some o
        → p ≡ o
    found_here p o os h e = cc

    skipped :
        (p : Override) (os : List Override)
        → test p ≡ false
        → first_match test (p ∷ os) ≡ first_match test os
    skipped p os h = rw h refl

pub fresh-drops_queued :
    (info : List Override) (o : Override) (test : Override → Bool) (w : ℕ)
    (m : Map ℕ (List Override))
    → first_match test (or_empty (find w m)) ≡ some o
    → done_with o info ≡ false
    → done_with o (info ++ (o ∷ [])) ≡ true
    → fresh (info ++ (o ∷ [])) (queued m) < fresh info (queued m)
unfolding find
fresh-drops_queued info o test w [] e before after = absurd (cc)
fresh-drops_queued info o test w ((j, q) ∷ m) e before after =
    let split = fresh-append info q (queued m) in
    let split' = fresh-append (info ++ (o ∷ [])) q (queued m) in
    elim (Bool-cases (j == w)) [
      | inl here ↦
          let e' : first_match test q ≡ some o =
            sym (ap (λ b. first_match test (or_empty (if b then some q else find w m))) here) ∙ e in
          omega (
            arith,
            split,
            split',
            fresh-drops info o test q e' before after,
            fresh-shrinks info o (queued m),
          )
      | inr later ↦
          let e' : first_match test (or_empty (find w m)) ≡ some o =
            sym (ap (λ b. first_match test (or_empty (if b then some q else find w m))) later)
            ∙ e in
          omega (
            arith,
            split,
            split',
            fresh-drops_queued info o test w m e' before after,
            fresh-shrinks info o q,
          )
    ]

pub first_match_passes :
    (test : Override → Bool) (P : Override → Type 0) (os : List Override) (o : Override)
    → All P os
    → first_match test os ≡ some o
    → P o × (test o ≡ true)
first_match_passes test P [] o a e = absurd (cc)
first_match_passes test P (p ∷ os) o a e = elim (Bool-cases (test p)) [
  | inl here ↦
      let same : p ≡ o =
        some_injective (sym (ap (λ b. if b then some p else first_match test os) here) ∙ e) in
      (subst P same (a.0), ap test (sym same) ∙ here)
  | inr later ↦
      first_match_passes test P os o a.1
        (sym (ap (λ b. if b then some p else first_match test os) later) ∙ e)
]
  where
    some_injective : {a b : Override} → some a ≡ some b → a ≡ b
    some_injective e = cc
