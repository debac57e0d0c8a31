-- ===== src/Factory/Trace.antt =====
-- The search by type of uvm_default_factory.cpp as a chain of single steps.
use Prim.Native.String.{String}
use mathlib.Core.List.{append_assoc, append-nil}
use uvm_systemc.Common.{
  ℕ, zero, suc, ◌≡◌, refl, ap, sym, ◌∙◌, subst, Bool, true, false, Option, none, some, List, [],
  ◌∷◌, ◌++◌, ◌==◌, ==_iff, ◌⊎◌, inl, inr, Bool-cases, Option-cases,
}
use uvm_systemc.Factory.{Override, Factory, Types, is_some, is_type, first_match}
use uvm_systemc.Factory.Search.{Found, noted, next_override, find_override_by_type}

-- The overrides that lead from one type to another, each the one that applies to the type before it.
pub data Chain (types : Types) (f : Factory) (path : String) : ℕ → List Override → ℕ → Type 0 where
  stop : {w : ℕ} → Chain types f path w [] w
  step :
      {w r : ℕ} {o : Override} {os : List Override}
      → next_override types f w path ≡ some o
      → Chain types f path o.ovrd_type os r
      → Chain types f path w (o ∷ os) r

-- Among the overrides taken there is one of this type.
abbrev pub taken_for : ℕ → List Override → Bool
taken_for w os = is_some (first_match (λ o. is_type o.orig_type w) os)

-- Why a search ended at a type: an override of the type has been taken, or none applies, or the one that
-- applies is by the type itself.
abbrev pub IsEnd : Types → Factory → String → List Override → Found → Type 0
IsEnd types f path os found =
    ((found.looped ≡ true) × (taken_for found.wrapper os ≡ true))
    ⊎ ((found.looped ≡ false) × (next_override types f found.wrapper path ≡ none))
    ⊎ ((found.looped ≡ false)
        × ((o : Override) × (next_override types f found.wrapper path ≡ some o)
            × (o.ovrd_type ≡ found.wrapper)))

abbrev Result : Types → Factory → String → ℕ → Factory × Found → Type 0
Result types f path w r =
    (os : List Override) × Chain types f path w os r.1.wrapper
    × (r.0 ≡ record f { m_override_info = f.m_override_info ++ os })
    × IsEnd types f path (f.m_override_info ++ os) r.1

some_injective : {A : Type 0} {a b : A} → some a ≡ some b → a ≡ b
some_injective e = cc

none_some : {A B : Type 0} {a : A} → none ≡ some a → B
none_some e = absurd (cc)

pub next_override-noted :
    (types : Types) (f : Factory) (o : Override) (w : ℕ) (path : String)
    → next_override types (noted f o) w path ≡ next_override types f w path
unfolding next_override
next_override-noted types f o w path = refl

Chain-noted :
    (types : Types) (f : Factory) (o : Override) (path : String) (w r : ℕ) (os : List Override)
    → Chain types (noted f o) path w os r
    → Chain types f path w os r
Chain-noted types f o path w _ _ Chain.stop = Chain.stop
Chain-noted types f o path w r _ (Chain.step {o = p} {os = os} e c) =
    Chain.step (sym (next_override-noted types f o w path) ∙ e)
      (Chain-noted types f o path p.ovrd_type r os c)

-- Of an answer, if there is one.
abbrev Each : {A : Type 0} → (A → Type 0) → Option A → Type 0
Each P none = Unit
Each P (some a) = P a

prepend :
    (types : Types) (f : Factory) (path : String) (w : ℕ) (o : Override) (r : Factory × Found)
    → next_override types f w path ≡ some o
    → Result types (noted f o) path o.ovrd_type r
    → Result types f path w r
prepend types f path w o r e (os, c, same, end) = (
  o ∷ os,
  Chain.step e (Chain-noted types f o path o.ovrd_type r.1.wrapper os c),
  same ∙ ap (λ i. record f { m_override_info = i }) all,
  moved end,
)
  where
    all : (f.m_override_info ++ (o ∷ [])) ++ os ≡ f.m_override_info ++ (o ∷ os)
    all = append_assoc f.m_override_info (o ∷ []) os

    moved :
        IsEnd types (noted f o) path ((f.m_override_info ++ (o ∷ [])) ++ os) r.1
        → IsEnd types f path (f.m_override_info ++ (o ∷ os)) r.1
    moved (inl (a, b)) = inl (a, ap (taken_for r.1.wrapper) (sym all) ∙ b)
    moved (inr (inl (a, b))) =
        inr (inl (a, sym (next_override-noted types f o r.1.wrapper path) ∙ b))
    moved (inr (inr (a, (p, b, c)))) =
        inr (inr (a, (p, sym (next_override-noted types f o r.1.wrapper path) ∙ b, c)))

prepend-Each :
    (types : Types) (f : Factory) (path : String) (w : ℕ) (o : Override)
    (r : Option (Factory × Found))
    → next_override types f w path ≡ some o
    → Each (Result types (noted f o) path o.ovrd_type) r
    → Each (Result types f path w) r
prepend-Each types f path w o none e t = tt
prepend-Each types f path w o (some r) e t = prepend types f path w o r e t

follows :
    (types : Types) (fuel : ℕ) (f : Factory) (w : ℕ) (path : String)
    → Each (Result types f path w) (find_override_by_type types fuel f w path)
unfolding find_override_by_type
follows types zero f w path = tt
follows types (suc fuel) f w path = elim (Bool-cases (taken_for w f.m_override_info)) [
  | inl seen ↦ rw seen (
    [],
    Chain.stop,
    cc (append-nil f.m_override_info),
    inl (refl, ap (taken_for w) (append-nil f.m_override_info) ∙ seen),
  )
  | inr fresh ↦ elim (Option-cases (next_override types f w path)) [
    | inl nothing ↦
        rw (fresh, nothing)
          ([], Chain.stop, cc (append-nil f.m_override_info), inr (inl (refl, nothing)))
    | inr (o, e) ↦ elim (Bool-cases (o.ovrd_type == w)) [
      | inl self ↦
          let self' : o.ovrd_type ≡ w = (==_iff o.ovrd_type w).0 self in
          rw (fresh, e, self)
            (
              o ∷ [],
              subst (λ r. Chain types f path w (o ∷ []) r) self' (Chain.step e Chain.stop),
              refl,
              inr (inr (refl, (o, e, self'))),
            )
      | inr other ↦
          rw (fresh, e, other)
            (prepend-Each types f path w o
              (find_override_by_type types fuel (noted f o) o.ovrd_type path) e
              (follows types fuel (noted f o) o.ovrd_type path))
    ]
  ]
]

-- A search by type that answers has followed a chain of overrides, each the one that applies to the type
-- before it, from the requested type to its answer. Up to there it has noted just these, and it stopped for
-- a reason: it reported a loop because an override of the answer had been taken, or no override applies to the
-- answer, or the one that applies is by the answer itself.
pub find_override_by_type-Chain :
    (types : Types) (fuel : ℕ) (f g : Factory) (w : ℕ) (path : String) (found : Found)
    → find_override_by_type types fuel f w path ≡ some (g, found)
    → (os : List Override) × Chain types f path w os found.wrapper
      × (g ≡ record f { m_override_info = f.m_override_info ++ os })
      × IsEnd types f path (f.m_override_info ++ os) found
find_override_by_type-Chain types fuel f g w path found e =
    subst (Each (Result types f path w)) e (follows types fuel f w path)
