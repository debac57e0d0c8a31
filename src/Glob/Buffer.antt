-- ===== src/Glob/Buffer.antt =====
-- The text that a glob is turned into: its form and its length.
use uvm_systemc.Common.{
  ℕ, zero, suc, ◌+◌, ◌≤◌, ◌<◌, ◌≡◌, refl, ap, true, false, ◌&&◌, ◌||◌, List, [], ◌∷◌, ◌++◌, arith,
  ◌==◌, ltb, if◌then◌else◌, length, length-append, replicate, Bool-cases, inl, inr,
}
use uvm_systemc.Glob.{
  slash, caret, dollar, star, translate, translate_all, starts_with, ends_with, uvm_glob_to_re,
}

length-translate : (c : ℕ) → length (translate c) ≤ 2
length-translate c = ground arith

length-translate_all : (cs : List ℕ) → length (translate_all cs) ≤ length cs + length cs
length-translate_all [] = omega arith
length-translate_all (c ∷ cs) = omega (
  arith,
  length-append (translate c) (translate_all cs),
  length-translate c,
  length-translate_all cs,
)

-- The text before the closing slash.
abbrev body : List ℕ → List ℕ
body glob = (slash ∷ (if starts_with caret glob then [] else caret ∷ [])) ++ translate_all glob

abbrev anchored : List ℕ → List ℕ
anchored text = if ends_with dollar text then text else text ++ (dollar ∷ [])

length-body : (glob : List ℕ) → length (body glob) ≤ length glob + length glob + 2
length-body glob = elim (Bool-cases (starts_with caret glob)) [
  | inl yes_it ↦ rw yes_it (omega (arith, length-translate_all glob))
  | inr not_it ↦ rw not_it (omega (arith, length-translate_all glob))
]

length-anchored : (text : List ℕ) → length (anchored text ++ (slash ∷ [])) ≤ length text + 2
length-anchored text = elim (Bool-cases (ends_with dollar text)) [
  | inl yes_it ↦ rw yes_it (omega (arith, length-append text (slash ∷ [])))
  | inr not_it ↦ rw not_it (
      omega (
        arith,
        length-append (text ++ (dollar ∷ [])) (slash ∷ []),
        length-append text (dollar ∷ []),
      ))
]

-- What becomes of a glob.
data Becomes (glob : List ℕ) : List ℕ → Type 0 where
  itself : Becomes glob glob
  empty : Becomes glob []
  wrapped : Becomes glob (anchored (body glob) ++ (slash ∷ []))

uvm_glob_to_re-Becomes : (glob : List ℕ) → Becomes glob (uvm_glob_to_re glob)
unfolding uvm_glob_to_re
uvm_glob_to_re-Becomes glob = elim (Bool-cases (ltb 2040 (length glob))) [
  | inl long ↦ rw long Becomes.itself
  | inr short ↦
      elim (Bool-cases ((length glob == 0) || ((length glob == 1) && starts_with slash glob))) [
        | inl nothing ↦ rw (short, nothing) Becomes.empty
        | inr something ↦ elim (Bool-cases (starts_with slash glob && ends_with slash glob)) [
          | inl already ↦ rw (short, something, already) Becomes.itself
          | inr plain ↦ rw (short, something, plain) Becomes.wrapped
        ]
      ]
]

Becomes-fits : (glob re : List ℕ) → Becomes glob re → length re ≤ length glob + length glob + 4
Becomes-fits glob _ Becomes.itself = omega arith
Becomes-fits glob _ Becomes.empty = omega arith
Becomes-fits glob _ Becomes.wrapped = omega (arith, length-anchored (body glob), length-body glob)

-- A glob of stars doubles.
stars-length : (n : ℕ) → length (translate_all (replicate n star)) ≡ n + n
stars-length zero = refl
stars-length (suc n) = omega (arith, stars-length n)

length-replicate : (n x : ℕ) → length (replicate n x) ≡ n
length-replicate zero x = refl
length-replicate (suc n) x = ap suc (length-replicate n x)

anchored-longer : (text : List ℕ) → length text + 1 ≤ length (anchored text ++ (slash ∷ []))
anchored-longer text = elim (Bool-cases (ends_with dollar text)) [
  | inl yes_it ↦ rw yes_it (omega (arith, length-append text (slash ∷ [])))
  | inr not_it ↦ rw not_it (
      omega (
        arith,
        length-append (text ++ (dollar ∷ [])) (slash ∷ []),
        length-append text (dollar ∷ []),
      ))
]

not_empty : (l : ℕ) → ((suc l == 0) || ((suc l == 1) && false)) ≡ false
not_empty l = ground arith

stars :
    (n : ℕ)
    → n < 2040
    → uvm_glob_to_re (replicate (suc n) star)
      ≡ anchored (body (replicate (suc n) star)) ++ (slash ∷ [])
unfolding uvm_glob_to_re
stars n short =
    let fits : ltb 2040 (suc (length (replicate n star))) ≡ false =
      ground (arith, short, length-replicate n star) in
    rw (fits, not_empty (length (replicate n star))) refl

stars-long : (n : ℕ) → n < 2040 → n + n + 5 ≤ length (uvm_glob_to_re (replicate (suc n) star))
stars-long n short =
    let longer = anchored-longer (body (replicate (suc n) star)) in
    let e = ap length (stars n short) in omega (arith, longer, e, stars-length n)

-- The text that a glob of at most 1021 characters is turned into has room, with its terminator, in the
-- buffer of 2048 characters; but of more than 1022 stars, at most the 2040 characters that are let pass, the
-- text has none.
pub uvm_glob_to_re-fits :
    (glob : List ℕ) (n : ℕ)
    → length glob ≤ 1021
    → 1022 < n
    → n ≤ 2040
    → (length (uvm_glob_to_re glob) + 1 ≤ 2048)
      × (2048 < length (uvm_glob_to_re (replicate n star)) + 1)
uvm_glob_to_re-fits glob zero short many most = absurd (omega arith)
uvm_glob_to_re-fits glob (suc n) short many most = (
  omega (arith, short, Becomes-fits glob (uvm_glob_to_re glob) (uvm_glob_to_re-Becomes glob)),
  omega (arith, many, stars-long n (omega (arith, most))),
)

ends-append : (xs : List ℕ) → ends_with slash (xs ++ (slash ∷ [])) ≡ true
ends-append [] = refl
ends-append (x ∷ []) = refl
ends-append (x ∷ y ∷ xs) = ends-append (y ∷ xs)

long_enough : (l : ℕ) → 1 < l → ((l == 0) || ((l == 1) && true)) ≡ false
long_enough l h = ground (arith, h)

-- A text between slashes is kept.
kept :
    (text : List ℕ)
    → uvm_glob_to_re (slash ∷ (text ++ (slash ∷ []))) ≡ slash ∷ (text ++ (slash ∷ []))
unfolding uvm_glob_to_re
kept text =
    let re = slash ∷ (text ++ (slash ∷ [])) in
    let two = long_enough (length re) (omega (arith, length-append text (slash ∷ []))) in
    elim (Bool-cases (ltb 2040 (length re))) [
      | inl long ↦ rw long refl
      | inr short ↦ rw (short, two, ends-append (slash ∷ text)) refl
    ]

wrapped_kept :
    (glob : List ℕ)
    → uvm_glob_to_re (anchored (body glob) ++ (slash ∷ [])) ≡ anchored (body glob) ++ (slash ∷ [])
wrapped_kept glob = elim (Bool-cases (ends_with dollar (body glob))) [
  | inl yes_it ↦ rw yes_it (kept _)
  | inr not_it ↦ rw not_it (kept _)
]

of_empty : uvm_glob_to_re [] ≡ []
unfolding uvm_glob_to_re
of_empty = refl

Becomes-kept :
    (glob re : List ℕ) → Becomes glob re → uvm_glob_to_re glob ≡ re → uvm_glob_to_re re ≡ re
Becomes-kept glob _ Becomes.itself e = e
Becomes-kept glob _ Becomes.empty e = of_empty
Becomes-kept glob _ Becomes.wrapped e = wrapped_kept glob

-- A regular expression that a glob has been turned into stays as it is when it is taken for a glob again.
pub uvm_glob_to_re-idempotent :
    (glob : List ℕ) → uvm_glob_to_re (uvm_glob_to_re glob) ≡ uvm_glob_to_re glob
uvm_glob_to_re-idempotent glob =
    Becomes-kept glob (uvm_glob_to_re glob) (uvm_glob_to_re-Becomes glob) refl
