-- ===== src/Packer/Strings.antt =====
-- Strings on the queue of bits, and what `unpack_string` takes of them.
use uvm_systemc.Common.{
  ℕ, zero, suc, ◌-◌, ◌*◌, ◌/◌, ◌<◌, ◌≡◌, refl, ap, sym, ◌∙◌, subst, Bool, true, ◌&&◌, none, List,
  [], ◌∷◌, ◌++◌, arith, if◌then◌else◌, length, All, length-append,
}
use mathlib.Core.List.{append_assoc}
use uvm_systemc.Packer.{
  Packer, read, swap, any, null_char, inc_unpack_index, m_enough_bits, unpack_chars, unpack_string,
}
use uvm_systemc.Packer.Storage.{IsValid, contents, length-read}
use uvm_systemc.Packer.Fields.{Took, front_of, any-swap, length-swap}

-- A character of eight bits, not all of them zero.
abbrev pub IsChar : List Bool → Type 0
IsChar c = (length c ≡ 8) × (any c ≡ true)

-- The bits of a string's characters, in the packer's order.
abbrev pub char_bits : Packer → List (List Bool) → List Bool
char_bits p [] = []
char_bits p (c ∷ cs) = swap p c ++ char_bits p cs

length-char_bits :
    (p : Packer) (cs : List (List Bool)) → All IsChar cs → length (char_bits p cs) ≡ 8 * length cs
length-char_bits p [] ok = refl
length-char_bits p (c ∷ cs) ok = omega (
  arith,
  length-append (swap p c) (char_bits p cs),
  length-swap p c,
  ok.0.0,
  length-char_bits p cs ok.1,
)

any-front :
    (p : Packer) (vs : List Bool)
    → swap p (read p.bits p.unpack_index 8) ≡ vs
    → any (read p.bits p.unpack_index 8) ≡ any vs
any-front p vs e = sym (any-swap p (read p.bits p.unpack_index 8)) ∙ ap any e

-- The loop stops at the terminator and not before, given fuel for every character.
unpack_chars-Took :
    (fuel : ℕ) (p : Packer) (cs : List (List Bool)) (rest : List Bool)
    → IsValid p
    → All IsChar cs
    → length cs < fuel
    → contents p ≡ char_bits p cs ++ (swap p null_char ++ rest)
    → Took p (unpack_chars fuel p none) cs (swap p null_char ++ rest)
unfolding unpack_chars
unpack_chars-Took zero p cs rest valid ok h e = absurd (omega arith)
unpack_chars-Took (suc fuel) p [] rest valid ok h e =
    let f = front_of p null_char rest 8 valid e refl in
    rw (f.0, any-front p null_char f.1)
      record { value = refl; left = e; valid = valid; same_order = refl; same_metadata = refl }
unpack_chars-Took (suc fuel) p (c ∷ cs) rest valid ok h e =
    let f =
      front_of p c (char_bits p cs ++ (swap p null_char ++ rest)) 8 valid
        (e ∙ append_assoc (swap p c) (char_bits p cs) (swap p null_char ++ rest)) ok.0.0 in
    let more = unpack_chars-Took fuel (inc_unpack_index p 8) cs rest f.3 ok.1 (omega arith) f.2 in
    rw (f.0, any-front p c f.1, ok.0.1)
      record {
        value = cc (more.value, f.1);
        left = more.left;
        valid = more.valid;
        same_order = more.same_order;
        same_metadata = more.same_metadata;
      }

enough_fuel :
    (p : Packer) (cs : List (List Bool)) (rest : List Bool)
    → All IsChar cs
    → contents p ≡ char_bits p cs ++ rest
    → length cs < suc ((p.pack_index - p.unpack_index) / 8)
unfolding contents
enough_fuel p cs rest ok e =
    let total : p.pack_index - p.unpack_index ≡ length (char_bits p cs ++ rest) =
      sym (length-read p.bits p.unpack_index (p.pack_index - p.unpack_index)) ∙ ap length e in
    omega (arith, total, length-append (char_bits p cs) rest, length-char_bits p cs ok)

skip_null :
    (p q : Packer) (cs : List (List Bool)) (rest : List Bool)
    → p.use_metadata ≡ true
    → Took p (q, cs) cs (swap p null_char ++ rest)
    → Took p
        (if q.use_metadata && m_enough_bits q 8 then (inc_unpack_index q 8, cs) else (q, cs))
        cs
        rest
skip_null p q cs rest meta t =
    let here : contents q ≡ swap q null_char ++ rest =
      t.left
      ∙ ap (λ b. (if b then swap (record p { big_endian = true }) null_char else null_char) ++ rest)
          (sym t.same_order) in
    let f = front_of q null_char rest 8 t.valid here refl in
    let on : q.use_metadata ≡ true = t.same_metadata ∙ meta in
    let both : (q.use_metadata && m_enough_bits q 8) ≡ true =
      ap (λ b. b && m_enough_bits q 8) on ∙ f.0 in
    subst (λ b. Took p (if b then (inc_unpack_index q 8, cs) else (q, cs)) cs rest) (sym both)
      record {
        value = refl;
        left = f.2;
        valid = f.3;
        same_order = t.same_order;
        same_metadata = t.same_metadata;
      }

pub unpack_string-Took :
    (p : Packer) (cs : List (List Bool)) (rest : List Bool)
    → IsValid p
    → p.use_metadata ≡ true
    → All IsChar cs
    → contents p ≡ char_bits p cs ++ (swap p null_char ++ rest)
    → Took p (unpack_string p none) cs rest
unfolding unpack_string
unpack_string-Took p cs rest valid meta ok e =
    let t =
      unpack_chars-Took (suc ((p.pack_index - p.unpack_index) / 8)) p cs rest valid ok
        (enough_fuel p cs (swap p null_char ++ rest) ok e) e in
    let r = unpack_chars (suc ((p.pack_index - p.unpack_index) / 8)) p none in
    subst
      (λ ds.
        Took p
          (if Packer.use_metadata r.0 && m_enough_bits r.0 8
            then (inc_unpack_index r.0 8, ds)
            else (r.0, ds))
          cs rest)
      (sym t.value)
      (skip_null p r.0 cs rest meta record {
        value = refl;
        left = t.left;
        valid = t.valid;
        same_order = t.same_order;
        same_metadata = t.same_metadata;
      })
