-- ===== src/Packer/Packing.antt =====
-- What packing an item appends to the queue of bits, and what unpacking one takes from it.
use uvm_systemc.Common.{
  ◌≡◌, refl, ap, sym, ◌∙◌, subst, Bool, true, List, [], ◌∷◌, ◌++◌, arith, take, All, map,
}
use mathlib.Core.List.{append_assoc, append-nil}
use uvm_systemc.Packer.{
  Packer, swap, null_char, pack_bits, pack_field_int, pack_char, pack_chars, pack_string, pack_bool,
  pack_sc_bv_base,
}
use uvm_systemc.Packer.Storage.{
  IsValid, contents, contents-pack_bits, pack_bits-IsValid, pack_bits_keeps,
}
use uvm_systemc.Packer.Fields.{
  Took, unpack_field_int-Took, unpack_char-Took, unpack_bool-Took, unpack_sc_bv_base-Took,
}
use uvm_systemc.Packer.Strings.{char_bits, unpack_string-Took}
use uvm_systemc.Packer.Items.{
  Item, shape, pack_item, tagged, unpack_item, pack_all, unpack_all, trimmed, IsItem, item_bits,
  all_bits,
}

-- A step appended these bits and kept the packer's options.
pub record Put (p q : Packer) (vs : List Bool) : Type 0 where
  pub same_front : q.unpack_index ≡ p.unpack_index
  pub appended : contents q ≡ contents p ++ vs
  pub valid : IsValid q
  pub same_order : q.big_endian ≡ p.big_endian
  pub same_metadata : q.use_metadata ≡ p.use_metadata

Put-none : (p : Packer) → IsValid p → Put p p []
Put-none p valid = record {
  same_front = refl;
  appended = sym (append-nil (contents p));
  valid = valid;
  same_order = refl;
  same_metadata = refl;
}

Put-append : {p q r : Packer} {vs ws : List Bool} → Put p q vs → Put q r ws → Put p r (vs ++ ws)
Put-append {p} {q} {r} {vs} {ws} a b = record {
  same_front = b.same_front ∙ a.same_front;
  appended = b.appended ∙ ap (λ xs. xs ++ ws) a.appended ∙ append_assoc (contents p) vs ws;
  valid = b.valid;
  same_order = b.same_order ∙ a.same_order;
  same_metadata = b.same_metadata ∙ a.same_metadata;
}

pack_bits-Put : (p : Packer) (vs : List Bool) → IsValid p → Put p (pack_bits p vs) vs
pack_bits-Put p vs valid = record {
  same_front = (pack_bits_keeps p vs).2;
  appended = contents-pack_bits p vs valid;
  valid = pack_bits-IsValid p vs valid;
  same_order = (pack_bits_keeps p vs).0;
  same_metadata = (pack_bits_keeps p vs).1;
}

-- The order of bits depends on the option alone.
swap_same : (p q : Packer) (vs : List Bool) → q.big_endian ≡ p.big_endian → swap q vs ≡ swap p vs
swap_same p q vs e = rw e refl

char_bits_same :
    (p q : Packer) (cs : List (List Bool))
    → q.big_endian ≡ p.big_endian
    → char_bits q cs ≡ char_bits p cs
char_bits_same p q [] e = refl
char_bits_same p q (c ∷ cs) e = cc (swap_same p q c e, char_bits_same p q cs e)

item_bits_same :
    (p q : Packer) (i : Item) → q.big_endian ≡ p.big_endian → item_bits q i ≡ item_bits p i
item_bits_same p q (Item.integral v n) e = swap_same p q (take n v) e
item_bits_same p q (Item.character c) e = swap_same p q c e
item_bits_same p q (Item.boolean b) e = refl
item_bits_same p q (Item.vector vs) e = refl
item_bits_same p q (Item.text cs) e = cc (char_bits_same p q cs e, swap_same p q null_char e)

pub all_bits_same :
    (p q : Packer) (is : List Item) → q.big_endian ≡ p.big_endian → all_bits q is ≡ all_bits p is
all_bits_same p q [] e = refl
all_bits_same p q (i ∷ is) e = cc (item_bits_same p q i e, all_bits_same p q is e)

pack_chars-Put :
    (p : Packer) (cs : List (List Bool)) → IsValid p → Put p (pack_chars p cs) (char_bits p cs)
unfolding pack_char
pack_chars-Put p [] valid = Put-none p valid
pack_chars-Put p (c ∷ cs) valid =
    let one = pack_bits-Put p (swap p c) valid in
    let more = pack_chars-Put (pack_bits p (swap p c)) cs one.valid in
    subst (λ vs. Put p (pack_chars (pack_bits p (swap p c)) cs) (swap p c ++ vs))
      (char_bits_same p (pack_bits p (swap p c)) cs one.same_order) (Put-append one more)

pack_string-Put :
    (p : Packer) (cs : List (List Bool))
    → IsValid p
    → p.use_metadata ≡ true
    → Put p (pack_string p cs) (char_bits p cs ++ swap p null_char)
unfolding pack_string pack_char
pack_string-Put p cs valid meta =
    let chars = pack_chars-Put p cs valid in
    let q = pack_chars p cs in
    let on : q.use_metadata ≡ true = chars.same_metadata ∙ meta in
    rw on (
      subst (λ vs. Put p (pack_bits q (swap q null_char)) (char_bits p cs ++ vs))
        (swap_same p q null_char chars.same_order)
        (Put-append chars (pack_bits-Put q (swap q null_char) chars.valid)))

pub pack_item-Put :
    (p : Packer) (i : Item)
    → IsValid p
    → p.use_metadata ≡ true
    → Put p (pack_item p i) (item_bits p i)
unfolding pack_field_int pack_char pack_bool pack_sc_bv_base
pack_item-Put p (Item.integral v n) valid meta = pack_bits-Put p (swap p (take n v)) valid
pack_item-Put p (Item.character c) valid meta = pack_bits-Put p (swap p c) valid
pack_item-Put p (Item.boolean b) valid meta = pack_bits-Put p (b ∷ []) valid
pack_item-Put p (Item.vector vs) valid meta = pack_bits-Put p vs valid
pack_item-Put p (Item.text cs) valid meta = pack_string-Put p cs valid meta

pub pack_all-Put :
    (p : Packer) (is : List Item)
    → IsValid p
    → p.use_metadata ≡ true
    → Put p (pack_all p is) (all_bits p is)
pack_all-Put p [] valid meta = Put-none p valid
pack_all-Put p (i ∷ is) valid meta =
    let one = pack_item-Put p i valid meta in
    let more = pack_all-Put (pack_item p i) is one.valid (one.same_metadata ∙ meta) in
    subst (λ vs. Put p (pack_all (pack_item p i) is) (item_bits p i ++ vs))
      (all_bits_same p (pack_item p i) is one.same_order) (Put-append one more)

tag :
    {A : Type 0} {p : Packer} {r : Packer × A} {a : A} {rest : List Bool} (f : A → Item)
    → Took p r a rest
    → Took p (tagged f r) (f a) rest
tag f t = record {
  value = ap f t.value;
  left = t.left;
  valid = t.valid;
  same_order = t.same_order;
  same_metadata = t.same_metadata;
}

pub unpack_item-Took :
    (p : Packer) (i : Item) (rest : List Bool)
    → IsValid p
    → p.use_metadata ≡ true
    → IsItem i
    → contents p ≡ item_bits p i ++ rest
    → Took p (unpack_item p (shape i)) (trimmed i) rest
unpack_item-Took p (Item.integral v n) rest valid meta ok e =
    tag (λ w. Item.integral w n)
      (unpack_field_int-Took p v n rest valid (omega (arith, ok.0, ok.2)) e)
unpack_item-Took p (Item.character c) rest valid meta ok e =
    tag Item.character (unpack_char-Took p c rest valid ok e)
unpack_item-Took p (Item.boolean b) rest valid meta ok e =
    tag Item.boolean (unpack_bool-Took p b rest valid e)
unpack_item-Took p (Item.vector vs) rest valid meta ok e =
    tag Item.vector (unpack_sc_bv_base-Took p vs rest valid e)
unpack_item-Took p (Item.text cs) rest valid meta ok e = tag Item.text (
    unpack_string-Took p cs rest valid meta ok
      (e ∙ append_assoc (char_bits p cs) (swap p null_char) rest))

pub unpack_all-Took :
    (p : Packer) (is : List Item) (rest : List Bool)
    → IsValid p
    → p.use_metadata ≡ true
    → All IsItem is
    → contents p ≡ all_bits p is ++ rest
    → Took p (unpack_all p (map shape is)) (map trimmed is) rest
unpack_all-Took p [] rest valid meta ok e = record {
  value = refl;
  left = e;
  valid = valid;
  same_order = refl;
  same_metadata = refl;
}
unpack_all-Took p (i ∷ is) rest valid meta ok e =
    let one =
      unpack_item-Took p i (all_bits p is ++ rest) valid meta ok.0
        (e ∙ append_assoc (item_bits p i) (all_bits p is) rest) in
    let q = (unpack_item p (shape i)).0 in
    let more =
      unpack_all-Took q is rest one.valid (one.same_metadata ∙ meta) ok.1
        (one.left ∙ ap (λ vs. vs ++ rest) (sym (all_bits_same p q is one.same_order))) in
    record {
      value = cc (one.value, more.value);
      left = more.left;
      valid = more.valid;
      same_order = more.same_order ∙ one.same_order;
      same_metadata = more.same_metadata ∙ one.same_metadata;
    }
