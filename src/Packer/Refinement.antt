-- ===== src/Packer/Refinement.antt =====
-- The packer as a queue of items: packing calls and unpacking calls in any order.
use uvm_systemc.Common.{◌≡◌, refl, ap, sym, ◌∙◌, true, List, [], ◌∷◌, ◌++◌, All, All-append}
use mathlib.Core.List.{append_assoc, append-nil}
use uvm_systemc.Packer.{Packer}
use uvm_systemc.Packer.Storage.{IsValid, contents}
use uvm_systemc.Packer.Fields.{Took}
use uvm_systemc.Packer.Items.{
  Item, Shape, shape, trimmed, IsItem, pack_item, unpack_item, item_bits, all_bits,
}
use uvm_systemc.Packer.Packing.{all_bits_same, pack_item-Put, unpack_item-Took}

pub data Call : Type 0 where
  pack : Item → Call
  unpack : Shape → Call

-- The packer after some calls, and what the unpacking calls among them returned.
abbrev pub run : Packer → List Call → Packer × List Item
run p [] = (p, [])
run p (Call.pack i ∷ cs) = run (pack_item p i) cs
run p (Call.unpack s ∷ cs) =
    let r = unpack_item p s in let rest = run r.0 cs in (rest.0, r.1 ∷ rest.1)

-- The specification: calls on a queue of items, what they return, and the queue they leave. An unpacking
-- call asks for the shape of the item at the front.
pub data Runs : List Item → List Call → List Item → List Item → Type 0 where
  done : {is : List Item} → Runs is [] [] is
  packs :
      {is : List Item} {i : Item} {cs : List Call} {out left : List Item}
      → IsItem i
      → Runs (is ++ (i ∷ [])) cs out left
      → Runs is (Call.pack i ∷ cs) out left
  unpacks :
      {is : List Item} {i : Item} {cs : List Call} {out left : List Item}
      → Runs is cs out left
      → Runs (i ∷ is) (Call.unpack (shape i) ∷ cs) (trimmed i ∷ out) left

-- The packer's bits are those of the queued items, and it packs strings with their terminators.
pub record Represents (p : Packer) (is : List Item) : Type 0 where
  pub valid : IsValid p
  pub metadata : p.use_metadata ≡ true
  pub items : All IsItem is
  pub queued : contents p ≡ all_bits p is

all_bits-append :
    (p : Packer) (is : List Item) (i : Item)
    → all_bits p (is ++ (i ∷ [])) ≡ all_bits p is ++ item_bits p i
all_bits-append p [] i = append-nil (item_bits p i)
all_bits-append p (j ∷ is) i =
    ap (λ vs. item_bits p j ++ vs) (all_bits-append p is i)
    ∙ sym (append_assoc (item_bits p j) (all_bits p is) (item_bits p i))

pack_item-Represents :
    (p : Packer) (is : List Item) (i : Item)
    → Represents p is
    → IsItem i
    → Represents (pack_item p i) (is ++ (i ∷ []))
pack_item-Represents p is i r ok =
    let put = pack_item-Put p i r.valid r.metadata in
    record {
      valid = put.valid;
      metadata = put.same_metadata ∙ r.metadata;
      items = All-append IsItem is (i ∷ []) r.items (ok, tt);
      queued =
          put.appended
          ∙ ap (λ vs. vs ++ item_bits p i) r.queued
          ∙ sym (all_bits-append p is i)
          ∙ sym (all_bits_same p (pack_item p i) (is ++ (i ∷ [])) put.same_order);
    }

Took-Represents :
    (p : Packer) (is : List Item) (r : Packer × Item) (a : Item)
    → p.use_metadata ≡ true
    → All IsItem is
    → Took p r a (all_bits p is)
    → Represents r.0 is
Took-Represents p is r a meta ok t = record {
  valid = t.valid;
  metadata = t.same_metadata ∙ meta;
  items = ok;
  queued = t.left ∙ sym (all_bits_same p r.0 is t.same_order);
}

unpack_item-Represents :
    (p : Packer) (is : List Item) (i : Item)
    → Represents p (i ∷ is)
    → ((unpack_item p (shape i)).1 ≡ trimmed i) × Represents ((unpack_item p (shape i)).0) is
unpack_item-Represents p is i r =
    let t = unpack_item-Took p i (all_bits p is) r.valid r.metadata r.items.0 r.queued in
    (t.value, Took-Represents p is (unpack_item p (shape i)) (trimmed i) r.metadata r.items.1 t)

-- Packing and unpacking calls in any order act on a packer, which packs with metadata, as on a queue of
-- items: from a packer that represents a queue, they return what the specification returns, and leave a
-- packer that represents the queue the specification leaves.
pub run-Runs :
    (p : Packer) (is : List Item) (cs : List Call) (out left : List Item)
    → Represents p is
    → Runs is cs out left
    → ((run p cs).1 ≡ out) × Represents ((run p cs).0) left
run-Runs p is _ _ _ r Runs.done = (refl, r)
run-Runs p is _ out left r (Runs.packs {i = i} {cs = cs} ok more) =
    run-Runs (pack_item p i) (is ++ (i ∷ [])) cs out left (pack_item-Represents p is i r ok) more
run-Runs p _ _ _ left r (Runs.unpacks {is = is} {i = i} {cs = cs} {out = out} more) =
    let step = unpack_item-Represents p is i r in
    let rest = run-Runs (unpack_item p (shape i)).0 is cs out left step.1 more in
    (cc (step.0, rest.0), rest.1)
