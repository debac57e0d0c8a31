-- ===== src/Packer/Items.antt =====
-- Any run of packing calls, and the run of unpacking calls that matches it.
use uvm_systemc.Common.{ℕ, ◌<◌, ◌≤◌, ◌≡◌, Bool, none, List, [], ◌∷◌, ◌++◌, length, take, All}
use uvm_systemc.Packer.{
  Packer, swap, pad, null_char, pack_field_int, pack_char, pack_string, pack_bool, pack_sc_bv_base,
  unpack_field_int, unpack_char, unpack_bool, unpack_sc_bv_base, unpack_string,
}
use uvm_systemc.Packer.Strings.{IsChar, char_bits}

-- The argument of a packing call.
pub data Item : Type 0 where
  integral : (value : List Bool) (size : ℕ) → Item
  character : List Bool → Item
  boolean : Bool → Item
  vector : List Bool → Item
  text : List (List Bool) → Item

-- An unpacking call.
pub data Shape : Type 0 where
  get_integral : ℕ → Shape
  get_character : Shape
  get_boolean : Shape
  get_vector : ℕ → Shape
  get_text : Shape

abbrev pub shape : Item → Shape
shape (Item.integral v n) = Shape.get_integral n
shape (Item.character c) = Shape.get_character
shape (Item.boolean b) = Shape.get_boolean
shape (Item.vector vs) = Shape.get_vector (length vs)
shape (Item.text cs) = Shape.get_text

abbrev pub pack_item : Packer → Item → Packer
pack_item p (Item.integral v n) = pack_field_int p v n
pack_item p (Item.character c) = pack_char p c
pack_item p (Item.boolean b) = pack_bool p b
pack_item p (Item.vector vs) = pack_sc_bv_base p vs
pack_item p (Item.text cs) = pack_string p cs

abbrev pub tagged : {A : Type 0} → (A → Item) → Packer × A → Packer × Item
tagged f r = (r.0, f r.1)

abbrev pub unpack_item : Packer → Shape → Packer × Item
unpack_item p (Shape.get_integral n) = tagged (λ v. Item.integral v n) (unpack_field_int p n)
unpack_item p Shape.get_character = tagged Item.character (unpack_char p)
unpack_item p Shape.get_boolean = tagged Item.boolean (unpack_bool p)
unpack_item p (Shape.get_vector n) = tagged Item.vector (unpack_sc_bv_base p n)
unpack_item p Shape.get_text = tagged Item.text (unpack_string p none)

abbrev pub pack_all : Packer → List Item → Packer
pack_all p [] = p
pack_all p (i ∷ is) = pack_all (pack_item p i) is

abbrev pub unpack_all : Packer → List Shape → Packer × List Item
unpack_all p [] = (p, [])
unpack_all p (s ∷ ss) =
    let r = unpack_item p s in let rest = unpack_all r.0 ss in (rest.0, r.1 ∷ rest.1)

-- An integral value of 64 bits keeps the bits that were packed.
abbrev pub trimmed : Item → Item
trimmed (Item.integral v n) = Item.integral (pad 64 (take n v)) n
trimmed i = i

-- The argument has the bits its type has: from 1 to 64 bits of an integral value, eight of a character, and
-- no terminator within a string.
abbrev pub IsItem : Item → Type 0
IsItem (Item.integral v n) = (length v ≡ 64) × (0 < n) × (n ≤ 64)
IsItem (Item.character c) = length c ≡ 8
IsItem (Item.boolean b) = Unit
IsItem (Item.vector vs) = Unit
IsItem (Item.text cs) = All IsChar cs

-- The bits of an item on the queue.
abbrev pub item_bits : Packer → Item → List Bool
item_bits p (Item.integral v n) = swap p (take n v)
item_bits p (Item.character c) = swap p c
item_bits p (Item.boolean b) = b ∷ []
item_bits p (Item.vector vs) = vs
item_bits p (Item.text cs) = char_bits p cs ++ swap p null_char

abbrev pub all_bits : Packer → List Item → List Bool
all_bits p [] = []
all_bits p (i ∷ is) = item_bits p i ++ all_bits p is
