-- ===== src/Packer/Samples.antt =====
-- Runs of the packer.
use uvm_systemc.Common.{◌≡◌, refl, Bool, true, false, List, [], ◌∷◌, arith, replicate}
use uvm_systemc.Packer.{Packer, new_packer, reset, put_bits, get_bits}
use uvm_systemc.Packer.Storage.{contents}
use uvm_systemc.Packer.Items.{Item, shape, trimmed, pack_all, unpack_all}
use uvm_systemc.Packer.Refinement.{Call, run, Runs, Represents, run-Runs}
use uvm_systemc.Packer.Transfer.{unpack_all-put_bits}

abbrev with_metadata : Packer
with_metadata = record new_packer { use_metadata = true; big_endian = true }

abbrev letter : List Bool
letter = true ∷ false ∷ false ∷ false ∷ false ∷ false ∷ true ∷ false ∷ []

abbrev five : Item
five = Item.integral (true ∷ false ∷ true ∷ replicate 61 false) 3

abbrev word : Item
word = Item.text (letter ∷ letter ∷ [])

abbrev calls : List Call
calls =
    Call.pack five
    ∷ Call.pack word
    ∷ Call.unpack (shape five)
    ∷ Call.pack (Item.boolean true)
    ∷ Call.unpack (shape word)
    ∷ []

with_metadata-Represents : Represents with_metadata []
unfolding contents
with_metadata-Represents = record {
  valid = record { ordered = omega arith; sized = omega arith; stored = omega arith };
  metadata = refl;
  items = tt;
  queued = refl;
}

run-Runs_example :
    ((run with_metadata calls).1 ≡ trimmed five ∷ trimmed word ∷ [])
    × Represents ((run with_metadata calls).0) (Item.boolean true ∷ [])
run-Runs_example =
    run-Runs with_metadata [] calls (trimmed five ∷ trimmed word ∷ []) (Item.boolean true ∷ [])
      with_metadata-Represents
      (Runs.packs (refl, omega arith, omega arith)
        (Runs.packs ((refl, refl), ((refl, refl), tt))
          (Runs.unpacks (Runs.packs tt (Runs.unpacks Runs.done)))))

unpack_all-put_bits_example :
    ((unpack_all
        (put_bits with_metadata (get_bits (pack_all (reset with_metadata) (five ∷ word ∷ []))))
        (shape five ∷ shape word ∷ [])).1
      ≡ trimmed five ∷ trimmed word ∷ [])
    × (contents
          (unpack_all
            (put_bits with_metadata (get_bits (pack_all (reset with_metadata) (five ∷ word ∷ []))))
            (shape five ∷ shape word ∷ [])).0
        ≡ [])
unpack_all-put_bits_example =
    unpack_all-put_bits with_metadata with_metadata (five ∷ word ∷ []) refl refl refl
      ((refl, omega arith, omega arith), (((refl, refl), ((refl, refl), tt)), tt))
