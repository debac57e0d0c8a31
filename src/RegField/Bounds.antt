-- ===== src/RegField/Bounds.antt =====
-- The values of a field fit its size, whatever operation is called.
use Prim.Native.Nat.{bit_and}
use Prim.Native.String.{String}
use uvm_systemc.Common.{
  subst, ℕ, ◌^◌, ◌/◌, ◌≤◌, ◌<◌, ◌≡◌, Bool, true, false, Option, none, some, [], ◌∷◌, arith, inl,
  inr, All, Option-cases, Bool-cases, ◌==◌, if◌then◌else◌,
}
use native.Mathlib.Nat.{one-le-pow}
use uvm_systemc.Common.Maps.{Map, Key, find, insert, erase, string_key}
use uvm_systemc.Common.Words.{bit_and-ones-lt, bit_and-ones_of_lt}
use uvm_systemc.RegField.{
  Field, uvm_mask_size, new_field, set_reset, configure, set_access, reset, has_reset, set,
  reset_to,
}
use uvm_systemc.RegField.Observing.{
  predict_direct, predict_read, predict_write, Kind, Observed, do_predict, predict_by_kind, assign,
  read_effect, read_assign, through_policy,
}
use uvm_systemc.RegField.Policy.{Access}
use uvm_systemc.RegField.Effects.{uvm_mask_size_lem}

pub record IsValid (f : Field) : Type 0 where
  pub positive : 0 < f.size
  pub word : f.size ≤ 64
  pub mirrored_fits : f.mirrored < 2 ^ f.size
  pub desired_fits : f.desired < 2 ^ f.size
  pub value_fits : f.value < 2 ^ f.size
  pub resets_fit : All (λ kv. kv.1 < 2 ^ f.size) f.resets

pub mask-lt : (n v : ℕ) → n ≤ 64 → bit_and v (uvm_mask_size n) < 2 ^ n
mask-lt n v h = rw (uvm_mask_size_lem n h) (bit_and-ones-lt n v)

pub mask_of_lt : (n v : ℕ) → n ≤ 64 → v < 2 ^ n → bit_and v (uvm_mask_size n) ≡ v
mask_of_lt n v h k = rw (uvm_mask_size_lem n h) (bit_and-ones_of_lt n v k)

module _ {K V : Type 0} ⦃key : Key K⦄ (P : V → Type 0) where
  insert-All :
      (k : K) (v : V) (m : Map K V) → P v → All (λ kv. P kv.1) m → All (λ kv. P kv.1) (insert k v m)
  unfolding insert
  insert-All k v [] p a = (p, tt)
  insert-All k v ((j, w) ∷ m) p a = elim (Bool-cases (key.same j k)) [
    | inl hit ↦ rw hit (p, a.1)
    | inr miss ↦ rw miss (a.0, insert-All k v m p a.1)
  ]

  erase-All : (k : K) (m : Map K V) → All (λ kv. P kv.1) m → All (λ kv. P kv.1) (erase k m)
  unfolding erase
  erase-All k [] a = tt
  erase-All k ((j, w) ∷ m) a = elim (Bool-cases (key.same j k)) [
    | inl hit ↦ rw hit (erase-All k m a.1)
    | inr miss ↦ rw miss (a.0, erase-All k m a.1)
  ]

  find-All : (k : K) (v : V) (m : Map K V) → All (λ kv. P kv.1) m → find k m ≡ some v → P v
  unfolding find
  find-All k v [] a e = cc
  find-All k v ((j, w) ∷ m) a e = elim (Bool-cases (key.same j k)) [
    | inl hit ↦ let same : w ≡ v = ground arith in subst P same a.0
    | inr miss ↦ find-All k v m a.1 (ground arith)
  ]

-- A field configured with at most 64 bits is valid.
pub configure-IsValid :
    (known : Access → Bool) (size lsb : ℕ) (access : Access) (is_volatile : Bool) (reset : Option ℕ)
    (individually : Bool)
    → size ≤ 64
    → IsValid (configure known new_field size lsb access is_volatile reset individually)
unfolding configure insert
configure-IsValid known size lsb access is_volatile none individually h =
    let sized : (0 < (if size == 0 then 1 else size)) × ((if size == 0 then 1 else size) ≤ 64) =
      (ground arith, ground arith) in
    let room = one-le-pow (if size == 0 then 1 else size) 2 (omega arith) in
    record {
      positive = sized.0;
      word = sized.1;
      mirrored_fits = room;
      desired_fits = room;
      value_fits = room;
      resets_fit = tt;
    }
configure-IsValid known size lsb access is_volatile (some v) individually h =
    let sized : (0 < (if size == 0 then 1 else size)) × ((if size == 0 then 1 else size) ≤ 64) =
      (ground arith, ground arith) in
    let room = one-le-pow (if size == 0 then 1 else size) 2 (omega arith) in
    record {
      positive = sized.0;
      word = sized.1;
      mirrored_fits = room;
      desired_fits = room;
      value_fits = room;
      resets_fit = (mask-lt (if size == 0 then 1 else size) v sized.1, tt);
    }

assign-IsValid : (f : Field) (v : ℕ) → v < 2 ^ f.size → IsValid f → IsValid (assign f v)
assign-IsValid f v k h = record {
  positive = h.positive;
  word = h.word;
  mirrored_fits = k;
  desired_fits = k;
  value_fits = k;
  resets_fit = h.resets_fit;
}

pub set_reset-IsValid :
    (f : Field) (v : ℕ) (kind : String) → IsValid f → IsValid (set_reset f v kind)
unfolding set_reset
set_reset-IsValid f v kind h = record {
  positive = h.positive;
  word = h.word;
  mirrored_fits = h.mirrored_fits;
  desired_fits = h.desired_fits;
  value_fits = h.value_fits;
  resets_fit = insert-All _ kind _ f.resets (mask-lt f.size v h.word) h.resets_fit;
}

pub reset-IsValid : (f : Field) (kind : String) → IsValid f → IsValid (reset f kind)
unfolding reset
reset-IsValid f kind h = elim (Option-cases (find kind f.resets)) [
  | inl missing ↦ rw (missing, reset_to) h
  | inr (v, found) ↦
      let fits = find-All (λ w. w < 2 ^ f.size) kind v f.resets h.resets_fit found in
      rw (found, reset_to)
        (record {
          positive = h.positive;
          word = h.word;
          mirrored_fits = fits;
          desired_fits = fits;
          value_fits = fits;
          resets_fit = h.resets_fit;
        })
]

pub has_reset-IsValid :
    (f : Field) (kind : String) (b : Bool) → IsValid f → IsValid (has_reset f kind b).0
unfolding has_reset
has_reset-IsValid f kind b h = elim (Option-cases (find kind f.resets)) [
  | inl missing ↦ rw (missing, has_reset) h
  | inr (v, found) ↦ rw (found, has_reset) (deleted b)
]
  where
    deleted : (b : Bool) → IsValid (if b then record f { resets = erase kind f.resets } else f)
    deleted false = h
    deleted true = record {
      positive = h.positive;
      word = h.word;
      mirrored_fits = h.mirrored_fits;
      desired_fits = h.desired_fits;
      value_fits = h.value_fits;
      resets_fit = erase-All (λ w. w < 2 ^ f.size) kind f.resets h.resets_fit;
    }

with_access-IsValid : (f : Field) (a : Access) → IsValid f → IsValid (record f { access = a })
with_access-IsValid f a h = record {
  positive = h.positive;
  word = h.word;
  mirrored_fits = h.mirrored_fits;
  desired_fits = h.desired_fits;
  value_fits = h.value_fits;
  resets_fit = h.resets_fit;
}

pub set_access-IsValid :
    (known : Access → Bool) (f : Field) (a : Access) → IsValid f → IsValid (set_access known f a).0
unfolding set_access
set_access-IsValid known f a h = elim (Bool-cases (known a)) [
  | inl defined ↦ rw defined (with_access-IsValid f a h)
  | inr unknown ↦ rw unknown h
]

small_of_shift : (n v : ℕ) → ((v / 2 ^ n) == 0) ≡ true → v < 2 ^ n
small_of_shift n v e = ground (arith, one-le-pow n 2)

pub set-IsValid : (f : Field) (v : ℕ) → IsValid f → IsValid (set f v)
unfolding set
set-IsValid f v h = elim (Bool-cases ((v / 2 ^ f.size) == 0)) [
  | inl small ↦ rw small (desired_to v (small_of_shift f.size v small))
  | inr large ↦ rw large (desired_to _ (mask-lt f.size v h.word))
]
  where
    desired_to : (w : ℕ) → w < 2 ^ f.size → IsValid (record f { desired = w; value = w })
    desired_to w k = record {
      positive = h.positive;
      word = h.word;
      mirrored_fits = h.mirrored_fits;
      desired_fits = k;
      value_fits = k;
      resets_fit = h.resets_fit;
    }

predict_by_kind-IsValid :
    (kind : Kind) (f : Field) (o : Observed) (v : ℕ)
    → v < 2 ^ f.size
    → IsValid f
    → IsValid (predict_by_kind kind f o v).0
unfolding predict_by_kind
predict_by_kind-IsValid predict_direct f o v k h = assign-IsValid f v k h
predict_by_kind-IsValid predict_write f o v k h =
    assign-IsValid (record f { written = true }) _ (mask-lt f.size _ h.word)
      (record {
        positive = h.positive;
        word = h.word;
        mirrored_fits = h.mirrored_fits;
        desired_fits = h.desired_fits;
        value_fits = h.value_fits;
        resets_fit = h.resets_fit;
      })
predict_by_kind-IsValid predict_read f o v k h =
    after (if through_policy o.path then read_effect o.access (uvm_mask_size f.size) v else some v)
  where
    after : (e : Option ℕ) → IsValid (read_assign f o e)
    after none = h
    after (some w) = assign-IsValid f _ (mask-lt f.size _ h.word) h

pub do_predict-IsValid :
    (kind : Kind) (f : Field) (o : Observed) → IsValid f → IsValid (do_predict kind f o).0
unfolding do_predict
do_predict-IsValid kind f o h = elim (Bool-cases o.enabled) [
  | inl on ↦ rw on (predict_by_kind-IsValid kind f _ _ (mask-lt f.size o.value h.word) h)
  | inr off ↦ rw off h
]
