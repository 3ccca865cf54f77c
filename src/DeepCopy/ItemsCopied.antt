-- ===== src/DeepCopy/ItemsCopied.antt =====
-- api/v1beta1/zz_generated.deepcopy.go: the copies of the items of a list, and what they own.
use horizon_issuer.Common.{
  ℕ, Bool, true, false, ◌||◌, Option, none, some, List, [], ◌∷◌, ◌≡◌, ◌≢◌, ◌⊎◌, arith, refl, inl,
  inr, ap, sym, ◌∙◌,
}
use horizon_issuer.Api.{Condition}
use horizon_issuer.DeepCopy.Heap.{Cell, Heap, HeapAction, IsHeap, Extends, write}
use horizon_issuer.DeepCopy.Copied.{Copied, kept_trans, older}
use horizon_issuer.DeepCopy.Objects.{ObjectStruct, copy_items, copy_issuer, copy_cluster_issuer}
use horizon_issuer.DeepCopy.ObjectCopied.{
  MetaLaws, ObjectValue, object_value, object_owns, object-Extends, object_owns-Extends,
  object-write, copy_issuer-Copied,
}
use horizon_issuer.DeepCopy.Separate.{Separate, Copied-Separate}

abbrev pub cons : {V : Type 0} → Option V → Option (List V) → Option (List V)
cons (some v) (some vs) = some (v ∷ vs)
cons _ _ = none

cons_parts :
    {V : Type 0} (x : Option V) (xs : Option (List V)) (v : V) (vs : List V)
    → cons x xs ≡ some (v ∷ vs)
    → (x ≡ some v) × (xs ≡ some vs)
cons_parts none xs v vs e = ground arith
cons_parts (some x) none v vs e = ground arith
cons_parts (some x) (some xs) v vs e = (ground arith, ground arith)

cons_full : {V : Type 0} (x : Option V) (xs : Option (List V)) → cons x xs ≢ some []
cons_full none xs = λ e. cc
cons_full (some x) none = λ e. cc
cons_full (some x) (some xs) = λ e. cc

one_of : (a b : Bool) → a || b ≡ true → (a ≡ true) ⊎ (b ≡ true)
one_of a b h = ground arith

none_of : (a b : Bool) → a || b ≡ false → (a ≡ false) × (b ≡ false)
none_of a b h = (ground arith, ground arith)

module _ (copy_condition : Condition → Condition) (copies : (c : Condition) → copy_condition c ≡ c)
    {Meta : Type 0} (copy_meta : Meta → HeapAction Meta) (laws : MetaLaws copy_meta) where
  abbrev value_of : Heap → ObjectStruct Meta → Option ObjectValue
  value_of = object_value copy_condition copies copy_meta laws

  abbrev cells_of : Heap → ObjectStruct Meta → ℕ → Bool
  cells_of = object_owns copy_condition copies copy_meta laws

  abbrev pub items_value : Heap → List (ObjectStruct Meta) → Option (List ObjectValue)
  items_value h [] = some []
  items_value h (o ∷ os) = cons (value_of h o) (items_value h os)

  abbrev pub items_own : Heap → List (ObjectStruct Meta) → ℕ → Bool
  items_own h [] a = false
  items_own h (o ∷ os) a = cells_of h o a || items_own h os a

  abbrev copy : ObjectStruct Meta → HeapAction (ObjectStruct Meta)
  copy = copy_issuer copy_condition copy_meta

  items-Extends :
      (h h' : Heap) (os : List (ObjectStruct Meta)) (vs : List ObjectValue)
      → Extends h h'
      → items_value h os ≡ some vs
      → items_value h' os ≡ some vs
  items-Extends h h' [] vs ext e = e
  items-Extends h h' (o ∷ os) [] ext e = absurd (cons_full (value_of h o) (items_value h os) e)
  items-Extends h h' (o ∷ os) (v ∷ vs) ext e =
      let (x, xs) = cons_parts (value_of h o) (items_value h os) v vs e in
      ap (λ y. cons y (items_value h' os))
        (object-Extends copy_condition copies copy_meta laws h h' o v ext x)
      ∙ ap (cons (some v)) (items-Extends h h' os vs ext xs)

  items-write :
      (h : Heap) (a : ℕ) (c : Cell) (os : List (ObjectStruct Meta))
      → items_own h os a ≡ false
      → items_value (write a c h) os ≡ items_value h os
  items-write h a c [] e = refl
  items-write h a c (o ∷ os) e =
      let (x, xs) = none_of (cells_of h o a) (items_own h os a) e in
      ap (λ y. cons y (items_value (write a c h) os))
        (object-write copy_condition copies copy_meta laws h a c o x)
      ∙ ap (cons (value_of h o)) (items-write h a c os xs)

  copy_items-Copied :
      (h : Heap)
      → IsHeap h
      → (os : List (ObjectStruct Meta)) (vs : List ObjectValue) → items_value h os ≡ some vs
      → Copied items_value items_own h vs (copy_items copy_condition copy_meta copy os h)
  copy_items-Copied h heap [] vs e = record {
    out = [];
    after = h;
    result = refl;
    heap = heap;
    kept = λ a c got. got;
    same = e;
    fresh = λ a owned. ground arith;
  }
  copy_items-Copied h heap (o ∷ os) [] e = absurd (cons_full (value_of h o) (items_value h os) e)
  copy_items-Copied h heap (o ∷ os) (v ∷ vs) e =
      let (x, xs) = cons_parts (value_of h o) (items_value h os) v vs e in
      let c = copy_issuer-Copied copy_condition copies copy_meta laws h heap o v x in
      let cs = copy_items-Copied c.after c.heap os vs (items-Extends h c.after os vs c.kept xs) in
      record {
        out = c.out ∷ cs.out;
        after = cs.after;
        result = ground (arith, c.result, cs.result);
        heap = cs.heap;
        kept = kept_trans h c.after cs.after c.kept cs.kept;
        same =
            ap (λ y. cons y (items_value cs.after cs.out))
              (object-Extends copy_condition copies copy_meta laws c.after cs.after c.out v cs.kept
                c.same)
            ∙ ap (cons (some v)) cs.same;
        fresh = λ a owned.
            elim (one_of (cells_of cs.after c.out a) (items_own cs.after cs.out a) owned) [
              | inl e1 ↦ c.fresh a (
                  sym (
                    object_owns-Extends copy_condition copies copy_meta laws c.after cs.after c.out
                      v cs.kept c.same a)
                  ∙ e1)
              | inr e2 ↦ older h c.after c.kept a (cs.fresh a e2)
            ];
      }

-- The loop over the items of an IssuerList, and that of a ClusterIssuerList, ends with items of the
-- same values in the same order, which share no memory with the originals: a write to a cell of the
-- copies leaves the values of the originals, and a write to a cell that was there before leaves the
-- values of the copies.
-- The originals' pointers lead to what they should, and a map lists no key twice; apimachinery's
-- copies of an ObjectMeta and of a Condition are as documented.
pub copy_items-Separate :
    (copy_condition : Condition → Condition) (copies : (c : Condition) → copy_condition c ≡ c)
    {Meta : Type 0} (copy_meta : Meta → HeapAction Meta) (laws : MetaLaws copy_meta) (h : Heap)
    → IsHeap h
    → (os : List (ObjectStruct Meta)) (vs : List ObjectValue)
    → items_value copy_condition copies copy_meta laws h os ≡ some vs
    → Separate
        (items_value copy_condition copies copy_meta laws)
        (items_own copy_condition copies copy_meta laws)
        h
        os
        vs
        (copy_items copy_condition copy_meta (copy_issuer copy_condition copy_meta) os h)
      × Separate
          (items_value copy_condition copies copy_meta laws)
          (items_own copy_condition copies copy_meta laws)
          h
          os
          vs
          (copy_items copy_condition copy_meta (copy_cluster_issuer copy_condition copy_meta) os h)
unfolding copy_issuer copy_cluster_issuer
copy_items-Separate copy_condition copies copy_meta laws h heap os vs e =
    let separate =
      Copied-Separate (items_value copy_condition copies copy_meta laws)
        (items_own copy_condition copies copy_meta laws)
        (items-Extends copy_condition copies copy_meta laws)
        (items-write copy_condition copies copy_meta laws) h os vs
        (copy_items copy_condition copy_meta (copy_issuer copy_condition copy_meta) os h) e
        (copy_items-Copied copy_condition copies copy_meta laws h heap os vs e) in
    (separate, separate)
