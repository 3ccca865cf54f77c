-- ===== src/DeepCopy/ObjectCopied.antt =====
-- api/v1beta1/zz_generated.deepcopy.go: the copies of an Issuer and of a ClusterIssuer, and what
-- they own.
use horizon_issuer.Common.{
  ℕ, Bool, true, false, ◌||◌, Option, none, some, List, ◌≡◌, ◌⊎◌, arith, inl, inr, ap, sym, ◌∙◌,
}
use horizon_issuer.Api.{ObjectMeta, IssuerSpec, Condition}
use horizon_issuer.DeepCopy.Heap.{Cell, Heap, HeapAction, IsHeap, Extends, write}
use horizon_issuer.DeepCopy.Copied.{Copied, kept_trans, older, at-Extends}
use horizon_issuer.DeepCopy.Spec.{spec_value, spec_owns}
use horizon_issuer.DeepCopy.SpecCopied.{copy_spec-Copied, spec-Extends, spec_owns-Extends}
use horizon_issuer.DeepCopy.Frame.{at-write, spec-write}
use horizon_issuer.DeepCopy.Objects.{TypeMeta, ObjectStruct, copy_issuer, copy_cluster_issuer}
use horizon_issuer.DeepCopy.StatusCopied.{
  as_conditions, status_value, status_owns, copy_status-Copied,
}
use horizon_issuer.DeepCopy.Separate.{Separate, Copied-Separate}

-- What an object in memory stands for.
pub record ObjectValue : Type 0 where
  pub type_meta : TypeMeta
  pub metadata : ObjectMeta
  pub spec : IssuerSpec
  pub conditions : Option (List Condition)

-- apimachinery's copy of an ObjectMeta, as documented: it has the same value and shares nothing with
-- the original. What a metadata stands for depends on the cells that it owns.
pub record MetaLaws {Meta : Type 0} (copy_meta : Meta → HeapAction Meta) : Type 0 where
  pub value : Heap → Meta → Option ObjectMeta
  pub owns : Heap → Meta → ℕ → Bool
  pub copied :
      (h : Heap)
      → IsHeap h
      → (m : Meta) (v : ObjectMeta) → value h m ≡ some v
      → Copied value owns h v (copy_meta m h)
  pub value-Extends :
      (h h' : Heap) (m : Meta) (v : ObjectMeta)
      → Extends h h'
      → value h m ≡ some v
      → value h' m ≡ some v
  pub owns-Extends :
      (h h' : Heap) (m : Meta) (v : ObjectMeta)
      → Extends h h'
      → value h m ≡ some v
      → (a : ℕ) → owns h' m a ≡ owns h m a
  pub value-write :
      (h : Heap) (a : ℕ) (c : Cell) (m : Meta)
      → owns h m a ≡ false
      → value (write a c h) m ≡ value h m

abbrev pub object_of :
    TypeMeta
    → Option ObjectMeta
    → Option IssuerSpec
    → Option (Option (List Condition))
    → Option ObjectValue
object_of t (some m) (some s) (some cs) =
    some (record { type_meta = t; metadata = m; spec = s; conditions = cs })
object_of t _ _ _ = none

object_parts :
    (t : TypeMeta) (m : Option ObjectMeta) (s : Option IssuerSpec)
    (cs : Option (Option (List Condition))) (v : ObjectValue)
    → object_of t m s cs ≡ some v
    → (m ≡ some v.metadata) × ((s ≡ some v.spec) × ((cs ≡ some v.conditions) × (t ≡ v.type_meta)))
object_parts t none s cs v e = ground arith
object_parts t (some m) none cs v e = ground arith
object_parts t (some m) (some s) none v e = ground arith
object_parts t (some m) (some s) (some cs) v e =
    (ground arith, (ground arith, (ground arith, ground arith)))

ap_three :
    {A B C D : Type 0} (f : A → B → C → D) {a a' : A} {b b' : B} {c c' : C}
    → a ≡ a'
    → b ≡ b'
    → c ≡ c'
    → f a b c ≡ f a' b' c'
ap_three f p q r = cc

one_of : (a b c : Bool) → a || (b || c) ≡ true → (a ≡ true) ⊎ ((b ≡ true) ⊎ (c ≡ true))
one_of a b c h = ground arith

none_of : (a b c : Bool) → a || (b || c) ≡ false → (a ≡ false) × ((b ≡ false) × (c ≡ false))
none_of a b c h = (ground arith, (ground arith, ground arith))

module _ (copy_condition : Condition → Condition) (copies : (c : Condition) → copy_condition c ≡ c)
    {Meta : Type 0} (copy_meta : Meta → HeapAction Meta) (laws : MetaLaws copy_meta) where
  abbrev pub object_value : Heap → ObjectStruct Meta → Option ObjectValue
  object_value h o =
      object_of o.type_meta (laws.value h o.metadata) (spec_value h o.spec)
        (status_value h o.status)

  abbrev pub object_owns : Heap → ObjectStruct Meta → ℕ → Bool
  object_owns h o a = laws.owns h o.metadata a || (spec_owns h o.spec a || status_owns h o.status a)

  pub object-Extends :
      (h h' : Heap) (o : ObjectStruct Meta) (v : ObjectValue)
      → Extends h h'
      → object_value h o ≡ some v
      → object_value h' o ≡ some v
  object-Extends h h' o v ext e =
      let (m, (s, (cs, t))) =
        object_parts o.type_meta (laws.value h o.metadata) (spec_value h o.spec)
          (status_value h o.status) v e in
      ap_three (object_of o.type_meta) (laws.value-Extends h h' o.metadata v.metadata ext m ∙ sym m)
        (spec-Extends h h' o.spec v.spec ext s ∙ sym s)
        (at-Extends as_conditions h h' o.status.conditions v.conditions ext cs ∙ sym cs)
      ∙ e

  pub object_owns-Extends :
      (h h' : Heap) (o : ObjectStruct Meta) (v : ObjectValue)
      → Extends h h'
      → object_value h o ≡ some v
      → (a : ℕ) → object_owns h' o a ≡ object_owns h o a
  object_owns-Extends h h' o v ext e a =
      let (m, (s, (cs, t))) =
        object_parts o.type_meta (laws.value h o.metadata) (spec_value h o.spec)
          (status_value h o.status) v e in
      ap (λ x. x || (spec_owns h' o.spec a || status_owns h' o.status a))
        (laws.owns-Extends h h' o.metadata v.metadata ext m a)
      ∙ ap (λ x. laws.owns h o.metadata a || (x || status_owns h o.status a))
          (spec_owns-Extends h h' o.spec v.spec ext s a)

  pub object-write :
      (h : Heap) (a : ℕ) (c : Cell) (o : ObjectStruct Meta)
      → object_owns h o a ≡ false
      → object_value (write a c h) o ≡ object_value h o
  object-write h a c o e =
      let (m, (s, cs)) =
        none_of (laws.owns h o.metadata a) (spec_owns h o.spec a) (status_owns h o.status a) e in
      ap_three (object_of o.type_meta) (laws.value-write h a c o.metadata m)
        (spec-write h a c o.spec s) (at-write h a c as_conditions o.status.conditions cs)

  pub copy_issuer-Copied :
      (h : Heap)
      → IsHeap h
      → (o : ObjectStruct Meta) (v : ObjectValue) → object_value h o ≡ some v
      → Copied object_value object_owns h v (copy_issuer copy_condition copy_meta o h)
  unfolding copy_issuer
  copy_issuer-Copied h heap o v e =
      let (m, (s, (cs, t))) =
        object_parts o.type_meta (laws.value h o.metadata) (spec_value h o.spec)
          (status_value h o.status) v e in
      let x = laws.copied h heap o.metadata v.metadata m in
      let y =
        copy_spec-Copied x.after x.heap o.spec v.spec
          (spec-Extends h x.after o.spec v.spec x.kept s) in
      let to_y = kept_trans h x.after y.after x.kept y.kept in
      let z =
        copy_status-Copied copy_condition copies y.after y.heap o.status v.conditions
          (at-Extends as_conditions h y.after o.status.conditions v.conditions to_y cs) in
      let x_z = kept_trans x.after y.after z.after y.kept z.kept in
      record {
        out = record { type_meta = o.type_meta; metadata = x.out; spec = y.out; status = z.out };
        after = z.after;
        result = ground (arith, x.result, y.result, z.result);
        heap = z.heap;
        kept = kept_trans h y.after z.after to_y z.kept;
        same =
            ap_three (object_of o.type_meta)
              (laws.value-Extends x.after z.after x.out v.metadata x_z x.same ∙ sym m)
              (spec-Extends y.after z.after y.out v.spec z.kept y.same ∙ sym s) (z.same ∙ sym cs)
            ∙ e;
        fresh = λ a owned.
            elim (one_of (laws.owns z.after x.out a) (spec_owns z.after y.out a)
              (status_owns z.after z.out a) owned) [
                | inl e1 ↦
                    x.fresh a
                      (sym (laws.owns-Extends x.after z.after x.out v.metadata x_z x.same a) ∙ e1)
                | inr (inl e2) ↦ older h x.after x.kept a (
                    y.fresh a
                      (sym (spec_owns-Extends y.after z.after y.out v.spec z.kept y.same a) ∙ e2))
                | inr (inr e3) ↦ older h y.after to_y a (z.fresh a e3)
              ];
      }

-- The deep copies of an Issuer and of a ClusterIssuer end, and have the same value: the metadata, the
-- spec and the conditions. They share no memory with the original: a write to a cell of the copy
-- leaves the value of the original, and a write to a cell that was there before leaves the value of
-- the copy. The original's pointers lead to what they should, and a map lists no key twice;
-- apimachinery's copies of an ObjectMeta and of a Condition are as documented.
pub copy_objects-Separate :
    (copy_condition : Condition → Condition) (copies : (c : Condition) → copy_condition c ≡ c)
    {Meta : Type 0} (copy_meta : Meta → HeapAction Meta) (laws : MetaLaws copy_meta) (h : Heap)
    → IsHeap h
    → (o : ObjectStruct Meta) (v : ObjectValue)
    → object_value copy_condition copies copy_meta laws h o ≡ some v
    → Separate
        (object_value copy_condition copies copy_meta laws)
        (object_owns copy_condition copies copy_meta laws)
        h
        o
        v
        (copy_issuer copy_condition copy_meta o h)
      × Separate
          (object_value copy_condition copies copy_meta laws)
          (object_owns copy_condition copies copy_meta laws)
          h
          o
          v
          (copy_cluster_issuer copy_condition copy_meta o h)
unfolding copy_issuer copy_cluster_issuer
copy_objects-Separate copy_condition copies copy_meta laws h heap o v e =
    let separate =
      Copied-Separate (object_value copy_condition copies copy_meta laws)
        (object_owns copy_condition copies copy_meta laws)
        (object-Extends copy_condition copies copy_meta laws)
        (object-write copy_condition copies copy_meta laws) h o v
        (copy_issuer copy_condition copy_meta o h) e
        (copy_issuer-Copied copy_condition copies copy_meta laws h heap o v e) in
    (separate, separate)
