-- ===== src/Tests/DeepCopy.antt =====
-- Deep copies on concrete heaps.
use horizon_issuer.Common.{
  ℕ, Bool, true, false, Option, none, some, [], ◌∷◌, ◌≡◌, refl, ap, ◌∙◌, arith,
}
use horizon_issuer.Common.Dict.{Dict}
use horizon_issuer.DeepCopy.Copied.{at-Extends}
use horizon_issuer.DeepCopy.Frame.{at-write}
use horizon_issuer.DeepCopy.Pointers.{copy_labels, as_map, pointee, copy_labels-Copied}
use horizon_issuer.Api.{IssuerSpec, ObjectMeta}
use horizon_issuer.DeepCopy.Heap.{
  Pointer, SpecStruct, Cell, a_text, a_map, a_template, some_conditions, Heap, IsHeap, at, update,
}
use horizon_issuer.DeepCopy.Spec.{copy_spec, spec_value, spec_owns}
use horizon_issuer.DeepCopy.Separate.{Separate, copy_spec-Separate}
use horizon_issuer.DeepCopy.ItemsCopied.{items_value, items_own, copy_items-Separate}
use horizon_issuer.DeepCopy.Objects.{copy_items, ObjectStruct, copy_issuer, copy_cluster_issuer}
use horizon_issuer.DeepCopy.ObjectCopied.{
  MetaLaws, ObjectValue, object_value, object_owns, copy_objects-Separate,
}
use horizon_issuer.Tests.Values.{meta, ready_condition}

-- A proxy, the labels of a template, the template, and conditions.
abbrev cells : ℕ → Option Cell
cells =
    update
      (update
        (update (update (λ _. none) 0 (a_text "http://proxy")) 1 (a_map (("env", "prod") ∷ []))) 2
        (a_template
          (record { labels = some 1; owner = none; team = some 0; contact_email = none })))
      3 (some_conditions (ready_condition ∷ []))

abbrev heap : Heap
heap = record { next = 4; cell = cells }

heap-IsHeap : IsHeap heap
heap-IsHeap a le = ground arith

abbrev spec : SpecStruct
spec = record {
  url = "https://horizon";
  proxy = some 0;
  profile = "web";
  auth_secret_name = "login";
  ca_bundle = none;
  skip_tls_verify = false;
  revoke_certificates = true;
  default_template = some 2;
  override_template = none;
  dns_checker = none;
}

abbrev value : IssuerSpec
value = record {
  url = "https://horizon";
  proxy = some "http://proxy";
  profile = "web";
  auth_secret_name = "login";
  ca_bundle = none;
  skip_tls_verify = false;
  revoke_certificates = true;
  default_template = some (record {
    labels = ("env", "prod") ∷ [];
    owner = none;
    team = some "http://proxy";
    contact_email = none;
  });
  override_template = none;
  dns_checker = none;
}

copy_spec-Separate_example : Separate spec_value spec_owns heap spec value (copy_spec spec heap)
copy_spec-Separate_example = copy_spec-Separate heap heap-IsHeap spec value refl

-- A metadata of which only the annotations are behind a pointer.
abbrev meta_of : Option (Option Dict) → Option ObjectMeta
meta_of none = none
meta_of (some m) = some (meta m)

meta_parts :
    (m : Option (Option Dict)) (v : ObjectMeta)
    → meta_of m ≡ some v
    → (m ≡ some v.annotations) × (meta v.annotations ≡ v)
meta_parts none v e = ground arith
meta_parts (some m) v e = (ground arith, ground arith)

abbrev meta_value : Heap → Pointer → Option ObjectMeta
meta_value h p = meta_of (at as_map h p)

copy_labels-MetaLaws : MetaLaws copy_labels
copy_labels-MetaLaws = record {
  value = meta_value;
  owns = pointee;
  copied = λ h heap p v e.
      let (m, whole) = meta_parts (at as_map h p) v e in
      let c = copy_labels-Copied h heap p v.annotations m in
      record {
        out = c.out;
        after = c.after;
        result = c.result;
        heap = c.heap;
        kept = c.kept;
        same = ap meta_of c.same ∙ ap some whole;
        fresh = c.fresh;
      };
  value-Extends = λ h h' p v ext e.
      let (m, whole) = meta_parts (at as_map h p) v e in
      ap meta_of (at-Extends as_map h h' p v.annotations ext m) ∙ ap some whole;
  owns-Extends = λ h h' p v ext e a. refl;
  value-write = λ h a c p free. ap meta_of (at-write h a c as_map p free);
}

abbrev object : ObjectStruct Pointer
object = record {
  type_meta = record { kind = "Issuer"; api_version = "horizon.evertrust.io/v1beta1" };
  metadata = some 1;
  spec = spec;
  status = record { conditions = some 3 };
}

abbrev object_stands_for : ObjectValue
object_stands_for = record {
  type_meta = object.type_meta;
  metadata = meta (some (("env", "prod") ∷ []));
  spec = value;
  conditions = some (ready_condition ∷ []);
}

abbrev read_object : Heap → ObjectStruct Pointer → Option ObjectValue
read_object = object_value (λ c. c) (λ c. refl) copy_labels copy_labels-MetaLaws

abbrev object_cells : Heap → ObjectStruct Pointer → ℕ → Bool
object_cells = object_owns (λ c. c) (λ c. refl) copy_labels copy_labels-MetaLaws

copy_objects-Separate_example :
    Separate read_object object_cells heap object object_stands_for
      (copy_issuer (λ c. c) copy_labels object heap)
    × Separate read_object object_cells heap object object_stands_for
        (copy_cluster_issuer (λ c. c) copy_labels object heap)
unfolding copy_labels-MetaLaws
copy_objects-Separate_example =
    copy_objects-Separate (λ c. c) (λ c. refl) copy_labels copy_labels-MetaLaws heap heap-IsHeap
      object object_stands_for refl

copy_items-Separate_example :
    Separate
      (items_value (λ c. c) (λ c. refl) copy_labels copy_labels-MetaLaws)
      (items_own (λ c. c) (λ c. refl) copy_labels copy_labels-MetaLaws)
      heap
      (object ∷ [])
      (object_stands_for ∷ [])
      (copy_items (λ c. c) copy_labels (copy_issuer (λ c. c) copy_labels) (object ∷ []) heap)
    × Separate
        (items_value (λ c. c) (λ c. refl) copy_labels copy_labels-MetaLaws)
        (items_own (λ c. c) (λ c. refl) copy_labels copy_labels-MetaLaws)
        heap
        (object ∷ [])
        (object_stands_for ∷ [])
        (copy_items
          (λ c. c)
          copy_labels
          (copy_cluster_issuer (λ c. c) copy_labels)
          (object ∷ [])
          heap)
unfolding copy_labels-MetaLaws
copy_items-Separate_example =
    copy_items-Separate (λ c. c) (λ c. refl) copy_labels copy_labels-MetaLaws heap heap-IsHeap
      (object ∷ []) (object_stands_for ∷ []) refl
