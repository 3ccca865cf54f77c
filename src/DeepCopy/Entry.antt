-- ===== src/DeepCopy/Entry.antt =====
-- api/v1beta1/zz_generated.deepcopy.go: `DeepCopy` and `DeepCopyObject`, which allow for nil.
use horizon_issuer.Common.{Option, none, some}
use horizon_issuer.Api.{IssuerDnsChecker, Condition}
use horizon_issuer.DeepCopy.Heap.{SpecStruct, StatusStruct, HeapAction, pure, ◌>>=◌}
use horizon_issuer.DeepCopy.Spec.{copy_spec}
use horizon_issuer.DeepCopy.Objects.{
  ObjectStruct, ListStruct, copy_status, copy_issuer, copy_cluster_issuer, copy_issuer_list,
  copy_cluster_issuer_list,
}

-- nil for nil, and else a new struct filled by `DeepCopyInto`.
abbrev pub deep_copy : {A : Type 0} → (A → HeapAction A) → Option A → HeapAction (Option A)
deep_copy copy none = pure none
deep_copy copy (some a) = do a' ← copy a; pure (some a')

-- `IssuerDnsChecker` has no pointer.
abbrev copy_checker : IssuerDnsChecker → HeapAction IssuerDnsChecker
copy_checker c = pure c

abbrev deep_copy_checker : Option IssuerDnsChecker → HeapAction (Option IssuerDnsChecker)
deep_copy_checker = deep_copy copy_checker

abbrev deep_copy_spec : Option SpecStruct → HeapAction (Option SpecStruct)
deep_copy_spec = deep_copy copy_spec

-- A `runtime.Object` of this API group; a nil interface is `none`.
data RuntimeObject (Meta ListMeta : Type 0) : Type 0 where
  an_issuer a_cluster_issuer : ObjectStruct Meta → RuntimeObject Meta ListMeta
  an_issuer_list a_cluster_issuer_list : ListStruct Meta ListMeta → RuntimeObject Meta ListMeta

module _ (copy_condition : Condition → Condition) {Meta ListMeta : Type 0}
    (copy_meta : Meta → HeapAction Meta) (copy_list_meta : ListMeta → HeapAction ListMeta) where
  abbrev deep_copy_status : Option StatusStruct → HeapAction (Option StatusStruct)
  deep_copy_status = deep_copy (copy_status copy_condition)

  abbrev deep_copy_issuer : Option (ObjectStruct Meta) → HeapAction (Option (ObjectStruct Meta))
  deep_copy_issuer = deep_copy (copy_issuer copy_condition copy_meta)

  abbrev deep_copy_cluster_issuer :
      Option (ObjectStruct Meta) → HeapAction (Option (ObjectStruct Meta))
  deep_copy_cluster_issuer = deep_copy (copy_cluster_issuer copy_condition copy_meta)

  abbrev deep_copy_issuer_list :
      Option (ListStruct Meta ListMeta) → HeapAction (Option (ListStruct Meta ListMeta))
  deep_copy_issuer_list = deep_copy (copy_issuer_list copy_condition copy_meta copy_list_meta)

  abbrev deep_copy_cluster_issuer_list :
      Option (ListStruct Meta ListMeta) → HeapAction (Option (ListStruct Meta ListMeta))
  deep_copy_cluster_issuer_list =
      deep_copy (copy_cluster_issuer_list copy_condition copy_meta copy_list_meta)

  -- A nil pointer in place of an object becomes a nil interface.
  abbrev as_object :
      {A : Type 0}
      → (A → RuntimeObject Meta ListMeta)
      → Option A
      → Option (RuntimeObject Meta ListMeta)
  as_object make none = none
  as_object make (some c) = some (make c)

  abbrev issuer_object :
      Option (ObjectStruct Meta) → HeapAction (Option (RuntimeObject Meta ListMeta))
  issuer_object o = do c ← deep_copy_issuer o; pure (as_object an_issuer c)

  abbrev cluster_issuer_object :
      Option (ObjectStruct Meta) → HeapAction (Option (RuntimeObject Meta ListMeta))
  cluster_issuer_object o = do c ← deep_copy_cluster_issuer o; pure (as_object a_cluster_issuer c)

  abbrev issuer_list_object :
      Option (ListStruct Meta ListMeta) → HeapAction (Option (RuntimeObject Meta ListMeta))
  issuer_list_object l = do c ← deep_copy_issuer_list l; pure (as_object an_issuer_list c)

  abbrev cluster_issuer_list_object :
      Option (ListStruct Meta ListMeta) → HeapAction (Option (RuntimeObject Meta ListMeta))
  cluster_issuer_list_object l = do
    c ← deep_copy_cluster_issuer_list l
    pure (as_object a_cluster_issuer_list c)
