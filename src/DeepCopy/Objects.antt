-- ===== src/DeepCopy/Objects.antt =====
-- api/v1beta1/zz_generated.deepcopy.go: the copies of an IssuerStatus, of an Issuer and of a
-- ClusterIssuer, and of their lists. The copies of a `metav1.Condition`, of an `ObjectMeta` and of a
-- `ListMeta` are apimachinery's, and parameters. An object and the array of a list's items are the
-- values that are given back, and so new.
use horizon_issuer.Common.{String, Option, none, some, List, [], ◌∷◌}
use horizon_issuer.Api.{Condition}
use horizon_issuer.DeepCopy.Heap.{
  Pointer, StatusStruct, SpecStruct, some_conditions, HeapAction, pure, ◌>>=◌, load, alloc,
}
use horizon_issuer.DeepCopy.Spec.{copy_spec}

-- `metav1.TypeMeta`
pub record TypeMeta : Type 0 where
  pub kind : String
  pub api_version : String

-- `Issuer`, and `ClusterIssuer` with the same fields.
pub record ObjectStruct (Meta : Type 0) : Type 0 where
  pub type_meta : TypeMeta
  pub metadata : Meta
  pub spec : SpecStruct
  pub status : StatusStruct

-- `IssuerList`, and `ClusterIssuerList` with the same fields; the items are `none` for a nil slice.
pub record ListStruct (Meta ListMeta : Type 0) : Type 0 where
  pub type_meta : TypeMeta
  pub metadata : ListMeta
  pub items : Option (List (ObjectStruct Meta))

module _ (copy_condition : Condition → Condition) where
  -- The loop over the elements of the slice.
  abbrev pub copy_conditions : List Condition → List Condition
  copy_conditions [] = []
  copy_conditions (c ∷ cs) = copy_condition c ∷ copy_conditions cs

  -- The slice, where it is not nil.
  unfoldable pub copy_slice : Pointer → HeapAction Pointer
  copy_slice none = pure none
  copy_slice (some p) = do
    c ← load p
    elim c [
      | some_conditions cs ↦ do q ← alloc (some_conditions (copy_conditions cs)); pure (some q)
      | _ ↦ λ h. none
    ]

  -- `IssuerStatus.DeepCopyInto`
  unfoldable pub copy_status : StatusStruct → HeapAction StatusStruct
  copy_status s = do conditions ← copy_slice s.conditions; pure (record { conditions = conditions })

  module _ {Meta : Type 0} (copy_meta : Meta → HeapAction Meta) where
    -- `Issuer.DeepCopyInto`
    unfoldable pub copy_issuer : ObjectStruct Meta → HeapAction (ObjectStruct Meta)
    copy_issuer o = do
      metadata ← copy_meta o.metadata
      spec ← copy_spec o.spec
      status ← copy_status o.status
      pure (record { type_meta = o.type_meta; metadata = metadata; spec = spec; status = status })

    -- `ClusterIssuer.DeepCopyInto`
    unfoldable pub copy_cluster_issuer : ObjectStruct Meta → HeapAction (ObjectStruct Meta)
    copy_cluster_issuer o = do
      metadata ← copy_meta o.metadata
      spec ← copy_spec o.spec
      status ← copy_status o.status
      pure (record { type_meta = o.type_meta; metadata = metadata; spec = spec; status = status })

    -- The loop over the items of a list.
    abbrev pub copy_items :
        (ObjectStruct Meta → HeapAction (ObjectStruct Meta))
        → List (ObjectStruct Meta)
        → HeapAction (List (ObjectStruct Meta))
    copy_items copy [] = pure []
    copy_items copy (o ∷ os) = do o' ← copy o; os' ← copy_items copy os; pure (o' ∷ os')

    module _ {ListMeta : Type 0} (copy_list_meta : ListMeta → HeapAction ListMeta) where
      -- `IssuerList.DeepCopyInto`
      unfoldable pub copy_issuer_list :
          ListStruct Meta ListMeta → HeapAction (ListStruct Meta ListMeta)
      copy_issuer_list l = do
        metadata ← copy_list_meta l.metadata
        items ← elim (l.items) [
          | none ↦ pure none
          | some os ↦ do os' ← copy_items copy_issuer os; pure (some os')
        ]
        pure (record { type_meta = l.type_meta; metadata = metadata; items = items })

      -- `ClusterIssuerList.DeepCopyInto`
      unfoldable pub copy_cluster_issuer_list :
          ListStruct Meta ListMeta → HeapAction (ListStruct Meta ListMeta)
      copy_cluster_issuer_list l = do
        metadata ← copy_list_meta l.metadata
        items ← elim (l.items) [
          | none ↦ pure none
          | some os ↦ do os' ← copy_items copy_cluster_issuer os; pure (some os')
        ]
        pure (record { type_meta = l.type_meta; metadata = metadata; items = items })
