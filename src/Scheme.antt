-- ===== src/Scheme.antt =====
-- api/v1beta1: the types that the package registers with the scheme when it is initialised.
use horizon_issuer.Common.{
  String, Bool, true, false, Option, none, some, List, [], ◌∷◌, ◌++◌, ◌≡◌, if◌then◌else◌,
}
use horizon_issuer.Common.Text.{◌==◌}
use horizon_issuer.Errors.{Error, ok, err}
use horizon_issuer.Effects.Env.{Libraries, SchemeObject, an_issuer, a_cluster_issuer, not_an_object}

-- `SchemeBuilder.Register(&Issuer{}, &IssuerList{})`
abbrev issuer_types : List (String × SchemeObject)
issuer_types = ("Issuer", an_issuer) ∷ (("IssuerList", not_an_object) ∷ [])

-- `SchemeBuilder.Register(&ClusterIssuer{}, &ClusterIssuerList{})`
abbrev cluster_issuer_types : List (String × SchemeObject)
cluster_issuer_types =
    ("ClusterIssuer", a_cluster_issuer) ∷ (("ClusterIssuerList", not_an_object) ∷ [])

abbrev pub registered : List (String × SchemeObject)
registered = issuer_types ++ cluster_issuer_types

abbrev pub find_type : String → List (String × SchemeObject) → Option SchemeObject
find_type k [] = none
find_type k ((j, o) ∷ types) = if j == k then some o else find_type k types

-- `runtime.Scheme.New` for a kind of this group, as documented: a new object of the type that was
-- registered for it, and an error where none was. apimachinery registers kinds of its own for every
-- group, such as ListOptions, and none of these is a `client.Object`.
pub record SchemeLaws (lib : Libraries) (is_own : String → Bool) : Type 0 where
  pub known :
      (k : String) (o : SchemeObject) → find_type k registered ≡ some o → lib.new_object k ≡ ok o
  pub own :
      (k : String)
      → find_type k registered ≡ none
      → is_own k ≡ true
      → lib.new_object k ≡ ok not_an_object
  pub unknown :
      (k : String)
      → find_type k registered ≡ none
      → is_own k ≡ false
      → (e : Error) × (lib.new_object k ≡ err e)
