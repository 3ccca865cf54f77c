-- ===== src/RequestController/Lookup/Kinds.antt =====
-- internal/controller/certificaterequest_controller.go: the kinds of issuer that issuerFromRequest
-- is asked for.
use horizon_issuer.Common.{
  String, Bool, true, not, ◌||◌, ◌&&◌, some, ◌≡◌, arith, inl, inr, refl, subst, Bool-cases,
}
use horizon_issuer.Common.Text.{◌==◌, eq_iff}
use horizon_issuer.Errors.{ok}
use horizon_issuer.Api.{CertificateRequest}
use horizon_issuer.Effects.{State}
use horizon_issuer.Effects.Env.{Env, SchemeObject, an_issuer, a_cluster_issuer, not_an_object}
use horizon_issuer.Horizon.Requests.{Memory}
use horizon_issuer.RequestController.Lookup.{issuer_from_request}
use horizon_issuer.RequestController.Returns.{is_returned}
use horizon_issuer.Scheme.{find_type, registered, SchemeLaws}

-- A list of issuers, or a kind of apimachinery's own that is no kind of issuer.
abbrev pub is_no_object : (String → Bool) → String → Bool
is_no_object is_own k =
    not ("Issuer" == k || "ClusterIssuer" == k)
    && ("IssuerList" == k || ("ClusterIssuerList" == k || is_own k))

-- A kind that equals a registered one is given its object.
given :
    (env : Env) (is_own : String → Bool)
    → SchemeLaws env.lib is_own
    → (j k : String) (o : SchemeObject) → find_type j registered ≡ some o
    → j == k ≡ true
    → env.lib.new_object k ≡ ok o
given env is_own laws j k o e same =
    laws.known k o (subst (λ i. find_type i registered ≡ some o) ((eq_iff j k).0 same) e)

-- issuerFromRequest returns, with or without an error, except for an issuer reference whose kind is a
-- list of issuers or one of the kinds that apimachinery registers for every group: there the type
-- assertion panics. The scheme has the types that the package registers.
pub issuer_from_request-returns :
    (env : Env) (is_own : String → Bool)
    → SchemeLaws env.lib is_own
    → (cr : CertificateRequest) (s : State Memory)
    → is_returned (issuer_from_request env cr s).0 ≡ not (is_no_object is_own cr.issuer_ref.kind)
unfolding issuer_from_request
issuer_from_request-returns env is_own laws cr s =
    let k = cr.issuer_ref.kind in
    let new = given env is_own laws in
    elim (Bool-cases ("Issuer" == k)) [
      | inl i ↦ ground (arith, i, new "Issuer" k an_issuer refl i)
      | inr ni ↦ elim (Bool-cases ("ClusterIssuer" == k)) [
        | inl c ↦ ground (arith, ni, c, new "ClusterIssuer" k a_cluster_issuer refl c)
        | inr nc ↦ elim (Bool-cases ("IssuerList" == k)) [
          | inl l ↦ ground (arith, ni, nc, l, new "IssuerList" k not_an_object refl l)
          | inr nl ↦ elim (Bool-cases ("ClusterIssuerList" == k)) [
            | inl cl ↦
                ground (arith, ni, nc, nl, cl, new "ClusterIssuerList" k not_an_object refl cl)
            | inr ncl ↦ elim (Bool-cases (is_own k)) [
              | inl o ↦ ground (arith, ni, nl, nc, ncl, o, laws.own k)
              | inr free ↦
                  let (e, failed) = laws.unknown k (ground (arith, ni, nl, nc, ncl)) free in
                  ground (arith, ni, nl, nc, ncl, free, failed)
            ]
          ]
        ]
      ]
    ]
