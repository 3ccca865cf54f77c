-- ===== src/RequestController/Lifecycle/Awaits.antt =====
-- internal/controller/certificaterequest_controller.go: a request that Horizon has completed, and the
-- way of its reconciliation down to the `defer`.
use horizon_issuer.Common.{
  Bool-cases, inl, inr, String, Bool, true, false, none, some, List, ◌∷◌, ◌≡◌, ◌∙◌, refl, arith,
  if◌then◌else◌,
}
use horizon_issuer.Common.Dict.{Dict, IsMap, lookup}
use horizon_issuer.Common.Text.{◌==◌, is_empty}
use horizon_issuer.Errors.{ok}
use horizon_issuer.Api.{NamespacedName, CertificateRequest, IssuerSpec, Secret, group}
use horizon_issuer.Sdk.{Client, RequestOnGet, CfCertificate, completed}
use horizon_issuer.Effects.{>>=-returned, get_request, get_secret, History, State, returned}
use horizon_issuer.Effects.Env.{Env}
use horizon_issuer.Horizon.Annotations.{request_id, finalizer_name}
use horizon_issuer.Horizon.ClientConfig.{client_from_issuer, trim_url}
use horizon_issuer.Horizon.Requests.{Memory}
use horizon_issuer.Horizon.TrustChain.{build_pem_trustchain}
use horizon_issuer.IssuerUtil.{get_spec_and_status, is_ready}
use horizon_issuer.RequestController.Lookup.{issuer_from_request}
use horizon_issuer.RequestController.{
  is_zero_time, is_settled, add_finalizer, reconcile_unsettled, reconcile_with_client,
  reconcile_with_secret, reconcile_owned, reconcile,
}
use horizon_issuer.RequestController.Lifecycle.Served.{
  in_namespace, in_cluster, FoundIssuer, spec_of, status_of, IsServed, get_of, secret_namespace_of,
  secret_of, stored-get_of, orders-get_of,
}
use horizon_issuer.RequestController.Lifecycle.{Holds}
use horizon_issuer.RequestController.Orders.{orders}
use horizon_issuer.RequestController.Lifecycle.Keeps.{stored}

-- An open request that is not to be deleted, and whose issuer, of either kind, is ready and needs no
-- DNS check.
pub record Reaches (env : Env) (ns : String) (cr : CertificateRequest) : Type 0 where
  pub found : FoundIssuer
  pub secret : Secret
  pub client : Client
  pub annotations : Dict
  pub owned : cr.issuer_ref.group == group ≡ true
  pub served : IsServed env cr.issuer_ref cr.metadata.namespace found
  pub healthy : is_ready env.lib (some (status_of found)) ≡ true
  pub login :
      (h : History)
      → env.cluster.get_secret h (secret_of ns cr.metadata.namespace found) ≡ ok secret
  pub configured : client_from_issuer env.lib (spec_of found) secret ≡ ok client
  pub unchecked : (spec_of found).dns_checker ≡ none
  pub not_deleted : is_zero_time cr.metadata.deletion_timestamp ≡ true
  pub annotated : cr.metadata.annotations ≡ some annotations
  pub is_map : IsMap annotations
  pub open_request : is_settled env ns cr.conditions ≡ false

-- Neither denied nor approved, by cert-manager's approval or after Horizon's answer.
pub record Undecided (env : Env) (cr : CertificateRequest) : Type 0 where
  pub not_denied : env.lib.request_is_denied cr.conditions ≡ false
  pub not_approved : env.lib.request_is_approved cr.conditions ≡ false

-- The request with other annotations and finalizers.
abbrev pub with_meta : Dict → List String → CertificateRequest → CertificateRequest
with_meta m fs cr = record cr {
  metadata = record (cr.metadata) { annotations = some m; finalizers = fs };
}

-- It still is open, with these.
unfoldable pub reaches_with :
    (env : Env) (ns : String) (cr : CertificateRequest) (m : Dict) (fs : List String)
    → IsMap m
    → Reaches env ns cr
    → Reaches env ns (with_meta m fs cr)
reaches_with env ns cr m fs is_map c = record {
  found = c.found;
  secret = c.secret;
  client = c.client;
  annotations = m;
  owned = c.owned;
  served = c.served;
  healthy = c.healthy;
  login = c.login;
  configured = c.configured;
  unchecked = c.unchecked;
  not_deleted = c.not_deleted;
  annotated = refl;
  is_map = is_map;
  open_request = c.open_request;
}

-- Horizon has completed the request with the id.
pub record Completes (env : Env) (client : Client) (id : String) : Type 0 where
  pub answer : RequestOnGet
  pub certs : List CfCertificate
  pub answered : (h : History) → env.horizon.request_get h client id ≡ ok (some answer)
  pub is_completed : answer.status ≡ completed
  pub chain : (h : History) → env.horizon.tc_pem h client answer.certificate.certificate ≡ ok certs
  pub full : is_empty (build_pem_trustchain certs).0 ≡ false

-- A request that was submitted, and that Horizon has completed.
pub record Awaits (env : Env) (ns : String) (cr : CertificateRequest) : Type 0 where
  pub reaches : Reaches env ns cr
  pub undecided : Undecided env cr
  pub id : String
  pub submitted : lookup request_id reaches.annotations ≡ some id
  pub completes : Completes env reaches.client id

module _ (env : Env) (ns : String) (name : NamespacedName) (init : CertificateRequest)
    (holds : Holds env name init) where
  -- The finalizers with the program's own.
  abbrev pub finalized_by : CertificateRequest → List String
  finalized_by cr =
      if env.lib.contains_finalizer cr.metadata.finalizers finalizer_name
      then cr.metadata.finalizers
      else env.lib.add_finalizer cr.metadata.finalizers finalizer_name

  abbrev pub with_finalizers : List String → CertificateRequest → CertificateRequest
  with_finalizers fs cr = record cr { metadata = record (cr.metadata) { finalizers = fs } }

  -- The finalizers at the deferred function, by whether the issuer revokes certificates.
  abbrev pub finalizers_after : Bool → CertificateRequest → List String
  finalizers_after revokes cr = if revokes then finalized_by cr else cr.metadata.finalizers

  abbrev pub prepared : (cr : CertificateRequest) → Reaches env ns cr → State Memory → State Memory
  prepared cr c s = record {
    memory = record {
      request = with_finalizers (finalizers_after (spec_of c.found).revoke_certificates cr) cr;
      client = some c.client;
    };
    history =
        get_secret (secret_of ns cr.metadata.namespace c.found)
        ∷ (get_of cr.issuer_ref cr.metadata.namespace c.found ∷ (get_request name ∷ s.history));
  }

  module _ (cr : CertificateRequest) (c : Reaches env ns cr) (s : State Memory) where
    abbrev connected : State Memory
    connected = record (prepared cr c s) {
      memory = record { request = cr; client = some c.client };
    }

    abbrev fetched : State Memory
    fetched = record {
      memory = record (s.memory) { request = cr };
      history = get_of cr.issuer_ref cr.metadata.namespace c.found ∷ (get_request name ∷ s.history);
    }

    finalized : State Memory
    finalized = record connected {
      memory = record { request = with_finalizers (finalized_by cr) cr; client = some c.client };
    }

    add_finalizer-prepared : add_finalizer env ns connected ≡ (returned tt, finalized)
    unfolding add_finalizer finalized
    add_finalizer-prepared =
        elim (Bool-cases (env.lib.contains_finalizer cr.metadata.finalizers finalizer_name)) [
          | inl h ↦ ground (arith, h)
          | inr h ↦ ground (arith, h)
        ]

    client-prepared :
        (spec : IssuerSpec)
        → spec.revoke_certificates ≡ (spec_of c.found).revoke_certificates
        → reconcile_with_client env ns spec connected
          ≡ reconcile_unsettled env ns spec (prepared cr c s)
    unfolding reconcile_with_client finalized
    client-prepared spec h = elim (Bool-cases (spec_of c.found).revoke_certificates) [
      | inl revokes ↦
          rw (h, revokes, c.not_deleted)
            (>>=-returned (add_finalizer env ns)
              (λ _. reconcile_unsettled env ns (record spec { revoke_certificates = true }))
              add_finalizer-prepared)
      | inr keeps ↦ rw (h, keeps)
    ]

    secret-prepared :
        reconcile_with_secret env ns
          (spec_of c.found)
          (secret_namespace_of ns cr.metadata.namespace c.found)
          fetched
        ≡ reconcile_unsettled env ns (trim_url env.lib (spec_of c.found)) (prepared cr c s)
    unfolding reconcile_with_secret trim_url
    secret-prepared = ground (
      arith,
      c.login fetched.history,
      c.configured,
      client-prepared (trim_url env.lib (spec_of c.found)) refl,
    )

    owned-served :
        (found : FoundIssuer) (t : State Memory)
        → IsServed env cr.issuer_ref cr.metadata.namespace found
        → is_ready env.lib (some (status_of found)) ≡ true
        → reconcile_owned env ns cr t
          ≡ reconcile_with_secret env ns
              (spec_of found)
              (secret_namespace_of ns cr.metadata.namespace found)
              (record t { history = get_of cr.issuer_ref cr.metadata.namespace found ∷ t.history })
    unfolding reconcile_owned issuer_from_request get_spec_and_status
    owned-served (in_namespace i) t (kind, fetched) healthy =
        ground (arith, kind, fetched t.history, healthy)
    owned-served (in_cluster i) t (kind, fetched) healthy =
        ground (arith, kind, fetched t.history, healthy)

    owned-prepared :
        reconcile_owned env ns cr (record {
          memory = record (s.memory) { request = cr };
          history = get_request name ∷ s.history;
        })
        ≡ reconcile_unsettled env ns (trim_url env.lib (spec_of c.found)) (prepared cr c s)
    owned-prepared =
        owned-served c.found
          (record {
            memory = record (s.memory) { request = cr };
            history = get_request name ∷ s.history;
          })
          c.served c.healthy
        ∙ secret-prepared

    pub reconcile-prepared :
        stored env init s ≡ cr
        → reconcile env ns name s
          ≡ reconcile_unsettled env ns (trim_url env.lib (spec_of c.found)) (prepared cr c s)
    unfolding reconcile
    reconcile-prepared h = ground (arith, holds s.history, h, c.owned, owned-prepared)

    -- Nothing is written or ordered on the way.
    pub prepared-stored : stored env init (prepared cr c s) ≡ stored env init s
    prepared-stored =
        stored-get_of init cr.issuer_ref cr.metadata.namespace c.found
          (get_request name ∷ s.history)

    pub prepared-orders : orders (prepared cr c s) ≡ orders s
    prepared-orders =
        orders-get_of cr.issuer_ref cr.metadata.namespace c.found (get_request name ∷ s.history)
