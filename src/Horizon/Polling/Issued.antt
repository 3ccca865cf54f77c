-- ===== src/Horizon/Polling/Issued.antt =====
-- internal/issuer/horizon/issuer.go: what handleCompletedRequest stores.
use horizon_issuer.Common.{
  Bool-cases, inl, inr, subst, String, false, none, some, List, [], ◌∷◌, ◌≡◌, ◌∙◌, sym, refl, ap,
  arith, if◌then◌else◌,
}
use horizon_issuer.Common.Dict.{Dict, lookup, insert, lookup-insert}
use horizon_issuer.Common.Text.{◌<>◌, ◌==◌, eq_iff, is_empty, strip_prefix, strip_prefix-append}
use horizon_issuer.Errors.{ok}
use horizon_issuer.Api.{get_annotation}
use horizon_issuer.Sdk.{Client, RequestOnGet, CfCertificate, IssuedCertificate}
use horizon_issuer.Effects.{tc_pem, State, returned, done}
use horizon_issuer.Effects.Env.{Env}
use horizon_issuer.Horizon.Annotations.{
  request_id, certificate_id, owner_annotation, team_annotation, contact_email_annotation,
  label_annotation,
}
use horizon_issuer.Horizon.Requests.{Memory, annotate, annotate_all, set_condition}
use horizon_issuer.Horizon.TrustChain.{build_pem_trustchain}
use horizon_issuer.Horizon.Polling.{
  approval, signed, store_ca, store_certificate, store_issued, handle_completed_request,
}

-- The annotations after Horizon's labels are written into them.
abbrev pub with_labels : Dict → Dict → Dict
with_labels [] m = m
with_labels ((k, v) ∷ labels) m = with_labels labels (insert (label_annotation <> ("." <> k)) v m)

abbrev with_annotations : Dict → State Memory → State Memory
with_annotations m s = record s {
  memory = record (s.memory) {
    request = record (s.memory.request) {
      metadata = record (s.memory.request.metadata) { annotations = some m };
    };
  };
}

annotate_lem :
    (k v : String) (s : State Memory) (m : Dict)
    → s.memory.request.metadata.annotations ≡ some m
    → annotate k v s ≡ (returned tt, with_annotations (insert k v m) s)
unfolding annotate
annotate_lem k v s m h = ground arith

-- Writing the labels gives the annotations that `with_labels` gives, with no panic.
annotate_all_lem :
    (labels : Dict) (s : State Memory) (m : Dict)
    → s.memory.request.metadata.annotations ≡ some m
    → annotate_all labels s ≡ (returned tt, with_annotations (with_labels labels m) s)
unfolding annotate_all
annotate_all_lem [] s m h = ground arith
annotate_all_lem ((k, v) ∷ labels) s m h = ground (
  arith,
  annotate_lem (label_annotation <> ("." <> k)) v s m h,
  annotate_all_lem labels (with_annotations (insert (label_annotation <> ("." <> k)) v m) s)
      (insert (label_annotation <> ("." <> k)) v m) refl,
)

-- A text that does not start like a label's annotation is none.
pub label_differs :
    (key k : String)
    → strip_prefix label_annotation key ≡ none
    → (label_annotation <> ("." <> k)) == key ≡ false
label_differs key k not_a_label = elim (Bool-cases ((label_annotation <> ("." <> k)) == key)) [
  | inl same ↦
      let found : strip_prefix label_annotation key ≡ some ("." <> k) =
        subst (λ t. strip_prefix label_annotation t ≡ some ("." <> k)) ((eq_iff _ _).0 same)
          (strip_prefix-append label_annotation ("." <> k)) in
      absurd (cc (not_a_label, found))
  | inr differs ↦ differs
]

lookup-with_labels :
    (key : String) (labels m : Dict)
    → strip_prefix label_annotation key ≡ none
    → lookup key (with_labels labels m) ≡ lookup key m
lookup-with_labels key [] m h = refl
lookup-with_labels key ((k, v) ∷ labels) m h =
    lookup-with_labels key labels (insert (label_annotation <> ("." <> k)) v m) h
    ∙ (lookup-insert (label_annotation <> ("." <> k)) key v m
        ∙ ap (λ b. if b then some v else lookup key m) (label_differs key k h))

-- The annotations with what Horizon says of the certificate, and then with its labels too.
abbrev pub described : IssuedCertificate → Dict → Dict
described c m =
    insert contact_email_annotation c.contact_email (
      insert team_annotation c.team
        (insert owner_annotation c.owner (insert certificate_id c.id m)))

abbrev pub issued_annotations : IssuedCertificate → Dict → Dict
issued_annotations c m = with_labels c.labels (described c m)

pub issued-certificate_id :
    (c : IssuedCertificate) (m : Dict) → lookup certificate_id (issued_annotations c m) ≡ some c.id
unfolding strip_prefix
issued-certificate_id c m =
    rw (lookup-with_labels certificate_id c.labels (described c m) refl)
      (rw (lookup-insert, lookup-insert, lookup-insert, lookup-insert))

-- The request id stays.
pub issued-request_id :
    (c : IssuedCertificate) (m : Dict)
    → lookup request_id (issued_annotations c m) ≡ lookup request_id m
unfolding strip_prefix
issued-request_id c m =
    rw (lookup-with_labels request_id c.labels (described c m) refl)
      (rw (lookup-insert, lookup-insert, lookup-insert, lookup-insert))

abbrev pub issued_state : Env → State Memory → RequestOnGet → Dict → String → State Memory
issued_state env s answer m certificate = record s {
  memory = record (s.memory) {
    request = record (s.memory.request) {
      metadata = record (s.memory.request.metadata) {
        annotations = some (issued_annotations answer.certificate m);
      };
      certificate = certificate;
      conditions = env.lib.set_request_condition s.memory.request.conditions signed;
    };
  };
}

store_certificate_lem :
    (env : Env) (answer : RequestOnGet) (certificate : String) (s : State Memory) (m : Dict)
    → s.memory.request.metadata.annotations ≡ some m
    → store_certificate env answer certificate s
      ≡ (returned tt, issued_state env s answer m certificate)
unfolding store_certificate annotate set_condition
store_certificate_lem env answer certificate s m h = ground (
  arith,
  annotate_all_lem answer.certificate.labels (with_annotations (described answer.certificate m) s)
      (described answer.certificate m) refl,
)

abbrev pub with_ca : String → State Memory → State Memory
with_ca ca s = record s {
  memory = record (s.memory) {
    request = record (s.memory.request) { ca = if is_empty ca then s.memory.request.ca else ca };
  };
}

pub store_issued_lem :
    (env : Env) (answer : RequestOnGet) (chain : String × String) (s : State Memory) (m : Dict)
    → s.memory.request.metadata.annotations ≡ some m
    → is_empty chain.0 ≡ false
    → store_issued env answer chain s
      ≡ (returned done, issued_state env (with_ca chain.1 s) answer m chain.0)
unfolding store_issued store_ca
store_issued_lem env answer (certificate, ca) s m h full = ground (
  arith,
  store_certificate_lem env answer certificate s m h,
  store_certificate_lem env answer certificate (with_ca ca s) m h,
)

abbrev pub asked : Env → State Memory → Client → String → State Memory
asked env s client pem = record s {
  memory = record (s.memory) {
    request = record (s.memory.request) {
      conditions = env.lib.set_request_condition s.memory.request.conditions approval;
    };
  };
  history = tc_pem client pem ∷ s.history;
}

-- What a completed request looks like once its certificate is stored.
pub record Issued (env : Env) (s : State Memory) (answer : RequestOnGet)
    (certs : List CfCertificate) (t : State Memory) : Type 0 where
  pub certificate : t.memory.request.certificate ≡ (build_pem_trustchain certs).0
  pub ca : t.memory.request.ca ≡ (
      if is_empty (build_pem_trustchain certs).1
      then s.memory.request.ca
      else (build_pem_trustchain certs).1)
  pub id :
      get_annotation certificate_id t.memory.request.metadata.annotations
      ≡ some answer.certificate.id
  pub conditions :
      t.memory.request.conditions
      ≡ env.lib.set_request_condition
          (env.lib.set_request_condition s.memory.request.conditions approval)
          signed

module _ (env : Env) (s : State Memory) (answer : RequestOnGet) (client : Client) (m : Dict)
    (connected : s.memory.client ≡ some client)
    (annotated : s.memory.request.metadata.annotations ≡ some m) where
  pub reaches_store :
      (certs : List CfCertificate)
      → env.horizon.tc_pem s.history client answer.certificate.certificate ≡ ok certs
      → handle_completed_request env answer s
        ≡ store_issued env answer
            (build_pem_trustchain certs)
            (asked env s client answer.certificate.certificate)
  unfolding handle_completed_request set_condition
  reaches_store certs got = ground arith

  -- With a client, a map of annotations, and a trust chain from Horizon whose joined text is not
  -- empty, handle_completed_request returns no error, and the request in memory has the joined
  -- chain as its certificate, the self-signed end as its CA where there is one (its old CA where
  -- there is none), Horizon's id of the certificate among its annotations, whatever labels Horizon
  -- sends, and the approval and then the Ready condition set.
  pub handle_completed_request-Issued :
      (certs : List CfCertificate)
      → env.horizon.tc_pem s.history client answer.certificate.certificate ≡ ok certs
      → is_empty (build_pem_trustchain certs).0 ≡ false
      → ((handle_completed_request env answer s).0 ≡ returned done)
        × Issued env s answer certs (handle_completed_request env answer s).1
  handle_completed_request-Issued certs got full =
      let stored =
        reaches_store certs got
        ∙ store_issued_lem env answer (build_pem_trustchain certs)
            (asked env s client answer.certificate.certificate) m annotated full in
      (
        ap (λ q. q.0) stored,
        subst (Issued env s answer certs) (ap (λ q. q.1) (sym stored)) (record {
          certificate = refl;
          ca = refl;
          id = issued-certificate_id answer.certificate m;
          conditions = refl;
        }),
      )
