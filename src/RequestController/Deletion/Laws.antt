-- ===== src/RequestController/Deletion/Laws.antt =====
-- internal/controller/certificaterequest_controller.go: when handleDeletion drops the finalizer.
use horizon_issuer.Common.{
  String, true, Option, none, some, ◌∷◌, ◌≡◌, ◌≢◌, refl, arith, suc, inl, inr,
}
use horizon_issuer.Errors.{Error, ok, err, Result-cases}
use horizon_issuer.Api.{CertificateRequest, ClientObject, issuer, cluster_issuer}
use horizon_issuer.Common.Text.{◌<>◌}
use horizon_issuer.Sdk.{Client, revoke}
use horizon_issuer.Effects.{
  Call, History, event, for_issuer, get_issuer, get_cluster_issuer, request_submit, update_request,
  State, returned,
}
use horizon_issuer.Effects.Count.{count, is_revocation}
use horizon_issuer.Effects.Env.{Env, an_issuer, a_cluster_issuer, not_an_object}
use horizon_issuer.Horizon.Annotations.{finalizer_name}
use horizon_issuer.Horizon.Requests.{Memory, revoke_certificate}
use horizon_issuer.RequestController.Lookup.{issuer_name, cluster_issuer_name, issuer_from_request}
use horizon_issuer.RequestController.Deletion.{
  record_event, save_request, record_revocation, drop_finalizer, handle_deletion,
}

-- The request without this issuer's finalizer.
abbrev pub without_finalizer : Env → CertificateRequest → CertificateRequest
without_finalizer env cr = record cr {
  metadata = record (cr.metadata) {
    finalizers = env.lib.remove_finalizer cr.metadata.finalizers finalizer_name;
  };
}

-- One revocation is asked for, then the last call sends the request without the finalizer, and no error is returned.
pub record DropsFinalizer (env : Env) (s : State Memory) : Type 0 where
  pub before : History
  pub last :
      (handle_deletion env s).1.history
      ≡ update_request (without_finalizer env s.memory.request) ∷ before
  pub revoked_once : count is_revocation before ≡ suc (count is_revocation s.history)
  pub returns : (handle_deletion env s).0 ≡ returned none

-- Horizon refuses the revocation, whose error is returned with nothing else done, or takes it.
pub data Deletion (env : Env) (s : State Memory) (client : Client) : Type 0 where
  refused :
      (e : Error)
      → env.horizon.request_submit s.history client (revoke s.memory.request.certificate) ≡ err e
      → handle_deletion env s ≡ (
        returned (some e),
        record s {
          history = request_submit client (revoke s.memory.request.certificate) ∷ s.history;
        },
      )
      → Deletion env s client
  accepted :
      (answer : Option String)
      → env.horizon.request_submit s.history client (revoke s.memory.request.certificate)
        ≡ ok answer
      → DropsFinalizer env s
      → Deletion env s client

module _ (env : Env) (s : State Memory) (client : Client)
    (connected : s.memory.client ≡ some client)
    (held : env.lib.contains_finalizer s.memory.request.metadata.finalizers finalizer_name
      ≡ true) where
  abbrev revoked : History
  revoked = request_submit client (revoke s.memory.request.certificate) ∷ s.history

  abbrev told : ClientObject → Call
  told o =
      event (for_issuer o) "Normal" "RevokedCertificate"
        ("Revoked certificate request " <> (s.memory.request.metadata.name <> " on Horizon"))

  deletion_refused :
      (e : Error)
      → env.horizon.request_submit s.history client (revoke s.memory.request.certificate) ≡ err e
      → handle_deletion env s ≡ (
        returned (some e),
        record s {
          history = request_submit client (revoke s.memory.request.certificate) ∷ s.history;
        },
      )
  unfolding handle_deletion revoke_certificate
  deletion_refused e h = ground arith

  deletion_accepted :
      (answer : Option String)
      → env.horizon.request_submit s.history client (revoke s.memory.request.certificate)
        ≡ ok answer
      → env.lib.new_object s.memory.request.issuer_ref.kind ≢ ok not_an_object
      → DropsFinalizer env s
  unfolding handle_deletion revoke_certificate record_revocation issuer_from_request drop_finalizer
      save_request record_event
  deletion_accepted answer h kind =
      elim (Result-cases (env.lib.new_object s.memory.request.issuer_ref.kind)) [
        | inl (not_an_object, found) ↦ absurd (kind found)
        | inl (an_issuer, found) ↦
            elim (Result-cases (env.cluster.get_issuer revoked (issuer_name s.memory.request))) [
              | inl (i, got) ↦ record {
                before = told (issuer i) ∷ (get_issuer (issuer_name s.memory.request) ∷ revoked);
                last = ground arith;
                revoked_once = refl;
                returns = ground arith;
              }
              | inr (e, got) ↦ record {
                before = get_issuer (issuer_name s.memory.request) ∷ revoked;
                last = ground arith;
                revoked_once = refl;
                returns = ground arith;
              }
            ]
        | inl (a_cluster_issuer, found) ↦
            elim (Result-cases
              (env.cluster.get_cluster_issuer revoked (cluster_issuer_name s.memory.request))) [
                | inl (i, got) ↦ record {
                  before =
                      told (cluster_issuer i)
                      ∷ (get_cluster_issuer (cluster_issuer_name s.memory.request) ∷ revoked);
                  last = ground arith;
                  revoked_once = refl;
                  returns = ground arith;
                }
                | inr (e, got) ↦ record {
                  before = get_cluster_issuer (cluster_issuer_name s.memory.request) ∷ revoked;
                  last = ground arith;
                  revoked_once = refl;
                  returns = ground arith;
                }
              ]
        | inr (e, found) ↦ record {
          before = revoked;
          last = ground arith;
          revoked_once = refl;
          returns = ground arith;
        }
      ]

  -- For a request that has the finalizer, with a Horizon client at hand and a kind of issuer that
  -- is an object: where Horizon refuses the revocation, the deletion returns Horizon's error, leaves
  -- the request in memory alone and makes no other call; where it takes it, the revocation is the
  -- only one asked for, the last call sends the request without the finalizer, and no error is
  -- returned, whatever that last call answers.
  pub handle_deletion-Deletion :
      env.lib.new_object s.memory.request.issuer_ref.kind ≢ ok not_an_object → Deletion env s client
  handle_deletion-Deletion kind =
      elim (Result-cases
        (env.horizon.request_submit s.history client (revoke s.memory.request.certificate))) [
          | inl (answer, taken) ↦ accepted answer taken (deletion_accepted answer taken kind)
          | inr (e, rejected) ↦ refused e rejected (deletion_refused e rejected)
        ]
