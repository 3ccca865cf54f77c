-- ===== src/RequestController/Stuck.antt =====
-- internal/controller/certificaterequest_controller.go: a request that is approved.
use horizon_issuer.Common.{
  ℕ, String, true, Option, none, some, List, [], ◌∷◌, ◌≡◌, refl, arith, Option-cases, inl, inr,
}
use horizon_issuer.Common.Dict.{Dict}
use horizon_issuer.Errors.{Error, ok}
use horizon_issuer.Api.{CertificateRequest, IssuerSpec, IssuerDnsChecker, NamespacedName}
use horizon_issuer.Effects.{lookup_host, State, Return}
use horizon_issuer.Effects.Count.{count, is_horizon}
use horizon_issuer.Effects.Env.{Env}
use horizon_issuer.Horizon.Requests.{Memory, set_condition}
use horizon_issuer.IssuerUtil.{certificate_from_request}
use horizon_issuer.RequestController.Lookup.{issuer_from_request}
use horizon_issuer.RequestController.{
  is_zero_time, add_finalizer, reconcile_unsettled, reconcile_with_client, reconcile_with_secret,
  reconcile_owned, reconcile,
}
use horizon_issuer.RequestController.Process.{process, mark_denied, check_names, check_dns}
use horizon_issuer.RequestController.Finish.{
  finish, record_outcome, store, record_failure, set_not_ready, write_request, update_parent,
}
use horizon_issuer.RequestController.Deletion.{save_request, record_event}

-- The number of calls of Horizon so far.
abbrev pub calls : State Memory → ℕ
calls s = count is_horizon s.history

module _ (env : Env) where
  check_names-calls :
      (server : String) (names : List String) (s : State Memory)
      → calls (check_names env server names s).1 ≡ calls s
  unfolding check_names
  check_names-calls server [] s = refl
  check_names-calls server (name ∷ names) s = ground (
    arith,
    check_names-calls server names (record s { history = lookup_host server name ∷ s.history }),
  )

  check_dns-calls :
      (checker : Option IssuerDnsChecker) (s : State Memory)
      → calls (check_dns env checker s).1 ≡ calls s
  unfolding check_dns
  check_dns-calls none s = refl
  check_dns-calls (some checker) s = grind (arith, check_names-calls)

  -- Not to be deleted, and approved.
  abbrev pub IsApproved : CertificateRequest → Type 0
  IsApproved cr =
      (is_zero_time cr.metadata.deletion_timestamp ≡ true)
      × (env.lib.request_is_approved cr.conditions ≡ true)

  process-approved :
      (spec : IssuerSpec) (s : State Memory)
      → IsApproved s.memory.request
      → calls (process env spec s).1 ≡ calls s
  unfolding process mark_denied set_not_ready set_condition
  process-approved spec s h = grind (arith, check_dns-calls)

  record_failure-calls : (e : Error) (s : State Memory) → calls (record_failure env e s).1 ≡ calls s
  unfolding record_failure set_not_ready set_condition record_event
  record_failure-calls e s = ground arith

  write_request-calls :
      (before : Option Dict) (s : State Memory) → calls (write_request env before s).1 ≡ calls s
  unfolding write_request save_request
  write_request-calls before s = ground arith

  update_parent-calls : (s : State Memory) → calls (update_parent env s).1 ≡ calls s
  unfolding update_parent certificate_from_request
  update_parent-calls s = ground arith

  finish-calls :
      (before : Option Dict) (r : Return) (s : State Memory)
      → calls (finish env before r s).1 ≡ calls s
  unfolding finish record_outcome store
  finish-calls before r s = elim (Option-cases r.err) [
    | inl e ↦ rw e (grind (arith, write_request-calls, update_parent-calls))
    | inr (x, e) ↦
        rw e (grind (arith, record_failure-calls, write_request-calls, update_parent-calls))
  ]

  module _ (ns : String) where
    reconcile_unsettled-approved :
        (spec : IssuerSpec) (s : State Memory)
        → IsApproved s.memory.request
        → calls (reconcile_unsettled env ns spec s).1 ≡ calls s
    unfolding reconcile_unsettled
    reconcile_unsettled-approved spec s h = grind (arith, process-approved, finish-calls)

    reconcile_with_client-approved :
        (spec : IssuerSpec) (s : State Memory)
        → IsApproved s.memory.request
        → calls (reconcile_with_client env ns spec s).1 ≡ calls s
    unfolding reconcile_with_client add_finalizer
    reconcile_with_client-approved spec s h = grind (arith, reconcile_unsettled-approved)

    reconcile_with_secret-approved :
        (spec : IssuerSpec) (namespace : String) (s : State Memory)
        → IsApproved s.memory.request
        → calls (reconcile_with_secret env ns spec namespace s).1 ≡ calls s
    unfolding reconcile_with_secret
    reconcile_with_secret-approved spec namespace s h =
        grind (arith, reconcile_with_client-approved)

    reconcile_owned-approved :
        (cr : CertificateRequest) (s : State Memory)
        → IsApproved s.memory.request
        → calls (reconcile_owned env ns cr s).1 ≡ calls s
    unfolding reconcile_owned issuer_from_request set_not_ready set_condition record_event
    reconcile_owned-approved cr s h = grind (arith, reconcile_with_secret-approved)

-- For a request that is approved and not being deleted, a reconciliation makes no call of Horizon.
pub reconcile-approved :
    (env : Env) (ns : String) (name : NamespacedName) (cr : CertificateRequest) (s : State Memory)
    → env.cluster.get_request s.history name ≡ ok cr
    → IsApproved env cr
    → calls (reconcile env ns name s).1 ≡ calls s
unfolding reconcile
reconcile-approved env ns name cr s got h = grind (arith, reconcile_owned-approved)
