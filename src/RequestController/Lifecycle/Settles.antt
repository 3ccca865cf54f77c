-- ===== src/RequestController/Lifecycle/Settles.antt =====
-- internal/controller/certificaterequest_controller.go: what follows the order of a certificate. An
-- order that Horizon takes leaves a new request id in memory, one that it refuses an error and the
-- InvalidRequest condition.
use horizon_issuer.Common.{
  ℕ, suc, String, Bool, true, false, ◌&&◌, Option, none, some, List, [], ◌∷◌, ◌≡◌, ◌≢◌, ◌⊎◌, refl,
  arith, is_some, length, nat_eq, if◌then◌else◌,
}
use horizon_issuer.Common.Dict.{Dict, insert, lookup, lookup-insert}
use horizon_issuer.Errors.{Error, ok}
use horizon_issuer.Api.{IssuerSpec, invalid_request, is_true}
use horizon_issuer.Sdk.{Client, Submission, LabelElement}
use horizon_issuer.Effects.{State, Outcome, returned, panicked, Return, History}
use horizon_issuer.Effects.Env.{Env}
use horizon_issuer.Horizon.Annotations.{request_id}
use horizon_issuer.Horizon.ApiError.{format_api_error}
use horizon_issuer.Horizon.Requests.{
  Memory, submit, submitted, handle_failed_request, set_condition, submit_enroll_request,
  submit_renew_request,
}
use horizon_issuer.IssuerUtil.{certificate_from_request}
use horizon_issuer.RequestController.Process.{mark_denied, enroll, submit_first, process}
use horizon_issuer.RequestController.Finish.{deep_equal, set_not_ready}
use horizon_issuer.RequestController.Finish.Laws.{RequestConditionLaws}
use horizon_issuer.RequestController.Orders.{
  orders, certificate_metadata-orders, check_dns-orders, update_request-orders,
}
use horizon_issuer.RequestController.Lifecycle.Annotations.{
  certificate_metadata-memory, check_dns-memory,
}
use horizon_issuer.RequestController.Lifecycle.{has_id}

pub length-insert :
    (k v : String) (m : Dict) → lookup k m ≡ none → length (insert k v m) ≡ suc (length m)
length-insert k v [] h = refl
length-insert k v ((j, w) ∷ m) h = ground (arith, length-insert k v m)

nat_eq-suc : (n : ℕ) → nat_eq n (suc n) ≡ false
nat_eq-suc n = ground arith

-- A map with a new key is another map.
pub deep_equal-insert :
    (k v : String) (m : Dict)
    → lookup k m ≡ none
    → deep_equal (some m) (some (insert k v m)) ≡ false
unfolding deep_equal
deep_equal-insert k v m h = rw (length-insert k v m h) (rw (nat_eq-suc (length m)))

abbrev is_failure : Outcome Return → Bool
is_failure (returned r) = is_some r.err
is_failure panicked = false

-- The deferred function, which compares the annotations with those before, stores that the request
-- was submitted or refused.
abbrev pub settles : Env → Option Dict → Outcome Return × State Memory → Bool
settles env before r =
    if deep_equal before r.1.memory.request.metadata.annotations
    then is_failure r.0
      && env.lib.request_has_condition r.1.memory.request.conditions invalid_request is_true
          "Failed"
    else has_id r.1.memory.request.metadata.annotations

-- Horizon answers a submission that it takes with the enrolment variant, and so with an id.
abbrev pub AnswersWithId : Env → Type 0
AnswersWithId env =
    (h : History) (client : Client) (body : Submission)
    → env.horizon.request_submit h client body ≢ ok none

module _ (env : Env) (laws : RequestConditionLaws env.lib) (answers : AnswersWithId env) (m : Dict)
    (fresh : lookup request_id m ≡ none) (same : deep_equal (some m) (some m) ≡ true) where
  handle_failed_request-settles :
      (e : Error) (s : State Memory)
      → s.memory.request.metadata.annotations ≡ some m
      → settles env (some m) (handle_failed_request env e s) ≡ true
  unfolding handle_failed_request
  handle_failed_request-settles e s h = ground (
    arith,
    same,
    laws.has-set s.memory.request.conditions (record {
      kind = invalid_request;
      status = is_true;
      reason = "Failed";
      message = format_api_error (some e);
    }),
  )

  submitted-settles :
      (id message : String) (s : State Memory)
      → s.memory.request.metadata.annotations ≡ some m
      → settles env (some m) (submitted env (some id) message s) ≡ true
  unfolding submitted
  submitted-settles id message s h =
      ground
        (arith, deep_equal-insert request_id id m fresh, lookup-insert request_id request_id id m)

  submit-settles :
      (client : Client) (body : Submission) (message : String) (s : State Memory)
      → s.memory.request.metadata.annotations ≡ some m
      → settles env (some m) (submit env client body message s) ≡ true
  unfolding submit
  submit-settles client body message s h =
      grind (arith, submitted-settles, handle_failed_request-settles, answers)

  -- No certificate was ordered, or the outcome settles the request.
  abbrev pub Settled : State Memory → Outcome Return × State Memory → Type 0
  Settled s r = (orders r.1 ≡ orders s) ⊎ (settles env (some m) r ≡ true)

  submit_renew_request-Settled :
      (id : String) (s : State Memory)
      → s.memory.request.metadata.annotations ≡ some m
      → Settled s (submit_renew_request env id s)
  unfolding submit_renew_request
  submit_renew_request-Settled id s h = grind (arith, submit-settles)

  submit_enroll_request-Settled :
      (spec : IssuerSpec) (labels : List LabelElement) (owner team email : Option String)
      (s : State Memory)
      → s.memory.request.metadata.annotations ≡ some m
      → Settled s (submit_enroll_request env spec labels owner team email s)
  unfolding submit_enroll_request
  submit_enroll_request-Settled spec labels owner team email s h = grind (arith, submit-settles)

  enroll-Settled :
      (spec : IssuerSpec) (s : State Memory)
      → s.memory.request.metadata.annotations ≡ some m
      → Settled s (enroll env spec s)
  unfolding enroll set_not_ready set_condition
  enroll-Settled spec s h = grind (
    arith, certificate_metadata-memory, certificate_metadata-orders, submit_enroll_request-Settled,
  )

  submit_first-Settled :
      (spec : IssuerSpec) (s : State Memory)
      → s.memory.request.metadata.annotations ≡ some m
      → Settled s (submit_first env spec s)
  unfolding submit_first certificate_from_request
  submit_first-Settled spec s h = grind (arith, enroll-Settled, submit_renew_request-Settled)

  pub process-Settled :
      (spec : IssuerSpec) (s : State Memory)
      → s.memory.request.metadata.annotations ≡ some m
      → Settled s (process env spec s)
  unfolding process mark_denied set_not_ready set_condition
  process-Settled spec s h =
      grind (arith, check_dns-memory, check_dns-orders, update_request-orders, submit_first-Settled)
