-- ===== src/RequestController/Lifecycle/Denied.antt =====
-- internal/controller/certificaterequest_controller.go: a request that Horizon denies or cancels.
use horizon_issuer.Common.{
  String, Bool, true, false, ◌&&◌, some, List, ◌∷◌, ◌≡◌, refl, ◌∙◌, arith, is_some, get_or,
}
use horizon_issuer.Common.Dict.{lookup}
use horizon_issuer.Errors.{ok}
use horizon_issuer.Api
use horizon_issuer.Api.{
  NamespacedName, CertificateRequest, IssuerSpec, RequestCondition, ready, is_true, is_false,
}
use horizon_issuer.Sdk
use horizon_issuer.Sdk.{Client, RequestOnGet, RequestStatus, completed, pending, canceled, unknown}
use horizon_issuer.Effects.{History, State, returned, done, request_get}
use horizon_issuer.Effects.Env.{Env}
use horizon_issuer.Horizon.Annotations.{request_id, issuer_namespace}
use horizon_issuer.Horizon.ClientConfig.{trim_url}
use horizon_issuer.Horizon.Requests.{Memory, set_condition}
use horizon_issuer.Horizon.Polling.{update_request, dispatch, handle_denied_request}
use horizon_issuer.RequestController.{is_settled, reconcile}
use horizon_issuer.RequestController.Process.{process, check_dns, mark_denied}
use horizon_issuer.RequestController.Finish.{set_not_ready}
use horizon_issuer.RequestController.Finish.Laws.{RequestConditionLaws}
use horizon_issuer.RequestController.Lifecycle.{Holds, stored_after, rounds}
use horizon_issuer.RequestController.Lifecycle.Keeps.{stored}
use horizon_issuer.RequestController.Lifecycle.Served.{spec_of}
use horizon_issuer.RequestController.Lifecycle.Awaits.{
  prepared-stored, Reaches, Undecided, prepared,
}
use horizon_issuer.RequestController.Lifecycle.Status.{status-stored}

-- The answers for which Horizon will issue nothing.
abbrev pub is_denial : RequestStatus → Bool
is_denial Sdk.denied = true
is_denial canceled = true
is_denial _ = false

-- The condition that stands for Horizon's denial.
abbrev pub denial : RequestCondition
denial = record {
  kind = Api.denied;
  status = is_true;
  reason = issuer_namespace;
  message = "Request denied on Horizon";
}

-- The Ready condition of a denied request.
abbrev pub not_ready : RequestCondition
not_ready = record {
  kind = ready;
  status = is_false;
  reason = "Denied";
  message = "The CertificateRequest was denied by an approval controller";
}

still_open :
    (env : Env) (ns : String)
    → RequestConditionLaws env.lib
    → (cs : List RequestCondition) → is_settled env ns cs ≡ false
    → is_settled env ns (env.lib.set_request_condition cs denial) ≡ false
unfolding is_settled
still_open env ns laws cs h = ground (
  arith,
  h,
  laws.has-set_other cs denial ready is_true "" (λ e. cc),
  laws.has-set_other cs denial ready is_false "Failed" (λ e. cc),
  laws.has-set_other cs denial ready is_false "Denied" (λ e. cc),
)

module _ (env : Env) (ns : String) (name : NamespacedName) (init : CertificateRequest)
    (holds : Holds env name init) where
  module _ (cr : CertificateRequest) (c : Reaches env ns cr) (s : State Memory)
      (held : stored env init s ≡ cr) where
    abbrev before : State Memory
    before = prepared env ns name init holds cr c s

    abbrev spec : IssuerSpec
    spec = trim_url env.lib (spec_of c.found)

    -- The request as Horizon's denial leaves it.
    abbrev pub denied_request : CertificateRequest
    denied_request = record cr { conditions = env.lib.set_request_condition cr.conditions denial }

    denied_state : Client → String → State Memory
    denied_state client id = record {
      memory = record (before.memory) {
        request = record (before.memory.request) {
          conditions = env.lib.set_request_condition cr.conditions denial;
        };
      };
      history = request_get client id ∷ before.history;
    }

    dispatch-denied :
        (answer : RequestOnGet) (t : State Memory)
        → is_denial answer.status ≡ true
        → dispatch env answer.status answer t ≡ handle_denied_request env t
    unfolding dispatch
    dispatch-denied answer t denies = ground (arith, denies)

    process-denied :
        (u : Undecided env cr) (id : String) (answer : RequestOnGet)
        → lookup request_id c.annotations ≡ some id
        → ((h : History) → env.horizon.request_get h c.client id ≡ ok (some answer))
        → is_denial answer.status ≡ true
        → process env spec before ≡ (returned done, denied_state c.client id)
    unfolding process check_dns update_request handle_denied_request set_condition trim_url
        denied_state
    process-denied u id answer submitted answered denies = ground (
      arith,
      u.not_denied,
      u.not_approved,
      c.unchecked,
      c.annotated,
      submitted,
      answered before.history,
      dispatch-denied answer (record before { history = request_get c.client id ∷ before.history })
          denies,
    )

    denial-stored :
        (u : Undecided env cr) (id : String) (answer : RequestOnGet)
        → lookup request_id c.annotations ≡ some id
        → ((h : History) → env.horizon.request_get h c.client id ≡ ok (some answer))
        → is_denial answer.status ≡ true
        → stored env init (reconcile env ns name s).1 ≡ denied_request
    unfolding denied_state
    denial-stored u id answer submitted answered denies =
        status-stored env ns name init holds cr c s held (denied_state c.client id)
          (process-denied u id answer submitted answered denies) c.annotated
          (prepared-stored env ns name init holds cr c s ∙ held)

    -- The request as a reconciliation leaves it that finds it denied.
    abbrev pub marked_request : CertificateRequest
    marked_request = record cr {
      conditions = env.lib.set_request_condition cr.conditions not_ready;
      failure_time = some (get_or cr.failure_time (env.clock_now before.history));
    }

    marked_state : State Memory
    marked_state = record before {
      memory = record (before.memory) {
        request = record (before.memory.request) {
          conditions = env.lib.set_request_condition cr.conditions not_ready;
          failure_time = some (get_or cr.failure_time (env.clock_now before.history));
        };
      };
    }

    process-marked :
        env.lib.request_is_denied cr.conditions ≡ true
        → process env spec before ≡ (returned done, marked_state)
    unfolding process mark_denied set_not_ready set_condition marked_state
    process-marked denied = ground (arith, denied)

    mark-stored :
        env.lib.request_is_denied cr.conditions ≡ true
        → stored env init (reconcile env ns name s).1 ≡ marked_request
    unfolding marked_state
    mark-stored denied =
        status-stored env ns name init holds cr c s held marked_state (process-marked denied)
          c.annotated (prepared-stored env ns name init holds cr c s ∙ held)

    -- Horizon's denial leaves the request open.
    denied-Reaches : RequestConditionLaws env.lib → Reaches env ns denied_request
    denied-Reaches laws = record {
      found = c.found;
      secret = c.secret;
      client = c.client;
      annotations = c.annotations;
      owned = c.owned;
      served = c.served;
      healthy = c.healthy;
      login = c.login;
      configured = c.configured;
      unchecked = c.unchecked;
      not_deleted = c.not_deleted;
      annotated = c.annotated;
      is_map = c.is_map;
      open_request = still_open env ns laws cr.conditions c.open_request;
    }

-- Ready false for the reason Denied, with a failure time.
abbrev pub is_refused : Env → CertificateRequest → Bool
is_refused env cr =
    env.lib.request_has_condition cr.conditions ready is_false "Denied" && is_some cr.failure_time

-- A request that was submitted and is open, and that Horizon denies or cancels, is refused after two
-- reconciliations: it is Ready false for the reason Denied, and has a failure time. The first one
-- stores that it is denied. The request is neither denied nor approved before, and not to be
-- deleted; its issuer, of either kind, is ready and needs no DNS check, and Horizon's answer stays;
-- the API server takes every update and nobody else writes the request.
pub rounds-denied :
    (env : Env) (ns : String) (name : NamespacedName) (init : CertificateRequest)
    → Holds env name init
    → RequestConditionLaws env.lib
    → (s : State Memory) (c : Reaches env ns (stored_after init s.history))
    → Undecided env (stored_after init s.history)
    → (id : String) (answer : RequestOnGet) → lookup request_id c.annotations ≡ some id
    → ((h : History) → env.horizon.request_get h c.client id ≡ ok (some answer))
    → is_denial answer.status ≡ true
    → (env.lib.request_is_denied (stored_after init (rounds env ns name 1 s).history).conditions
        ≡ true)
      × (is_refused env (stored_after init (rounds env ns name 2 s).history) ≡ true)
unfolding rounds
rounds-denied env ns name init holds laws s c u id answer submitted answered denies =
    let cr = stored env init s in
    let first =
      denial-stored env ns name init holds cr c s refl u id answer submitted answered denies in
    let c' = denied-Reaches env ns name init holds cr c s refl laws in
    let denied =
      laws.denied-has (env.lib.set_request_condition cr.conditions denial)
      ∙ laws.has_any-set cr.conditions denial in
    let second =
      mark-stored env ns name init holds (denied_request env ns name init holds cr c s refl) c'
        (reconcile env ns name s).1 first denied in
    (
      rw first denied,
      rw second (
          ground
            (arith, laws.has-set (env.lib.set_request_condition cr.conditions denial) not_ready)),
    )
