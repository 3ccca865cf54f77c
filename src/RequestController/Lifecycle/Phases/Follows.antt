-- ===== src/RequestController/Lifecycle/Phases/Follows.antt =====
-- internal/controller/certificaterequest_controller.go: the phase of an open request after what
-- stands below the `defer` and the deferred function.
use horizon_issuer.Common.{
  ℕ, suc, String, Bool, true, false, none, some, ◌≡◌, arith, inl, inr, Bool-cases, ◌∙◌, List,
}
use horizon_issuer.Common.Dict.{Dict, lookup, is_map}
use horizon_issuer.Api.{CertificateRequest, IssuerSpec, RequestCondition, ready, is_false}
use horizon_issuer.Effects.{State, Outcome, Return, named_results}
use horizon_issuer.Effects.Env.{Env}
use horizon_issuer.Horizon.Annotations.{request_id}
use horizon_issuer.Horizon.Requests.{Memory, set_condition}
use horizon_issuer.RequestController.{is_settled}
use horizon_issuer.RequestController.Process.{process, mark_denied}
use horizon_issuer.RequestController.Finish.{deep_equal, finish, set_not_ready}
use horizon_issuer.RequestController.Finish.Laws.{RequestConditionLaws, deep_equal_refl}
use horizon_issuer.RequestController.Orders.{
  orders, finish-orders, check_dns-orders, update_request-orders,
}
use horizon_issuer.RequestController.Lifecycle.Keeps.{stored, process-stored}
use horizon_issuer.RequestController.Lifecycle.Stored.{finish-stored}
use horizon_issuer.RequestController.Lifecycle.Settles.{AnswersWithId, process-Settled, settles}
use horizon_issuer.RequestController.Lifecycle.Kept.{
  is_map-IsMap, finish-handled, finish-kept, has_key, has_key-insert,
}
use horizon_issuer.RequestController.Lifecycle.Annotations.{process-kept, check_dns-memory}
use horizon_issuer.RequestController.Lifecycle.Denied.{not_ready}
use horizon_issuer.RequestController.Lifecycle.Phases.{
  Phase, fresh, waiting, granted, refused, moves, phase_of,
}
use horizon_issuer.RequestController.Lifecycle.Phases.Ordered.{process-Ordered}
use horizon_issuer.RequestController.Lifecycle.Phases.Decided.{decides, process-decided}
use horizon_issuer.RequestController.Lifecycle.Phases.Finish.{
  finish-decided, finish-same_annotations, finish-same_conditions, finish-new_annotations,
}

module _ (env : Env) (ns : String) (init : CertificateRequest)
    (laws : RequestConditionLaws env.lib) where
  -- A state that a step leads to, as a test.
  abbrev pub follows : Phase → ℕ → State Memory → Bool
  follows p n t = moves p (phase_of env ns (stored env init t)) n (orders t)

  -- What is known of the state before, where the request is open.
  pub record Open (s : State Memory) (d a : Bool) : Type 0 where
    pub same_annotations :
        s.memory.request.metadata.annotations ≡ (stored env init s).metadata.annotations
    pub same_conditions : s.memory.request.conditions ≡ (stored env init s).conditions
    pub is_open : is_settled env ns (stored env init s).conditions ≡ false
    pub denied : env.lib.request_is_denied (stored env init s).conditions ≡ d
    pub approved : env.lib.request_is_approved (stored env init s).conditions ≡ a

  pub failed-settled :
      (cs : List RequestCondition)
      → env.lib.request_has_condition cs ready is_false "Failed" ≡ true
      → is_settled env ns cs ≡ true
  unfolding is_settled
  failed-settled cs h = ground (arith, h)

  module _ (m : Dict) (map : is_map m ≡ true) (spec : IssuerSpec) (s : State Memory)
      (annotated : s.memory.request.metadata.annotations ≡ some m) where
    abbrev pub o : Outcome Return
    o = (process env spec s).0

    abbrev pub t : State Memory
    t = (process env spec s).1

    abbrev pub after : State Memory
    after = (finish env (some m) (named_results o) t).1

    fresh-idle :
        Open s false false
        → lookup request_id m ≡ none
        → orders t ≡ orders s
        → t.memory.request.metadata.annotations ≡ some m
        → follows fresh (orders s) after ≡ true
    fresh-idle c no_id same kept = ground (
      arith,
      deep_equal_refl (some m) (is_map-IsMap m map),
      finish-decided env init laws (some m) (named_results o) t,
      finish-same_annotations env init laws (some m) (named_results o) t,
      finish-orders env (some m) (named_results o) t,
      process-decided env laws spec s,
      process-stored env init spec s,
      c.same_annotations,
      c.same_conditions,
      c.is_open,
      c.denied,
      c.approved,
    )

    fresh-ordered :
        Open s false false
        → lookup request_id m ≡ none
        → orders t ≡ suc (orders s)
        → settles env (some m) (o, t) ≡ true
        → follows fresh (orders s) after ≡ true
    fresh-ordered c no_id one settling =
        elim (Bool-cases (deep_equal (some m) t.memory.request.metadata.annotations)) [
          | inl same ↦ ground (
            arith,
            finish-handled env init laws (some m) o t settling,
            failed-settled (stored env init after).conditions,
            finish-same_annotations env init laws (some m) (named_results o) t same,
            finish-orders env (some m) (named_results o) t,
            process-stored env init spec s,
            c.same_annotations,
          )
          | inr changed ↦ ground (
            arith,
            finish-same_conditions env init laws (some m) (named_results o) t changed,
            finish-new_annotations env init laws (some m) (named_results o) t changed,
            finish-orders env (some m) (named_results o) t,
            process-stored env init spec s,
            c.is_open,
            c.denied,
            c.approved,
          )
        ]

    pub fresh-follows :
        AnswersWithId env
        → Open s false false
        → lookup request_id m ≡ none
        → follows fresh (orders s) after ≡ true
    fresh-follows answers c no_id =
        let same = deep_equal_refl (some m) (is_map-IsMap m map) in
        elim (process-Ordered env spec s (ground (arith, annotated))) [
          | inl one ↦ elim (process-Settled env laws answers m no_id same spec s annotated) [
            | inl unordered ↦ ground (arith, one, unordered)
            | inr settling ↦ fresh-ordered c no_id one settling
          ]
          | inr (unordered, kept) ↦ fresh-idle c no_id unordered (kept ∙ annotated)
        ]

    waiting-orders :
        (id : String)
        → lookup request_id m ≡ some id
        → decides env laws s ≡ (false, false)
        → orders t ≡ orders s
    unfolding process
    waiting-orders id has c =
        grind (arith, annotated, check_dns-orders, check_dns-memory, update_request-orders)

    pub waiting-follows :
        (id : String)
        → Open s false false
        → lookup request_id m ≡ some id
        → follows waiting (orders s) after ≡ true
    waiting-follows id c has = ground (
      arith,
      waiting-orders id has,
      finish-orders env (some m) (named_results o) t,
      finish-kept env init (has_key request_id) (some m) (named_results o) t,
      process-kept env (has_key request_id) (has_key-insert request_id) spec s,
      process-stored env init spec s,
      annotated,
      c.same_annotations,
      c.same_conditions,
      c.is_open,
      c.denied,
      c.approved,
    )

    granted-idle :
        decides env laws s ≡ (false, true) → (t.memory ≡ s.memory) × (orders t ≡ orders s)
    unfolding process
    granted-idle c = grind (arith, annotated, check_dns-orders, check_dns-memory)

    pub granted-follows : Open s false true → follows granted (orders s) after ≡ true
    granted-follows c = ground (
      arith,
      granted-idle,
      deep_equal_refl (some m) (is_map-IsMap m map),
      finish-decided env init laws (some m) (named_results o) t,
      finish-same_annotations env init laws (some m) (named_results o) t,
      finish-orders env (some m) (named_results o) t,
      process-stored env init spec s,
      annotated,
      c.same_annotations,
      c.same_conditions,
      c.is_open,
      c.denied,
      c.approved,
    )

    refused-marked :
        env.lib.request_is_denied s.memory.request.conditions ≡ true
        → process env spec s ≡ mark_denied env s
    unfolding process
    refused-marked h = ground (arith, h)

    pub refused-follows : (a : Bool) → Open s true a → follows refused (orders s) after ≡ true
    unfolding mark_denied set_not_ready set_condition is_settled
    refused-follows a c = ground (
      arith,
      refused-marked,
      deep_equal_refl (some m) (is_map-IsMap m map),
      finish-stored env init (some m) (named_results o) t,
      finish-orders env (some m) (named_results o) t,
      laws.has-set s.memory.request.conditions not_ready,
      annotated,
      c.same_annotations,
      c.same_conditions,
      c.is_open,
      c.denied,
      c.approved,
    )
