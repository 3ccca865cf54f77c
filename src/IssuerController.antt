-- ===== src/IssuerController.antt =====
-- internal/controller/issuer_controller.go: the reconciler of Issuer and ClusterIssuer objects.
pub mod Laws
pub mod Update
use horizon_issuer.Common.{ℕ, String, Bool, true, false, Option, none, some, List, [], ◌∷◌}
use horizon_issuer.Common.Text.{◌<>◌}
use horizon_issuer.Errors.{Error, plain, wrapped, text, errorf, Result, ok, err}
use horizon_issuer.Api.{
  NamespacedName, Secret, ClientObject, issuer, cluster_issuer, other, Issuer, ClusterIssuer,
  IssuerSpec, IssuerStatus, ConditionStatus, is_true, is_false, is_unknown,
}
use horizon_issuer.Effects.{
  get_issuer, get_cluster_issuer, get_secret, update_issuer_status, History, State, M, pure, panic,
  ask, gets, ◌>>=◌, ◌>>◌, modify, Return, done, fail, with_defer, no_requeue,
}
use horizon_issuer.Effects.Env.{
  Env, Libraries, SchemeObject, an_issuer, a_cluster_issuer, not_an_object,
}
use horizon_issuer.Horizon.ClientConfig.{trim_url}
use horizon_issuer.Horizon.Health.{health_checker_from_issuer, check}
use horizon_issuer.IssuerUtil.{get_spec_and_status, set_ready_condition, get_ready_condition}

-- The fields of IssuerReconciler that differ between its instances.
pub record IssuerReconciler : Type 0 where
  pub kind : String
  pub cluster_resource_namespace : String
  pub health_check_interval : ℕ

abbrev pub generation : ClientObject → ℕ
generation (issuer i) = i.metadata.generation
generation (cluster_issuer i) = i.metadata.generation
generation other = 0

-- `&t.Status` and `&t.Spec` point into the object.
abbrev pub with_status : (IssuerStatus → IssuerStatus) → ClientObject → ClientObject
with_status f (issuer i) = issuer (record i { status = f i.status })
with_status f (cluster_issuer i) = cluster_issuer (record i { status = f i.status })
with_status f other = other

abbrev pub with_spec : (IssuerSpec → IssuerSpec) → ClientObject → ClientObject
with_spec f (issuer i) = issuer (record i { spec = f i.spec })
with_spec f (cluster_issuer i) = cluster_issuer (record i { spec = f i.spec })
with_spec f other = other

-- The object in memory, before the first get.
abbrev pub IssuerMemory : Type 0
IssuerMemory = ClientObject

-- `errGetAuthSecret` with the secret's name and the reason.
abbrev pub secret_error : Libraries → NamespacedName → Error → Error
secret_error lib name e =
    wrapped
      ("failed to get Secret containing Issuer credentials, secret name: "
        <> (lib.name_text name <> (", reason: " <> text e)))
      (plain "failed to get Secret containing Issuer credentials")

module _ (env : Env) where
  set_ready : ConditionStatus → (reason message : String) → M IssuerMemory (Unit {0})
  unfolding set_ready_condition
  set_ready s reason message =
      modify
        (λ o. with_status (λ t. set_ready_condition env.lib (generation o) t s reason message) o)

  -- `r.Get(ctx, req.NamespacedName, issuer)` on an empty object of the kind.
  get_object : SchemeObject → NamespacedName → M IssuerMemory (Result ClientObject)
  get_object an_issuer name = do
    r ← ask (get_issuer name) (λ h. env.cluster.get_issuer h name)
    pure (elim r [ ok i ↦ ok (issuer i) | err e ↦ err e ])
  get_object a_cluster_issuer name = do
    r ← ask (get_cluster_issuer name) (λ h. env.cluster.get_cluster_issuer h name)
    pure (elim r [ ok i ↦ ok (cluster_issuer i) | err e ↦ err e ])
  get_object not_an_object name = panic

  -- The deferred function.
  update_status : Return → M IssuerMemory Return
  unfolding set_ready
  update_status r = do
    elim r.err [ none ↦ pure tt | some e ↦ set_ready is_false "Error" (text e) ]
    o ← gets (λ o. o)
    update_err ← ask (update_issuer_status o) (λ h. env.cluster.update_issuer_status h o)
    elim update_err [
      | none ↦ pure r
      | some e ↦
          pure (record { result = no_requeue; err = env.lib.new_aggregate (r.err ∷ (some e ∷ [])) })
    ]

  module _ (r : IssuerReconciler) where
    -- The namespace of the secret; no other object comes this far.
    abbrev secret_name : NamespacedName → IssuerSpec → ClientObject → Option NamespacedName
    secret_name req spec (issuer i) =
        some (record { name = spec.auth_secret_name; namespace = req.namespace })
    secret_name req spec (cluster_issuer i) =
        some (record { name = spec.auth_secret_name; namespace = r.cluster_resource_namespace })
    secret_name req spec other = none

    -- From the client to the end.
    health_check : IssuerSpec → Secret → M IssuerMemory Return
    unfolding set_ready health_checker_from_issuer check trim_url
    health_check spec secret = do
      modify (with_spec (trim_url env.lib))
      elim (health_checker_from_issuer env.lib spec secret) [
        | err e ↦ pure (fail (errorf "failed to build the healthchecker" e))
        | ok checker ↦ do
          failure ← check env checker
          elim failure [
            | some e ↦ pure (fail (errorf "healthcheck failed" e))
            | none ↦ do
              set_ready is_true "Success" "Health check succeeded"
              pure (record {
                result = record { requeue = false; requeue_after = r.health_check_interval };
                err = none;
              })
          ]
      ]

    -- What stands below the `defer`.
    check_issuer : NamespacedName → IssuerSpec → IssuerStatus → M IssuerMemory Return
    unfolding set_ready health_check get_ready_condition
    check_issuer req spec status = elim (get_ready_condition env.lib (some status)) [
      | none ↦ do set_ready is_unknown "FirstSeen" "First seen"; pure done
      | some _ ↦ do
        o ← gets (λ o. o)
        elim (secret_name req spec o) [
          | none ↦ pure done
          | some name ↦ do
            answer ← ask (get_secret name) (λ h. env.cluster.get_secret h name)
            elim answer [
              | err e ↦ pure (fail (secret_error env.lib name e))
              | ok secret ↦ health_check spec secret
            ]
        ]
    ]

    -- What follows the get of the object.
    pub reconcile_object : NamespacedName → ClientObject → M IssuerMemory Return
    unfolding get_spec_and_status update_status check_issuer
    reconcile_object req o = do
      modify (λ _. o)
      elim (get_spec_and_status o) [
        | err _ ↦ pure done
        | ok (spec, status) ↦ with_defer update_status (check_issuer req spec status)
      ]

    unfoldable pub reconcile : NamespacedName → M IssuerMemory Return
    unfolding get_object reconcile_object
    reconcile req = elim (env.lib.new_object r.kind) [
      | err e ↦ pure done
      | ok kind ↦ do
        found ← get_object kind req
        elim found [
          | err e ↦ elim (env.lib.ignore_not_found e) [
            | some e' ↦ pure (fail (plain ("unexpected get error: " <> text e')))
            | none ↦ pure done
          ]
          | ok o ↦ reconcile_object req o
        ]
    ]
