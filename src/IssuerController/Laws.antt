-- ===== src/IssuerController/Laws.antt =====
-- internal/controller/issuer_controller.go: when an issuer is reported ready, and the status update.
use horizon_issuer.Common.{
  true, Option, none, some, ◌∷◌, ◌≡◌, ◌≢◌, ◌↔◌, sym, ◌∙◌, ◌⊎◌, inl, inr, arith, Option-cases,
}
use horizon_issuer.Errors.{Error, ok, err, Result-cases}
use horizon_issuer.Api.{
  NamespacedName, Secret, ClientObject, issuer, cluster_issuer, other, Issuer, ClusterIssuer,
  IssuerSpec, IssuerStatus,
}
use horizon_issuer.Sdk.{Client}
use horizon_issuer.Effects.{
  Call, get_issuer, get_cluster_issuer, get_secret, History, State, Return, Outcome,
}
use horizon_issuer.Effects.Env.{Env, an_issuer, a_cluster_issuer}
use horizon_issuer.Horizon.ClientConfig.{client_from_issuer}
use horizon_issuer.IssuerUtil.{get_ready_condition, is_ready}
use horizon_issuer.IssuerUtil.Laws.{StatusConditionLaws, is_ready-set_ready_condition}
use horizon_issuer.IssuerController.{
  IssuerReconciler, IssuerMemory, get_object, update_status, health_check, check_issuer,
  reconcile_object, reconcile,
}

-- The status of an issuer in memory.
abbrev pub status_of : ClientObject → Option IssuerStatus
status_of (issuer i) = some i.status
status_of (cluster_issuer i) = some i.status
status_of other = none

module _ (env : Env) (r : IssuerReconciler) (req : NamespacedName) where
  -- What the health check passes: the issuer has been seen before, its secret is there, a client
  -- can be made from the two, and Horizon answers that client.
  pub record Passes (spec : IssuerSpec) (status : IssuerStatus) (name : NamespacedName)
      (h : History) : Type 0 where
    pub secret : Secret
    pub client : Client
    pub seen : get_ready_condition env.lib (some status) ≢ none
    pub found : env.cluster.get_secret h name ≡ ok secret
    pub built : client_from_issuer env.lib spec secret ≡ ok client
    pub answered : env.horizon.principal_self (get_secret name ∷ h) client ≡ none

  -- The secret of an Issuer is in the namespace of the request, that of a ClusterIssuer in the
  -- cluster resource namespace.
  abbrev pub IsHealthy : ClientObject → History → Type 0
  IsHealthy (issuer i) h =
      Passes i.spec i.status (record { name = i.spec.auth_secret_name; namespace = req.namespace })
        h
  IsHealthy (cluster_issuer i) h =
      Passes i.spec i.status
        (record { name = i.spec.auth_secret_name; namespace = r.cluster_resource_namespace }) h
  IsHealthy other h = ⊥

  -- The ways in which a check does not pass.
  pub data Fails (spec : IssuerSpec) (status : IssuerStatus) (name : NamespacedName) (h : History)
      : Type 0 where
    first_seen : get_ready_condition env.lib (some status) ≡ none → Fails spec status name h
    no_secret : {e : Error} → env.cluster.get_secret h name ≡ err e → Fails spec status name h
    no_client :
        {secret : Secret} {e : Error}
        → env.cluster.get_secret h name ≡ ok secret
        → client_from_issuer env.lib spec secret ≡ err e
        → Fails spec status name h
    no_answer :
        {secret : Secret} {client : Client} {e : Error}
        → env.cluster.get_secret h name ≡ ok secret
        → client_from_issuer env.lib spec secret ≡ ok client
        → env.horizon.principal_self (get_secret name ∷ h) client ≡ some e
        → Fails spec status name h

  pub either_outcome :
      (spec : IssuerSpec) (status : IssuerStatus) (name : NamespacedName) (h : History)
      → Passes spec status name h ⊎ Fails spec status name h
  either_outcome spec status name h =
      elim (Option-cases (get_ready_condition env.lib (some status))) [
        | inl new ↦ inr (first_seen new)
        | inr (c, seen) ↦ elim (Result-cases (env.cluster.get_secret h name)) [
          | inr (e, missing) ↦ inr (no_secret missing)
          | inl (secret, found) ↦ elim (Result-cases (client_from_issuer env.lib spec secret)) [
            | inr (e, bad) ↦ inr (no_client found bad)
            | inl (client, built) ↦
                elim (Option-cases (env.horizon.principal_self (get_secret name ∷ h) client)) [
                  | inr (e, down) ↦ inr (no_answer found built down)
                  | inl answered ↦ inl (record {
                    secret = secret;
                    client = client;
                    seen = λ new. absurd (cc (sym new ∙ seen));
                    found = found;
                    built = built;
                    answered = answered;
                  })
                ]
          ]
        ]
      ]

  abbrev pub IsReadyAfter : Outcome Return × State IssuerMemory → Type 0
  IsReadyAfter t = is_ready env.lib (status_of t.1.memory) ≡ true

  abbrev pub start : ClientObject → History → State IssuerMemory
  start o h = record { memory = o; history = h }

  module _ (laws : StatusConditionLaws env.lib) (h : History) where
    ready_of_healthy :
        (o : ClientObject) → IsHealthy o h → IsReadyAfter (reconcile_object env r req o (start o h))
    unfolding reconcile_object check_issuer health_check update_status
    ready_of_healthy (issuer i) p =
        grind
          (arith, p.seen, p.found, p.built, p.answered, is_ready-set_ready_condition env.lib laws)
    ready_of_healthy (cluster_issuer i) p =
        grind
          (arith, p.seen, p.found, p.built, p.answered, is_ready-set_ready_condition env.lib laws)
    ready_of_healthy other p = absurd p

    unready_issuer :
        (i : Issuer)
        → Fails i.spec i.status
            (record { name = i.spec.auth_secret_name; namespace = req.namespace })
            h
        → ¬ IsReadyAfter (reconcile_object env r req (issuer i) (start (issuer i) h))
    unfolding reconcile_object check_issuer health_check update_status
    unready_issuer i (first_seen new) p = grind (arith, is_ready-set_ready_condition env.lib laws)
    unready_issuer i (no_secret a) p = grind (arith, is_ready-set_ready_condition env.lib laws)
    unready_issuer i (no_client a b) p = grind (arith, is_ready-set_ready_condition env.lib laws)
    unready_issuer i (no_answer a b c) p = grind (arith, is_ready-set_ready_condition env.lib laws)

    unready_cluster_issuer :
        (i : ClusterIssuer)
        → Fails i.spec i.status
            (record { name = i.spec.auth_secret_name; namespace = r.cluster_resource_namespace })
            h
        → ¬ IsReadyAfter
            (reconcile_object env r req (cluster_issuer i) (start (cluster_issuer i) h))
    unfolding reconcile_object check_issuer health_check update_status
    unready_cluster_issuer i (first_seen new) p =
        grind (arith, is_ready-set_ready_condition env.lib laws)
    unready_cluster_issuer i (no_secret a) p =
        grind (arith, is_ready-set_ready_condition env.lib laws)
    unready_cluster_issuer i (no_client a b) p =
        grind (arith, is_ready-set_ready_condition env.lib laws)
    unready_cluster_issuer i (no_answer a b c) p =
        grind (arith, is_ready-set_ready_condition env.lib laws)

    IsHealthy-of_ready :
        (o : ClientObject) → IsReadyAfter (reconcile_object env r req o (start o h)) → IsHealthy o h
    unfolding is_ready reconcile_object
    IsHealthy-of_ready (issuer i) p = elim (either_outcome i.spec i.status _ h) [
      | inl passes ↦ passes
      | inr fails ↦ absurd (unready_issuer i fails p)
    ]
    IsHealthy-of_ready (cluster_issuer i) p = elim (either_outcome i.spec i.status _ h) [
      | inl passes ↦ passes
      | inr fails ↦ absurd (unready_cluster_issuer i fails p)
    ]
    IsHealthy-of_ready other p = absurd (cc)

  -- The get of the object found it.
  abbrev pub IsFetched : ClientObject → History → Type 0
  IsFetched (issuer i) h =
      (env.lib.new_object r.kind ≡ ok an_issuer) × (env.cluster.get_issuer h req ≡ ok i)
  IsFetched (cluster_issuer i) h =
      (env.lib.new_object r.kind ≡ ok a_cluster_issuer)
      × (env.cluster.get_cluster_issuer h req ≡ ok i)
  IsFetched other h = ⊥

  abbrev pub get_call : ClientObject → Call
  get_call (issuer i) = get_issuer req
  get_call (cluster_issuer i) = get_cluster_issuer req
  get_call other = get_issuer req

  pub reconcile-fetched :
      (o : ClientObject) (s : State IssuerMemory)
      → IsFetched o s.history
      → reconcile env r req s ≡ reconcile_object env r req o (start o (get_call o ∷ s.history))
  unfolding reconcile reconcile_object get_object
  reconcile-fetched (issuer i) s (a, b) = ground arith
  reconcile-fetched (cluster_issuer i) s (a, b) = ground arith
  reconcile-fetched other s f = absurd f

-- An Issuer or ClusterIssuer that the get finds is ready after its reconciliation if and only if it
-- had a Ready condition before, the secret that it names is found (in the namespace of the request
-- for an Issuer, in the cluster resource namespace for a ClusterIssuer), a client can be made from
-- both, and Horizon answers that client. The status conditions obey apimachinery's laws.
pub reconcile-ready_iff :
    (env : Env) (r : IssuerReconciler) (req : NamespacedName) (laws : StatusConditionLaws env.lib)
    (o : ClientObject) (s : State IssuerMemory)
    → IsFetched env r req o s.history
    → IsReadyAfter env r req (reconcile env r req s)
      ↔ IsHealthy env r req o (get_call env r req o ∷ s.history)
reconcile-ready_iff env r req laws o s f =
    rw (reconcile-fetched env r req o s f)
      (IsHealthy-of_ready env r req laws _ o, ready_of_healthy env r req laws _ o)
