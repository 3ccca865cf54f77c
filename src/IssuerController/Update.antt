-- ===== src/IssuerController/Update.antt =====
-- internal/controller/issuer_controller.go: the deferred status update and the result.
use horizon_issuer.Common.{false, none, some, ◌∷◌, ◌≡◌, ◌≢◌, refl, ◌∙◌, inl, inr, arith}
use horizon_issuer.Errors.{Error, errorf}
use horizon_issuer.Api.{
  NamespacedName, ClientObject, issuer, cluster_issuer, other, Issuer, ClusterIssuer, IssuerSpec,
  IssuerStatus,
}
use horizon_issuer.Effects.Count.{count, is_write}
use horizon_issuer.Effects.{update_issuer_status, History, State, Return, Outcome, returned, fail}
use horizon_issuer.Effects.Env.{Env}
use horizon_issuer.IssuerController.{
  IssuerReconciler, IssuerMemory, update_status, health_check, check_issuer, reconcile_object,
  reconcile, secret_error,
}
use horizon_issuer.IssuerController.Laws.{
  IsFetched, get_call, reconcile-fetched, start, IsHealthy, status_of, Fails, first_seen, no_secret,
  no_client, no_answer, either_outcome,
}
use horizon_issuer.IssuerUtil.{get_ready_condition}

-- The history ends in one status update, with the object in memory; nothing else was written.
pub record UpdatesOnce (h : History) (s : State IssuerMemory) : Type 0 where
  pub before : History
  pub last : s.history ≡ update_issuer_status s.memory ∷ before
  pub only : count is_write before ≡ count is_write h

-- The result of a health check that passed.
abbrev pub scheduled : IssuerReconciler → Return
scheduled r = record {
  result = record { requeue = false; requeue_after = r.health_check_interval };
  err = none;
}

module _ (env : Env) where
  update_status-last :
      (r : Return) (s : State IssuerMemory)
      → let t = (update_status env r s).1 in t.history ≡ update_issuer_status t.memory ∷ s.history
  unfolding update_status
  update_status-last r s = ground arith

  module _ (r : IssuerReconciler) (req : NamespacedName) where
    check_issuer-writes :
        (spec : IssuerSpec) (status : IssuerStatus) (s : State IssuerMemory)
        → count is_write (check_issuer env r req spec status s).1.history ≡ count is_write s.history
    unfolding check_issuer health_check
    check_issuer-writes spec status s = ground arith

    reconcile_object-UpdatesOnce :
        (o : ClientObject) (h : History)
        → o ≢ other
        → UpdatesOnce h (reconcile_object env r req o (start env r req o h)).1
    unfolding reconcile_object
    reconcile_object-UpdatesOnce (issuer i) h ne = record {
      before = (check_issuer env r req i.spec i.status (start env r req (issuer i) h)).1.history;
      last = update_status-last _ _;
      only = check_issuer-writes i.spec i.status (start env r req (issuer i) h);
    }
    reconcile_object-UpdatesOnce (cluster_issuer i) h ne = record {
      before =
          (check_issuer env r req i.spec i.status (start env r req (cluster_issuer i) h)).1.history;
      last = update_status-last _ _;
      only = check_issuer-writes i.spec i.status (start env r req (cluster_issuer i) h);
    }
    reconcile_object-UpdatesOnce other h ne = absurd (ne refl)

    get_call-read :
        (o : ClientObject) (h : History)
        → count is_write (get_call env r req o ∷ h) ≡ count is_write h
    get_call-read (issuer i) h = refl
    get_call-read (cluster_issuer i) h = refl
    get_call-read other h = refl

    fetched-ne-other : (o : ClientObject) (h : History) → IsFetched env r req o h → o ≢ other
    fetched-ne-other (issuer i) h f e = cc
    fetched-ne-other (cluster_issuer i) h f e = cc
    fetched-ne-other other h f e = f

-- The reconciliation of an Issuer or ClusterIssuer that the get finds makes exactly one write: its
-- last call is a status update with the object as it is then in memory, whatever the branch.
pub reconcile-UpdatesOnce :
    (env : Env) (r : IssuerReconciler) (req : NamespacedName) (o : ClientObject)
    (s : State IssuerMemory)
    → IsFetched env r req o s.history
    → UpdatesOnce s.history (reconcile env r req s).1
reconcile-UpdatesOnce env r req o s f =
    let once =
      reconcile_object-UpdatesOnce env r req o (get_call env r req o ∷ s.history)
        (fetched-ne-other env r req o s.history f) in
    rw (reconcile-fetched env r req o s f) (record {
      before = once.before;
      last = once.last;
      only = once.only ∙ get_call-read env r req o s.history;
    })

module _ (env : Env) (r : IssuerReconciler) (req : NamespacedName)
    (accepted : (h : History) (o : ClientObject)
      → env.cluster.update_issuer_status h o ≡ none) where
  healthy_outcome :
      (o : ClientObject) (h : History)
      → IsHealthy env r req o h
      → (reconcile_object env r req o (start env r req o h)).0 ≡ returned (scheduled r)
  unfolding reconcile_object check_issuer health_check update_status
  healthy_outcome (issuer i) h p = grind (arith, p.seen, p.found, p.built, p.answered, accepted)
  healthy_outcome (cluster_issuer i) h p =
      grind (arith, p.seen, p.found, p.built, p.answered, accepted)
  healthy_outcome other h p = absurd p

  abbrev IsError : Outcome Return → Type 0
  IsError t = (e : Error) × (t ≡ returned (fail e))

  failed_issuer :
      (i : Issuer) (h : History)
      → get_ready_condition env.lib (some i.status) ≢ none
      → Fails env r req i.spec i.status
          (record { name = i.spec.auth_secret_name; namespace = req.namespace })
          h
      → IsError (reconcile_object env r req (issuer i) (start env r req (issuer i) h)).0
  unfolding reconcile_object check_issuer health_check update_status
  failed_issuer i h seen (first_seen new) = absurd (seen new)
  failed_issuer i h seen (no_secret {e} a) = (
    secret_error env.lib (record { name = i.spec.auth_secret_name; namespace = req.namespace }) e,
    grind (arith, accepted),
  )
  failed_issuer i h seen (no_client {e} a b) =
      (errorf "failed to build the healthchecker" e, grind (arith, accepted))
  failed_issuer i h seen (no_answer {e} a b c) =
      (errorf "healthcheck failed" e, grind (arith, accepted))

  failed_cluster_issuer :
      (i : ClusterIssuer) (h : History)
      → get_ready_condition env.lib (some i.status) ≢ none
      → Fails env r req i.spec i.status
          (record { name = i.spec.auth_secret_name; namespace = r.cluster_resource_namespace })
          h
      → IsError
          (reconcile_object env r req (cluster_issuer i) (start env r req (cluster_issuer i) h)).0
  unfolding reconcile_object check_issuer health_check update_status
  failed_cluster_issuer i h seen (first_seen new) = absurd (seen new)
  failed_cluster_issuer i h seen (no_secret {e} a) = (
    secret_error env.lib
        (record { name = i.spec.auth_secret_name; namespace = r.cluster_resource_namespace }) e,
    grind (arith, accepted),
  )
  failed_cluster_issuer i h seen (no_client {e} a b) =
      (errorf "failed to build the healthchecker" e, grind (arith, accepted))
  failed_cluster_issuer i h seen (no_answer {e} a b c) =
      (errorf "healthcheck failed" e, grind (arith, accepted))

  unhealthy_outcome :
      (o : ClientObject) (h : History)
      → o ≢ other
      → get_ready_condition env.lib (status_of o) ≢ none
      → ¬ IsHealthy env r req o h
      → IsError (reconcile_object env r req o (start env r req o h)).0
  unhealthy_outcome (issuer i) h ne seen sick =
      elim (either_outcome env r req i.spec i.status _ h) [
        | inl passes ↦ absurd (sick passes)
        | inr fails ↦ failed_issuer i h seen fails
      ]
  unhealthy_outcome (cluster_issuer i) h ne seen sick =
      elim (either_outcome env r req i.spec i.status _ h) [
        | inl passes ↦ absurd (sick passes)
        | inr fails ↦ failed_cluster_issuer i h seen fails
      ]
  unhealthy_outcome other h ne seen sick = absurd (ne refl)

-- Where the API server accepts every status update, the reconciliation of a healthy issuer that the
-- get finds returns no error and schedules the next check after the configured interval.
pub reconcile-healthy_outcome :
    (env : Env) (r : IssuerReconciler) (req : NamespacedName)
    (accepted : (h : History) (o : ClientObject) → env.cluster.update_issuer_status h o ≡ none)
    (o : ClientObject) (s : State IssuerMemory)
    → IsFetched env r req o s.history
    → IsHealthy env r req o (get_call env r req o ∷ s.history)
    → (reconcile env r req s).0 ≡ returned (scheduled r)
reconcile-healthy_outcome env r req accepted o s f healthy =
    rw (reconcile-fetched env r req o s f) (healthy_outcome env r req accepted o _ healthy)

-- Where the API server accepts every status update, the reconciliation of an issuer that the get
-- finds, that has been seen before and is not healthy returns an error, so that it is retried.
pub reconcile-unhealthy_outcome :
    (env : Env) (r : IssuerReconciler) (req : NamespacedName)
    (accepted : (h : History) (o : ClientObject) → env.cluster.update_issuer_status h o ≡ none)
    (o : ClientObject) (s : State IssuerMemory)
    → IsFetched env r req o s.history
    → get_ready_condition env.lib (status_of o) ≢ none
    → ¬ IsHealthy env r req o (get_call env r req o ∷ s.history)
    → (e : Error) × ((reconcile env r req s).0 ≡ returned (fail e))
reconcile-unhealthy_outcome env r req accepted o s f seen sick =
    rw (reconcile-fetched env r req o s f) (
      unhealthy_outcome env r req accepted o _ (fetched-ne-other env r req o s.history f) seen sick)
