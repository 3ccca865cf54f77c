-- ===== src/Tests/Composition.antt =====
-- The two reconcilers on one API server, with a Horizon that is down.
use horizon_issuer.Common.{some, [], ◌≡◌, refl, false, ap, sym, arith}
use horizon_issuer.Errors.{ok}
use horizon_issuer.Api.{Issuer, ClientObject, issuer}
use horizon_issuer.Effects.Count.{count}
use horizon_issuer.Effects.Env.{Env, Cluster}
use horizon_issuer.IssuerController
use horizon_issuer.IssuerUtil.{is_ready, get_ready_condition}
use horizon_issuer.RequestController.{reconcile}
use horizon_issuer.RequestController.Unready.{is_visible, reconcile-waits}
use horizon_issuer.Composition.{as_issuer, as_cluster_issuer, unhealthy-waits}
use horizon_issuer.Tests.Issuers.{issuers, down}
use horizon_issuer.Tests.Issuers
use horizon_issuer.Tests.Library.{lib-StatusConditionLaws}
use horizon_issuer.Tests.Lifecycle.{start, name, new_request, live}
use horizon_issuer.Tests.Values.{ready_issuer, cluster, parent}

-- An issuer that has not been seen yet.
abbrev unseen_issuer : Issuer
unseen_issuer = record ready_issuer { status = record { conditions = [] } }

abbrev unready : Env
unready = record (live new_request) {
  cluster = record ((live new_request).cluster) { get_issuer = λ _ _. ok unseen_issuer };
}

got_issuer : (i : Issuer) → ok unseen_issuer ≡ ok i → unseen_issuer ≡ i
got_issuer i e = cc

unseen_waits : (i : Issuer) → ok unseen_issuer ≡ ok i → is_ready unready.lib (some i.status) ≡ false
unfolding is_ready get_ready_condition
unseen_waits i e = ap (λ (j : Issuer). is_ready unready.lib (some j.status)) (sym (got_issuer i e))

reconcile-waits_example :
    count is_visible (reconcile unready "ns" name (start new_request)).1.history
    ≡ count is_visible (start new_request).history
reconcile-waits_example =
    reconcile-waits unready "ns" name new_request (start new_request) refl (record {
      unready_issuer = λ h i got. unseen_waits i got;
      unready_cluster_issuer = λ h i got. ground arith;
    })

-- The issuer as its reconciliation leaves it, and a cluster that serves it.
abbrev left : ClientObject
left = (IssuerController.reconcile down issuers Issuers.name Issuers.start).1.memory

abbrev later : Cluster
later = record (cluster new_request (parent "")) {
  get_issuer = λ _ _. as_issuer left;
  get_cluster_issuer = λ _ _. as_cluster_issuer left;
}

unhealthy-waits_example :
    count is_visible
      (reconcile (record down { cluster = later }) "ns" name (start new_request)).1.history
    ≡ count is_visible (start new_request).history
unhealthy-waits_example =
    unhealthy-waits down issuers Issuers.name lib-StatusConditionLaws (issuer ready_issuer)
      Issuers.start (refl, refl) (λ healthy. cc (healthy.answered)) later "ns" name new_request
      (start new_request) refl
      (record { gives_issuer = λ h. refl; gives_cluster_issuer = λ h. refl })
