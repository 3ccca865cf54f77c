-- ===== src/IssuerUtil/Laws.antt =====
-- internal/issuer/util/util.go: the Ready condition of an issuer.
use horizon_issuer.Common.{ℕ, String, ◌≡◌, some, arith, List}
use horizon_issuer.Api.{Condition, ConditionStatus, IssuerStatus, issuer_condition_ready}
use horizon_issuer.Effects.Env.{Libraries}
use horizon_issuer.IssuerUtil.{is_true_status, set_ready_condition, is_ready}

-- apimachinery's `SetStatusCondition` and `FindStatusCondition`, as documented: a condition that
-- was set is found by its type, with the status that it was given.
pub record StatusConditionLaws (lib : Libraries) : Type 0 where
  pub find-set :
      (cs : List Condition) (c : Condition)
      → (d : Condition) × (lib.find_status_condition (lib.set_status_condition cs c) c.kind
          ≡ some d)
        × (d.status ≡ c.status)

-- The status that was set last is what `IsReady` reports.
pub is_ready-set_ready_condition :
    (lib : Libraries) (laws : StatusConditionLaws lib) (generation : ℕ) (status : IssuerStatus)
    (s : ConditionStatus) (reason message : String)
    → is_ready lib (some (set_ready_condition lib generation status s reason message))
      ≡ is_true_status s
unfolding set_ready_condition is_ready
is_ready-set_ready_condition lib laws generation status s reason message =
    let (d, found, same) = laws.find-set status.conditions (record {
      kind = issuer_condition_ready;
      status = s;
      observed_generation = generation;
      reason = reason;
      message = message;
    }) in
    ground arith
