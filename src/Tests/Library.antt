-- ===== src/Tests/Library.antt =====
-- The libraries of the tests obey the documented laws.
use horizon_issuer.Common.{true, false, ◌≡◌, ◌≢◌, refl, arith}
use horizon_issuer.Common.Text.{eq_refl}
use horizon_issuer.Api.{
  ConditionStatus, is_true, is_false, is_unknown, RequestConditionKind, ready, invalid_request,
  approved, denied,
}
use horizon_issuer.IssuerUtil.Laws.{StatusConditionLaws}
use horizon_issuer.RequestController.Finish.Laws.{RequestConditionLaws}
use horizon_issuer.Tests.Values.{same_kind, same_status, lib}

same_kind_refl : (k : RequestConditionKind) → same_kind k k ≡ true
same_kind_refl ready = refl
same_kind_refl invalid_request = refl
same_kind_refl approved = refl
same_kind_refl denied = refl

same_kind_ne : (k j : RequestConditionKind) → j ≢ k → same_kind k j ≡ false
same_kind_ne ready ready ne = absurd (ne refl)
same_kind_ne ready invalid_request ne = refl
same_kind_ne ready approved ne = refl
same_kind_ne ready denied ne = refl
same_kind_ne invalid_request ready ne = refl
same_kind_ne invalid_request invalid_request ne = absurd (ne refl)
same_kind_ne invalid_request approved ne = refl
same_kind_ne invalid_request denied ne = refl
same_kind_ne approved ready ne = refl
same_kind_ne approved invalid_request ne = refl
same_kind_ne approved approved ne = absurd (ne refl)
same_kind_ne approved denied ne = refl
same_kind_ne denied ready ne = refl
same_kind_ne denied invalid_request ne = refl
same_kind_ne denied approved ne = refl
same_kind_ne denied denied ne = absurd (ne refl)

same_status_refl : (s : ConditionStatus) → same_status s s ≡ true
same_status_refl is_true = refl
same_status_refl is_false = refl
same_status_refl is_unknown = refl

same_status_ne : (s t : ConditionStatus) → t ≢ s → same_status s t ≡ false
same_status_ne is_true is_true ne = absurd (ne refl)
same_status_ne is_true is_false ne = refl
same_status_ne is_true is_unknown ne = refl
same_status_ne is_false is_true ne = refl
same_status_ne is_false is_false ne = absurd (ne refl)
same_status_ne is_false is_unknown ne = refl
same_status_ne is_unknown is_true ne = refl
same_status_ne is_unknown is_false ne = refl
same_status_ne is_unknown is_unknown ne = absurd (ne refl)

pub lib-StatusConditionLaws : StatusConditionLaws lib
lib-StatusConditionLaws = record { find-set = λ cs c. (c, ground (arith, eq_refl c.kind), refl) }

pub lib-RequestConditionLaws : RequestConditionLaws lib
lib-RequestConditionLaws = record {
  has-set =
      λ cs c. ground (arith, same_kind_refl c.kind, same_status_refl c.status, eq_refl c.reason);
  has_any-set = λ cs c. ground (arith, same_kind_refl c.kind, same_status_refl c.status);
  has-set_other = λ cs c k s reason ne. ground (arith, same_kind_ne c.kind k ne);
  has-set_status =
      λ cs c s reason ne h. ground (arith, same_kind_refl c.kind, same_status_ne c.status s ne, h);
  approved-has = λ cs. refl;
  denied-has = λ cs. refl;
}
