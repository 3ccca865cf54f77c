-- ===== src/RequestController/Finish/Laws.antt =====
-- internal/controller/certificaterequest_controller.go: comparing annotations, and the laws of
-- cert-manager's condition functions that the deferred function and the reconciler rely on.
use horizon_issuer.Common.{
  ℕ, String, true, Option, none, some, List, [], ◌∷◌, ◌≡◌, ◌≢◌, refl, arith, length, nat_eq,
}
use horizon_issuer.Common.Dict.{Dict, lookup, IsMap}
use horizon_issuer.Common.Text.{eq_iff, eq_refl}
use horizon_issuer.Api.{
  entries, RequestCondition, RequestConditionKind, approved, denied, ConditionStatus, is_true,
}
use horizon_issuer.Effects.Env.{Libraries}
use horizon_issuer.RequestController.Finish.{covers, deep_equal}

covers-cons :
    (j w : String) (m n : Dict)
    → lookup j n ≡ none
    → covers m n ≡ true
    → covers ((j, w) ∷ m) n ≡ true
unfolding covers
covers-cons j w m [] h c = refl
covers-cons j w m ((k, v) ∷ n) h c = ground (arith, eq_iff j k, eq_iff k j, covers-cons j w m n)

covers_refl : (m : Dict) → IsMap m → covers m m ≡ true
unfolding covers
covers_refl [] h = refl
covers_refl ((k, v) ∷ m) h =
    ground (arith, eq_refl k, eq_refl v, covers-cons k v m m h.0, covers_refl m h.1)

nat_eq_refl : (n : ℕ) → nat_eq n n ≡ true
nat_eq_refl n = ground arith

-- Annotations that did not change are found equal.
pub deep_equal_refl : (m : Option Dict) → IsMap (entries m) → deep_equal m m ≡ true
unfolding deep_equal
deep_equal_refl none h = refl
deep_equal_refl (some m) h = ground (arith, nat_eq_refl (length m), covers_refl m h)

-- cert-manager's functions on the conditions of a request, as documented: a condition that was set
-- is there, with its status, for its reason and for any; one of another type stays as it was, and
-- one of the same type with another status is not added.
pub record RequestConditionLaws (lib : Libraries) : Type 0 where
  pub has-set :
      (cs : List RequestCondition) (c : RequestCondition)
      → lib.request_has_condition (lib.set_request_condition cs c) c.kind c.status c.reason ≡ true
  pub has_any-set :
      (cs : List RequestCondition) (c : RequestCondition)
      → lib.request_has_condition (lib.set_request_condition cs c) c.kind c.status "" ≡ true
  pub has-set_other :
      (cs : List RequestCondition) (c : RequestCondition) (k : RequestConditionKind)
      (s : ConditionStatus) (reason : String)
      → k ≢ c.kind
      → lib.request_has_condition (lib.set_request_condition cs c) k s reason
        ≡ lib.request_has_condition cs k s reason
  pub has-set_status :
      (cs : List RequestCondition) (c : RequestCondition) (s : ConditionStatus) (reason : String)
      → s ≢ c.status
      → lib.request_has_condition (lib.set_request_condition cs c) c.kind s reason ≡ true
      → lib.request_has_condition cs c.kind s reason ≡ true
  pub approved-has :
      (cs : List RequestCondition)
      → lib.request_is_approved cs ≡ lib.request_has_condition cs approved is_true ""
  pub denied-has :
      (cs : List RequestCondition)
      → lib.request_is_denied cs ≡ lib.request_has_condition cs denied is_true ""
