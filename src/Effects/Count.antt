-- ===== src/Effects/Count.antt =====
-- How often a history holds calls of a kind.
use horizon_issuer.Common.{ℕ, suc, Bool, true, false, [], ◌∷◌, if◌then◌else◌}
use horizon_issuer.Sdk.{Submission, enroll, renew, revoke}
use horizon_issuer.Effects.{
  Call, History, update_request, update_request_status, update_certificate, update_issuer_status,
  event, request_template, request_submit, request_get, tc_pem, principal_self,
}

abbrev pub count : (Call → Bool) → History → ℕ
count p [] = 0
count p (c ∷ h) = if p c then suc (count p h) else count p h

-- Writes to the API server: updates and events.
abbrev pub is_write : Call → Bool
is_write (update_request _) = true
is_write (update_request_status _) = true
is_write (update_certificate _) = true
is_write (update_issuer_status _) = true
is_write (event _ _ _ _) = true
is_write _ = false

-- Submissions that ask Horizon for a certificate.
abbrev pub asks_certificate : Submission → Bool
asks_certificate (enroll _) = true
asks_certificate (renew _ _) = true
asks_certificate (revoke _) = false

abbrev pub is_order : Call → Bool
is_order (request_submit _ body) = asks_certificate body
is_order _ = false

abbrev pub is_revocation : Call → Bool
is_revocation (request_submit _ (revoke _)) = true
is_revocation _ = false

-- Any call of Horizon.
abbrev pub is_horizon : Call → Bool
is_horizon (request_template _ _) = true
is_horizon (request_submit _ _) = true
is_horizon (request_get _ _) = true
is_horizon (tc_pem _ _) = true
is_horizon (principal_self _) = true
is_horizon _ = false
