-- ===== src/Horizon/Health.antt =====
-- internal/issuer/horizon/health.go: HealthCheckerFromIssuer, which is `client_from_issuer`, and
-- HorizonHealthChecker.Check.
use horizon_issuer.Common.{Option}
use horizon_issuer.Errors.{Error, Result}
use horizon_issuer.Api.{IssuerSpec, Secret}
use horizon_issuer.Sdk.{Client}
use horizon_issuer.Effects.{M, principal_self, ask}
use horizon_issuer.Effects.Env.{Libraries, Env}
use horizon_issuer.Horizon.ClientConfig.{client_from_issuer}

-- The health checker is its client.
unfoldable pub health_checker_from_issuer : Libraries → IssuerSpec → Secret → Result Client
health_checker_from_issuer lib spec secret = client_from_issuer lib spec secret

unfoldable pub check : {S : Type 0} → Env → Client → M S (Option Error)
check env client = ask (principal_self client) (λ h. env.horizon.principal_self h client)
