-- ===== src/Horizon/ClientConfig.antt =====
-- internal/issuer/horizon/util.go: ClientFromIssuer.
pub mod Laws
use horizon_issuer.Common.{String, Option, none, some, Bool, true, false, if◌then◌else◌}
use horizon_issuer.Common.Text.{◌<>◌, trim_suffix}
use horizon_issuer.Common.Dict.{Dict, lookup}
use horizon_issuer.Errors.{Error, plain, text, Result, ok, err}
use horizon_issuer.Api.{IssuerSpec, Secret, SecretType, tls, opaque, unsupported}
use horizon_issuer.Sdk.{Auth, cert_auth, password_auth, Client}
use horizon_issuer.Effects.Env.{Libraries}

infixl 5 ◌>>=◌ ◌>>◌
abbrev ◌>>=◌ : {A B : Type 0} → Result A → (A → Result B) → Result B
ok a >>= f = f a
err e >>= f = err e

abbrev ◌>>◌ : {B : Type 0} → Result (Unit {0}) → Result B → Result B
m >> k = m >>= λ _. k

-- `if _, ok := secret.Data[key]; !ok { return … }`
required : String → String → Secret → Result String
required key message secret = elim (lookup key secret.contents) [
  | none ↦ err (plain (message <> ": " <> secret.name))
  | some v ↦ ok v
]

fail_if : Option Error → (Error → String) → Result (Unit {0})
fail_if none message = ok tt
fail_if (some e) message = err (plain (message e))

module _ (lib : Libraries) where
  check_ca_bundle : Option String → Result (Unit {0})
  check_ca_bundle none = ok tt
  check_ca_bundle (some bundle) =
      if lib.append_certs_from_pem bundle
      then ok tt
      else err (plain "failed to parse root certificate")

  check_proxy : Option String → Result (Unit {0})
  check_proxy none = ok tt
  check_proxy (some proxy) =
      fail_if (lib.parse_url proxy) (λ e. "Invalid proxy URL" <> ": " <> text e)

  -- The switch on `secret.Type`.
  auth_from_secret : SecretType → Secret → Result Auth
  auth_from_secret tls secret = do
    cert ← required "tls.crt" "Missing tls.crt in secret" secret
    key ← required "tls.key" "Missing tls.key in secret" secret
    fail_if (lib.x509_key_pair cert key) (λ e. "Failed to load TLS certificate" <> ": " <> text e)
    ok (cert_auth cert key)
  auth_from_secret opaque secret = do
    username ← required "username" "Missing username in secret" secret
    password ← required "password" "Missing password in secret" secret
    ok (password_auth username password)
  auth_from_secret (unsupported t) secret = err (plain ("Unsupported secret type" <> ": " <> t))

  -- The assignment to `issuerSpec.URL`, which the caller sees.
  unfoldable pub trim_url : IssuerSpec → IssuerSpec
  trim_url spec = record spec { url = trim_suffix spec.url "/" }

  unfoldable pub client_from_issuer : IssuerSpec → Secret → Result Client
  unfolding required fail_if check_ca_bundle check_proxy auth_from_secret trim_url
  client_from_issuer spec secret = do
    check_ca_bundle spec.ca_bundle
    check_proxy spec.proxy
    auth ← auth_from_secret secret.secret_type secret
    ok (record {
      url = (trim_url spec).url;
      insecure_skip_verify = spec.skip_tls_verify;
      root_cas = spec.ca_bundle;
      proxy = spec.proxy;
      auth = auth;
    })
