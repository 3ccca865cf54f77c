-- ===== src/Horizon/ClientConfig/Laws.antt =====
-- internal/issuer/horizon/util.go: from which issuers and secrets ClientFromIssuer makes a client.
use horizon_issuer.Common.{
  String, Option, none, some, true, ◌≡◌, refl, inl, inr, ◌↔◌, arith, subst, Option-cases,
}
use horizon_issuer.Common.Text.{trim_suffix}
use horizon_issuer.Common.Dict.{lookup}
use horizon_issuer.Errors.{ok, Result-cases}
use horizon_issuer.Api.{IssuerSpec, Secret, SecretType, tls, opaque, unsupported}
use horizon_issuer.Sdk.{Auth, cert_auth, password_auth, Client}
use horizon_issuer.Effects.Env.{Libraries}
use horizon_issuer.Horizon.ClientConfig.{
  required, fail_if, check_ca_bundle, check_proxy, auth_from_secret, client_from_issuer,
}

module _ (lib : Libraries) where
  -- The credentials that a secret of a type holds: a key pair that loads, or a user with password.
  pub data Holds (secret : Secret) : SecretType → Auth → Type 0 where
    key_pair :
        {cert key : String}
        → lookup "tls.crt" secret.contents ≡ some cert
        → lookup "tls.key" secret.contents ≡ some key
        → lib.x509_key_pair cert key ≡ none
        → Holds secret tls (cert_auth cert key)
    user :
        {username password : String}
        → lookup "username" secret.contents ≡ some username
        → lookup "password" secret.contents ≡ some password
        → Holds secret opaque (password_auth username password)

  -- A CA bundle or a proxy that is given is one that parses.
  abbrev pub CaBundleParses : Option String → Type 0
  CaBundleParses none = Unit
  CaBundleParses (some bundle) = lib.append_certs_from_pem bundle ≡ true

  abbrev pub ProxyParses : Option String → Type 0
  ProxyParses none = Unit
  ProxyParses (some proxy) = lib.parse_url proxy ≡ none

  -- The client is the one that the issuer and the secret describe.
  pub record Describes (spec : IssuerSpec) (secret : Secret) (client : Client) : Type 0 where
    pub ca_bundle : CaBundleParses spec.ca_bundle
    pub proxy : ProxyParses spec.proxy
    pub auth : Holds secret secret.secret_type client.auth
    pub url : client.url ≡ trim_suffix spec.url "/"
    pub skip : client.insecure_skip_verify ≡ spec.skip_tls_verify
    pub cas : client.root_cas ≡ spec.ca_bundle
    pub via : client.proxy ≡ spec.proxy

  auth_sound :
      (t : SecretType) (secret : Secret) (a : Auth)
      → auth_from_secret lib t secret ≡ ok a
      → Holds secret t a
  unfolding auth_from_secret required fail_if
  auth_sound tls secret a e = elim (Option-cases (lookup "tls.crt" secret.contents)) [
    | inl missing ↦ absurd (ground arith)
    | inr (cert, has_cert) ↦ elim (Option-cases (lookup "tls.key" secret.contents)) [
      | inl missing ↦ absurd (ground arith)
      | inr (key, has_key) ↦ elim (Option-cases (lib.x509_key_pair cert key)) [
        | inl loads ↦ subst (Holds secret tls) (ground arith) (key_pair has_cert has_key loads)
        | inr bad ↦ absurd (ground arith)
      ]
    ]
  ]
  auth_sound opaque secret a e = elim (Option-cases (lookup "username" secret.contents)) [
    | inl missing ↦ absurd (ground arith)
    | inr (username, has_username) ↦ elim (Option-cases (lookup "password" secret.contents)) [
      | inl missing ↦ absurd (ground arith)
      | inr (password, has_password) ↦
          subst (Holds secret opaque) (ground arith) (user has_username has_password)
    ]
  ]
  auth_sound (unsupported t) secret a e = cc

  auth_complete :
      {t : SecretType} {secret : Secret} {a : Auth}
      → Holds secret t a
      → auth_from_secret lib t secret ≡ ok a
  unfolding auth_from_secret required fail_if
  auth_complete (key_pair has_cert has_key loads) = ground arith
  auth_complete (user has_username has_password) = ground arith

  ca_bundle_iff : (b : Option String) → (check_ca_bundle lib b ≡ ok tt) ↔ CaBundleParses b
  unfolding check_ca_bundle
  ca_bundle_iff none = (λ _. tt, λ _. refl)
  ca_bundle_iff (some b) = ground arith

  proxy_iff : (p : Option String) → (check_proxy lib p ≡ ok tt) ↔ ProxyParses p
  unfolding check_proxy fail_if
  proxy_iff none = (λ _. tt, λ _. refl)
  proxy_iff (some p) = ground arith

  client_sound :
      (spec : IssuerSpec) (secret : Secret) (client : Client)
      → client_from_issuer lib spec secret ≡ ok client
      → Describes spec secret client
  unfolding client_from_issuer
  client_sound spec secret client e =
      elim (Result-cases (auth_from_secret lib secret.secret_type secret)) [
        | inl (auth, has_auth) ↦ record {
          ca_bundle = (ca_bundle_iff spec.ca_bundle).0 (ground arith);
          proxy = (proxy_iff spec.proxy).0 (ground arith);
          auth =
              subst (Holds secret secret.secret_type) (ground arith)
                (auth_sound secret.secret_type secret auth has_auth);
          url = ground arith;
          skip = ground arith;
          cas = ground arith;
          via = ground arith;
        }
        | inr failed ↦ absurd (ground arith)
      ]

  client_complete :
      (spec : IssuerSpec) (secret : Secret) (client : Client)
      → Describes spec secret client
      → client_from_issuer lib spec secret ≡ ok client
  unfolding client_from_issuer
  client_complete spec secret client d =
      rw
        (
          (ca_bundle_iff spec.ca_bundle).1 d.ca_bundle,
          (proxy_iff spec.proxy).1 d.proxy,
          auth_complete d.auth,
        )
        (cc (d.url, d.skip, d.cas, d.via))

-- A client is made exactly where the CA bundle and the proxy, if given, parse, and the secret is a
-- TLS secret with a key pair that loads or an opaque secret with a username and a password; it is
-- then the client for the issuer's URL less one slash at the end, with the issuer's TLS settings
-- and proxy and the secret's credentials.
pub client_from_issuer-ok_iff :
    (lib : Libraries) (spec : IssuerSpec) (secret : Secret) (client : Client)
    → (client_from_issuer lib spec secret ≡ ok client) ↔ Describes lib spec secret client
client_from_issuer-ok_iff lib spec secret client =
    (client_sound lib spec secret client, client_complete lib spec secret client)
