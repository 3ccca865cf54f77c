-- ===== src/DeepCopy/Spec.antt =====
-- api/v1beta1/zz_generated.deepcopy.go: the copy of an IssuerSpec.
use horizon_issuer.Common.{
  ℕ, String, Bool, ◌||◌, Option, none, some, ◌≡◌, arith, inl, inr, Option-cases,
}
use horizon_issuer.Api.{IssuerSpec, IssuerTemplate, IssuerDnsChecker}
use horizon_issuer.DeepCopy.Heap.{SpecStruct, Heap, HeapAction, pure, ◌>>=◌, at, points_to}
use horizon_issuer.DeepCopy.Pointers.{copy_flat, as_text, as_checker}
use horizon_issuer.DeepCopy.Template.{deep_copy_template}
use horizon_issuer.DeepCopy.TemplatePointer.{template_at, pointer_owns}

-- `DeepCopyInto`: what the new struct holds.
unfoldable pub copy_spec : SpecStruct → HeapAction SpecStruct
copy_spec s = do
  proxy ← copy_flat s.proxy
  ca_bundle ← copy_flat s.ca_bundle
  default_template ← deep_copy_template s.default_template
  override_template ← deep_copy_template s.override_template
  dns_checker ← copy_flat s.dns_checker
  pure (record s {
    proxy = proxy;
    ca_bundle = ca_bundle;
    default_template = default_template;
    override_template = override_template;
    dns_checker = dns_checker;
  })

-- A spec with what its pointers lead to.
abbrev pub spec_of :
    SpecStruct
    → (proxy ca_bundle : Option (Option String))
    → (default_template override_template : Option (Option IssuerTemplate))
    → Option (Option IssuerDnsChecker)
    → Option IssuerSpec
spec_of s (some proxy) (some ca) (some default) (some override) (some checker) = some (record {
  url = s.url;
  proxy = proxy;
  profile = s.profile;
  auth_secret_name = s.auth_secret_name;
  ca_bundle = ca;
  skip_tls_verify = s.skip_tls_verify;
  revoke_certificates = s.revoke_certificates;
  default_template = default;
  override_template = override;
  dns_checker = checker;
})
spec_of s _ _ _ _ _ = none

-- What a spec in memory stands for.
abbrev pub spec_value : Heap → SpecStruct → Option IssuerSpec
spec_value h s =
    spec_of s (at as_text h s.proxy) (at as_text h s.ca_bundle) (template_at h s.default_template)
      (template_at h s.override_template) (at as_checker h s.dns_checker)

-- The addresses that a spec in memory owns.
abbrev pub spec_owns : Heap → SpecStruct → ℕ → Bool
spec_owns h s a =
    points_to s.proxy a
    || (points_to s.ca_bundle a
        || (pointer_owns h s.default_template a
            || (pointer_owns h s.override_template a || points_to s.dns_checker a)))

-- What the pointers of a spec lead to.
pub record Parts (h : Heap) (s : SpecStruct) (v : IssuerSpec) : Type 0 where
  pub proxy : at as_text h s.proxy ≡ some v.proxy
  pub ca_bundle : at as_text h s.ca_bundle ≡ some v.ca_bundle
  pub default_template : template_at h s.default_template ≡ some v.default_template
  pub override_template : template_at h s.override_template ≡ some v.override_template
  pub dns_checker : at as_checker h s.dns_checker ≡ some v.dns_checker
  pub url : s.url ≡ v.url
  pub profile : s.profile ≡ v.profile
  pub auth_secret_name : s.auth_secret_name ≡ v.auth_secret_name
  pub skip_tls_verify : s.skip_tls_verify ≡ v.skip_tls_verify
  pub revoke_certificates : s.revoke_certificates ≡ v.revoke_certificates

pub value-Parts :
    (h : Heap) (s : SpecStruct) (v : IssuerSpec) → spec_value h s ≡ some v → Parts h s v
value-Parts h s v e = elim (Option-cases (at as_text h s.proxy)) [
  | inl nil ↦ ground arith
  | inr (proxy, p) ↦ elim (Option-cases (at as_text h s.ca_bundle)) [
    | inl nil ↦ ground arith
    | inr (ca, c) ↦ elim (Option-cases (template_at h s.default_template)) [
      | inl nil ↦ ground arith
      | inr (default, d) ↦ elim (Option-cases (template_at h s.override_template)) [
        | inl nil ↦ ground arith
        | inr (override, o) ↦ elim (Option-cases (at as_checker h s.dns_checker)) [
          | inl nil ↦ ground arith
          | inr (checker, k) ↦ record {
            proxy = ground arith;
            ca_bundle = ground arith;
            default_template = ground arith;
            override_template = ground arith;
            dns_checker = ground arith;
            url = ground arith;
            profile = ground arith;
            auth_secret_name = ground arith;
            skip_tls_verify = ground arith;
            revoke_certificates = ground arith;
          }
        ]
      ]
    ]
  ]
]
