-- ===== src/DeepCopy/SpecCopied.antt =====
-- api/v1beta1/zz_generated.deepcopy.go: the copy of an IssuerSpec, and what it owns.
use horizon_issuer.Common.{ℕ, true, some, ◌≡◌, ◌||◌, Bool, ◌⊎◌, inl, inr, arith, sym, ap, ◌∙◌}
use horizon_issuer.Api.{IssuerSpec}
use horizon_issuer.DeepCopy.Heap.{Heap, SpecStruct, IsHeap, Extends, points_to}
use horizon_issuer.DeepCopy.Copied.{Copied, at-Extends, kept_trans, older}
use horizon_issuer.DeepCopy.Pointers.{as_text, as_checker, copy_flat-Copied}
use horizon_issuer.DeepCopy.TemplatePointer.{
  pointer_owns, template_at-Extends, pointer_owns-Extends, deep_copy_template-Copied,
}
use horizon_issuer.DeepCopy.Spec.{copy_spec, spec_value, spec_owns, value-Parts}

pub spec-Extends :
    (h h' : Heap) (s : SpecStruct) (v : IssuerSpec)
    → Extends h h'
    → spec_value h s ≡ some v
    → spec_value h' s ≡ some v
spec-Extends h h' s v ext e =
    let p = value-Parts h s v e in
    ground (
      arith,
      at-Extends as_text h h' s.proxy v.proxy ext p.proxy,
      at-Extends as_text h h' s.ca_bundle v.ca_bundle ext p.ca_bundle,
      template_at-Extends h h' s.default_template v.default_template ext p.default_template,
      template_at-Extends h h' s.override_template v.override_template ext p.override_template,
      at-Extends as_checker h h' s.dns_checker v.dns_checker ext p.dns_checker,
      p.url,
      p.profile,
      p.auth_secret_name,
      p.skip_tls_verify,
      p.revoke_certificates,
    )

-- What a spec owns stays the same while the heap only grows.
pub spec_owns-Extends :
    (h h' : Heap) (s : SpecStruct) (v : IssuerSpec)
    → Extends h h'
    → spec_value h s ≡ some v
    → (a : ℕ) → spec_owns h' s a ≡ spec_owns h s a
spec_owns-Extends h h' s v ext e a =
    let p = value-Parts h s v e in
    let d =
      pointer_owns-Extends h h' s.default_template v.default_template ext p.default_template a in
    let o =
      pointer_owns-Extends h h' s.override_template v.override_template ext p.override_template a in
    ap
      (λ x.
        points_to s.proxy a
        || (points_to s.ca_bundle a
            || (x || (pointer_owns h' s.override_template a || points_to s.dns_checker a))))
      d
    ∙ ap
        (λ x.
          points_to s.proxy a
          || (points_to s.ca_bundle a
              || (pointer_owns h s.default_template a || (x || points_to s.dns_checker a))))
        o

one_of :
    (a b c d e : Bool)
    → a || (b || (c || (d || e))) ≡ true
    → (a ≡ true) ⊎ ((b ≡ true) ⊎ ((c ≡ true) ⊎ ((d ≡ true) ⊎ (e ≡ true))))
one_of a b c d e h = ground arith

pub copy_spec-Copied :
    (h : Heap)
    → IsHeap h
    → (s : SpecStruct) (v : IssuerSpec) → spec_value h s ≡ some v
    → Copied spec_value spec_owns h v (copy_spec s h)
unfolding copy_spec
copy_spec-Copied h heap s v e =
    let p = value-Parts h s v e in
    let x = copy_flat-Copied h heap as_text s.proxy v.proxy p.proxy in
    let c =
      copy_flat-Copied x.after x.heap as_text s.ca_bundle v.ca_bundle
        (at-Extends as_text h x.after s.ca_bundle v.ca_bundle x.kept p.ca_bundle) in
    let to_c = kept_trans h x.after c.after x.kept c.kept in
    let d = deep_copy_template-Copied c.after c.heap s.default_template v.default_template (
      template_at-Extends h c.after s.default_template v.default_template to_c
        p.default_template) in
    let to_d = kept_trans h c.after d.after to_c d.kept in
    let o = deep_copy_template-Copied d.after d.heap s.override_template v.override_template (
      template_at-Extends h d.after s.override_template v.override_template to_d
        p.override_template) in
    let to_o = kept_trans h d.after o.after to_d o.kept in
    let k =
      copy_flat-Copied o.after o.heap as_checker s.dns_checker v.dns_checker
        (at-Extends as_checker h o.after s.dns_checker v.dns_checker to_o p.dns_checker) in
    let d_k = kept_trans d.after o.after k.after o.kept k.kept in
    let c_k = kept_trans c.after d.after k.after d.kept d_k in
    let x_k = kept_trans x.after c.after k.after c.kept c_k in
    record {
      out = record s {
        proxy = x.out;
        ca_bundle = c.out;
        default_template = d.out;
        override_template = o.out;
        dns_checker = k.out;
      };
      after = k.after;
      result = ground (arith, x.result, c.result, d.result, o.result, k.result);
      heap = k.heap;
      kept = kept_trans h o.after k.after to_o k.kept;
      same = ground (
        arith,
        at-Extends as_text x.after k.after x.out v.proxy x_k x.same,
        at-Extends as_text c.after k.after c.out v.ca_bundle c_k c.same,
        template_at-Extends d.after k.after d.out v.default_template d_k d.same,
        template_at-Extends o.after k.after o.out v.override_template k.kept o.same,
        k.same,
        p.url,
        p.profile,
        p.auth_secret_name,
        p.skip_tls_verify,
        p.revoke_certificates,
      );
      fresh = λ a owned.
          elim (one_of (points_to x.out a) (points_to c.out a) (pointer_owns k.after d.out a)
            (pointer_owns k.after o.out a) (points_to k.out a) owned) [
              | inl e1 ↦ x.fresh a e1
              | inr (inl e2) ↦ older h x.after x.kept a (c.fresh a e2)
              | inr (inr (inl e3)) ↦ older h c.after to_c a (
                  d.fresh a (
                    sym (pointer_owns-Extends d.after k.after d.out v.default_template d_k d.same a)
                    ∙ e3))
              | inr (inr (inr (inl e4))) ↦ older h d.after to_d a (
                  o.fresh a (
                    sym (
                      pointer_owns-Extends o.after k.after o.out v.override_template k.kept o.same
                        a)
                    ∙ e4))
              | inr (inr (inr (inr e5))) ↦ older h o.after to_o a (k.fresh a e5)
            ];
    }
