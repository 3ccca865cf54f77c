-- ===== src/DeepCopy/Frame.antt =====
-- api/v1beta1: writes to addresses that a struct does not own.
use horizon_issuer.Common.{
  ℕ, Bool, false, ◌||◌, Option, none, some, ◌≡◌, arith, refl, inl, inr, Option-cases,
}
use horizon_issuer.DeepCopy.Heap.{
  Pointer, TemplateStruct, SpecStruct, Cell, a_text, a_map, a_template, a_checker, some_conditions,
  Heap, write, at, points_to,
}
use horizon_issuer.DeepCopy.Pointers.{as_text, as_map, as_checker}
use horizon_issuer.DeepCopy.Template.{template_value, owned_by}
use horizon_issuer.DeepCopy.TemplatePointer.{template_at, pointer_owns}
use horizon_issuer.DeepCopy.Spec.{spec_of, spec_value, spec_owns}

ap_five :
    {A B C D E F : Type 0} (f : A → B → C → D → E → F) {a a' : A} {b b' : B} {c c' : C} {d d' : D}
    {e e' : E}
    → a ≡ a'
    → b ≡ b'
    → c ≡ c'
    → d ≡ d'
    → e ≡ e'
    → f a b c d e ≡ f a' b' c' d' e'
ap_five f p q r s t = cc

none_of :
    (a b c d e : Bool)
    → a || (b || (c || (d || e))) ≡ false
    → (a ≡ false) × ((b ≡ false) × ((c ≡ false) × ((d ≡ false) × (e ≡ false))))
none_of a b c d e h = (ground arith, (ground arith, (ground arith, (ground arith, ground arith))))

module _ (h : Heap) (a : ℕ) (c : Cell) where
  pub at-write :
      {V : Type 0} (d : Cell → Option V) (p : Pointer)
      → points_to p a ≡ false
      → at d (write a c h) p ≡ at d h p
  at-write d none e = refl
  at-write d (some p) e = ground arith

  template-write :
      (t : TemplateStruct)
      → owned_by t a ≡ false
      → template_value (write a c h) t ≡ template_value h t
  template-write t e = ground (
    arith,
    at-write as_map t.labels,
    at-write as_text t.owner,
    at-write as_text t.team,
    at-write as_text t.contact_email,
  )

  template_at-write :
      (p : Pointer) → pointer_owns h p a ≡ false → template_at (write a c h) p ≡ template_at h p
  template_at-write none e = refl
  template_at-write (some p) e = elim (Option-cases (h.cell p)) [
    | inl nil ↦ ground arith
    | inr (a_map m, got) ↦ ground arith
    | inr (a_text s, got) ↦ ground arith
    | inr (a_template t, got) ↦ ground (arith, template-write t)
    | inr (a_checker s, got) ↦ ground arith
    | inr (some_conditions s, got) ↦ ground arith
  ]

  pub spec-write :
      (s : SpecStruct) → spec_owns h s a ≡ false → spec_value (write a c h) s ≡ spec_value h s
  spec-write s e =
      let (x, (k, (d, (o, n)))) =
        none_of (points_to s.proxy a) (points_to s.ca_bundle a)
          (pointer_owns h s.default_template a) (pointer_owns h s.override_template a)
          (points_to s.dns_checker a) e in
      ap_five (spec_of s) (at-write as_text s.proxy x) (at-write as_text s.ca_bundle k)
        (template_at-write s.default_template d) (template_at-write s.override_template o)
        (at-write as_checker s.dns_checker n)
