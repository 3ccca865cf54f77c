-- ===== src/RequestController/Metadata/Laws.antt =====
-- internal/controller/certificaterequest_controller.go: which source wins in certificateMetadata.
use horizon_issuer.Common.{
  String, Option, none, some, [], ◌∷◌, get_or, ◌or_else◌, if◌then◌else◌, ◌≡◌, refl, arith, false,
  ◌≢◌, ap, sym, ◌∙◌, Option-cases, Bool-cases, inl, inr,
}
use horizon_issuer.Common.Text.{
  ◌<>◌, ◌==◌, eq_iff, strip_prefix, strip_prefix-append, strip_prefix_sound,
}
use horizon_issuer.Common.Dict.{
  Dict, lookup, insert_all, IsMap, lookup-insert, lookup-insert_all, insert_all-IsMap,
}
use horizon_issuer.Api.{IssuerSpec, IssuerTemplate, Certificate, Ingress, entries}
use horizon_issuer.Horizon.Annotations.{owner_annotation, team_annotation, contact_email_annotation}
use horizon_issuer.RequestController.Metadata.{
  Values, no_values, apply_template, label_prefix, apply_annotation, apply_annotations,
  all_annotations, merge,
}

apply_annotations-owner :
    (m : Dict) (v : Values)
    → IsMap m
    → (apply_annotations m v).owner ≡ get_or (lookup owner_annotation m) v.owner
unfolding apply_annotations apply_annotation
apply_annotations-owner [] v h = refl
apply_annotations-owner ((k, x) ∷ m) v h =
    ground
      (arith, eq_iff k owner_annotation, apply_annotations-owner m (apply_annotation k x v) h.1)

apply_annotations-team :
    (m : Dict) (v : Values)
    → IsMap m
    → (apply_annotations m v).team ≡ get_or (lookup team_annotation m) v.team
unfolding apply_annotations apply_annotation
apply_annotations-team [] v h = refl
apply_annotations-team ((k, x) ∷ m) v h = ground (
  arith,
  eq_iff k owner_annotation,
  eq_iff k team_annotation,
  eq_iff owner_annotation team_annotation,
  apply_annotations-team m (apply_annotation k x v) h.1,
)

apply_annotations-contact_email :
    (m : Dict) (v : Values)
    → IsMap m
    → (apply_annotations m v).contact_email
      ≡ get_or (lookup contact_email_annotation m) v.contact_email
unfolding apply_annotations apply_annotation
apply_annotations-contact_email [] v h = refl
apply_annotations-contact_email ((k, x) ∷ m) v h = ground (
  arith,
  eq_iff k owner_annotation,
  eq_iff k team_annotation,
  eq_iff k contact_email_annotation,
  eq_iff owner_annotation contact_email_annotation,
  eq_iff team_annotation contact_email_annotation,
  apply_annotations-contact_email m (apply_annotation k x v) h.1,
)

-- The three names above are no labels.
not_label : (k l : String) → strip_prefix label_prefix k ≡ none → k ≢ label_prefix <> l
not_label k l h e =
    let same = ap (strip_prefix label_prefix) e ∙ strip_prefix-append label_prefix l in cc

label_injective : (l r : String) → label_prefix <> l ≡ label_prefix <> r → l ≡ r
label_injective l r e =
    let same =
      sym (strip_prefix-append label_prefix l)
      ∙ ap (strip_prefix label_prefix) e
      ∙ strip_prefix-append label_prefix r in
    cc

other_annotation :
    (k : String)
    → strip_prefix label_prefix k ≢ none
    → ((k == owner_annotation) ≡ false)
      × ((k == team_annotation) ≡ false)
      × ((k == contact_email_annotation) ≡ false)
unfolding strip_prefix
other_annotation k h = (
  elim (Bool-cases (k == owner_annotation)) [
    | inl e ↦ absurd (h (ap (strip_prefix label_prefix) ((eq_iff _ _).0 e)))
    | inr e ↦ e
  ],
  elim (Bool-cases (k == team_annotation)) [
    | inl e ↦ absurd (h (ap (strip_prefix label_prefix) ((eq_iff _ _).0 e)))
    | inr e ↦ e
  ],
  elim (Bool-cases (k == contact_email_annotation)) [
    | inl e ↦ absurd (h (ap (strip_prefix label_prefix) ((eq_iff _ _).0 e)))
    | inr e ↦ e
  ],
)

apply_annotation-label :
    (k x l : String) (v : Values)
    → lookup l (apply_annotation k x v).labels
      ≡ (if k == (label_prefix <> l) then some x else lookup l v.labels)
unfolding apply_annotation
apply_annotation-label k x l v = elim (Option-cases (strip_prefix label_prefix k)) [
  | inl no_label ↦ ground (arith, not_label k l no_label, eq_iff k (label_prefix <> l))
  | inr (r, is_label) ↦
      let (a, b, c) = other_annotation k (λ e. absurd (cc)) in
      let same = strip_prefix_sound label_prefix k r is_label in
      rw (a, b, c, is_label)
        (rw (lookup-insert r l x v.labels, same)
          (ground (
            arith,
            eq_iff r l,
            eq_iff (label_prefix <> r) (label_prefix <> l),
            label_injective r l,
          )))
]

apply_annotations-label :
    (m : Dict) (v : Values) (l : String)
    → IsMap m
    → lookup l (apply_annotations m v).labels
      ≡ (lookup (label_prefix <> l) m or_else lookup l v.labels)
unfolding apply_annotations
apply_annotations-label [] v l h = refl
apply_annotations-label ((k, x) ∷ m) v l h = ground (
  arith,
  apply_annotations-label m (apply_annotation k x v) l h.1,
  apply_annotation-label k x l v,
  eq_iff k (label_prefix <> l),
)

-- What a template says, where there is one.
abbrev pub template_value : (IssuerTemplate → Option String) → Option IssuerTemplate → Option String
template_value f none = none
template_value f (some t) = f t

-- What an annotation says: the Certificate's before the Ingress's.
abbrev pub annotation : String → Option Ingress → Certificate → Option String
annotation k none certificate = lookup k (entries certificate.metadata.annotations)
annotation k (some ingress) certificate =
    lookup k (entries certificate.metadata.annotations)
    or_else lookup k (entries ingress.annotations)

-- A value of the certificate: the override template's, the Certificate's annotation, the Ingress's,
-- or the default template's.
abbrev pub chosen :
    (IssuerTemplate → Option String)
    → String
    → IssuerSpec
    → Option Ingress
    → Certificate
    → Option String
chosen f k spec ingress certificate =
    template_value f spec.override_template
    or_else (annotation k ingress certificate or_else template_value f spec.default_template)

abbrev pub TemplateIsMap : Option IssuerTemplate → Type 0
TemplateIsMap none = Unit
TemplateIsMap (some t) = IsMap t.labels

abbrev pub IngressIsMap : Option Ingress → Type 0
IngressIsMap none = Unit
IngressIsMap (some ingress) = IsMap (entries ingress.annotations)

-- The maps that are read list no key twice, as Go's maps do not.
pub record SourcesAreMaps (spec : IssuerSpec) (ingress : Option Ingress) (certificate : Certificate)
    : Type 0 where
  pub default_map : TemplateIsMap spec.default_template
  pub override_map : TemplateIsMap spec.override_template
  pub ingress_map : IngressIsMap ingress
  pub certificate_map : IsMap (entries certificate.metadata.annotations)

all_annotations-IsMap :
    (ingress : Option Ingress) (certificate : Certificate)
    → IsMap (all_annotations ingress certificate)
all_annotations-IsMap none certificate =
    insert_all-IsMap (entries certificate.metadata.annotations) [] tt
all_annotations-IsMap (some ingress) certificate =
    insert_all-IsMap (entries certificate.metadata.annotations) _
      (insert_all-IsMap (entries ingress.annotations) [] tt)

lookup-all_annotations :
    (k : String) (ingress : Option Ingress) (certificate : Certificate)
    → IngressIsMap ingress
    → IsMap (entries certificate.metadata.annotations)
    → lookup k (all_annotations ingress certificate) ≡ annotation k ingress certificate
lookup-all_annotations k none certificate i c =
    ground (arith, lookup-insert_all k (entries certificate.metadata.annotations) [] c)
lookup-all_annotations k (some ingress) certificate i c = ground (
  arith,
  lookup-insert_all k (entries certificate.metadata.annotations)
      (insert_all (entries ingress.annotations) []) c,
  lookup-insert_all k (entries ingress.annotations) [] i,
)

lookup-apply_template :
    (l : String) (t : Option IssuerTemplate) (v : Values)
    → TemplateIsMap t
    → lookup l (apply_template t v).labels
      ≡ (template_value (λ t. lookup l t.labels) t or_else lookup l v.labels)
unfolding apply_template
lookup-apply_template l none v h = refl
lookup-apply_template l (some t) v h = lookup-insert_all l t.labels v.labels h

module _ (spec : IssuerSpec) (ingress : Option Ingress) (certificate : Certificate)
    (maps : SourcesAreMaps spec ingress certificate) where
  -- before the override template
  abbrev base : Values
  base = apply_template spec.default_template no_values

  abbrev annotated : Values
  annotated = apply_annotations (all_annotations ingress certificate) base

  merge-owner_lem :
      (merge spec ingress certificate).owner
      ≡ get_or (chosen (λ t. t.owner) owner_annotation spec ingress certificate) ""
  unfolding merge
  merge-owner_lem = ground (
    arith,
    apply_annotations-owner (all_annotations ingress certificate) base
        (all_annotations-IsMap ingress certificate),
    lookup-all_annotations owner_annotation ingress certificate maps.ingress_map
        maps.certificate_map,
  )

  merge-team_lem :
      (merge spec ingress certificate).team
      ≡ get_or (chosen (λ t. t.team) team_annotation spec ingress certificate) ""
  unfolding merge
  merge-team_lem = ground (
    arith,
    apply_annotations-team (all_annotations ingress certificate) base
        (all_annotations-IsMap ingress certificate),
    lookup-all_annotations team_annotation ingress certificate maps.ingress_map
        maps.certificate_map,
  )

  merge-contact_email_lem :
      (merge spec ingress certificate).contact_email
      ≡ get_or (chosen (λ t. t.contact_email) contact_email_annotation spec ingress certificate) ""
  unfolding merge
  merge-contact_email_lem = ground (
    arith,
    apply_annotations-contact_email (all_annotations ingress certificate) base
        (all_annotations-IsMap ingress certificate),
    lookup-all_annotations contact_email_annotation ingress certificate maps.ingress_map
        maps.certificate_map,
  )

  merge-label_lem :
      (l : String)
      → lookup l (merge spec ingress certificate).labels
        ≡ chosen (λ t. lookup l t.labels) (label_prefix <> l) spec ingress certificate
  unfolding merge
  merge-label_lem l = ground (
    arith,
    apply_annotations-label (all_annotations ingress certificate) base l
        (all_annotations-IsMap ingress certificate),
    lookup-all_annotations (label_prefix <> l) ingress certificate maps.ingress_map
        maps.certificate_map,
    lookup-apply_template l spec.override_template annotated maps.override_map,
    lookup-apply_template l spec.default_template no_values maps.default_map,
  )

-- The owner, the team, the contact and every label of a certificate come from the first of these
-- sources that has a value: the override template, the Certificate's annotation, the Ingress's
-- annotation, the default template. Without any, the first three are empty and the label is absent.
-- No source lists a key twice.
pub merge-chosen :
    (spec : IssuerSpec) (ingress : Option Ingress) (certificate : Certificate)
    → SourcesAreMaps spec ingress certificate
    → let v = merge spec ingress certificate in
      (v.owner ≡ get_or (chosen (λ t. t.owner) owner_annotation spec ingress certificate) "")
      × (v.team ≡ get_or (chosen (λ t. t.team) team_annotation spec ingress certificate) "")
      × (v.contact_email
          ≡ get_or
              (chosen (λ t. t.contact_email) contact_email_annotation spec ingress certificate)
              "")
      × ((l : String)
          → lookup l v.labels
            ≡ chosen (λ t. lookup l t.labels) (label_prefix <> l) spec ingress certificate)
merge-chosen spec ingress certificate maps = (
  merge-owner_lem spec ingress certificate maps,
  merge-team_lem spec ingress certificate maps,
  merge-contact_email_lem spec ingress certificate maps,
  merge-label_lem spec ingress certificate maps,
)
