-- ===== src/RequestController/Metadata.antt =====
-- internal/controller/certificaterequest_controller.go: certificateMetadata, which collects the
-- labels, owner, team and contact of a certificate from the issuer's templates and from the
-- annotations of the Ingress and of the Certificate.
pub mod Laws
use horizon_issuer.Common.{String, Option, none, some, List, [], ◌∷◌, get_or, if◌then◌else◌}
use horizon_issuer.Common.Text.{◌==◌, is_empty, strip_prefix}
use horizon_issuer.Common.Dict.{Dict, insert, insert_all}
use horizon_issuer.Errors.{Error, Result, ok, err}
use horizon_issuer.Api.{
  CertificateRequest, IssuerSpec, IssuerTemplate, Certificate, Ingress, entries,
}
use horizon_issuer.Sdk.{LabelElement}
use horizon_issuer.Effects.{M, pure, ◌>>=◌}
use horizon_issuer.Effects.Env.{Env}
use horizon_issuer.Horizon.Annotations.{owner_annotation, team_annotation, contact_email_annotation}
use horizon_issuer.Horizon.Requests.{Memory}
use horizon_issuer.IssuerUtil.{certificate_from_request, get_spec_and_status}
use horizon_issuer.RequestController.Lookup.{issuer_from_request, ingress_from_certificate}

-- The variables that the method fills; an empty text is not set.
pub record Values : Type 0 where
  pub owner : String
  pub team : String
  pub contact_email : String
  pub labels : Dict

-- What the method returns besides its error.
pub record Metadata : Type 0 where
  pub labels : List LabelElement
  pub owner : Option String
  pub team : Option String
  pub contact_email : Option String

abbrev pub no_values : Values
no_values = record { owner = ""; team = ""; contact_email = ""; labels = [] }

-- The return with an error.
abbrev pub no_metadata : Metadata
no_metadata = record { labels = []; owner = none; team = none; contact_email = none }

-- A template's values, where it has them, over those so far.
unfoldable pub apply_template : Option IssuerTemplate → Values → Values
apply_template none v = v
apply_template (some t) v = record {
  owner = get_or t.owner v.owner;
  team = get_or t.team v.team;
  contact_email = get_or t.contact_email v.contact_email;
  labels = insert_all t.labels v.labels;
}

abbrev pub label_prefix : String
label_prefix = "horizon.evertrust.io/labels."

-- The default case of the switch: a label, or some other annotation.
abbrev pub apply_label : Option String → String → Values → Values
apply_label none x v = v
apply_label (some l) x v = record v { labels = insert l x v.labels }

-- One round of the loop over the annotations.
unfoldable pub apply_annotation : String → String → Values → Values
apply_annotation k x v =
    if k == owner_annotation
    then record v { owner = x }
    else if k == team_annotation
    then record v { team = x }
    else if k == contact_email_annotation
    then record v { contact_email = x }
    else apply_label (strip_prefix label_prefix k) x v

unfoldable pub apply_annotations : Dict → Values → Values
apply_annotations [] v = v
apply_annotations ((k, x) ∷ m) v = apply_annotations m (apply_annotation k x v)

-- The Ingress's annotations, with the Certificate's over them.
abbrev pub all_annotations : Option Ingress → Certificate → Dict
all_annotations none certificate = insert_all (entries certificate.metadata.annotations) []
all_annotations (some ingress) certificate =
    insert_all (entries certificate.metadata.annotations)
      (insert_all (entries ingress.annotations) [])

unfoldable pub merge : IssuerSpec → Option Ingress → Certificate → Values
unfolding apply_template apply_annotations apply_annotation
merge spec ingress certificate = apply_template spec.override_template (
    apply_annotations (all_annotations ingress certificate)
      (apply_template spec.default_template no_values))

abbrev pub label_elements : Dict → List LabelElement
label_elements [] = []
label_elements ((k, v) ∷ m) = record { label = k; value = v } ∷ label_elements m

-- nil in place of an empty text
abbrev pub nonempty : String → Option String
nonempty s = if is_empty s then none else some s

unfoldable pub metadata_of : Values → Metadata
metadata_of v = record {
  labels = label_elements v.labels;
  owner = nonempty v.owner;
  team = nonempty v.team;
  contact_email = nonempty v.contact_email;
}

unfoldable pub certificate_metadata : Env → CertificateRequest → M Memory (Metadata × Option Error)
certificate_metadata env cr = do
  (certificate, failure) ← certificate_from_request env cr
  elim failure [
    | some e ↦ pure (no_metadata, some e)
    | none ↦ do
      found ← issuer_from_request env cr
      elim found [
        | err e ↦ pure (no_metadata, some e)
        | ok object ↦ do
          (ingress, failure) ← ingress_from_certificate env certificate
          elim failure [
            | some e ↦ pure (no_metadata, some e)
            | none ↦ elim (get_spec_and_status object) [
              | err e ↦ pure (no_metadata, some e)
              | ok (spec, status) ↦ pure (metadata_of (merge spec ingress certificate), none)
            ]
          ]
      ]
  ]
