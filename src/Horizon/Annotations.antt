-- ===== src/Horizon/Annotations.antt =====
-- internal/issuer/horizon/issuer.go: the annotation names.
use horizon_issuer.Common.{String}

abbrev pub issuer_namespace : String
issuer_namespace = "horizon.evertrust.io"

abbrev pub request_id : String
request_id = "horizon.evertrust.io/request-id"

abbrev pub certificate_id : String
certificate_id = "horizon.evertrust.io/certificate-id"

abbrev pub last_certificate_id : String
last_certificate_id = "horizon.evertrust.io/last-certificate-id"

abbrev pub owner_annotation : String
owner_annotation = "horizon.evertrust.io/owner"

abbrev pub team_annotation : String
team_annotation = "horizon.evertrust.io/team"

abbrev pub contact_email_annotation : String
contact_email_annotation = "horizon.evertrust.io/contact-email"

abbrev pub label_annotation : String
label_annotation = "horizon.evertrust.io/labels"

-- internal/controller/certificaterequest_controller.go
abbrev pub finalizer_name : String
finalizer_name = "horizon.evertrust.io/finalizer"
