-- ===== src/Sdk.antt =====
-- The data of the Horizon SDK (github.com/evertrust/horizon-go), as far as the program builds or
-- reads it. `Json` is a part of a template that the program passes on without looking at it.
use horizon_issuer.Common.{String, Bool, Option, List}
use horizon_issuer.Common.Dict.{Dict}

abbrev pub Json : Type 0
Json = String

-- How a client signs in: `SetCertAuth`, `SetPasswordAuth`.
pub data Auth : Type 0 where
  cert_auth : (cert key : String) → Auth
  password_auth : (username password : String) → Auth

-- `horizon.APIClient`, by the configuration that it was made from.
pub record Client : Type 0 where
  pub url : String
  pub insecure_skip_verify : Bool
  pub root_cas : Option String
  pub proxy : Option String
  pub auth : Auth

-- `models.RequestLabelElement`
pub record LabelElement : Type 0 where
  pub label : String
  pub value : String

-- `models.WebRAEnrollRequestOnTemplate`: module and workflow are fixed.
pub record TemplateRequest : Type 0 where
  pub profile : String
  pub csr : String

-- An element of a template with a value that `SetValue` overwrites.
pub record TemplateField : Type 0 where
  pub value : Option String
  pub rest : Json

-- `models.WebRAEnrollRequestOnTemplateResponse`
pub record TemplateResponse : Type 0 where
  pub workflow : String
  pub module_name : String
  pub profile : String
  pub subject : Json
  pub sans : Json
  pub extensions : Json
  pub labels : Json
  pub contact_email : Json
  pub owner : Json
  pub team : Json
  pub metadata : Json

-- `models.WebRAEnrollRequestOnSubmit`; a nullable field whose `Get()` is nil is `none`.
pub record EnrollRequest : Type 0 where
  pub workflow : String
  pub module_name : String
  pub profile : String
  pub subject : Json
  pub sans : Json
  pub extensions : Json
  pub labels : List LabelElement
  pub contact_email : Option TemplateField
  pub owner : Option TemplateField
  pub team : Option TemplateField
  pub metadata : Json
  pub csr : String

-- What `RequestSubmit` is called with.
pub data Submission : Type 0 where
  enroll : EnrollRequest → Submission
  renew : (certificate_id csr : String) → Submission
  revoke : (certificate_pem : String) → Submission

-- `models.CertificateResponse`, by what its getters return.
pub record IssuedCertificate : Type 0 where
  pub certificate : String
  pub id : String
  pub owner : String
  pub team : String
  pub contact_email : String
  pub labels : Dict

-- `models.RequestStatus`
pub data RequestStatus : Type 0 where
  completed pending approved denied canceled : RequestStatus
  unknown : String → RequestStatus

-- `models.WebRAEnrollRequestOnGetResponse`
pub record RequestOnGet : Type 0 where
  pub status : RequestStatus
  pub certificate : IssuedCertificate

-- `models.CFCertificateResponse`
pub record CfCertificate : Type 0 where
  pub pem : String
  pub self_signed : Bool
