-- ===== src/Tests/Scheme.antt =====
-- The scheme of the tests.
use horizon_issuer.Common.{String, Bool, ◌≡◌, not, arith}
use horizon_issuer.Common.Text.{◌==◌}
use horizon_issuer.Errors.{plain}
use horizon_issuer.Api.{CertificateRequest}
use horizon_issuer.RequestController.Lookup.{issuer_from_request}
use horizon_issuer.RequestController.Lookup.Kinds.{is_no_object, issuer_from_request-returns}
use horizon_issuer.RequestController.Returns.{is_returned}
use horizon_issuer.Scheme.{SchemeLaws}
use horizon_issuer.Tests.Lifecycle.{live, start, new_request}
use horizon_issuer.Tests.Values.{lib}

abbrev is_own : String → Bool
is_own k = "ListOptions" == k

lib-SchemeLaws : SchemeLaws lib is_own
lib-SchemeLaws = record {
  known = λ k o e. ground arith;
  own = λ k e h. ground arith;
  unknown = λ k e h. (plain "no kind is registered", ground arith);
}

-- A request that refers to a list of issuers.
abbrev list_request : CertificateRequest
list_request = record new_request {
  issuer_ref = record (new_request.issuer_ref) { kind = "IssuerList" };
}

issuer_from_request-returns_example :
    is_returned (issuer_from_request (live list_request) list_request (start list_request)).0
    ≡ not (is_no_object is_own "IssuerList")
issuer_from_request-returns_example =
    issuer_from_request-returns (live list_request) is_own lib-SchemeLaws list_request
      (start list_request)
