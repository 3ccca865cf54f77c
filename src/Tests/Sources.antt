-- ===== src/Tests/Sources.antt =====
-- What the helpers of horizon/util.go and the merge of the metadata give on concrete values.
use horizon_issuer.Common.{String, true, false, none, some, [], ◌∷◌, ◌++◌, ◌≡◌, ◌↔◌, refl}
use horizon_issuer.Common.Text.{◌<>◌, is_empty, trim_suffix, strip_prefix}
use horizon_issuer.Common.Dict.{lookup}
use horizon_issuer.Errors.{BasicError, plain, generic_api, wrapped, ok}
use horizon_issuer.Api.{IssuerSpec, Ingress}
use horizon_issuer.Horizon.ApiError.{format_basic_error, format_api_error}
use horizon_issuer.Horizon.ApiError.Laws.{format_basic_error-empty_iff, format_api_error-nonempty}
use horizon_issuer.Horizon.ClientConfig.{client_from_issuer}
use horizon_issuer.Horizon.ClientConfig.Laws.{Describes, client_from_issuer-ok_iff}
use horizon_issuer.Horizon.TrustChain.{build_pem_trustchain}
use horizon_issuer.Horizon.TrustChain.Laws.{lines_of, build_pem_trustchain-concat}
use horizon_issuer.RequestController.Metadata.{label_prefix, merge}
use horizon_issuer.RequestController.Metadata.Laws.{chosen, merge-chosen}
use horizon_issuer.Tests.Values.{lib, plain_spec, login, ann, parent, leaf, root}

-- An error of Horizon with a code, a title and a detail.
abbrev refused : BasicError
refused = record {
  error = "WEBRA-ENROLL-001";
  title = "Enrollment failed";
  message = "ignored";
  detail = some "The CSR is not valid";
}

format_api_error_test :
    format_api_error (some (wrapped "outer" (generic_api "400 Bad Request" (some refused))))
    ≡ "WEBRA-ENROLL-001 - Enrollment failed: The CSR is not valid"
unfolding format_api_error
format_api_error_test = refl

format_api_error_plain : format_api_error (some (plain "connection refused")) ≡ "connection refused"
unfolding format_api_error
format_api_error_plain = refl

build_pem_trustchain_test :
    build_pem_trustchain (leaf ∷ (leaf ∷ (root ∷ []))) ≡ ("leaf\nleaf\n", "root")
unfolding build_pem_trustchain
build_pem_trustchain_test = refl

-- One slash alone is trimmed.
trim_suffix_test : trim_suffix "https://horizon//" "/" ≡ "https://horizon/"
unfolding trim_suffix
trim_suffix_test = refl

client_from_issuer_test : client_from_issuer lib plain_spec login ≡ ok ann
unfolding client_from_issuer trim_suffix
client_from_issuer_test = refl

build_pem_trustchain-concat_example :
    build_pem_trustchain ((leaf ∷ []) ++ root ∷ []) ≡ (lines_of (leaf ∷ []), "root")
build_pem_trustchain-concat_example = build_pem_trustchain-concat (leaf ∷ []) root

format_basic_error-empty_iff_example :
    (is_empty (format_basic_error refused) ≡ true)
    ↔ ((false ≡ true) × (false ≡ true) × (false ≡ true) × (false ≡ true))
format_basic_error-empty_iff_example = format_basic_error-empty_iff refused

format_api_error-nonempty_example :
    is_empty (format_api_error (some (generic_api "400 Bad Request" none))) ≡ false
format_api_error-nonempty_example =
    format_api_error-nonempty (generic_api "400 Bad Request" none) refl

client_from_issuer-ok_iff_example :
    (client_from_issuer lib plain_spec login ≡ ok ann) ↔ Describes lib plain_spec login ann
client_from_issuer-ok_iff_example = client_from_issuer-ok_iff lib plain_spec login ann

abbrev templated_spec : IssuerSpec
templated_spec = record plain_spec {
  default_template = some (record {
    labels = ("env", "dev") ∷ [];
    owner = some "ann";
    team = none;
    contact_email = none;
  });
  override_template =
      some (record { labels = []; owner = none; team = some "web"; contact_email = none });
}

abbrev annotated_ingress : Ingress
annotated_ingress = record {
  annotations =
      some
        (("horizon.evertrust.io/labels.env", "prod") ∷ (("horizon.evertrust.io/team", "ops") ∷ []));
}

merge_test :
    merge templated_spec (some annotated_ingress) (parent "")
    ≡ record { owner = "ann"; team = "web"; contact_email = ""; labels = ("env", "prod") ∷ [] }
unfolding merge strip_prefix
merge_test = refl

merge-chosen_example :
    let v = merge templated_spec (some annotated_ingress) (parent "") in
    (v.owner ≡ "ann")
    × (v.team ≡ "web")
    × (v.contact_email ≡ "")
    × ((l : String)
        → lookup l v.labels
          ≡ chosen
              (λ t. lookup l t.labels)
              (label_prefix <> l)
              templated_spec
              (some annotated_ingress)
              (parent ""))
merge-chosen_example = merge-chosen templated_spec (some annotated_ingress) (parent "") (record {
  default_map = (refl, tt);
  override_map = tt;
  ingress_map = (refl, (refl, tt));
  certificate_map = (refl, tt);
})
