-- ===== src/Horizon/ApiError.antt =====
-- internal/issuer/horizon/util.go: formatAPIError and formatBasicError.
pub mod Laws
use horizon_issuer.Common.{
  String, Option, none, some, List, [], ◌∷◌, ◌++◌, Bool, not, ◌&&◌, if◌then◌else◌,
}
use horizon_issuer.Common.Text.{◌<>◌, is_empty}
use horizon_issuer.Errors.{BasicError, Error, text, as_basic_error}

-- `strings.Join`
join : List String → String → String
join [] sep = ""
join (s ∷ []) sep = s
join (s ∷ (t ∷ ts)) sep = s <> (sep <> join (t ∷ ts) sep)

-- `if s != "" { parts = append(parts, s) }`
abbrev append_nonempty : List String → String → List String
append_nonempty parts s = if is_empty s then parts else parts ++ s ∷ []

-- `summary` with the detail, where the error has one.
with_detail : String → Option String → String
with_detail summary none = summary
with_detail summary (some detail) =
    if not (is_empty summary) && not (is_empty detail)
    then summary <> (": " <> detail)
    else if not (is_empty detail)
    then detail
    else summary

unfoldable pub format_basic_error : BasicError → String
unfolding join with_detail
format_basic_error be =
    let parts = append_nonempty [] be.error in
    let summary = if is_empty be.title then be.message else be.title in
    join (append_nonempty parts (with_detail summary be.detail)) " - "

-- The text of an error, where the model says nothing.
or_text : String → Error → String
or_text msg e = if is_empty msg then text e else msg

unfoldable pub format_api_error : Option Error → String
unfolding format_basic_error or_text
format_api_error none = ""
format_api_error (some e) = elim (as_basic_error e) [
  | none ↦ text e
  | some be ↦ or_text (format_basic_error be) e
]
