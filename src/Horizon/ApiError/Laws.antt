-- ===== src/Horizon/ApiError/Laws.antt =====
-- internal/issuer/horizon/util.go: when formatBasicError and formatAPIError give a text.
use horizon_issuer.Common.{String, true, false, none, some, ◌≡◌, ◌↔◌, arith}
use horizon_issuer.Common.Text.{is_empty, is_empty-append}
use horizon_issuer.Errors.{BasicError, Error, text}
use horizon_issuer.Horizon.ApiError.{format_basic_error, format_api_error}

abbrev pub detail_of : BasicError → String
detail_of be = elim be.detail [ none ↦ "" | some d ↦ d ]

-- The text of a basic error is empty exactly if its code, title, message and detail all are.
pub format_basic_error-empty_iff :
    (be : BasicError)
    → (is_empty (format_basic_error be) ≡ true) ↔ (
        (is_empty be.error ≡ true)
        × (is_empty be.title ≡ true)
        × (is_empty be.message ≡ true)
        × (is_empty (detail_of be) ≡ true))
unfolding format_basic_error
format_basic_error-empty_iff be = grind (arith, is_empty-append)

-- An error with a text is never formatted as the empty text.
pub format_api_error-nonempty :
    (e : Error) → is_empty (text e) ≡ false → is_empty (format_api_error (some e)) ≡ false
unfolding format_api_error
format_api_error-nonempty e h = ground arith
