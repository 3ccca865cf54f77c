-- ===== src/Errors.antt =====
-- Go's error values as far as the program tells them apart: by their text, by what they wrap, and
-- by the error that the Horizon SDK returns for an API answer.
use horizon_issuer.Common.{String, Option, none, ◌≡◌, refl, ◌⊎◌, inl, inr}
use horizon_issuer.Common.Text.{◌<>◌}

-- `models.BasicError` of the SDK, by what its getters return; `none` where `HasDetail` is false.
pub record BasicError : Type 0 where
  pub error : String
  pub title : String
  pub message : String
  pub detail : Option String

pub data Error : Type 0 where
  -- `errors.New`, and `fmt.Errorf` with no `%w`
  plain : String → Error
  -- `*horizon.GenericOpenAPIError`: its text, and its model where that is a `BasicError`
  generic_api : String → Option BasicError → Error
  -- an error with a text of its own that unwraps to another one
  wrapped : String → Error → Error

-- `err.Error()`
abbrev pub text : Error → String
text (plain s) = s
text (generic_api s model) = s
text (wrapped s inner) = s

-- `fmt.Errorf("%w: %v", sentinel, err)`: only the sentinel is wrapped.
abbrev pub errorf : String → Error → Error
errorf sentinel err = wrapped (sentinel <> ": " <> text err) (plain sentinel)

-- `errors.As(err, &apiErr)` and the model of what it found: the first such error on the chain.
abbrev pub as_basic_error : Error → Option BasicError
as_basic_error (plain s) = none
as_basic_error (generic_api s model) = model
as_basic_error (wrapped s inner) = as_basic_error inner

-- A call that returns a value or an error.
pub data Result (A : Type 0) : Type 0 where
  ok : A → Result A
  err : Error → Result A

pub Result-cases :
    {A : Type 0} (r : Result A) → ((a : A) × (r ≡ ok a)) ⊎ ((e : Error) × (r ≡ err e))
Result-cases (ok a) = inl (a, refl)
Result-cases (err e) = inr (e, refl)
