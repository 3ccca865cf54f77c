-- ===== src/Common/Text.antt =====
-- Go's `strings` functions that the program calls, over the native texts.
use Prim.Native.Char.{code}
use Prim.Native.String
use Prim.Native.String.{String, [], ◌∷◌}
use mathlib.Core.Path.{◌≡◌, ap}
use mathlib.Core.Bool.{Bool, true, false, ◌&&◌}
use mathlib.Core.Option.{Option, none, some}
use native.Mathlib.Omega.{arith}
pub use text.Mathlib.Text.{◌==◌}
pub use text.Mathlib.TextEquality.{eq_iff}
pub use text.Mathlib.TextPositions.{eq_refl}
use text.Mathlib.TextEquality.{Char-path}
use text.Mathlib.TextLemmas.{nil-append, cons-append, append_assoc, append-nil}
use horizon_issuer.Common.Tests.{if◌then◌else◌, nat_eq}

infixr 65 ◌<>◌
-- `a + b` on strings
abbrev pub ◌<>◌ : String → String → String
a <> b = String.◌++◌ a b

abbrev pub is_empty : String → Bool
is_empty [] = true
is_empty (_ ∷ _) = false

-- `strings.TrimSuffix`: the one tail of the text that is as long as the suffix is compared.
unfoldable pub trim_suffix : String → String → String
trim_suffix [] suffix = []
trim_suffix (c ∷ s) suffix = if (c ∷ s) == suffix then [] else c ∷ trim_suffix s suffix

-- `strings.HasPrefix` and `strings.TrimPrefix` in one: the rest behind the prefix, if it is there.
unfoldable pub strip_prefix : String → String → Option String
strip_prefix [] s = some s
strip_prefix (c ∷ p) [] = none
strip_prefix (c ∷ p) (d ∷ s) = if nat_eq (code c) (code d) then strip_prefix p s else none

pub strip_prefix-append : (p s : String) → strip_prefix p (p <> s) ≡ some s
unfolding strip_prefix
strip_prefix-append [] s = ap some (nil-append s)
strip_prefix-append (c ∷ p) s = rw (cons-append) (ground (arith, strip_prefix-append p s))

-- What is left behind the prefix makes up the text with it.
pub strip_prefix_sound : (p s r : String) → strip_prefix p s ≡ some r → s ≡ p <> r
unfolding strip_prefix
strip_prefix_sound [] s r h = rw nil-append (ground arith)
strip_prefix_sound (c ∷ p) [] r h = cc
strip_prefix_sound (c ∷ p) (d ∷ s) r h =
    rw cons-append (ground (arith, Char-path c d, strip_prefix_sound p s r))

pub text_assoc : (a b c : String) → (a <> b) <> c ≡ a <> (b <> c)
text_assoc = append_assoc

pub is_empty-append : (a b : String) → is_empty (a <> b) ≡ (is_empty a && is_empty b)
is_empty-append [] b = rw nil-append
is_empty-append (c ∷ a) b = rw cons-append

pub text_nil : (a : String) → a <> "" ≡ a
text_nil = append-nil

pub nil_text : (a : String) → "" <> a ≡ a
nil_text = nil-append
