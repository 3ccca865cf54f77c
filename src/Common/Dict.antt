-- ===== src/Common/Dict.antt =====
-- Go's `map[string]string` as an association list, in the order in which a `range` meets its keys.
use mathlib.Core.Path.{◌≡◌, refl}
use mathlib.Core.Option.{Option, none, some}
use mathlib.Core.List.{List, [], ◌∷◌}
use native.Mathlib.Omega.{arith}
use mathlib.Core.Bool.{Bool, true, not, ◌&&◌}
use horizon_issuer.Common.Tests.{if◌then◌else◌, ◌or_else◌, is_some}
use horizon_issuer.Common.Text.{◌==◌, eq_iff}
use Prim.Native.String.{String}

abbrev pub Dict : Type 0
Dict = List (String × String)

abbrev pub lookup : String → Dict → Option String
lookup k [] = none
lookup k ((j, v) ∷ m) = if j == k then some v else lookup k m

-- `m[k] = v`
abbrev pub insert : String → String → Dict → Dict
insert k v [] = (k, v) ∷ []
insert k v ((j, w) ∷ m) = if j == k then (k, v) ∷ m else (j, w) ∷ insert k v m

-- `for k, v := range m { into[k] = v }`
abbrev pub insert_all : Dict → Dict → Dict
insert_all [] into = into
insert_all ((k, v) ∷ m) into = insert_all m (insert k v into)

-- No key is listed twice, as a test.
abbrev pub is_map : Dict → Bool
is_map [] = true
is_map ((k, v) ∷ m) = not (is_some (lookup k m)) && is_map m

-- No key is listed twice.
abbrev pub IsMap : Dict → Type 0
IsMap [] = Unit
IsMap ((k, v) ∷ m) = (lookup k m ≡ none) × IsMap m

pub lookup-insert :
    (k j v : String) (m : Dict) → lookup j (insert k v m) ≡ (if k == j then some v else lookup j m)
lookup-insert k j v [] = refl
lookup-insert k j v ((i, w) ∷ m) =
    ground (arith, eq_iff k j, eq_iff i k, eq_iff i j, lookup-insert k j v m)

pub insert-IsMap : (k v : String) (m : Dict) → IsMap m → IsMap (insert k v m)
insert-IsMap k v [] h = ground arith
insert-IsMap k v ((j, w) ∷ m) h =
    ground (arith, eq_iff j k, eq_iff k j, insert-IsMap k v m h.1, lookup-insert k j v m)

-- A map laid over another: its own values win.
pub lookup-insert_all :
    (j : String) (m into : Dict)
    → IsMap m
    → lookup j (insert_all m into) ≡ (lookup j m or_else lookup j into)
lookup-insert_all j [] into h = refl
lookup-insert_all j ((k, v) ∷ m) into h =
    ground
      (arith, lookup-insert_all j m (insert k v into) h.1, lookup-insert k j v into, eq_iff k j)

pub insert_all-IsMap : (m into : Dict) → IsMap into → IsMap (insert_all m into)
insert_all-IsMap [] into h = h
insert_all-IsMap ((k, v) ∷ m) into h =
    insert_all-IsMap m (insert k v into) (insert-IsMap k v into h)
