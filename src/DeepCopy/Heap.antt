-- ===== src/DeepCopy/Heap.antt =====
-- api/v1beta1: the structs as they lie in memory, with a pointer, a map or a slice as an address.
use horizon_issuer.Common.{
  ℕ, suc, String, Bool, false, Option, none, some, List, nat_eq, if◌then◌else◌, ◌≡◌, ◌≤◌,
}
use horizon_issuer.Common.Dict.{Dict}
use horizon_issuer.Api.{IssuerDnsChecker, Condition}

-- nil, or an address.
abbrev pub Pointer : Type 0
Pointer = Option ℕ

-- `IssuerTemplate`
pub record TemplateStruct : Type 0 where
  pub labels : Pointer
  pub owner : Pointer
  pub team : Pointer
  pub contact_email : Pointer

-- `IssuerSpec`
pub record SpecStruct : Type 0 where
  pub url : String
  pub proxy : Pointer
  pub profile : String
  pub auth_secret_name : String
  pub ca_bundle : Pointer
  pub skip_tls_verify : Bool
  pub revoke_certificates : Bool
  pub default_template : Pointer
  pub override_template : Pointer
  pub dns_checker : Pointer

-- `IssuerStatus`
pub record StatusStruct : Type 0 where
  pub conditions : Pointer

-- What an address may hold: a text, a map, a struct, or the elements of a slice.
pub data Cell : Type 0 where
  a_text : String → Cell
  a_map : Dict → Cell
  a_template : TemplateStruct → Cell
  a_checker : IssuerDnsChecker → Cell
  some_conditions : List Condition → Cell

pub record Heap : Type 0 where
  pub next : ℕ
  pub cell : ℕ → Option Cell

-- What is done on a heap; a read through a dangling pointer, which Go does not have, gives nothing.
abbrev pub HeapAction : Type 0 → Type 0
HeapAction A = Heap → Option (A × Heap)

module _ {A : Type 0} where
  abbrev pub pure : A → HeapAction A
  pure a = λ h. some (a, h)

  infixl 5 ◌>>=◌
  abbrev pub ◌>>=◌ : {B : Type 0} → HeapAction A → (A → HeapAction B) → HeapAction B
  ◌>>=◌ m next = λ h. elim (m h) [ some (a, later) ↦ next a later | none ↦ none ]

abbrev pub load : ℕ → HeapAction Cell
load p h = elim (h.cell p) [ none ↦ none | some c ↦ some (c, h) ]

abbrev pub update : (ℕ → Option Cell) → ℕ → Cell → ℕ → Option Cell
update f p c q = if nat_eq p q then some c else f q

-- `new(T)` or `make(…)` with what is then written into it.
abbrev pub alloc : Cell → HeapAction ℕ
alloc c h = some (h.next, record { next = suc h.next; cell = update h.cell h.next c })

-- A write through a pointer.
abbrev pub write : ℕ → Cell → Heap → Heap
write p c h = record h { cell = update h.cell p c }

-- Nothing lies above the next free address.
abbrev pub IsHeap : Heap → Type 0
IsHeap h = (a : ℕ) → h.next ≤ a → h.cell a ≡ none

-- What is there stays there.
abbrev pub Extends : Heap → Heap → Type 0
Extends h h' = (a : ℕ) (c : Cell) → h.cell a ≡ some c → h'.cell a ≡ some c

-- The value behind a pointer, where the cell is read by a decoder.
abbrev pub at : {V : Type 0} → (Cell → Option V) → Heap → Pointer → Option (Option V)
at d h none = some none
at d h (some p) = elim (h.cell p) [
  | none ↦ none
  | some c ↦ elim (d c) [ none ↦ none | some v ↦ some (some v) ]
]

-- The pointer is to this address.
abbrev pub points_to : Pointer → ℕ → Bool
points_to none a = false
points_to (some p) a = nat_eq p a
