-- ===== src/DeepCopy/Copied.antt =====
-- api/v1beta1/zz_generated.deepcopy.go: what a copy is.
use horizon_issuer.Common.{
  ℕ, suc, Bool, true, Option, none, some, ◌≡◌, arith, inl, inr, Option-cases,
}
use horizon_issuer.DeepCopy.Heap.{
  Pointer, Cell, Heap, update, write, IsHeap, Extends, at, points_to,
}

-- The result of copying something with the value `v`, on the heap `h`: the copy has the same value,
-- what was on the heap is still there, and the copy owns only what was not on the heap.
pub record Copied {A V : Type 0} (value : Heap → A → Option V) (owns : Heap → A → ℕ → Bool)
    (h : Heap) (v : V) (r : Option (A × Heap)) : Type 0 where
  pub out : A
  pub after : Heap
  pub result : r ≡ some (out, after)
  pub heap : IsHeap after
  pub kept : Extends h after
  pub same : value after out ≡ some v
  pub fresh : (a : ℕ) → owns after out a ≡ true → h.cell a ≡ none

-- The heap with one more cell.
abbrev pub grown : Heap → Cell → Heap
grown h c = record { next = suc h.next; cell = update h.cell h.next c }

module _ (h : Heap) (heap : IsHeap h) (c : Cell) where
  pub alloc-IsHeap : IsHeap (grown h c)
  alloc-IsHeap a le = grind (arith, heap)

  pub alloc-Extends : Extends h (grown h c)
  alloc-Extends a x e = grind (arith, heap)

  pub alloc_fresh : (a : ℕ) → points_to (some h.next) a ≡ true → h.cell a ≡ none
  alloc_fresh a e = grind (arith, heap)

-- What is read through a pointer stays while the heap only grows.
pub at-Extends :
    {V : Type 0} (d : Cell → Option V) (h h' : Heap) (p : Pointer) (v : Option V)
    → Extends h h'
    → at d h p ≡ some v
    → at d h' p ≡ some v
at-Extends d h h' none v ext e = e
at-Extends d h h' (some p) v ext e = elim (Option-cases (h.cell p)) [
  | inl nil ↦ ground arith
  | inr (c, got) ↦ ground (arith, ext p c got)
]

pub kept_trans : (h h' h'' : Heap) → Extends h h' → Extends h' h'' → Extends h h''
kept_trans h h' h'' e f a c got = f a c (e a c got)

-- What is new on a later heap was new before.
pub older : (h h' : Heap) → Extends h h' → (a : ℕ) → h'.cell a ≡ none → h.cell a ≡ none
older h h' ext a new = elim (Option-cases (h.cell a)) [
  | inl nil ↦ nil
  | inr (c, got) ↦ ground (arith, ext a c got)
]

-- A write to what was not there keeps what was.
pub write-Extends :
    (h h' : Heap) → Extends h h' → (a : ℕ) (c : Cell) → h.cell a ≡ none → Extends h (write a c h')
write-Extends h h' ext a c new b x got = grind (arith, ext)
