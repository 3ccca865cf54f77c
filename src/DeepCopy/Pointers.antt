-- ===== src/DeepCopy/Pointers.antt =====
-- api/v1beta1/zz_generated.deepcopy.go: the copies behind a pointer to a plain value, and of a map.
use horizon_issuer.Common.{
  ℕ, String, Bool, true, Option, none, some, [], ◌∷◌, ◌++◌, ap, is_some, ◌≡◌, arith, refl, inl, inr,
  Option-cases, if◌then◌else◌, ◌∙◌, sym,
}
use horizon_issuer.Common.Dict.{Dict, lookup, insert, insert_all, is_map}
use horizon_issuer.Common.Text.{eq_iff, eq_refl}
use mathlib.Core.List.{append-nil, append_assoc}
use horizon_issuer.Api.{IssuerDnsChecker}
use horizon_issuer.DeepCopy.Heap.{
  Pointer, Cell, a_text, a_map, a_template, a_checker, some_conditions, Heap, HeapAction, pure,
  ◌>>=◌, load, alloc, IsHeap, at, points_to,
}
use horizon_issuer.DeepCopy.Copied.{Copied, grown, alloc-IsHeap, alloc-Extends, alloc_fresh}

-- `*out = new(string); **out = **in`, under the test for nil; also for a DNS checker.
unfoldable pub copy_flat : Pointer → HeapAction Pointer
copy_flat none = pure none
copy_flat (some p) = do c ← load p; q ← alloc c; pure (some q)

-- The loop over a map, into a new one.
unfoldable pub copy_labels : Pointer → HeapAction Pointer
copy_labels none = pure none
copy_labels (some p) = do
  c ← load p
  elim c [ a_map m ↦ do q ← alloc (a_map (insert_all m [])); pure (some q) | _ ↦ λ h. none ]

abbrev pub as_text : Cell → Option String
as_text (a_text s) = some s
as_text _ = none

abbrev pub as_checker : Cell → Option IssuerDnsChecker
as_checker (a_checker c) = some c
as_checker _ = none

-- A Go map lists no key twice.
abbrev pub as_map : Cell → Option Dict
as_map (a_map m) = if is_map m then some m else none
as_map _ = none

-- A copy behind a pointer owns the address.
abbrev pub pointee : Heap → Pointer → ℕ → Bool
pointee h p a = points_to p a

found_after : (into m : Dict) (k v : String) → is_some (lookup k (into ++ ((k, v) ∷ m))) ≡ true
found_after [] m k v = ground (arith, eq_refl k)
found_after ((j, w) ∷ into) m k v = ground (arith, found_after into m k v)

new_before :
    (into m : Dict) (k v : String) → is_map (into ++ ((k, v) ∷ m)) ≡ true → lookup k into ≡ none
new_before [] m k v h = refl
new_before ((j, w) ∷ into) m k v h =
    ground (arith, found_after into m k v, eq_iff j k, new_before into m k v)

insert_new : (k v : String) (m : Dict) → lookup k m ≡ none → insert k v m ≡ m ++ ((k, v) ∷ [])
insert_new k v [] h = refl
insert_new k v ((j, w) ∷ m) h = ground (arith, insert_new k v m)

insert_all_new : (m into : Dict) → is_map (into ++ m) ≡ true → insert_all m into ≡ into ++ m
insert_all_new [] into h = sym (append-nil into)
insert_all_new ((k, v) ∷ m) into h =
    let step = insert_new k v into (new_before into m k v h) in
    let moved = append_assoc into ((k, v) ∷ []) m in
    ap (insert_all m) step
    ∙ (insert_all_new m (into ++ ((k, v) ∷ [])) (ap is_map moved ∙ h) ∙ moved)

module _ (h : Heap) (heap : IsHeap h) {V : Type 0} (d : Cell → Option V) where
  -- A new cell that is read like the old one.
  pub new-Copied :
      (c : Cell) (v : V) (r : Option (Pointer × Heap))
      → d c ≡ some v
      → r ≡ some (some h.next, grown h c)
      → Copied (at d) pointee h (some v) r
  new-Copied c v r e result = record {
    out = some h.next;
    after = grown h c;
    result = result;
    heap = alloc-IsHeap h heap c;
    kept = alloc-Extends h heap c;
    same = ground (arith, e);
    fresh = alloc_fresh h heap c;
  }

  pub nil-Copied : Copied (at d) pointee h none (some (none, h))
  nil-Copied = record {
    out = none;
    after = h;
    result = refl;
    heap = heap;
    kept = λ a c e. e;
    same = refl;
    fresh = λ a e. ground arith;
  }

  pub copy_flat-Copied :
      (p : Pointer) (v : Option V) → at d h p ≡ some v → Copied (at d) pointee h v (copy_flat p h)
  unfolding copy_flat
  copy_flat-Copied none none e = nil-Copied
  copy_flat-Copied none (some v) e = ground arith
  copy_flat-Copied (some p) none e = ground arith
  copy_flat-Copied (some p) (some v) e = elim (Option-cases (h.cell p)) [
    | inl nil ↦ ground arith
    | inr (c, got) ↦ new-Copied c v (copy_flat (some p) h) (ground arith) (ground arith)
  ]

-- The loop over a map makes an equal one.
pub copy_labels-Copied :
    (h : Heap)
    → IsHeap h
    → (p : Pointer) (v : Option Dict) → at as_map h p ≡ some v
    → Copied (at as_map) pointee h v (copy_labels p h)
unfolding copy_labels
copy_labels-Copied h heap none none e = nil-Copied h heap as_map
copy_labels-Copied h heap none (some v) e = ground arith
copy_labels-Copied h heap (some p) none e = ground arith
copy_labels-Copied h heap (some p) (some v) e = elim (Option-cases (h.cell p)) [
  | inl nil ↦ ground arith
  | inr (a_map m, got) ↦
      let map : is_map m ≡ true = ground (arith, e, got) in
      let same : insert_all m [] ≡ m = insert_all_new m [] map in
      new-Copied h heap as_map (a_map (insert_all m [])) v (copy_labels (some p) h)
        (ground (arith, same, map, e, got)) (ground (arith, got))
  | inr (a_text s, got) ↦ ground arith
  | inr (a_template s, got) ↦ ground arith
  | inr (a_checker s, got) ↦ ground arith
  | inr (some_conditions s, got) ↦ ground arith
]
