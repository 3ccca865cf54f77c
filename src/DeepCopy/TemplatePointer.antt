-- ===== src/DeepCopy/TemplatePointer.antt =====
-- api/v1beta1/zz_generated.deepcopy.go: the copy of an IssuerTemplate behind a pointer.
use horizon_issuer.Common.{
  ℕ, Bool, true, false, ◌||◌, ◌⊎◌, Bool-cases, Option, none, some, ◌≡◌, arith, refl, inl, inr,
  Option-cases, nat_eq,
}
use horizon_issuer.Api.{IssuerTemplate}
use horizon_issuer.DeepCopy.Heap.{
  Pointer, TemplateStruct, a_text, a_map, a_template, a_checker, some_conditions, Heap, IsHeap,
  Extends, at,
}
use horizon_issuer.DeepCopy.Copied.{
  Copied, grown, alloc-IsHeap, alloc-Extends, alloc_fresh, kept_trans, older,
}
use horizon_issuer.DeepCopy.Template.{
  deep_copy_template, template_value, as_template, owned_by, template-Extends, copy_template-Copied,
}

abbrev pub template_at : Heap → Pointer → Option (Option IssuerTemplate)
template_at h p = at (as_template h) h p

-- The struct and what it owns.
abbrev pub pointer_owns : Heap → Pointer → ℕ → Bool
pointer_owns h none a = false
pointer_owns h (some p) a =
    nat_eq p a || (elim (h.cell p) [ some (a_template t) ↦ owned_by t a | _ ↦ false ])

-- A pointer that leads to a template leads to a struct with its value.
pub template_cell :
    (h : Heap) (p : ℕ) (v : IssuerTemplate)
    → template_at h (some p) ≡ some (some v)
    → (t : TemplateStruct) × ((h.cell p ≡ some (a_template t)) × (template_value h t ≡ some v))
template_cell h p v e = elim (Option-cases (h.cell p)) [
  | inl nil ↦ ground arith
  | inr (a_map m, got) ↦ ground arith
  | inr (a_text s, got) ↦ ground arith
  | inr (a_template t, got) ↦ (t, (got, ground (arith, e, got)))
  | inr (a_checker s, got) ↦ ground arith
  | inr (some_conditions s, got) ↦ ground arith
]

pub template_at-Extends :
    (h h' : Heap) (p : Pointer) (v : Option IssuerTemplate)
    → Extends h h'
    → template_at h p ≡ some v
    → template_at h' p ≡ some v
template_at-Extends h h' none v ext e = e
template_at-Extends h h' (some p) none ext e = ground arith
template_at-Extends h h' (some p) (some v) ext e =
    let (t, (got, value)) = template_cell h p v e in
    ground (arith, ext p (a_template t) got, template-Extends h h' t v ext value)

-- What a pointer owns stays the same while the heap only grows.
pub pointer_owns-Extends :
    (h h' : Heap) (p : Pointer) (v : Option IssuerTemplate)
    → Extends h h'
    → template_at h p ≡ some v
    → (a : ℕ) → pointer_owns h' p a ≡ pointer_owns h p a
pointer_owns-Extends h h' none v ext e a = refl
pointer_owns-Extends h h' (some p) none ext e a = ground arith
pointer_owns-Extends h h' (some p) (some v) ext e a =
    let (t, (got, value)) = template_cell h p v e in ground (arith, got, ext p (a_template t) got)

-- A pointer to a new struct owns its address and what the struct owns.
grown_owns :
    (h : Heap) (t : TemplateStruct) (a : ℕ)
    → pointer_owns (grown h (a_template t)) (some h.next) a ≡ true
    → (nat_eq h.next a ≡ true) ⊎ (owned_by t a ≡ true)
grown_owns h t a owned = elim (Bool-cases (nat_eq h.next a)) [
  | inl e ↦ inl e
  | inr e ↦ inr (ground (arith, e, owned))
]

pub deep_copy_template-Copied :
    (h : Heap)
    → IsHeap h
    → (p : Pointer) (v : Option IssuerTemplate) → template_at h p ≡ some v
    → Copied template_at pointer_owns h v (deep_copy_template p h)
unfolding deep_copy_template
deep_copy_template-Copied h heap none none e = record {
  out = none;
  after = h;
  result = refl;
  heap = heap;
  kept = λ a c got. got;
  same = refl;
  fresh = λ a owned. ground arith;
}
deep_copy_template-Copied h heap none (some v) e = ground arith
deep_copy_template-Copied h heap (some p) none e = ground arith
deep_copy_template-Copied h heap (some p) (some v) e =
    let (t, (got, value)) = template_cell h p v e in
    let c = copy_template-Copied h heap t v value in
    let cell = a_template c.out in
    let ext = alloc-Extends c.after c.heap cell in
    record {
      out = some c.after.next;
      after = grown c.after cell;
      result = ground (arith, got, c.result);
      heap = alloc-IsHeap c.after c.heap cell;
      kept = kept_trans h c.after (grown c.after cell) c.kept ext;
      same = ground (arith, template-Extends c.after (grown c.after cell) c.out v ext c.same);
      fresh = λ a owned. elim (grown_owns c.after c.out a owned) [
        | inl e ↦ older h c.after c.kept a (alloc_fresh c.after c.heap cell a e)
        | inr e ↦ c.fresh a e
      ];
    }
