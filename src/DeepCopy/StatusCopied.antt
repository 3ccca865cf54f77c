-- ===== src/DeepCopy/StatusCopied.antt =====
-- api/v1beta1/zz_generated.deepcopy.go: the copy of an IssuerStatus, and what it owns.
use horizon_issuer.Common.{
  ℕ, Bool, Option, none, some, List, [], ◌∷◌, ◌≡◌, arith, refl, inl, inr, Option-cases,
}
use horizon_issuer.Api.{Condition}
use horizon_issuer.DeepCopy.Heap.{
  Pointer, StatusStruct, Cell, a_text, a_map, a_template, a_checker, some_conditions, Heap, IsHeap,
  at, points_to,
}
use horizon_issuer.DeepCopy.Copied.{Copied}
use horizon_issuer.DeepCopy.Pointers.{nil-Copied, new-Copied, pointee}
use horizon_issuer.DeepCopy.Objects.{copy_conditions, copy_slice, copy_status}

abbrev pub as_conditions : Cell → Option (List Condition)
as_conditions (some_conditions cs) = some cs
as_conditions _ = none

-- What a status in memory stands for; nothing is a nil slice.
abbrev pub status_value : Heap → StatusStruct → Option (Option (List Condition))
status_value h s = at as_conditions h s.conditions

abbrev pub status_owns : Heap → StatusStruct → ℕ → Bool
status_owns h s a = points_to s.conditions a

module _ (copy_condition : Condition → Condition)
    (copies : (c : Condition) → copy_condition c ≡ c) where
  copy_conditions_lem : (cs : List Condition) → copy_conditions copy_condition cs ≡ cs
  copy_conditions_lem [] = refl
  copy_conditions_lem (c ∷ cs) = ground (arith, copies c, copy_conditions_lem cs)

  copy_slice-Copied :
      (h : Heap)
      → IsHeap h
      → (p : Pointer) (v : Option (List Condition)) → at as_conditions h p ≡ some v
      → Copied (at as_conditions) pointee h v (copy_slice copy_condition p h)
  unfolding copy_slice
  copy_slice-Copied h heap none none e = nil-Copied h heap as_conditions
  copy_slice-Copied h heap none (some v) e = ground arith
  copy_slice-Copied h heap (some p) none e = ground arith
  copy_slice-Copied h heap (some p) (some v) e = elim (Option-cases (h.cell p)) [
    | inl nil ↦ ground arith
    | inr (a_map m, got) ↦ ground arith
    | inr (a_text t, got) ↦ ground arith
    | inr (a_template t, got) ↦ ground arith
    | inr (a_checker t, got) ↦ ground arith
    | inr (some_conditions cs, got) ↦
        new-Copied h heap as_conditions (some_conditions (copy_conditions copy_condition cs)) v
          (copy_slice copy_condition (some p) h) (ground (arith, copy_conditions_lem cs, e, got))
          (ground (arith, got))
  ]

  pub copy_status-Copied :
      (h : Heap)
      → IsHeap h
      → (s : StatusStruct) (v : Option (List Condition)) → status_value h s ≡ some v
      → Copied status_value status_owns h v (copy_status copy_condition s h)
  unfolding copy_status
  copy_status-Copied h heap s v e =
      let c = copy_slice-Copied h heap s.conditions v e in
      record {
        out = record { conditions = c.out };
        after = c.after;
        result = ground (arith, c.result);
        heap = c.heap;
        kept = c.kept;
        same = c.same;
        fresh = c.fresh;
      }
