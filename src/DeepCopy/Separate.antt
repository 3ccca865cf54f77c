-- ===== src/DeepCopy/Separate.antt =====
-- api/v1beta1/zz_generated.deepcopy.go: a copy and what it was copied from, under writes.
use horizon_issuer.Common.{
  ℕ, Bool, true, false, Option, some, ◌≡◌, ◌∙◌, arith, inl, inr, Bool-cases,
}
use horizon_issuer.Api.{IssuerSpec}
use horizon_issuer.DeepCopy.Heap.{Heap, Cell, SpecStruct, IsHeap, Extends, write}
use horizon_issuer.DeepCopy.Copied.{Copied, write-Extends}
use horizon_issuer.DeepCopy.Spec.{copy_spec, spec_value, spec_owns}
use horizon_issuer.DeepCopy.SpecCopied.{copy_spec-Copied, spec-Extends}
use horizon_issuer.DeepCopy.Frame.{spec-write}

-- The copying of `s`, with the value `v` on the heap `h`, ends; the copy has the same value. A write
-- to a cell of the copy leaves the value of `s`, and a write to a cell from before that of the copy.
pub record Separate {A V : Type 0} (value : Heap → A → Option V) (owns : Heap → A → ℕ → Bool)
    (h : Heap) (s : A) (v : V) (r : Option (A × Heap)) : Type 0 where
  pub out : A
  pub after : Heap
  pub result : r ≡ some (out, after)
  pub same : value after out ≡ some v
  pub original_kept :
      (a : ℕ) (c : Cell) → owns after out a ≡ true → value (write a c after) s ≡ some v
  pub copy_kept : (a : ℕ) (c x : Cell) → h.cell a ≡ some x → value (write a c after) out ≡ some v

pub Copied-Separate :
    {A V : Type 0} (value : Heap → A → Option V) (owns : Heap → A → ℕ → Bool)
    (grows : (h h' : Heap) (s : A) (v : V)
      → Extends h h'
      → value h s ≡ some v
      → value h' s ≡ some v)
    (unowned : (h : Heap) (a : ℕ) (c : Cell) (s : A)
      → owns h s a ≡ false
      → value (write a c h) s ≡ value h s)
    (h : Heap) (s : A) (v : V) (r : Option (A × Heap))
    → value h s ≡ some v
    → Copied value owns h v r
    → Separate value owns h s v r
Copied-Separate value owns grows unowned h s v r e k = record {
  out = k.out;
  after = k.after;
  result = k.result;
  same = k.same;
  original_kept = λ a c owned.
      grows h (write a c k.after) s v (write-Extends h k.after k.kept a c (k.fresh a owned)) e;
  copy_kept = λ a c x there. elim (Bool-cases (owns k.after k.out a)) [
    | inl owned ↦ ground (arith, k.fresh a owned, there)
    | inr free ↦ unowned k.after a c k.out free ∙ k.same
  ];
}

-- The deep copy of an IssuerSpec ends, and has the same value: the same texts, DNS checker and
-- templates, with the same labels. The two share no memory: a write to a cell of the copy, those of
-- the templates behind its pointers included, leaves the value of the original, and a write to a cell
-- that was there before leaves the value of the copy. What the spec points to is there, and a map
-- lists no key twice.
pub copy_spec-Separate :
    (h : Heap)
    → IsHeap h
    → (s : SpecStruct) (v : IssuerSpec) → spec_value h s ≡ some v
    → Separate spec_value spec_owns h s v (copy_spec s h)
copy_spec-Separate h heap s v e =
    Copied-Separate spec_value spec_owns spec-Extends spec-write h s v (copy_spec s h) e
      (copy_spec-Copied h heap s v e)
