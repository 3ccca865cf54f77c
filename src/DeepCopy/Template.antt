-- ===== src/DeepCopy/Template.antt =====
-- api/v1beta1/zz_generated.deepcopy.go: the copy of an IssuerTemplate.
use horizon_issuer.Common.{ℕ, Bool, ◌||◌, Option, none, some, ◌≡◌, arith, inl, inr, Option-cases}
use horizon_issuer.Common.Dict.{Dict}
use horizon_issuer.Api.{IssuerTemplate, entries}
use horizon_issuer.DeepCopy.Heap.{
  Pointer, TemplateStruct, Cell, a_template, Heap, HeapAction, pure, ◌>>=◌, load, alloc, IsHeap,
  Extends, at, points_to,
}
use horizon_issuer.DeepCopy.Copied.{Copied, at-Extends, kept_trans, older}
use horizon_issuer.DeepCopy.Pointers.{
  copy_flat, copy_labels, as_text, as_map, copy_flat-Copied, copy_labels-Copied,
}

-- `DeepCopyInto`: what the new struct holds.
unfoldable pub copy_template : TemplateStruct → HeapAction TemplateStruct
copy_template t = do
  labels ← copy_labels t.labels
  owner ← copy_flat t.owner
  team ← copy_flat t.team
  contact_email ← copy_flat t.contact_email
  pure (record { labels = labels; owner = owner; team = team; contact_email = contact_email })

-- `DeepCopy`, and a pointer to a template within a struct.
unfoldable pub deep_copy_template : Pointer → HeapAction Pointer
deep_copy_template none = pure none
deep_copy_template (some p) = do
  c ← load p
  elim c [
    | a_template t ↦ do t' ← copy_template t; q ← alloc (a_template t'); pure (some q)
    | _ ↦ λ h. none
  ]

-- What a template in memory stands for; a nil map is an empty one.
abbrev pub template_value : Heap → TemplateStruct → Option IssuerTemplate
template_value h t = elim (at as_map h t.labels) [
  | none ↦ none
  | some labels ↦ elim (at as_text h t.owner) [
    | none ↦ none
    | some owner ↦ elim (at as_text h t.team) [
      | none ↦ none
      | some team ↦ elim (at as_text h t.contact_email) [
        | none ↦ none
        | some email ↦
            some (record {
              labels = entries labels;
              owner = owner;
              team = team;
              contact_email = email;
            })
      ]
    ]
  ]
]

abbrev pub as_template : Heap → Cell → Option IssuerTemplate
as_template h (a_template t) = template_value h t
as_template h _ = none

-- The addresses that a template in memory owns.
abbrev pub owned_by : TemplateStruct → ℕ → Bool
owned_by t a =
    points_to t.labels a
    || (points_to t.owner a || (points_to t.team a || points_to t.contact_email a))

abbrev pub template_owns : Heap → TemplateStruct → ℕ → Bool
template_owns h t a = owned_by t a

-- What the pointers of a template lead to.
record Parts (h : Heap) (t : TemplateStruct) (v : IssuerTemplate) : Type 0 where
  map : Option Dict
  labels : at as_map h t.labels ≡ some map
  is_labels : entries map ≡ v.labels
  owner : at as_text h t.owner ≡ some v.owner
  team : at as_text h t.team ≡ some v.team
  contact_email : at as_text h t.contact_email ≡ some v.contact_email

value-Parts :
    (h : Heap) (t : TemplateStruct) (v : IssuerTemplate) → template_value h t ≡ some v → Parts h t v
value-Parts h t v e = elim (Option-cases (at as_map h t.labels)) [
  | inl nil ↦ ground arith
  | inr (labels, l) ↦ elim (Option-cases (at as_text h t.owner)) [
    | inl nil ↦ ground arith
    | inr (owner, o) ↦ elim (Option-cases (at as_text h t.team)) [
      | inl nil ↦ ground arith
      | inr (team, m) ↦ elim (Option-cases (at as_text h t.contact_email)) [
        | inl nil ↦ ground arith
        | inr (email, c) ↦ record {
          map = labels;
          labels = l;
          is_labels = ground arith;
          owner = ground arith;
          team = ground arith;
          contact_email = ground arith;
        }
      ]
    ]
  ]
]

pub template-Extends :
    (h h' : Heap) (t : TemplateStruct) (v : IssuerTemplate)
    → Extends h h'
    → template_value h t ≡ some v
    → template_value h' t ≡ some v
template-Extends h h' t v ext e =
    let p = value-Parts h t v e in
    ground (
      arith,
      at-Extends as_map h h' t.labels p.map ext p.labels,
      p.is_labels,
      at-Extends as_text h h' t.owner v.owner ext p.owner,
      at-Extends as_text h h' t.team v.team ext p.team,
      at-Extends as_text h h' t.contact_email v.contact_email ext p.contact_email,
    )

pub copy_template-Copied :
    (h : Heap)
    → IsHeap h
    → (t : TemplateStruct) (v : IssuerTemplate) → template_value h t ≡ some v
    → Copied template_value template_owns h v (copy_template t h)
unfolding copy_template
copy_template-Copied h heap t v e =
    let p = value-Parts h t v e in
    let c = copy_labels-Copied h heap t.labels p.map p.labels in
    let o =
      copy_flat-Copied c.after c.heap as_text t.owner v.owner
        (at-Extends as_text h c.after t.owner v.owner c.kept p.owner) in
    let to_o = kept_trans h c.after o.after c.kept o.kept in
    let m =
      copy_flat-Copied o.after o.heap as_text t.team v.team
        (at-Extends as_text h o.after t.team v.team to_o p.team) in
    let to_m = kept_trans h o.after m.after to_o m.kept in
    let l =
      copy_flat-Copied m.after m.heap as_text t.contact_email v.contact_email
        (at-Extends as_text h m.after t.contact_email v.contact_email to_m p.contact_email) in
    let o_l = kept_trans o.after m.after l.after m.kept l.kept in
    record {
      out = record { labels = c.out; owner = o.out; team = m.out; contact_email = l.out };
      after = l.after;
      result = ground (arith, c.result, o.result, m.result, l.result);
      heap = l.heap;
      kept = kept_trans h m.after l.after to_m l.kept;
      same = ground (
        arith,
        at-Extends as_map c.after l.after c.out p.map
            (kept_trans c.after o.after l.after o.kept o_l) c.same,
        p.is_labels,
        at-Extends as_text o.after l.after o.out v.owner o_l o.same,
        at-Extends as_text m.after l.after m.out v.team l.kept m.same,
        l.same,
      );
      fresh = λ a owned. ground (
        arith,
        c.fresh a,
        o.fresh a,
        m.fresh a,
        l.fresh a,
        older h c.after c.kept a,
        older h o.after to_o a,
        older h m.after to_m a,
      );
    }
