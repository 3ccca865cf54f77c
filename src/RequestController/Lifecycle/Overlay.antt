-- ===== src/RequestController/Lifecycle/Overlay.antt =====
-- internal/issuer/horizon/issuer.go: writing the annotations of an issued certificate a second time
-- changes nothing.
use horizon_issuer.Common.{
  String, Bool, true, false, ◌&&◌, none, some, [], ◌∷◌, ◌≡◌, ◌≤◌, refl, ◌∙◌, arith, length,
  ◌or_else◌,
}
use horizon_issuer.Common.Dict.{
  Dict, IsMap, lookup, insert, insert_all, lookup-insert, insert_all-IsMap,
}
use horizon_issuer.Common.Text.{◌<>◌, eq_iff, eq_refl}
use horizon_issuer.Sdk.{IssuedCertificate}
use horizon_issuer.Horizon.Annotations.{
  certificate_id, owner_annotation, team_annotation, contact_email_annotation, label_annotation,
}
use horizon_issuer.Horizon.Polling.Issued.{with_labels, described, issued_annotations}
use horizon_issuer.RequestController.Finish.{covers, deep_equal}
use horizon_issuer.RequestController.Lifecycle.Settles.{length-insert}
use horizon_issuer.RequestController.Lifecycle.Kept.{has_key, has_key-insert}

-- A map laid over another, whose keys may repeat: the last value of each wins.
lookup-over :
    (j : String) (m into : Dict)
    → lookup j (insert_all m into) ≡ (lookup j (insert_all m []) or_else lookup j into)
lookup-over j [] into = refl
lookup-over j ((k, v) ∷ m) into = ground (
  arith,
  lookup-over j m (insert k v into),
  lookup-over j m ((k, v) ∷ []),
  lookup-insert k j v into,
)

lookup-over_twice :
    (j : String) (m into : Dict)
    → lookup j (insert_all m (insert_all m into)) ≡ lookup j (insert_all m into)
lookup-over_twice j m into =
    ground (arith, lookup-over j m (insert_all m into), lookup-over j m into)

abbrev has_keys : Dict → Dict → Bool
has_keys [] into = true
has_keys ((k, v) ∷ m) into = has_key k into && has_keys m into

has_keys-insert :
    (m : Dict) (k v : String) (into : Dict)
    → has_keys m into ≡ true
    → has_keys m (insert k v into) ≡ true
has_keys-insert [] k v into h = refl
has_keys-insert ((j, w) ∷ m) k v into h =
    ground (arith, has_keys-insert m k v into, has_key-insert j k v into)

has_key-insert_all :
    (k : String) (m into : Dict) → has_key k into ≡ true → has_key k (insert_all m into) ≡ true
has_key-insert_all k [] into h = h
has_key-insert_all k ((j, v) ∷ m) into h =
    has_key-insert_all k m (insert j v into) (has_key-insert k j v into h)

has_keys-insert_all : (m into : Dict) → has_keys m (insert_all m into) ≡ true
has_keys-insert_all [] into = refl
has_keys-insert_all ((k, v) ∷ m) into = ground (
  arith,
  has_keys-insert_all m (insert k v into),
  has_key-insert_all k m (insert k v into),
  lookup-insert k k v into,
  eq_refl k,
)

length-insert_known :
    (k v : String) (m : Dict) → has_key k m ≡ true → length (insert k v m) ≡ length m
length-insert_known k v [] h = ground arith
length-insert_known k v ((j, w) ∷ m) h = ground (arith, length-insert_known k v m)

length-insert_all_known :
    (m into : Dict) → has_keys m into ≡ true → length (insert_all m into) ≡ length into
length-insert_all_known [] into h = refl
length-insert_all_known ((k, v) ∷ m) into h = ground (
  arith,
  length-insert_known k v into,
  has_keys-insert m k v into,
  length-insert_all_known m (insert k v into),
)

length_le-insert : (k v : String) (m : Dict) → length m ≤ length (insert k v m)
length_le-insert k v [] = ground arith
length_le-insert k v ((j, w) ∷ m) = ground (arith, length_le-insert k v m)

length_le-insert_all : (m into : Dict) → length into ≤ length (insert_all m into)
length_le-insert_all [] into = ground arith
length_le-insert_all ((k, v) ∷ m) into =
    ground (arith, length_le-insert k v into, length_le-insert_all m (insert k v into))

-- What is found in a map is found in another that finds the same.
covers-found :
    (m n : Dict)
    → IsMap n
    → ((j w : String) → lookup j n ≡ some w → lookup j m ≡ some w)
    → covers m n ≡ true
unfolding covers
covers-found m [] h found = refl
covers-found m ((k, v) ∷ n) h found =
    let rest = covers-found m n h.1 (λ j w e. found j w (ground (arith, eq_iff k j, h.0, e))) in
    ground (arith, found k v (ground (arith, eq_refl k)), rest, eq_refl v)

deep_equal-over :
    (m into : Dict)
    → IsMap into
    → deep_equal (some (insert_all m into)) (some (insert_all m (insert_all m into))) ≡ true
unfolding deep_equal
deep_equal-over m into h =
    let once = insert_all m into in
    let found =
      covers-found (insert_all m once) once (insert_all-IsMap m into h)
        (λ j w e. lookup-over_twice j m into ∙ e) in
    ground (arith, found, length-insert_all_known m once (has_keys-insert_all m into))

abbrev prefixed : Dict → Dict
prefixed [] = []
prefixed ((k, v) ∷ labels) = (label_annotation <> ("." <> k), v) ∷ prefixed labels

with_labels-over : (labels m : Dict) → with_labels labels m ≡ insert_all (prefixed labels) m
with_labels-over [] m = refl
with_labels-over ((k, v) ∷ labels) m =
    with_labels-over labels (insert (label_annotation <> ("." <> k)) v m)

-- All that is written for an issued certificate.
abbrev written : IssuedCertificate → Dict
written c =
    (certificate_id, c.id)
    ∷ ((owner_annotation, c.owner)
        ∷ ((team_annotation, c.team)
            ∷ ((contact_email_annotation, c.contact_email) ∷ prefixed c.labels)))

issued-over : (c : IssuedCertificate) (m : Dict) → issued_annotations c m ≡ insert_all (written c) m
issued-over c m = with_labels-over c.labels (described c m)

-- Written again, the annotations are found unchanged.
pub deep_equal-issued :
    (c : IssuedCertificate) (m : Dict)
    → IsMap m
    → deep_equal
        (some (issued_annotations c m))
        (some (issued_annotations c (issued_annotations c m)))
      ≡ true
deep_equal-issued c m h =
    rw (issued-over c m)
      (rw (issued-over c (insert_all (written c) m)) (deep_equal-over (written c) m h))

pub issued-IsMap : (c : IssuedCertificate) (m : Dict) → IsMap m → IsMap (issued_annotations c m)
issued-IsMap c m h = rw (issued-over c m) (insert_all-IsMap (written c) m h)

-- Written for the first time, they are found changed.
pub deep_equal-first :
    (c : IssuedCertificate) (m : Dict)
    → lookup certificate_id m ≡ none
    → deep_equal (some m) (some (issued_annotations c m)) ≡ false
unfolding deep_equal
deep_equal-first c m h =
    let more = length_le-insert_all (prefixed c.labels) (described c m) in
    rw (with_labels-over c.labels (described c m)) (
      ground (
        arith,
        more,
        length-insert certificate_id c.id m h,
        length_le-insert owner_annotation c.owner (insert certificate_id c.id m),
        length_le-insert team_annotation c.team
            (insert owner_annotation c.owner (insert certificate_id c.id m)),
        length_le-insert contact_email_annotation c.contact_email (
            insert team_annotation c.team
              (insert owner_annotation c.owner (insert certificate_id c.id m))),
      ))
