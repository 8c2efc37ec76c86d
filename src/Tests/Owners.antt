-- ===== src/Tests/Owners.antt =====
-- Owner references in the objects of Objects.antt, for the tests: the accessors of apimachinery, with
-- the proof that they and those of labels do not touch each other's field.
use crossplane_diff.Prelude.{
  ℕ, ◌≡◌, refl, ap, Bool, false, Option, none, some, List, [], ◌∷◌, if◌then◌else◌,
}
use crossplane_diff.Text.{Text, codes, text_eq, text_eq_self, is_empty}
use crossplane_diff.GoMap.{GoMap}
use crossplane_diff.Objects.{
  Value, null, bool, number, string, slice, object, Items, nil, cons, Fields, get, put, get-put,
}
use crossplane_diff.Objects.Fields.{entry, end}
use crossplane_diff.Manager.Owners.{OwnerReference, Ownership}
use crossplane_diff.Tests.Cluster.{
  api, field_at, map_in, set_meta, meta, label_field, map_or_empty, meta_map, meta_text, decode,
  encode,
}

abbrev flag : Option Bool → Value
flag none = null
flag (some b) = bool b

abbrev flag_of : Option Value → Option Bool
flag_of (some (bool b)) = some b
flag_of _ = none

abbrev text_of : Option Value → Text
text_of (some (string s)) = s
text_of _ = []

abbrev encode_ref : OwnerReference → Fields
encode_ref ref = entry (codes "apiVersion") (string ref.api_version) (
    entry (codes "kind") (string ref.kind) (
      entry (codes "name") (string ref.name) (
        entry (codes "uid") (string ref.uid) (
          entry (codes "controller") (flag ref.controller)
            (entry (codes "blockOwnerDeletion") (flag ref.block_owner_deletion) end)))))

unfoldable pub decode_ref : Fields → OwnerReference
decode_ref m = record {
  api_version = text_of (get (codes "apiVersion") m);
  kind = text_of (get (codes "kind") m);
  name = text_of (get (codes "name") m);
  uid = text_of (get (codes "uid") m);
  controller = flag_of (get (codes "controller") m);
  block_owner_deletion = flag_of (get (codes "blockOwnerDeletion") m);
}

unfoldable pub encode_refs : List OwnerReference → Items
encode_refs [] = nil
encode_refs (ref ∷ refs) = cons (object (encode_ref ref)) (encode_refs refs)

unfoldable pub decode_refs : Items → List OwnerReference
decode_refs nil = []
decode_refs (cons (object m) items) = decode_ref m ∷ decode_refs items
decode_refs (cons _ items) = decode_refs items

flag_of-flag : (f : Option Bool) → flag_of (some (flag f)) ≡ f
flag_of-flag none = refl
flag_of-flag (some b) = refl

decode_ref-encode : (ref : OwnerReference) → decode_ref (encode_ref ref) ≡ ref
unfolding decode_ref get text_eq
decode_ref-encode ref = rw (flag_of-flag ref.controller, flag_of-flag ref.block_owner_deletion) refl

decode_refs-encode : (refs : List OwnerReference) → decode_refs (encode_refs refs) ≡ refs
unfolding decode_refs encode_refs
decode_refs-encode [] = refl
decode_refs-encode (ref ∷ refs) = rw (decode_ref-encode ref, decode_refs-encode refs) refl

abbrev owner_field : Text
owner_field = codes "ownerReferences"

abbrev refs_of : Option Value → List OwnerReference
refs_of (some (slice items)) = decode_refs items
refs_of _ = []

-- A field of the metadata, read in one step.
meta_field :
    (j : Text) (o : Fields)
    → field_at o (meta ∷ j ∷ []) ≡ get j (map_or_empty (map_in o (meta ∷ [])))
unfolding field_at map_in get
meta_field j o = of (get meta o) refl
  where
    of :
        (w : Option Value)
        → get meta o ≡ w
        → field_at o (meta ∷ j ∷ []) ≡ get j (map_or_empty (map_in o (meta ∷ [])))
    of none e = rw (field_at, map_in, field_at, e) refl
    of (some null) e = rw (field_at, map_in, field_at, e) refl
    of (some (bool b)) e = rw (field_at, map_in, field_at, e) refl
    of (some (number n)) e = rw (field_at, map_in, field_at, e) refl
    of (some (string s)) e = rw (field_at, map_in, field_at, e) refl
    of (some (slice s)) e = rw (field_at, map_in, field_at, e) refl
    of (some (object m)) e = rw (field_at, map_in, field_at, e) refl

field_at-set_meta :
    (k j : Text) (v : Value) (o : Fields)
    → field_at (set_meta k v o) (meta ∷ j ∷ [])
      ≡ (if text_eq k j then some v else field_at o (meta ∷ j ∷ []))
unfolding set_meta field_at
field_at-set_meta k j v o =
    let old = map_or_empty (map_in o (meta ∷ [])) in
    rw (meta_field j o) (
      rw (set_meta, field_at, get-put meta meta (object (put k v old)) o, text_eq_self meta)
        (get-put k j v old))

unfoldable pub controller_of : List OwnerReference → Option Text
controller_of [] = none
controller_of (ref ∷ refs) =
    let rest = controller_of refs in
    elim ref.controller [ none ↦ rest | some b ↦ if b then some ref.uid else rest ]

unfoldable pub owner_refs : Fields → List OwnerReference
unfolding field_at decode_refs
owner_refs o = refs_of (field_at o (meta ∷ owner_field ∷ []))

-- Claims are the objects of kind Claim; the n-th UID is one character.
abbrev pub ownership : Ownership
ownership = record {
  get_uid = meta_text (codes "uid");
  get_owner_references = owner_refs;
  set_owner_references = λ refs. set_meta owner_field (slice (encode_refs refs));
  controller_uid = λ o. controller_of (owner_refs o);
  new_uid = λ n. n ∷ [];
  is_claim_resource = λ o. text_eq (api.get_kind o) (codes "Claim");
}

pub new_uid_filled : (n : ℕ) → is_empty (ownership.new_uid n) ≡ false
new_uid_filled n = refl

pub set_owner_references_lem :
    (refs : List OwnerReference) (o : Fields)
    → ownership.get_owner_references (ownership.set_owner_references refs o) ≡ refs
unfolding owner_refs text_eq
set_owner_references_lem refs o =
    rw (owner_refs, field_at-set_meta owner_field owner_field (slice (encode_refs refs)) o)
      (decode_refs-encode refs)

pub owners_kept :
    (m : GoMap Text) (o : Fields)
    → ownership.get_owner_references (api.set_labels m o) ≡ ownership.get_owner_references o
unfolding owner_refs text_eq
owners_kept m o = ap refs_of (field_at-set_meta label_field owner_field (object (encode m)) o)

abbrev object_in : Option Value → Option Fields
object_in (some (object m)) = some m
object_in _ = none

abbrev labels_in : Option Fields → Option (GoMap Text)
labels_in none = none
labels_in (some m) = some (decode m)

pub labels_kept :
    (refs : List OwnerReference) (o : Fields)
    → api.get_labels (ownership.set_owner_references refs o) ≡ api.get_labels o
unfolding meta_map map_in field_at text_eq
labels_kept refs o =
    ap (λ w. labels_in (object_in w))
      (field_at-set_meta owner_field label_field (slice (encode_refs refs)) o)
