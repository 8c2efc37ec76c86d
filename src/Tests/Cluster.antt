-- ===== src/Tests/Cluster.antt =====
-- A concrete apimachinery, and concrete comparisons, for the tests: the nested-field helpers on
-- the objects of Objects.antt, with the proof that they behave as documented.
use crossplane_diff.Prelude.{
  ◌≡◌, refl, ap, Bool, true, false, ◌&&◌, Option, none, some, List, [], ◌∷◌, ◌++◌, arith,
  Bool-cases, inl, inr, if◌then◌else◌,
}
use crossplane_diff.Text.{Text, codes, text_eq, text_eq_iff, text_eq_self, is_empty, cut}
use crossplane_diff.GoMap.{GoMap}
use crossplane_diff.Objects.{
  Value, null, bool, number, string, slice, object, Items, Fields, get, put, remove, get-put,
}
use crossplane_diff.Objects.Api.{Gvk, Api, NestedLaws}
use crossplane_diff.Types.Key.{LineDiff, diff_insert}
use crossplane_diff.Result.{ok}
use crossplane_diff.Compare.Generate.{Comparer}
use crossplane_diff.Compare.Generate.Total.{ComparerLaws}

unfoldable pub field_at : Fields → List Text → Option Value
field_at o [] = none
field_at o (k ∷ []) = get k o
field_at o (k ∷ j ∷ p) = elim (get k o) [ some (object m) ↦ field_at m (j ∷ p) | _ ↦ none ]

unfoldable pub delete_in : Fields → List Text → Text → Fields
delete_in o [] key = o
delete_in o (k ∷ []) key = elim (get k o) [
  | some (object m) ↦ put k (object (remove key m)) o
  | _ ↦ o
]
delete_in o (k ∷ j ∷ p) key = elim (get k o) [
  | some (object m) ↦ put k (object (delete_in m (j ∷ p) key)) o
  | _ ↦ o
]

unfoldable pub remove_in : Fields → List Text → Fields
remove_in o [] = o
remove_in o (k ∷ []) = remove k o
remove_in o (k ∷ j ∷ p) = elim (get k o) [
  | some (object m) ↦ put k (object (remove_in m (j ∷ p))) o
  | _ ↦ o
]

unfoldable pub map_in : Fields → List Text → Option Fields
unfolding field_at
map_in o p = elim (field_at o p) [ some (object m) ↦ some m | _ ↦ none ]

unfoldable pub string_in : Fields → List Text → Option Text
unfolding field_at
string_in o p = elim (field_at o p) [ some (string s) ↦ some s | _ ↦ none ]

unfoldable pub set_in : Fields → Fields → List Text → Fields
set_in o m [] = o
set_in o m (k ∷ []) = put k (object m) o
set_in o m (k ∷ j ∷ p) = elim (get k o) [
  | some (object n) ↦ put k (object (set_in n m (j ∷ p))) o
  | none ↦ put k (object (set_in Fields.end m (j ∷ p))) o
  | _ ↦ o
]

unfoldable pub encode : GoMap Text → Fields
encode [] = Fields.end
encode ((k, v) ∷ m) = Fields.entry k (string v) (encode m)

unfoldable pub decode : Fields → GoMap Text
decode Fields.end = []
decode (Fields.entry k (string v) m) = (k, v) ∷ decode m
decode (Fields.entry k _ m) = decode m

decode-encode : (m : GoMap Text) → decode (encode m) ≡ m
unfolding decode encode
decode-encode [] = refl
decode-encode ((k, v) ∷ m) = ap (λ t. (k, v) ∷ t) (decode-encode m)

abbrev pub meta : Text
meta = codes "metadata"

abbrev pub label_field : Text
label_field = codes "labels"

abbrev text_or_empty : Option Text → Text
text_or_empty none = []
text_or_empty (some t) = t

abbrev pub map_or_empty : Option Fields → Fields
map_or_empty none = Fields.end
map_or_empty (some m) = m

unfoldable pub meta_text : Text → Fields → Text
unfolding string_in
meta_text k o = text_or_empty (string_in o (meta ∷ k ∷ []))

unfoldable pub meta_map : Text → Fields → Option (GoMap Text)
unfolding decode map_in
meta_map k o = elim (map_in o (meta ∷ k ∷ [])) [ none ↦ none | some m ↦ some (decode m) ]

unfoldable pub set_meta : Text → Value → Fields → Fields
unfolding map_in
set_meta k v o = put meta (object (put k v (map_or_empty (map_in o (meta ∷ []))))) o

unfoldable pub gvk_of : Fields → Gvk
unfolding string_in
gvk_of o =
    let kind = text_or_empty (string_in o (codes "kind" ∷ [])) in
    let version = text_or_empty (string_in o (codes "apiVersion" ∷ [])) in
    elim (cut version (codes "/")) [
      | none ↦ record { group = []; version = version; kind = kind }
      | some (g, v) ↦ record { group = g; version = v; kind = kind }
    ]

unfoldable pub gv_text : Gvk → Text
gv_text gvk = if is_empty gvk.group then gvk.version else gvk.group ++ (b'/' ∷ gvk.version)

abbrev pub api : Api
api = record {
  get_api_version = λ o. text_or_empty (string_in o (codes "apiVersion" ∷ []));
  get_kind = λ o. text_or_empty (string_in o (codes "kind" ∷ []));
  get_name = meta_text (codes "name");
  get_generate_name = meta_text (codes "generateName");
  get_namespace = meta_text (codes "namespace");
  get_labels = meta_map label_field;
  get_annotations = meta_map (codes "annotations");
  set_name = λ t. set_meta (codes "name") (string t);
  set_generate_name = λ t. set_meta (codes "generateName") (string t);
  set_labels = λ m. set_meta label_field (object (encode m));
  group_version_kind = gvk_of;
  group_version = gv_text;
  nested_field = field_at;
  delete_at = delete_in;
  remove_nested_field = remove_in;
  nested_map = map_in;
  nested_string = string_in;
  set_nested_map = set_in;
}

pub set_labels_lem : (m : GoMap Text) (o : Fields) → api.get_labels (api.set_labels m o) ≡ some m
unfolding meta_map set_meta map_in field_at
set_labels_lem m o =
    let old = map_or_empty (map_in o (meta ∷ [])) in
    let labels = object (encode m) in
    rw (
      meta_map,
      set_meta,
      map_in,
      field_at,
      get-put meta meta (object (put label_field labels old)) o,
      text_eq_self meta,
      map_in,
      field_at,
      get-put label_field label_field labels old,
      text_eq_self label_field,
      decode-encode m,
    )

through :
    (o : Fields) (k j : Text) (p : List Text) {v : Value} (w : Option Value)
    → get k o ≡ w
    → field_at o (k ∷ j ∷ p) ≡ some v
    → (m : Fields) × (w ≡ some (object m))
unfolding field_at
through o k j p (some (object m)) e h = (m, refl)
through o k j p none e h = absurd (ground (arith, e))
through o k j p (some null) e h = absurd (ground (arith, e))
through o k j p (some (bool b)) e h = absurd (ground (arith, e))
through o k j p (some (number b)) e h = absurd (ground (arith, e))
through o k j p (some (string b)) e h = absurd (ground (arith, e))
through o k j p (some (slice b)) e h = absurd (ground (arith, e))

map_in-object :
    (o : Fields) (p : List Text) (w : Option Value)
    → field_at o p ≡ w
    → (m : Fields) → map_in o p ≡ some m
    → w ≡ some (object m)
unfolding map_in
map_in-object o p (some (object n)) e m h = ground (arith, e)
map_in-object o p none e m h = absurd (ground (arith, e))
map_in-object o p (some null) e m h = absurd (ground (arith, e))
map_in-object o p (some (bool b)) e m h = absurd (ground (arith, e))
map_in-object o p (some (number b)) e m h = absurd (ground (arith, e))
map_in-object o p (some (string b)) e m h = absurd (ground (arith, e))
map_in-object o p (some (slice b)) e m h = absurd (ground (arith, e))

pub nested_laws : NestedLaws api
unfolding field_at delete_in remove_in set_in map_in
nested_laws = record {
  field_here = λ o k. refl;
  field_below = λ o m k j p e. rw (e, field_at);
  field_through = λ o k j p h. through o k j p (get k o) refl h;
  delete_here = λ o m k key e. rw (e, delete_in);
  delete_below = λ o m k j key p e. rw (e, delete_in);
  remove_here = λ o k. refl;
  remove_below = λ o m k j p e. rw (e, remove_in);
  map_found = λ o m p e. rw (e, map_in);
  map_field = λ o m p h. map_in-object o p (field_at o p) refl m h;
  set_here = λ o m k. refl;
  set_below = λ o n m k j p e. rw (e, set_in);
}

-- Structural equality, a text for each object, and a line diff of one piece.
unfoldable mutual
  pub value_eq : Value → Value → Bool
  value_eq null null = true
  value_eq (bool true) (bool true) = true
  value_eq (bool false) (bool false) = true
  value_eq (number s) (number t) = text_eq s t
  value_eq (string s) (string t) = text_eq s t
  value_eq (slice xs) (slice ys) = items_eq xs ys
  value_eq (object m) (object n) = fields_eq m n
  value_eq _ _ = false

  pub items_eq : Items → Items → Bool
  items_eq Items.nil Items.nil = true
  items_eq (Items.cons x xs) (Items.cons y ys) = value_eq x y && items_eq xs ys
  items_eq _ _ = false

  pub fields_eq : Fields → Fields → Bool
  fields_eq Fields.end Fields.end = true
  fields_eq (Fields.entry k v m) (Fields.entry j w n) =
      text_eq k j && (value_eq v w && fields_eq m n)
  fields_eq _ _ = false

mutual
  unfolding value_eq

  value_eq_self : (v : Value) → value_eq v v ≡ true
  value_eq_self null = refl
  value_eq_self (bool true) = refl
  value_eq_self (bool false) = refl
  value_eq_self (number s) = text_eq_self s
  value_eq_self (string s) = text_eq_self s
  value_eq_self (slice xs) = items_eq_self xs
  value_eq_self (object m) = fields_eq_self m

  items_eq_self : (v : Items) → items_eq v v ≡ true
  items_eq_self Items.nil = refl
  items_eq_self (Items.cons x xs) = rw (value_eq_self x) (items_eq_self xs)

  fields_eq_self : (v : Fields) → fields_eq v v ≡ true
  fields_eq_self Fields.end = refl
  fields_eq_self (Fields.entry k v m) = rw (text_eq_self k, value_eq_self v) (fields_eq_self m)

unfoldable mutual
  pub value_text : Value → Text
  value_text null = codes "null"
  value_text (bool true) = codes "true"
  value_text (bool false) = codes "false"
  value_text (number s) = s
  value_text (string s) = s
  value_text (slice xs) = items_text xs
  value_text (object m) = fields_text m

  pub items_text : Items → Text
  items_text Items.nil = codes "]"
  items_text (Items.cons x xs) = value_text x ++ (b',' ∷ items_text xs)

  pub fields_text : Fields → Text
  fields_text Fields.end = codes "}"
  fields_text (Fields.entry k v m) = b'"' ∷ (k ++ (b':' ∷ (value_text v ++ fields_text m)))

unfoldable pub one_piece : Text → Text → List LineDiff
one_piece s t = if text_eq s t then [] else record { type = diff_insert; text = t } ∷ []

abbrev pub lib : Comparer
lib = record {
  semantic_equal = fields_eq;
  marshal = λ o. ok (fields_text o);
  line_diff = one_piece;
}

some_text : (o : Fields) → (fields_text o ≡ []) → ⊥
unfolding fields_text
some_text Fields.end h = absurd (ground arith)
some_text (Fields.entry k v m) h = absurd (ground arith)

one_piece-differs : (s t : Text) → one_piece s t ≡ [] → s ≡ t
unfolding one_piece
one_piece-differs s t h = elim (Bool-cases (text_eq s t)) [
  | inl e ↦ (text_eq_iff s t).0 e
  | inr e ↦ absurd (ground (arith, e))
]

pub comparer_laws : ComparerLaws lib
comparer_laws = record {
  equal_self = fields_eq_self;
  marshal_text = λ o. (fields_text o, refl, some_text o);
  differs = one_piece-differs;
}
