-- ===== src/Tests/Selection.antt =====
-- Tests of the composition clients (cmd/diff/client/crossplane), on a cluster with one composition.
use crossplane_diff.Selection.Discover.{or_claim}
use crossplane_diff.Selection.Discover.{if_it_uses}
use crossplane_diff.Selection.Discover.{try_lookup_at_gvk}
use crossplane_diff.Selection.Discover.{lookup_ref}
use crossplane_diff.Text.{join_with}
use crossplane_diff.Text.{cut_prefix}
use crossplane_diff.Text.{contains}
use crossplane_diff.Selection.Selector.{xr_revision_selector}
use crossplane_diff.Selection.Selector.{xr_revision_label_selector}
use crossplane_diff.Selection.Selector.{selector_under_policy}
use crossplane_diff.Selection.Selector.{parsed_selector}
use crossplane_diff.Selection.Revisions.{revisions_for_composition}
use crossplane_diff.Selection.Revisions.{load_revisions}
use crossplane_diff.Selection.Revisions.{list_composition_revisions_for_composition}
use crossplane_diff.Selection.Revisions.{get_latest_revision_for_composition}
use crossplane_diff.Selection.Revisions.{get_composition_revision}
use crossplane_diff.Selection.Revisions.{get_composition_from_revision}
use crossplane_diff.Selection.Revisions.{fetch_revision}
use crossplane_diff.Selection.Revisions.{converted}
use crossplane_diff.Selection.Revisions.{cache_by_name}
use crossplane_diff.Selection.Paths.{xr_update_policy}
use crossplane_diff.Selection.Paths.{nested_crossplane_map}
use crossplane_diff.Selection.Match.{select_by_labels}
use crossplane_diff.Selection.Match.{only_its_error}
use crossplane_diff.Selection.Match.{list_compositions}
use crossplane_diff.Selection.Match.{labels_match}
use crossplane_diff.Selection.Match.{is_unpublished}
use crossplane_diff.Selection.Match.{get_composition}
use crossplane_diff.Selection.Match.{find_by_label_selector}
use crossplane_diff.Selection.Match.{fetch_composition}
use crossplane_diff.Selection.Find.{resolve_unpinned}
use crossplane_diff.Selection.Find.{resolve_pinned}
use crossplane_diff.Selection.Find.{resolve_automatic}
use crossplane_diff.Selection.Find.{pinned}
use crossplane_diff.Selection.Find.{or_else_find}
use crossplane_diff.Selection.Find.{or_direct}
use crossplane_diff.Selection.Find.{from_revision_or_direct}
use crossplane_diff.Selection.Find.{direct_composition}
use crossplane_diff.Selection.Find.{checked}
use crossplane_diff.Selection.Find.{by_policy}
use crossplane_diff.Selection.Find.{belongs_elsewhere}
use crossplane_diff.Selection.Definitions.{xr_type}
use crossplane_diff.Selection.Definitions.{with_version}
use crossplane_diff.Selection.Definitions.{referenceable_version}
use crossplane_diff.Selection.Definitions.{get_xr_type_from_xrd}
use crossplane_diff.GoMap.{insert}
use crossplane_diff.Errors.Tree.{error_text}
use crossplane_diff.Calculator.Single.{text_at}
use crossplane_diff.Selection.Paths.{first_found}
use crossplane_diff.Selection.Paths.{nested_crossplane_value}
use crossplane_diff.Selection.Paths.{nested_crossplane_string}
use crossplane_diff.Selection.Find.{get_composition_revision_ref}
use crossplane_diff.Selection.Find.{resolve_composition_from_revisions}
use crossplane_diff.Selection.Match.{first_name}
use crossplane_diff.Selection.Find.{find_by_name}
use crossplane_diff.Selection.Find.{find_by_direct_reference}
use crossplane_diff.Selection.Find.{find_for}
use crossplane_diff.Text.{cut}
use crossplane_diff.Prelude.{
  ◌≡◌, refl, ◌↔◌, Bool, true, false, ◌&&◌, Option, none, some, [], ◌∷◌, keep,
}
use crossplane_diff.Text.{Text, codes, text_eq}
use crossplane_diff.GoMap.{GoMap, lookup}
use crossplane_diff.Objects.{Value, null, string, object, Fields, get}
use crossplane_diff.Objects.Fields.{entry, end}
use crossplane_diff.Objects.Api.{Gvk}
use crossplane_diff.Errors.Tree.{leaf}
use crossplane_diff.Result.{Result, ok, err}
use crossplane_diff.Selection.Paths.{
  Accessors, get_crossplane_ref_paths, any_path_names, resource_uses_composition,
}
use crossplane_diff.Selection.Selector.{Labels}
use crossplane_diff.Selection.State.{Composition, CompositionRevision, ClientState, ClusterReads}
use crossplane_diff.Selection.Revisions.{
  latest_of, first_of_sorted, by_number, insert_by_number, selected,
}
use crossplane_diff.Selection.Revisions.Latest.{at_least, latest_of_unique}
use crossplane_diff.Selection.Match.{
  cached_values, find_by_type_reference, choose_by_labels, is_composition_compatible, fits,
  string_labels, list_when_empty, only_one,
}
use crossplane_diff.Selection.Match.Exact.{choices-exact}
use crossplane_diff.Selection.Find.{DefinitionClient, target_of, find_matching_composition}
use crossplane_diff.Selection.Find.Compatible.{find_matching_composition-IsFor}
use crossplane_diff.Selection.Discover.{Machinery, lookup_refs}
use crossplane_diff.Selection.Discover.Resolved.{Resolved, lookup_refs-Resolved}
use crossplane_diff.Tests.Cluster.{api, field_at, string_in, gvk_of, gv_text}

unfoldable pub as_string_at : Option Value → Result (Option Text)
as_string_at none = ok none
as_string_at (some (string s)) = ok (some s)
as_string_at (some _) = err (leaf (codes "not a string"))

unfoldable pub as_map_at : Option Value → Result (Option Fields)
as_map_at none = ok none
as_map_at (some (object m)) = ok (some m)
as_map_at (some _) = err (leaf (codes "not a map"))

abbrev pub at : Accessors
at = record {
  string_at = λ o p. as_string_at (field_at o p);
  map_at = λ o p. as_map_at (field_at o p);
  slice_at = λ o p. none;
  bool_at = λ o p. none;
}

-- A selector of labels that must all be there.
unfoldable pub has_all : GoMap Text → GoMap Text → Bool
has_all [] labels = true
has_all ((k, v) ∷ sel) labels =
    elim (lookup k labels) [ none ↦ false | some w ↦ text_eq v w ] && has_all sel labels

abbrev pub labels : Labels Text (GoMap Text)
labels = record {
  everything = [];
  matches = has_all;
  selector_string = λ s. [];
  set_string = λ s. [];
  as_selector = λ s. ok s.match_labels;
  label_selector_from = λ m. err (leaf (codes "no selector"));
}

abbrev bucket_gvk : Gvk
bucket_gvk = record { group = codes "g"; version = codes "v1"; kind = codes "XBucket" }

abbrev pub composition : Composition
composition = record {
  name = codes "comp";
  labels = none;
  spec = record {
    composite_type_ref = record { api_version = codes "g/v1"; kind = codes "XBucket" };
    mode = null;
    pipeline = null;
    write_connection_secrets_to_namespace = null;
  };
}

abbrev pub bucket : Fields
bucket = entry (codes "apiVersion") (string (codes "g/v1")) (
    entry (codes "kind") (string (codes "XBucket")) (
      entry (codes "metadata") (object (entry (codes "name") (string (codes "b")) end)) (
        entry (codes "spec")
          (object (
            entry (codes "compositionRef")
              (object (entry (codes "name") (string (codes "comp")) end)) end))
          end)))

abbrev pub cluster : ClusterReads
cluster = record {
  get_resource = λ gvk ns name.
      elim (text_eq gvk.kind (codes "XBucket") && text_eq name (codes "b")) [
        | true ↦ ok bucket
        | false ↦ err (leaf (codes "not found"))
      ];
  list_resources = λ gvk ns. ok (bucket ∷ []);
  get_resources_by_label = λ gvk ns l. ok [];
  to_composition = λ o. ok composition;
  to_revision = λ o. err (leaf (codes "no revision"));
  gvk_string = λ gvk. gvk.kind;
  decimal = λ n. [];
  labels_text = λ m. [];
}

abbrev cached : ClientState
cached = record {
  compositions = (codes "comp", composition) ∷ [];
  revisions = [];
  revisions_by_composition = [];
}

abbrev definitions : DefinitionClient
definitions = record {
  get_xrd_for_claim = λ gvk. err (leaf (codes "no claim"));
  get_xrd_for_xr = λ gvk. ok end;
}

abbrev machinery : Machinery
machinery = record {
  is_not_found = λ e. true;
  parse_group_version = λ v. ok (codes "g", codes "v1");
}

abbrev numbered : Text → CompositionRevision
numbered t = record { name = t; labels = none; revision = 7; spec = composition.spec }

latest_of_unique_example :
    (latest_of labels cluster.decimal (codes "comp") [] (numbered (codes "r") ∷ [])
      ≡ ok (numbered (codes "r")))
    ↔ (keep
          (at_least (numbered (codes "r")).revision)
          (keep (selected labels cluster.decimal []) (numbered (codes "r") ∷ []))
        ≡ numbered (codes "r") ∷ [])
latest_of_unique_example =
    latest_of_unique labels cluster.decimal (codes "comp") [] (numbered (codes "r") ∷ [])
      (numbered (codes "r"))

-- Two revisions of the highest number are an error.
same_number :
    latest_of labels cluster.decimal [] [] (numbered (codes "r") ∷ numbered (codes "s") ∷ [])
    ≡ first_of_sorted labels cluster.decimal [] []
        (numbered (codes "r") ∷ numbered (codes "s") ∷ [])
unfolding latest_of by_number insert_by_number has_all
same_number = refl

choices-exact_example :
    (((find_by_type_reference api at cluster bucket_gvk cached).1 ≡ ok composition) ↔ (
      keep (is_composition_compatible api bucket_gvk) (cached_values cached.compositions)
      ≡ composition ∷ []))
    × (((choose_by_labels api at cluster [] bucket_gvk end cached).1 ≡ ok composition) ↔ (
        keep
          (fits api at cluster bucket_gvk (string_labels end))
          (cached_values cached.compositions)
        ≡ composition ∷ []))
choices-exact_example = choices-exact api at cluster bucket_gvk cached composition [] end

find_matching_composition-IsFor_example :
    is_composition_compatible api bucket_gvk composition ≡ true
unfolding target_of gvk_of cut get text_eq find_matching_composition find_for
    find_by_direct_reference find_by_name first_name get_crossplane_ref_paths
    resolve_composition_from_revisions get_composition_revision_ref nested_crossplane_string
    nested_crossplane_value first_found as_string_at text_at error_text insert lookup
    get_xr_type_from_xrd referenceable_version with_version xr_type belongs_elsewhere by_policy
    checked direct_composition from_revision_or_direct or_direct or_else_find pinned
    resolve_automatic resolve_pinned resolve_unpinned choose_by_labels fetch_composition
    find_by_label_selector find_by_type_reference fits get_composition is_composition_compatible
    is_unpublished labels_match list_compositions list_when_empty only_its_error only_one
    select_by_labels string_labels nested_crossplane_map xr_update_policy by_number cache_by_name
    converted fetch_revision first_of_sorted get_composition_from_revision get_composition_revision
    get_latest_revision_for_composition insert_by_number latest_of
    list_composition_revisions_for_composition load_revisions revisions_for_composition
    parsed_selector selector_under_policy xr_revision_label_selector xr_revision_selector field_at
    string_in contains cut_prefix join_with as_map_at gv_text
find_matching_composition-IsFor_example =
    find_matching_composition-IsFor labels api at cluster definitions bucket end bucket_gvk refl
      cached composition refl

lookup_refs-Resolved_example :
    Resolved api at cluster machinery definitions
      (codes "comp")
      (record { xr_gvk = bucket_gvk; claim_gvk = none })
      (record { namespace = []; name = codes "b" } ∷ [])
      (bucket ∷ [])
unfolding lookup_refs lookup_ref try_lookup_at_gvk if_it_uses text_eq resource_uses_composition
    any_path_names get_crossplane_ref_paths string_in get or_claim
lookup_refs-Resolved_example =
    lookup_refs-Resolved api at cluster machinery definitions (codes "comp") bucket_gvk none
      (record { namespace = []; name = codes "b" } ∷ []) (bucket ∷ []) refl
