-- ===== src/Tests/Calculator.antt =====
-- Tests of the diff calculator (cmd/diff/diffprocessor/diff_calculator.go).
use crossplane_diff.Prelude.{◌≡◌, refl, sym, subst, inl, inr, none, some, [], ◌∷◌, any, arith}
use crossplane_diff.Text.{Text, codes, text_eq, cut}
use crossplane_diff.GoMap.{GoMap, lookup}
use crossplane_diff.Objects.{object, string, Fields, get}
use crossplane_diff.Objects.Fields.{entry, end}
use crossplane_diff.Types.Key.{ResourceDiff}
use crossplane_diff.Result.{Result, ok}
use crossplane_diff.Compare.Generate.{
  Comparer, generate_diff, text_diff, as_string, clean_of, from_texts, described,
}
use crossplane_diff.Compare.Generate.Total.{ComparerLaws}
use crossplane_diff.Formatter.Lines.{default_diff_options}
use crossplane_diff.Calculator.Single.{
  text_at, calculate_diff, would_be_result, Clients, node, Nodes, leaf, branch,
}
use crossplane_diff.Calculator.Single.Returned.{IsReturning}
use crossplane_diff.Calculator.Removed.{find_below}
use crossplane_diff.Calculator.Removed.Exact.{InNodes, InNode, IsKeyed, IsExact, find_below-IsExact}
use crossplane_diff.Calculator.Composed.{
  composite_of, desired_xr, is_nameless, record_diff, CompositionOutputs, Progress,
  calculate_composed, calculate_non_removal_diffs, calculate_diffs,
}
use crossplane_diff.Calculator.Composed.Kept.{
  IsStep, failures, renders, changes, calculate_composed-exact,
}
use crossplane_diff.Calculator.Merge.{IsMerged, calculate_diffs-IsMerged}
use crossplane_diff.Tests.Cluster.{
  api, lib, comparer_laws, gvk_of, gv_text, string_in, field_at, one_piece, meta_map, meta_text,
  map_in, decode,
}

abbrev pub suffix : Text
suffix = codes "1a2b3c4d5e6f"

abbrev pub resource : Text → Text → Fields
resource kind name = entry (codes "apiVersion") (string (codes "s3/v1")) (
    entry (codes "kind") (string kind) (
      entry (codes "metadata")
        (object (
          entry (codes "name") (string name) (
            entry (codes "annotations")
              (object (entry (codes "crossplane.io/composition-resource-name") (string name) end))
              end)))
        end))

abbrev pub old_bucket : Fields
old_bucket = resource (codes "Bucket") (codes "old")

abbrev pub new_bucket : Fields
new_bucket = resource (codes "Bucket") (codes "new")

-- An XR, which has no composition-resource-name.
abbrev pub xr : Fields
xr = entry (codes "apiVersion") (string (codes "acme/v1")) (
    entry (codes "kind") (string (codes "Store"))
      (entry (codes "metadata") (object (entry (codes "name") (string (codes "shop")) end)) end))

abbrev pub tree : Nodes
tree = branch (node old_bucket leaf) leaf

-- A cluster that has nothing but the tree, and applies an object as it is.
abbrev pub clients : Clients
clients = record {
  fetch_current_object = λ c o. ok none;
  update_owner_refs = λ c o. o;
  managers = λ o. [];
  dry_run_apply = λ o m. ok o;
  get_resource_tree = λ o. ok (node xr tree);
}

abbrev returning : IsReturning clients
returning = record { fetch = λ c o. tt; apply = λ o m. tt }

bucket-IsKeyed : IsKeyed api old_bucket
unfolding gvk_of gv_text string_in field_at get text_eq cut
bucket-IsKeyed = (refl, refl)

pub tree-IsKeyed : (o : Fields) → InNodes o tree → IsKeyed api o
unfolding InNode
tree-IsKeyed o (inl (inl e)) = subst (IsKeyed api) (sym e) bucket-IsKeyed
tree-IsKeyed o (inl (inr below)) = absurd below
tree-IsKeyed o (inr later) = absurd later

find_below-IsExact_example :
    IsExact suffix api lib comparer_laws default_diff_options [] tree
      (find_below suffix api lib default_diff_options [] tree [])
find_below-IsExact_example =
    find_below-IsExact suffix api lib comparer_laws default_diff_options [] tree tree-IsKeyed

abbrev pub nothing : Progress
nothing = record { diffs = []; rendered = []; errs = [] }

calculate_composed-exact_example :
    IsStep api nothing
      (failures suffix api lib clients default_diff_options none (new_bucket ∷ []))
      (λ k. any (renders suffix api lib clients default_diff_options none k) (new_bucket ∷ []))
      (λ k. any (changes suffix api lib clients default_diff_options none k) (new_bucket ∷ []))
      (calculate_composed suffix api lib clients default_diff_options none
        (new_bucket ∷ [])
        nothing)
calculate_composed-exact_example =
    calculate_composed-exact suffix api lib clients default_diff_options none comparer_laws
      returning (new_bucket ∷ []) nothing

abbrev pub outputs : CompositionOutputs
outputs = record { composite_resource = some xr; composed_resources = new_bucket ∷ [] }

-- A marshaller that writes one text for every object.
abbrev pub flat_lib : Comparer
flat_lib = record {
  semantic_equal = lib.semantic_equal;
  marshal = λ o. ok (codes "{}");
  line_diff = lib.line_diff;
}

abbrev flat_laws : ComparerLaws flat_lib
flat_laws = record {
  equal_self = comparer_laws.equal_self;
  marshal_text = λ o. (codes "{}", refl, λ h. absurd (ground (arith, h)));
  differs = comparer_laws.differs;
}

abbrev pub or_nothing : Result Progress → Progress
or_nothing (ok p) = p
or_nothing _ = nothing

abbrev pub calculated : Progress
calculated =
    or_nothing
      (calculate_non_removal_diffs suffix api flat_lib clients default_diff_options xr none outputs)

calculate_diffs-IsMerged_example :
    (m : GoMap ResourceDiff) × (calculate_diffs suffix api flat_lib clients default_diff_options xr
        outputs
      ≡ ok m)
    × IsMerged suffix api flat_lib flat_laws default_diff_options calculated.rendered tree
        calculated.diffs m
unfolding calculate_non_removal_diffs calculate_diff would_be_result generate_diff text_diff
    as_string clean_of from_texts described one_piece text_eq calculate_composed composite_of
    desired_xr is_nameless record_diff text_at meta_map meta_text map_in string_in field_at get
    decode lookup
calculate_diffs-IsMerged_example =
    calculate_diffs-IsMerged suffix api flat_lib flat_laws clients default_diff_options xr xr
      outputs calculated tree refl refl refl tree-IsKeyed
