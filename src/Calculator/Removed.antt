-- ===== src/Calculator/Removed.antt =====
-- CalculateRemovedResourceDiffs of diff_calculator.go: the walk of the resource tree for the
-- resources that were not rendered.
pub mod Exact
use crossplane_diff.Prelude.{
  Bool, true, false, not, ◌&&◌, Option, none, some, List, [], ◌∷◌, if◌then◌else◌,
}
use crossplane_diff.Text.{Text, codes}
use crossplane_diff.GoMap.{GoMap, lookup, has_key, insert}
use crossplane_diff.Objects.{Fields}
use crossplane_diff.Objects.Api.{Api}
use crossplane_diff.Types.Key.{ResourceDiff, make_diff_key_from_resource, get_diff_key}
use crossplane_diff.Result.{Result, ok, err, panic, ◌>>=◌, wrapping}
use crossplane_diff.Formatter.Lines.{DiffOptions}
use crossplane_diff.Compare.Generate.{Comparer, generate_diff}
use crossplane_diff.Calculator.Single.{
  Node, node, Nodes, leaf, branch, Clients, resource_name_annotation,
}

-- renderedResources[key]
unfoldable pub is_rendered : GoMap Bool → Text → Bool
is_rendered rendered key = elim (lookup key rendered) [ none ↦ false | some b ↦ b ]

-- _, hasAnno := annotations["crossplane.io/composition-resource-name"]
unfoldable pub has_resource_name : Option (GoMap Text) → Bool
has_resource_name none = false
has_resource_name (some annotations) = has_key resource_name_annotation annotations

module _ (xr_synthesis_suffix : Text) (api : Api) (lib : Comparer) (diff_options : DiffOptions)
    (rendered : GoMap Bool) where
  -- Is the object of a node one that will be removed?
  unfoldable pub is_gone : Fields → Bool
  is_gone o =
      has_resource_name (api.get_annotations o)
      && not (is_rendered rendered (make_diff_key_from_resource api o))

  -- findRemovedResources up to the children: the diffs so far, and whether the walk goes on below
  -- the node; a diff that fails returns before the children.
  unfoldable pub visit : Fields → GoMap ResourceDiff → Result (GoMap ResourceDiff × Bool)
  visit o removed =
      if is_gone o
      then elim (generate_diff xr_synthesis_suffix api lib (some o) none diff_options) [
        | ok diff ↦ ok (insert (get_diff_key api diff) diff removed, true)
        | err e ↦ ok (removed, false)
        | panic ↦ panic
      ]
      else ok (removed, true)

  -- findRemovedResources, and its loop over children.
  unfoldable mutual
    pub find_removed_resources : Node → GoMap ResourceDiff → Result (GoMap ResourceDiff)
    find_removed_resources (node o children) removed =
        visit o removed >>= (λ r. if r.1 then find_below children r.0 else ok r.0)

    pub find_below : Nodes → GoMap ResourceDiff → Result (GoMap ResourceDiff)
    find_below leaf removed = ok removed
    find_below (branch child children) removed =
        find_removed_resources child removed >>= (λ r. find_below children r)

-- The walk starts below the root, which is the XR itself.
abbrev pub children_of : Node → Nodes
children_of (node o children) = children

module _ (xr_synthesis_suffix : Text) (api : Api) (lib : Comparer) (clients : Clients)
    (diff_options : DiffOptions) where
  -- CalculateRemovedResourceDiffs
  unfoldable pub calculate_removed_resource_diffs :
      Fields → GoMap Bool → Result (GoMap ResourceDiff)
  calculate_removed_resource_diffs xr rendered = do
    tree ← wrapping (codes "cannot get resource tree") (clients.get_resource_tree xr)
    find_below xr_synthesis_suffix api lib diff_options rendered (children_of tree) []
