-- ===== src/Manager/Observed.antt =====
-- FetchObservedResources of resource_manager.go: the composed resources in an XR's tree.
pub mod Exact
use crossplane_diff.Prelude.{
  Bool, true, ◌&&◌, ◌||◌, Option, none, some, List, [], ◌∷◌, ◌++◌, if◌then◌else◌,
}
use crossplane_diff.Text.{Text, codes, text_eq, is_empty}
use crossplane_diff.Objects.{Fields}
use crossplane_diff.Objects.Api.{Api}
use crossplane_diff.Result.{Result, ok, ◌>>=◌, wrapping}
use crossplane_diff.Calculator.Single.{Node, node, Nodes, leaf, branch, Clients}
use crossplane_diff.Calculator.Removed.{has_resource_name, children_of}
use crossplane_diff.Manager.Owners.{Ownership}

-- c == nil || xrUID == "" || c.UID == xrUID
unfoldable pub is_controlled : Text → Option Text → Bool
is_controlled xr_uid none = true
is_controlled xr_uid (some uid) = is_empty xr_uid || text_eq uid xr_uid

module _ (api : Api) (own : Ownership) where
  -- Is the resource of a node collected?
  unfoldable pub is_observed : Text → Fields → Bool
  is_observed xr_uid o =
      has_resource_name (api.get_annotations o) && is_controlled xr_uid (own.controller_uid o)

  -- collectResources, and its loop over children: what is appended to the resources so far.
  unfoldable mutual
    pub collect_resources : Text → Node → List Fields → List Fields
    collect_resources xr_uid (node o children) resources =
        collect_below xr_uid children
          (if is_observed xr_uid o then resources ++ (o ∷ []) else resources)

    pub collect_below : Text → Nodes → List Fields → List Fields
    collect_below xr_uid leaf resources = resources
    collect_below xr_uid (branch child children) resources =
        collect_below xr_uid children (collect_resources xr_uid child resources)

  -- extractComposedResourcesFromTree
  unfoldable pub extract_composed_resources_from_tree : Node → Text → List Fields
  extract_composed_resources_from_tree tree xr_uid = collect_below xr_uid (children_of tree) []

  -- FetchObservedResources
  unfoldable pub fetch_observed_resources : Clients → Fields → Result (List Fields)
  fetch_observed_resources clients xr = do
    tree ← wrapping (codes "cannot get resource tree") (clients.get_resource_tree xr)
    ok (extract_composed_resources_from_tree tree (own.get_uid xr))
