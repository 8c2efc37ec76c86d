-- ===== src/Selection/Find.antt =====
-- FindMatchingComposition of client/crossplane/composition_client.go: the composition that a
-- resource names, by a revision of it, selects by labels, or is the only one for.
pub mod Compatible
use crossplane_diff.Prelude.{
  ℕ, Bool, true, false, not, ◌&&◌, Option, none, some, List, [], ◌∷◌, ◌++◌, if◌then◌else◌,
}
use crossplane_diff.Text.{Text, codes, text_eq, is_empty}
use crossplane_diff.GoMap.{GoMap}
use crossplane_diff.Objects.{Fields}
use crossplane_diff.Objects.Api.{Api, Gvk}
use crossplane_diff.Errors.Tree.{GoError, leaf, wrap}
use crossplane_diff.Result.{Result, ok, err, panic, wrapping}
use crossplane_diff.Calculator.Single.{text_at}
use crossplane_diff.Selection.Paths.{
  Accessors, update_policy_automatic, get_crossplane_ref_paths, nested_crossplane_string,
  xr_update_policy,
}
use crossplane_diff.Selection.Selector.{Labels, xr_revision_label_selector}
use crossplane_diff.Selection.State.{
  Composition, CompositionRevision, ClientState, Stateful, lift, ◌>>=◌, wrapping_run, ClusterReads,
}
use crossplane_diff.Selection.Definitions.{get_xr_type_from_xrd}
use crossplane_diff.Selection.Revisions.{
  label_composition_name, get_composition_revision, get_latest_revision_for_composition,
  get_composition_from_revision,
}
use crossplane_diff.Selection.Match.{
  update_policy_manual, get_composition, is_unpublished, is_composition_compatible, first_name,
  find_by_label_selector, find_by_type_reference,
}

-- DefinitionClient, the interface's operations that are used here: an XRD, or an error.
pub record DefinitionClient : Type 0 where
  pub get_xrd_for_claim : Gvk → Result Fields
  pub get_xrd_for_xr : Gvk → Result Fields

-- What is done with the outcome of GetLatestRevisionForComposition: none is the composition itself.
unfoldable pub or_direct : Text → Stateful CompositionRevision → Stateful (Option Composition)
or_direct m latest s =
    let (s', outcome) = latest s in
    elim outcome [
      | ok rev ↦ (s', ok (some (get_composition_from_revision rev)))
      | err e ↦ if is_unpublished e then (s', ok none) else (s', err (wrap m e))
      | panic ↦ (s', panic)
    ]

-- Does a pinned revision say that it belongs to another composition?
unfoldable pub belongs_elsewhere : Text → CompositionRevision → Bool
belongs_elsewhere name rev =
    let owner = text_at label_composition_name rev.labels in
    not (is_empty owner) && not (text_eq owner name)

unfoldable pub pinned : Text → Text → Text → CompositionRevision → Result (Option Composition)
pinned name ref_name resource_id rev =
    if belongs_elsewhere name rev
    then err (
        leaf (
          codes "composition revision "
          ++ (ref_name
              ++ (codes " belongs to composition "
                  ++ (text_at label_composition_name rev.labels
                      ++ (codes ", not "
                          ++ (name ++ (codes " (resource: " ++ (resource_id ++ codes ")")))))))))
    else ok (some (get_composition_from_revision rev))

-- name, found && name != ""
abbrev pub present_name : Option Text → Option Text
present_name none = none
present_name (some name) = if is_empty name then none else some name

-- The next way of finding, if none was found.
unfoldable pub or_else_find : Option Composition → Stateful Composition → Stateful Composition
or_else_find (some comp) next = lift (ok comp)
or_else_find none next = next

module _ (api : Api) where
  -- The check of the composition's type.
  unfoldable pub checked : Text → Gvk → Composition → Result (Option Composition)
  checked m target comp =
      if is_composition_compatible api target comp then ok (some comp) else err (leaf m)

  module _ (cluster : ClusterReads) where
    -- The composition itself, whatever the error of GetComposition says.
    unfoldable pub direct_composition : Text → Text → Stateful Composition
    direct_composition name resource_id s =
        let (s', outcome) = get_composition cluster name s in
        elim outcome [
          | ok comp ↦ (s', ok comp)
          | err e ↦ (
            s',
            err (
                leaf (
                  codes "composition "
                  ++ (name ++ (codes " referenced in " ++ (resource_id ++ codes " not found"))))),
          )
          | panic ↦ (s', panic)
        ]

    unfoldable pub from_revision_or_direct :
        Text → Gvk → Text → Option Composition → Stateful (Option Composition)
    from_revision_or_direct name target resource_id (some comp) = lift (
        checked
          (codes "composition from revision is not compatible with " ++ cluster.gvk_string target)
          target comp)
    from_revision_or_direct name target resource_id none = do
      comp ← direct_composition name resource_id
      lift (
          checked
            (codes "composition "
              ++ (name ++ (codes " is not compatible with " ++ cluster.gvk_string target)))
            target comp)

module _ {Expression Selector : Type 0} (labels : Labels Expression Selector) (api : Api)
    (at : Accessors) (cluster : ClusterReads) where
  -- getCompositionRevisionRef
  unfoldable pub get_composition_revision_ref : Fields → Fields → Result (Option Text)
  get_composition_revision_ref xrd res =
      elim (nested_crossplane_string at res (api.get_api_version xrd)
        (codes "compositionRevisionRef" ∷ codes "name" ∷ [])) [
          | ok found ↦ ok (present_name found)
          | err e ↦ err e
          | panic ↦ panic
        ]

  abbrev latest_named : Text → Option Selector → Stateful CompositionRevision
  latest_named name selector =
      get_latest_revision_for_composition labels cluster.decimal cluster name selector

  -- The case of the Automatic policy.
  unfoldable pub resolve_automatic : Fields → Text → Text → Stateful (Option Composition)
  resolve_automatic res name resource_id = do
    selector ← lift (
        wrapping (codes "cannot evaluate compositionRevisionSelector for " ++ resource_id)
          (xr_revision_label_selector labels api at res))
    or_direct
        (codes "cannot resolve latest composition revision for "
          ++ (resource_id
              ++ (codes " with Automatic update policy (composition: " ++ (name ++ codes ")"))))
        (latest_named name (some selector))

  -- The Manual policy with a revision reference.
  unfoldable pub resolve_pinned : Text → Text → Text → Stateful (Option Composition)
  resolve_pinned ref_name name resource_id = do
    rev ←
        wrapping_run
          (codes "cannot get pinned composition revision "
            ++ (ref_name
                ++ (codes " for "
                    ++ (resource_id
                        ++ (codes " (composition: " ++ (name ++ codes ", policy: Manual)"))))))
          (get_composition_revision cluster ref_name)
    lift (pinned name ref_name resource_id rev)

  -- Everything else.
  unfoldable pub resolve_unpinned : Text → Text → Stateful (Option Composition)
  resolve_unpinned name resource_id =
      or_direct
        (codes "cannot resolve latest composition revision for "
          ++ (resource_id ++ (codes " with Manual policy (composition: " ++ (name ++ codes ")"))))
        (latest_named name none)

  abbrev by_reference : Text → Option Text → Text → Text → Stateful (Option Composition)
  by_reference policy none name resource_id = resolve_unpinned name resource_id
  by_reference policy (some ref_name) name resource_id =
      if text_eq policy update_policy_manual
      then resolve_pinned ref_name name resource_id
      else resolve_unpinned name resource_id

  -- The switch.
  unfoldable pub by_policy :
      Text → Option Text → Fields → Text → Text → Stateful (Option Composition)
  by_policy policy revision_ref res name resource_id =
      if text_eq policy update_policy_automatic
      then resolve_automatic res name resource_id
      else by_reference policy revision_ref name resource_id

  -- resolveCompositionFromRevisions
  unfoldable pub resolve_composition_from_revisions :
      Fields → Fields → Text → Text → Stateful (Option Composition)
  resolve_composition_from_revisions xrd res name resource_id = do
    revision_ref ← lift (
        wrapping (codes "cannot read compositionRevisionRef for " ++ resource_id)
          (get_composition_revision_ref xrd res))
    policy ← lift (
        wrapping (codes "cannot read compositionUpdatePolicy for " ++ resource_id)
          (xr_update_policy at res (api.get_api_version xrd)))
    by_policy policy revision_ref res name resource_id

  unfoldable pub find_by_name :
      Fields → Fields → Gvk → Text → Option Text → Stateful (Option Composition)
  find_by_name xrd res target resource_id none = lift (ok none)
  find_by_name xrd res target resource_id (some name) =
      resolve_composition_from_revisions xrd res name resource_id
      >>= (λ comp. from_revision_or_direct api cluster name target resource_id comp)

  -- findByDirectReference
  unfoldable pub find_by_direct_reference :
      Fields → Fields → Gvk → Text → Stateful (Option Composition)
  find_by_direct_reference xrd res target resource_id = find_by_name xrd res target resource_id (
      first_name api res (
        get_crossplane_ref_paths (api.get_api_version xrd)
          (codes "compositionRef" ∷ codes "name" ∷ [])))

  module _ (definitions : DefinitionClient) where
    -- The XRD of the resource and the type that its composition must be for.
    unfoldable pub target_of : Fields → Text → Result (Fields × Gvk)
    target_of res resource_id = elim (definitions.get_xrd_for_claim (api.group_version_kind res)) [
      | ok xrd ↦ elim (get_xr_type_from_xrd api at cluster.gvk_string xrd) [
        | ok target ↦ ok (xrd, target)
        | err e ↦ err (
            wrap
              (codes "claim "
                ++ (resource_id ++ codes " requires its XR type to find a composition"))
              e)
        | panic ↦ panic
      ]
      | err e' ↦ elim (definitions.get_xrd_for_xr (api.group_version_kind res)) [
        | ok xrd ↦ ok (xrd, api.group_version_kind res)
        | err e ↦ err (
            wrap
              (codes "resource "
                ++ (resource_id ++ codes " requires its XR type to find a composition"))
              e)
        | panic ↦ panic
      ]
      | panic ↦ panic
    ]

    abbrev pub id_of : Fields → Text
    id_of res = cluster.gvk_string (api.group_version_kind res) ++ (b'/' ∷ api.get_name res)

    -- The three cases for a target.
    unfoldable pub find_for : Fields → Fields × Gvk → Stateful Composition
    find_for res (xrd, target) = do
      direct ← find_by_direct_reference xrd res target (id_of res)
      or_else_find direct (
          find_by_label_selector api at cluster xrd res target (id_of res)
          >>= (λ selected. or_else_find selected (find_by_type_reference api at cluster target)))

    -- FindMatchingComposition
    unfoldable pub find_matching_composition : Fields → Stateful Composition
    find_matching_composition res =
        lift (target_of res (id_of res)) >>= (λ found. find_for res found)
