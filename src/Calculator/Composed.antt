-- ===== src/Calculator/Composed.antt =====
-- CalculateNonRemovalDiffs and CalculateDiffs of diff_calculator.go.
pub mod Kept
use crossplane_diff.Prelude.{
  Bool, true, false, not, ◌&&◌, Option, none, some, List, [], ◌∷◌, ◌++◌, if◌then◌else◌,
}
use crossplane_diff.Text.{Text, codes, is_empty}
use crossplane_diff.GoMap.{GoMap, insert, copy}
use crossplane_diff.Objects.{Fields}
use crossplane_diff.Objects.Api.{Api}
use crossplane_diff.Errors.Tree.{GoError, leaf, wrap, join, Errors}
use crossplane_diff.Types.Key.{ResourceDiff, is_change, get_diff_key}
use crossplane_diff.Result.{Result, ok, err, panic, ◌>>=◌, wrapping}
use crossplane_diff.Formatter.Lines.{DiffOptions}
use crossplane_diff.Compare.Generate.{Comparer}
use crossplane_diff.Calculator.Single.{
  Clients, calculate_diff, left_by_diff, text_at, resource_name_annotation,
}
use crossplane_diff.Calculator.Removed.{calculate_removed_resource_diffs}

-- render.CompositionOutputs, the fields that are read: the composite resource (none is nil) and
-- the composed resources.
pub record CompositionOutputs : Type 0 where
  pub composite_resource : Option Fields
  pub composed_resources : List Fields

-- The variables diffs, renderedResources and errs.
pub record Progress : Type 0 where
  pub diffs : GoMap ResourceDiff
  pub rendered : GoMap Bool
  pub errs : List GoError

-- errors.Join
unfoldable pub join_all : List GoError → Errors
join_all [] = Errors.nil
join_all (e ∷ es) = Errors.cons e (join_all es)

-- The error at the end of a loop that collects errors.
abbrev pub joined : List GoError → Option GoError
joined [] = none
joined (e ∷ es) = some (join (join_all (e ∷ es)))

module _ (api : Api) where
  -- Has the resource neither a name nor a generateName? It is skipped then.
  unfoldable pub is_nameless : Fields → Bool
  is_nameless o = is_empty (api.get_name o) && is_empty (api.get_generate_name o)

  -- resourceID
  unfoldable pub composed_id : Fields → Text
  composed_id o =
      if is_empty (api.get_name o) && not (is_empty (api.get_generate_name o))
      then api.get_kind o ++ (b'/' ∷ (api.get_generate_name o ++ codes "*"))
      else api.get_kind o ++ (b'/' ∷ api.get_name o)

  -- What becomes of the diff of one composed resource.
  unfoldable pub record_diff : Text → Result ResourceDiff → Progress → Result Progress
  record_diff resource_id (ok diff) p =
      let key = get_diff_key api diff in
      ok (record {
        diffs = if is_change diff.diff_type then insert key diff p.diffs else p.diffs;
        rendered = insert key true p.rendered;
        errs = p.errs;
      })
  record_diff resource_id (err e) p = ok (record {
    diffs = p.diffs;
    rendered = p.rendered;
    errs = p.errs ++ (wrap (codes "cannot calculate diff for " ++ resource_id) e ∷ []);
  })
  record_diff resource_id panic p = panic

  -- desiredXR and compositeParent: the rendered XR under its parent if it is a composed resource
  -- itself, else the input XR.
  unfoldable pub desired_xr : Fields → Option Fields → Fields → Option Fields × Fields
  desired_xr xr parent_composite rendered_xr =
      if is_empty (text_at resource_name_annotation (api.get_annotations rendered_xr))
      then (none, xr)
      else (parent_composite, rendered_xr)

  -- The composite of the composed resources: the cluster's XR, or for a new XR with a name of its
  -- own the input.
  unfoldable pub composite_of : Fields → ResourceDiff → Option Fields
  composite_of xr xr_diff = elim xr_diff.current.raw [
    | some current ↦ some current
    | none ↦
        if not (is_empty (api.get_name xr)) && is_empty (api.get_generate_name xr)
        then some xr
        else none
  ]

  -- The composed resources after the loop over them, which share their maps with the objects that
  -- CalculateDiff changes in place.
  unfoldable pub left_by_loop : Clients → Option Fields → List Fields → List Fields
  left_by_loop clients composite [] = []
  left_by_loop clients composite (o ∷ os) =
      (if is_nameless o then o else left_by_diff api clients composite o)
      ∷ left_by_loop clients composite os

module _ (xr_synthesis_suffix : Text) (api : Api) (lib : Comparer) (clients : Clients)
    (diff_options : DiffOptions) where
  -- The loop over the composed resources: what it collects. What it leaves of the resources is
  -- left_by_loop.
  unfoldable pub calculate_composed : Option Fields → List Fields → Progress → Result Progress
  unfolding record_diff
  calculate_composed composite [] p = ok p
  calculate_composed composite (o ∷ os) p =
      (if is_nameless api o
        then ok p
        else record_diff api (composed_id api o)
            (calculate_diff xr_synthesis_suffix api lib clients diff_options composite o) p)
      >>= (λ p'. calculate_composed composite os p')

  -- CalculateNonRemovalDiffs. An error before the loop comes with nil maps; the errors of the loop
  -- stand in the result beside the maps.
  unfoldable pub calculate_non_removal_diffs :
      Fields → Option Fields → CompositionOutputs → Result Progress
  calculate_non_removal_diffs xr parent_composite desired = elim desired.composite_resource [
    | none ↦
        err (leaf (codes "render produced no composite resource (possible fatal pipeline error)"))
    | some rendered_xr ↦ do
      let (parent, target) = desired_xr api xr parent_composite rendered_xr
      xr_diff ←
          wrapping (codes "cannot calculate diff for XR")
            (calculate_diff xr_synthesis_suffix api lib clients diff_options parent target)
      calculate_composed (composite_of api xr xr_diff) desired.composed_resources (record {
        diffs = insert (get_diff_key api xr_diff) xr_diff [];
        rendered = [];
        errs = [];
      })
  ]

  -- The composed resources after CalculateNonRemovalDiffs. The input XR is as before: it is compared
  -- without a parent, and then UpdateOwnerRefs changes nothing.
  unfoldable pub left_composed : Fields → Option Fields → CompositionOutputs → List Fields
  left_composed xr parent_composite desired = elim desired.composite_resource [
    | none ↦ desired.composed_resources
    | some rendered_xr ↦
        let (parent, target) = desired_xr api xr parent_composite rendered_xr in
        elim (calculate_diff xr_synthesis_suffix api lib clients diff_options parent target) [
          | ok xr_diff ↦
              left_by_loop api clients (composite_of api xr xr_diff) desired.composed_resources
          | err e ↦ desired.composed_resources
          | panic ↦ desired.composed_resources
        ]
  ]

  -- CalculateDiffs
  unfoldable pub calculate_diffs : Fields → CompositionOutputs → Result (GoMap ResourceDiff)
  calculate_diffs xr desired = do
    p ← calculate_non_removal_diffs xr none desired
    elim (joined p.errs) [
      | some e ↦ err e
      | none ↦ do
        removed ←
            calculate_removed_resource_diffs xr_synthesis_suffix api lib clients diff_options xr
              p.rendered
        ok (copy p.diffs removed)
    ]
