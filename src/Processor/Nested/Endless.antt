-- ===== src/Processor/Nested/Endless.antt =====
-- A composition that composes an XR of its own kind, and the limit on the nesting depth.
use crossplane_diff.Prelude.{
  ◌≡◌, refl, ℕ, zero, suc, ◌≤◌, Bool, true, false, Option, none, List, [], ◌∷◌, arith, ltb,
}
use crossplane_diff.Text.{Text}
use crossplane_diff.Objects.{Fields}
use crossplane_diff.Objects.Api.{Api}
use crossplane_diff.Result.{Result, ok, panic}
use crossplane_diff.Formatter.Lines.{DiffOptions}
use crossplane_diff.Compare.Generate.{Comparer}
use crossplane_diff.Calculator.Single.{Clients}
use crossplane_diff.Calculator.Composed.{
  CompositionOutputs, Progress, calculate_non_removal_diffs, left_composed,
}
use crossplane_diff.Processor.Nested.{
  BackingXr, Steps, Found, find_existing_nested_xr, existing_nested_xr, fetched, merge_nested,
  nested_result, nested_loop, process_nested_xrs, existing_xr, sanitize_xr,
  diff_single_resource_internal,
}

abbrev pub no_backing_xr : BackingXr
no_backing_xr = record { observed_resources = none; xr_for_rendering = none }

-- What becomes of an input that is an XR which the cluster does not have: it is rendered to one
-- composed resource, which is an XR and, as the calculation of the diffs leaves it, an input again;
-- every step succeeds.
pub record Renders (xr_synthesis_suffix : Text) (api : Api) (lib : Comparer) (clients : Clients)
    (diff_options : DiffOptions) (steps : Steps) (Input : Fields → Type 0) (res : Fields)
    : Type 0 where
  pub sanitized : Fields
  pub xr : Fields
  pub comp : Fields
  pub fns : List Fields
  pub outputs : CompositionOutputs
  pub prepared : Fields
  pub child : Fields
  pub merged : Fields
  pub p : Progress
  pub left : Fields
  pub is_sanitized : sanitize_xr xr_synthesis_suffix api steps res ≡ ok sanitized
  pub is_provided : steps.composition_provider res ≡ ok comp
  pub has_functions : steps.functions_for comp ≡ ok fns
  pub is_defaulted : steps.apply_xrd_defaults sanitized ≡ ok xr
  pub not_found : clients.fetch_current_object none xr ≡ ok none
  pub no_claim : steps.resolve_backing_xr none xr ≡ ok no_backing_xr
  pub is_rendered : steps.render_to_stable_state xr comp fns none ≡ ok outputs
  pub is_prepared : steps.prepare_xr_for_diff xr outputs no_backing_xr ≡ ok prepared
  pub one_child : steps.remove_namespaces outputs.composed_resources ≡ ok (child ∷ [])
  pub is_valid : steps.validate_resources prepared (child ∷ []) ≡ ok true
  pub is_merged : steps.merged_xr prepared ≡ ok merged
  pub is_compared :
      calculate_non_removal_diffs xr_synthesis_suffix api lib clients diff_options merged none
        (record {
          composite_resource = outputs.composite_resource;
          composed_resources = child ∷ [];
        })
      ≡ ok p
  pub no_errors : p.errs ≡ []
  pub is_new : existing_xr api steps xr p.diffs ≡ none
  pub is_left :
      left_composed xr_synthesis_suffix api lib clients diff_options merged none (record {
        composite_resource = outputs.composite_resource;
        composed_resources = child ∷ [];
      })
      ≡ left ∷ []
  pub is_xr : steps.is_composite_resource left ≡ true
  pub is_input : Input left

module _ (xr_synthesis_suffix : Text) (api : Api) (lib : Comparer) (clients : Clients)
    (diff_options : DiffOptions) (steps : Steps) (max_nested_depth : ℕ) where
  fetched-none :
      (xr : Fields)
      → clients.fetch_current_object none xr ≡ ok none
      → fetched api clients steps none xr ≡ ok none
  unfolding fetched
  fetched-none xr h = rw (h, fetched)

  nested-panic :
      (process : Fields → Option Fields → Result Found) (child : Fields)
      → 1 ≤ max_nested_depth
      → steps.is_composite_resource child ≡ true
      → process child none ≡ panic
      → process_nested_xrs api clients steps process max_nested_depth (child ∷ []) none [] 1 ≡ panic
  unfolding process_nested_xrs nested_loop nested_result existing_nested_xr merge_nested
      find_existing_nested_xr
  nested-panic process child allowed is_xr endless =
      let within : ltb max_nested_depth 1 ≡ false = ground (arith, allowed) in
      rw (within, is_xr, endless)

  -- The depth that --max-nested-depth allows does not come into play: if every input of some kind is
  -- a new XR that is rendered to one composed resource, an XR that is an input of that kind again,
  -- and every other step succeeds, then for such an input the nested calls do not end, however large
  -- the stack and whatever the limit, if it is at least 1.
  pub diff_single_resource_internal-endless :
      (Input : Fields → Type 0)
      → ((res : Fields)
          → Input res
          → Renders xr_synthesis_suffix api lib clients diff_options steps Input res)
      → 1 ≤ max_nested_depth
      → (fuel : ℕ) (res : Fields) (detect_removals : Bool) → Input res
      → diff_single_resource_internal xr_synthesis_suffix api lib clients diff_options steps
          max_nested_depth fuel res none detect_removals
        ≡ panic
  unfolding diff_single_resource_internal
  diff_single_resource_internal-endless Input renders allowed zero res detect_removals input = refl
  diff_single_resource_internal-endless Input renders allowed (suc fuel) res detect_removals input =
      let n = renders res input in
      let below =
        diff_single_resource_internal-endless Input renders allowed fuel n.left false n.is_input in
      let nested =
        nested-panic
          (λ c parent.
            diff_single_resource_internal xr_synthesis_suffix api lib clients diff_options steps
              max_nested_depth fuel c parent false)
          n.left allowed n.is_xr below in
      rw (
        n.is_sanitized,
        n.is_provided,
        n.has_functions,
        n.is_defaulted,
        fetched-none _ n.not_found,
        n.no_claim,
        n.is_rendered,
        n.is_prepared,
        n.one_child,
        n.is_valid,
        n.is_merged,
        n.is_compared,
        n.no_errors,
        n.is_new,
        n.is_left,
        nested,
      )
