-- ===== src/Processor/Render.antt =====
-- RenderToStableState of diff_processor.go with its stability checks, and addUniqueResource of
-- requirements_provider.go. The render call, the resolution of requirements, apimachinery's slice
-- helpers and the clock are the fields of `Engine`. The values of a map come in the order of the
-- association list.
pub mod Observed
pub mod Stable
pub mod Bound
pub mod Bounded
pub mod Step
pub mod Enough
use crossplane_diff.Prelude.{
  ℕ, zero, suc, ◌+◌, Bool, true, false, not, ◌&&◌, Option, none, some, List, [], ◌∷◌, ◌++◌, map,
  if◌then◌else◌, ◌==◌,
}
use crossplane_diff.Text.{Text, codes, text_eq}
use crossplane_diff.GoMap.{GoMap, has_key, insert}
use crossplane_diff.Objects.{Fields, Items, string, object, as_map}
use crossplane_diff.Objects.Api.{Api, Gvk}
use crossplane_diff.Errors.Tree.{GoError, leaf, wrap}
use crossplane_diff.Types.Key.{make_diff_key_from_resource}
use crossplane_diff.Result.{Result, ok, err, panic, ◌>>=◌, wrapping}
use crossplane_diff.Compare.Generate.{is_nil}
use crossplane_diff.Calculator.Single.{text_at, resource_name_annotation}

-- render.CompositionOutputs, the fields that the loop reads; a selector is kept as it is.
pub record RenderOutput : Type 0 where
  pub composed_resources : List Fields
  pub required_resources : List Fields

-- RenderFunc, on the required and the observed resources, with the output that it gives beside an
-- error; ResolveSelectors; NestedSlice and SetNestedSlice; now.Format and fmt's %d.
pub record Engine : Type 0 where
  pub render : List Fields → List Fields → RenderOutput × Option GoError
  pub resolve_selectors : List Fields → Result (List (Option Fields))
  pub nested_slice : Fields → List Text → Items
  pub set_nested_slice : Fields → Items → List Text → Result Fields
  pub now : Text
  pub decimal : ℕ → Text

-- stabilityResult without its error.
pub record StabilityResult : Type 0 where
  pub stable : Bool
  pub next_observed : List Fields

-- slices.Collect(maps.Values(m))
unfoldable pub values {ℓ} : {V : Type ℓ} → GoMap V → List V
values [] = []
values ((k, v) ∷ m) = v ∷ values m

module _ (api : Api) where
  -- addUniqueResource: the map afterwards, and whether the resource was new.
  unfoldable pub add_unique_resource : GoMap Fields → Option Fields → GoMap Fields × Bool
  add_unique_resource m none = (m, false)
  add_unique_resource m (some res) =
      let key = make_diff_key_from_resource api res in
      if has_key key m then (m, false) else (insert key res m, true)

  -- The loop that counts the new resources.
  unfoldable pub add_all : GoMap Fields → List (Option Fields) → GoMap Fields × ℕ
  add_all m [] = (m, 0)
  add_all m (res ∷ rest) =
      let (m', new) = add_unique_resource m res in
      let (m'', count) = add_all m' rest in (m'', if new then suc count else count)

  -- composedResourceKey
  unfoldable pub composed_resource_key : Fields → Text
  composed_resource_key res =
      let gvk = api.group_version_kind res in
      text_at resource_name_annotation (api.get_annotations res)
      ++ (b'/' ∷ (gvk.group ++ (b'/' ∷ (gvk.version ++ (b'/' ∷ gvk.kind)))))

  unfoldable pub observed_keys : List Fields → GoMap Bool → GoMap Bool
  observed_keys [] m = m
  observed_keys (obs ∷ rest) m = observed_keys rest (insert (composed_resource_key obs) true m)

  unfoldable pub not_in : GoMap Bool → List Fields → List Fields
  not_in keys [] = []
  not_in keys (res ∷ rest) =
      let later = not_in keys rest in
      if has_key (composed_resource_key res) keys then later else res ∷ later

  -- findNewComposedResources
  unfoldable pub find_new_composed_resources : List Fields → List Fields → List Fields
  unfolding observed_keys not_in
  find_new_composed_resources rendered observed = not_in (observed_keys observed []) rendered

  unfoldable pub insert_all : List Fields → GoMap Fields → GoMap Fields
  insert_all [] m = m
  insert_all (res ∷ rest) m = insert_all rest (insert (composed_resource_key res) res m)

  -- mergeObservedResources
  unfoldable pub merge_observed_resources : List Fields → List Fields → List Fields
  unfolding insert_all values
  merge_observed_resources existing new_resources =
      values (insert_all new_resources (insert_all existing []))

abbrev type_key : Text
type_key = codes "type"

abbrev conditions_path : List Text
conditions_path = codes "status" ∷ codes "conditions" ∷ []

unfoldable pub ready_condition : Text → Fields
ready_condition now = Fields.entry type_key (string (codes "Ready")) (
    Fields.entry (codes "status") (string (codes "True")) (
      Fields.entry (codes "reason") (string (codes "Available"))
        (Fields.entry (codes "lastTransitionTime") (string now) Fields.end)))

module _ (api : Api) where
  unfoldable pub is_ready_condition : Fields → Bool
  is_ready_condition cond = elim (api.nested_string cond (type_key ∷ [])) [
    | none ↦ false
    | some t ↦ text_eq t (codes "Ready")
  ]

  -- The conditions without those of type Ready and without what is not a map, and the new one at
  -- the end.
  unfoldable pub with_ready : Text → Items → Items
  with_ready now Items.nil = Items.cons (object (ready_condition now)) Items.nil
  with_ready now (Items.cons c cs) =
      let rest = with_ready now cs in
      elim (as_map c) [
        | none ↦ rest
        | some cond ↦ if is_ready_condition cond then rest else Items.cons c rest
      ]

module _ (api : Api) (engine : Engine) where
  -- setReadyCondition
  unfoldable pub set_ready_condition : Fields → Result Fields
  unfolding with_ready
  set_ready_condition res = wrapping (codes "cannot set status.conditions") (
      engine.set_nested_slice res
        (with_ready api engine.now (engine.nested_slice res conditions_path)) conditions_path)

  -- synthesizeReadyStatus
  unfoldable pub synthesize_ready_status : List Fields → Result (List Fields)
  synthesize_ready_status [] = ok []
  synthesize_ready_status (res ∷ rest) = do
    ready ←
        wrapping (codes "cannot set Ready condition on resource " ++ api.get_name res)
          (set_ready_condition res)
    later ← synthesize_ready_status rest
    ok (ready ∷ later)

  unfoldable pub synthesized : RenderOutput → List Fields → ℕ → Result StabilityResult
  synthesized output observed iteration = do
    ready ←
        wrapping
          (codes "failed to synthesize Ready status at iteration " ++ engine.decimal iteration)
          (synthesize_ready_status output.composed_resources)
    ok (record { stable = false; next_observed = merge_observed_resources api observed ready })

  -- checkStabilityWithReadySynthesis
  unfoldable pub check_with_ready_synthesis :
      RenderOutput → List Fields → ℕ → ℕ → Result StabilityResult
  check_with_ready_synthesis output observed new_req_count iteration =
      if is_nil (find_new_composed_resources api output.composed_resources observed)
        && (new_req_count == 0)
      then ok (record { stable = true; next_observed = observed })
      else synthesized output observed iteration

  -- checkRequirementsResolved
  unfoldable pub check_requirements_resolved : ℕ → List Fields → Result StabilityResult
  check_requirements_resolved new_req_count observed =
      ok (record { stable = new_req_count == 0; next_observed = observed })

  -- checkStability
  unfoldable pub check_stability :
      RenderOutput → List Fields → ℕ → Bool → ℕ → Result StabilityResult
  check_stability output observed new_req_count synthesize_ready iteration =
      if synthesize_ready
      then check_with_ready_synthesis output observed new_req_count iteration
      else check_requirements_resolved new_req_count observed

  -- The requirements of an output: the required resources, and how many are new.
  unfoldable pub with_requirements : RenderOutput → GoMap Fields → Result (GoMap Fields × ℕ)
  with_requirements output required =
      if is_nil output.required_resources then ok (required, 0) else do
        additional ←
            wrapping (codes "failed to process requirements")
              (engine.resolve_selectors output.required_resources)
        ok (add_all api required additional)

  -- What follows the requirements in an iteration; `again` is the next iteration.
  unfoldable pub after_requirements :
      RenderOutput
      → Option GoError
      → List Fields
      → ℕ
      → Bool
      → ℕ
      → (List Fields → Result RenderOutput)
      → Result RenderOutput
  after_requirements output (some e) observed new_req_count synthesize_ready iteration again =
      if new_req_count == 0 then err (wrap (codes "cannot render resources") e) else again observed
  after_requirements output none observed new_req_count synthesize_ready iteration again = do
    result ← check_stability output observed new_req_count synthesize_ready iteration
    if result.stable then ok output else again result.next_observed

  unfoldable pub did_not_stabilize : ℕ → GoError
  did_not_stabilize max_iterations = leaf (
      codes "did not stabilize after "
      ++ (engine.decimal max_iterations
          ++ codes
              " iterations; try increasing --max-iterations if your pipeline requires more cycles"))

  -- The loop: `left` iterations are left, the next is number `iteration`.
  unfoldable pub render_loop :
      (max_iterations left iteration : ℕ) → Bool → GoMap Fields → List Fields → Result RenderOutput
  render_loop max_iterations zero iteration synthesize_ready required observed =
      err (did_not_stabilize max_iterations)
  render_loop max_iterations (suc left) iteration synthesize_ready required observed =
      let (output, render_err) = engine.render (values required) observed in
      with_requirements output required >>= (λ r.
        after_requirements output render_err observed r.1 synthesize_ready iteration
          (λ o. render_loop max_iterations left (suc iteration) synthesize_ready r.0 o))

  -- RenderToStableState
  unfoldable pub render_to_stable_state : ℕ → Bool → List Fields → Result RenderOutput
  render_to_stable_state max_iterations synthesize_ready observed =
      render_loop max_iterations max_iterations 1 synthesize_ready [] observed
