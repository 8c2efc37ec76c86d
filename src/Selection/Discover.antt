-- ===== src/Selection/Discover.antt =====
-- FindComposites of client/crossplane/composition_client.go: the composites that use a
-- composition, among all of its type or among those named on the command line.
pub mod Resolved
use crossplane_diff.Prelude.{
  Bool, true, false, Option, none, some, List, [], ◌∷◌, ◌++◌, keep, if◌then◌else◌,
}
use crossplane_diff.Text.{Text, codes}
use crossplane_diff.Objects.{Fields}
use crossplane_diff.Objects.Api.{Api, Gvk}
use crossplane_diff.Errors.Tree.{GoError, wrap}
use crossplane_diff.Result.{Result, ok, err, panic, wrapping, ◌>>=◌}
use crossplane_diff.Ref.{NamespacedName, format}
use crossplane_diff.Selection.Paths.{Accessors, resource_uses_composition}
use crossplane_diff.Selection.State as State
use crossplane_diff.Selection.State.{Composition, ClientState, Stateful, lift, ClusterReads}
use crossplane_diff.Selection.Definitions.{get_claim_type_from_xrd}
use crossplane_diff.Selection.Match.{get_composition}
use crossplane_diff.Selection.Find.{DefinitionClient}

-- compositeTypes; none is the empty GVK.
pub record CompositeTypes : Type 0 where
  pub xr_gvk : Gvk
  pub claim_gvk : Option Gvk

-- FindCompositesOptions
pub record FindCompositesOptions : Type 0 where
  pub refs : List NamespacedName
  pub namespace : Text

-- apierrors.IsNotFound and schema.ParseGroupVersion.
pub record Machinery : Type 0 where
  pub is_not_found : GoError → Bool
  pub parse_group_version : Text → Result (Text × Text)

abbrev pub prepend : Option Fields → List Fields → List Fields
prepend none found = found
prepend (some obj) found = obj ∷ found

-- A lookup whose error is only logged.
abbrev best_effort : Result (Option Gvk) → Result (Option Gvk)
best_effort (ok found) = ok found
best_effort (err e) = ok none
best_effort panic = panic

module _ (api : Api) (at : Accessors) (cluster : ClusterReads) (machinery : Machinery)
    (definitions : DefinitionClient) where
  -- A resource that was fetched, or the error of fetching it.
  unfoldable pub if_it_uses : Gvk → NamespacedName → Text → Result Fields → Result (Option Fields)
  if_it_uses gvk n name (ok obj) =
      if resource_uses_composition api obj name then ok (some obj) else ok none
  if_it_uses gvk n name (err e) =
      if machinery.is_not_found e
      then ok none
      else err (
          wrap
            (codes "cannot fetch composite "
              ++ (format n ++ (codes " as " ++ cluster.gvk_string gvk)))
            e)
  if_it_uses gvk n name panic = panic

  -- tryLookupAtGVK
  unfoldable pub try_lookup_at_gvk : Gvk → NamespacedName → Text → Result (Option Fields)
  try_lookup_at_gvk gvk n name = if_it_uses gvk n name (cluster.get_resource gvk n.namespace n.name)

  unfoldable pub or_claim :
      CompositeTypes → NamespacedName → Text → Option Fields → Result (Option Fields)
  or_claim types n name (some obj) = ok (some obj)
  or_claim types n name none = elim types.claim_gvk [
    | none ↦ ok none
    | some gvk ↦ try_lookup_at_gvk gvk n name
  ]

  -- lookupRef
  unfoldable pub lookup_ref : CompositeTypes → NamespacedName → Text → Result (Option Fields)
  lookup_ref types n name =
      try_lookup_at_gvk types.xr_gvk n name >>= (λ obj. or_claim types n name obj)

  -- The claim's type, where the XRD is there and gives one.
  unfoldable pub claim_gvk_of : Gvk → Result (Option Gvk)
  claim_gvk_of xr_gvk = best_effort (
      definitions.get_xrd_for_xr xr_gvk
      >>= (λ xrd. get_claim_type_from_xrd api at cluster.gvk_string xrd))

  -- resolveCompositeTypes
  unfoldable pub resolve_composite_types : Composition → Result CompositeTypes
  resolve_composite_types comp = do
    gv ←
        wrapping
          (codes "cannot parse compositeTypeRef apiVersion "
            ++ (34 ∷ (comp.spec.composite_type_ref.api_version ++ (34 ∷ []))))
          (machinery.parse_group_version comp.spec.composite_type_ref.api_version)
    let xr_gvk : Gvk = record {
      group = gv.0;
      version = gv.1;
      kind = comp.spec.composite_type_ref.kind;
    }
    claim_gvk ← claim_gvk_of xr_gvk
    ok (record { xr_gvk = xr_gvk; claim_gvk = claim_gvk })

  -- The loop over the refs.
  unfoldable pub lookup_refs : CompositeTypes → Text → List NamespacedName → Result (List Fields)
  lookup_refs types name [] = ok []
  lookup_refs types name (n ∷ ns) = do
    obj ← lookup_ref types n name
    found ← lookup_refs types name ns
    ok (prepend obj found)

  -- findByRefs
  unfoldable pub find_by_refs : Fields → List NamespacedName → Result (List Fields)
  find_by_refs comp [] = ok []
  find_by_refs comp (n ∷ ns) = do
    typed ←
        wrapping
          (codes "cannot convert composition "
            ++ (api.get_name comp ++ codes " to typed for refs lookup"))
          (cluster.to_composition comp)
    types ← resolve_composite_types typed
    lookup_refs types (api.get_name comp) (n ∷ ns)

  -- The resources of a type that use the composition; an error is only logged.
  unfoldable pub listed : Gvk → Text → Text → Result (List Fields)
  listed gvk namespace name = elim (cluster.list_resources gvk namespace) [
    | ok found ↦ ok (keep (λ obj. resource_uses_composition api obj name) found)
    | err e ↦ ok []
    | panic ↦ panic
  ]

  abbrev and_claims : Option Gvk → Text → Text → List Fields → Result (List Fields)
  and_claims none namespace name xrs = ok xrs
  and_claims (some gvk) namespace name xrs =
      listed gvk namespace name >>= (λ claims. ok (xrs ++ claims))

  -- findByListing behind GetComposition.
  unfoldable pub list_for : Text → Text → Composition → Result (List Fields)
  list_for name namespace comp = do
    gv ←
        wrapping (codes "cannot parse API version " ++ comp.spec.composite_type_ref.api_version)
          (machinery.parse_group_version comp.spec.composite_type_ref.api_version)
    let xr_gvk : Gvk = record {
      group = gv.0;
      version = gv.1;
      kind = comp.spec.composite_type_ref.kind;
    }
    xrs ← listed xr_gvk namespace name
    claim_gvk ← claim_gvk_of xr_gvk
    and_claims claim_gvk namespace name xrs

  -- findByListing
  unfoldable pub find_by_listing : Text → Text → Stateful (List Fields)
  find_by_listing name namespace =
      State.◌>>=◌
        (State.wrapping_run (codes "cannot get composition " ++ name)
          (get_composition cluster name))
        (λ comp. lift (list_for name namespace comp))

  -- FindComposites
  unfoldable pub find_composites : Fields → FindCompositesOptions → Stateful (List Fields)
  find_composites comp opts = elim opts.refs [
    | [] ↦ find_by_listing (api.get_name comp) opts.namespace
    | n ∷ ns ↦ lift (find_by_refs comp (n ∷ ns))
  ]
