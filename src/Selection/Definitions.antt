-- ===== src/Selection/Definitions.antt =====
-- The XRDs: the lookups of client/crossplane/definition_client.go, in the list that GetXRDs
-- returns, and the types that composition_client.go reads from an XRD.
use crossplane_diff.Prelude.{
  Bool, true, false, ◌&&◌, ◌||◌, Option, none, some, List, [], ◌∷◌, ◌++◌, if◌then◌else◌,
}
use crossplane_diff.Text.{Text, codes, text_eq, is_empty}
use crossplane_diff.Objects.{object, Items, nil, cons, Fields}
use crossplane_diff.Objects.Api.{Api, Gvk}
use crossplane_diff.Errors.Tree.{leaf}
use crossplane_diff.Result.{Result, ok, err, ◌>>=◌, wrapping}
use crossplane_diff.Selection.Paths.{Accessors}

-- found && s == t
abbrev pub found_as : Option Text → Text → Bool
found_as none t = false
found_as (some s) t = text_eq s t

abbrev group_path : List Text
group_path = codes "spec" ∷ codes "group" ∷ []

abbrev kind_path : List Text
kind_path = codes "spec" ∷ codes "names" ∷ codes "kind" ∷ []

abbrev claim_names_path : List Text
claim_names_path = codes "spec" ∷ codes "claimNames" ∷ []

abbrev versions_path : List Text
versions_path = codes "spec" ∷ codes "versions" ∷ []

module _ (api : Api) (at : Accessors) (gvk_string : Gvk → Text) where
  -- What an XRD's claim names say of the kind.
  unfoldable pub claims_kind : Option Fields → Text → Bool
  claims_kind none kind = false
  claims_kind (some names) kind = found_as (api.nested_string names (codes "kind" ∷ [])) kind

  unfoldable pub defines_claim : Gvk → Fields → Bool
  defines_claim gvk xrd =
      found_as (api.nested_string xrd group_path) gvk.group
      && claims_kind (api.nested_map xrd claim_names_path) gvk.kind

  -- The loop over the versions: is there one of the name?
  unfoldable pub has_version : Text → Items → Bool
  has_version name nil = false
  has_version name (cons (object version) rest) =
      found_as (api.nested_string version (codes "name" ∷ [])) name || has_version name rest
  has_version name (cons _ rest) = has_version name rest

  abbrev pub some_version : Option Items → Text → Bool
  some_version none name = false
  some_version (some versions) name = has_version name versions

  unfoldable pub defines_xr : Gvk → Fields → Bool
  defines_xr gvk xrd =
      found_as (api.nested_string xrd group_path) gvk.group
      && (found_as (api.nested_string xrd kind_path) gvk.kind
          && some_version (at.slice_at xrd versions_path) gvk.version)

  unfoldable pub first_xrd : (Fields → Bool) → Text → List Fields → Result Fields
  first_xrd defines m [] = err (leaf m)
  first_xrd defines m (xrd ∷ rest) =
      let later = first_xrd defines m rest in if defines xrd then ok xrd else later

  -- GetXRDForClaim and GetXRDForXR
  unfoldable pub get_xrd_for_claim : Result (List Fields) → Gvk → Result Fields
  get_xrd_for_claim xrds gvk = wrapping (codes "cannot get XRDs") xrds >>= (λ found.
      first_xrd (defines_claim gvk)
        (codes "no XRD found that defines claim type " ++ gvk_string gvk) found)

  unfoldable pub get_xrd_for_xr : Result (List Fields) → Gvk → Result Fields
  get_xrd_for_xr xrds gvk = wrapping (codes "cannot get XRDs") xrds >>= (λ found.
      first_xrd (defines_xr gvk) (codes "no XRD found that defines XR type " ++ gvk_string gvk)
        found)

  -- The first version that is marked referenceable and has a name; "" if there is none.
  abbrev pub referenced : Option Bool → Option Text → Option Text
  referenced (some true) name = name
  referenced _ name = none

  unfoldable pub referenceable_version : Items → Text
  referenceable_version nil = []
  referenceable_version (cons (object version) rest) =
      let later = referenceable_version rest in
      elim (referenced (at.bool_at version (codes "referenceable" ∷ []))
        (api.nested_string version (codes "name" ∷ []))) [ some name ↦ name | none ↦ later ]
  referenceable_version (cons _ rest) = referenceable_version rest

  abbrev pub version_of : Option Items → Text
  version_of none = []
  version_of (some versions) = referenceable_version versions

  -- The end of both functions, which get the group and the kind.
  unfoldable pub with_version : Fields → Text → Text → Result Gvk
  with_version xrd group kind =
      let version = version_of (at.slice_at xrd versions_path) in
      if is_empty version
      then err (leaf (codes "no referenceable version found in XRD"))
      else ok (record { group = group; version = version; kind = kind })

  unfoldable pub xr_type : Fields → Option Text → Option Text → Result Gvk
  xr_type xrd (some group) (some kind) = with_version xrd group kind
  xr_type xrd none kind = err (leaf (codes "could not determine group or kind from XRD"))
  xr_type xrd (some group) none = err (leaf (codes "could not determine group or kind from XRD"))

  -- getXRTypeFromXRD
  unfoldable pub get_xr_type_from_xrd : Fields → Result Gvk
  get_xr_type_from_xrd xrd =
      xr_type xrd (api.nested_string xrd group_path) (api.nested_string xrd kind_path)

  abbrev pub or_blank : Option Text → Text
  or_blank none = []
  or_blank (some t) = t

  unfoldable pub claim_type : Fields → Text → Text → Result Gvk
  claim_type xrd kind group =
      if is_empty kind
      then err (leaf (codes "XRD has claimNames but missing kind"))
      else if is_empty group
      then err (leaf (codes "could not determine group from XRD"))
      else with_version xrd group kind

  -- getClaimTypeFromXRD; none is the empty GVK of an XRD without claims.
  unfoldable pub get_claim_type_from_xrd : Fields → Result (Option Gvk)
  get_claim_type_from_xrd xrd = elim (api.nested_map xrd claim_names_path) [
    | none ↦ ok none
    | some names ↦
        claim_type xrd (or_blank (api.nested_string names (codes "kind" ∷ [])))
          (or_blank (api.nested_string xrd group_path))
        >>= (λ gvk. ok (some gvk))
  ]
