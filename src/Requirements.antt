-- ===== src/Requirements.antt =====
-- The requirements provider (cmd/diff/diffprocessor/requirements_provider.go): selectors are
-- resolved from a cache of resources by their diff key, else by the client. The cache is the state;
-- its lock is left out, as each call is one step.
pub mod Cache
pub mod Transparent
use crossplane_diff.Prelude.{
  Bool, true, false, not, Option, none, some, List, [], ◌∷◌, ◌++◌, if◌then◌else◌,
}
use crossplane_diff.Text.{Text, codes, is_empty, cut}
use crossplane_diff.GoMap.{GoMap, lookup, insert}
use crossplane_diff.Objects.{Fields}
use crossplane_diff.Objects.Api.{Api, Gvk}
use crossplane_diff.Errors.Tree.{GoError}
use crossplane_diff.Types.Key.{make_diff_key, make_diff_key_from_resource}
use crossplane_diff.Result.{Result, ok, err, panic, ◌>>=◌, wrapping}

-- v1.ResourceSelector; match_labels is none where GetMatchLabels is nil.
pub record ResourceSelector : Type 0 where
  pub api_version : Text
  pub kind : Text
  pub namespace : Text
  pub match_name : Text
  pub match_labels : Option (GoMap Text)

-- What GetResource answers, with a not-found error apart from the others.
pub data Lookup : Type 0 where
  found : Fields → Lookup
  not_found : Lookup
  failed : GoError → Lookup

-- k8.ResourceClient and the environment client, as they answer while one XR is processed;
-- GroupVersionKind.String.
pub record ResourceClient : Type 0 where
  pub is_namespaced_resource : Gvk → Result Bool
  pub get_resource : Gvk → Text → Text → Lookup
  pub get_resources_by_label : Gvk → Text → GoMap Text → Result (List Fields)
  pub get_environment_configs : Result (List Fields)
  pub gvk_text : Gvk → Text

-- parseAPIVersion
unfoldable pub parse_api_version : Text → Text × Text
parse_api_version api_version = elim (cut api_version (codes "/")) [
  | none ↦ ([], api_version)
  | some parts ↦ parts
]

unfoldable pub selector_gvk : ResourceSelector → Gvk
unfolding parse_api_version
selector_gvk s =
    let (group, version) = parse_api_version s.api_version in
    record { group = group; version = version; kind = s.kind }

module _ (api : Api) where
  -- cacheResources
  unfoldable pub cache_resources : List Fields → GoMap Fields → GoMap Fields
  cache_resources [] cache = cache
  cache_resources (res ∷ rest) cache =
      cache_resources rest (insert (make_diff_key_from_resource api res) res cache)

-- getCachedResource
unfoldable pub get_cached_resource :
    GoMap Fields → (api_version kind namespace name : Text) → Option Fields
get_cached_resource cache api_version kind namespace name =
    lookup (make_diff_key api_version kind namespace name) cache

-- The resources of a selector, and those of them that were fetched.
abbrev pub Resolved : Type 0
Resolved = List Fields × List Fields

module _ (client : ResourceClient) where
  -- Is the kind namespaced?
  unfoldable pub scope_of : Gvk → Result Bool
  scope_of gvk =
      wrapping (codes "cannot determine namespace scope for resource " ++ client.gvk_text gvk)
        (client.is_namespaced_resource gvk)

  -- resolveNamespace
  unfoldable pub resolve_namespace : Gvk → ResourceSelector → Text → Result Text
  resolve_namespace gvk selector xr_namespace = do
    is_namespaced ← scope_of gvk
    ok (
        if not is_namespaced
        then []
        else if not (is_empty selector.namespace)
        then selector.namespace
        else xr_namespace)

  -- What a fetch by name gives: an absent resource is no error.
  unfoldable pub fetched_by_name : Gvk → Text → Text → Result (List Fields × Bool)
  fetched_by_name gvk ns name = elim (client.get_resource gvk ns name) [
    | found r ↦ ok (r ∷ [], false)
    | not_found ↦ ok ([], false)
    | failed e ↦ wrapping (codes "cannot get referenced resource " ++ ns ++ (b'/' ∷ name)) (err e)
  ]

  -- From the cache, or else fetched.
  unfoldable pub answered : Option Fields → Gvk → Text → Text → Result (List Fields × Bool)
  answered (some r) gvk ns name = ok (r ∷ [], true)
  answered none gvk ns name = fetched_by_name gvk ns name

  -- processNameSelector: the resources, and whether they are from the cache.
  unfoldable pub process_name_selector :
      GoMap Fields → ResourceSelector → Gvk → Text → Result (List Fields × Bool)
  process_name_selector cache selector gvk xr_namespace = do
    ns ← resolve_namespace gvk selector xr_namespace
    answered (get_cached_resource cache selector.api_version selector.kind ns selector.match_name)
        gvk ns selector.match_name

  -- processLabelSelector
  unfoldable pub process_label_selector : ResourceSelector → GoMap Text → Gvk → Result (List Fields)
  process_label_selector selector labels gvk = do
    is_namespaced ← scope_of gvk
    client.get_resources_by_label gvk (if is_namespaced then selector.namespace else []) labels

  -- processSelector; none is a nil selector.
  unfoldable pub process_selector : GoMap Fields → Option ResourceSelector → Text → Result Resolved
  process_selector cache none xr_namespace = ok ([], [])
  process_selector cache (some s) xr_namespace =
      if not (is_empty s.match_name)
      then process_name_selector cache s (selector_gvk s) xr_namespace
        >>= (λ r. ok (r.0, if r.1 then [] else r.0))
      else elim s.match_labels [
        | some labels ↦
            wrapping (codes "cannot get resources by label")
              (process_label_selector s labels (selector_gvk s))
            >>= (λ resources. ok (resources, resources))
        | none ↦ ok ([], [])
      ]

  -- The loop of ResolveSelectors.
  unfoldable pub resolve_all :
      GoMap Fields → List (Option ResourceSelector) → Text → Result Resolved
  resolve_all cache [] xr_namespace = ok ([], [])
  resolve_all cache (s ∷ rest) xr_namespace = do
    first ← process_selector cache s xr_namespace
    later ← resolve_all cache rest xr_namespace
    ok (first.0 ++ later.0, first.1 ++ later.1)

module _ (api : Api) (client : ResourceClient) where
  -- ResolveSelectors: the resources, and the cache afterwards. With an error the cache is as it
  -- was.
  unfoldable pub resolve_selectors :
      GoMap Fields → List (Option ResourceSelector) → Text → Result (List Fields) × GoMap Fields
  resolve_selectors cache selectors xr_namespace =
      elim (resolve_all client cache selectors xr_namespace) [
        | ok (resources, fetched) ↦ (ok resources, cache_resources api fetched cache)
        | err e ↦ (err e, cache)
        | panic ↦ (panic, cache)
      ]

  -- Initialize
  unfoldable pub initialize : GoMap Fields → Result (GoMap Fields)
  initialize cache = do
    configs ← wrapping (codes "cannot get environment configs") client.get_environment_configs
    ok (cache_resources api configs cache)
