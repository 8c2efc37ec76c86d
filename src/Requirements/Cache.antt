-- ===== src/Requirements/Cache.antt =====
-- The cache holds every resource at its own key, and answers with nothing but the resource asked
-- for.
use crossplane_diff.Prelude.{◌≡◌, refl, true, Option, some, List, [], ◌∷◌}
use crossplane_diff.Text.{Text}
use crossplane_diff.GoMap.{GoMap, Entries, Entries-insert, lookup-Entries}
use crossplane_diff.Objects.{Fields}
use crossplane_diff.Objects.Api.{Api, Gvk}
use crossplane_diff.Types.Key.{
  NoSlash, make_diff_key, make_diff_key_from_resource, make_diff_key-injective,
}
use crossplane_diff.Result.{Result, ok, err, panic, step_ok}
use crossplane_diff.Requirements.{
  ResourceSelector, ResourceClient, Resolved, cache_resources, get_cached_resource, resolve_all,
  resolve_selectors, resolve_namespace, answered, process_name_selector,
}

module _ (api : Api) where
  -- Every entry stands at the key of its resource.
  abbrev pub AtOwnKey : GoMap Fields → Type 0
  AtOwnKey cache = Entries (λ k r. make_diff_key_from_resource api r ≡ k) cache

  pub cache_resources-AtOwnKey :
      (resources : List Fields) (cache : GoMap Fields)
      → AtOwnKey cache
      → AtOwnKey (cache_resources api resources cache)
  unfolding cache_resources
  cache_resources-AtOwnKey [] cache h = h
  cache_resources-AtOwnKey (r ∷ rest) cache h = cache_resources-AtOwnKey rest _ (
      Entries-insert (λ k r. make_diff_key_from_resource api r ≡ k)
        (make_diff_key_from_resource api r) r cache refl h)

  -- ResolveSelectors leaves every resource of the cache at its own key, on success and on error.
  pub resolve_selectors-AtOwnKey :
      (client : ResourceClient) (cache : GoMap Fields) (selectors : List (Option ResourceSelector))
      (xr_namespace : Text)
      → AtOwnKey cache
      → AtOwnKey (resolve_selectors api client cache selectors xr_namespace).1
  unfolding resolve_selectors
  resolve_selectors-AtOwnKey client cache selectors xr_namespace h =
      after (resolve_all client cache selectors xr_namespace)
    where
      after :
          (res : Result Resolved)
          → AtOwnKey
              (elim res as (λ _. Result (List Fields) × GoMap Fields) [
                | ok (resources, fetched) ↦ (ok resources, cache_resources api fetched cache)
                | err e ↦ (err e, cache)
                | panic ↦ (panic, cache)
              ]).1
      after (ok (resources, fetched)) = cache_resources-AtOwnKey fetched cache h
      after (err e) = h
      after panic = h

  -- The identity that a diff key spells has no slash in it beside the API version's.
  abbrev pub HasPlainNames : Fields → Type 0
  HasPlainNames r =
      NoSlash (api.get_kind r) × NoSlash (api.get_namespace r) × NoSlash (api.get_name r)

  -- A name selector that is answered from the cache gets the resource that it asks for: of its API
  -- version and kind, with its name, in the namespace that was resolved for it.
  pub process_name_selector-cached :
      (client : ResourceClient) (cache : GoMap Fields) (s : ResourceSelector) (gvk : Gvk)
      (xr_namespace ns : Text) (r : Fields)
      → AtOwnKey cache
      → resolve_namespace client gvk s xr_namespace ≡ ok ns
      → get_cached_resource cache s.api_version s.kind ns s.match_name ≡ some r
      → NoSlash s.kind
      → NoSlash ns
      → NoSlash s.match_name
      → HasPlainNames r
      → (process_name_selector client cache s gvk xr_namespace ≡ ok (r ∷ [], true))
        × (api.get_api_version r ≡ s.api_version)
        × (api.get_kind r ≡ s.kind)
        × (api.get_namespace r ≡ ns)
        × (api.get_name r ≡ s.match_name)
  unfolding process_name_selector answered
  process_name_selector-cached client cache s gvk xr_namespace ns r at resolved cached hk hn hm
        (rk, rn, rm) =
      let key = make_diff_key s.api_version s.kind ns s.match_name in
      let same : make_diff_key_from_resource api r ≡ key =
        lookup-Entries (λ k r. make_diff_key_from_resource api r ≡ k) key cache at
          (unfold get_cached_resource in cached) in
      let spelled : make_diff_key (api.get_api_version r) (api.get_kind r) (api.get_namespace r)
            (api.get_name r)
          ≡ key =
        unfold make_diff_key_from_resource in same in
      let (version, kind, namespace, name) =
        make_diff_key-injective (api.get_api_version r) (api.get_kind r) (api.get_namespace r)
          (api.get_name r) s.api_version s.kind ns s.match_name rk rn rm hk hn hm spelled in
      (step_ok _ _ resolved (rw cached), version, kind, namespace, name)
