-- ===== src/Requirements/Transparent.antt =====
-- The cache changes no answer: what selectors are resolved to is what the client gives for them.
use crossplane_diff.Prelude.{
  ◌≡◌, refl, sym, ◌∙◌, Bool, true, false, not, Option, none, some, List, [], ◌∷◌, ◌++◌, Bool-cases,
  inl, inr, if◌then◌else◌, All,
}
use crossplane_diff.Text.{Text, is_empty}
use crossplane_diff.GoMap.{GoMap, lookup, Entries, Entries-insert, lookup-Entries}
use crossplane_diff.Objects.{Fields}
use crossplane_diff.Objects.Api.{Api, Gvk}
use crossplane_diff.Types.Key.{
  NoSlash, make_diff_key, make_diff_key_from_resource, make_diff_key-injective,
}
use crossplane_diff.Result.{Result, ok, err, panic, ◌>>=◌}
use crossplane_diff.Requirements.{
  ResourceSelector, ResourceClient, found, Resolved, selector_gvk, cache_resources,
  get_cached_resource, answered, fetched_by_name, scope_of, resolve_namespace,
  process_name_selector, process_selector, resolve_all,
}
use crossplane_diff.Requirements.Cache.{HasPlainNames}

-- The GroupVersionKind of a selector with the API version and the kind.
abbrev pub gvk_from : Text → Text → Gvk
gvk_from version kind = selector_gvk (record {
  api_version = version;
  kind = kind;
  namespace = [];
  match_name = [];
  match_labels = none;
})

selector_gvk-from : (s : ResourceSelector) → selector_gvk s ≡ gvk_from s.api_version s.kind
unfolding selector_gvk
selector_gvk-from s = refl

abbrev pub resources_of : Result Resolved → Result (List Fields)
resources_of (ok r) = ok r.0
resources_of (err e) = err e
resources_of panic = panic

abbrev with_fetched : List Fields × Bool → Result Resolved
with_fetched r = ok (r.0, if r.1 then [] else r.0)

module _ (api : Api) (client : ResourceClient) where
  -- The cached resource is the one that the client gives for its own identity.
  abbrev pub IsCurrent : Fields → Type 0
  IsCurrent r =
      client.get_resource (gvk_from (api.get_api_version r) (api.get_kind r)) (api.get_namespace r)
        (api.get_name r)
      ≡ found r

  -- Every entry is current and stands at the key of its resource, whose names are plain.
  abbrev pub Coherent : GoMap Fields → Type 0
  Coherent cache =
      Entries (λ k r. (make_diff_key_from_resource api r ≡ k) × HasPlainNames api r × IsCurrent r)
        cache

  -- Caching resources that are current keeps the cache coherent.
  pub cache_resources-Coherent :
      (resources : List Fields) (cache : GoMap Fields)
      → All (λ r. HasPlainNames api r × IsCurrent r) resources
      → Coherent cache
      → Coherent (cache_resources api resources cache)
  unfolding cache_resources
  cache_resources-Coherent [] cache g h = h
  cache_resources-Coherent (r ∷ rest) cache g h = cache_resources-Coherent rest _ g.1 (
      Entries-insert
        (λ k r. (make_diff_key_from_resource api r ≡ k) × HasPlainNames api r × IsCurrent r)
        (make_diff_key_from_resource api r) r cache (refl, g.0.0, g.0.1) h)

  cached_current :
      (cache : GoMap Fields) (version kind ns name : Text) (r : Fields)
      → Coherent cache
      → NoSlash kind
      → NoSlash ns
      → NoSlash name
      → get_cached_resource cache version kind ns name ≡ some r
      → client.get_resource (gvk_from version kind) ns name ≡ found r
  unfolding get_cached_resource
  cached_current cache version kind ns name r h hk hn hm cached =
      let key = make_diff_key version kind ns name in
      let (same, (rk, rn, rm), current) =
        lookup-Entries
          (λ k r. (make_diff_key_from_resource api r ≡ k) × HasPlainNames api r × IsCurrent r) key
          cache h cached in
      let spelled : make_diff_key (api.get_api_version r) (api.get_kind r) (api.get_namespace r)
            (api.get_name r)
          ≡ key =
        unfold make_diff_key_from_resource in same in
      let (v, k, n, m) =
        make_diff_key-injective (api.get_api_version r) (api.get_kind r) (api.get_namespace r)
          (api.get_name r) version kind ns name rk rn rm hk hn hm spelled in
      rw (← v, ← k, ← n, ← m) current

  answered_same :
      (cached : Option Fields) (gvk : Gvk) (ns name : Text)
      → ((r : Fields) → cached ≡ some r → client.get_resource gvk ns name ≡ found r)
      → resources_of (answered client cached gvk ns name >>= with_fetched)
        ≡ resources_of (answered client none gvk ns name >>= with_fetched)
  unfolding answered fetched_by_name
  answered_same none gvk ns name h = refl
  answered_same (some r) gvk ns name h = sym (rw (resources_of, fetched_by_name, h r refl) refl)

  -- Without slashes: the selector's kind and name, and the namespaces that it may be resolved to.
  abbrev pub IsPlain : Text → Option ResourceSelector → Type 0
  IsPlain xr_namespace none = Unit
  IsPlain xr_namespace (some s) =
      NoSlash s.kind × NoSlash s.match_name × NoSlash s.namespace × NoSlash xr_namespace

  plain_namespace :
      (s : ResourceSelector) (xr_namespace : Text) (b : Bool)
      → NoSlash s.namespace
      → NoSlash xr_namespace
      → NoSlash
          (if not b then [] else if not (is_empty s.namespace) then s.namespace else xr_namespace)
  plain_namespace s xr_namespace false h g = unfold crossplane_diff.Text.has_byte in refl
  plain_namespace s xr_namespace true h g = elim (Bool-cases (is_empty s.namespace)) [
    | inl e ↦ rw e g
    | inr e ↦ rw e h
  ]

  by_name_same :
      (cache : GoMap Fields) (s : ResourceSelector) (xr_namespace : Text)
      → Coherent cache
      → IsPlain xr_namespace (some s)
      → resources_of
          (process_name_selector client cache s (selector_gvk s) xr_namespace >>= with_fetched)
        ≡ resources_of
            (process_name_selector client [] s (selector_gvk s) xr_namespace >>= with_fetched)
  unfolding process_name_selector resolve_namespace
  by_name_same cache s xr_namespace h (hk, hm, hn, hx) = go (scope_of client (selector_gvk s))
    where
      go :
          (scope : Result Bool)
          → resources_of (
              (scope
                >>= (λ b. ok (
                    if not b
                    then []
                    else if not (is_empty s.namespace)
                    then s.namespace
                    else xr_namespace))
                >>= (λ ns.
                    answered client
                      (get_cached_resource cache s.api_version s.kind ns s.match_name)
                      (selector_gvk s)
                      ns
                      s.match_name))
              >>= with_fetched)
            ≡ resources_of (
                (scope
                  >>= (λ b. ok (
                      if not b
                      then []
                      else if not (is_empty s.namespace)
                      then s.namespace
                      else xr_namespace))
                  >>= (λ ns.
                      answered client
                        (get_cached_resource [] s.api_version s.kind ns s.match_name)
                        (selector_gvk s)
                        ns
                        s.match_name))
                >>= with_fetched)
      go (ok b) =
          answered_same _ (selector_gvk s) _ s.match_name (λ r e. rw (selector_gvk-from s) (
            cached_current cache s.api_version s.kind _ s.match_name r h hk
              (plain_namespace s xr_namespace b hn hx) hm e))
          ∙ unfold get_cached_resource lookup in refl
      go (err e) = refl
      go panic = refl

  process_selector_same :
      (cache : GoMap Fields) (s : Option ResourceSelector) (xr_namespace : Text)
      → Coherent cache
      → IsPlain xr_namespace s
      → resources_of (process_selector client cache s xr_namespace)
        ≡ resources_of (process_selector client [] s xr_namespace)
  unfolding process_selector
  process_selector_same cache none xr_namespace h plain = refl
  process_selector_same cache (some s) xr_namespace h plain =
      elim (Bool-cases (is_empty s.match_name)) [
        | inl e ↦ rw e
        | inr e ↦ rw e (by_name_same cache s xr_namespace h plain)
      ]

  abbrev both : Result (List Fields) → Result (List Fields) → Result (List Fields)
  both first later = first >>= (λ xs. later >>= (λ ys. ok (xs ++ ys)))

  resources_of-both :
      (first later : Result Resolved)
      → resources_of (first >>= (λ f. later >>= (λ l. ok (f.0 ++ l.0, f.1 ++ l.1))))
        ≡ both (resources_of first) (resources_of later)
  resources_of-both (ok f) (ok l) = refl
  resources_of-both (ok f) (err e) = refl
  resources_of-both (ok f) panic = refl
  resources_of-both (err e) later = refl
  resources_of-both panic later = refl

  -- With a coherent cache, ResolveSelectors finds what it finds without one, and fails as it does
  -- without one.
  pub resolve_all-transparent :
      (cache : GoMap Fields) (selectors : List (Option ResourceSelector)) (xr_namespace : Text)
      → Coherent cache
      → All (IsPlain xr_namespace) selectors
      → resources_of (resolve_all client cache selectors xr_namespace)
        ≡ resources_of (resolve_all client [] selectors xr_namespace)
  unfolding resolve_all
  resolve_all-transparent cache [] xr_namespace h plain = refl
  resolve_all-transparent cache (s ∷ rest) xr_namespace h plain =
      resources_of-both (process_selector client cache s xr_namespace)
        (resolve_all client cache rest xr_namespace)
      ∙ rw
          (
            process_selector_same cache s xr_namespace h plain.0,
            resolve_all-transparent cache rest xr_namespace h plain.1,
          )
          (sym (
            resources_of-both (process_selector client [] s xr_namespace)
              (resolve_all client [] rest xr_namespace)))
