-- ===== src/Tests/Requirements.antt =====
-- Tests of the requirements provider (cmd/diff/diffprocessor/requirements_provider.go).
use crossplane_diff.Prelude.{◌≡◌, refl, false, none, some, [], ◌∷◌}
use crossplane_diff.Text.{codes, text_eq, has_byte}
use crossplane_diff.GoMap.{GoMap}
use crossplane_diff.Objects.{Fields, get}
use crossplane_diff.Types.Key.{make_diff_key, make_diff_key_from_resource}
use crossplane_diff.Result.{ok}
use crossplane_diff.Requirements.{
  ResourceSelector, ResourceClient, not_found, found, resolve_all, resolve_selectors,
}
use crossplane_diff.Requirements.Cache.{AtOwnKey, resolve_selectors-AtOwnKey}
use crossplane_diff.Requirements.Transparent.{Coherent, resources_of, resolve_all-transparent}
use crossplane_diff.Tests.Cluster.{api, meta_text, string_in, field_at}
use crossplane_diff.Tests.Calculator.{new_bucket}

-- A cluster in which nothing is namespaced and nothing is found.
abbrev client : ResourceClient
client = record {
  is_namespaced_resource = λ gvk. ok false;
  get_resource = λ gvk ns name. not_found;
  get_resources_by_label = λ gvk ns labels. ok (new_bucket ∷ []);
  get_environment_configs = ok [];
  gvk_text = λ gvk. gvk.kind;
}

abbrev by_name : ResourceSelector
by_name = record {
  api_version = codes "s3/v1";
  kind = codes "Bucket";
  namespace = [];
  match_name = codes "new";
  match_labels = none;
}

abbrev by_label : ResourceSelector
by_label = record {
  api_version = codes "s3/v1";
  kind = codes "Bucket";
  namespace = [];
  match_name = [];
  match_labels = some [];
}

resolve_selectors-AtOwnKey_example :
    AtOwnKey api (resolve_selectors api client [] (some by_label ∷ []) (codes "default")).1
resolve_selectors-AtOwnKey_example =
    resolve_selectors-AtOwnKey api client [] (some by_label ∷ []) (codes "default") tt

abbrev cache : GoMap Fields
cache = (codes "s3/v1/Bucket//new", new_bucket) ∷ []

-- A cluster that has the new bucket alone.
abbrev one_bucket : ResourceClient
one_bucket = record {
  is_namespaced_resource = λ gvk. ok false;
  get_resource = λ gvk ns name. found new_bucket;
  get_resources_by_label = λ gvk ns labels. ok (new_bucket ∷ []);
  get_environment_configs = ok [];
  gvk_text = λ gvk. gvk.kind;
}

cache-Coherent : Coherent api one_bucket cache
unfolding make_diff_key_from_resource make_diff_key text_eq has_byte meta_text string_in field_at
    get
cache-Coherent = ((refl, (refl, refl, refl), refl), tt)

resolve_all-transparent_example :
    resources_of (resolve_all one_bucket cache (some by_name ∷ []) (codes "default"))
    ≡ resources_of (resolve_all one_bucket [] (some by_name ∷ []) (codes "default"))
unfolding has_byte
resolve_all-transparent_example =
    resolve_all-transparent api one_bucket cache (some by_name ∷ []) (codes "default")
      cache-Coherent ((refl, refl, refl, refl), tt)
