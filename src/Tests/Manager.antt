-- ===== src/Tests/Manager.antt =====
-- Tests of the resource manager (cmd/diff/diffprocessor/resource_manager.go).
use crossplane_diff.Manager.Fetch.{has_matching_resource_name}
use crossplane_diff.Manager.Fetch.{is_match}
use crossplane_diff.Manager.Fetch.{find_matching_resource}
use crossplane_diff.Manager.Fetch.{get_composition_resource_name}
use crossplane_diff.Formatter.Lines.{default_diff_options}
use crossplane_diff.Calculator.Composed.{calculate_composed}
use crossplane_diff.Calculator.Composed.Kept.{
  IsStep, failures, renders, changes, calculate_composed-exact,
}
use crossplane_diff.Manager.Supplied.{manager_clients, manager-IsReturning}
use crossplane_diff.Tests.Cluster.{lib, comparer_laws, meta_map}
use crossplane_diff.Manager.Fetch.{lookup_by_composite}
use crossplane_diff.Manager.Fetch.{or_new}
use crossplane_diff.Manager.Fetch.{fetch_by_composite}
use crossplane_diff.Manager.Fetch.{after_lookup}
use crossplane_diff.Types.Key.{make_diff_key}
use crossplane_diff.Tests.Owners.{decode_refs}
use crossplane_diff.Tests.Cluster.{string_in}
use crossplane_diff.Tests.Cluster.{map_in}
use crossplane_diff.Tests.Cluster.{field_at}
use crossplane_diff.Manager.Owners.{update_owner_refs_for_claim}
use crossplane_diff.Manager.Owners.{refers_to}
use crossplane_diff.Manager.Owners.{parent_uid}
use crossplane_diff.Manager.Owners.{owner_labels}
use crossplane_diff.Manager.Owners.{not_controlled_by}
use crossplane_diff.Manager.Owners.{composite_labelled}
use crossplane_diff.Manager.Owners.{claim_refs}
use crossplane_diff.GoMap.{insert}
use crossplane_diff.GoMap.{has_key}
use crossplane_diff.Manager.Owners.{fresh_uid}
use crossplane_diff.Tests.Owners.{decode_ref}
use crossplane_diff.Calculator.Removed.{is_rendered}
use crossplane_diff.Manager.Owners.{xr_refs}
use crossplane_diff.Manager.Owners.{dedupe}
use crossplane_diff.Tests.Owners.{encode_refs}
use crossplane_diff.Manager.Owners.{update_owner_refs_for_xr}
use crossplane_diff.Objects.{put}
use crossplane_diff.Tests.Cluster.{set_meta}
use crossplane_diff.Tests.Cluster.{meta_text}
use crossplane_diff.Manager.Owners.{update_composite_owner_label}
use crossplane_diff.Tests.Owners.{owner_refs}
use crossplane_diff.Prelude.{not, any, ◌≡◌, refl, true, false, none, some, [], ◌∷◌, if◌then◌else◌}
use crossplane_diff.Text.{Text, codes, text_eq, is_empty}
use crossplane_diff.GoMap.{lookup}
use crossplane_diff.Objects.{Fields, object, string, get}
use crossplane_diff.Objects.Fields.{entry, end}
use crossplane_diff.Result.{ok}
use crossplane_diff.Preserve.{label_composite, or_no_labels}
use crossplane_diff.Manager.Owners.{OwnerReference, update_owner_refs, parent_name}
use crossplane_diff.Manager.Owners.Owned.{Owned, update_owner_refs-Owned}
use crossplane_diff.Manager.Owners.Labelled.{owned_label, update_owner_refs-lookup}
use crossplane_diff.Manager.Fetch.{ResourceReads, fetch_current_object}
use crossplane_diff.Manager.Fetch.Current.{Outcome, fetch_current_object-Outcome}
use crossplane_diff.Manager.Observed.{fetch_observed_resources}
use crossplane_diff.Manager.Observed.Exact.{IsObserved, fetch_observed_resources-IsObserved}
use crossplane_diff.Calculator.Single.{Clients, node}
use crossplane_diff.Tests.Cluster.{api, set_labels_lem}
use crossplane_diff.Tests.Calculator.{suffix, new_bucket, nothing, xr, old_bucket, clients, tree}
use crossplane_diff.Tests.Owners.{
  ownership, new_uid_filled, set_owner_references_lem, owners_kept, labels_kept,
}

abbrev known_xr : Fields
known_xr = entry (codes "apiVersion") (string (codes "acme/v1")) (
    entry (codes "kind") (string (codes "Store")) (
      entry (codes "metadata")
        (object (
          entry (codes "name") (string (codes "shop"))
            (entry (codes "uid") (string (codes "u1")) end)))
        end))

abbrev ref_to_shop : Text → OwnerReference
ref_to_shop uid = record {
  api_version = codes "acme/v1";
  kind = codes "Store";
  name = codes "shop";
  uid = uid;
  controller = some true;
  block_owner_deletion = none;
}

-- The render engine can name one XR twice, with two UIDs.
abbrev twice_owned : Fields
twice_owned =
    ownership.set_owner_references (ref_to_shop (codes "sha1") ∷ (ref_to_shop [] ∷ [])) old_bucket

update_owner_refs-Owned_example :
    Owned api ownership new_uid_filled known_xr
      (ownership.get_owner_references twice_owned)
      (ownership.get_owner_references (update_owner_refs api ownership (some known_xr) twice_owned))
update_owner_refs-Owned_example =
    update_owner_refs-Owned api ownership new_uid_filled set_owner_references_lem owners_kept
      known_xr twice_owned

-- One reference is left, with the UID of the XR.
one_owner :
    ownership.get_owner_references (update_owner_refs api ownership (some known_xr) twice_owned)
    ≡ ref_to_shop (codes "u1") ∷ []
unfolding owner_refs get update_owner_refs update_composite_owner_label parent_name meta_text
    text_eq set_meta put update_owner_refs_for_xr encode_refs dedupe xr_refs is_rendered lookup
    decode_ref fresh_uid has_key insert claim_refs composite_labelled not_controlled_by owner_labels
    parent_uid refers_to update_owner_refs_for_claim field_at map_in string_in decode_refs
    make_diff_key
one_owner = refl

update_owner_refs-lookup_example :
    lookup label_composite
      (or_no_labels (api.get_labels (update_owner_refs api ownership (some known_xr) old_bucket)))
    ≡ (if not (is_empty (api.get_name known_xr))
        then owned_label
            (ownership.is_claim_resource known_xr)
            (api.get_name known_xr)
            (api.get_namespace known_xr)
            (or_no_labels (api.get_labels old_bucket))
            label_composite
        else if not (is_empty (api.get_generate_name known_xr))
        then owned_label
            (ownership.is_claim_resource known_xr)
            (api.get_generate_name known_xr)
            (api.get_namespace known_xr)
            (or_no_labels (api.get_labels old_bucket))
            label_composite
        else lookup label_composite (or_no_labels (api.get_labels old_bucket)))
update_owner_refs-lookup_example =
    update_owner_refs-lookup api ownership set_labels_lem labels_kept known_xr old_bucket
      label_composite

-- A cluster that finds the old bucket by its labels alone.
abbrev reads : ResourceReads
reads = record {
  get_resource = λ gvk namespace name. ok none;
  is_not_found = λ e. false;
  get_resources_by_label = λ gvk namespace labels. ok (xr ∷ (old_bucket ∷ []));
  is_claim_resource = ownership.is_claim_resource;
}

fetch_current_object-Outcome_example :
    Outcome api reads old_bucket
      (some known_xr)
      (fetch_current_object api reads (some known_xr) old_bucket)
fetch_current_object-Outcome_example =
    fetch_current_object-Outcome api reads old_bucket (some known_xr)

found_by_labels :
    fetch_current_object api reads (some known_xr) old_bucket ≡ (false, ok (some old_bucket))
unfolding fetch_current_object meta_text get text_eq after_lookup fetch_by_composite or_new
    lookup_by_composite meta_map get_composition_resource_name lookup find_matching_resource
    is_match has_matching_resource_name
found_by_labels = refl

fetch_observed_resources-IsObserved_example :
    IsObserved api ownership xr (node xr tree) (fetch_observed_resources api ownership clients xr)
fetch_observed_resources-IsObserved_example =
    fetch_observed_resources-IsObserved api ownership clients xr (node xr tree) refl

-- The calculator made with the manager, on a cluster that applies an object as it is.
abbrev shop_clients : Clients
shop_clients = manager_clients api ownership reads (λ o. []) (λ o m. ok o) (λ o. ok (node xr tree))

composed_by_manager :
    IsStep api nothing
      (failures suffix api lib shop_clients default_diff_options (some known_xr) (new_bucket ∷ []))
      (λ k.
        any
          (renders suffix api lib shop_clients default_diff_options (some known_xr) k)
          (new_bucket ∷ []))
      (λ k.
        any
          (changes suffix api lib shop_clients default_diff_options (some known_xr) k)
          (new_bucket ∷ []))
      (calculate_composed suffix api lib shop_clients default_diff_options
        (some known_xr)
        (new_bucket ∷ [])
        nothing)
composed_by_manager =
    calculate_composed-exact suffix api lib shop_clients default_diff_options (some known_xr)
      comparer_laws
      (manager-IsReturning api ownership reads (λ o. []) (λ o m. ok o) (λ o. ok (node xr tree))
        (λ gvk namespace name. tt) (λ gvk namespace labels. tt) (λ o m. tt))
      (new_bucket ∷ []) nothing
