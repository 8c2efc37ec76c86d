-- ===== src/Selection/Match/Exact.antt =====
-- The choices by type and by labels, among the compositions that are cached.
use crossplane_diff.Prelude.{◌≡◌, ◌≢◌, ◌↔◌, Bool, List, [], ◌∷◌, arith, keep}
use crossplane_diff.Text.{Text}
use crossplane_diff.GoMap.{GoMap}
use crossplane_diff.Objects.{Fields}
use crossplane_diff.Objects.Api.{Api, Gvk}
use crossplane_diff.Result.{Result, ok, err, panic}
use crossplane_diff.Selection.Paths.{Accessors}
use crossplane_diff.Selection.State.{
  Composition, CompositionRevision, ClientState, Stateful, lift, ◌>>=◌, ClusterReads,
}
use crossplane_diff.Selection.Match.{
  list_compositions, list_when_empty, string_labels, cached_values, is_composition_compatible,
  only_its_error, only_one, fits, find_by_type_reference, choose_by_labels,
}

only_one_lem :
    (m n : Text) (xs : List Composition) (comp : Composition)
    → (only_one m n xs ≡ ok comp) ↔ (xs ≡ comp ∷ [])
unfolding only_one
only_one_lem m n [] comp = ground arith
only_one_lem m n (x ∷ []) comp = ground arith
only_one_lem m n (x ∷ y ∷ ys) comp = ground arith

module _ (cluster : ClusterReads) (test : Composition → Bool) (m n : Text) where
  abbrev chosen : GoMap Composition → Stateful Composition
  chosen cached = lift (only_one m n (keep test (cached_values cached)))

  from_listing :
      (l : Text) (listed : Result (List Composition)) (s : ClientState) (comp : Composition)
      → ((only_its_error cluster l listed >>= chosen) s).1 ≢ ok comp
  unfolding only_its_error only_one
  from_listing l (ok comps) s comp e = ground (arith, e)
  from_listing l (err f) s comp e = ground (arith, e)
  from_listing l panic s comp e = ground (arith, e)

  from_cache_lem :
      (l : Text) (cached : GoMap Composition) (revisions : GoMap CompositionRevision)
      (by_composition : GoMap (List CompositionRevision)) (comp : Composition)
      → (((list_when_empty cluster l >>= chosen) (record {
        compositions = cached;
        revisions = revisions;
        revisions_by_composition = by_composition;
      })).1
          ≡ ok comp)
        ↔ (keep test (cached_values cached) ≡ comp ∷ [])
  unfolding list_when_empty
  from_cache_lem l [] revisions by_composition comp = (
    (λ e. absurd (from_listing l (list_compositions cluster) _ comp e)),
    λ e. absurd (ground (arith, e)),
  )
  from_cache_lem l (c ∷ cs) revisions by_composition comp = only_one_lem m n _ comp

module _ (api : Api) (at : Accessors) (cluster : ClusterReads) (target : Gvk) where
  -- The choices by type and by labels return a composition exactly if it is the only one in the
  -- cache that fits. What the listing of an empty cache finds is never chosen.
  pub choices-exact :
      (s : ClientState) (comp : Composition) (resource_id : Text) (match_labels : Fields)
      → (((find_by_type_reference api at cluster target s).1 ≡ ok comp) ↔ (
          keep (is_composition_compatible api target) (cached_values s.compositions) ≡ comp ∷ []))
        × (((choose_by_labels api at cluster resource_id target match_labels s).1 ≡ ok comp) ↔ (
            keep
              (fits api at cluster target (string_labels match_labels))
              (cached_values s.compositions)
            ≡ comp ∷ []))
  unfolding find_by_type_reference choose_by_labels
  choices-exact s comp resource_id match_labels = (
    from_cache_lem cluster _ _ _ _ s.compositions s.revisions s.revisions_by_composition comp,
    from_cache_lem cluster _ _ _ _ s.compositions s.revisions s.revisions_by_composition comp,
  )
