-- ===== src/Selection/Revisions.antt =====
-- client/crossplane/composition_revision_client.go: the revisions of a composition, kept in two
-- caches, and the choice of the latest one.
pub mod Latest
use crossplane_diff.Prelude.{
  ℕ, Bool, true, false, ◌&&◌, Option, none, some, List, [], ◌∷◌, ◌++◌, keep, ltb, ◌==◌,
  if◌then◌else◌,
}
use crossplane_diff.Text.{Text, codes, is_empty}
use crossplane_diff.GoMap.{GoMap, lookup, insert}
use crossplane_diff.Objects.{Fields}
use crossplane_diff.Objects.Api.{Gvk}
use crossplane_diff.Errors.Tree.{leaf}
use crossplane_diff.Result.{Result, ok, err, panic, wrapping}
use crossplane_diff.Calculator.Single.{text_at}
use crossplane_diff.Selection.Selector.{Labels}
use crossplane_diff.Selection.State.{
  Composition, CompositionRevision, ClientState, Stateful, lift, ◌>>=◌, wrapping_run, ClusterReads,
}

abbrev pub label_composition_name : Text
label_composition_name = codes "crossplane.io/composition-name"

abbrev pub extension_gvk : Text → Gvk
extension_gvk kind = record {
  group = codes "apiextensions.crossplane.io";
  version = codes "v1";
  kind = kind;
}

abbrev revision_gvk : Gvk
revision_gvk = extension_gvk (codes "CompositionRevision")

-- The loops that convert what the cluster lists.
unfoldable pub converted {ℓ} :
    {A : Type ℓ} → (Fields → Result A) → Text → List Fields → Result (List A)
converted convert m [] = ok []
converted convert m (obj ∷ rest) =
    let later = converted convert m rest in
    elim (convert obj) [
      | err e ↦ wrapping m (err e)
      | panic ↦ panic
      | ok a ↦ elim later [ ok all ↦ ok (a ∷ all) | err e ↦ err e | panic ↦ panic ]
    ]

module _ (cluster : ClusterReads) where
  -- listCompositionRevisionsForComposition
  unfoldable pub list_composition_revisions_for_composition :
      Text → Result (List CompositionRevision)
  list_composition_revisions_for_composition name =
      elim (cluster.get_resources_by_label revision_gvk [] ((label_composition_name, name) ∷ [])) [
        | ok found ↦
            converted cluster.to_revision
              (codes "cannot convert unstructured to CompositionRevision") found
        | err e ↦
            wrapping (codes "cannot list composition revisions for composition " ++ name) (err e)
        | panic ↦ panic
      ]

  abbrev remember_revision : Text → CompositionRevision → Stateful CompositionRevision
  remember_revision name rev s = (
    record {
      compositions = s.compositions;
      revisions = insert name rev s.revisions;
      revisions_by_composition = s.revisions_by_composition;
    },
    ok rev,
  )

  -- A revision that is not cached.
  unfoldable pub fetch_revision : Text → Stateful CompositionRevision
  fetch_revision name = do
    found ← lift (
        wrapping (codes "cannot get composition revision " ++ name)
          (cluster.get_resource revision_gvk [] name))
    rev ← lift (
        wrapping (codes "cannot convert unstructured to CompositionRevision")
          (cluster.to_revision found))
    remember_revision name rev

  -- GetCompositionRevision
  unfoldable pub get_composition_revision : Text → Stateful CompositionRevision
  get_composition_revision name s = elim (lookup name s.revisions) [
    | some rev ↦ (s, ok rev)
    | none ↦ fetch_revision name s
  ]

  unfoldable pub cache_by_name :
      List CompositionRevision → GoMap CompositionRevision → GoMap CompositionRevision
  cache_by_name [] cached = cached
  cache_by_name (rev ∷ revs) cached = cache_by_name revs (insert rev.name rev cached)

  abbrev remember_revisions : Text → List CompositionRevision → Stateful (List CompositionRevision)
  remember_revisions name revs s = (
    record {
      compositions = s.compositions;
      revisions = cache_by_name revs s.revisions;
      revisions_by_composition = insert name revs s.revisions_by_composition;
    },
    ok revs,
  )

  unfoldable pub load_revisions : Text → Stateful (List CompositionRevision)
  load_revisions name =
      lift (
        wrapping (codes "cannot list composition revisions")
          (list_composition_revisions_for_composition name))
      >>= (λ revs. remember_revisions name revs)

  -- revisionsForComposition
  unfoldable pub revisions_for_composition : Text → Stateful (List CompositionRevision)
  revisions_for_composition name s = elim (lookup name s.revisions_by_composition) [
    | some cached ↦ (s, ok cached)
    | none ↦ load_revisions name s
  ]

-- sort.Slice, highest number first. It may put equal numbers in another order: that order shows
-- only in the error for equal numbers, in the order of the two names.
unfoldable pub insert_by_number :
    CompositionRevision → List CompositionRevision → List CompositionRevision
insert_by_number rev [] = rev ∷ []
insert_by_number rev (r ∷ rs) =
    let later = insert_by_number rev rs in
    if ltb rev.revision r.revision then r ∷ later else rev ∷ r ∷ rs

unfoldable pub by_number : List CompositionRevision → List CompositionRevision
by_number [] = []
by_number (r ∷ rs) = insert_by_number r (by_number rs)

module _ {Expression Selector : Type 0} (labels : Labels Expression Selector)
    (decimal : ℕ → Text) where
  abbrev set_of : Option (GoMap Text) → GoMap Text
  set_of none = []
  set_of (some m) = m

  abbrev pub selected : Selector → CompositionRevision → Bool
  selected selector rev = labels.matches selector (set_of rev.labels)

  -- The first of the sorted revisions, if the second has another number.
  unfoldable pub first_of_sorted :
      Text → Selector → List CompositionRevision → Result CompositionRevision
  first_of_sorted name selector [] = err (
      leaf (
        codes "no composition revisions for composition "
        ++ (name ++ (codes " match selector " ++ labels.selector_string selector))))
  first_of_sorted name selector (latest ∷ []) = ok latest
  first_of_sorted name selector (latest ∷ second ∷ rest) =
      if latest.revision == second.revision
      then err (
          leaf (
            codes "multiple composition revisions found with the same revision number "
            ++ (decimal latest.revision
                ++ (codes " for composition "
                    ++ (name
                        ++ (codes " (revisions: "
                            ++ (latest.name
                                ++ (codes ", "
                                    ++ (second.name
                                        ++ codes
                                            ") - this indicates a serious error in the Crossplane runtime")))))))))
      else ok latest

  -- What GetLatestRevisionForComposition makes of the revisions.
  unfoldable pub latest_of : Text → Selector → List CompositionRevision → Result CompositionRevision
  latest_of name selector [] =
      err (leaf (codes "no composition revisions found for composition " ++ name))
  latest_of name selector (r ∷ rs) =
      first_of_sorted name selector (by_number (keep (selected selector) (r ∷ rs)))

  module _ (cluster : ClusterReads) where
    -- GetLatestRevisionForComposition; a nil selector is `everything`.
    unfoldable pub get_latest_revision_for_composition :
        Text → Option Selector → Stateful CompositionRevision
    get_latest_revision_for_composition name selector =
        revisions_for_composition cluster name >>= (λ revs.
          lift (latest_of name (elim selector [ none ↦ labels.everything | some s ↦ s ]) revs))

-- GetCompositionFromRevision; the callers pass no nil pointer.
unfoldable pub get_composition_from_revision : CompositionRevision → Composition
get_composition_from_revision rev =
    let name = text_at label_composition_name rev.labels in
    record { name = if is_empty name then rev.name else name; labels = none; spec = rev.spec }
