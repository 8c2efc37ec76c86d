-- ===== src/Processor/Nested/Detected.antt =====
-- The removals that are detected after the nested XRs were processed.
use crossplane_diff.Prelude.{◌≡◌, Bool, true, some, arith, Option-cases, inl, inr}
use crossplane_diff.Text.{Text}
use crossplane_diff.GoMap.{GoMap, lookup, has_key, copy, Entries, lookup-copy_present}
use crossplane_diff.Objects.{Fields}
use crossplane_diff.Objects.Api.{Api}
use crossplane_diff.Types.Key.{ResourceDiff}
use crossplane_diff.Result.{ok}
use crossplane_diff.Formatter.Lines.{DiffOptions}
use crossplane_diff.Compare.Generate.{Comparer}
use crossplane_diff.Compare.Generate.Total.{ComparerLaws}
use crossplane_diff.Calculator.Single.{Clients, node, Nodes}
use crossplane_diff.Calculator.Removed.{is_rendered, calculate_removed_resource_diffs}
use crossplane_diff.Calculator.Removed.Exact.{InNodes, IsKeyed, find_below-IsExact}
use crossplane_diff.Calculator.Composed.{Progress}
use crossplane_diff.Calculator.Merge.{IsMerged, copy-IsMerged, IsExact-result}
use crossplane_diff.Processor.Nested.{merge_and_detect}

-- A set, as Go writes it: every key of the map has the value true.
abbrev pub IsTrueSet : GoMap Bool → Type 0
IsTrueSet m = Entries (λ k b. b ≡ true) m

is_rendered-has_key : (k : Text) (m : GoMap Bool) → is_rendered m k ≡ true → has_key k m ≡ true
unfolding is_rendered has_key
is_rendered-has_key k m h = elim (Option-cases (lookup k m)) [
  | inl e ↦ absurd (ground (arith, h, e))
  | inr (b, e) ↦ rw e
]

-- What a nested XR rendered is rendered after the merge.
nested-is_rendered :
    (k : Text) (m nested : GoMap Bool)
    → IsTrueSet nested
    → is_rendered nested k ≡ true
    → is_rendered (copy m nested) k ≡ true
unfolding is_rendered
nested-is_rendered k m nested set h =
    let (b, e, t) =
      lookup-copy_present (λ k b. b ≡ true) k m nested set (is_rendered-has_key k nested h) in
    rw (is_rendered, e) t

module _ (xr_synthesis_suffix : Text) (api : Api) (lib : Comparer) (laws : ComparerLaws lib)
    (clients : Clients) (diff_options : DiffOptions) where
  -- The two phases together. For a top-level XR that is in the cluster, whose resource tree is there
  -- with resources of well-formed API versions, every composed resource of the tree that neither the
  -- XR nor its nested XRs rendered has a removal at its key, and every key that one of them rendered
  -- has the diff of the first phase, or none.
  pub merge_and_detect-IsMerged :
      (xr o : Fields) (p : Progress) (nested_diffs : GoMap ResourceDiff)
      (nested_rendered : GoMap Bool) (root : Nodes)
      → IsTrueSet nested_rendered
      → clients.get_resource_tree xr ≡ ok (node o root)
      → ((c : Fields) → InNodes c root → IsKeyed api c)
      → (m : GoMap ResourceDiff) × (merge_and_detect xr_synthesis_suffix api lib clients
            diff_options true
            (some xr)
            p
            (nested_diffs, nested_rendered)
          ≡ ok (m, copy p.rendered nested_rendered))
        × IsMerged xr_synthesis_suffix api lib laws diff_options
            (copy p.rendered nested_rendered)
            root
            (copy p.diffs nested_diffs)
            m
        × ((k : Text)
            → is_rendered nested_rendered k ≡ true
            → lookup k m ≡ lookup k (copy p.diffs nested_diffs))
  unfolding merge_and_detect calculate_removed_resource_diffs
  merge_and_detect-IsMerged xr o p nested_diffs nested_rendered root set tree keyed =
      let rendered = copy p.rendered nested_rendered in
      let diffs = copy p.diffs nested_diffs in
      let (r, e, exact) =
        IsExact-result xr_synthesis_suffix api lib laws clients diff_options rendered root _
          (find_below-IsExact xr_synthesis_suffix api lib laws diff_options rendered root keyed) in
      let merged =
        copy-IsMerged xr_synthesis_suffix api lib laws diff_options rendered root diffs r exact in
      (
        copy diffs r,
        rw (tree, e),
        merged,
        λ k h. merged.0 k (nested-is_rendered k p.rendered nested_rendered set h),
      )
