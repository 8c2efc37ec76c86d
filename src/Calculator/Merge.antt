-- ===== src/Calculator/Merge.antt =====
-- The diffs of an XR with the removals merged in (CalculateDiffs of diff_calculator.go).
use crossplane_diff.Prelude.{
  ◌≡◌, refl, inl, inr, Bool, true, false, none, some, [], arith, Option-cases,
}
use crossplane_diff.Text.{Text}
use crossplane_diff.GoMap.{
  GoMap, lookup, has_key, copy, Entries, lookup-Entries, lookup-copy_absent, lookup-copy_present,
}
use crossplane_diff.Objects.{Fields}
use crossplane_diff.Objects.Api.{Api}
use crossplane_diff.Types.Key.{ResourceDiff, removed, make_diff_key_from_resource}
use crossplane_diff.Result.{Result, ok, err, panic}
use crossplane_diff.Formatter.Lines.{DiffOptions}
use crossplane_diff.Compare.Generate.{Comparer}
use crossplane_diff.Compare.Generate.Total.{ComparerLaws}
use crossplane_diff.Calculator.Single.{Clients, node, Nodes}
use crossplane_diff.Calculator.Removed.{is_gone, is_rendered, calculate_removed_resource_diffs}
use crossplane_diff.Calculator.Removed.Exact.{
  InNodes, IsKeyed, IsRemoval, IsExact, find_below-IsExact,
}
use crossplane_diff.Calculator.Composed.{
  CompositionOutputs, Progress, calculate_non_removal_diffs, calculate_diffs,
}

module _ (xr_synthesis_suffix : Text) (api : Api) (lib : Comparer) (laws : ComparerLaws lib)
    (diff_options : DiffOptions) (rendered : GoMap Bool) (root : Nodes) where
  -- A map of diffs with the removals of the tree: a rendered key has the diff that it had, and
  -- every removed object of the tree has, at its key, a removal.
  abbrev pub IsMerged : GoMap ResourceDiff → GoMap ResourceDiff → Type 0
  IsMerged diffs merged =
      ((k : Text) → is_rendered rendered k ≡ true → lookup k merged ≡ lookup k diffs)
      × ((o : Fields)
          → InNodes o root
          → is_gone xr_synthesis_suffix api lib diff_options rendered o ≡ true
          → (d : ResourceDiff) × (lookup (make_diff_key_from_resource api o) merged ≡ some d)
            × (d.diff_type ≡ removed)
            × (d.desired.raw ≡ none))

  removal_key :
      (k : Text) (d : ResourceDiff)
      → IsRemoval xr_synthesis_suffix api lib laws diff_options rendered root k d
      → is_rendered rendered k ≡ false
  removal_key k d (o, at, g, type, current, desired, e) = rw e (unfold is_gone in ground (arith, g))

  not_removed :
      (k : Text) (gone : GoMap ResourceDiff)
      → Entries (IsRemoval xr_synthesis_suffix api lib laws diff_options rendered root) gone
      → is_rendered rendered k ≡ true
      → has_key k gone ≡ false
  unfolding has_key
  not_removed k gone all h = elim (Option-cases (lookup k gone)) [
    | inl e ↦ rw e
    | inr (d, e) ↦ absurd (
        ground (
          arith,
          h,
          removal_key k d (
              lookup-Entries (IsRemoval xr_synthesis_suffix api lib laws diff_options rendered root)
                k gone all e),
        ))
  ]

  pub copy-IsMerged :
      (diffs gone : GoMap ResourceDiff)
      → IsExact xr_synthesis_suffix api lib laws diff_options rendered root (ok gone)
      → IsMerged diffs (copy diffs gone)
  copy-IsMerged diffs gone (all, every) = (
    λ k h. lookup-copy_absent k diffs gone (not_removed k gone all h),
    λ o at g.
        let (d, e, (o', at', g', type, current, desired, same)) =
          lookup-copy_present
            (IsRemoval xr_synthesis_suffix api lib laws diff_options rendered root)
            (make_diff_key_from_resource api o) diffs gone all (every o at g) in
        (d, e, type, desired),
  )

module _ (xr_synthesis_suffix : Text) (api : Api) (lib : Comparer) (laws : ComparerLaws lib)
    (clients : Clients) (diff_options : DiffOptions) where
  pub IsExact-result :
      (rendered : GoMap Bool) (root : Nodes) (res : Result (GoMap ResourceDiff))
      → IsExact xr_synthesis_suffix api lib laws diff_options rendered root res
      → (r : GoMap ResourceDiff) × (res ≡ ok r)
        × IsExact xr_synthesis_suffix api lib laws diff_options rendered root (ok r)
  IsExact-result rendered root (ok r) h = (r, refl, h)
  IsExact-result rendered root (err e) h = absurd h
  IsExact-result rendered root panic h = absurd h

  -- When every diff of the XR was calculated and its resource tree is there, with resources of
  -- well-formed API versions, CalculateDiffs returns those diffs with the removals merged in: a
  -- rendered key keeps its diff, and every composed resource of the tree whose key was not rendered
  -- has a removal at its key.
  pub calculate_diffs-IsMerged :
      (xr o : Fields) (desired : CompositionOutputs) (p : Progress) (root : Nodes)
      → calculate_non_removal_diffs xr_synthesis_suffix api lib clients diff_options xr none desired
        ≡ ok p
      → p.errs ≡ []
      → clients.get_resource_tree xr ≡ ok (node o root)
      → ((c : Fields) → InNodes c root → IsKeyed api c)
      → (m : GoMap ResourceDiff) × (calculate_diffs xr_synthesis_suffix api lib clients diff_options
            xr desired
          ≡ ok m)
        × IsMerged xr_synthesis_suffix api lib laws diff_options p.rendered root p.diffs m
  unfolding calculate_diffs calculate_removed_resource_diffs
  calculate_diffs-IsMerged xr o desired p root calculated none_failed tree keyed =
      let (r, e, exact) =
        IsExact-result p.rendered root _ (
          find_below-IsExact xr_synthesis_suffix api lib laws diff_options p.rendered root keyed) in
      (
        copy p.diffs r,
        rw (calculated, none_failed, tree, e),
        copy-IsMerged xr_synthesis_suffix api lib laws diff_options p.rendered root p.diffs r exact,
      )
