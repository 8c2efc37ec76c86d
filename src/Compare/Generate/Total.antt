-- ===== src/Compare/Generate/Total.antt =====
-- The diff that two objects get, on every branch.
use crossplane_diff.Prelude.{
  ◌≡◌, refl, sym, subst, ◌≢◌, ◌⊎◌, inl, inr, true, Option, none, some, List, [], ◌∷◌, arith,
  Bool-cases, if◌then◌else◌,
}
use crossplane_diff.Text.{Text, text_eq, text_eq_iff}
use crossplane_diff.Types.Key.{
  DiffType, added, removed, modified, equal, LineDiff, ResourceDiff, get_diff_key, make_diff_key,
  make_diff_key_from_resource,
}
use crossplane_diff.Objects.{Fields}
use crossplane_diff.Objects.Api.{Api}
use crossplane_diff.Result.{Result, ok, err, panic}
use crossplane_diff.Formatter.Lines.{DiffOptions}
use crossplane_diff.Compare.Cleanup.{cleanup_for_diff}
use crossplane_diff.Compare.Generate.{
  Comparer, equal_diff, as_string, clean_of, described, text_diff, from_texts, cleaned_equal,
  generate_diff, is_nil,
}

-- What the program relies on: an object is equal to itself, every object can be marshalled, to a
-- text that is not empty, and texts that differ have a line diff.
pub record ComparerLaws (lib : Comparer) : Type 0 where
  pub equal_self : (o : Fields) → lib.semantic_equal o o ≡ true
  pub marshal_text : (o : Fields) → (t : Text) × (lib.marshal o ≡ ok t) × (t ≢ [])
  pub differs : (s t : Text) → lib.line_diff s t ≡ [] → s ≡ t

module _ (xr_synthesis_suffix : Text) (api : Api) (lib : Comparer) (laws : ComparerLaws lib) where
  -- The type that the presence of the objects allows.
  abbrev pub HasType : Option Fields → Option Fields → ResourceDiff → Type 0
  HasType none (some d) r = r.diff_type ≡ added
  HasType (some c) none r = r.diff_type ≡ removed
  HasType (some c) (some d) r = (r.diff_type ≡ modified) ⊎ (r.diff_type ≡ equal)
  HasType none none r = ⊥

  -- A diff is returned, of the type that the objects allow and with both of them in it.
  abbrev pub IsDiffOf : Option Fields → Option Fields → Result ResourceDiff → Type 0
  IsDiffOf current desired (ok r) =
      HasType current desired r × (r.current.raw ≡ current) × (r.desired.raw ≡ desired)
  IsDiffOf current desired (err e) = ⊥
  IsDiffOf current desired panic = ⊥

  from_texts-IsDiffOf :
      (type : DiffType) (current desired : Option Fields) (o : DiffOptions) (s t : Text)
      → (s ≡ t → IsDiffOf current desired (equal_diff xr_synthesis_suffix api lib current desired))
      → IsDiffOf current desired
          (described xr_synthesis_suffix api lib type current desired o (lib.line_diff s t))
      → IsDiffOf current desired (from_texts xr_synthesis_suffix api lib type current desired o s t)
  unfolding from_texts
  from_texts-IsDiffOf type current desired o s t same otherwise = elim (Bool-cases (text_eq t s)) [
    | inl e ↦ rw e (same (sym ((text_eq_iff t s).0 e)))
    | inr e ↦ rw e (split_lines (lib.line_diff s t) refl)
  ]
    where
      split_lines :
          (lines : List LineDiff)
          → lib.line_diff s t ≡ lines
          → IsDiffOf current desired (
              if is_nil (lib.line_diff s t)
              then equal_diff xr_synthesis_suffix api lib current desired
              else described xr_synthesis_suffix api lib type current desired o (lib.line_diff s t))
      split_lines [] e = rw e (same (laws.differs s t e))
      split_lines (l ∷ ls) e = rw e (rw (← e) otherwise)

  text_diff-modified :
      (c d : Fields) (o : DiffOptions)
      → IsDiffOf
          (some c)
          (some d)
          (text_diff xr_synthesis_suffix api lib modified (some c) (some d) o)
  unfolding text_diff as_string clean_of described equal_diff
  text_diff-modified c d o =
      let (s, es, ns) =
        laws.marshal_text
          (cleanup_for_diff xr_synthesis_suffix api o.ignore_paths o.for_verdict c) in
      let (t, et, nt) =
        laws.marshal_text
          (cleanup_for_diff xr_synthesis_suffix api o.ignore_paths o.for_verdict d) in
      rw es (
        rw et (
          from_texts-IsDiffOf modified (some c) (some d) o s t (λ q. (inr refl, refl, refl))
            (inl refl, refl, refl)))

  -- Unless both objects are nil, GenerateDiffWithOptions returns a diff: it neither fails nor
  -- dereferences a nil object. The diff is of type added or removed exactly when one object is nil,
  -- of type modified or equal when both are there, and it carries both as they came.
  pub generate_diff_total :
      (current desired : Option Fields) (o : DiffOptions)
      → (current ≢ none) ⊎ (desired ≢ none)
      → IsDiffOf current desired (generate_diff xr_synthesis_suffix api lib current desired o)
  unfolding generate_diff text_diff as_string clean_of described equal_diff
  generate_diff_total none none o h = absurd (ground arith)
  generate_diff_total none (some d) o h =
      let c = cleanup_for_diff xr_synthesis_suffix api o.ignore_paths o.for_verdict d in
      let (t, e, n) = laws.marshal_text c in
      rw e (
        from_texts-IsDiffOf added none (some d) o [] t (λ q. absurd (n (sym q))) (refl, refl, refl))
  generate_diff_total (some c) none o h =
      let k = cleanup_for_diff xr_synthesis_suffix api o.ignore_paths o.for_verdict c in
      let (t, e, n) = laws.marshal_text k in
      rw e (from_texts-IsDiffOf removed (some c) none o t [] (λ q. absurd (n q)) (refl, refl, refl))
  generate_diff_total (some c) (some d) o h = elim (Bool-cases (lib.semantic_equal c d)) [
    | inl e ↦ rw e (inr refl, refl, refl)
    | inr e ↦ elim (Bool-cases (cleaned_equal xr_synthesis_suffix api lib o c d)) [
      | inl e' ↦ rw (e, e') (inr refl, refl, refl)
      | inr e' ↦ rw (e, e') (text_diff-modified c d o)
    ]
  ]

  -- A change that cleaning takes out is no change: two objects that are the same when cleaned, by
  -- the ignored paths or the server's fields, get a diff of type equal, identified by the first.
  pub generate_diff-cleaned_same :
      (c d : Fields) (o : DiffOptions)
      → cleanup_for_diff xr_synthesis_suffix api o.ignore_paths o.for_verdict c
        ≡ cleanup_for_diff xr_synthesis_suffix api o.ignore_paths o.for_verdict d
      → generate_diff xr_synthesis_suffix api lib (some c) (some d) o
        ≡ equal_diff xr_synthesis_suffix api lib (some c) (some d)
  unfolding generate_diff cleaned_equal
  generate_diff-cleaned_same c d o h =
      let x = cleanup_for_diff xr_synthesis_suffix api o.ignore_paths o.for_verdict d in
      let same : cleaned_equal xr_synthesis_suffix api lib o c d ≡ true =
        rw (h, cleaned_equal) (laws.equal_self x) in
      elim (Bool-cases (lib.semantic_equal c d)) [ inl e ↦ rw e | inr e ↦ rw (e, same) ]

  -- A returned diff has the key.
  abbrev HasKey : Text → Result ResourceDiff → Type 0
  HasKey key (ok r) = get_diff_key api r ≡ key
  HasKey key _ = Unit

  abbrev cluster_key : Fields → Text
  cluster_key c =
      make_diff_key (api.group_version (api.group_version_kind c)) (api.group_version_kind c).kind
        (api.get_namespace c) (api.get_name c)

  same_key :
      (c : Fields)
      → api.group_version (api.group_version_kind c) ≡ api.get_api_version c
      → (api.group_version_kind c).kind ≡ api.get_kind c
      → cluster_key c ≡ make_diff_key_from_resource api c
  unfolding make_diff_key_from_resource
  same_key c gv k = rw (gv, k)

  texts-HasKey :
      (c : Fields) (o : DiffOptions) (s t : Text)
      → HasKey (cluster_key c) (from_texts xr_synthesis_suffix api lib removed (some c) none o s t)
  unfolding from_texts described equal_diff get_diff_key
  texts-HasKey c o s t = elim (Bool-cases (text_eq t s)) [
    | inl e ↦ rw e refl
    | inr e ↦ elim (Bool-cases (is_nil (lib.line_diff s t))) [
      | inl e' ↦ rw (e, e') refl
      | inr e' ↦ rw (e, e') refl
    ]
  ]

  removed-HasKey :
      (c : Fields) (o : DiffOptions)
      → HasKey (cluster_key c) (generate_diff xr_synthesis_suffix api lib (some c) none o)
  unfolding generate_diff text_diff as_string clean_of from_texts described equal_diff get_diff_key
  removed-HasKey c o =
      let (t, e, n) =
        laws.marshal_text
          (cleanup_for_diff xr_synthesis_suffix api o.ignore_paths o.for_verdict c) in
      rw e (texts-HasKey c o t [])

  -- The diff of a removed resource is keyed as the resource is, where its API version is the one
  -- that its group and version spell.
  pub removed_diff-key :
      (c : Fields) (o : DiffOptions) {r : ResourceDiff}
      → api.group_version (api.group_version_kind c) ≡ api.get_api_version c
      → (api.group_version_kind c).kind ≡ api.get_kind c
      → generate_diff xr_synthesis_suffix api lib (some c) none o ≡ ok r
      → get_diff_key api r ≡ make_diff_key_from_resource api c
  removed_diff-key c o gv k h =
      subst (HasKey (make_diff_key_from_resource api c)) h
        (rw (← same_key c gv k) (removed-HasKey c o))
