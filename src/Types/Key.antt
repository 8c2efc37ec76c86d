-- ===== src/Types/Key.antt =====
-- The diff of one resource, its type and its key (renderer/types/types.go).
use crossplane_diff.Prelude.{
  ℕ, ◌≡◌, refl, Bool, true, false, ◌||◌, Option, List, [], ◌∷◌, ◌++◌, arith, append_assoc,
}
use crossplane_diff.Text.{Text, codes, has_byte}
use crossplane_diff.Objects.{Fields}
use crossplane_diff.Objects.Api.{Api, Gvk}

-- DiffType, the four constants.
pub data DiffType : Type 0 where
  added removed modified equal : DiffType

-- DiffType.ToWord
unfoldable pub to_word : DiffType → Text
to_word added = codes "added"
to_word removed = codes "removed"
to_word modified = codes "modified"
to_word equal = codes "equal"

-- diff.DiffType != DiffTypeEqual
abbrev pub is_change : DiffType → Bool
is_change equal = false
is_change _ = true

-- diffmatchpatch.Operation and diffmatchpatch.Diff.
pub data Operation : Type 0 where
  diff_delete diff_insert diff_equal : Operation

pub record LineDiff : Type 0 where
  pub type : Operation
  pub text : Text

-- ResourceViews; none is a nil pointer.
pub record ResourceViews : Type 0 where
  pub raw : Option Fields
  pub clean : Option Fields

-- ResourceDiff
pub record ResourceDiff : Type 0 where
  pub gvk : Gvk
  pub namespace : Text
  pub resource_name : Text
  pub diff_type : DiffType
  pub line_diffs : List LineDiff
  pub current : ResourceViews
  pub desired : ResourceViews

-- MakeDiffKey
unfoldable pub make_diff_key : (api_version kind namespace name : Text) → Text
make_diff_key api_version kind namespace name =
    api_version ++ (b'/' ∷ (kind ++ (b'/' ∷ (namespace ++ (b'/' ∷ name)))))

module _ (api : Api) where
  -- MakeDiffKeyFromResource
  unfoldable pub make_diff_key_from_resource : Fields → Text
  make_diff_key_from_resource res =
      make_diff_key (api.get_api_version res) (api.get_kind res) (api.get_namespace res)
        (api.get_name res)

  -- ResourceDiff.GetDiffKey
  unfoldable pub get_diff_key : ResourceDiff → Text
  get_diff_key d = make_diff_key (api.group_version d.gvk) d.gvk.kind d.namespace d.resource_name

has_byte-append : (c : ℕ) (s t : Text) → has_byte c (s ++ t) ≡ (has_byte c s || has_byte c t)
unfolding has_byte
has_byte-append c [] t = refl
has_byte-append c (d ∷ s) t = ground (arith, has_byte-append c s t)

-- A text is cut in one way at its last slash.
last_slash :
    (s t s' t' : Text)
    → has_byte b'/' t ≡ false
    → has_byte b'/' t' ≡ false
    → s ++ (b'/' ∷ t) ≡ s' ++ (b'/' ∷ t')
    → (s ≡ s') × (t ≡ t')
unfolding has_byte
last_slash [] t [] t' h h' e = ground arith
last_slash [] t (c ∷ s') t' h h' e = absurd (ground (arith, has_byte-append b'/' s' (b'/' ∷ t')))
last_slash (c ∷ s) t [] t' h h' e = absurd (ground (arith, has_byte-append b'/' s (b'/' ∷ t)))
last_slash (c ∷ s) t (c' ∷ s') t' h h' e =
    let tail : s ++ (b'/' ∷ t) ≡ s' ++ (b'/' ∷ t') = ground arith in
    let (p, q) = last_slash s t s' t' h h' tail in (ground (arith, p), q)

abbrev pub NoSlash : Text → Type 0
NoSlash s = has_byte b'/' s ≡ false

-- Keys tell resources apart: if kind, namespace and name hold no slash, equal keys have equal
-- API version, kind, namespace and name, whatever slashes the API version holds.
pub make_diff_key-injective :
    (v k n m v' k' n' m' : Text)
    → NoSlash k
    → NoSlash n
    → NoSlash m
    → NoSlash k'
    → NoSlash n'
    → NoSlash m'
    → make_diff_key v k n m ≡ make_diff_key v' k' n' m'
    → (v ≡ v') × (k ≡ k') × (n ≡ n') × (m ≡ m')
unfolding make_diff_key
make_diff_key-injective v k n m v' k' n' m' hk hn hm hk' hn' hm' e =
    let outer =
      last_slash (((v ++ (b'/' ∷ k)) ++ (b'/' ∷ n))) m (((v' ++ (b'/' ∷ k')) ++ (b'/' ∷ n'))) m' hm
        hm' (simp append_assoc e) in
    let middle = last_slash (v ++ (b'/' ∷ k)) n (v' ++ (b'/' ∷ k')) n' hn hn' outer.0 in
    let inner = last_slash v k v' k' hk hk' middle.0 in (inner.0, inner.1, middle.1, outer.1)
