-- ===== src/Preserve/Labels.antt =====
-- What copying labels does to the labels of the target.
use crossplane_diff.Prelude.{
  ◌≡◌, refl, sym, ap, ◌∙◌, Bool-cases, Bool, true, false, ◌&&◌, ◌||◌, some, List, [], ◌∷◌, arith,
  any, Option-cases, inl, inr, if◌then◌else◌,
}
use crossplane_diff.Text.{Text, text_eq, text_eq_iff}
use crossplane_diff.GoMap.{GoMap, lookup, has_key, insert, lookup-insert}
use crossplane_diff.Objects.{Fields}
use crossplane_diff.Objects.Api.{Api}
use crossplane_diff.Preserve.{copy_keys, copy_labels, or_no_labels}

-- Is the key one of those listed, and in the source?
abbrev pub is_copied : List Text → GoMap Text → Text → Bool
is_copied keys source k = any (λ key. text_eq key k) keys && has_key k source

lookup-copy_keys :
    (k : Text) (keys : List Text) (source target : GoMap Text) (copied : Bool)
    → lookup k (copy_keys keys source target copied).0
      ≡ (if is_copied keys source k then lookup k source else lookup k target)
unfolding copy_keys has_key
lookup-copy_keys k [] source target copied = refl
lookup-copy_keys k (key ∷ keys) source target copied = elim (Option-cases (lookup key source)) [
  | inl e ↦
      rw (e, copy_keys)
        (lookup-copy_keys k keys source target copied ∙ ground (arith, text_eq_iff key k, e))
  | inr (v, e) ↦
      rw (e, copy_keys)
        (lookup-copy_keys k keys source (insert key v target) true
          ∙ ground (arith, text_eq_iff key k, e, lookup-insert key k v target))
]

copied-any :
    (keys : List Text) (source target : GoMap Text) (copied : Bool)
    → (copy_keys keys source target copied).1 ≡ (copied || any (λ key. has_key key source) keys)
unfolding copy_keys has_key
copied-any [] source target copied = ground arith
copied-any (key ∷ keys) source target copied = elim (Option-cases (lookup key source)) [
  | inl e ↦ rw (e, copy_keys) (copied-any keys source target copied)
  | inr (v, e) ↦
      rw (e, copy_keys) (copied-any keys source (insert key v target) true ∙ ground arith)
]

-- A key that is copied is a listed key that the source has.
is_copied-any :
    (k : Text) (keys : List Text) (source : GoMap Text)
    → any (λ key. has_key key source) keys ≡ false
    → is_copied keys source k ≡ false
is_copied-any k [] source h = refl
is_copied-any k (key ∷ keys) source h = elim (Bool-cases (text_eq key k)) [
  | inl e ↦
      let same : has_key key source ≡ has_key k source =
        ap (λ t. has_key t source) ((text_eq_iff key k).0 e) in
      ground (arith, same)
  | inr e ↦ ground (arith, is_copied-any k keys source (ground arith))
]

module _ (api : Api)
    (set_labels_lem : (m : GoMap Text) (o : Fields)
      → api.get_labels (api.set_labels m o) ≡ some m) where
  -- After CopyLabels the target has, of the listed keys that the source has, the source's values,
  -- and every other label as before; with nothing to copy it is the same object.
  pub copy_labels-lookup :
      (source target : Fields) (keys : List Text) (labels : GoMap Text) (k : Text)
      → api.get_labels source ≡ some labels
      → lookup k (or_no_labels (api.get_labels (copy_labels api source target keys))) ≡ (
          if is_copied keys labels k
          then lookup k labels
          else lookup k (or_no_labels (api.get_labels target)))
  unfolding copy_labels
  copy_labels-lookup source target keys labels k h =
      let old = or_no_labels (api.get_labels target) in
      elim (Bool-cases (copy_keys keys labels old false).1) [
        | inl e ↦ rw (h, copy_labels, e, set_labels_lem) (lookup-copy_keys k keys labels old false)
        | inr e ↦ rw (
          h,
          copy_labels,
          e,
          is_copied-any k keys labels (sym (copied-any keys labels old false) ∙ e),
        )
      ]
