-- ===== src/Functions.antt =====
-- The names of the function containers (cmd/diff/diffprocessor/function_provider.go). A text is
-- measured by its code points, which are its bytes in the references and names that occur.
pub mod Bound
use crossplane_diff.Prelude.{
  ℕ, ◌+◌, ◌-◌, Bool, true, false, ◌&&◌, Option, none, some, List, [], ◌∷◌, ◌++◌, ◌==◌, ltb, length,
  take, if◌then◌else◌,
}
use crossplane_diff.Text.{Text, codes, is_empty, cut, cut_prefix, split}
use crossplane_diff.Result.{Result, ok, panic}

abbrev pub max_container_name_length : ℕ
max_container_name_length = 63

abbrev pub comp_suffix : Text
comp_suffix = codes "-comp-"

-- strings.ReplaceAll(s, ":", "-")
unfoldable pub colons_to_dashes : Text → Text
colons_to_dashes [] = []
colons_to_dashes (c ∷ s) = (if c == b':' then b'-' else c) ∷ colons_to_dashes s

-- What stands before the last occurrence of a text.
unfoldable pub before_last : Text → Text → Option Text
before_last [] sep = elim (cut_prefix [] sep) [ none ↦ none | some _ ↦ some [] ]
before_last (c ∷ s) sep =
    let later = before_last s sep in
    elim later [
      | some before ↦ some (c ∷ before)
      | none ↦ elim (cut_prefix (c ∷ s) sep) [ none ↦ none | some _ ↦ some [] ]
    ]

-- strings.TrimRight(s, "-")
unfoldable pub trim_dashes : Text → Text
trim_dashes [] = []
trim_dashes (c ∷ s) =
    let rest = trim_dashes s in if c == b'-' && is_empty rest then [] else c ∷ rest

-- parts[len(parts)-1] of a split text, which has a part.
unfoldable pub last_part : List Text → Text
last_part [] = []
last_part (p ∷ []) = p
last_part (p ∷ q ∷ ps) = last_part (q ∷ ps)

abbrev pub or_whole : Option Text → Text → Text
or_whole none name = name
or_whole (some before) name = before

-- The hexadecimal SHA-256 digest of a text is a parameter.
module _ (sha256_hex : Text → Text) where
  -- truncateContainerName. A slice with a negative bound panics.
  unfoldable pub truncate_container_name : (name pkg instance_id : Text) → Result Text
  truncate_container_name name pkg instance_id =
      let suffix_len = 1 + 8 + 6 + length instance_id in
      let base = or_whole (before_last name comp_suffix) name in
      if ltb max_container_name_length suffix_len
      then panic
      else ok (
          trim_dashes (take (max_container_name_length - suffix_len) base)
          ++ (b'-' ∷ (take 8 (sha256_hex pkg) ++ (comp_suffix ++ instance_id))))

  -- containerName before it is truncated.
  unfoldable pub full_container_name : (name_and_version instance_id : Text) → Text
  full_container_name name_and_version instance_id =
      elim (cut name_and_version (codes "@sha256:")) [
        | some (before, digest) ↦
            colons_to_dashes before ++ (b'-' ∷ (take 12 digest ++ (comp_suffix ++ instance_id)))
        | none ↦ colons_to_dashes name_and_version ++ (comp_suffix ++ instance_id)
      ]

  -- generateContainerName
  unfoldable pub generate_container_name : (pkg instance_id : Text) → Result Text
  generate_container_name pkg instance_id =
      let name = full_container_name (last_part (split b'/' pkg)) instance_id in
      if is_empty pkg
      then ok (codes "unknown-comp-" ++ instance_id)
      else if ltb max_container_name_length (length name)
      then truncate_container_name name pkg instance_id
      else ok name
