-- ===== src/Functions/Bound.antt =====
-- The length of a container's name.
use crossplane_diff.Prelude.{
  ◌≡◌, refl, ℕ, zero, suc, ◌+◌, ◌-◌, ◌≤◌, false, [], ◌∷◌, ◌++◌, arith, ltb, length, take,
  length-append, Bool-cases, inl, inr,
}
use crossplane_diff.Text.{Text, codes, split}
use crossplane_diff.Result.{ok}
use crossplane_diff.Functions.{
  max_container_name_length, comp_suffix, before_last, or_whole, trim_dashes, last_part,
  truncate_container_name, full_container_name, generate_container_name,
}

length-take : (n : ℕ) (s : Text) → length (take n s) ≤ n
length-take zero s = ground arith
length-take (suc n) [] = ground arith
length-take (suc n) (c ∷ s) = ground (arith, length-take n s)

length-trim_dashes : (s : Text) → length (trim_dashes s) ≤ length s
unfolding trim_dashes
length-trim_dashes [] = ground arith
length-trim_dashes (c ∷ s) = ground (arith, length-trim_dashes s)

module _ (sha256_hex : Text → Text) where
  truncated_length :
      (name pkg instance_id : Text)
      → length instance_id ≤ 48
      → (n : Text) × (truncate_container_name sha256_hex name pkg instance_id ≡ ok n)
        × (length n ≤ max_container_name_length)
  unfolding truncate_container_name
  truncated_length name pkg instance_id h =
      let left = max_container_name_length - (1 + 8 + 6 + length instance_id) in
      let base = or_whole (before_last name comp_suffix) name in
      let kept = trim_dashes (take left base) in
      let hash = take 8 (sha256_hex pkg) in
      let fits : ltb max_container_name_length (1 + 8 + 6 + length instance_id) ≡ false =
        ground (arith, h) in
      (
        kept ++ (b'-' ∷ (hash ++ (comp_suffix ++ instance_id))),
        rw fits,
        rw
            (
              length-append kept (b'-' ∷ (hash ++ (comp_suffix ++ instance_id))),
              length-append hash (comp_suffix ++ instance_id),
            )
            (omega (
              arith,
              h,
              length-trim_dashes (take left base),
              length-take left base,
              length-take 8 (sha256_hex pkg),
            )),
      )

  -- A container's name fits the limit of a DNS label, whatever the package reference is, for an
  -- instance ID of at most 48 characters; the ones that the program makes have eight.
  pub generate_container_name-bound :
      (pkg instance_id : Text)
      → length instance_id ≤ 48
      → (n : Text) × (generate_container_name sha256_hex pkg instance_id ≡ ok n)
        × (length n ≤ max_container_name_length)
  unfolding generate_container_name
  generate_container_name-bound [] instance_id h =
      (codes "unknown-comp-" ++ instance_id, refl, ground (arith, h))
  generate_container_name-bound (c ∷ pkg) instance_id h =
      let name = full_container_name sha256_hex (last_part (split b'/' (c ∷ pkg))) instance_id in
      elim (Bool-cases (ltb max_container_name_length (length name))) [
        | inl e ↦
            let (n, cut, bound) = truncated_length name (c ∷ pkg) instance_id h in
            (n, rw e cut, bound)
        | inr e ↦ (name, rw e, ground (arith, e))
      ]
