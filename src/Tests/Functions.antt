-- ===== src/Tests/Functions.antt =====
-- Tests of the names of the function containers (cmd/diff/diffprocessor/function_provider.go).
use crossplane_diff.Prelude.{◌≡◌, refl, ◌≤◌, arith, length}
use crossplane_diff.Text.{Text, codes, cut, cut_prefix, split}
use crossplane_diff.Result.{ok}
use crossplane_diff.Functions.{
  generate_container_name, full_container_name, last_part, colons_to_dashes,
  max_container_name_length,
}
use crossplane_diff.Functions.Bound.{generate_container_name-bound}

abbrev image : Text
image = codes "xpkg.crossplane.io/contrib/function-auto-ready:v0.5.0"

generate_container_name-bound_example :
    (n : Text) × (generate_container_name (λ s. codes "0123456789abcdef") image (codes "a1b2c3d4")
      ≡ ok n)
    × (length n ≤ max_container_name_length)
generate_container_name-bound_example =
    generate_container_name-bound (λ s. codes "0123456789abcdef") image (codes "a1b2c3d4")
      (ground arith)

short_name :
    generate_container_name (λ s. codes "0123456789abcdef") image (codes "a1b2c3d4")
    ≡ ok (codes "function-auto-ready-v0.5.0-comp-a1b2c3d4")
unfolding generate_container_name full_container_name last_part colons_to_dashes cut cut_prefix
    split
short_name = refl
