-- ===== src/Tests/Types.antt =====
-- Tests of the keys and the generated names (cmd/diff/renderer/types/types.go).
use crossplane_diff.Prelude.{◌≡◌, refl}
use crossplane_diff.Text.{Text, codes, has_byte}
use crossplane_diff.Types.Key.{make_diff_key-injective}

abbrev suffix : Text
suffix = codes "1a2b3c4d5e6f"

make_diff_key-injective_example :
    (codes "apps/v1" ≡ codes "apps/v1")
    × (codes "Pod" ≡ codes "Pod")
    × (codes "ns" ≡ codes "ns")
    × (codes "p" ≡ codes "p")
unfolding has_byte
make_diff_key-injective_example =
    make_diff_key-injective (codes "apps/v1") (codes "Pod") (codes "ns") (codes "p")
      (codes "apps/v1") (codes "Pod") (codes "ns") (codes "p") refl refl refl refl refl refl refl
