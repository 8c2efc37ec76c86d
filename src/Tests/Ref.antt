-- ===== src/Tests/Ref.antt =====
-- Tests of the names on the command line (cmd/diff/ref/ref.go).
use crossplane_diff.Prelude.{◌≡◌, refl, arith}
use crossplane_diff.Text.{codes}
use crossplane_diff.Result.{ok}
use crossplane_diff.Ref.{NamespacedName, parse, format, is_space}
use crossplane_diff.Ref.Parsed.{no_space, no_slash, parse-format}

abbrev app : NamespacedName
app = record { namespace = codes "ns"; name = codes "app" }

parse-format_example : parse (λ s. s) (λ n. codes "1") (format app) ≡ ok app
unfolding no_space no_slash is_space
parse-format_example =
    parse-format (λ s. s) (λ n. codes "1") (codes "ns") (codes "app") (λ h. ground (arith, h)) refl
      refl refl refl
