-- ===== src/Ref.antt =====
-- cmd/diff/ref/ref.go: the names of resources on the command line, "[namespace/]name".
pub mod Parsed
use crossplane_diff.Prelude.{
  ℕ, Bool, true, false, ◌&&◌, ◌||◌, Option, none, some, List, [], ◌∷◌, ◌++◌, ◌==◌, leb, length, ◌-◌,
  if◌then◌else◌,
}
use crossplane_diff.Text.{Text, codes, is_empty, split}
use crossplane_diff.Errors.Tree.{GoError, leaf}
use crossplane_diff.Result.{Result, ok, err, panic, ◌>>=◌}

-- k8stypes.NamespacedName
pub record NamespacedName : Type 0 where
  pub namespace : Text
  pub name : Text

-- unicode.IsSpace
unfoldable pub is_space : ℕ → Bool
is_space c =
    (leb 9 c && leb c 13)
    || (c == 32)
    || (c == 133)
    || (c == 160)
    || (c == 5760)
    || (leb 8192 c && leb c 8202)
    || (c == 8232)
    || (c == 8233)
    || (c == 8239)
    || (c == 8287)
    || (c == 12288)

-- strings.TrimSpace
unfoldable pub trim_left : Text → Text
trim_left [] = []
trim_left (c ∷ s) = let rest = trim_left s in if is_space c then rest else c ∷ s

unfoldable pub trim_right : Text → Text
trim_right [] = []
trim_right (c ∷ s) = let rest = trim_right s in if is_space c && is_empty rest then [] else c ∷ rest

unfoldable pub trim_space : Text → Text
unfolding trim_left trim_right
trim_space s = trim_right (trim_left s)

unfoldable pub trim_parts : List Text → List Text
trim_parts [] = []
trim_parts (p ∷ ps) = trim_space p ∷ trim_parts ps

-- The errors of Parse, with fmt's %q and %d as parameters.
module _ (quote : Text → Text) (decimal : ℕ → Text) where
  unfoldable pub invalid : Text → Text → GoError
  invalid value reason = leaf (codes "invalid --resource value " ++ (quote value ++ reason))

  unfoldable pub of_parts : Text → List Text → Result NamespacedName
  of_parts value (name ∷ []) = ok (record { namespace = []; name = name })
  of_parts value (ns ∷ name ∷ []) =
      if is_empty ns
      then err (
          invalid value
            (codes ": namespace must not be empty (use bare name for cluster-scoped composites)"))
      else if is_empty name
      then err (invalid value (codes ": name must not be empty"))
      else ok (record { namespace = ns; name = name })
  of_parts value parts = err (
      invalid value (
        codes ": expected [namespace/]name format, got "
        ++ (decimal (length parts - 1) ++ codes " slashes")))

  -- Parse
  unfoldable pub parse : Text → Result NamespacedName
  parse value =
      let trimmed = trim_space value in
      if is_empty trimmed
      then err (invalid value (codes ": cannot be empty"))
      else of_parts value (trim_parts (split b'/' trimmed))

  -- ParseAll
  unfoldable pub parse_all : List Text → Result (List NamespacedName)
  parse_all [] = ok []
  parse_all (v ∷ vs) = do n ← parse v; ns ← parse_all vs; ok (n ∷ ns)

-- Format
unfoldable pub format : NamespacedName → Text
format n = if is_empty n.namespace then n.name else n.namespace ++ (b'/' ∷ n.name)
