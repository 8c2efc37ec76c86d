-- ===== src/Compare/Paths.antt =====
-- removeNestedPath of renderer/diff_formatter.go.
pub mod Gone
use crossplane_diff.Prelude.{
  Bool, true, false, ◌&&◌, Option, none, some, List, [], ◌∷◌, if◌then◌else◌,
}
use crossplane_diff.Text.{Text, codes, is_empty, contains, has_suffix, trim_suffix, cut, split}
use crossplane_diff.Objects.{Fields, has, remove, is_empty_map, as_map, Value}
use crossplane_diff.Objects.Api.{Api}

module _ (api : Api) where
  -- The path without brackets: the field itself is removed.
  unfoldable pub remove_field : Fields → List Text → Fields × Bool
  remove_field o parts = elim (api.nested_field o parts) [
    | none ↦ (o, false)
    | some _ ↦ (api.remove_nested_field o parts, true)
  ]

  -- One key of the map that `parts` leads to, and the map with it if nothing else is in it.
  unfoldable pub remove_key_of : Fields → List Text → Text → Option Fields → Fields × Bool
  remove_key_of o parts key none = (o, false)
  remove_key_of o parts key (some m) =
      let rest = api.delete_at o parts key in
      if has key m
      then (if is_empty_map (remove key m) then api.remove_nested_field rest parts else rest, true)
      else (o, false)

  abbrev pub map_at : Fields → List Text → Option Fields
  map_at o parts = elim (api.nested_field o parts) [ none ↦ none | some v ↦ as_map v ]

  unfoldable pub remove_map_key : Fields → List Text → Text → Fields × Bool
  remove_map_key o parts key = remove_key_of o parts key (map_at o parts)

  -- path[:openBracket] and path[openBracket+1 : closeBracket]. The path ends with "]", so the last
  -- "]" is its end; an empty key is refused (closeBracket <= openBracket+1).
  unfoldable pub remove_bracket_path : Fields → Option (Text × Text) → Fields × Bool
  remove_bracket_path o none = (o, false)
  remove_bracket_path o (some (base, rest)) =
      let key = trim_suffix rest (codes "]") in
      if is_empty key then (o, false) else remove_map_key o (split b'.' base) key

  -- removeNestedPath: the object afterwards, and whether something was removed.
  unfoldable pub remove_nested_path : Fields → Text → Fields × Bool
  remove_nested_path o path =
      if is_empty path
      then (o, false)
      else if contains path (codes "[") && has_suffix path (codes "]")
      then remove_bracket_path o (cut path (codes "["))
      else remove_field o (split b'.' path)
