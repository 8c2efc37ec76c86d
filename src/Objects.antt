-- ===== src/Objects.antt =====
-- Kubernetes objects as the program holds them: Go values of type map[string]any, and the
-- functions of k8s.io/apimachinery that the program calls on them, as parameters.
pub mod Api
use crossplane_diff.Prelude.{
  ◌≡◌, refl, Bool, true, false, Option, none, some, List, arith, is_some, if◌then◌else◌,
}
use crossplane_diff.Text.{Text, text_eq, text_eq_iff}

-- A value of type any. A number is kept as the literal that it is written by.
mutual
  pub data Value : Type 0 where
    null : Value
    bool : Bool → Value
    number : Text → Value
    string : Text → Value
    slice : Items → Value
    object : Fields → Value

  pub data Items : Type 0 where
    nil : Items
    cons : Value → Items → Items

  -- A map[string]any. The first entry of a key counts.
  pub data Fields : Type 0 where
    end : Fields
    entry : Text → Value → Fields → Fields

-- v, ok := m[k]
unfoldable pub get : Text → Fields → Option Value
get k end = none
get k (entry j v m) = let rest = get k m in if text_eq j k then some v else rest

-- _, exists := m[k]
unfoldable pub has : Text → Fields → Bool
unfolding get
has k m = is_some (get k m)

-- m[k] = v
unfoldable pub put : Text → Value → Fields → Fields
put k v end = entry k v end
put k v (entry j w m) = let rest = put k v m in if text_eq j k then entry k v m else entry j w rest

-- delete(m, k)
unfoldable pub remove : Text → Fields → Fields
remove k end = end
remove k (entry j w m) = let rest = remove k m in if text_eq j k then rest else entry j w rest

-- len(m) == 0
abbrev pub is_empty_map : Fields → Bool
is_empty_map end = true
is_empty_map (entry k v m) = false

-- m, ok := v.(map[string]any)
abbrev pub as_map : Value → Option Fields
as_map (object m) = some m
as_map _ = none

pub get-put :
    (k j : Text) (v : Value) (m : Fields)
    → get j (put k v m) ≡ (if text_eq k j then some v else get j m)
unfolding get put
get-put k j v end = refl
get-put k j v (entry i w m) =
    ground (arith, text_eq_iff k j, text_eq_iff i k, text_eq_iff i j, get-put k j v m)

pub get-remove :
    (k j : Text) (m : Fields) → get j (remove k m) ≡ (if text_eq k j then none else get j m)
unfolding get remove
get-remove k j end = ground arith
get-remove k j (entry i w m) =
    ground (arith, text_eq_iff k j, text_eq_iff i k, text_eq_iff i j, get-remove k j m)
