-- ===== src/Objects/Api.antt =====
-- The accessors of unstructured.Unstructured and the nested-field helpers of
-- k8s.io/apimachinery/pkg/apis/meta/v1/unstructured, which the program calls and does not contain.
use crossplane_diff.Prelude.{Option, some, List, [], ◌∷◌, ◌≡◌}
use crossplane_diff.Text.{Text}
use crossplane_diff.GoMap.{GoMap}
use crossplane_diff.Objects.{Value, object, Fields, get, put, remove}

-- schema.GroupVersionKind
pub record Gvk : Type 0 where
  pub group : Text
  pub version : Text
  pub kind : Text

pub record Api : Type 0 where
  pub get_api_version : Fields → Text
  pub get_kind : Fields → Text
  pub get_name : Fields → Text
  pub get_generate_name : Fields → Text
  pub get_namespace : Fields → Text
  -- none is a nil map
  pub get_labels : Fields → Option (GoMap Text)
  pub get_annotations : Fields → Option (GoMap Text)
  pub set_name : Text → Fields → Fields
  pub set_generate_name : Text → Fields → Fields
  pub set_labels : GoMap Text → Fields → Fields
  pub group_version_kind : Fields → Gvk
  -- gvk.GroupVersion().String()
  pub group_version : Gvk → Text
  -- NestedFieldNoCopy; none is "not found", an error included.
  pub nested_field : Fields → List Text → Option Value
  -- What `delete(m, key)` leaves of the object, where m is the map that NestedFieldNoCopy gave.
  pub delete_at : Fields → List Text → Text → Fields
  -- RemoveNestedField
  pub remove_nested_field : Fields → List Text → Fields
  -- NestedMap, NestedString and SetNestedMap, whose errors the program drops.
  pub nested_map : Fields → List Text → Option Fields
  pub nested_string : Fields → List Text → Option Text
  pub set_nested_map : Fields → Fields → List Text → Fields

-- The documented behaviour of the nested-field helpers, on the paths that end in the object and on
-- those that go through a map.
pub record NestedLaws (api : Api) : Type 0 where
  pub field_here : (o : Fields) (k : Text) → api.nested_field o (k ∷ []) ≡ get k o
  pub field_below :
      (o m : Fields) (k j : Text) (p : List Text)
      → get k o ≡ some (object m)
      → api.nested_field o (k ∷ j ∷ p) ≡ api.nested_field m (j ∷ p)
  pub field_through :
      (o : Fields) (k j : Text) (p : List Text) {v : Value}
      → api.nested_field o (k ∷ j ∷ p) ≡ some v
      → (m : Fields) × (get k o ≡ some (object m))
  pub delete_here :
      (o m : Fields) (k key : Text)
      → get k o ≡ some (object m)
      → api.delete_at o (k ∷ []) key ≡ put k (object (remove key m)) o
  pub delete_below :
      (o m : Fields) (k j key : Text) (p : List Text)
      → get k o ≡ some (object m)
      → api.delete_at o (k ∷ j ∷ p) key ≡ put k (object (api.delete_at m (j ∷ p) key)) o
  pub remove_here : (o : Fields) (k : Text) → api.remove_nested_field o (k ∷ []) ≡ remove k o
  pub remove_below :
      (o m : Fields) (k j : Text) (p : List Text)
      → get k o ≡ some (object m)
      → api.remove_nested_field o (k ∷ j ∷ p) ≡ put k (object (api.remove_nested_field m (j ∷ p))) o
  pub map_found :
      (o m : Fields) (p : List Text)
      → api.nested_field o p ≡ some (object m)
      → api.nested_map o p ≡ some m
  pub map_field :
      (o m : Fields) (p : List Text)
      → api.nested_map o p ≡ some m
      → api.nested_field o p ≡ some (object m)
  pub set_here : (o m : Fields) (k : Text) → api.set_nested_map o m (k ∷ []) ≡ put k (object m) o
  pub set_below :
      (o n m : Fields) (k j : Text) (p : List Text)
      → get k o ≡ some (object n)
      → api.set_nested_map o m (k ∷ j ∷ p) ≡ put k (object (api.set_nested_map n m (j ∷ p))) o
