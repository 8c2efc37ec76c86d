-- ===== src/Types/Output.antt =====
-- The error and warning entries of the structured output (renderer/types/types.go).
use crossplane_diff.Objects.{Value}
use crossplane_diff.Prelude.{List, ◌++◌, if◌then◌else◌}
use crossplane_diff.Text.{Text, codes, is_empty}

-- FieldValidationError. A nil Value is null.
pub record FieldValidationError : Type 0 where
  pub type : Text
  pub field : Text
  pub message : Text
  pub value : Value

-- ResourceValidationFailure
pub record ResourceValidationFailure : Type 0 where
  pub api_version : Text
  pub kind : Text
  pub name : Text
  pub namespace : Text
  pub status : Text
  pub errors : List FieldValidationError

-- OutputError
pub record OutputError : Type 0 where
  pub resource_id : Text
  pub message : Text
  pub validation_failures : List ResourceValidationFailure

-- OutputError.FormatError
unfoldable pub format_error : OutputError → Text
format_error e =
    let resource_id : Text = if is_empty e.resource_id then codes "<global>" else e.resource_id in
    codes "ERROR: " ++ resource_id ++ codes ": " ++ e.message
