-- ===== src/Errors/Tree.antt =====
-- Go error values as trees, `errors.As` at a *SchemaValidationError, and the classification of
-- cmd/diff/diffprocessor/errors.go.
use crossplane_diff.Objects.{Value}
use crossplane_diff.Prelude.{
  ℕ, Bool, true, false, Option, none, some, List, [], ◌∷◌, ◌++◌, is_some, if◌then◌else◌,
}
use crossplane_diff.Text.{Text, codes, is_empty}

-- pkgvalidate.FieldErrorType, FieldValidationError, ValidationStatus, ResourceValidationResult.
pub data FieldErrorType : Type 0 where
  schema cel unknown_field defaulting : FieldErrorType

pub record FieldError : Type 0 where
  pub type : FieldErrorType
  pub field : Text
  pub message : Text
  pub value : Value

pub data ValidationStatus : Type 0 where
  valid invalid missing_schema defaulting_failed : ValidationStatus

pub record ResourceResult : Type 0 where
  pub api_version : Text
  pub kind : Text
  pub name : Text
  pub namespace : Text
  pub status : ValidationStatus
  pub errors : List FieldError

-- pkgvalidate.ValidationResult
abbrev pub ValidationResult : Type 0
ValidationResult = List ResourceResult

-- An error value by what it lets `errors.As` see: a plain error, a *SchemaValidationError with
-- the error that its Err field holds, an error with `Unwrap() error`, one with only
-- `Cause() error`, and one with `Unwrap() []error`.
mutual
  pub data GoError : Type 0 where
    leaf : Text → GoError
    schema_validation : Text → Text → Inner → Option ValidationResult → GoError
    wrap : Text → GoError → GoError
    caused : Text → GoError → GoError
    join : Errors → GoError

  pub data Inner : Type 0 where
    absent : Inner
    present : GoError → Inner

  pub data Errors : Type 0 where
    nil : Errors
    cons : GoError → Errors → Errors

-- NewSchemaValidationError; the Result is attached by WithResult.
unfoldable pub new_schema_validation_error : Text → Text → Inner → GoError
new_schema_validation_error resource_id message err = schema_validation resource_id message err none

unfoldable pub with_result : Option ValidationResult → GoError → GoError
with_result result (schema_validation resource_id message err _) =
    schema_validation resource_id message err result
with_result result e = e

-- What `errors.As` finds: the Result field of the first *SchemaValidationError, in pre-order. It
-- follows both Unwrap methods and not Cause.
unfoldable mutual
  pub as_schema : GoError → Option (Option ValidationResult)
  as_schema (leaf m) = none
  as_schema (schema_validation r m e result) = some result
  as_schema (wrap m e) = as_schema e
  as_schema (caused m e) = none
  as_schema (join es) = first_schema es

  pub first_schema : Errors → Option (Option ValidationResult)
  first_schema nil = none
  first_schema (cons e es) =
      let rest = first_schema es in elim (as_schema e) [ some r ↦ some r | none ↦ rest ]

-- IsSchemaValidationError
unfoldable pub is_schema_validation_error : GoError → Bool
is_schema_validation_error e = is_some (as_schema e)

-- isOnlySchemaValidationErrors: the join is looked at first, then `errors.As`, then Unwrap, then
-- Cause. What a nil error answers stands in `determine_exit_code`.
unfoldable mutual
  pub is_only_schema : GoError → Bool
  is_only_schema (join es) = all_only_schema es
  is_only_schema (leaf m) = is_schema_validation_error (leaf m)
  is_only_schema (schema_validation r m e result) =
      let below = inner_only_schema e in
      if is_schema_validation_error (schema_validation r m e result) then true else below
  is_only_schema (wrap m e) =
      let below = is_only_schema e in if is_schema_validation_error (wrap m e) then true else below
  is_only_schema (caused m e) =
      let below = is_only_schema e in
      if is_schema_validation_error (caused m e) then true else below

  pub inner_only_schema : Inner → Bool
  inner_only_schema absent = false
  inner_only_schema (present e) = is_only_schema e

  pub all_only_schema : Errors → Bool
  all_only_schema nil = true
  all_only_schema (cons e es) =
      let rest = all_only_schema es in if is_only_schema e then rest else false

-- The exit codes.
abbrev pub exit_code_success : ℕ
exit_code_success = 0

abbrev pub exit_code_tool_error : ℕ
exit_code_tool_error = 1

abbrev pub exit_code_schema_validation : ℕ
exit_code_schema_validation = 2

abbrev pub exit_code_diff_detected : ℕ
exit_code_diff_detected = 3

-- DetermineExitCode
unfoldable pub determine_exit_code : Option GoError → Bool → ℕ
determine_exit_code (some err) has_diffs =
    if is_only_schema err then exit_code_schema_validation else exit_code_tool_error
determine_exit_code none has_diffs =
    if has_diffs then exit_code_diff_detected else exit_code_success

-- (*SchemaValidationError).Error and the texts of the other errors.
unfoldable mutual
  pub error_text : GoError → Text
  error_text (leaf m) = m
  error_text (schema_validation r m e result) =
      if is_empty r then m else codes "schema validation error for " ++ r ++ codes ": " ++ m
  error_text (wrap m e) = m ++ codes ": " ++ error_text e
  error_text (caused m e) = m ++ codes ": " ++ error_text e
  error_text (join es) = errors_text es

  pub errors_text : Errors → Text
  errors_text nil = []
  errors_text (cons e nil) = error_text e
  errors_text (cons e (cons e' es)) = error_text e ++ (10 ∷ errors_text (cons e' es))
