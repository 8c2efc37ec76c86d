-- ===== src/Errors/Failures.antt =====
-- The structured view of a schema validation error (errors.go: NewOutputError and what it calls).
use crossplane_diff.Prelude.{
  ◌≡◌, ◌∙◌, refl, Bool, true, false, not, ◌&&◌, ◌||◌, some, List, [], ◌∷◌, arith, all, map, keep,
  if◌then◌else◌,
}
use crossplane_diff.Text.{Text, codes}
use crossplane_diff.Types.Output.{FieldValidationError, ResourceValidationFailure, OutputError}
use crossplane_diff.Errors.Tree.{
  FieldErrorType, schema, cel, unknown_field, defaulting, FieldError, ValidationStatus, valid,
  invalid, missing_schema, defaulting_failed, ResourceResult, ValidationResult, GoError,
  schema_validation, wrap, Inner, as_schema, error_text,
}

-- The texts of the two enumerations (string(e.Type), string(r.Status)).
abbrev pub type_text : FieldErrorType → Text
type_text schema = codes "schema"
type_text cel = codes "cel"
type_text unknown_field = codes "unknownField"
type_text defaulting = codes "defaulting"

abbrev pub status_text : ValidationStatus → Text
status_text valid = codes "valid"
status_text invalid = codes "invalid"
status_text missing_schema = codes "missingSchema"
status_text defaulting_failed = codes "defaultingFailed"

abbrev pub is_defaulting : FieldErrorType → Bool
is_defaulting defaulting = true
is_defaulting _ = false

abbrev pub wire_error : FieldError → FieldValidationError
wire_error e = record {
  type = type_text e.type;
  field = e.field;
  message = e.message;
  value = e.value;
}

-- The first loop: is there an error of another type than defaulting?
unfoldable pub has_actionable : List FieldError → Bool
has_actionable [] = false
has_actionable (e ∷ es) =
    let rest = has_actionable es in if is_defaulting e.type then rest else true

-- The second loop.
unfoldable pub copy_errors : Bool → List FieldError → List FieldValidationError
copy_errors actionable [] = []
copy_errors actionable (e ∷ es) =
    let rest = copy_errors actionable es in
    if actionable && is_defaulting e.type then rest else wire_error e ∷ rest

-- fieldValidationErrorsFromUpstream
unfoldable pub field_validation_errors_from_upstream : List FieldError → List FieldValidationError
unfolding has_actionable copy_errors
field_validation_errors_from_upstream [] = []
field_validation_errors_from_upstream (e ∷ es) = copy_errors (has_actionable (e ∷ es)) (e ∷ es)

abbrev pub is_reported : ValidationStatus → Bool
is_reported valid = false
is_reported defaulting_failed = false
is_reported invalid = true
is_reported missing_schema = true

abbrev pub wire_failure : ResourceResult → ResourceValidationFailure
wire_failure r = record {
  api_version = r.api_version;
  kind = r.kind;
  name = r.name;
  namespace = r.namespace;
  status = status_text r.status;
  errors = field_validation_errors_from_upstream r.errors;
}

-- validationFailuresFromResult
unfoldable pub validation_failures_from_result : ValidationResult → List ResourceValidationFailure
validation_failures_from_result [] = []
validation_failures_from_result (r ∷ rs) =
    let rest = validation_failures_from_result rs in
    if is_reported r.status then wire_failure r ∷ rest else rest

-- NewOutputError
unfoldable pub new_output_error : Text → GoError → OutputError
new_output_error resource_id err = record {
  resource_id = resource_id;
  message = error_text err;
  validation_failures = elim (as_schema err) [
    | some (some r) ↦ validation_failures_from_result r
    | _ ↦ []
  ];
}

abbrev pub wraps : List Text → GoError → GoError
wraps [] e = e
wraps (m ∷ ms) e = wrap m (wraps ms e)

as_schema-wraps : (ms : List Text) (e : GoError) → as_schema (wraps ms e) ≡ as_schema e
unfolding as_schema
as_schema-wraps [] e = refl
as_schema-wraps (m ∷ ms) e = as_schema-wraps ms e

failures-keep :
    (result : ValidationResult)
    → validation_failures_from_result result
      ≡ map wire_failure (keep (λ r. is_reported r.status) result)
unfolding validation_failures_from_result
failures-keep [] = refl
failures-keep (r ∷ rs) = ground (arith, failures-keep rs)

-- However often a schema validation error with a structured result is wrapped, the output error
-- lists the resources of that result that are invalid or lack a schema: all of them, in order,
-- and no other.
pub output_error-failures :
    (resource_id r m : Text) (inner : Inner) (ms : List Text) (result : ValidationResult)
    → (new_output_error resource_id
        (wraps ms (schema_validation r m inner (some result)))).validation_failures
      ≡ map wire_failure (keep (λ r. is_reported r.status) result)
unfolding new_output_error as_schema
output_error-failures resource_id r m inner ms result =
    rw (as_schema-wraps ms (schema_validation r m inner (some result)), new_output_error)
      (failures-keep result)

not-has_actionable :
    (es : List FieldError) → not (has_actionable es) ≡ all (λ e. is_defaulting e.type) es
unfolding has_actionable
not-has_actionable [] = refl
not-has_actionable (e ∷ es) = ground (arith, not-has_actionable es)

copy_errors-keep :
    (actionable : Bool) (es : List FieldError)
    → copy_errors actionable es
      ≡ map wire_error (keep (λ e. not (is_defaulting e.type) || not actionable) es)
unfolding copy_errors
copy_errors-keep actionable [] = refl
copy_errors-keep actionable (e ∷ es) = ground (arith, copy_errors-keep actionable es)

-- Of the field errors of a resource the output keeps those that are no defaulting errors, and the
-- defaulting errors too if there is no other; the order is kept.
pub field_errors-keep :
    (es : List FieldError)
    → field_validation_errors_from_upstream es
      ≡ map wire_error
          (keep (λ e. not (is_defaulting e.type) || all (λ e. is_defaulting e.type) es) es)
unfolding field_validation_errors_from_upstream
field_errors-keep [] = refl
field_errors-keep (e ∷ es) =
    copy_errors-keep (has_actionable (e ∷ es)) (e ∷ es) ∙ rw (not-has_actionable (e ∷ es))
