-- ===== src/Tests/Errors.antt =====
-- Tests of the error classification (cmd/diff/diffprocessor/errors.go).
use crossplane_diff.Objects.{null}
use crossplane_diff.Prelude.{◌≡◌, refl, true, false, some, none, [], ◌∷◌, if◌then◌else◌}
use crossplane_diff.Text.{codes}
use crossplane_diff.Errors.Tree.{
  GoError, leaf, schema_validation, wrap, join, absent, nil, cons, determine_exit_code, as_schema,
  is_schema_validation_error, ResourceResult, ValidationResult, FieldError, FieldErrorType,
  ValidationStatus, exit_code_schema_validation, exit_code_tool_error, exit_code_diff_detected,
  exit_code_success,
}
use crossplane_diff.Errors.Exit.{
  every_end, joins_on_top, is_chain, exit_code_priority, exit_code-wrapped_join,
}

abbrev schema_error : GoError
schema_error = schema_validation (codes "XR/a") (codes "bad field") absent none

abbrev tool_error : GoError
tool_error = leaf (codes "connection refused")

abbrev two_failures : GoError
two_failures = join (cons (wrap (codes "XR/a") schema_error) (cons tool_error nil))

exit_code_priority_example :
    (determine_exit_code (some two_failures) true
      ≡ (if every_end two_failures then exit_code_schema_validation else exit_code_tool_error))
    × (determine_exit_code none true
        ≡ (if true then exit_code_diff_detected else exit_code_success))
unfolding joins_on_top is_chain
exit_code_priority_example = exit_code_priority two_failures true refl

-- The tool error is lost: every_end is false of this error, and the exit code is 2.
exit_code-wrapped_join_example :
    determine_exit_code
      (some (wrap (codes "outer") (join (cons tool_error (cons schema_error nil)))))
      false
    ≡ 2
unfolding is_schema_validation_error as_schema
exit_code-wrapped_join_example =
    exit_code-wrapped_join (codes "outer") (cons tool_error (cons schema_error nil)) false refl

abbrev bad_region : FieldError
bad_region = record {
  type = FieldErrorType.schema;
  field = codes "spec.region";
  message = codes "required";
  value = null;
}

abbrev no_default : FieldError
no_default = record {
  type = FieldErrorType.defaulting;
  field = codes "spec.size";
  message = codes "no default";
  value = null;
}

abbrev bucket : ValidationStatus → ResourceResult
bucket s = record {
  api_version = codes "s3/v1";
  kind = codes "Bucket";
  name = codes "b";
  namespace = [];
  status = s;
  errors = bad_region ∷ no_default ∷ [];
}

abbrev results : ValidationResult
results = bucket ValidationStatus.valid ∷ bucket ValidationStatus.invalid ∷ []
