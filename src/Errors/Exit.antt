-- ===== src/Errors/Exit.antt =====
-- The exit code against an independent reading of the error tree.
use crossplane_diff.Prelude.{
  ◌≡◌, refl, Bool, true, false, ◌&&◌, none, some, arith, is_some, if◌then◌else◌,
}
use crossplane_diff.Text.{Text}
use crossplane_diff.Errors.Tree.{
  GoError, leaf, schema_validation, wrap, caused, join, Errors, nil, cons, as_schema,
  is_schema_validation_error, is_only_schema, all_only_schema, determine_exit_code,
  exit_code_success, exit_code_tool_error, exit_code_schema_validation, exit_code_diff_detected,
}

-- The doc comment's reading: every error that the tree ends in is a schema validation error.
unfoldable mutual
  pub every_end : GoError → Bool
  every_end (leaf m) = false
  every_end (schema_validation r m e result) = true
  every_end (wrap m e) = every_end e
  every_end (caused m e) = every_end e
  every_end (join es) = every_ends es

  pub every_ends : Errors → Bool
  every_ends nil = true
  every_ends (cons e es) = every_end e && every_ends es

-- No join stands below a wrapping error.
unfoldable mutual
  pub is_chain : GoError → Bool
  is_chain (leaf m) = true
  is_chain (schema_validation r m e result) = true
  is_chain (wrap m e) = is_chain e
  is_chain (caused m e) = is_chain e
  is_chain (join es) = false

  pub are_chains : Errors → Bool
  are_chains nil = true
  are_chains (cons e es) = is_chain e && are_chains es

unfoldable mutual
  pub joins_on_top : GoError → Bool
  joins_on_top (leaf m) = true
  joins_on_top (schema_validation r m e result) = true
  joins_on_top (wrap m e) = is_chain e
  joins_on_top (caused m e) = is_chain e
  joins_on_top (join es) = all_on_top es

  pub all_on_top : Errors → Bool
  all_on_top nil = true
  all_on_top (cons e es) = joins_on_top e && all_on_top es

as_schema-chain :
    (e : GoError) → is_chain e ≡ true → is_some (as_schema e) ≡ true → every_end e ≡ true
unfolding as_schema every_end is_chain
as_schema-chain (leaf m) c h = cc
as_schema-chain (schema_validation r m e result) c h = refl
as_schema-chain (wrap m e) c h = as_schema-chain e c h
as_schema-chain (caused m e) c h = cc
as_schema-chain (join es) c h = cc

only-chain : (e : GoError) → is_chain e ≡ true → is_only_schema e ≡ every_end e
unfolding is_chain is_only_schema is_schema_validation_error every_end as_schema
only-chain (leaf m) c = refl
only-chain (schema_validation r m e result) c = refl
only-chain (wrap m e) c = ground (arith, only-chain e, as_schema-chain e)
only-chain (caused m e) c = only-chain e c
only-chain (join es) c = cc

mutual
  unfolding joins_on_top is_only_schema is_schema_validation_error every_end as_schema

  only-on_top : (e : GoError) → joins_on_top e ≡ true → is_only_schema e ≡ every_end e
  only-on_top (leaf m) c = refl
  only-on_top (schema_validation r m e result) c = refl
  only-on_top (wrap m e) c = ground (arith, only-chain e, as_schema-chain e)
  only-on_top (caused m e) c = only-chain e c
  only-on_top (join es) c = all_only-on_top es c

  all_only-on_top : (es : Errors) → all_on_top es ≡ true → all_only_schema es ≡ every_ends es
  all_only-on_top nil c = refl
  all_only-on_top (cons e es) c = ground (arith, only-on_top e, all_only-on_top es)

-- For an error whose joins stand above every wrapping error, the exit code is 1 if some end of the
-- tree is no schema validation error and 2 otherwise, whatever the diffs; with no error it is 3
-- or 0 by the diffs.
pub exit_code_priority :
    (e : GoError) (has_diffs : Bool)
    → joins_on_top e ≡ true
    → (determine_exit_code (some e) has_diffs
        ≡ (if every_end e then exit_code_schema_validation else exit_code_tool_error))
      × (determine_exit_code none has_diffs
          ≡ (if has_diffs then exit_code_diff_detected else exit_code_success))
unfolding determine_exit_code
exit_code_priority e has_diffs h = ground (arith, only-on_top e h)

mutual
  unfolding is_only_schema is_schema_validation_error every_end as_schema

  every_end-only : (e : GoError) → every_end e ≡ true → is_only_schema e ≡ true
  every_end-only (leaf m) c = cc
  every_end-only (schema_validation r m e result) c = refl
  every_end-only (wrap m e) c = ground (arith, every_end-only e)
  every_end-only (caused m e) c = every_end-only e c
  every_end-only (join es) c = every_ends-only es c

  every_ends-only : (es : Errors) → every_ends es ≡ true → all_only_schema es ≡ true
  every_ends-only nil c = refl
  every_ends-only (cons e es) c = ground (arith, every_end-only e, every_ends-only es)

-- If every end of an error tree is a schema validation error, whatever its shape, the exit code is 2.
pub exit_code-every_end :
    (e : GoError) (has_diffs : Bool)
    → every_end e ≡ true
    → determine_exit_code (some e) has_diffs ≡ exit_code_schema_validation
unfolding determine_exit_code
exit_code-every_end e has_diffs h = ground (arith, every_end-only e h)

-- An error that wraps a join with a schema validation error in it is classified as schema
-- validation only, whatever else the join holds: with a tool error in it the exit code is 2, not 1.
pub exit_code-wrapped_join :
    (m : Text) (es : Errors) (has_diffs : Bool)
    → is_schema_validation_error (join es) ≡ true
    → determine_exit_code (some (wrap m (join es))) has_diffs ≡ exit_code_schema_validation
unfolding determine_exit_code is_only_schema is_schema_validation_error as_schema
exit_code-wrapped_join m es has_diffs h = ground arith
