-- ===== src/Lib.antt =====
-- crossplane-diff, the command that shows what an XR or a Composition would change in a cluster:
-- its core as definitions, with the theorems that make it correct.
--
-- How the program works, and which file models what. An input XR is rendered by its composition
-- (cmd/diff/diffprocessor/diff_processor.go), again and again until nothing new turns up; every
-- rendered resource is compared with the cluster's copy (diff_calculator.go, with the comparison in
-- cmd/diff/renderer/diff_formatter.go); resources of the cluster's tree that were not rendered are
-- removals; nested XRs are processed on the way, and their results are merged before removals are
-- looked for. Diffs are printed in full or in compact form (diff_formatter.go), and errors decide
-- the exit code (errors.go).
--
-- - Prelude, Text, GoMap, Result: Boolean tests and lists on the native numbers; strings as lists of
--   code points with the functions of Go's strings package that are used; maps as association lists;
--   what a function returns: a value, an error or nothing, because a nil pointer is dereferenced.
-- - Objects, Objects/Api: map[string]any values, and the functions of apimachinery that the program
--   calls on them, as the fields of a record. Its documented behaviour is the record NestedLaws.
-- - Types (cmd/diff/renderer/types/types.go): DiffType, ResourceDiff and its key, generated names,
--   output errors.
-- - Errors (cmd/diff/diffprocessor/errors.go): error trees with errors.As, exit codes, and the
--   errors of the structured output.
-- - Formatter (cmd/diff/renderer/diff_formatter.go): Lines is processLines, formatLine and the full
--   format; Compact is the compact format, from the change blocks to the pieces that are written.
-- - Compare (the same file): Paths is removeNestedPath, Cleanup is cleanupForDiff, Generate is
--   GenerateDiffWithOptions.
-- - Preserve (cmd/diff/diffprocessor/preserve.go): CopyLabels and CopyCompositionRef.
-- - Calculator (cmd/diff/diffprocessor/diff_calculator.go): Single is CalculateDiff, Composed is
--   CalculateNonRemovalDiffs and CalculateDiffs, Removed is CalculateRemovedResourceDiffs; Merge is
--   about the merge of the two.
-- - Manager (cmd/diff/diffprocessor/resource_manager.go): Fetch is FetchCurrentObject, Owners is
--   UpdateOwnerRefs, Observed is FetchObservedResources. The interface ResourceManager that the
--   calculator is made with is a part of the record Clients in Calculator/Single; Supplied fills it.
-- - Processor (cmd/diff/diffprocessor/diff_processor.go): Perform is PerformDiff, Render is
--   RenderToStableState with its stability checks, Nested is diffSingleResourceInternal and
--   ProcessNestedXRs, which call each other; the steps between the input and the comparison are the
--   fields of a record there; Claim is buildMergedSpec.
-- - Requirements (cmd/diff/diffprocessor/requirements_provider.go): the cache of required resources
--   and the resolution of selectors. addUniqueResource stands in Processor/Render, with its loop.
-- - Functions (cmd/diff/diffprocessor/function_provider.go): the names of the function containers.
-- - Selection (cmd/diff/client/crossplane): the clients that say which composition a resource uses,
--   and which resources use a composition. Paths is the fields of Crossplane's two APIs (in
--   composition_client.go), Selector the label selectors of revisions, State the clients' caches
--   with the operations that read and fill them, Definitions the lookups of XRDs
--   (definition_client.go), Revisions composition_revision_client.go, Match, Find and Discover
--   composition_client.go: the choice by labels and by type, FindMatchingComposition, and
--   FindComposites with its lookup of references.
-- - CompDiff (cmd/diff/diffprocessor/comp_processor.go): Scope is calculateCompositionDiff, Classify
--   the composites that would adopt the composition, Impact the composites rendered with it, Process
--   processSingleComposition, Run DiffComposition. Impact renders with a function that stands for
--   the processor's DiffSingleResource.
-- - Ref (cmd/diff/ref/ref.go): names of resources on the command line.
-- - Tests: concrete inputs, with a concrete apimachinery and a concrete comparison (Tests/Cluster,
--   with owner references in Tests/Owners).
--
-- State and its passing: a Go object that is changed in place is returned changed. Deep copies are
-- the values themselves. The variables that a loop changes are a record (Progress, Collected). The
-- interfaces a component is made with (ResourceManager, ApplyClient, ResourceTreeClient, RenderFunc,
-- ResolveSelectors) are the fields of a record: functions that answer as the cluster does while one
-- XR is processed. A map is iterated in the order of its association list. Log
-- messages are left out, and so are the texts that only they read, and the warnings that reach the
-- user, but for the one that another composite owns a resource: a Bool that Manager/Fetch returns.
-- Composed resources that the calculation of their diffs changes in place (left_composed in
-- Calculator/Composed) go on to the nested XRs as it leaves them.
--
-- Bounds and fuel. The render loop runs on the number of iterations that is left, as the code counts
-- them; how many are enough stands with Processor/Render/Enough. The calls that nested XRs make run on
-- the number of calls that may stand on the stack: with none left nothing is returned, as when Go's
-- stack is used up. The walk of the resource tree and all other loops are structural.
--
-- The clients' caches are a record that each call takes and gives back, filled as the code fills it
-- (Selection/State); the composition processor sees the clients as functions of what they are asked.
--
-- Not modelled: the command line and its wiring (cmd/diff/main.go, xr.go, comp.go), the clients that
-- only call the API server (cmd/diff/client/kubernetes, and the tree, environment, function and
-- credential clients of cmd/diff/client/crossplane), the render engine and the running of the
-- function containers (render_engine.go, function_provider.go), schema validation, and the printing of
-- reports (structured_renderer.go, comp_diff_renderer.go), which are input and output or calls of
-- other libraries; of diff_processor.go the preparation of an input XR up to its comparison, whose
-- steps are parameters.
pub mod Prelude
pub mod Text
pub mod GoMap
pub mod Objects
pub mod Types
pub mod Errors
pub mod Result
pub mod Formatter
pub mod Compare
pub mod Preserve
pub mod Calculator
pub mod Requirements
pub mod Functions
pub mod Selection
pub mod CompDiff
pub mod Manager
pub mod Processor
pub mod Ref
pub mod Tests
