-- ===== src/Lib.antt =====
-- Governed learning loop: packages/learning-loop/src.
--
-- The library keeps a governed record of what agents learn: signals are ingested, detectors find
-- conditions, candidates are proposed and reviewed, and an intervention is published, disabled and
-- validated along a fixed table of transitions. Everything durable goes through one storage port
-- with conditional writes. The parts modelled here, each with the files that hold it:
--
-- - Diagnostics: diagnostics.ts. A function that may throw returns a `Result`; a diagnostic keeps
--   its code and severity, not its message, path or details.
-- - Json: canonical/json.ts and canonical/canonical-json.ts (`canonicalJsonText`,
--   `sha256HexOfCanonicalJson`). Json/Parse: parse/toolkit.ts and the parsers of
--   records/semantic-shared.ts that the records use; Json/Texts states their text rules and
--   Json/Order the canonical text's independence of the order of members.
-- - Intervention: records/intervention.ts, the four-dimension state and `interventionTransitionKind`.
--   Intervention/Parse holds the parsers, the content digest and the JSON form; Table describes the
--   edges of the table, History chains of transitions, RoundTrip the parsers' promises.
-- - Store: ports/store.ts and testing/in-memory-store.ts. Each method returns the new store with its
--   result, and Reading holds `get` and `list`. Steps relates the stores around a call, Runs those
--   around a sequence of calls by any writers; Retries and Conflicts treat two calls, Listing the
--   pages of `list`, Invariant the cells.
-- - Detectors: reference-detectors/evaluate.ts. Order holds the sort by episode and sequence,
--   Polling, Context, Tooling, Coordination and Redirection the evaluators, Policy
--   `parseReferenceDetectorPolicy`, and Evaluate the dispatch. The children of Polling, Tooling and
--   Policy compare them with independent descriptions; Coordination/Fuel treats the loops that
--   follow parents.
-- - Review: records/review.ts and the principal reference of records/principal.ts, with the validity
--   rule. Governance: engine/governance.ts, `computeGovernanceView`.
--
-- - Semantic: records/semantic-shared.ts, versions, references, sorted sets, and in Constraints the
--   constraints on episode classes and lenses. Publication: records/publication.ts, with the parsers
--   in Parse; Bound says what a plan and a receipt bind, Bases which bases a binding expects.
-- - Action: how the engine's functions run. An action takes a world, which holds the store, the
--   calls that other writers make before each of its own, and the clock's count; it returns a result
--   and the world after it. Action/Laws has the rules for what an action yields.
-- - Engine: engine/context.ts, record keys and digests and the checks of stored records; Engine/Load
--   has `loadStoredRecord` and `createOnly`, and Engine/Created what the latter's answer says of
--   the store. Engine/Pages has `iterateRecordPages`; Covers and Stable treat it among other writers,
--   Returns alone, and Cells the lists of cells.
-- - Journal: engine/publication-journal.ts. Journal and Append hold the stream of transitions and
--   `appendInterventionTransition`, Receipts the stored receipts, Consumption the consumption of
--   authorizations, Headers the headers, Scopes the memberships of a scope, Evaluations the
--   evaluation index, and Fold the fold. Legal, Entries and Loads treat what a stored stream loads
--   as, Reads and Settled reading and appending among other writers, Refines, Solo and Grows the
--   append alone, Overfull and Ceiling streams above the ceiling, Bound, Consumed, Scoped, Indexed
--   and Folded the other records.
--
-- What the program takes from the language's runtime is a parameter, the record `Runtime` of Json:
-- SHA-256, the JSON text of a string and of a number, the order of texts, and whether a text is a
-- canonical timestamp. A JSON number is a natural number or any other number by its text. Numbers
-- that the source keeps below 2 ^ 53 are natural numbers; the parser of sequences checks the bound.
--
-- Loops are structural recursion on the list that they go through. The loops that follow parents run
-- on fuel, one or two more than the number of entries of the parent map: each turn but the last ones
-- visits an entry that was not visited before.
-- The append loop runs on the eight attempts that the source allows.
-- A reader of the store's pages runs on the number of pages that it may ask for; one more than there
-- are cells to read is enough while no one writes.
--
-- Not modelled: the rest of the engine's persistence on top of the store (ingest, the listing of a
-- scope, the publication that drives the journal, recurrence and detector runs),
-- experiments, the file store, workflows, and the transcript sources. Journal/Fold loads the
-- evaluations of an index one after the other where the source awaits them together.
mod Prelude
pub mod Diagnostics
pub mod Json
pub mod Intervention
pub mod Store
pub mod Detectors
pub mod Review
pub mod Governance
pub mod Action
pub mod Engine
pub mod Journal
pub mod Publication
pub mod Semantic
