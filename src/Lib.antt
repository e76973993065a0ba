-- ===== src/Lib.antt =====
-- TASC, the trace-aware serving controller: a verification library for its event-sourced controller
-- (src/controller.ts and src/controller-events.ts), the sealed windows that feed it
-- (src/window.ts), the budgets on assessment work (src/work-budget.ts, src/legacy-work-budget.ts),
-- the streams that its runtime reads (src/runtime/sse.ts, src/runtime/ndjson.ts,
-- src/bounded-input.ts), the addresses that it may connect to (src/runtime/network-policy.ts) and
-- the arguments of its command line (src/cli-args.ts).
--
-- The program. A controller is a snapshot, derived from a log of events. Each event carries one
-- fact: a registration, a decision on development, holdout or window data, a window manifest, a
-- deployment, a drift, an expiry, a retirement. A snapshot and an event are checked for their shape,
-- their coherence and their digest; an event is applied to a snapshot under the guards of its
-- envelope and of its kind, and the snapshot that results is checked again. A command makes one fact
-- and appends it to a live snapshot. A log is replayed onto a genesis, and a stored checkpoint is
-- verified by the replay of its prefix or by a pinned anchor, then resumed with a suffix.
--
-- The runtime collects the chunks of a response in one buffer under limits on bytes and chunks,
-- with the time at which each chunk was seen, and checks that they are UTF-8. The collected bytes
-- are then parsed as an event stream, as an event stream of JSON values, or as lines of JSON, under
-- limits on lines, fields and events, and summarized under the protocol of the provider. A JSON
-- text is scanned by a machine with a stack of open containers, under limits of its own, before the
-- platform parses it.
--
-- The files.
--   Base and its children: lists, options, Boolean tests, integers and results of fallible code.
--   Text, Text/Sort: strings as UTF-16 code units, `compareCodeUnits` of src/determinism.ts, slugs
--     and digests of src/evidence.ts, sorting and `Set` on strings.
--   Timestamp: the timestamps of src/controller-events.ts and of src/evidence.ts.
--   Controller/Types, Schema, Errors: the values of src/controller-events.ts, the tests of their
--     schemas, and the errors that both controller files throw.
--   Controller/Semantics and its children: `assertSnapshotBodySemantics`, cut into its sections in
--     the source's order; each loop is a recursion on its list with the loop's variables as arguments.
--   Controller/Log: `createControllerFact`, `createControllerEvent`, `createControllerSnapshot`, the
--     parsers and `compareControllerTimestamps`.
--   Controller/Envelope, Ledger, Facts, Apply: `assertEventEnvelope`, `applyWindowProjection`, one
--     function for each case of the `switch`, and `applyParsedControllerEvent`, of src/controller.ts.
--   Controller/Decisions: the projection and the index of authentic assessment decisions.
--   Controller/Replay, Checkpoint, Commands: `replayController`, `verifyControllerCheckpoint`,
--     `resumeController` and the exported commands.
--   Controller/Coherent, Diagram, Advance, Resume and the children of Ledger, Facts, Replay, Apply,
--     Decisions and Commands: the proofs. Controller/Tests and its children: a life of a controller on
--     concrete values.
--   Window/Types, Schema, Traces and Window: src/window.ts and `projectWindowManifest` of
--     src/controller.ts. Window/Revision, Membership, Identity: the proofs.
--   Stream: the values of src/runtime/sse.ts. Stream/Bytes, Utf8, Snoc: byte arrays, the platform's
--     decoder, and lists that grow at their end. Stream/Collect: `collectStream`; Stream/Observed:
--     `observedAtOffset`; Stream/Limits: the limits of `normalizeSseOptions`, `snapshotJsonLimits` and
--     `normalizeOptions`.
--   Stream/SseLines, Stream/Sse: `parseSseBytes` as far as one line, and the loop, `timing` and
--     `parseBoundedSse`. Stream/Json, Stream/JsonSse: `parseBoundedJsonSse`. Stream/Ndjson:
--     src/runtime/ndjson.ts, which shares the collection and the search. Their children: the proofs.
--   JsonInput: the strings and numbers of src/bounded-input.ts; JsonInput/Machine: `validateJsonGrammar`;
--     JsonInput/Parse: `parseBoundedJson` and `parseBoundedNdjson`. JsonInput/Grammar, Tokens: the grammar of
--     JSON. JsonInput/Streams: JSON event streams that this parser reads. Its other children: the proofs.
--   Network: the IPv4 addresses of src/runtime/network-policy.ts.
--   Work, Work/Legacy: src/work-budget.ts and src/legacy-work-budget.ts.
--   Cli: the options of src/cli-args.ts. Cli/Types, Commands: its commands and `parseCliArguments`. Cli/Print:
--     the command line of a command; its other children: the proofs.
--   Examples: the theorems outside the controller on concrete values.
--
-- How code and model correspond. A function that throws returns a `Result` whose error names the
-- guard. `null` and `undefined` are `none`. Fields with one literal value are left out. What the
-- program compares by `canonicalJson` is compared as a value. The identity of live objects
-- (`liveControllerSnapshots` and `liveControllerEventHistory`) is the field `history` of a
-- `Handle`: an object that is not live has none. Recursion is on lists, except in three loops with
-- a bound on their rounds: the growth of the buffer, for which one round is enough, and the binary
-- search over the marks, for which the number of marks is; and in the scanner of JSON, whose rounds
-- each consume a unit of the source, so that one more than its length is enough. A source is the
-- list of what its iterator gives, each chunk with the clock as it is read then; times are natural
-- numbers of milliseconds. Numbers are natural numbers, with the bound 2^53 - 1 where the source
-- tests it.
--
-- Parameters. SHA-256 and the JSON that it is taken of are the functions `digest_...` of `Contracts`
-- and of `WindowContracts`; no theorem assumes that they have no collisions, except that one asks a
-- capacity digest to tell two given declarations apart. `fits_...` says whether a value is within the
-- bounds of `snapshotBoundedContractInput`. Whether a decision is authentic is a field of `Decision`.
--
-- Not modelled: the capture of untyped arguments, which copies and refuses malformed objects;
-- `normalizeExperimentProtocol`, of which the controller takes a `Protocol`; the parsing of traces,
-- of which the windows take a `Trace`; of the streams, the inspection of untyped options and of the
-- iterator's descriptors, and times that are not natural numbers; of src/bounded-input.ts, the
-- inspection of views and limits, the line numbers of errors and the collection of chunks;
-- assessment, statistics, evidence joins, the rest of the runtime and the input and output of the
-- command line.
pub mod Base
pub mod Text
pub mod Timestamp
pub mod Controller
pub mod Work
pub mod Window
pub mod Examples
pub mod Network
pub mod Stream
pub mod JsonInput
pub mod Cli
