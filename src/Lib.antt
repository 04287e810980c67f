-- ===== src/Lib.antt =====
-- ash is an execution shell for agents: requests arrive as framed documents, are authorized and
-- budgeted, run over a workspace, and leave their results in a session's stores. This library models
-- the parts that decide what such a request may do, and states what they guarantee.
--
-- The program's parts and their files:
--
--   Protocol/Operation    crates/ash-protocol/src/operation.rs: the operations, their identifiers
--                         (`Operation::id`, `from_id`) and the bits by which they are negotiated.
--   Protocol/Approval     crates/ash-protocol/src/capability.rs: capability bits, approval challenges,
--                         their signing bytes (`signing_bytes`, `from_signing_bytes`), and the
--                         hexadecimal text of tokens and digests.
--   Protocol/Ason         crates/ash-protocol/src/ason: the document model (Model), the encoder
--                         (Encode), scalars (Scalar), the splitter of rows and vectors (Split), and
--                         the parser (Parse/Items up to headers, Parse/Lines for whole documents).
--                         Parse/Fields has what the loop over the lines has read, and RoundTrip
--                         reads back what the encoder wrote.
--   Protocol/Frame        crates/ash-protocol/src/frame.rs: `FrameCodec`, over streams that are
--                         parameters.
--   Protocol/Handshake    crates/ash-protocol/src/handshake.rs: requests, negotiation, responses and their
--                         checks.
--   Engine/Budget         crates/ash-engine/src/budget.rs: `BudgetTracker`. Concurrent has the atomic
--                         steps of many reservations in any order; Sequential has one thread.
--   Engine/Parallel       crates/ash-engine/src/parallel.rs: the worker counts of `Parallelism`.
--   Engine/Governor       crates/ash-engine/src/governor.rs: `Governor` and `HierarchicalGovernor`, over
--                         semaphores that are parameters. Tasks has the steps of many
--                         tasks, and Conservation what they keep (Semaphores).
--   Engine/Session        crates/ash-engine/src/runtime.rs: the table of a session's active requests,
--                         with crates/ash-engine/src/cancellation.rs. Closing has calls that race.
--   Engine/Dag            crates/ash-engine/src/dag.rs: the validation of a graph of jobs (Dependents, Visiting,
--                         Acyclic) and `execute_dag` (Execution), where a schedule says which running
--                         job completes next. Plan has the oracle; Settling, Dependent, Release and
--                         Completion follow the loops from the inside out, and Oracle joins them.
--   Store/PathDictionary  crates/ash-store/src/path_dictionary.rs: the session's path interner.
--   Store/ResultStore     crates/ash-store/src/result_store.rs: the store of results under aliases, with its
--                         reservations and leases. Contents has digests, comparison and reads, Retain
--                         `retain_pending`; Retaining and Assigning follow its loops, Contract joins
--                         them, and Runs has all the calls in any order (Invariant, Steps). Sample has
--                         the two ends of a long stream.
--   Ops/Authorization     crates/ash-ops/src/authorization.rs: `AuthorizationPolicy` (Policy) and
--                         `PermitAuthority` (Permits), with what its callers can make it do.
--   Shell/Glob            crates/ash-shell/src/glob.rs: the compiler of a pathname component
--                         (Compiling) and its matcher (Matching) against what a pattern means
--                         (Denotation).
--   Common                what the parts share: the tests on native numbers, lists, Rust's `Result`
--                         with its `?`, maps, byte strings, machine words, text and radix notation.
--
-- How they interact: a handshake settles the limits of a session; a frame carries the text of a
-- document; a request that needs approval is answered with a challenge, whose signing bytes the
-- authority hashes into a token; the token comes back in hexadecimal and is verified once. Budgets
-- bound what a program writes, the path dictionary names the paths that it writes, and long results
-- stay in the result store under an alias.
--
-- How the code is read. Text is a list of Unicode scalar values, measured in UTF-8 bytes where the
-- code measures bytes. A `u64`, `u32` or `usize` is a native number; checked and saturating operations
-- write their bound out, with 64 bits for `usize`. A method that changes `self` returns the new state
-- beside its result, on the error paths too. A poisoned mutex is a flag of the state. The hashes of
-- blake3, the clock, what a read of a spool file gives, and the streams of tokio are arguments; what is
-- assumed of a stream is stated as `IsReader` and `IsWriter`, of a semaphore as `IsSemaphore`. A
-- `HashMap` is an association list whose order no statement reads.
--
-- Fuel. The loop of `quoted` has a round for every character of its source, the loop over the lines of
-- a document a round for every line, and the loop that fills a buffer a round for every byte wanted.
-- The visits of a graph and the rounds of its execution have one for every node, the comparison of
-- contents one for every byte, and the loop over a pattern one for every unit.
-- Each round takes one of these at least, so no fuel is short: for the lines this is part of
-- `fields_loop-new_document`, for the units of a pattern `compile_loop_enough`, and for the buffers and the
-- quoted text it is part of the theorems below.
--
-- Not modelled: the document functions of the frame codec, `authorize` and the schemas of requests and
-- responses, the documents of the handshake, the rest of the captured streams and the spool files of
-- the result store, the operations' handlers, the rest of the shell language, processes and
-- transactions, and updates; most of these are layers over the parts here. Debug and display texts are
-- left out.
pub mod Common
pub mod Protocol
pub mod Engine
pub mod Store
pub mod Ops
pub mod Shell
