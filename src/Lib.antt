-- ===== src/Lib.antt =====
-- Verification of the backend of cursor-byok-lite, a local server that lets the Cursor editor use
-- models of the user's own. The editor opens a stream of events per request and appends messages to
-- it; the forwarder (internal/backend/forwarder) keeps an active stream per request in a broker, an
-- actor per stream calls the provider and the tools, and the conversation's history is stored in
-- files.
--
-- The parts, and where they are:
-- - Prelude: Go's integers, strings and maps, decimal numbers, lists and tests. A string is a list of
--   bytes. An `int` or `int64` is a signed integer with wrap-around where the code adds; a `uint64`
--   is a natural number below 2^64, with the remainder written out.
-- - Stream, Stream/Mode: the types of internal/backend/forwarder/types.go and actor.go for an active
--   stream, its events and its modes.
-- - Backlog: the event log of a stream in internal/backend/forwarder/broker.go: `publish_event`,
--   `compact_backlog` and `read_from_cursor` are the parts of `Publish`, `compactBacklogLocked` and
--   `ReadFromCursor` under the stream's lock. The laws are in Backlog/Invariant, Retention, Reads,
--   Delivery and Unread.
-- - Registry, Broker, Lifecycle: the same file's operations on the registry of streams: `open_stream`,
--   `subscribe`, `unsubscribe`, `advance_subscriber`, `publish`, `read`, `complete`, `fail`, `cancel`,
--   `remove_if_idle` and the cleanup timer. An operation takes the time, its arguments and the
--   registry, and gives the registry and its result. Their laws are in the modules below them.
-- - Reachable: all sequences of these operations, as a step relation.
-- - Actor: timers, `requestProviderAction` and `reconcileStream` of
--   internal/backend/forwarder/actor.go, with the calls into service.go as an effect.
-- - Shutdown: `Shutdown` of broker.go, with the release of a stream's state from actor.go.
-- - AppendSeq: internal/backend/forwarder/append_seq.go, with AppendSeq/Queue for every interleaving
--   of the clients of one request.
-- - ToolCallId: internal/backend/agent/model/tool_call_id.go.
-- - ThinkTags: the parser of think tags in a streamed text, in
--   internal/backend/agent/model/anthropic.go.
-- - Semver: internal/updater/semver.go.
-- - History: the history of a conversation, from types.go, file_store.go and token_usage.go of
--   internal/backend/forwarder. History/Loop derives the state of the
--   loop from it, and History/OpenCalls says what its status means.
-- - Rewind: the decision of internal/backend/forwarder/rewind.go to go back to an earlier turn, and
--   its application in Rewind/Apply.
-- - Replay: the messages of a conversation as a provider takes them, from
--   `normalizeReplayMessageSequence` on in internal/backend/forwarder/projector.go. The types are in
--   Replay, the grouping of batches in Replay/Batches and the other steps in Replay/Sequence.
-- - Truncation: internal/backend/forwarder/tool_result_replay_truncation.go, the cuts of long results
--   at characters of UTF-8 and their notices.
-- - ShellTail: the bounded buffers of a shell's output in await_shell_tool.go.
-- - LineEndings: line endings in edit_result_helpers.go, and the check of content that is read back
--   in patch_edit_tool.go.
-- - EditQueues: the queues of edits that wait for a file, in patch_edit_tool.go, and in
--   EditQueues/Arrivals the list of edits that they stand for.
-- - Usage: the file of used tokens and turns, internal/backend/forwarder/usage_store.go; Usage/Ledger
--   has what its counters stand for.
-- - Examples: the theorems at concrete inputs.
--
-- A map is an association list without an order that
-- matters. Times are natural numbers. Protocol messages are known as far as the code looks at them,
-- and the decoding of a user message is a parameter of Rewind, and so is that of JSON payloads of
-- History/Loop; the SHA-256 sum is a parameter of ToolCallId, of which its length is used; the
-- formats of times are parameters of Usage. Loops are recursion on the lists that they run over, or
-- on a number of elements that a step has taken. Three have fuel: the decimal print has one more
-- than the number, which is more than it has digits, the truncation of a text has the length of the
-- text, of which it needs one, and the parser of think tags has one more than its input has bytes,
-- of which a round takes at least a tag.
--
-- Atomic steps: Go code that holds a mutex is one step. Three operations are one step here although
-- the code lets go of the stream's lock in between: the endings `Complete`, `Fail` and `Cancel` of
-- broker.go, which write the status, publish the end and schedule the cleanup; the timer's
-- `runScheduledTerminalCleanup`, which then calls `RemoveIfIdle`; and `reconcileStream` of actor.go,
-- which acts on what it has read. What others do between the parts of one of these is not modelled.
-- In AppendSeq a round of `acquire`, the end of the wait behind it and a release are steps of their
-- own. In Shutdown a called `ProviderCancel` and a closed `ActorStop` are seen as cleared fields only.
--
-- Not modelled: the mailbox of the actor and the turn logic of service.go,
-- the files and locks of the history, the provider's clients, the bridges to the editor's tools, the
-- prompts, the proxy, the desktop program and the frontend: they are input and output around this
-- core, or work on messages of the protocol whose code the build generates.
pub mod Prelude
pub mod Stream
pub mod Backlog
pub mod Registry
pub mod Broker
pub mod Lifecycle
pub mod Reachable
pub mod Actor
pub mod Shutdown
pub mod AppendSeq
pub mod ShellTail
pub mod LineEndings
pub mod EditQueues
pub mod Truncation
pub mod ToolCallId
pub mod ThinkTags
pub mod Semver
pub mod History
pub mod Usage
pub mod Replay
pub mod Rewind
pub mod Examples
