-- ===== src/Lib.antt =====
-- A model of apprentice-harness, a harness in which a mentor model drives tools on a workspace under
-- the user's permissions, and the theorems that make its core correct.
--
-- How the parts interact: the agent's conversation (crates/core/src/runtime) is sent to the mentor,
-- whose answer comes back as an event stream (crates/core/src/mentor). A tool call in the answer goes
-- through the permission engine (crates/core/src/permissions), which reads the rules of the user and of
-- the workspace and may ask the user through the broker. The tools (crates/core/src/tools) find their
-- files through the sandbox of paths (crates/core/src/workspace) and cut their output to a budget.
--
-- Which file models which part:
--   Api/Codec: crates/api/src/codec.rs, the lines of JSON between the daemon and its clients. A reader is the
--     list of what its buffer is filled with.
--   Permissions/Types: the data of crates/api/src/types.rs and events.rs that the engine reads.
--   Permissions/Command, Rule, Layer, Builtins, Append, Evaluate: crates/core/src/permissions/rules.rs.
--     `matches`, `parse_rules`, `append_rule`, `first_match` and `evaluate` keep their names.
--   Permissions/Suggest, Engine, Decide: crates/core/src/permissions/mod.rs. `decide` is `Engine::decide`,
--     `answered_by` is `Engine::answered`, and the engine is passed from call to call as a state.
--   Permissions/External: what these files call of other crates and of the system (globs, regular
--     expressions, TOML, files), as one record of functions.
--   Permissions/Broker: crates/core/src/permissions/broker.rs, with a channel as a number and what
--     happens during a wait as a list of operations.
--   Mentor/Sse: crates/core/src/mentor/sse.rs. Mentor/Types: the messages of mentor/types.rs, and the errors
--     of mentor/error.rs, whose functions are in Mentor/Error. Mentor/Assemble: mentor/assemble.rs, with what
--     is used of the JSON library as one record of functions. Mentor/Client: mentor/anthropic.rs, with the
--     replies of the HTTP library and the cancellations of the waits as functions of the attempt.
--   Runtime/Conversation: crates/core/src/runtime/conversation.rs.
--   Runtime/Ledger: the accounting of tokens of crates/core/src/runtime/conversation.rs. Runtime/Agent and
--     Runtime/Agent/Loop: crates/core/src/runtime/agent.rs, from `call_mentor` to `execute`, with what a
--     round meets (the replies, the failures of the trace, the cancellation) as a record.
--   Tools/Registry: crates/core/src/tools/registry.rs and schema.rs. Tools/Execute and Tools/Execute/Batch:
--     crates/core/src/tools/execute.rs and mod.rs. What a call meets (the trace, the validator, the gate,
--     the tool) is an argument; the calls that change nothing are concurrent in the code, and their order
--     here is that of the message.
--   Workspace/Paths: crates/core/src/workspace/paths.rs, without the code for Windows.
--   Tools/Limits and Tools/OneLine: crates/core/src/tools/limits.rs.
--   Tools/Capture: `Capture` of crates/core/src/tools/shell/capture.rs.
--   Tools/Transcript and Tools/Reporter: `Transcript` and `Reporter` of the same file, with the answers
--     of the channel as a list.
--   Config/Keypath: crates/core/src/config/keypath.rs.
--   Common: the shared lists, texts, tests and results. Tests modules: runs and witnesses.
--
-- Fuel: the loop of `SseParser::push` has the length of the buffer as fuel, and every round takes a byte
-- at least; `ceil_boundary` has what is left of the text. A call of the mentor has `max_wait_s + 2`
-- rounds, which is enough when no reply asks for a wait of 0 seconds; the digits of a number have the number
-- itself. `flush` and `read_frame` end with the answers of the channel and of the reader. Everything else is
-- structural recursion.
-- Integers are natural numbers; a product of a budget keeps its 64 bits.
--
-- Texts are lists of code points or of bytes, and messages that are formatted are constructors with the
-- arguments of the format.
--
-- Not modelled: the desktop app, the command line, the daemon and its transport, the trace store, the
-- wire form of requests, the hooks, snapshots and streaming of a run, and the tools themselves besides
-- their output limits.
pub mod Api
pub mod Common
pub mod Config
pub mod Mentor
pub mod Permissions
pub mod Runtime
pub mod Tools
pub mod Workspace
