-- ===== src/Lib.antt =====
-- The debug adapter of CodeLLDB (src/codelldb), modelled from its Rust sources.
--
-- The adapter reads debug-adapter-protocol messages from a byte stream, dispatches them to a
-- debug session, and drives LLDB. Paths below start at the repository's root.
--
-- Prelude holds the shared names, tests on numbers, lists, an equality interface and finite maps.
--
-- Handles models src/codelldb/src/handles.rs (`HandleTree`): `new`, `reset`, `create`, `get` and
-- `get_full_info` keep their names. A handle is an `i64` kept as its 64-bit pattern; a panic is
-- `none`. A `HashMap` is an association list whose `insert` replaces. Handles.Valid has the
-- invariant, Handles.Reuse what happens across `reset`.
--
-- Str models what the adapter uses of Rust's str: UTF-8 validation, trimming and decimal numbers.
--
-- Codec models src/codelldb/src/dap_codec.rs (`DAPCodec`). `decode_loop` is the loop of `decode`,
-- `round` one pass through it, `header_line` what is done with a header and `read_body` the
-- ReadingBody state. serde_json is the parameter `Json`, which also says whether the `debug!`
-- lines are on, since they read the message as text. The loop has fuel, one more than the bytes
-- in the buffer, which is enough, since each round that goes on drops a line. A panic is the
-- outcome `panic`.
--
-- Disassembly models src/codelldb/src/disassembly.rs (`DisassembledRanges`), the ranges of
-- instructions shown to the client. The functions keep their names; the two tables are `Ranges`,
-- and LLDB's addresses, symbols and instructions are the parameter `Lldb`.
-- `slice::partition_point` is the length of the first part of a slice that the predicate splits.
-- `get_source_text`, which only lays out text, is left out.
--
-- Breakpoints models src/codelldb/src/debug_session/breakpoints.rs. The `i64` lines and columns
-- of the client are kept as their 64-bit patterns. Breakpoints.Interface has what the session
-- keeps of a breakpoint, Breakpoints.Hit the callback `on_breakpoint_hit`: the symbols on the
-- stack, Python and `format_logpoint_message` stand in `HitContext`. The hit count is a `u32`
-- that wraps around, as in a release build. Breakpoints.Exclusions models
-- `handle_set_excluded_callers`. Breakpoints.LogMessage models `replace_logpoint_expressions` of
-- `format_logpoint_message`: `Scan` has the variables of its loop, the slice behind `start` being
-- the text itself, and the evaluation of an expression is its argument.
--
-- The handlers of breakpoints work on `State`, of which Breakpoints.Target has the tables, with
-- the LLDB target as the parameter `SbTarget` and what LLDB documents of breakpoint ids as
-- `SbLaws`; `Env` has the other functions that they call. They are written in the monad of
-- Prelude.Exec, so that a change stays when an error follows. Breakpoints.Actions has
-- `make_bp_info`, `init_bp_actions` and `make_bp_response`; Breakpoints.Handlers the loop that
-- the handlers share, which is `establish` for each request in `each_request` and then
-- `delete_missing`, and `set_source_breakpoints`; Breakpoints.Requests the handlers for
-- disassembly, instructions and functions, and `handle_set_breakpoints` as `set_breakpoints`;
-- Breakpoints.Exceptions exception breakpoints and `handle_breakpoint_event`. The protocol's
-- types of requests and responses, which are generated, are records with the fields used. The map
-- of names that LLDB keeps and `handle_exclude_caller` are not modelled.
--
-- Cancellation models src/codelldb/src/cancellation.rs: the `Arc<Inner>` that a `Sender` and its
-- `Receiver`s share is a cell of `Heap`, and callbacks are known by numbers, `called` being which
-- of them ran. Cancellation.Filter models `cancellation_filter` of
-- src/codelldb/src/debug_session.rs: `on_request` is one round of its loop, `Event` adds the
-- session's dropping of a receiver, and the channel to the session is the list `forwarded`. The
-- channel is taken to be open and no request to be missed. Cancellation.Counts has the runs of
-- the operations as a step relation, Cancellation.Reaches and Cancellation.Stops what a
-- cancellation does after any events.
--
-- Session models src/codelldb/src/dap_session.rs: the loop that `DAPSession::new` returns, and
-- the calls that put messages into its queue, over the message types of
-- src/adapter-protocol/src/lib.rs. The channels are lists of what went through them, a `oneshot`
-- sender is a number, and `Action` is what happens next: the client sends something, the
-- dispatcher takes a message from the queue, or somebody calls `send_request`,
-- `try_send_response` or `try_send_event`. The bodies of messages and serde_json values are the
-- parameter `Protocol`. Sending to a channel whose other end is gone is only logged, and has no
-- effect.
--
-- Disassemble models the parts of src/codelldb/src/debug_session/disassemble.rs under its request
-- handler: `partition_point`, `read_memory` and `disassemble_bytes`, with the process and the
-- decoder of LLDB as the parameter `Process`. The search has as much fuel as the range has
-- addresses, and each of its rounds makes the range shorter; decoding has as much fuel as the
-- buffer has bytes, of which each round takes at least one. Disassemble.Request models
-- `handle_disassemble`: `window` is the range that is read, `align` the loop that looks for a
-- place to begin decoding at, `select` picks and pads the lines, and Disassemble.Render shows
-- each of them; sums of `i64` and `u64` wrap around as in a release build (Prelude.Int). What
-- LLDB tells of an instruction, and the parser of numbers, are the parameter `View`.
--
-- Fsutil models `normalize_path` and `lldb_quoted_string` of src/codelldb/src/fsutil.rs. A path
-- is the list of its components, and `pop` and `push` are those of `PathBuf`. `is_same_path`,
-- which asks the file system, is left out.
--
-- SourceMap models `map_filespec_to_local` and `ensure_absolute_path` of
-- src/codelldb/src/debug_session.rs with their cache, as code that changes the session's
-- `Sources` and may panic; MustInitialize models src/codelldb/src/must_initialize.rs. The file
-- system, `get_fs_path_case` of the platform among it, is the parameter `Files`; paths are those
-- of Unix.
--
-- DebugSession.Dispatch models `handle_request`, `handle_request_args` and `send_response` of
-- src/codelldb/src/debug_session.rs: `route` has the arms of the two matches, `Session` the
-- fields that are used, the responses and the tasks spawned for responses that come later.
-- `try_send_response` of src/codelldb/src/dap_session.rs fails when the queue is full or closed,
-- which is only logged: `accepts` tells the outcome of each try, and what is not accepted is
-- `lost`. The session is taken to live until its tasks end; the receivers are those of
-- Cancellation. The handlers of the single requests are the parameter `Handlers`, which may
-- change the rest of the session and the receivers' counts but send no response themselves.
-- DebugSession.Blame models src/codelldb/src/error.rs; of boxed errors those are told apart that
-- the code tells apart by a downcast.
--
-- StepIn models src/codelldb/src/debug_session/step_in.rs, with LLDB as the parameter `Lldb`:
-- `call_target_function` and the texts of operands it reads, StepIn.Targets
-- `handle_step_in_targets` (StepIn.LineEnd and StepIn.Called say without its loops where a
-- statement ends and which functions it calls), and StepIn.Stepping `step_into_target` within
-- `with_sync_mode`. A round of its loop is `move_of`, which decides, and `follow`, which steps
-- the debuggee of the parameter `Stepper`. The loop is on fuel, since only the debuggee or the
-- user ends it: as many rounds as there are up to the cancellation of the request are enough.
--
-- Memory models `handle_read_memory` and `handle_write_memory` of
-- src/codelldb/src/debug_session.rs, with the process, parse_int and base64 as the parameter
-- `Process`.
--
-- Control models the requests that let the debuggee run: `handle_continue`, `handle_pause`,
-- `handle_next` and `handle_step_out` of src/codelldb/src/debug_session.rs, with `before_resume`,
-- `thread_by_id` and `in_disassembly`, and `handle_step_in` of
-- src/codelldb/src/debug_session/step_in.rs. It uses the handles of Handles and the files of
-- SourceMap; LLDB, with the stepping of StepIn.Stepping, is the parameter `Driver`. Of the events
-- only the calls that send them are kept. Control.Goto models `handle_goto_targets` and
-- `handle_goto`, with the ranges of Disassembly.
pub mod Prelude
pub mod Breakpoints
pub mod Cancellation
pub mod Codec
pub mod Control
pub mod DebugSession
pub mod Disassemble
pub mod Disassembly
pub mod Fsutil
pub mod Handles
pub mod Memory
pub mod MustInitialize
pub mod Session
pub mod SourceMap
pub mod StepIn
pub mod Str
