-- ===== src/Lib.antt =====
-- A model of Tile (the Python package under tile/), a headless runtime for coding agents, and the
-- theorems that make its core correct.
--
-- The program. A client opens a session in a Store (tile/store/) and starts a run in it. The run's
-- execution (tile/runtime/run_execution.py) starts a prompt program (tile/runtime/execution.py), which
-- calls the agent loop (tile/agent.py) once, or repeatedly where a typed result is wanted. The loop
-- asks a provider for a stream of events, executes the tool calls of a finished turn through the tool
-- executor (tile/tool_executor.py), and goes on while tools were called. Each event goes through the
-- `emit` function of the run to the run's history (tile/runtime/history.py) and to its event log. When
-- the program ends, the execution heals the history, commits outcome and history delta to the Store
-- in one transaction, and closes the log with one terminal event.
--
-- Files and code.
--   Prelude, Prelude/*         helpers: Boolean tests, lists over native numbers, results, ids
--   Types/*                    tile/types/: blocks, stream events, turns, tool results, outcomes
--   Outcome                    tile/result.py, tile/exceptions.py, and the errors of tile/store/base.py
--   Events                     tile/events.py
--   Store/Models               tile/store/models.py
--   Store/Action               tile/_sqlite.py (immediate_transaction) and the translation of errors
--   Store/Tables               the SQL statements of tile/store/sqlite.py on the tables of
--                              tile/store/schema.py, with the constraints of these tables
--   Store/Rows, Store/Sqlite   the private and the public methods of SQLiteStore
--   Store/Operations           the writing methods of the Store protocol as data, and sequences of them
--   Store/Consistency          the well-formedness of a database, with its preservation in children
--   Store/Effects              what each method does when it succeeds
--   Store/Operations/*         sequences of operations: atomicity, consistency, admission, fencing of
--                              ended runs, isolation of active ones
--   Store/History              committed histories
--   Store/Serialization        tile/store/serialization.py
--   Providers/Assembler        tile/providers/openai/stream_assembler.py and normalized_events.py
--   Providers/Adapter          tile/providers/openai/sdk_event_adapter.py
--   Providers/Serialization    tile/providers/openai/serialization.py; in Committed the requests of runs on
--                              what the program has committed
--   Runtime/History            tile/runtime/history.py
--   Runtime/Monad              code that emits events, changes the world and may raise
--   Runtime/Monad/*            rules for such code: what a return tells, what it adds to the log, and
--                              what it spends of a budget
--   Runtime/Environment        what the runtime calls and does not implement
--   Runtime/ToolExecutor       tile/tool_executor.py
--   Runtime/Prompt             tile/prompt.py
--   Runtime/Agent              tile/agent.py
--   Runtime/Execution          tile/runtime/execution.py, tile/tools/complete.py, tile/tools/fail.py
--   Runtime/RunExecution       tile/runtime/run_execution.py; in its children the log, the recorded
--                              outcome, the committed history, and a run from end to end; in
--                              Subscription the iterator `events` beside the run and other subscribers
--   Tools/Text                 the operations of `str` that the tools use, on lists of code points
--   Tools/Truncation           tile/tools/support/truncation.py, tile/tool_truncation.py
--   Tools/OutputAccumulator    tile/tools/support/output_accumulator.py
--   Tools/Paths                tile/tools/support/paths.py
--   Tools/Edit                 tile/tools/edit.py: messages; in Endings the byte order mark and the line
--                              endings, in Spans exact matches and the splice, in Fuzzy the fallback on
--                              whole lines, in Files the edit of a file
--   Tools/Read                 tile/tools/read.py: selection, notices, image types, path variants; in
--                              Paging a client that follows the notices
--   Tools/ImageProcessing      tile/tools/support/image_processing.py over the calls of the imaging library
--   Tools/Grep, Find, Ls        tile/tools/grep.py, find.py, ls.py: arguments and results of the searches; in
--                              Grep/Limit the limit on matches
--   Tools/Executables, Bash    tile/tools/support/executables.py, tile/tools/bash.py: the output of a process
--                              as the chunks that are read, and the result of its end
--   Tools/Write                tile/tools/write.py over the calls of the file system
--   Examples/*                 concrete databases, a scripted provider, and runs on them
--
-- State. A database is three lists of rows in the order of their insertion; a method is a function from
-- a database to a result and a database, and a transaction gives the old database back on an error.
-- `now` and `uuid` are what the clock and `uuid4` return during a call. A timestamp is a number of
-- microseconds in UTC. A run's state is its event log, its history and the world, of which the provider,
-- the tools and the files are functions (`Environment`). Other clients of the Store are sequences of
-- operations between the start of a run and its end: the theorems about the end hold on any database
-- that satisfies their conditions.
--
-- Fuel. The agent loop runs as long as the provider asks for tools, so it is recursive on fuel, and
-- `exhausted` is a stop that no code of the program raises. Fuel above the number of streams with
-- tool calls that are still to come is enough (`run_agent_loop-ends`). The loop over the attempts of a typed prompt is
-- recursive on the number of follow-ups that are left, at most 8. The search for the starts of an old text
-- has fuel for each character of the content and two rounds more (`find_text_starts-enough`), and a client
-- that pages through a file has a round for each of its lines. The loop that makes an image smaller has a
-- round for each pixel of its two sides (`process_image-Returns`).
--
-- Texts. The runtime passes texts on, so there they are native strings. The file tools take texts apart, so
-- there a text is the list of its code points, with UTF-8 written out; a text has no surrogates.
--
-- Parameters. A provider's stream is the list of its events and the exception that ends it, if any;
-- closing the stream is left out. An event of the OpenAI SDK is seen by what the adapter reads of it.
-- Schema validation is a function of the tool. Cancellation is raised by a call that waits, or before the
-- first step of the task. `str.lower`, `str.strip`, the texts of store errors, the current date, the
-- project files, JSON texts, ISO timestamps, NFKC and NFD, the incremental decoder of UTF-8, the unified
-- diff, `pathlib`, and the reading and writing of files are functions; the laws that a theorem needs of
-- them are its hypotheses.
--
-- Not modelled. The starting of processes, signals and timeouts, the walk over a directory, the
-- handles of tile/sessions.py and tile/runtime/harness.py, schema versions, the tool definitions
-- of a request and its transport, logging, and the opening and closing of connections. Numbers in JSON are
-- kept as their literals, since no code computes with them.
mod Prelude
pub mod Types
pub mod Outcome
pub mod Events
pub mod Store
pub mod Providers
pub mod Runtime
pub mod Tools
pub mod Examples
