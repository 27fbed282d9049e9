-- ===== src/Lib.antt =====
-- Study Loop: the stores that make its learning sessions safe to retry.
--
-- The program is a learning assistant: routers (routers/) take requests, agents (agents/) and services
-- (services/) answer them with a language model, and SQL stores make the answers durable. A request that
-- may have an effect first claims an idempotency key in `services/idempotency.py`; a long run that waits
-- for the learner is paused in `services/autonomous_sessions.py` and continued under a claim; a quiz is
-- kept in `services/quiz_sessions.py`, where routers/session.py claims it, applies an answer to a copy and
-- commits the copy. A quiz that passes completes a stage of a learning path in
-- `services/learning_path_store.py`. A run of a model goes in rounds, `services/tool_loop.py`: its tool
-- calls pass the guard of the request, `services/tool_scope.py`, and go to `services/tool_registry.py`,
-- which marks the receipt of the request before a handler with an effect starts. A document that is
-- uploaded is cut into chunks by `services/chunker.py`. Each call of a store is one transaction, so a
-- history of the program is a list of calls with their times.
--
-- Files:
--   Base, Base/...      Booleans, options, lists, texts and a result type over the native numbers.
--   Json                JSON values as `json.loads` returns them, and a TEXT column of JSON.
--   Table, Table/Keys   SQL tables as keyed lists: guarded UPDATE, DELETE, INSERT OR IGNORE and sweeps.
--   Table/Order         ORDER BY time, key: the order in which both full tables evict.
--   Quizzes             models/session.py, services/session.py and services/quiz_sessions.py. Quiz is the
--                       aggregate, Valid its `validate_state_machine`, Answers the taking of an answer and
--                       the result, Row the row and the payload codec, Store the calls on one quiz, Create
--                       `_create_sync` and `_make_capacity`, History the calls as data. Progress, Keeps,
--                       Results, Reading, Commits, Ownership, Room, Starts and Revisions hold proofs.
--   Receipts            services/idempotency.py. Receipt is the row, Begin is `_begin_sync`, Owner the
--                       calls of the owner of a claim, Repair `_reconcile_completed_sync`, History the
--                       calls as data. Sealed, Fencing, Replay, Valid and Binding hold proofs.
--   Chunks              services/chunker.py. Chars is the characters and `_normalize`, Splits the three
--                       regular expressions, Chunker the class; a text is the list of its code points.
--                       Ink, Kept, Content, Documents and Bounds hold proofs.
--   Paths               services/learning_path_store.py. Row is the rows, their hashes and the reading of a
--                       path, Creation is `_create_sync` and the lookups, Stages is
--                       `_complete_stage_sync`; the other files hold proofs.
--   Rounds              services/tool_loop.py: one round of tool calls. Transcript is the lineage of the
--                       results and the bindings, Prepare the batch before its barrier, Round the rest.
--                       Guarded, Vetted, Batches, Scoped, Protocol, Answers and Complete hold proofs.
--   Scope               services/tool_scope.py: the guard on the arguments of a tool call.
--   Tools               services/retry.py (Retry) and services/tool_registry.py: Registry and Reservations
--                       are its state, Admission and Invoke are `invoke` before and after its first
--                       await, Tasks the calls of several tasks. Effects, Owners, Invocations, Reserves,
--                       Sets and Once hold proofs.
--   Sessions            services/autonomous_sessions.py. Row is the row and its JSON columns, Sweep the
--                       reaping and purging, Claim `_claim_sync`, Owner the calls with a token, Views
--                       the calls without one, Capacity `_save_sync` and `_handoff_sync`, History the
--                       calls as data. Moves is the life of a row as a step relation, Refines, Taking,
--                       Claims, Eviction, Thinning and Steps relate the calls to it, PrimaryKey,
--                       Invariant, Counting, Room, Histories, Outcomes, Fencing and Handoff hold proofs.
--
-- What the model takes over from the code and what it leaves open:
--   Time is a natural number of clock units and is read by the transaction as the code reads it; the
--   sums of a time and a lease are exact. A history may hold its times in any order.
--   A statement that raises rolls its transaction back: the result then carries the old table.
--   `FOR UPDATE` and `BEGIN IMMEDIATE` make a transaction one step. The race that they leave open, an
--   INSERT of the same key by another PostgreSQL transaction, is the argument `between` of `begin_sync`,
--   of `complete_stage_sync` and of the `create_sync` of paths.
--   `id_before` is how the database orders conversation ids, a parameter of the store's settings.
--   Code of other packages is a parameter: pydantic's parsing and dumping, hashlib's hash and the repr of
--   a rounded score in `Codec`, and the comparison of two answer texts, `answers_match`, which folds case
--   by Unicode and matches regular expressions. What a theorem assumes of them is a hypothesis of it.
--   A column that may be NULL is an Option, and a comparison with NULL is false.
--   What other tasks do while a call of the registry waits for its callback is the parameter `Barrier`,
--   which leaves any world; between two awaits a task is one step.
--   A text that json.dumps writes into a tool message is a constructor, and what json.loads reads of a text
--   is a parameter. So are the tables of Unicode behind `isdigit`.
--   Every function is total: the recursions are structural. Only the hard cut of a text (Chunks) has fuel,
--   the length of the text, which is enough where the chunk size is positive; `range` raises where it is
--   zero.
--
-- Not modelled: the asynchronous wrappers that run a transaction in a thread, and release it when the
-- caller is cancelled; connections, schema creation and migration; the validation and the size limits of
-- arguments; a clock that raises. The other services, the agents and the routers are not modelled: they
-- are calls of a language model, of a vector store, or of HTTP clients.

pub mod Base
pub mod Chunks
pub mod Json
pub mod Paths
pub mod Quizzes
pub mod Receipts
pub mod Rounds
pub mod Scope
pub mod Sessions
pub mod Table
pub mod Tools
