-- ===== src/Lib.antt =====
-- LitTrace: a verification library for the state that the literature assistant keeps and for the
-- rules by which its background work goes on.
--
-- The program keeps every session, chat trail, thread binding and background job in one PostgreSQL
-- schema. Its methods are the class PostgresStateStore of src/littrace/state_db.py; session.py
-- saves workspaces through them, the job modules take work from the queue and write it back, and
-- codex_runtime/service.py commits tool calls through them. The other parts modelled here decide
-- when something is done again, and how much of it: the retry decorator, the rate limiter, the
-- download tasks, the cache, the context of a workspace and the workflow report. The agent's side
-- is tool_contracts.py, under whose policies and budgets tools run, codex_runtime/gateway.py,
-- whose writing tools end in a commit of the state store, retrieval/search.py, which finds papers,
-- and the evidence of claims, which decides whether a report may be released.
--
-- The files and the code:
-- - Base: names of the libraries, Boolean tests, lists, tables of rows (find, exists, update,
--   delete, select, as SQL statements act on them), sorting, predicates on lists.
-- - Json: sanitize_json_value and _jsonb of src/littrace/state_db.py, over a data type of Python
--   values.
-- - StateDb: the rows of the tables, the database as a record of tables, and the errors. A method
--   is a function of its arguments, the time of the transaction and the database; it returns a
--   result with the new database, or an error, which rolls the transaction back. The ON CONFLICT
--   clauses, the unique constraints, the foreign key and the check constraints that
--   src/littrace/state_db_schema.py declares are written out.
-- - StateDb.Session: session states and snapshots, and save_workspace with
--   _assert_workspace_revision of src/littrace/session.py. StateDb.Trail: the capped lists of
--   messages and events. StateDb.Binding: thread bindings, and the book-keeping of
--   src/littrace/codex_runtime/service.py at the end of a turn. StateDb.Queue: the table
--   async_tasks with its leases; the rows that other transactions lock are a parameter.
--   StateDb.Tool: commit_agent_workspace_tool. StateDb.Publish: commit_async_workspace_result;
--   StateDb.Publish.Changes: what may happen to the database in between, as a list of calls of the
--   methods that write async_tasks and of any changes of the other tables.
-- - Retry: src/littrace/retry.py, its tracker of traces in Retry.Traces. The wrapped function is a
--   function of the number of the call; the draws of the jitter, isinstance and the texts of
--   exceptions are parameters. The loop recurses on the attempts that are left, max_attempts at
--   first, so it needs no fuel.
-- - Jobs: the rows that the workers write when a job ends (src/littrace/download_jobs.py,
--   parse_jobs.py, rag_jobs.py, table_jobs.py, storyline_jobs.py). Jobs.Download:
--   run_pending_download_jobs and _execution_input of download_jobs.py, which read the command
--   that Gateway.Enqueue queues. Jobs.Table: _commit_table_output of table_jobs.py, whose five
--   attempts are the recursion; what other transactions do between a read and a commit is a
--   parameter of each attempt. Jobs.Outbox: src/littrace/lifecycle.py. Jobs.Compaction:
--   src/littrace/codex_runtime/compaction.py.
-- - RateLimit: src/littrace/rate_limit.py; a call is given its readings of the clock.
-- - Context: src/littrace/context.py and identity.py. Downloads: src/littrace/download_tasks.py.
--   Workflow: src/littrace/workflow_status.py. Cache: src/littrace/cache.py.
-- - Tools: src/littrace/tool_contracts.py. Tools.Budget: what is left of a budget and its charge;
--   Tools.Call: a call up to the run of its tool; Tools.Run: its end, and the whole call;
--   Tools.Contracts: the table of contracts and its summary. A tool is a function on a world, so
--   that a call that does not run it leaves the world as it is.
-- - Evidence: spans, claims and reports of src/littrace/models.py. Evidence.Measures: verify_claim
--   and its conflicts, with src/littrace/units.py. Evidence.Claims and Evidence.Verify:
--   src/littrace/evidence/claims.py. Evidence.Release and Evidence.Gate: the verification of a
--   report's claims and the release blockers of src/littrace/evidence/document_composer.py. Floats
--   are a record of the operations that the code uses.
-- - Retrieval: the merge of papers of src/littrace/retrieval/search.py; Retrieval.Select its
--   limits, filter, ranking and selection, with the scores as parameters; Retrieval.Rounds the
--   rounds of LiveSearchClient.search, which recurse on the pairs of variants of the query and
--   need no fuel; the papers of its pool are numbered objects, and each round writes its scores
--   back into them.
-- - Gateway: the arguments, commands and selections of src/littrace/codex_runtime/gateway.py;
--   Gateway.Tools: load_workspace, _set_download_selection and _commit_workspace_tool;
--   Gateway.Enqueue: _enqueue_download. Both end in commit_agent_workspace_tool of StateDb.Tool;
--   validation, dumps and hashes are the record Library.
-- A module's children hold the proofs and are named for what they prove; the modules named Samples
-- apply the theorems at concrete inputs.
--
-- Numbers: times are natural numbers of microseconds, where the source has time stamps and floats;
-- revisions and counts are natural numbers, which Python's integers and the values that the
-- columns hold are; costs and budgets of tools are whole numbers, with a budget that is overspent
-- written out. A subtraction that the source guards with max(…, 0) is the truncated one.
--
-- Not modelled: connections, locks held across transactions and the threads of the workers;
-- hashing, Pydantic validation and JSON texts, which are parameters where the code depends on
-- them; the providers of papers and their HTTP clients, the weights of the search scores, the
-- access to publishers, the language models, the App Server's protocol, the evaluation and the
-- user interfaces.
pub mod Base
pub mod Json
pub mod StateDb
pub mod Retry
pub mod Jobs
pub mod RateLimit
pub mod Context
pub mod Downloads
pub mod Workflow
pub mod Cache
pub mod Tools
pub mod Evidence
pub mod Retrieval
pub mod Gateway
