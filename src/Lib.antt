-- ===== src/Lib.antt =====
-- VerifierCI: the planner, the lease-fenced job queue, the worker, the artifact store, the sandbox,
-- the classification of test runs, the acceptance matrix, the record decoder and the migrations.
--
-- VerifierCI runs patches against verifiers many times and reduces what it saw to a matrix. A run
-- is a set of jobs in a SQLite database, planned from a manifest. Workers claim jobs, hold them
-- under a lease and a fence, run the tests in a sandbox, store the outputs by their digests and
-- submit an attempt; a reaper takes back the jobs of workers that vanished. What a worker captured
-- becomes an outcome by a fixed precedence and a report parser. The reducer selects the
-- authoritative attempt of each repetition and makes a cell of them.
--
-- Files and code (paths from the root of the repository):
--   Errors            src/verifierci/errors.py: codes, classes, exit_category.
--   Models            src/verifierci/models: Job, EvaluationAttempt, ExecutionCapture, ParsedOutcome
--                     (protocol.py, result.py), validate_attempt, and the CHECK constraint of
--                     storage/migrations/001_initial_schema.sql.
--   Queue             src/verifierci/execution/jobs.py. Database holds the tables and what an UPDATE
--                     of attempts is refused for; RunState is _update_run_state, Claim is claim,
--                     Lease is mark_running and heartbeat, Complete is complete and
--                     _mark_attempt_stale, Reap is reap_expired, Cancel is request_cancel. History
--                     is the relation of committed transactions; the other children are proofs.
--   Report            src/verifierci/evaluators/pytest_report.py: Scan is the loop over the tests,
--                     Judge the checks behind it, Parser the whole of parse; Reading says what the
--                     results of a document are, apart from the loop.
--   Outcomes          src/verifierci/execution/outcomes.py: parse_capture.
--   Matrix            src/verifierci/execution/matrix.py: aggregate_cell, its loops in Cell and the
--                     rest in Reduce; Build is build_matrix, with validate_matrix of
--                     models/result.py.
--   Artifacts         src/verifierci/storage/artifacts.py. Disk holds the files, the temporary files and
--                     the rows; Put is put_stream and put_bytes, Read is open_verified, Collect is
--                     collect_outputs, Sweep is garbage_collect; the other children are proofs. What
--                     the connection does with the row of a put is a field of its request: an INSERT
--                     that raises does so when the file is in place.
--   Planner           src/verifierci/execution/planner.py: Expand is expand, Build is build_manifest.
--   Sandbox           src/verifierci/execution/sandbox.py: Lines holds the methods of str that it
--                     uses, Patch is validate_patch, Prepare is prepare_workspace, Execute is
--                     execute; the other children are proofs.
--   Worker            src/verifierci/execution/worker.py: Command is resolve_command (of
--                     models/verifier.py), Resolve the three resolvers, State what workers share,
--                     Running and Evaluate the middle of run_one, Turn run_one as a whole and
--                     run_until_terminal; the other children are proofs. It calls Queue, Artifacts,
--                     Sandbox and Outcomes. Its own INSERT of an artifact does not raise.
--   Protocol          src/verifierci/models/protocol.py: Kinds are the dataclasses of models/ and
--                     _KIND_REGISTRY, Convert is _convert_field and _instantiate_dataclass, Decode
--                     is decode_record; the other children are proofs. A Reader has what it calls of
--                     float and datetime.
--   Schema            src/verifierci/storage/db.py: migrate; what a script makes of the schema is a
--                     parameter, as are the check of foreign keys and the success of the backup.
--   Prelude           Boolean tests, lists over native numbers, tables of keyed rows, Python text.
--
-- How the code is read. A transaction is a function from the database to a Result: it commits a new
-- database or raises and leaves the old one. BEGIN IMMEDIATE admits one writer at a time, so an
-- interleaving of workers is a sequence of transactions; waiting for a busy database and errors of
-- the disk are not modelled. Identifiers, tokens, digests and worker names are only compared and
-- ordered by the code, so they are natural numbers (an empty identifier is not modelled); a time is
-- a number of milliseconds, and a float measurement is a number that is stored and compared. A JSON
-- column is the value that it holds. The attempt identity and the token that claim draws at random
-- are fields of its request; the INSERT is refused when the identity is taken. The cache of the
-- attempt limits of runs is a plain lookup, since nothing that it reads changes in the transaction.
-- The bytes of a report are blank, no JSON document, or a document; float(str) is the parameter
-- reads_float, and limits of the JSON library on depth and digits are not modelled. A theorem that
-- asks for unique job identifiers asks for the primary key of the jobs table. In the artifact store
-- a digest is a text and SHA-256 a parameter; an artifact's path is its digest, and a race between
-- a test of a path and its use is not modelled. The digests of the planner and of the matrix are
-- parameters too. In the sandbox a text is the list of its code points; the decoding of UTF-8,
-- fnmatch and what the process did are parameters. The worker is given a Host: its resolvers, git,
-- the file system outside the store, what a command does and leaves, the clock. A Schedule has what
-- other processes do to the database between the transactions of this worker, the times, and the
-- heartbeats, one for each time that the timer fires; the files of the store are changed by this
-- worker only while it works on a job, and no process of a command outlives it.
--
-- Fuel. The loop of claim is given one round for each PENDING job and one more: a round that goes
-- on has failed a pending job at least. The loop over a report file has one more than the bytes of
-- the file, of which each round but the last reads one at least. Everything else recurses on lists.
--
-- Not modelled: the supervision of processes, the adapters, the metrics, the validators of tasks,
-- panels and verifiers, the JSON encoders, the command line and the placeholders. They are other
-- parts of the program or input and output.
pub mod Prelude
pub mod Errors
pub mod Models
pub mod Queue
pub mod Report
pub mod Outcomes
pub mod Matrix
pub mod Artifacts
pub mod Planner
pub mod Sandbox
pub mod Worker
pub mod Protocol
pub mod Schema
