-- ===== src/Lib.antt =====
-- quokka is a test runner for buck2: it receives target specifications, lists the tests of each
-- target, runs them in batched actions by an `Execute2` RPC, retries failures, and folds the results
-- into a verdict, a tally, a history of durations and failures, and an exit code. This library models
-- the decisions that it takes, from src/*.rs, and proves what they promise.
--
-- The parts and their files:
-- - Prelude and its children: shared names, Boolean tests, lists, byte strings, association lists,
--   sorting, results, integers. Std: what the program uses of the standard library of Rust (UTF-8,
--   lines, parsing of numbers). A text is its list of UTF-8 bytes.
-- - Labels, Policy (src/policy.rs), Caching (src/caching.rs), Environment (src/environment.rs),
--   Variant (src/variant.rs): what the labels of a target and the options of a run decide.
-- - Batching (src/batching.rs): `partition` with `chunk_fixed_generic` and its heap
--   (Batching/Heap), and `bucket_generic`; their laws are in Batching/Chunks and Batching/Buckets.
-- - Wire (src/proto/gen/test.rs, src/proto/gen/data.rs), Outcome (src/result.rs): messages, their
--   decoding by `decode_response`, verdicts, identities and results.
-- - DurationDb (src/duration_db.rs): the history in memory, `record_at`, `estimate` and `flake`. Its
--   children: Combine (`combine`, `all_keys`), Bytes (reading of bytes), Identity (identities and
--   failure classes as bytes), Log (the three logs), Snapshot (the three compacted files), Store
--   (`load` and `flush`; Store/Appends, Store/Failures and Store/History say what they keep).
-- - Execution (src/execution.rs): memory limits, the marker token, `parse_resource_failures`.
--   Execution/Command: the command line with its quoting, the environment and the two requests.
-- - Cli (src/cli.rs): the options of a session resolved into its configuration; Cli/Options holds the
--   options and the transport, Cli/Values each option on its own.
-- - Config (src/cli.rs, src/listing.rs), Spec (src/spec.rs, `TargetSpec::from_proto`), Translator (src/translator.rs,
--   src/listing.rs): the configuration, a target, and the interface of a test framework, a record of
--   functions over which every theorem quantifies. Translator/Libtest: the arguments of libtest and
--   the text of its listings.
-- - Ids (src/ids.rs): the interner of test names.
-- - Scheduler (src/scheduler.rs): Verdict (`report_disposition`, the messages), Plan
--   (`TargetPlan::derive`), Shard (`shard_filter`), Batches (`build_batches`), Group and Request (`run_group`; Request/Caching says what of it the cache may answer), Best
--   (`merge_best`), Action and Attempts (the loop of `execute_test_action`; Attempts/Budgets says what it retries), Execute
--   (`execute_test_action`, `isolate_failures`, `make_finished`), Details (`finalize_details`,
--   `append_attempt_history`, `failure_annotation`), Reporter (`reporter_task`), Listing (how a target
--   is listed), Target (`run_per_test_target`), Run (`run_target`, `run`).
-- - Examples: concrete targets, answers and histories on which the theorems are applied.
--
-- How they interact: a session runs each target that it receives; a plan is derived from a specification and the configuration; an action of the
-- plan runs groups; a group issues requests to the executor and classifies the answer; the state of an
-- action merges the outcomes per test name; the finished tests go to the reporter as messages.
--
-- State and effects: the executor is a function from the number of a request and the request to an
-- answer, over which the theorems quantify; so are the delivery of reports, the clock, the hash of a
-- test identity and the note that stands for an upload to the content store. Tasks that the program
-- runs concurrently (the isolated tests of a batch) are run in turn: they share no state but the
-- executor, whose answers are arbitrary. So are the actions of a target and the targets of a session;
-- the messages reach the reporter in any order (`arrival`). A panic of a task is a parameter; one
-- inside a target leaves a prefix of its events. The file system under the history is a parameter too:
-- an append can leave a part of its bytes, a compaction can fail before or after its rename. A file is
-- its bytes; the lock file, which only keeps other processes out, is left out. Semaphores have no effect on results. Hash maps are
-- association lists, and the results of a whole unit are folded in the order of theirs.
--
-- Bounds and fuel: `run_group` loops at most three times (`infra_max_attempts`), and gets that fuel.
-- The loop of `execute_test_action` gets the largest attempt budget of the labels and the
-- configuration plus three: each further round spends one attempt of either kind. The loops over a log
-- of the history get its length: each round takes a byte at least. Sums of 64-bit
-- numbers wrap around as in a release build (`% 2 ^ 64`): the runs and failures of the history and the
-- weights of chunks. The counters of attempts, requests and reported results are unbounded.
--
-- Not modelled: the processes, sockets and gRPC services (src/main.rs, src/run.rs, src/transport.rs,
-- src/orchestrator.rs, src/executor_server.rs), which only carry messages; the JSON report and the
-- summary's text in src/scheduler.rs; src/db_cli.rs, which prints the history; the shell supervisor;
-- what src/translator.rs reads or writes as JSON, its decoding of the output of runs and its printed
-- lists; the parsing of the command line by clap; the configuration file that src/config.rs reads.
pub mod Prelude
pub mod Std
pub mod Ids
pub mod Labels
pub mod Variant
pub mod Policy
pub mod Caching
pub mod Environment
pub mod Batching
pub mod Wire
pub mod Outcome
pub mod DurationDb
pub mod Execution
pub mod Cli
pub mod Config
pub mod Spec
pub mod Translator
pub mod Scheduler
pub mod Examples
