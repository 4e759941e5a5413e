-- ===== src/Lib.antt =====
-- OpsPilot-Go: the task workflow, the case management, the planner, the tools, the evaluation of
-- answers, the ingestion of documents, the sessions and the versions.
--
-- The program answers requests about operations along a plan of steps, promotes the longer ones to
-- tasks that a worker runs, and lets operators follow findings up in cases. The parts that are
-- modelled:
--
-- * internal/workflow. `Workflow.Types` holds the records and status names of types.go.
--   `Workflow.Store` is the interface `TaskStore` of service.go: a record of the store's methods
--   over a state type, and `StoreLaws`, what a client relies on. `Workflow.Memory` is
--   memory_store.go, one function per method, and `Workflow.Memory.Laws` and `.Claims` fill the
--   laws. `Workflow.Service` is service.go (`Promote` is `promote`, `ApproveTask` is `approve_task`,
--   and so on) over any store. `Workflow.Failure` and `Workflow.Runner` are runner.go, with
--   temporal_executor.go: `ProcessNextBatch` is `process_next_batch`. `Workflow.Lifecycle` puts them
--   together: the requests of the service and the batches of a worker are steps of a relation, in
--   any order; its children are about the states that are reached. They assume `IsSound` of the
--   worker: its stores keep their contracts, and a recorder that finalizes atomically refuses a task
--   without a version wherever the worker's own lookup of the version fails. `Workflow.Interleaved`
--   takes an approval as its read and its write, with claims in between, and `Workflow.Anomalies` is
--   about two runs at the edges of what the code means to do.
-- * internal/report/service.go, the recorder that cmd/worker/main.go gives the worker, is
--   `Workflow.Reports`: `FinalizeGeneratedReportTask` is `finalize_generated_report_task`, and so on.
--   `Workflow.Reports.Recorder` has the contract of its store, `ReportStoreLaws`, and fills `IsSound`
--   for a worker that shares its version source with the report service, where a lookup answers the
--   same twice in one state. A source that answers differently the second time is among the runs of
--   `Workflow.Anomalies`.
-- * internal/case. `Cases.Types` is types.go, `Cases.Order` is order.go, `Cases.Memory` and
--   `Cases.Summaries` are memory_store.go, `Cases.Service` is service.go over the store in memory.
--   `Cases.Lifecycle` takes the calls of the service as steps; `Cases.Effects`, `Cases.Reuse` and
--   `Cases.Closing` are about what one call means for the next.
-- * internal/agent/planner. `Planner.Types` is types.go with the model's answer of prompt.go,
--   `Planner.Policy` is policy.go, `Planner.Validation` is the second half of prompt.go,
--   `Planner.Keywords` and `Planner.Plan` are service.go: `Plan` is `plan`, `Replan` is `replan`.
--   The language model, with the parsing of its answer, is a parameter that may answer anything.
--   `Planner.Plan.Permitted` and `.Kept`, `Planner.Approvals` and `Planner.Merged` are about what a
--   plan that comes out keeps to; `isTenantToolAllowed` is the one measure for both planners.
-- * internal/tools/registry and internal/agent/tool. `Tools.Registry` is registry.go,
--   `Tools.Execution` is `Execute`, with the state of the world outside passed through the executor
--   of the tool.
-- * internal/session is `Session`, and `Session.Log` states its messages as one log of what was
--   accepted. internal/version is `Version`, with `Version.Current` on the built-in version and
--   `Version.Listing`.
-- * internal/retrieval/reorder.go is `Retrieval.Reorder`.
-- * internal/eval. `Eval.Types` is types.go. `Eval.Store` is memory_store.go: one record with the
--   maps of memoryStore, and the methods by what they keep in `Eval.Store.Cases`, `.Datasets`,
--   `.Runs`, `.Claims` (the changes of a run's status) and `.Reports`. `Eval.Judge` is judge.go.
--   `Eval.Services` holds the state that the services share, the store with the three id counters;
--   `.Cases` and `.Listing` are service.go, `.Datasets` is dataset_service.go, `.Runs` is
--   run_service.go. `Eval.Reports`, `Eval.Comparison` and `Eval.Regression` are report_service.go,
--   `Eval.Runner` is runner.go: `ProcessNextBatch` is `process_next_batch`. `Eval.Lifecycle` takes
--   the calls of the services, the reports that a worker makes included, as steps;
--   `Eval.Lifecycle.Writes` reduces each to a call of the store under the guards that the service
--   has checked. `Eval.Services.Listing.FollowUp` states the interface of the summaries that the
--   listing reads, and `Cases.Summaries.Keys` fills it with the case service.
-- * internal/ingestion. `Ingestion.Splitter` is splitter.go, `Ingestion.Chunker` is chunker.go.
-- * `Prelude` holds what they share: Go's maps as association lists, whose order stands for the
--   order of `range`, `sort.Slice`, pages of listings, the functions of strings, strconv and fmt in
--   use, JSON texts, ids with a number (`Prelude.Ids`) and the order of floating point numbers by
--   their bits (`Prelude.Floats`).
--
-- How the code is read. A method that holds its mutex throughout is one step. State is passed from
-- call to call; an error is a value beside the state after the call. Each `time.Now()` is an
-- argument, for a batch of the worker a function of the task (`TaskTimes`); the report service reads
-- the clock only for a task without a time of an update, which the worker never gives it. A time is the number of nanoseconds since year 1 (the zero time is 0), and `UnixNano` is
-- exact for times after 1970. Atomic counters and event ids wrap around at 2^64. Limits and offsets
-- are integers, where the code guards against negative ones. Numbers that count entries of a list
-- are unbounded: the sum of an offset and a limit near the greatest int wraps around in Go and not
-- here. `sort.Slice` is an insertion sort, since Go leaves the order of equal rows open and ranges
-- over maps in any order. A Go string is a text of characters; the code compares, joins and cuts
-- texts only, the latter at positions of ASCII characters. Loops run over lists; fuel is the number
-- of pages that a client follows, one more than there are rows, since each page but the last holds
-- at least one, the number of digits of a number n, which are at most n + 1, and the turns of the
-- follow-up listing, whose loop has no bound in the code and for which one more than there are rows
-- is enough. Running out of fuel and a panic, where a negative offset reaches a slice, are outcomes
-- of their own. Sums, differences and quotients of floating point numbers, their decimals and the
-- JSON of a report's metadata are parameters (`Numerics`, the `similarity` of two embeddings); their
-- comparisons are not.
--
-- Not modelled: the Postgres stores, which are SQL text behind the same interfaces; the HTTP layer,
-- the calls of Temporal, language models and remote tools, which are parameters where a modelled
-- part uses them, with the texts of prompts; the judge over HTTP and the executor over the chat of
-- the evaluation; the pipeline, the index and the prefixes of the ingestion; the rest of retrieval,
-- the reads, the comparison and the memory store of the reports, and chat.
pub mod Prelude
pub mod Cases
pub mod Eval
pub mod Ingestion
pub mod Planner
pub mod Retrieval
pub mod Session
pub mod Tools
pub mod Version
pub mod Workflow
