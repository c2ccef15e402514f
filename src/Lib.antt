-- ===== src/Lib.antt =====
-- The migrator copies the series of a VictoriaMetrics cluster to another one by running vmctl on a
-- pool of workers. Its parts and the files that model them:
--
-- internal/types/types.go: Types. Counts of series, attempts and bytes are natural numbers; the
-- code's `int` and `int64` have 63 bits for them and none comes near.
-- internal/config/config.go: Config, with the defaults (Config/Defaults), the validation and the
-- loading (Config/Validate) and the limits of a metric (Config/Limits). The YAML parser,
-- `time.Parse`, `time.ParseDuration`, the verb `%q` and float64 are parameters.
-- internal/scheduler/timerange.go: Scheduler/TimeRange, over the dates of Scheduler/Calendar: a
-- wall clock in nanoseconds with a zone of fixed offset; not modelled is the local zone with its
-- daylight saving time, which `time.Parse` takes for an RFC3339 date of the same offset. The loop takes fuel for the hours of the
-- interval and two more rounds; every step takes an hour or longer.
-- internal/scheduler/task.go: Scheduler/Queue. The Go code shares task objects between its lists,
-- so a heap maps addresses to tasks and the lists hold addresses. A method holds the mutex until
-- it returns, and is one step; `Scheduler/Queue/Reach` has all orders of calls. The state file is
-- the field `disk`; the time, the success of a write and what a write that fails leaves of the file
-- come from `Env`. Scheduler/Queue/Load has `LoadState`, with the JSON decoder as a parameter.
-- internal/splitter/binpack.go: Splitter/BinPack. The library's sort is the record `Sort`.
-- internal/splitter/splitter.go: Splitter/Selector for the text of selectors, Splitter/Recursion
-- for the split by labels. The queries of the discovery client are the record `Client`, whose
-- answers do not change during a split; float64 and the sorts are parameters. The recursion takes
-- fuel; one unit for each label of the server and one more are enough.
-- internal/progress/tracker.go: Progress/Tracker for the tracker and its goroutine, whose channels
-- are numbers and whose moves are a step relation; Progress/Log for the values that it logs,
-- Progress/Report for the final report and its file. The clock, the formats of times and numbers
-- and the JSON encoder are parameters.
-- internal/worker/manager.go: Worker/Pool for acquiring and releasing workers, Worker/Arguments
-- for the arguments of vmctl, Worker/Deploy for the Deployment and the wait for it, Worker/Connect
-- for the connections to the workers and `DeployWorkers`, Worker/Manager for `NewManager` and
-- `Cleanup`. What Kubernetes and gRPC answer is an argument. The rounds of the wait are a list,
-- which the deadline ends.
-- internal/workerserver: WorkerServer for the server of a worker, whose calls may overlap, with
-- its child Vmctl for a run of vmctl and the bytes that it prints; the gRPC server of `Run` is an
-- argument. WorkerServer/Dispatch joins it to `DispatchTask` of internal/worker/manager.go. What
-- becomes of the subprocess is an argument; the sizes that vmctl prints are not negative.
-- internal/discovery/client.go: Discovery, over the records `Http` (the network, with net/http and
-- net/url) and `Json` (the decoder). Discovery/Serves makes of it the splitter's `Client`.
-- internal/orchestrator/orchestrator.go: Orchestrator/Cardinality for the errors that ask for a
-- split, Orchestrator/Selectors for the selectors and tasks of metrics, for the excluded metrics
-- and for the selectors that a failed task is split into (the patterns are compiled by the
-- library), Orchestrator/Execute for `executeTasks` as a step relation between the main goroutine
-- and those of the tasks, Orchestrator/Migration for the parts of `Run`, with its loop over the
-- time ranges in Orchestrator/Migration/Loop, in which each range runs `executeTasks` on the tasks
-- of its metrics, Orchestrator/Identity for `New` and the migration's identifier,
-- Orchestrator/Lifecycle for `Run` from the deployment of the workers to its report.
-- Cancelling the context ends the loop before a range or while it waits for a result; what the
-- tasks in flight do afterwards is not looked at. The measure of Orchestrator/Execute/Measure
-- counts the splits that may still be made and, below them, the attempts left, so that no fuel is
-- needed. Not modelled: the map `inflight`, which the code never reads.
-- cmd/vm-migrator/main.go: Command, for the three commands with their flags parsed.
--
-- Scheduler/Queue/Mass weighs the tasks that are not replaced by a measure of their selectors and
-- times; Orchestrator/Execute/Conserved and Orchestrator/Migration/Conserved follow it through
-- `executeTasks` and `Run`, and Orchestrator/Lifecycle/Once takes a sample as the measure.
-- Splitter/Recursion/Meaning reads selectors: it says which series the server selects by the text
-- of a selector and what it answers for them, as the code relies on it.
--
-- Not modelled: the test data generator, which is a tool of the end-to-end tests; the generated
-- gRPC code; the parser of flags, the options of the logger and the handlers of signals, which
-- only cancel the context; the server of the metrics; what creating and deleting the Deployment do
-- to the cluster; all that only logs.
pub mod Command
pub mod Config
pub mod Discovery
pub mod Orchestrator
pub mod Prelude
pub mod Progress
pub mod Scheduler
pub mod Splitter
pub mod Types
pub mod Worker
pub mod WorkerServer
