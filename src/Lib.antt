-- ===== src/Lib.antt =====
-- light_soar runs workflows: files that describe steps and their dependencies. This library models
-- how a workflow is built from its file and executed.
--
-- The parts of the program and how they meet. A workflow file is loaded (internal/digraph) into
-- steps, a graph of which is built and run (internal/digraph/scheduler) by an agent
-- (internal/agent), which records the states of the steps (internal/persistence) and answers
-- requests over a socket (internal/sock). A daemon (internal/scheduler) starts agents at the times
-- that the workflows ask for, and a web server (internal/frontend, internal/client, ui) shows and
-- changes the workflows. Modelled here are the building of the steps and schedules of a workflow
-- with the splitting of command lines (internal/cmdutil), the execution (the graph and the
-- scheduler that runs it), the agent with what it writes of a run, the jobs of the daemon, the
-- records and the history of runs with their cache, the status that the client reports, and the
-- actions of a user on a workflow.
--
-- The files.
--   Prelude: tests, integers, lists, Go maps and texts. A text is the list of its bytes. A Go map
--     is its list of keys with a function that gives the zero value at any other key.
--   Digraph.Step: the record Step of internal/digraph/step.go and the types of its fields, with
--     those of internal/digraph/condition.go that they need.
--   Digraph.Value: the values that the YAML library gives.
--   Digraph.Builder: internal/digraph/builder.go with schedule.go, command.go, assert.go, func.go
--     and errors.go of the same folder, one file per kind of field: Fields, Preconditions,
--     Schedules, Commands (the command, the executor and the functions), and Steps (buildStep and
--     buildSteps). Workflow has the builders of a workflow's fields with variables.go, Build the
--     registry and build itself. A function that sets fields of a step through a pointer returns
--     the step; Result is a value, an error, or a panic. Functions is about assertFunctions, Built
--     about buildStep, Chain and Collected about build.
--   Command: internal/cmdutil/cmd.go. Its texts are lists of runes, as the loop over a string gives
--     them, and so are those that the builder passes to it. Arguments is about JoinCommandArgs and
--     SplitCommandArgs, Pipes about SplitCommand.
--   Digraph.Params: internal/digraph/params.go. Defs has the parsing and the overriding, Build has
--     parseParams and buildParams, Override says what overriding makes of named parameters.
--   Digraph.Conditions: EvalConditions of internal/digraph/condition.go. What a shell makes of a
--     command, and the evaluation of texts, are arguments.
--   Digraph.Dag: the type DAG of internal/digraph/dag.go and its defaults.
--   Digraph.Variables: SyncMap.Store (internal/digraph/syncmap.go) and the key=value texts of
--     internal/stringutil/kv.go. Defs holds the definitions; sync.Map is a list of entries.
--   Execution.Status, Execution.Data: the statuses, the errors, and the state of a node with its
--     setters (internal/digraph/scheduler/data.go, and the type Node of node.go).
--   Execution.Graph: internal/digraph/scheduler/graph.go. Defs has the edges, setup and hasCycle,
--     Construct the two constructors and setupRetry. The other files prove: Linked what holds of
--     the edges, Kahn, Rounds and Cycles that hasCycle is right, Links and Setup what setup makes,
--     Sweeps, Ranks, Resets and Retry what setupRetry resets, Build what the constructors return.
--   Execution.Node: the methods of internal/digraph/scheduler/node.go that change a node. Continue
--     is about shouldContinue.
--   Execution.Schedule: internal/digraph/scheduler/scheduler.go. Defs has isReady, the counts and
--     Status. Worker is the goroutine that Schedule starts for a
--     node, cut where it waits for the outside: check_preconditions, prepare (setupNode), proceed
--     (the head of the loop ExecRepeat), executed (the rest of the loop's body), conclude (behind
--     the loop) and panicked (the recovery). Machine is the whole run: visit_node has the tests of the
--     loop over the nodes and start_worker the start behind them, and a run is a list of events in any
--     order (a visit, a start, a goroutine that goes on, a cancel, a signal). Statuses, Quiet and Told say what the goroutine does to
--     the status of its node and to the last error, Ready is about isReady, Progress, Capacity,
--     Reported and Ends about runs.
--   Daemon.Job: the jobs of internal/scheduler/job.go, and of internal/scheduler/scheduler.go what
--     becomes of a job: invoke, the loop of run, nextTick. Once is about when a job is started.
--   Persistence.Cache: internal/persistence/filecache/filecache.go. Fresh compares the cache with
--     reads of the files, Within says what a removal leaves.
--   Persistence.Record: internal/persistence/model, the records of nodes and runs. Reread is about
--     a retry of a recorded run.
--   Persistence.History: internal/persistence/jsondb. Files has the files and what is outside, Writer
--     writer.go and ParseStatusFile, Defs the names of the files and filterLatest, Store the methods
--     that find, write and remove files, Read those that read through the cache, Move Rename, and
--     Session a run that is recorded (Open, Write, Close). The others prove: Lines and Parse what is
--     read of a file, Written, Effects and Success what a write leaves, Compact, Find, Update, Remove
--     and Sort what the methods of these names do, and Recorded what Session leaves.
--   Client: of internal/client/client.go, the status of a workflow.
--   Agent: internal/agent. Defs has the status, the graph, the requests and the signals of agent.go,
--     Run its Run on top of Persistence.History, Reporter the mails of reporter.go. Recorded and
--     Closed are about Run.
--   Frontend: of internal/frontend/handlers/dag.go, postAction with processUpdateStatus. Marks follows
--     a marked step through the client into the history.
--   Matcher: internal/stringutil/matcher.go. Reference compares it with each pattern on each line.
--   The files Samples hold concrete data, the tests, and the theorems at that data.
--
-- Bounds and fuel. The queue of hasCycle runs on fuel, one unit for each node, since each node
-- leaves the queue at most once. The rounds of setupRetry run on fuel, one round for each node,
-- since a round moves the frontier along an edge of a graph without cycles. The loop of
-- ParseStatusFile runs on fuel, one unit for each byte of the file and one more, since each line takes
-- a byte. Go's int is an integer
-- without bound: the numbers here are counts of nodes, of runs and of exit codes, the numbers of a
-- workflow file, and node numbers,
-- which are taken from a counter that is assumed not to pass 2^63. The number of items of the cache has
-- 32 bits, as atomic.Int32 keeps it. Times and durations are numbers
-- of nanoseconds; the times of the clock are arguments. The durations of Daemon.Job have 64 bits,
-- as Time.Sub and the negation of a duration keep them.
--
-- What the model takes from outside. The order of range over a map is an argument, any order of the
-- keys. The answer of LogContainsPattern, of EvalIntString and of EvalConditions, the end of a
-- command with its exit code and its captured output, the errors of opening and closing files,
-- whether the time is out, the latest status of a workflow and the times of its schedule are
-- arguments, so that what is stated holds for all of them. The builder takes the cron parser, the
-- names of signals, the formats of values and the expression for parameters in the record Outside,
-- and what mapstructure decodes in the record Decoder; Loading holds the evaluation of variables,
-- the environment, the loading of dotenv files, and buildParams, which Digraph.Params models by
-- itself; a map of a workflow file holds its entries in the order of a range.
--
-- The history takes a file system: a list of files and directories, in which the operating system may
-- refuse an operation on a file, and the functions on names, patterns, JSON, MD5 and times, in the
-- record Outside of Persistence.History.Files. A write that is refused may still have brought a first
-- part of its text into the file, and the writer's buffer then writes no more. The reader's buffer has
-- 4096 bytes. What the goroutines of the agent write is a list in the order of the writes, with those
-- before the history is closed apart from those behind.
--
-- What is one step. The tests of a node by the loop are one event, which admits the node, and its
-- start is another, so that a cancel or a signal may come in between; each stretch of a goroutine
-- between two waits is one event; Signal and Cancel set the flag in one event and reach each node in
-- one of its own, among those of the loop and the goroutines. The interleavings inside an event are
-- not modelled. Of the cache, the calls that drop an entry may come between the two looks of
-- LoadLatest at it.
--
-- Not modelled: the loader of workflows, the expansion of texts and of command lines, the
-- executors, the handlers that run behind the nodes, the contexts that pass variables to a step, the delays,
-- the channel to the agent, the log, the tables of the agent's summary, the outputs of sub-workflows,
-- and the other parts of the program.
pub mod Prelude
pub mod Digraph
pub mod Execution
pub mod Command
pub mod Daemon
pub mod Persistence
pub mod Client
pub mod Agent
pub mod Frontend
pub mod Matcher
