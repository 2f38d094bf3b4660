-- ===== src/Lib.antt =====
-- The CRIU migration operator moves a running process between the nodes of a Kubernetes cluster: an
-- agent next to the process dumps it with CRIU into an object storage, and an agent in a new pod
-- restores it. This library models the controller, which drives a migration through a persisted
-- state machine, the scheduler of checkpoints, the webhook that adds the agent to a pod, the agent with
-- its dumps, its write profiler and its deadline scheduler, and the monitor of spot instances.
--
-- The parts, and the code that each is about:
--   Api           api/v1alpha1/migratableapp_types.go: the custom resource MigratableApp. Its status
--                 holds the state machine's data, MigrationStatusInfo.
--   Kube          the fields of Pods, Deployments and their parts that the code uses.
--   Cluster       the outside: API server, agents and clock. None of it is in the repository, so `Env`
--                 answers the n-th call of a process by a function that is a parameter of every
--                 theorem. A handler is an action `M` on a `World`: the object that it holds, the
--                 clock, the number of calls so far and the list of calls that change something.
--   AgentClient   pkg/controller/client.go: NewAgentClient, PreCheckpoint, FinalDump, Restore, GetStatus.
--   PodBuilder    pkg/controller/pod_builder.go: the pods of an application; PodBuilder.Agent has the
--                 sidecar (BuildAgentContainer).
--   Pods          pkg/controller/reconciler.go and migration.go: getCurrentPod, getAWSCredentials,
--                 waitForPodRunning, waitForLazyPagesCompletion.
--   Fsm           pkg/controller/migration_fsm.go: startMigration and advanceMigrationFSM. Its
--                 children Transition, Quiesce, Dump, Upload, Restore and Retry hold the handlers,
--                 under the names of the code (fsmDumpingHandler is dumping_handler). A handler that
--                 branches on the answer of a call is cut there into a chain of definitions, one per
--                 call, so dumping_handler, dump, dump_through and after_dump are one Go function.
--                 Spec is the machine without its data, and Refines relates the handlers to it.
--   Reconciler    pkg/controller/reconciler.go: Reconcile, whose branches are cut the same way; Cleanup
--                 has the finalizer and cleanupS3Checkpoints, Checkpoint has performPreCheckpoint.
--                 performMigration (migration.go) is startMigration.
--   Scheduler     pkg/scheduler/scheduler.go: the round over all applications; Requests says what it may ask
--                 for.
--   Profiler      pkg/profiler: Areas has vma.go and the types of types.go, Heat the classifier of
--                 heat.go, whose ratios are pairs of counts and whose threshold is a fraction, Scan
--                 has scanDirtyPages of scan.go, and Lifecycle profiler.go from New to Close.
--   Host          the outside of the agent: files, processes, CRIU, storage and userfaultfd. As for Env,
--                 the n-th call gets the n-th answer. An action `Act` works on a component's state, the
--                 clock, the number of calls and the events that matter: runs of CRIU, userfaultfds
--                 that are opened and closed in the target, uploads. Host.Trace counts the open ones: a
--                 setupUffdWP that fails has closed its own again, a closeTargetUffd that fails
--                 leaves its own open.
--   Agent         pkg/agent: Manager, PreDump and FinalDump have the CheckpointManager of checkpoint.go,
--                 Storage the command lines and keys of s3.go, Mounts mount_utils.go, and State,
--                 Dumping, Profiling and Status the RPCs of server.go. Deadline is the
--                 InvariantScheduler of deadline_scheduler.go, on a Pair of scheduler and agent.
--                 Agent.Runs has the runs of the server: a request, or a tick of the profiler's loop, at a time.
--                 A goroutine that only uploads runs at the place where it is started.
--   Monitor       pkg/monitor/spot_monitor.go: the checks of the clouds, and handleSpotInterruption; Telling
--                 says which pods it asks and what they are told.
--   Webhook       pkg/webhook: Config has config.go, Inject has InjectSidecar of injector.go,
--                 Template has buildOriginalPodSpec of cr_creator.go; Precedence has the tables of the
--                 settings.
--                 The children Data, Arguments, Ranges, Invariant, Answers and Observed of a part have its
--                 state and what makes no call.
--   Base          numbers, lists, texts, durations and time stamps as Go writes them.
--   Samples       small objects for the examples.
--
-- Time is a natural number of nanoseconds, 0 is the zero time. Counters are natural numbers, the `int`
-- fields that the code tests for their sign are integers. A map is a list of keys and values, in which
-- a missing key reads as the empty text. A pointer that may be nil is an Option. An error is a value of
-- Result with the class that the code asks for (errors.IsConflict, errors.IsNotFound) and its text.
--
-- The loops that poll until a deadline are functions of a number of rounds: a wait for n seconds has
-- n rounds, since each ends in a sleep of at least a second (Pods.wait_rounds; for the lazy pages, two
-- seconds and 150 rounds for five minutes). The loop over the batches of a deletion has a round per
-- object. The agent's loops are Host.poll, with a round more than the pauses that fit before the deadline
-- (101 for two seconds of 20 ms); the loop over the pages of a region has a round more than it has whole
-- pages, and a number in hexadecimal has 16 digits at most. time.ParseDuration is modelled on the text, with exact fractions.
--
-- Not modelled: the agent's restore and its start, the transfers of the storage, the webhook's admission,
-- system calls and their injection, the wiring of the commands, generated code, and the legacy migration,
-- which no call reaches. In what is modelled: logging, the contents of contexts and connections, the
-- write-back of resource versions by an update, the order in which Go walks a map, the mutex of the
-- profiler, and the interleaving of the goroutines of the scheduler and of the RPCs.
pub mod Base
pub mod Kube
pub mod Api
pub mod Cluster
pub mod AgentClient
pub mod PodBuilder
pub mod Pods
pub mod Samples
pub mod Fsm
pub mod Reconciler
pub mod Profiler
pub mod Scheduler
pub mod Webhook
pub mod Host
pub mod Agent
pub mod Monitor
