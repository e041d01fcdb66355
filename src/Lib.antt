-- ===== src/Lib.antt =====
-- MINI-BK: a task scheduler in Go. Clients create tasks, which are kept in PostgreSQL and queued; a
-- scheduler takes them from the queue, starts them on this machine or on the node of an agent, and
-- retries what fails; nodes register and send heartbeats.
--
-- The parts, the files that model them, and the code:
--   Prelude    shared names: tests, lists, signed integers and maps over native numbers and texts
--   Model      internal/model: TaskStatus, Task, Node; `transition_to` is Task.TransitionTo, and
--              Model/Lifecycle has the life cycle as a relation of its own
--   Store      internal/store/task_store.go: `update` is Update, `get_by_uid` GetByUID and so on, over
--              a list of rows; Store/Load measures the running rows
--   Nodes      internal/store/node_store.go (Table) and internal/nodemanager/manager.go (Labels,
--              Manager): the cache `online_nodes` and the table beside it; Watch has the two goroutines
--              that find nodes offline
--   Executor   internal/executor/executor.go: how a finished process becomes a TaskResult, and the
--              result that internal/grpcserver/server.go builds from an agent's report (Outcome), the
--              lines of an output (Output, Lines), Run with its slot, both outputs and its log (Run,
--              Logged)
--   LogStream  internal/logstream/logstream.go: `append` and `read` are Append and Read, over XADD and
--              XREAD, whose documented behaviour is in LogStream/Laws
--   Queue      internal/queue: the interface TaskQueue (Interface), the priority slice with
--              container/heap (Heap), InMemQueue (InMem), and RedisQueue (Redis) over commands
--              of Redis whose documented behaviour is in Redis/Laws
--   Scheduler  internal/scheduler/scheduler.go: the state (State), SelectNode (Selection), dispatch
--              (Dispatch), tick (Tick), completeTask and failTask (Finish), the delay (Backoff), Start
--              with its loops and listeners (Start); Limits, Growth, Shrink, Bounds, Budget, Retry,
--              Results, Etcd, Claims, Start/Idle, Start/Cancels and Start/Settings are about these
--   Service    internal/service/task_service.go: CreateTask, ListTasks, CancelTask and RerunTask; Sound
--              is about sequences of their calls
--   Election   internal/election/election.go: what etcd replies is an argument
--   Discovery  internal/discovery/discovery.go: the first load, the watch, the cache and the listeners
--   Pool       internal/grpcclient/pool.go: the connections, numbered by their dials
--   RateLimit  internal/middleware/ratelimit.go, over a counter of Redis
--   Grpc       internal/grpcserver/server.go: the handlers that agents call
--   Api        internal/api: the handlers of task_handler.go, with Missing about what they answer for a
--              task that does not exist, of node_handler.go (Nodes), of resource_handler.go
--              (Resources), and the table of routes of router.go (Routes)
--   Config     internal/config/config.go: the settings and what the environment makes of them; the
--              watch of watcher.go is in Scheduler/Start
--   Agent      cmd/agent/main.go: a pulled task and its report; Agent/Machine has the memory, the disk
--              and the load, Agent/Words the flag of the labels, the registration and the heartbeats
--   Server     cmd/server/main.go: `start_server` is main up to the start of the goroutines, with the
--              connections of internal/store/postgres.go, redis.go and etcd.go
--   Examples   runs at concrete inputs
--
-- How they interact: the service writes the row of a new task and queues the task; `tick` reads
-- the running rows of the store, fails those that are overdue, and takes tasks from the queue,
-- which it knows by the interface alone; `dispatch` (Service/Race has it for a task that was
-- canceled meanwhile) claims a task in etcd, asks the node manager for a node, writes the row,
-- and starts an execution here or puts the task in the node's channel, from which the agent pulls
-- it; the executor runs it and logs its output, which a client reads while it comes; the result
-- returns through `complete_task`, which writes the row or queues the task again. The server
-- makes all these parts, by its settings and by what it reaches.
--
-- Conventions. An error result is an Option of a Failure, `(value, error)` a Result. A method that
-- changes its receiver returns the new record. Times are nanoseconds, and the clock's readings are
-- arguments. Pointers to tasks are not shared: the store gives out fresh copies, and what hands a
-- task over does not use it again. What is locked is one step; the steps of other goroutines come
-- between them as arguments. PostgreSQL, etcd and Redis are not in the repository: each statement of
-- the store takes the driver's answer from a list of answers, the claim in etcd is a parameter with a
-- state of its own, as the commands of Redis are, and `float64` is a parameter with the two
-- operations that the code uses. What the operating system answers to the executor and to the agent
-- is an argument, too.
-- The delay of a retry and the tick interval are computed in 64 bits with wrap-around; other ints are
-- unbounded.
--
-- Loops that wait for the world: a tick has a list of rounds, which say before each Pop what the delay
-- loop, clients and others did to the queue since the last one, and the time; it goes on (`none`)
-- where its rounds are over before it ends. So do the tick loop, the election, and the polling
-- loop of Pop. A ticker whose interval is not positive panics, which is an outcome of its own.
-- The queue that others work on during a tick is the only thing shared there; the table and etcd
-- change between two ticks and two steps.
--
-- Fuel: the loops of the heap have as much fuel as the slice is long, which is enough, since the index
-- halves or doubles in each round.
--
-- Not modelled: how the operating system runs the process of a task, how the driver writes a row
-- into columns and scans it, the reading of the file of settings, how the server shuts down,
-- generated code and the web console, which are input and output or wiring.
--
pub mod Prelude
pub mod Model
pub mod Store
pub mod Nodes
pub mod Executor
pub mod Queue
pub mod Election
pub mod Scheduler
pub mod Service
pub mod Discovery
pub mod Pool
pub mod RateLimit
pub mod Grpc
pub mod Agent
pub mod Server
pub mod Api
pub mod Config
pub mod LogStream
pub mod Examples
