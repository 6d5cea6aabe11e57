-- ===== src/Lib.antt =====
-- Autobeat: a server that delegates tasks to coding agents, with dependencies between the tasks.
--
-- A task may depend on others. The dependency handler validates the dependencies of a delegated task
-- against an in-memory graph, stores them, and adds them to the graph; when a task ends it resolves the
-- dependencies on it and reports which dependents are free. The queue handler puts free tasks into a
-- queue and announces them, so that a worker is started. The handlers speak through an event bus. A
-- loop handler runs a task again and again until an evaluation or a limit ends the loop. Schedules start
-- tasks, pipelines and loops at set times. A container builds and shuts down the services, and a router
-- addresses messages between agents.
--
-- Adjacency, Search, Graph, Depth: src/core/dependency-graph.ts, the class DependencyGraph. Its two maps
--   are association lists, its private searches (collectTransitiveNodes, detectCycleDFS) are in Search,
--   getMaxDepth is in Depth, and its other methods are in Graph under their names. A recursion over the
--   graph is on fuel, one more than the number of keys of the graph: each nested call visits a key that
--   was not visited before, or a leaf.
-- Dependencies: src/services/handlers/dependency-handler.ts (handleTaskDelegated, resolveDependencies)
--   over src/implementations/dependency-repository.ts (addDependencies, resolveDependenciesBatch,
--   isBlocked). The tables are lists of rows. Which statements of the database succeed while the
--   dependents of a task are resolved is a parameter.
-- PriorityQueue: the class PriorityTaskQueue of src/implementations/task-queue.ts. The heap is a list
--   with reads and writes at an index, the map of positions an association list. The loop of bubbleUp has
--   fuel for each index below the first, that of bubbleDown the length of the heap.
-- Task, Queue: src/core/domain.ts and the FIFO queue of src/implementations/task-queue.ts, with the
--   record TaskQueue for the interface of src/core/interfaces.ts, and the record Laws for what its client
--   takes for granted while an invariant of the queue holds; both queues have the laws
--   (PriorityQueue/Contents, Queue/Order). The invariant of the priority queue is kept as long as no id
--   is queued that is queued already.
-- QueueHandler: src/services/handlers/queue-handler.ts, over any TaskQueue; src/bootstrap.ts builds it
--   with the priority queue.
-- EventBus: src/core/events/event-bus.ts, the class InMemoryEventBus.
-- Container: src/core/container.ts. A run of a factory is a tree of what it asks the container for, and
--   the container counts the runs that were started, on which a factory may depend. A resolution is on
--   fuel, one more than the number of services: each nested call has one more name under way.
-- ChannelRouter: src/services/channel-router.ts.
-- Loops: src/services/handlers/loop-handler.ts for one loop of single tasks. The row of the loop and those
--   of its iterations (src/core/domain.ts) are the state, with the emitted events; an iteration's number
--   stands for its task. What the database and git answer is an argument of each step, scores are any type
--   with an order, and the number of changed lines in a summary of git is a parameter.
-- Schedules: src/services/schedule-manager.ts (requests), src/services/handlers/schedule-handler.ts (the
--   life cycle and the triggers) and src/services/schedule-executor.ts (the ticks), over the rows of
--   src/implementations/schedule-repository.ts. Rows, tasks, events and the map of running schedules are
--   one state; what the clock, the database and other handlers answer is an argument of each step. The
--   parser of cron expressions, time zones and dates is a parameter, src/utils/cron.ts calls it. Steps
--   follow each other; a tick goes over its due schedules one by one. Stable names the single changes of
--   the state, and shows that what they keep is kept by every operation.
-- Retry: src/utils/retry.ts.
-- Result: src/core/result.ts, with the codes of src/core/errors.ts.
-- Prelude: shared lists, sets and maps. Tests: runs at concrete inputs.
--
-- Not modelled: log lines, time stamps and durations; what other parts do while an event is delivered;
-- overlapping asynchronous calls; errors of the database while a task is delegated; the
-- enrichment of a prompt from a checkpoint; the resumption and recovery of loops, and their pipelines.
-- topologicalSort, the pipelines of chained schedules, workers and channels are left to later versions;
-- terminals, processes, SQL, HTTP and user interfaces are I/O.
pub mod Prelude
pub mod Result
pub mod Adjacency
pub mod Search
pub mod Graph
pub mod ChannelRouter
pub mod Container
pub mod Dependencies
pub mod Depth
pub mod EventBus
pub mod Loops
pub mod PriorityQueue
pub mod Queue
pub mod QueueHandler
pub mod Retry
pub mod Schedules
pub mod Task
pub mod Tests
