-- ===== src/Lib.antt =====
-- Triggerhook: a library for the delayed launch of tasks. A task is stored in MySQL with the second
-- at which it has to be launched; the library brings it to a consumer when that second has come,
-- and deletes it when the consumer confirms it.
--
-- The parts, and how a task passes through them:
--   * The preloader (preloader_service/) stores a new task through the task manager, and fetches the
--     collections of tasks that are soon due; both give tasks to the waiting service by a channel.
--   * The waiting service (waiting_service/) keeps preloaded tasks in a heap with an index by id,
--     sleeps until the first is due, and sends it on; a cancelled task is removed.
--   * The sender (sender_service/) lends each due task to a consumer by a handle from a pool, and
--     collects the confirmed tasks into batches, which the task manager deletes.
--   * The task manager (task_manager/) retries calls of the repository and counts the tasks.
--   * The repository (repository/) holds the SQL.
--   * The error service (error_service/) queues events for handlers, and stops the application on
--     a fatal one. The monitoring service (monitoring_service/) collects measurements.
--
-- What is modelled where. A Go call that may panic is a `Run`; time, random ids and what the driver
-- or a channel brings are arguments.
--   * Base, Domain, Contracts: numbers with Go's int64 written out, lists, results of calls; the task
--     of domain/task.go; levels, topics and error values of contracts/contracts.go.
--   * Container: Go's container/heap, for any implementation of its interface, with laws for Less,
--     Swap, Push and Pop: Heap has the operations, Up and Down the two sifts, Whole what Push,
--     Pop, Remove and Init do.
--   * Waiting: Items is the slice of waiting_service/heap.go over a store of addresses, TaskHeap is
--     Add, DeleteIfExist, Take and Len of waiting_service/task_heap.go, Loop is the loop of Run in
--     waiting_service/waiting_service.go, one round at a time. A round is given the time, and what
--     its select receives with what else the channels hold then. TaskHeap/Refines relates the list
--     to a map from ids to tasks, and Filled does so for NewPrioritizedTask.
--   * Sender: Queue and Batcher are the queue of batches and the two goroutines of generateBatch in
--     sender_service/, as steps in any order; Handles is Consume, Confirm and Rollback; Buffer is the
--     buffer of tasks that were rolled back, one turn of its goroutine at a time; Confirmation is what
--     a confirmation worker does with a batch, and Pipeline is Run, where any number of workers share
--     the channel of batches with the goroutine that hands over.
--   * TaskManager: Retry and Operations are task_manager/task_manager.go over a repository that is a
--     parameter; Laws says what is relied on: a failed call has rolled back, a successful one has
--     stored or deleted what it was asked to.
--   * Repository: Tables is the schema and its queries, Create the procedure create_task and Create,
--     Find the search, the collections and the reading of tasks, Delete the deletion with its
--     cleaning, Up the setup, all of repository/mysql_repository.go. Failures lists the errors that
--     the driver may return, one argument for each call of it. Session puts the repository behind the
--     interface of the task manager: the answers of the driver to each call are fixed beforehand, and
--     a table of 2^63 - 1 tasks takes no more. Contract is about the task manager over it; Capacity
--     is about the number of tasks in a collection.
--   * ErrorService: Queue is error_service/event_queue.go; System has New and Run of
--     error_service/error_handler.go as steps of any number of reporters and the loop.
--   * Preloader: Service has AddNewTask and getBunchOfTask of preloader_service/preloader_service.go,
--     and CancelIfExist of waiting_service/waiting_service.go, which calls the same task manager.
--     Workers has a round of Run and the workers that it starts, as steps in any order.
--   * Monitoring: Metrics has the three metrics, Registry Init, Publish, Listen and the rounds of Run
--     of monitoring_service/monitoring_service.go.
--   * The constructors: New in each component fills the options with their defaults and registers the
--     topics; Settings is what they share, with mergo.Merge as a parameter; Connection is
--     connection/mysql.go, over the driver as a parameter; Builder is Build of builder.go, which calls
--     them in order on one monitoring. TriggerHook is trigger_hook.go, which forwards the calls.
--   * System is its Run: all of the above that a task passes through, with the channels between them,
--     one step of a goroutine or of a caller at a time, in any order. A step that would block changes
--     nothing. What a worker of the preloader sends is any task, as its Next is any.
--
-- Bounds and fuel. The sifts of the heap recurse on fuel: down gets the number of entries plus one,
-- and up the index it starts from plus one, and Container/Down and Container/Up show that they
-- return. The loop of the waiting service runs over a list of rounds; retry recurses on the tries
-- that are left; other loops recurse on lists. Integers of 32 and 64 bits wrap where the code
-- computes with them.
--
-- Not modelled: the callbacks of subscriptions and of event handlers; cmd/; concurrent transactions of the database and the types of its columns;
-- contexts and their timeouts; the mocks for tests. A select receives any one of what is ready, so
-- every order of its events is considered; fairness is a hypothesis where it is needed.
pub mod Base
pub mod Domain
pub mod Contracts
pub mod ErrorService
pub mod TaskManager
pub mod Container
pub mod Waiting
pub mod Repository
pub mod Sender
pub mod Monitoring
pub mod Preloader
pub mod Settings
pub mod Connection
pub mod Builder
pub mod TriggerHook
pub mod System
