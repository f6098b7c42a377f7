-- ===== src/Lib.antt =====
-- Verification of Holder, a framework of components in C++, and of its asynchronous task
-- executor.
--
-- The parts, and the files that model them:
--
--   AsyncTasks/Graph.antt models AsyncGraphBuilder (AsyncTasks/AsyncTaskGraph.h and .cpp):
--   AddTask is add_task, ClearDependencies is clear_dependencies, the two AddDependency are
--   add_dependency and add_dependencies. A call that throws is `thrown` with the builder as it
--   then is. AsyncTasks/Order.antt models AsyncGraphOrder: construct_graph is the constructor,
--   and GetInitialTasksToExecute and GetTasksToExecute append packaged tasks to the list of the
--   callback. AsyncTasks/Executor.antt models TaskContext::RunAllTasks (AsyncExecutor.h and
--   .cpp). The threads are a schedule, an argument: in each round it says which posted tasks have
--   reported when the wait ends, in any order. A run also answers the log of what it posted and
--   what was reported to it. The loop runs on fuel; fuel above the number of tasks is enough
--   where each wait ends with a report, which is a hypothesis on the schedule.
--   AsyncTasks/Executor/Contexts.antt models ExecuteGraph with its contexts and
--   PostTaskCompletions, against any sequence of what other calls and the worker threads do with
--   the contexts meanwhile. AsyncTasks/Executor/Threads.antt models a round of a worker thread,
--   PostTask and the choice of a thread. A task is client code: a function on a world. The thread
--   waits for a new task also while it has unfinished ones, so a schedule in which every posted
--   task reports is an assumption on the tasks: each says Complete within the two calls of its
--   first round, or others keep arriving.
--
--   ObjectTree.antt and ObjectTree/Nodes.antt model ObjectTree (Holder/ObjectTree.h): two tables
--   of nodes under 64-bit ids, of which bit 32 tells values from dictionaries; the operations
--   carry the names of the methods. An id written through a reference is a result. The laws hold
--   while indices are below 2^32, where the ids of the two tables are apart.
--
--   Path.antt models PathFromString (Holder/PathFromString.h and .cpp) and Holder/PathLib.h:
--   trace_path is TracePathGeneric over a visitor, node_adder and node_finder are the visitors,
--   and path_starts_with is PathStartsWith. It uses the ObjectTree through add_node and
--   find_child alone. A trace is structural recursion on the components, so it needs no fuel.
--
--   Startup/Tasks.antt, Startup/Actions.antt and Startup/Manager.antt model StartupTaskManager
--   (Holder/StartupTaskManager.h and .cpp, StartupTaskManagerInterfaces.h): the four HandleAction
--   are handle_define, handle_set_dependencies, handle_run and handle_complete, and the methods
--   of the manager post an action or, on the startup thread, handle it at once. Listeners are
--   client code: the calls of them are recorded.
--
--   Execution.antt models the tables of ExecutionManager::ExecutorThread
--   (Holder/ExecutionManager.h and .cpp): executors, the map from their ids to their places, and
--   the instructions that other threads post. Executors are client code: Init answers by an
--   argument, other calls are recorded.
--
--   Execution/Rounds.antt models the loop of that thread, a round at a time, with the posts of
--   other threads between its steps: receive takes the instructions, work runs the executors. An
--   executor's Run is answered by an argument, from all calls before it.
--
--   Execution/Timers.antt models TimerThread of the same files: SetTimer and CancelTimer post a
--   message, timer_round is a round of its loop with one reading of the clock, and OnTimer is
--   recorded. Execution/Manager.antt models ExecutionManager over both: AddExecutor is
--   add_managed_executor, and an iterator that is used where nothing was found is `undefined`. A
--   thread that it starts is the record of its name, its first executor and its tables.
--
--   Dispatch.antt models MessageDequeDispatcher (Holder/MessageDequeDispatcher.h and .cpp) and
--   MQDExecutor (Holder/MQDExecutor.h and .cpp): the three queues that other threads fill, and
--   the three that ProcessMessages works on. A listener is an argument that says, from all that
--   has happened, which calls on the dispatcher are made while it runs. The loops run on the
--   length of their queue, which only shrinks.
--
--   Requests.antt and its children model the requests of a client to a service.
--   Requests/Info.antt is BaseRequestInfo with its Updater, and Requests/Updates.antt a request
--   with several updaters at once, each with the answer of IsValid that it stores. A listener
--   makes no calls on the request while it is told. Requests/Issuer.antt is the client's table
--   BaseRequestIssuer, and Requests/Handler.antt the service's tables BaseRequestHandler
--   (Holder/BaseRequest*.h and .cpp, IRequestResponse.h, RequestDeltas.h). What listeners and the
--   other side are told is recorded.
--
--   Data/Convert.antt models ConvertValue between integers, with `none` for the types between
--   which it does not compile, and Data/Access.antt the reading of integers (Holder/DTUtils.h),
--   Data/Walk.antt SerializeDataTree (Holder/DTUtils.cpp) with its explicit stack, and
--   Data/Simple.antt the lists and dictionaries of Holder/DTSimpleList.cpp and DTSimpleDict.cpp.
--   A serializer is an argument that answers each callback from all before it. The walk runs on
--   fuel; for every tree and serializer there is enough.
--
--   Prelude.antt has the shared Boolean tests, machine counters, lists as vectors and sets, and
--   association lists as maps. An unordered container is a list in some order.
--
-- Numbers: size_t and uint64_t wrap at 2^64, unsigned int and uint32_t at 2^32, and unsigned long
-- at 2^32 as in the Visual Studio build.
--
-- Not modelled: shared objects, service objects and their communication, the JSON serializer, the
-- programs' entry points, and the locks themselves; steps under one lock are one function. A
-- listener or an executor that throws is not modelled either, nor is memory that runs out.
pub mod Prelude
pub mod AsyncTasks
pub mod ObjectTree
pub mod Path
pub mod Startup
pub mod Data
pub mod Dispatch
pub mod Execution
pub mod Requests
