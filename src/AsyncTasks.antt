-- ===== src/AsyncTasks.antt =====
-- AsyncTasks/: the task graph, its execution order, and the executor with its threads.
pub mod Graph
pub mod Order
pub mod Executor
