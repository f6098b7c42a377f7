-- ===== src/Startup.antt =====
-- StartupTaskManager (Holder/StartupTaskManager.h, StartupTaskManager.cpp): tasks with names that
-- wait for one another. The listeners are client code: the calls of them are recorded, and a
-- listener that makes requests from inside a call on the startup thread is not modelled.
pub mod Tasks
pub mod Actions
pub mod Manager
pub mod Readiness
pub mod Requests
pub mod Tests
