-- ===== src/Dispatcher.antt =====
-- dispatcher/dispatcher.py: the queue, the tables by submission id and the threads of the dispatcher.
pub mod State
pub mod Scorer
pub mod Complete
pub mod Failures
pub mod Prepare
pub mod Handle
pub mod Loop
pub mod Threads
pub mod Container
pub mod Phases
pub mod System
