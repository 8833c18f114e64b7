-- ===== src/Automation/Scheduler.antt =====
-- src/automation/scheduler.py. Tasks are mutable objects: the heap is the dictionary of all tasks
-- made so far by their id, and the registered tasks, the queue and the workers name them by id. The
-- queue holds None as the workers' stop signal. A time is a natural number of clock ticks.
pub mod Task
pub mod Ops
pub mod Due
pub mod Dispatch
pub mod Known
pub mod Valid
pub mod Running
pub mod Cancel
pub mod Steps
