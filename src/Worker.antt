-- ===== src/Worker.antt =====
-- src/worker-scheduler.service.ts and src/shared/scheduler: the worker's tasks over time.
pub mod RepeatingTask
pub mod Scheduler
