-- ===== src/Worker/Scheduler.antt =====
-- src/worker-scheduler.service.ts: the three repeating tasks of the worker.
use distributed_wagering_pro.Worker.RepeatingTask.{TaskState, Step, start, stop}
use distributed_wagering_pro.Prelude.{ℕ}

abbrev pub publish_outbox_interval_ms : ℕ
publish_outbox_interval_ms = 2000

abbrev pub reprocess_pending_reference_interval_ms : ℕ
reprocess_pending_reference_interval_ms = 5000

-- The consumer waits for messages within its run, so its interval is 0.
pub record Tasks : Type 0 where
  pub consume : TaskState
  pub publish : TaskState
  pub reprocess : TaskState

-- `onApplicationBootstrap`
unfoldable pub bootstrap : ℕ → Tasks
unfolding start
bootstrap now = record { consume = start now; publish = start now; reprocess = start now }

-- `onApplicationShutdown`
unfoldable pub shutdown : Tasks → Tasks
unfolding stop
shutdown tasks = record {
  consume = stop tasks.consume;
  publish = stop tasks.publish;
  reprocess = stop tasks.reprocess;
}

-- One of the three moves on.
pub data TasksStep : Tasks → Tasks → Type 0 where
  consumes :
      {s : Tasks} {t : TaskState} → Step 0 s.consume t → TasksStep s (record s { consume = t })
  publishes :
      {s : Tasks} {t : TaskState}
      → Step publish_outbox_interval_ms s.publish t
      → TasksStep s (record s { publish = t })
  reprocesses :
      {s : Tasks} {t : TaskState}
      → Step reprocess_pending_reference_interval_ms s.reprocess t
      → TasksStep s (record s { reprocess = t })
