-- ===== src/Worker/RepeatingTask.antt =====
-- src/shared/scheduler/repeating-task.ts: one repeating task, with the timers of the event loop.
pub mod Safety
pub mod Liveness
use distributed_wagering_pro.Prelude.{
  ℕ, Bool, Option, if◌then◌else◌, true, List, some, ◌+◌, ◌-◌, false, ◌++◌, ◌∷◌, none, Occurs, [],
  ◌==◌, ◌≤◌,
}

-- A pending call of `tick`, with the handle that `setTimeout` gave for it.
pub record Timer : Type 0 where
  pub handle : ℕ
  pub due : ℕ

-- The variables of `startRepeatingTask`, and what the event loop keeps for it: the pending timers
-- and how many calls of `task` are not settled. `handles` counts the timers that were set, `starts`
-- the calls of `task`, `failures` those of `onError`.
pub record TaskState : Type 0 where
  pub stopped : Bool
  pub timer : Option ℕ
  pub timers : List Timer
  pub handles : ℕ
  pub running : ℕ
  pub starts : ℕ
  pub failures : ℕ
  pub now : ℕ

-- `timer = setTimeout(tick, delay)`
unfoldable pub set_timer : ℕ → TaskState → TaskState
set_timer delay s = record s {
  timer = some s.handles;
  timers = s.timers ++ record { handle = s.handles; due = s.now + delay } ∷ [];
  handles = s.handles + 1;
}

unfoldable pub drop_timer : ℕ → List Timer → List Timer
drop_timer handle [] = []
drop_timer handle (t ∷ timers) =
    let rest = drop_timer handle timers in if t.handle == handle then rest else t ∷ rest

-- `clearTimeout`, which does nothing for a timer that has fired.
unfoldable pub clear_timer : Option ℕ → TaskState → TaskState
unfolding drop_timer
clear_timer none s = s
clear_timer (some handle) s = record s { timers = drop_timer handle s.timers }

-- `tick`, up to the call of `task`.
unfoldable pub tick : TaskState → TaskState
tick s = if s.stopped then s else record s { running = s.running + 1; starts = s.starts + 1 }

-- The event loop calls a timer's `tick`, and the timer is gone.
unfoldable pub fire : Timer → TaskState → TaskState
unfolding tick drop_timer
fire t s = tick (record s { timers = drop_timer t.handle s.timers })

unfoldable pub again : ℕ → TaskState → TaskState
unfolding set_timer
again interval s = if s.stopped then s else set_timer interval s

-- `tick`, from where a call of `task` settles; `failed` says that it threw.
unfoldable pub settle : ℕ → Bool → TaskState → TaskState
unfolding again
settle interval failed s =
    again interval
      (record s { running = s.running - 1; failures = s.failures + (if failed then 1 else 0) })

-- The function that is returned.
unfoldable pub stop : TaskState → TaskState
unfolding clear_timer
stop s = clear_timer s.timer (record s { stopped = true })

-- `startRepeatingTask`, called at `now`.
unfoldable pub start : ℕ → TaskState
unfolding set_timer
start now = set_timer 0 (record {
  stopped = false;
  timer = none;
  timers = [];
  handles = 0;
  running = 0;
  starts = 0;
  failures = 0;
  now = now;
})

-- What can happen next: time passes, a timer that is due fires, a call of `task` settles, or the
-- loop is stopped.
pub data Step (interval : ℕ) : TaskState → TaskState → Type 0 where
  pass : {s : TaskState} (d : ℕ) → Step interval s (record s { now = s.now + d })
  fires :
      {s : TaskState} (t : Timer) → Occurs t s.timers → t.due ≤ s.now → Step interval s (fire t s)
  settles :
      {s : TaskState} (failed : Bool) → 1 ≤ s.running → Step interval s (settle interval failed s)
  stops : {s : TaskState} → Step interval s (stop s)

pub data Steps (interval : ℕ) : TaskState → TaskState → Type 0 where
  done : {s : TaskState} → Steps interval s s
  also : {r s t : TaskState} → Steps interval r s → Step interval s t → Steps interval r t
