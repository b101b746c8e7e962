-- ===== src/Worker/RepeatingTask/Safety.antt =====
-- src/shared/scheduler/repeating-task.ts: no two runs at a time, and none after the stop.
use distributed_wagering_pro.Worker.RepeatingTask.{
  TaskState, start, drop_timer, fire, settle, stop, Timer, set_timer, tick, again, clear_timer,
  Step, Steps, pass, also, fires, settles, stops, done,
}
use distributed_wagering_pro.Prelude.{
  Occurs, ℕ, ◌∷◌, ◌≡◌, ◌≤◌, true, false, ◌+◌, [], Bool, Option, arith, ◌∙◌, some, ap, length, refl,
  inl, subst, none, inr,
}

-- The loop waits for its one timer, or runs, or was stopped.
pub data IsLoop (s : TaskState) : Type 0 where
  waiting :
      (t : Timer)
      → s.stopped ≡ false
      → s.running ≡ 0
      → s.timers ≡ t ∷ []
      → s.timer ≡ some t.handle
      → IsLoop s
  busy : s.stopped ≡ false → s.running ≡ 1 → s.timers ≡ [] → IsLoop s
  halted : s.stopped ≡ true → s.running ≤ 1 → s.timers ≡ [] → IsLoop s

pub start-IsLoop : (now : ℕ) → IsLoop (start now)
unfolding start set_timer
start-IsLoop now = waiting (record { handle = 0; due = now + 0 }) refl refl refl refl

drop_timer-own : (t : Timer) → drop_timer t.handle (t ∷ []) ≡ []
unfolding drop_timer
drop_timer-own t = ground arith

drop_timer-nil : (h : ℕ) → drop_timer h [] ≡ []
unfolding drop_timer
drop_timer-nil h = refl

Occurs-one : {A : Type 0} {a : A} (b : A) → Occurs a (b ∷ []) → b ≡ a
Occurs-one b (inl e) = e
Occurs-one b (inr o) = absurd o

pub fire-busy :
    (s : TaskState) (t : Timer)
    → s.stopped ≡ false
    → s.running ≡ 0
    → s.timers ≡ t ∷ []
    → IsLoop (fire t s)
unfolding fire tick
fire-busy s t on idle timers =
    rw on (busy refl (ground (arith, idle)) (rw timers (drop_timer-own t)))

pub settle-IsLoop :
    (interval : ℕ) (failed : Bool) (s : TaskState)
    → IsLoop s
    → 1 ≤ s.running
    → IsLoop (settle interval failed s)
unfolding settle again set_timer
settle-IsLoop interval failed s (waiting t on idle timers own) h = absurd (ground arith)
settle-IsLoop interval failed s (busy on run timers) h = rw on (
    waiting (record { handle = s.handles; due = s.now + interval }) refl (ground (arith, run))
      (rw timers refl) refl)
settle-IsLoop interval failed s (halted off run timers) h =
    rw off (halted refl (ground (arith, run)) timers)

-- What `clearTimeout` leaves as it is.
clear_timer-kept :
    (timer : Option ℕ) (s : TaskState)
    → ((clear_timer timer s).stopped ≡ s.stopped)
      × ((clear_timer timer s).running ≡ s.running)
      × ((clear_timer timer s).starts ≡ s.starts)
unfolding clear_timer
clear_timer-kept none s = (refl, refl, refl)
clear_timer-kept (some h) s = (refl, refl, refl)

clear_timer-nil :
    (timer : Option ℕ) (s : TaskState) → s.timers ≡ [] → (clear_timer timer s).timers ≡ []
unfolding clear_timer drop_timer
clear_timer-nil none s h = h
clear_timer-nil (some handle) s h = rw h refl

stop-timers : (s : TaskState) → IsLoop s → (stop s).timers ≡ []
unfolding stop clear_timer
stop-timers s (waiting t on idle timers own) =
    rw (own) (clear_own (record s { stopped = true }) t timers)
  where
    clear_own :
        (r : TaskState) (u : Timer)
        → r.timers ≡ u ∷ []
        → (clear_timer (some u.handle) r).timers ≡ []
    clear_own r u h = rw h (drop_timer-own u)
stop-timers s (busy on run timers) = clear_timer-nil s.timer (record s { stopped = true }) timers
stop-timers s (halted off run timers) = clear_timer-nil s.timer (record s { stopped = true }) timers

running_le_1 : (s : TaskState) → IsLoop s → s.running ≤ 1
running_le_1 s (waiting t on idle timers own) = ground (arith, idle)
running_le_1 s (busy on run timers) = ground (arith, run)
running_le_1 s (halted off run timers) = run

stop-IsLoop : (s : TaskState) → IsLoop s → IsLoop (stop s)
unfolding stop
stop-IsLoop s loop =
    let (off, run, _) = clear_timer-kept s.timer (record s { stopped = true }) in
    halted off (ground (arith, run, running_le_1 s loop)) (stop-timers s loop)

fire-IsLoop : (s : TaskState) (t : Timer) → IsLoop s → Occurs t s.timers → IsLoop (fire t s)
fire-IsLoop s t (waiting u on idle timers own) o =
    fire-busy s t on idle (timers ∙ ap (λ x. x ∷ []) (Occurs-one u (subst (Occurs t) timers o)))
fire-IsLoop s t (busy on run timers) o = absurd (subst (Occurs t) timers o)
fire-IsLoop s t (halted off run timers) o = absurd (subst (Occurs t) timers o)

pass-IsLoop : (s : TaskState) (d : ℕ) → IsLoop s → IsLoop (record s { now = s.now + d })
pass-IsLoop s d (waiting t on idle timers own) = waiting t on idle timers own
pass-IsLoop s d (busy on run timers) = busy on run timers
pass-IsLoop s d (halted off run timers) = halted off run timers

module _ {interval : ℕ} where
  Step-IsLoop : {s s' : TaskState} → Step interval s s' → IsLoop s → IsLoop s'
  Step-IsLoop {s = s} (pass d) loop = pass-IsLoop s d loop
  Step-IsLoop {s = s} (fires t o due) loop = fire-IsLoop s t loop o
  Step-IsLoop {s = s} (settles failed run) loop = settle-IsLoop interval failed s loop run
  Step-IsLoop {s = s} stops loop = stop-IsLoop s loop

  pub Steps-IsLoop : {s s' : TaskState} → Steps interval s s' → IsLoop s → IsLoop s'
  Steps-IsLoop done loop = loop
  Steps-IsLoop (also h step) loop = Step-IsLoop step (Steps-IsLoop h loop)

  -- A stopped loop without timers stays so, and starts nothing.
  stopped-Step :
      {s s' : TaskState}
      → Step interval s s'
      → s.stopped ≡ true
      → s.timers ≡ []
      → (s'.stopped ≡ true) × (s'.timers ≡ []) × (s'.starts ≡ s.starts)
  unfolding settle again stop
  stopped-Step (pass d) off empty = (off, empty, refl)
  stopped-Step (fires t o due) off empty = absurd (subst (Occurs t) empty o)
  stopped-Step (settles failed run) off empty = rw off (refl, empty, refl)
  stopped-Step {s = s} stops off empty =
      let (off', _, same) = clear_timer-kept s.timer (record s { stopped = true }) in
      (off', clear_timer-nil s.timer (record s { stopped = true }) empty, same)

  stopped-Steps :
      {s s' : TaskState}
      → Steps interval s s'
      → s.stopped ≡ true
      → s.timers ≡ []
      → (s'.stopped ≡ true) × (s'.timers ≡ []) × (s'.starts ≡ s.starts)
  stopped-Steps done off empty = (off, empty, refl)
  stopped-Steps (also h step) off empty =
      let (off₁, none₁, same₁) = stopped-Steps h off empty in
      let (off₂, none₂, same₂) = stopped-Step step off₁ none₁ in (off₂, none₂, same₂ ∙ same₁)

  -- At any time after a repeating task was started, whatever timers fire, runs settle and stops
  -- happen, the calls of the task in progress and the pending timers are together at most one.
  pub one_run_at_a_time :
      (now : ℕ) (s : TaskState) → Steps interval (start now) s → s.running + length s.timers ≤ 1
  one_run_at_a_time now s h = by_loop (Steps-IsLoop h (start-IsLoop now))
    where
      by_loop : IsLoop s → s.running + length s.timers ≤ 1
      by_loop (waiting t on idle timers own) = rw (idle, timers) (omega arith)
      by_loop (busy on run timers) = rw (run, timers) (omega arith)
      by_loop (halted off run timers) = rw timers (omega (arith, run))

  -- Once a repeating task is stopped, at whatever moment, no call of the task begins any more, and
  -- no timer is left.
  pub no_run_after_stop :
      (now : ℕ) (s s' : TaskState)
      → Steps interval (start now) s
      → Steps interval (stop s) s'
      → (s'.starts ≡ s.starts) × (s'.timers ≡ [])
  unfolding stop
  no_run_after_stop now s s' h after =
      let loop = Steps-IsLoop h (start-IsLoop now) in
      let (off, _, same) = clear_timer-kept s.timer (record s { stopped = true }) in
      let (_, empty, same') = stopped-Steps after off (stop-timers s loop) in (same' ∙ same, empty)
