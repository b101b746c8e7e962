-- ===== src/Worker/RepeatingTask/Liveness.antt =====
-- src/shared/scheduler/repeating-task.ts: the loop goes on, whether its runs fail or not.
use distributed_wagering_pro.Worker.RepeatingTask.{
  TaskState, Timer, Step, Steps, pass, fires, settles, stops, done, also, start, settle, fire, stop,
  tick, drop_timer, clear_timer, again, set_timer,
}
use distributed_wagering_pro.Worker.RepeatingTask.Safety.{
  IsLoop, waiting, busy, halted, Steps-IsLoop, start-IsLoop,
}
use distributed_wagering_pro.Prelude.{
  ℕ, List, All, ◌≤◌, Option, Bool-cases, ◌+◌, ◌≡◌, ◌++◌, ◌∷◌, arith, false, some, inl, [], true,
  subst, none, inr, refl, ◌==◌, ◌-◌,
}

-- No timer is due later than an interval from now.
abbrev Soon : ℕ → TaskState → Type 0
Soon interval s = All (λ t. t.due ≤ s.now + interval) s.timers

All-append-one :
    {A : Type 0} (Q : A → Type 0) (xs : List A) (x : A) → All Q xs → Q x → All Q (xs ++ x ∷ [])
All-append-one Q [] x h q = (q, tt)
All-append-one Q (y ∷ ys) x h q = (h.0, All-append-one Q ys x h.1 q)

All-drop_timer :
    (Q : Timer → Type 0) (handle : ℕ) (timers : List Timer)
    → All Q timers
    → All Q (drop_timer handle timers)
unfolding drop_timer
All-drop_timer Q handle [] h = tt
All-drop_timer Q handle (t ∷ timers) h =
    let rest = All-drop_timer Q handle timers h.1 in
    elim (Bool-cases (t.handle == handle)) [ inl e ↦ rw e rest | inr e ↦ rw e (h.0, rest) ]

All-later :
    (bound later : ℕ) (timers : List Timer)
    → bound ≤ later
    → All (λ t. t.due ≤ bound) timers
    → All (λ t. t.due ≤ later) timers
All-later bound later [] le h = tt
All-later bound later (t ∷ timers) le h =
    (omega (arith, le, h.0), All-later bound later timers le h.1)

module _ (interval : ℕ) where
  clear_timer-Soon :
      (timer : Option ℕ) (s : TaskState) → Soon interval s → Soon interval (clear_timer timer s)
  unfolding clear_timer
  clear_timer-Soon none s h = h
  clear_timer-Soon (some handle) s h =
      All-drop_timer (λ t. t.due ≤ s.now + interval) handle s.timers h

  again-Soon : (s : TaskState) → Soon interval s → Soon interval (again interval s)
  unfolding again set_timer
  again-Soon s h = elim (Bool-cases s.stopped) [
    | inl e ↦ rw e h
    | inr e ↦ rw e (
        All-append-one (λ t. t.due ≤ s.now + interval) s.timers
          (record { handle = s.handles; due = s.now + interval }) h (omega arith))
  ]

  tick-Soon : (s : TaskState) → Soon interval s → Soon interval (tick s)
  unfolding tick
  tick-Soon s h = elim (Bool-cases s.stopped) [ inl e ↦ rw e h | inr e ↦ rw e h ]

  Step-Soon : {s s' : TaskState} → Step interval s s' → Soon interval s → Soon interval s'
  unfolding fire settle stop
  Step-Soon {s = s} (pass d) h =
      All-later (s.now + interval) (s.now + d + interval) s.timers (omega arith) h
  Step-Soon {s = s} (fires t o due) h =
      tick-Soon (record s { timers = drop_timer t.handle s.timers })
        (All-drop_timer (λ u. u.due ≤ s.now + interval) t.handle s.timers h)
  Step-Soon {s = s} (settles failed run) h = again-Soon _ h
  Step-Soon {s = s} stops h = clear_timer-Soon s.timer (record s { stopped = true }) h

  Steps-Soon : {s s' : TaskState} → Steps interval s s' → Soon interval s → Soon interval s'
  Steps-Soon done h = h
  Steps-Soon (also steps step) h = Step-Soon step (Steps-Soon steps h)

  Steps-trans : {r s t : TaskState} → Steps interval r s → Steps interval s t → Steps interval r t
  Steps-trans h done = h
  Steps-trans h (also k step) = also (Steps-trans h k) step

  -- A run that starts within an interval.
  abbrev pub NextRun : TaskState → Type 0
  NextRun s =
      (s' : TaskState) × Steps interval s s'
      × (s'.starts ≡ s.starts + 1)
      × (s'.now ≤ s.now + interval)

  run_waiting :
      (s : TaskState) (t : Timer)
      → s.stopped ≡ false
      → s.timers ≡ t ∷ []
      → t.due ≤ s.now + interval
      → NextRun s
  unfolding fire tick
  run_waiting s t on timers soon =
      let s₁ : TaskState = record s { now = s.now + interval } in
      (
        fire t s₁,
        also (also done (pass interval)) (fires t (rw timers (inl refl)) soon),
        rw on refl,
        rw on (omega arith),
      )

  run_busy : (s : TaskState) → s.stopped ≡ false → s.running ≡ 1 → s.timers ≡ [] → NextRun s
  unfolding settle again set_timer
  run_busy s on run timers =
      let idle : TaskState = record s { running = s.running - 1; failures = s.failures + 0 } in
      let settled : settle interval false s ≡ set_timer interval idle = rw on refl in
      let before : Steps interval s (set_timer interval idle) =
        subst (Steps interval s) settled (also done (settles false (omega (arith, run)))) in
      let (s', after, starts, soon) =
        run_waiting (set_timer interval idle)
          (record { handle = s.handles; due = s.now + interval }) on (rw timers refl)
          (omega arith) in
      (s', Steps-trans before after, starts, soon)

  -- From every state that a repeating task reaches without being stopped, whether its runs failed
  -- or not, steps of the task lead to the beginning of a next call, no later than one interval
  -- from then.
  pub next_run :
      (now : ℕ) (s : TaskState) → Steps interval (start now) s → s.stopped ≡ false → NextRun s
  unfolding start set_timer
  next_run now s h on = by_loop (Steps-IsLoop h (start-IsLoop now)) (Steps-Soon h (omega arith, tt))
    where
      by_loop : IsLoop s → Soon interval s → NextRun s
      by_loop (waiting t _ idle timers own) soon =
          run_waiting s t on timers
            (subst (λ ts. All (λ u. u.due ≤ s.now + interval) ts) timers soon).0
      by_loop (busy _ run timers) soon = run_busy s on run timers
      by_loop (halted off _ _) soon = absurd (cc (on, off))
