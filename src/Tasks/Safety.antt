-- ===== src/Tasks/Safety.antt =====
-- kernel/src/tasks.rs: no stack is freed while it is in use, and no task is run without one.
use spikeling_os.Base.{
  ℕ, ◌+◌, ◌≡◌, ◌≢◌, leb, refl, ap, sym, ◌∙◌, List, Bool, true, false, Option, none, some,
  if◌then◌else◌, arith, length, held, is_some, Bool-cases, Option-cases, inl, inr,
}
use spikeling_os.Scheduler.{Floats, Scheduler, step}
use spikeling_os.Scheduler.Choice.{step-ready, step-keeps}
use spikeling_os.Tasks.{
  Task, Tasks, Outcome, returns, switches, panics, is_current, slot_alive, reap_zombies,
  has_context, switch, dispatch, tick, max_ticks,
}
use spikeling_os.Tasks.Stacks.{member, reap-current, held-reap, held-reap_current, length-reap}

context :
    (tasks : List (Option Task)) (current : Option ℕ)
    → ((i : ℕ) → is_current current i ≡ true → is_some (held tasks i) ≡ true)
    → has_context tasks current ≡ true
context tasks none h = refl
context tasks (some c) h = h c (ground arith)

switch_safe :
    (tasks : List (Option Task)) (old new : Option ℕ)
    → has_context tasks old ≡ true
    → has_context tasks new ≡ true
    → switch tasks old new ≢ panics
switch_safe tasks old new h g q =
    let done : switch tasks old new ≡ switches old new = rw (h, g) refl in
    let other : switches old new ≡ panics = sym done ∙ q in cc

module _ (fl : Floats) where
  -- A living slot has a task, and so has what runs; what waits to be freed has its task still, and
  -- no living slot.
  pub record IsSound (t : Tasks fl) : Type 0 where
    pub sized : (s : Scheduler fl) → t.sched ≡ some s → length t.tasks ≡ length s.slots
    pub backed : (i : ℕ) → slot_alive fl t.sched i ≡ true → is_some (held t.tasks i) ≡ true
    pub running : (i : ℕ) → is_current t.current i ≡ true → is_some (held t.tasks i) ≡ true
    pub buried :
        (z : ℕ)
        → member z t.zombies ≡ true
        → (is_some (held t.tasks z) ≡ true) × (slot_alive fl t.sched z ≡ false)

  reap_zombies-IsSound : (t : Tasks fl) → IsSound t → IsSound (reap_zombies fl t)
  unfolding reap_zombies
  reap_zombies-IsSound t v = record {
    sized = λ s e. length-reap t.current t.zombies t.tasks ∙ v.sized s e;
    backed = λ i a. elim (Bool-cases (member i t.zombies)) [
      | inl m ↦ absurd (ground (arith, (v.buried i m).1))
      | inr m ↦ rw (held-reap t.current t.zombies t.tasks i, m) (v.backed i a)
    ];
    running = λ i c. rw (held-reap_current t.current t.zombies t.tasks i c) (v.running i c);
    buried = λ z m.
        let (cur, queued) = reap-current t.current t.zombies t.tasks z m in
        (
          rw (held-reap_current t.current t.zombies t.tasks z cur) (v.running z cur),
          (v.buried z queued).1,
        );
  }

  same_step : (s s' : Scheduler fl) → some (step fl s).1 ≡ some s' → (step fl s).1 ≡ s'
  same_step s s' q = cc

  -- A living slot may become the current one.
  runs :
      {t : Tasks fl}
      → IsSound t
      → (id : ℕ) → slot_alive fl t.sched id ≡ true
      → IsSound (record t { current = some id })
  runs {t} v id a = record {
    sized = v.sized;
    backed = v.backed;
    running = λ i c. let same : id ≡ i = ground arith in rw (← same) (v.backed id a);
    buried = v.buried;
  }

  -- A tick of the scheduler's own: what may be chosen has a task.
  dispatch-IsSound :
      (t : Tasks fl) → IsSound t → IsSound (dispatch fl t).1 × ((dispatch fl t).0 ≢ panics)
  unfolding dispatch
  dispatch-IsSound t v = elim (Option-cases t.sched) [
    | inl e ↦ rw (e, dispatch) (v, λ q. cc)
    | inr (s, e) ↦ elim (Option-cases (step fl s).0) [
      | inl n ↦ rw (e, n, dispatch) (stepped s e, λ q. cc)
      | inr (id, n) ↦ elim (Bool-cases (is_current t.current id)) [
        | inl c ↦ rw (e, n, c, dispatch) (stepped s e, λ q. cc)
        | inr c ↦
            rw (e, n, c, dispatch)
              (
                runs (stepped s e) id ((step-keeps fl s id).0 ∙ (step-ready fl s id n).0),
                switch_safe t.tasks t.current (some id) (context t.tasks t.current v.running)
                    (v.backed id (ap (λ o. slot_alive fl o id) e ∙ (step-ready fl s id n).0)),
              )
      ]
    ]
  ]
    where
      stepped :
          (s : Scheduler fl) → t.sched ≡ some s → IsSound (record t { sched = some (step fl s).1 })
      stepped s e = record {
        sized = λ s' q.
            v.sized s e ∙ sym (step-keeps fl s 0).1 ∙ ap (λ x. length x.slots) (same_step s s' q);
        backed = λ i a. v.backed i (ap (λ o. slot_alive fl o i) e ∙ sym (step-keeps fl s i).0 ∙ a);
        running = v.running;
        buried = λ z m. (
          (v.buried z m).0,
          (step-keeps fl s z).0 ∙ sym (ap (λ o. slot_alive fl o z) e) ∙ (v.buried z m).1,
        );
      }

  -- What is given up by a tick that ends the demo.
  stops :
      {t : Tasks fl} (n : ℕ)
      → IsSound t
      → IsSound (record t { total_switches = n; demo_active = false; current = none })
  stops n v = record { sized = v.sized; backed = v.backed; running = λ i c. cc; buried = v.buried }

  counts : {t : Tasks fl} (n : ℕ) → IsSound t → IsSound (record t { total_switches = n })
  counts n v = record { sized = v.sized; backed = v.backed; running = v.running; buried = v.buried }

  -- Both branches of a test leave a sound state and do not panic.
  abbrev IsSafe : Outcome × Tasks fl → Type 0
  IsSafe r = IsSound r.1 × (r.0 ≢ panics)

  either-IsSafe :
      (b : Bool) (x y : Outcome × Tasks fl) → IsSafe x → IsSafe y → IsSafe (if b then x else y)
  either-IsSafe true x y h g = h
  either-IsSafe false x y h g = g

  -- From a state in which every living slot and the running task have a stack, and what is queued to
  -- be freed belongs to no living slot, a tick of the timer leads to such a state again, and finds the
  -- stack of the context that it leaves and of the one that it enters.
  pub tick-IsSound : (t : Tasks fl) → IsSound t → IsSound (tick fl t).1 × ((tick fl t).0 ≢ panics)
  unfolding tick
  tick-IsSound t0 v0 =
      let t = reap_zombies fl t0 in
      let v = reap_zombies-IsSound t0 v0 in
      let n = t.total_switches + 1 in
      let counted : Tasks fl = record t { total_switches = n } in
      let stopped : Outcome × Tasks fl =
        (switch t.tasks t.current none, record counted { demo_active = false; current = none }) in
      let enters = switch_safe t.tasks t.current none (context t.tasks t.current v.running) refl in
      either-IsSafe t.demo_active (if leb max_ticks n then stopped else dispatch fl counted)
        (if t.background then dispatch fl t else (returns, t))
        (either-IsSafe (leb max_ticks n) stopped (dispatch fl counted) (stops n v, enters)
          (dispatch-IsSound counted (counts n v)))
        (either-IsSafe t.background (dispatch fl t) (returns, t) (dispatch-IsSound t v)
          (v, λ q. cc))
