-- ===== src/Tasks.antt =====
-- kernel/src/tasks.rs: tasks with their own stacks, the timer's switch between them, and their
-- creation and end. A task is its saved stack pointer; the contents of a stack, the context switch
-- itself and the loop that a task runs are not modelled. `CURRENT == usize::MAX` is `none`. An
-- `expect` that fails is the outcome `panics`.
pub mod Stacks
pub mod Safety
pub mod Lifecycle
pub mod Spawn
mod Tests
use spikeling_os.Base.{
  ℕ, zero, suc, ◌+◌, ◌%◌, ◌^◌, ◌==◌, leb, List, [], ◌∷◌, ◌++◌, Bool, true, false, not, Option, none,
  some, if◌then◌else◌, length, get_or, set, position, held, is_none, is_some,
}
use spikeling_os.Scheduler.{
  Floats, Scheduler, is_alive, step, kill_slot, revive, add_slot, new_scheduler,
}

abbrev pub n_tasks : ℕ
n_tasks = 3

abbrev pub max_tasks : ℕ
max_tasks = 8

abbrev pub max_ticks : ℕ
max_ticks = 60

pub record Task : Type 0 where
  pub rsp : ℕ

-- What a tick of the timer does: it returns, or switches from one context to another.
pub data Outcome : Type 0 where
  returns : Outcome
  switches : Option ℕ → Option ℕ → Outcome
  panics : Outcome

-- current_rsp_ptr() finds a place to store the stack pointer that is given up.
abbrev pub has_context : List (Option Task) → Option ℕ → Bool
has_context tasks none = true
has_context tasks (some c) = is_some (held tasks c)

abbrev pub switch : List (Option Task) → Option ℕ → Option ℕ → Outcome
switch tasks old new =
    if has_context tasks old
    then (if has_context tasks new then switches old new else panics)
    else panics

-- `CURRENT == id`
abbrev pub is_current : Option ℕ → ℕ → Bool
is_current none id = false
is_current (some c) id = c == id

-- The `retain` of reap_zombies(): the ids that stay queued, and the tasks.
unfoldable pub reap : Option ℕ → List ℕ → List (Option Task) → List ℕ × List (Option Task)
reap current [] tasks = ([], tasks)
reap current (id ∷ ids) tasks =
    let kept = reap current ids tasks in
    let freed = reap current ids (set tasks id none) in
    if is_current current id then (id ∷ kept.0, kept.1) else freed

module _ (fl : Floats) where
  pub record Tasks : Type 0 where
    pub tasks : List (Option Task)
    pub zombies : List ℕ
    pub current : Option ℕ
    pub sched : Option (Scheduler fl)
    pub counters : List ℕ
    pub total_switches : ℕ
    pub demo_active : Bool
    pub background : Bool

  -- The scheduler has a living slot of that number.
  abbrev pub slot_alive : Option (Scheduler fl) → ℕ → Bool
  slot_alive none id = false
  slot_alive (some s) id = is_alive fl s.slots id

  abbrev pub put_task : Tasks → ℕ → Option Task → Tasks
  put_task t id task = record t { tasks = set t.tasks id task }

  -- `spawn()`, given the stack pointer of the new task. It takes a dead slot's number, or grows.
  unfoldable pub spawn : ℕ → Tasks → Option ℕ × Tasks
  spawn rsp t = elim t.sched [
    | none ↦ (none, t)
    | some s ↦ elim (position is_none t.tasks) [
      | some id ↦ (
        some id,
        record t {
          sched = some (revive fl id s);
          counters = set t.counters id 0;
          tasks = set t.tasks id (some (record { rsp = rsp }));
        },
      )
      | none ↦
          let id = length t.tasks in
          if leb max_tasks id then (none, t) else (
            some id,
            record t {
              sched = some (add_slot fl s).1;
              counters = set t.counters id 0;
              tasks = set (t.tasks ++ none ∷ []) id (some (record { rsp = rsp }));
            },
          )
    ]
  ]

  -- `kill(id)`: a task that is running is queued, and any other is freed at once.
  unfoldable pub kill : ℕ → Tasks → Bool × Tasks
  kill id t = elim t.sched [
    | none ↦ (false, t)
    | some s ↦
        let dead : Tasks = record t { sched = some (kill_slot fl id s) } in
        let queued : Tasks = record dead { zombies = t.zombies ++ id ∷ [] } in
        if is_alive fl s.slots id
        then (true, if is_current t.current id then queued else put_task dead id none)
        else (false, t)
  ]

  unfoldable pub reap_zombies : Tasks → Tasks
  reap_zombies t =
      let (ids, tasks) = reap t.current t.zombies t.tasks in
      record t { zombies = ids; tasks = tasks }

  -- The last part of a tick: the scheduler's choice.
  unfoldable pub dispatch : Tasks → Outcome × Tasks
  dispatch t = elim t.sched [
    | none ↦ (returns, t)
    | some s ↦
        let (next, s') = step fl s in
        let stepped : Tasks = record t { sched = some s' } in
        elim next [
          | none ↦ (returns, stepped)
          | some id ↦
              if is_current t.current id
              then (returns, stepped)
              else (switch t.tasks t.current (some id), record stepped { current = some id })
        ]
  ]

  unfoldable pub tick : Tasks → Outcome × Tasks
  tick t0 =
      let t = reap_zombies t0 in
      let counted : Tasks = record t { total_switches = t.total_switches + 1 } in
      if t.demo_active
      then (if leb max_ticks (t.total_switches + 1)
          then (
            switch t.tasks t.current none,
            record counted { demo_active = false; current = none },
          )
          else dispatch counted)
      else (if t.background then dispatch t else (returns, t))
