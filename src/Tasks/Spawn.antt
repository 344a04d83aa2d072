-- ===== src/Tasks/Spawn.antt =====
-- kernel/src/tasks.rs, spawn(), and any sequence of ticks, spawns and kills.
use spikeling_os.Base.{
  ℕ, ◌+◌, ◌≡◌, ◌≢◌, ◌==◌, leb, refl, ap, sym, ◌∙◌, List, [], ◌∷◌, ◌++◌, true, false, Option, none,
  some, if◌then◌else◌, arith, length, set, length-set, held, is_some, is_none, position,
  position-some, get_elem?, get_elem?-lt, Bool-cases, Option-cases, inl, inr, length-append,
}
use spikeling_os.Scheduler.{Floats, Scheduler, revive, add_slot, fresh_slot}
use spikeling_os.Scheduler.Choice.{length-update}
use spikeling_os.Tasks.{Task, Tasks, panics, slot_alive, spawn, kill, tick, max_tasks}
use spikeling_os.Tasks.Stacks.{held-some-lt, held-put, held-push, alive-revive, alive-add}
use spikeling_os.Tasks.Safety.{IsSound, tick-IsSound}
use spikeling_os.Tasks.Lifecycle.{kill-IsSound, distinct}

vacant_at :
    (xs : List (Option Task)) (i : ℕ) (old : Option Task)
    → get_elem? xs i ≡ some old
    → is_none old ≡ true
    → is_some (held xs i) ≡ false
vacant_at xs i none at free = rw (held, at) refl
vacant_at xs i (some task) at free = cc

nothing_past : (xs : List (Option Task)) → is_some (held xs (length xs)) ≡ false
nothing_past xs = elim (Bool-cases (is_some (held xs (length xs)))) [
  | inl e ↦ absurd (omega (arith, held-some-lt xs (length xs) e))
  | inr e ↦ e
]

module _ (fl : Floats) where
  -- A task is stored at a number whose slot may become alive, and which is not queued.
  module _ (t : Tasks fl) (v : IsSound fl t) (id : ℕ) (task : Task) (tasks' : List (Option Task))
      (o : Option (Scheduler fl))
      (at : (j : ℕ) → held tasks' j ≡ (if id == j then some task else held t.tasks j))
      (others : (j : ℕ) → (id == j) ≡ false → slot_alive fl o j ≡ slot_alive fl t.sched j)
      (vacant : is_some (held t.tasks id) ≡ false) (counters' : List ℕ)
      (size : (s' : Scheduler fl) → o ≡ some s' → length tasks' ≡ length s'.slots) where
    has_task :
        (j : ℕ)
        → ((id == j) ≡ false → is_some (held t.tasks j) ≡ true)
        → is_some (held tasks' j) ≡ true
    has_task j h = elim (Bool-cases (id == j)) [
      | inl here ↦ rw (at j, here) refl
      | inr other ↦ rw (at j, other) (h other)
    ]

    stored-IsSound : IsSound fl (record t { sched = o; counters = counters'; tasks = tasks' })
    stored-IsSound = record {
      sized = size;
      backed = λ j a. has_task j (λ ne. v.backed j (sym (others j ne) ∙ a));
      running = λ j c. has_task j (λ ne. v.running j c);
      buried = λ z m.
          let (has, dead) = v.buried z m in
          let ne : (id == z) ≡ false =
            apart z (distinct (λ j. is_some (held t.tasks j)) z id has vacant) in
          (has_task z (λ _. has), others z ne ∙ dead);
    }
      where
        apart : (z : ℕ) → (z == id) ≡ false → (id == z) ≡ false
        apart z h = ground arith

  same_size :
      (s s' : Scheduler fl) (n : ℕ) → n ≡ length s.slots → some s ≡ some s' → n ≡ length s'.slots
  same_size s s' n e q = let same : s ≡ s' = cc in e ∙ ap (λ x. length x.slots) same

  length-revive : (id : ℕ) (s : Scheduler fl) → length (revive fl id s).slots ≡ length s.slots
  unfolding revive
  length-revive id s = length-update s.slots id _

  length-add_slot : (s : Scheduler fl) → length (add_slot fl s).1.slots ≡ length s.slots + 1
  unfolding add_slot
  length-add_slot s = omega (arith, length-append s.slots (fresh_slot fl ∷ []))

  reused-IsSound :
      (rsp id : ℕ) (t : Tasks fl) (s : Scheduler fl)
      → t.sched ≡ some s
      → position is_none t.tasks ≡ some id
      → IsSound fl t
      → IsSound fl (record t {
        sched = some (revive fl id s);
        counters = set t.counters id 0;
        tasks = set t.tasks id (some (record { rsp = rsp }));
      })
  reused-IsSound rsp id t s e found v =
      let (old, at, free) = position-some is_none t.tasks id found in
      let task : Task = record { rsp = rsp } in
      stored-IsSound t v id task (set t.tasks id (some task)) (some (revive fl id s))
        (λ j. held-put t.tasks id j task (get_elem?-lt t.tasks id at))
        (λ j ne. alive-revive fl id s j ne ∙ sym (ap (λ o. slot_alive fl o j) e))
        (vacant_at t.tasks id old at free) (set t.counters id 0)
        (λ s' q.
          same_size (revive fl id s) s' (length (set t.tasks id (some task)))
            (length-set t.tasks id (some task) ∙ v.sized s e ∙ sym (length-revive id s)) q)

  grown-IsSound :
      (rsp : ℕ) (t : Tasks fl) (s : Scheduler fl)
      → t.sched ≡ some s
      → IsSound fl t
      → IsSound fl (record t {
        sched = some (add_slot fl s).1;
        counters = set t.counters (length t.tasks) 0;
        tasks = set (t.tasks ++ none ∷ []) (length t.tasks) (some (record { rsp = rsp }));
      })
  grown-IsSound rsp t s e v =
      let id = length t.tasks in
      let task : Task = record { rsp = rsp } in
      let longer : List (Option Task) = t.tasks ++ none ∷ [] in
      stored-IsSound t v id task (set longer id (some task)) (some (add_slot fl s).1)
        (λ j.
          held-put longer id j task (omega (arith, length-append t.tasks (none ∷ [])))
          ∙ ap (λ h. if id == j then some task else h) (held-push t.tasks j))
        (λ j ne.
          alive-add fl s j (ap (λ n. n == j) (sym (v.sized s e)) ∙ ne)
          ∙ sym (ap (λ o. slot_alive fl o j) e))
        (nothing_past t.tasks) (set t.counters id 0)
        (λ s' q.
          same_size (add_slot fl s).1 s' (length (set longer id (some task)))
            (length-set longer id (some task)
              ∙ omega (arith, length-append t.tasks (none ∷ []), length-add_slot s, v.sized s e))
            q)

  -- spawn() leads from a sound state to a sound state.
  pub spawn-IsSound : (rsp : ℕ) (t : Tasks fl) → IsSound fl t → IsSound fl (spawn fl rsp t).1
  unfolding spawn
  spawn-IsSound rsp t v = elim (Option-cases t.sched) [
    | inl e ↦ rw (e, spawn) v
    | inr (s, e) ↦ elim (Option-cases (position is_none t.tasks)) [
      | inr (id, found) ↦ rw (e, found, spawn) (reused-IsSound rsp id t s e found v)
      | inl full ↦ elim (Bool-cases (leb max_tasks (length t.tasks))) [
        | inl cap ↦ rw (e, full, cap, spawn) v
        | inr room ↦ rw (e, full, room, spawn) (grown-IsSound rsp t s e v)
      ]
    ]
  ]

  -- The states that ticks, spawns and kills lead to, in any order.
  pub data Reaches (t : Tasks fl) : Tasks fl → Type 0 where
    start : Reaches t t
    ticked : {u : Tasks fl} → Reaches t u → Reaches t (tick fl u).1
    spawned : {u : Tasks fl} → Reaches t u → (rsp : ℕ) → Reaches t (spawn fl rsp u).1
    killed : {u : Tasks fl} → Reaches t u → (id : ℕ) → Reaches t (kill fl id u).1

  Reaches-IsSound : {t u : Tasks fl} → IsSound fl t → Reaches t u → IsSound fl u
  Reaches-IsSound v start = v
  Reaches-IsSound v (ticked r) = (tick-IsSound fl _ (Reaches-IsSound v r)).0
  Reaches-IsSound v (spawned r rsp) = spawn-IsSound rsp _ (Reaches-IsSound v r)
  Reaches-IsSound v (killed r id) = kill-IsSound fl id _ (Reaches-IsSound v r)

  -- However ticks of the timer, spawns and kills follow one another from a sound state, of a task that
  -- runs or of another, every living slot and the context that runs keep their stacks, and the next
  -- tick finds the stack of the context that it leaves and of the one that it enters.
  pub no_panic :
      (t u : Tasks fl) → IsSound fl t → Reaches t u → IsSound fl u × ((tick fl u).0 ≢ panics)
  no_panic t u v r = let sound = Reaches-IsSound v r in (sound, (tick-IsSound fl u sound).1)
