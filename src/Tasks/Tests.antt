-- ===== src/Tasks/Tests.antt =====
-- The three tasks of kernel/src/tasks.rs, with hundredths in the place of f32.
use spikeling_os.Base.{
  ℕ, zero, suc, ◌+◌, ◌-◌, ◌*◌, ◌/◌, leb, ltb, ◌≡◌, ◌≢◌, refl, ap, sym, [], ◌∷◌, Option, some, true,
  false, length, arith, held, is_some,
}
use spikeling_os.Scheduler.{Floats, new_scheduler}
use spikeling_os.Tasks.{Task, Tasks, slot_alive, tick, spawn, kill, panics}
use spikeling_os.Tasks.Safety.{IsSound}
use spikeling_os.Tasks.Spawn.{Reaches, start, ticked, spawned, killed, no_panic}

abbrev hundredths : Floats
hundredths = record {
  Carrier = ℕ;
  nought = 0;
  unit = 100;
  bias = 15;
  threshold = 100;
  scale = 5;
  add = λ a b. a + b;
  sub = λ a b. a - b;
  mul = λ a b. a * b / 100;
  ge = λ a b. leb b a;
  gt = λ a b. ltb b a;
}

abbrev stack : ℕ → Option Task
stack rsp = some (record { rsp = rsp })

-- The state in which run_preemption_demo() enters the first task.
abbrev demo : Tasks hundredths
demo = record {
  tasks = stack 1000 ∷ stack 2000 ∷ stack 3000 ∷ [];
  zombies = [];
  current = some 0;
  sched = some (new_scheduler hundredths 3 60);
  counters = 0 ∷ 0 ∷ 0 ∷ 0 ∷ 0 ∷ 0 ∷ 0 ∷ 0 ∷ [];
  total_switches = 0;
  demo_active = true;
  background = false;
}

demo-IsSound : IsSound hundredths demo
unfolding new_scheduler
demo-IsSound = record {
  sized = λ s e. let same : new_scheduler hundredths 3 60 ≡ s = cc in ap (λ x. length x.slots) same;
  backed = λ i a.
      elim i
          as (λ i. slot_alive hundredths demo.sched i ≡ true → is_some (held demo.tasks i) ≡ true) [
            | zero ↦ λ _. refl
            | suc zero ↦ λ _. refl
            | suc (suc zero) ↦ λ _. refl
            | suc (suc (suc n)) ↦ λ h. absurd cc
          ]
        a;
  running =
      λ i c. let same : 0 ≡ i = ground arith in sym (ap (λ j. is_some (held demo.tasks j)) same);
  buried = λ z m. absurd cc;
}

-- The running task is killed, two ticks pass, and a task is spawned.
abbrev later : Tasks hundredths
later = (spawn hundredths 4000 (tick hundredths (tick hundredths (kill hundredths 0 demo).1).1).1).1

later-Reaches : Reaches hundredths demo later
later-Reaches = spawned (ticked (ticked (killed start 0))) 4000

no_panic_example : IsSound hundredths later × ((tick hundredths later).0 ≢ panics)
no_panic_example = no_panic hundredths demo later demo-IsSound later-Reaches
