-- ===== src/Tasks/Lifecycle.antt =====
-- kernel/src/tasks.rs, spawn() and kill(): they keep what a tick relies on.
use spikeling_os.Base.{
  ℕ, ◌≡◌, ◌==◌, refl, ap, sym, ◌∙◌, [], ◌∷◌, ◌++◌, Bool, true, false, none, some, arith, length,
  set, length-set, held, is_some, Bool-cases, Option-cases, inl, inr,
}
use spikeling_os.Scheduler.{Floats, Scheduler, is_alive, kill_slot}
use spikeling_os.Scheduler.Choice.{length-update}
use spikeling_os.Tasks.{Tasks, is_current, slot_alive, kill}
use spikeling_os.Tasks.Stacks.{member, member-append, held-clear, alive-kill}
use spikeling_os.Tasks.Safety.{IsSound}

-- Numbers that a test tells apart are different.
pub distinct : (test : ℕ → Bool) (a b : ℕ) → test a ≡ true → test b ≡ false → (a == b) ≡ false
distinct test a b h g = elim (Bool-cases (a == b)) [
  | inl e ↦
      let same : a ≡ b = ground arith in
      absurd (let clash : true ≡ false = sym h ∙ ap test same ∙ g in cc)
  | inr e ↦ e
]

module _ (fl : Floats) where
  length-kill : (id : ℕ) (s : Scheduler fl) → length (kill_slot fl id s).slots ≡ length s.slots
  unfolding kill_slot
  length-kill id s = length-update s.slots id _

  sized_kill :
      (id n : ℕ) (s s' : Scheduler fl)
      → some (kill_slot fl id s) ≡ some s'
      → n ≡ length s.slots
      → n ≡ length s'.slots
  sized_kill id n s s' q e =
      let same : kill_slot fl id s ≡ s' = cc in
      e ∙ sym (length-kill id s) ∙ ap (λ x. length x.slots) same

  -- What lives after a slot is killed is another slot, and lived before.
  survives :
      (id : ℕ) (t : Tasks fl) (s : Scheduler fl) (i : ℕ)
      → t.sched ≡ some s
      → is_alive fl (kill_slot fl id s).slots i ≡ true
      → ((id == i) ≡ false) × (slot_alive fl t.sched i ≡ true)
  survives id t s i e a = elim (Bool-cases (id == i)) [
    | inl here ↦
        absurd (let clash : false ≡ true = sym (alive-kill fl id s i ∙ rw here refl) ∙ a in cc)
    | inr other ↦
        (other, ap (λ o. slot_alive fl o i) e ∙ sym (alive-kill fl id s i ∙ rw other refl) ∙ a)
  ]

  still_dead :
      (id : ℕ) (t : Tasks fl) (s : Scheduler fl) (z : ℕ)
      → t.sched ≡ some s
      → slot_alive fl t.sched z ≡ false
      → is_alive fl (kill_slot fl id s).slots z ≡ false
  still_dead id t s z e d = elim (Bool-cases (id == z)) [
    | inl here ↦ alive-kill fl id s z ∙ rw here refl
    | inr other ↦ alive-kill fl id s z ∙ rw other (sym (ap (λ o. slot_alive fl o z) e) ∙ d)
  ]

  -- A slot that is killed: its task is queued if it runs, and freed if not.
  killed-IsSound :
      (id : ℕ) (t : Tasks fl) (s : Scheduler fl)
      → t.sched ≡ some s
      → is_alive fl s.slots id ≡ true
      → IsSound fl t
      → IsSound fl (record t { sched = some (kill_slot fl id s); zombies = t.zombies ++ id ∷ [] })
  killed-IsSound id t s e live v = record {
    sized = λ s' q. sized_kill id (length t.tasks) s s' q (v.sized s e);
    backed = λ i a. v.backed i ((survives id t s i e a).1);
    running = v.running;
    buried = λ z m. elim (Bool-cases (member z t.zombies)) [
      | inl old ↦ ((v.buried z old).0, still_dead id t s z e (v.buried z old).1)
      | inr new ↦
          let same : id ≡ z = member-append z t.zombies id m new in
          (
            ap (λ j. is_some (held t.tasks j)) (sym same)
                ∙ v.backed id (ap (λ o. slot_alive fl o id) e ∙ live),
            alive-kill fl id s z ∙ ground arith,
          )
    ];
  }

  freed-IsSound :
      (id : ℕ) (t : Tasks fl) (s : Scheduler fl)
      → t.sched ≡ some s
      → is_alive fl s.slots id ≡ true
      → is_current t.current id ≡ false
      → IsSound fl t
      → IsSound fl (record t { sched = some (kill_slot fl id s); tasks = set t.tasks id none })
  freed-IsSound id t s e live idle v = record {
    sized =
        λ s' q. length-set t.tasks id none ∙ sized_kill id (length t.tasks) s s' q (v.sized s e);
    backed =
        λ i a. let (other, before) = survives id t s i e a in untouched i other (v.backed i before);
    running = λ i c.
        untouched i (flip_ne i (distinct (is_current t.current) i id c idle)) (v.running i c);
    buried = λ z m.
        let (has, dead) = v.buried z m in
        (
          untouched z
              (distinct (slot_alive fl t.sched) id z (ap (λ o. slot_alive fl o id) e ∙ live) dead)
              has,
          still_dead id t s z e dead,
        );
  }
    where
      untouched :
          (j : ℕ)
          → (id == j) ≡ false
          → is_some (held t.tasks j) ≡ true
          → is_some (held (set t.tasks id none) j) ≡ true
      untouched j ne h = rw (held-clear t.tasks id j, ne) h

      flip_ne : (i : ℕ) → (i == id) ≡ false → (id == i) ≡ false
      flip_ne i h = ground arith

  -- kill() leads from a sound state to a sound state.
  pub kill-IsSound : (id : ℕ) (t : Tasks fl) → IsSound fl t → IsSound fl (kill fl id t).1
  unfolding kill
  kill-IsSound id t v = elim (Option-cases t.sched) [
    | inl e ↦ rw (e, kill) v
    | inr (s, e) ↦ elim (Bool-cases (is_alive fl s.slots id)) [
      | inr dead ↦ rw (e, dead, kill) v
      | inl live ↦ elim (Bool-cases (is_current t.current id)) [
        | inl c ↦ rw (e, live, c, kill) (killed-IsSound id t s e live v)
        | inr c ↦ rw (e, live, c, kill) (freed-IsSound id t s e live c v)
      ]
    ]
  ]
