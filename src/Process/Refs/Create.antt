-- ===== src/Process/Refs/Create.antt =====
-- pipe_create() of kernel/src/process.rs: the slot it takes is free, so no descriptor names it, and
-- the two descriptors it fills are the two ends that a new pipe counts.
use spikeling_os.Base.{
  is_none, is_some, ℕ, ◌+◌, ◌≤◌, ◌≡◌, ◌≢◌, refl, ap, ◌∙◌, none, some, false, arith, length-set,
  Option-cases, inl, inr, position, position-some, get_elem?, get_elem?-lt, set, length, ◌<◌,
  Bool-cases, inl, inr,
}
use spikeling_os.Pipe.{new_pipe}
use spikeling_os.Process.{pipe_read, pipe_write, Process, Kernel, find_process, put_process}
use spikeling_os.Process.Fds.{put_pipe}
use spikeling_os.Process.Ends.{free_slots, two_slots, install_pipe, pipe_create, connect}
use spikeling_os.Process.Refs.Totals.{
  End, reading, writing, names, kernel_total, fd_total-set-le, names_ne_read, names_ne_write,
  names-le_one,
}
use spikeling_os.Process.Refs.Places.{kernel_total-put, put_process-pipe_table}
use spikeling_os.Process.Refs.Covers.{
  opens, opens_of, Covers, no_extra, IsCovered, Spends, put_process-Covers, put_pipe-Covers,
  Covers-mono,
}

-- Both ends of pipe `i`.
abbrev pub both_ends : ℕ → End → ℕ → ℕ
both_ends i end idx = names end idx (pipe_read i) + names end idx (pipe_write i)

-- A slot that position() finds is in the table and holds nothing.
free_slot :
    (k : Kernel) (i : ℕ)
    → position is_none k.pipe_table ≡ some i
    → (get_elem? k.pipe_table i ≡ some none)
free_slot k i h =
    let (o, at, free) = position-some is_none k.pipe_table i h in
    elim (Option-cases o) [ inl e ↦ at ∙ ap some e | inr (p, e) ↦ absurd (ground arith) ]

free_slot-opens :
    (k : Kernel) (i : ℕ) (end : End) → get_elem? k.pipe_table i ≡ some none → opens end k i ≡ 0
free_slot-opens k i end h = ground arith

new_pipe-Covers :
    (k : Kernel) (i : ℕ)
    → get_elem? k.pipe_table i ≡ some none
    → IsCovered k
    → Covers (both_ends i) (put_pipe k i (some new_pipe))
unfolding new_pipe
new_pipe-Covers k i free c =
    put_pipe-Covers no_extra (both_ends i) k i (some new_pipe) (get_elem?-lt k.pipe_table i free)
      here there c
  where
    here : (end : End) → kernel_total end i k + both_ends i end i ≤ opens_of end (some new_pipe)
    here reading = omega (
      arith,
      c.covered reading i,
      free_slot-opens k i reading free,
      names-le_one reading i (pipe_read i),
    )
    here writing = omega (
      arith,
      c.covered writing i,
      free_slot-opens k i writing free,
      names-le_one writing i (pipe_write i),
    )

    there : (end : End) (idx : ℕ) → idx ≢ i → both_ends i end idx ≤ no_extra end idx
    there end idx ne = omega (arith, names_ne_read end idx i ne, names_ne_write end idx i ne)

install_pipe-Spends : (i : ℕ) (p : Process) → Spends (both_ends i) p (install_pipe i p).1
unfolding install_pipe
install_pipe-Spends i p = elim (Option-cases (two_slots (free_slots 0 p.fds))) [
  | inl q ↦ rw (q, install_pipe) (refl, λ end idx. omega arith)
  | inr ((r, w), q) ↦
      rw (q, install_pipe)
        (
          length-set (set p.fds r (some (pipe_read i))) w (some (pipe_write i))
              ∙ length-set p.fds r (some (pipe_read i)),
          λ end idx. omega (
            arith,
            fd_total-set-le end idx p.fds r (pipe_read i),
            fd_total-set-le end idx (set p.fds r (some (pipe_read i))) w (pipe_write i),
          ),
        )
]

-- With no two free descriptors the process stays as it was.
install_pipe-none :
    (i : ℕ) (p : Process) → is_some (install_pipe i p).0 ≡ false → (install_pipe i p).1 ≡ p
unfolding install_pipe
install_pipe-none i p h = elim (Option-cases (two_slots (free_slots 0 p.fds))) [
  | inl q ↦ rw (q, install_pipe) refl
  | inr (rw_ends, q) ↦ absurd (ground arith)
]

rollback-Covers :
    (id i : ℕ) (p : Process) (k : Kernel)
    → get_elem? k.pipe_table i ≡ some none
    → find_process id (put_pipe k i (some new_pipe)) ≡ some p
    → IsCovered k
    → IsCovered (put_pipe (put_process id p (put_pipe k i (some new_pipe))) i none)
rollback-Covers id i p k free h c =
    put_pipe-Covers no_extra no_extra (put_process id p k1) i none in_table
      (λ end.
        omega
          (arith, kernel_total-put end i id p k1 h, c.covered end i, free_slot-opens k i end free))
      (λ end idx ne. omega arith)
      (put_process-Covers (both_ends i) id p p k1 h (refl, λ end idx. omega arith)
        (new_pipe-Covers k i free c))
  where
    k1 : Kernel
    k1 = put_pipe k i (some new_pipe)

    in_table : i < length (put_process id p k1).pipe_table
    in_table = omega (
      arith,
      get_elem?-lt k.pipe_table i free,
      length-set k.pipe_table i (some new_pipe),
      ap length (put_process-pipe_table id p k1),
    )

connect-Covers :
    (id i : ℕ) (p : Process) (k : Kernel)
    → get_elem? k.pipe_table i ≡ some none
    → find_process id (put_pipe k i (some new_pipe)) ≡ some p
    → IsCovered k
    → IsCovered (connect id i p (put_pipe k i (some new_pipe))).1
unfolding connect
connect-Covers id i p k free h c = elim (Bool-cases (is_some (install_pipe i p).0)) [
  | inl q ↦
      rw (connect, q)
        (put_process-Covers (both_ends i) id p (install_pipe i p).1 k1 h (install_pipe-Spends i p)
          (new_pipe-Covers k i free c))
  | inr q ↦ rw (connect, q, install_pipe-none i p q) (rollback-Covers id i p k free h c)
]
  where
    k1 : Kernel
    k1 = put_pipe k i (some new_pipe)

pub pipe_create-IsCovered : (id : ℕ) (k : Kernel) → IsCovered k → IsCovered (pipe_create id k).1
unfolding pipe_create
pipe_create-IsCovered id k c = elim (Option-cases (position is_none k.pipe_table)) [
  | inl q ↦ rw (q, pipe_create) c
  | inr (i, q) ↦
      let k1 = put_pipe k i (some new_pipe) in
      elim (Option-cases (find_process id k1)) [
        | inl d ↦
            rw (q, d, pipe_create)
              (Covers-mono (both_ends i) no_extra k1 (λ end idx. omega arith)
                (new_pipe-Covers k i (free_slot k i q) c))
        | inr (p, d) ↦ rw (q, d, pipe_create) (connect-Covers id i p k (free_slot k i q) d c)
      ]
]
