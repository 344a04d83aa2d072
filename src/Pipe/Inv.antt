-- ===== src/Pipe/Inv.antt =====
-- The representation invariant of `struct Pipe`: the buffer has its fixed size, the positions lie
-- inside it, and the three numbers agree.
use spikeling_os.Base.{
  ℕ, ◌+◌, ◌-◌, ◌%◌, ◌≤◌, ◌<◌, min, ◌≡◌, refl, ◌∙◌, List, [], ◌∷◌, arith, length, set, take,
  length-set, length-replicate,
}
use spikeling_os.Pipe.{Pipe, pipe_capacity, new_pipe, copy_in, read_pipe, write_pipe}

pub record IsValid (p : Pipe) : Type 0 where
  pub sized : length p.buffer ≡ pipe_capacity
  pub read_in : p.read_pos < pipe_capacity
  pub len_in : p.len ≤ pipe_capacity
  pub agree : p.write_pos ≡ (p.read_pos + p.len) % pipe_capacity

pub new_pipe-IsValid : IsValid new_pipe
unfolding new_pipe
new_pipe-IsValid = record {
  sized = length-replicate {A = ℕ} pipe_capacity 0;
  read_in = omega arith;
  len_in = omega arith;
  agree = refl;
}

pub length-copy_in :
    (buffer : List ℕ) (w i : ℕ) (bytes : List ℕ) → length (copy_in buffer w i bytes) ≡ length buffer
unfolding copy_in
length-copy_in buffer w i [] = refl
length-copy_in buffer w i (x ∷ xs) =
    length-copy_in (set buffer ((w + i) % pipe_capacity) x) w (i + 1) xs
    ∙ length-set buffer ((w + i) % pipe_capacity) x

pub read_pipe-IsValid : {p : Pipe} (len : ℕ) → IsValid p → IsValid (read_pipe p len).1
unfolding read_pipe
read_pipe-IsValid len v = ground arith

pub write_pipe-IsValid : {p : Pipe} (bytes : List ℕ) → IsValid p → IsValid (write_pipe p bytes).1
unfolding write_pipe
write_pipe-IsValid {p} bytes v = record {
  sized =
      length-copy_in p.buffer p.write_pos 0
        (take (min (length bytes) (pipe_capacity - p.len)) bytes)
      ∙ v.sized;
  read_in = v.read_in;
  len_in = omega arith;
  agree = omega arith;
}
