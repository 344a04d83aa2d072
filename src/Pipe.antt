-- ===== src/Pipe.antt =====
-- kernel/src/process.rs, `struct Pipe` and the bodies of pipe_read() and pipe_write() once the
-- fd has been resolved: a ring buffer of 512 bytes with counts of its open ends.
-- Bytes are natural numbers; a store at an index outside the buffer would change nothing, and
-- `Pipe.Inv` shows that there is none.
pub mod Inv
pub mod Queue
pub mod Fifo
mod Tests
use spikeling_os.Base.{
  ℕ, zero, suc, ◌+◌, ◌-◌, ◌%◌, min, List, [], ◌∷◌, Option, none, some, length, get_or, set, take,
  replicate,
}

abbrev pub pipe_capacity : ℕ
pipe_capacity = 512

abbrev pub max_pipes : ℕ
max_pipes = 4

pub record Pipe : Type 0 where
  pub buffer : List ℕ
  pub read_pos : ℕ
  pub write_pos : ℕ
  pub len : ℕ
  pub read_open : ℕ
  pub write_open : ℕ

-- The value that pipe_create() stores.
unfoldable pub new_pipe : Pipe
new_pipe = record {
  buffer = replicate pipe_capacity 0;
  read_pos = 0;
  write_pos = 0;
  len = 0;
  read_open = 1;
  write_open = 1;
}

-- `for i in 0..n { out.push(buffer[(read_pos + i) % PIPE_CAPACITY]) }`, from `i` on with `n` to go.
unfoldable pub copy_out : List ℕ → ℕ → ℕ → ℕ → List ℕ
copy_out buffer read_pos i zero = []
copy_out buffer read_pos i (suc n) =
    get_or buffer ((read_pos + i) % pipe_capacity) 0 ∷ copy_out buffer read_pos (i + 1) n

-- `for (i, byte) in data[..n].iter().enumerate() { buffer[(write_pos + i) % PIPE_CAPACITY] = *byte }`
pub copy_in : List ℕ → ℕ → ℕ → List ℕ → List ℕ
copy_in buffer write_pos i [] = buffer
copy_in buffer write_pos i (byte ∷ rest) =
    copy_in (set buffer ((write_pos + i) % pipe_capacity) byte) write_pos (i + 1) rest

unfoldable pub read_pipe : Pipe → ℕ → List ℕ × Pipe
read_pipe pipe len =
    let n = min len pipe.len in
    (
      copy_out pipe.buffer pipe.read_pos 0 n,
      record pipe { read_pos = (pipe.read_pos + n) % pipe_capacity; len = pipe.len - n },
    )

unfoldable pub write_pipe : Pipe → List ℕ → ℕ × Pipe
write_pipe pipe bytes =
    let room = pipe_capacity - pipe.len in
    let n = min (length bytes) room in
    (
      n,
      record pipe {
        buffer = copy_in pipe.buffer pipe.write_pos 0 (take n bytes);
        write_pos = (pipe.write_pos + n) % pipe_capacity;
        len = pipe.len + n;
      },
    )
