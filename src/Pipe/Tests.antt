-- ===== src/Pipe/Tests.antt =====
-- Concrete runs of a pipe.
use spikeling_os.Base.{ℕ, ◌-◌, ◌≡◌, refl, List, [], ◌∷◌, ◌++◌, length, take, drop, min}
use spikeling_os.Pipe.{pipe_capacity, new_pipe, read_pipe, write_pipe, copy_in, copy_out}
use spikeling_os.Pipe.Inv.{IsValid, new_pipe-IsValid}
use spikeling_os.Pipe.Queue.{contents, pipe_refines}
use spikeling_os.Pipe.Fifo.{Transfer, get, put, transfer, transfer-fifo}

-- Three bytes in, two out, two in, and all out.
abbrev script : List Transfer
script = put (1 ∷ 2 ∷ 3 ∷ []) ∷ get 2 ∷ put (4 ∷ 5 ∷ []) ∷ get 9 ∷ []

script_received : (transfer script new_pipe).received ≡ 1 ∷ 2 ∷ 3 ∷ 4 ∷ 5 ∷ []
unfolding transfer read_pipe write_pipe new_pipe copy_in copy_out
script_received = refl

transfer-fifo_example :
    ((transfer script new_pipe).received ++ contents (transfer script new_pipe).after
      ≡ contents new_pipe ++ (transfer script new_pipe).accepted)
    × IsValid (transfer script new_pipe).after
transfer-fifo_example = transfer-fifo script new_pipe new_pipe-IsValid

abbrev two : List ℕ
two = 7 ∷ 8 ∷ []

pipe_refines_example :
    ((read_pipe new_pipe 2).0 ≡ take 2 (contents new_pipe))
    × (contents (read_pipe new_pipe 2).1 ≡ drop 2 (contents new_pipe))
    × ((write_pipe new_pipe two).0 ≡ min (length two) (pipe_capacity - length (contents new_pipe)))
    × (contents (write_pipe new_pipe two).1
        ≡ contents new_pipe ++ take (pipe_capacity - length (contents new_pipe)) two)
pipe_refines_example = pipe_refines {p = new_pipe} 2 two new_pipe-IsValid
