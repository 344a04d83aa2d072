-- ===== src/Pipe/Fifo.antt =====
-- kernel/src/process.rs, pipe_read() and pipe_write() on one pipe, any number of times in any order.
use spikeling_os.Base.{
  ℕ, ◌≡◌, ap, ap₂, sym, ◌∙◌, List, [], ◌∷◌, ◌++◌, append-nil, append_assoc, take, drop,
  take-append-drop, take-min, length, ◌-◌,
}
use spikeling_os.Pipe.{Pipe, pipe_capacity, read_pipe, write_pipe}
use spikeling_os.Pipe.Inv.{IsValid, read_pipe-IsValid, write_pipe-IsValid}
use spikeling_os.Pipe.Queue.{contents, read_pipe_refines, write_pipe_refines}

pub data Transfer : Type 0 where
  get : ℕ → Transfer
  put : List ℕ → Transfer

-- What a run of reads and writes answers: the bytes read, the bytes that the writes said they took,
-- and the pipe.
pub record Transcript : Type 0 where
  pub received : List ℕ
  pub accepted : List ℕ
  pub after : Pipe

unfoldable pub transfer : List Transfer → Pipe → Transcript
transfer [] p = record { received = []; accepted = []; after = p }
transfer (get len ∷ rest) p =
    let (out, p1) = read_pipe p len in
    let t = transfer rest p1 in record t { received = out ++ t.received }
transfer (put bytes ∷ rest) p =
    let (n, p1) = write_pipe p bytes in
    let t = transfer rest p1 in record t { accepted = take n bytes ++ t.accepted }

-- Whatever reads and writes a pipe sees, in whatever order and of whatever lengths, the bytes that
-- come out followed by those left in it are the bytes it held followed by those that the writes
-- reported as taken: none is lost, repeated or reordered; and the pipe stays well formed.
pub transfer-fifo :
    (steps : List Transfer) (p : Pipe)
    → IsValid p
    → ((transfer steps p).received ++ contents (transfer steps p).after
        ≡ contents p ++ (transfer steps p).accepted)
      × IsValid (transfer steps p).after
unfolding transfer
transfer-fifo [] p v = (sym (append-nil (contents p)), v)
transfer-fifo (get len ∷ rest) p v =
    let (e, w) = transfer-fifo rest (read_pipe p len).1 (read_pipe-IsValid len v) in
    let (front, back) = read_pipe_refines {p = p} len v in
    let t = transfer rest (read_pipe p len).1 in
    (
      append_assoc (read_pipe p len).0 t.received (contents t.after)
          ∙ ap (λ r. (read_pipe p len).0 ++ r) e
          ∙ ap₂ (λ a b. a ++ (b ++ t.accepted)) front back
          ∙ sym (append_assoc (take len (contents p)) (drop len (contents p)) t.accepted)
          ∙ ap (λ r. r ++ t.accepted) (take-append-drop len (contents p)),
      w,
    )
transfer-fifo (put bytes ∷ rest) p v =
    let (e, w) = transfer-fifo rest (write_pipe p bytes).1 (write_pipe-IsValid bytes v) in
    let (count, whole) = write_pipe_refines {p = p} bytes v in
    let t = transfer rest (write_pipe p bytes).1 in
    let room = pipe_capacity - length (contents p) in
    (
      e
          ∙ ap (λ r. r ++ t.accepted) whole
          ∙ append_assoc (contents p) (take room bytes) t.accepted
          ∙ ap (λ r. contents p ++ (r ++ t.accepted))
              (sym (ap (λ k. take k bytes) count ∙ take-min room bytes)),
      w,
    )
