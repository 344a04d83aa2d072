-- ===== src/Pipe/Queue.antt =====
-- A pipe behaves as a queue of at most 512 bytes, oldest first.
use spikeling_os.Base.{
  ℕ, zero, suc, ◌+◌, ◌-◌, ◌%◌, ◌≤◌, ◌<◌, min, ◌≡◌, refl, sym, ap, ap₂, ◌∙◌, List, [], ◌∷◌, ◌++◌,
  append-nil, append_assoc, arith, length, get_or, set, take, drop, length-set, length-take,
  get_or-set_self, get_or-set_ne, take-min, dec_le,
}
use spikeling_os.Pipe.{Pipe, pipe_capacity, copy_in, copy_out, read_pipe, write_pipe}
use spikeling_os.Pipe.Inv.{IsValid}

-- The unread bytes, oldest first.
pub contents : Pipe → List ℕ
contents p = copy_out p.buffer p.read_pos 0 p.len

pub length-copy_out : (b : List ℕ) (r i n : ℕ) → length (copy_out b r i n) ≡ n
unfolding copy_out
length-copy_out b r i zero = refl
length-copy_out b r i (suc n) = ap suc (length-copy_out b r (i + 1) n)

pub length-contents : (p : Pipe) → length (contents p) ≡ p.len
unfolding contents
length-contents p = length-copy_out p.buffer p.read_pos 0 p.len

copy_out_empty : (b : List ℕ) (r i : ℕ) {n : ℕ} → n ≡ 0 → copy_out b r i n ≡ []
unfolding copy_out
copy_out_empty b r i e = rw e refl

take-copy_out : (b : List ℕ) (r i n k : ℕ) → take k (copy_out b r i n) ≡ copy_out b r i (min k n)
unfolding copy_out
take-copy_out b r i n zero = sym (copy_out_empty b r i (omega arith))
take-copy_out b r i zero (suc k) = sym (copy_out_empty b r i (omega arith))
take-copy_out b r i (suc n) (suc k) =
    ap (λ t. get_or b ((r + i) % pipe_capacity) 0 ∷ t) (take-copy_out b r (i + 1) n k)
    ∙ ap (copy_out b r i) {x = suc (min k n)} (omega arith)

drop-copy_out :
    (b : List ℕ) (r i n k : ℕ) → drop k (copy_out b r i n) ≡ copy_out b r (i + k) (n - k)
unfolding copy_out
drop-copy_out b r i n zero = ap₂ (copy_out b r) (omega arith) (omega arith)
drop-copy_out b r i zero (suc k) = sym (copy_out_empty b r (i + suc k) (omega arith))
drop-copy_out b r i (suc n) (suc k) =
    drop-copy_out b r (i + 1) n k ∙ ap₂ (copy_out b r) (omega arith) (omega arith)

-- Moving the start along the ring.
copy_out-shift :
    (b : List ℕ) (r k i n : ℕ) → copy_out b ((r + k) % pipe_capacity) i n ≡ copy_out b r (k + i) n
unfolding copy_out
copy_out-shift b r k i zero = refl
copy_out-shift b r k i (suc n) =
    ap₂ ◌∷◌ (ap (λ j. get_or b j 0) (omega arith))
      (copy_out-shift b r k (i + 1) n ∙ ap (λ j. copy_out b r j n) (omega arith))

-- Writing just past a window extends it by that byte.
copy_out-set :
    (b : List ℕ) (r i n x : ℕ)
    → length b ≡ pipe_capacity
    → n < pipe_capacity
    → copy_out (set b ((r + i + n) % pipe_capacity) x) r i (suc n) ≡ copy_out b r i n ++ x ∷ []
unfolding copy_out
copy_out-set b r i zero x s h =
    ap (λ t. t ∷ [])
      (ap (λ j. get_or (set b j x) ((r + i) % pipe_capacity) 0) (omega arith)
        ∙ get_or-set_self b ((r + i) % pipe_capacity) x 0 (omega arith))
copy_out-set b r i (suc n) x s h =
    ap₂ ◌∷◌
      (get_or-set_ne b {i = (r + i + suc n) % pipe_capacity} {j = (r + i) % pipe_capacity} x 0
        (omega arith))
      (ap (λ j. copy_out (set b j x) r (i + 1) (suc n)) (omega arith)
        ∙ copy_out-set b r (i + 1) n x s (omega arith))

-- The whole copy appends its bytes to the window in front of it.
copy_out-copy_in :
    (xs b : List ℕ) (r w l i : ℕ)
    → length b ≡ pipe_capacity
    → l + length xs ≤ pipe_capacity
    → (w + i) % pipe_capacity ≡ (r + l) % pipe_capacity
    → copy_out (copy_in b w i xs) r 0 (l + length xs) ≡ copy_out b r 0 l ++ xs
unfolding copy_in
copy_out-copy_in [] b r w l i s h e =
    ap (copy_out b r 0) (omega arith) ∙ sym (append-nil (copy_out b r 0 l))
copy_out-copy_in (x ∷ xs) b r w l i s h e =
    ap (copy_out (copy_in next w (i + 1) xs) r 0) (omega arith)
    ∙ copy_out-copy_in xs next r w (suc l) (i + 1) (length-set b ((w + i) % pipe_capacity) x ∙ s)
        (omega arith) (omega arith)
    ∙ ap (λ t. t ++ xs) (grown ∙ copy_out-set b r 0 l x s (omega arith))
    ∙ append_assoc (copy_out b r 0 l) (x ∷ []) xs
  where
    next : List ℕ
    next = set b ((w + i) % pipe_capacity) x

    grown : copy_out next r 0 (suc l) ≡ copy_out (set b ((r + 0 + l) % pipe_capacity) x) r 0 (suc l)
    grown = ap (λ j. copy_out (set b j x) r 0 (suc l)) (omega arith)

pub read_pipe_refines :
    {p : Pipe} (len : ℕ)
    → IsValid p
    → ((read_pipe p len).0 ≡ take len (contents p))
      × (contents (read_pipe p len).1 ≡ drop len (contents p))
unfolding read_pipe contents
read_pipe_refines {p} len v = (
  sym (take-copy_out p.buffer p.read_pos 0 p.len len),
  copy_out-shift p.buffer p.read_pos (min len p.len) 0 (p.len - min len p.len)
      ∙ past len p.len
      ∙ sym (drop-copy_out p.buffer p.read_pos 0 p.len len),
)
  where
    past :
        (k l : ℕ)
        → copy_out p.buffer p.read_pos (min k l + 0) (l - min k l)
          ≡ copy_out p.buffer p.read_pos (0 + k) (l - k)
    past k l = elim (dec_le k l) [
      | yes h ↦ ap₂ (copy_out p.buffer p.read_pos) (omega arith) (omega arith)
      | no h ↦
          copy_out_empty p.buffer p.read_pos (min k l + 0) (omega arith)
          ∙ sym (copy_out_empty p.buffer p.read_pos (0 + k) (omega arith))
    ]

pub write_pipe_refines :
    {p : Pipe} (bytes : List ℕ)
    → IsValid p
    → ((write_pipe p bytes).0 ≡ min (length bytes) (pipe_capacity - length (contents p)))
      × (contents (write_pipe p bytes).1
          ≡ contents p ++ take (pipe_capacity - length (contents p)) bytes)
unfolding write_pipe contents
write_pipe_refines {p} bytes v = (
  omega (arith, length-contents p),
  ap (copy_out (copy_in p.buffer p.write_pos 0 taken) p.read_pos 0)
        (omega (arith, length-take n bytes))
      ∙ copy_out-copy_in taken p.buffer p.read_pos p.write_pos p.len 0 v.sized
          (omega (arith, length-take n bytes)) (omega arith)
      ∙ ap (λ t. contents p ++ t) (take-min room bytes ∙ ap (λ k. take k bytes) same),
)
  where
    room : ℕ
    room = pipe_capacity - p.len

    n : ℕ
    n = min (length bytes) room

    taken : List ℕ
    taken = take n bytes

    same : room ≡ pipe_capacity - length (contents p)
    same = omega (arith, length-contents p)

-- On a pipe whose positions and length are within the ring buffer, read_pipe() and write_pipe() are the
-- operations of a queue of at most 512 bytes: a read hands out the oldest bytes, as many as asked for
-- and present, and leaves the others; a write appends as many bytes as there is room for, in order, and
-- reports how many.
pub pipe_refines :
    {p : Pipe} (len : ℕ) (bytes : List ℕ)
    → IsValid p
    → ((read_pipe p len).0 ≡ take len (contents p))
      × (contents (read_pipe p len).1 ≡ drop len (contents p))
      × ((write_pipe p bytes).0 ≡ min (length bytes) (pipe_capacity - length (contents p)))
      × (contents (write_pipe p bytes).1
          ≡ contents p ++ take (pipe_capacity - length (contents p)) bytes)
pipe_refines len bytes v =
    let (out, left) = read_pipe_refines len v in
    let (taken, grown) = write_pipe_refines bytes v in (out, left, taken, grown)
