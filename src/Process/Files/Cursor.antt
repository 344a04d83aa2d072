-- ===== src/Process/Files/Cursor.antt =====
-- kernel/src/process.rs, the file branches of read_fd() and write_fd(): the cursor and the buffer.
use spikeling_os.Base.{
  ℕ, ◌+◌, ◌-◌, ◌≤◌, ◌≡◌, max, refl, ap, ◌∙◌, List, ◌++◌, arith, min, length, get_or, take, drop,
  replicate, ltb, leb, ◌&&◌, if◌then◌else◌, length-append, length-take, length-drop,
  length-replicate, drop-drop,
}
use spikeling_os.Base.Bytes.{
  get_or-past, get_or-append, get_or-take, get_or-drop, get_or-replicate, take-sum,
}
use spikeling_os.Fs.Ops.{max_file_bytes}
use spikeling_os.Process.{OpenFile}
use spikeling_os.Process.Fds.{read_open_file, write_open_file, grow, splice}

-- Reading a file in two pieces gives the bytes, and leaves the cursor, of reading it in one.
pub read_open_file-split :
    (f : OpenFile) (a b : ℕ)
    → ((read_open_file f (a + b)).0
        ≡ (read_open_file f a).0 ++ (read_open_file (read_open_file f a).1 b).0)
      × ((read_open_file f (a + b)).1 ≡ (read_open_file (read_open_file f a).1 b).1)
unfolding read_open_file
read_open_file-split f a b =
    let size = length f.buffer in
    let start = min f.pos size in
    let middle = min (start + a) size in
    let end = min (min middle size + b) size in
    (
      ap (λ n. take n (drop start f.buffer)) {y = (middle - start) + (end - min middle size)}
            (omega arith)
          ∙ take-sum (middle - start) (end - min middle size) (drop start f.buffer)
          ∙ ap (λ r. take (middle - start) (drop start f.buffer) ++ take (end - min middle size) r)
              (drop-drop start (middle - start) f.buffer ∙ ap (λ n. drop n f.buffer) (omega arith)),
      ap (λ n. record f { pos = n }) (omega arith),
    )

-- Growing a buffer appends zeros, which is what stands past its end.
get_or-grow : (buffer : List ℕ) (n i : ℕ) → get_or (grow buffer n) i 0 ≡ get_or buffer i 0
get_or-grow buffer n i = ground (
  arith,
  get_or-append buffer (replicate (n - length buffer) 0) i,
  get_or-replicate (n - length buffer) (i - length buffer),
  get_or-past buffer i,
)

length-grow : (buffer : List ℕ) (n : ℕ) → length (grow buffer n) ≡ max (length buffer) n
length-grow buffer n = ground (
  arith,
  length-append buffer (replicate (n - length buffer) 0),
  length-replicate {A = ℕ} (n - length buffer) 0,
)

length-splice :
    (g : List ℕ) (start : ℕ) (xs : List ℕ)
    → start + length xs ≤ length g
    → length (splice g start xs) ≡ length g
length-splice g start xs h = omega (
  arith,
  length-append (take start g) (xs ++ drop (start + length xs) g),
  length-append xs (drop (start + length xs) g),
  length-take start g,
  length-drop (start + length xs) g,
)

get_or-splice :
    (g : List ℕ) (start : ℕ) (xs : List ℕ) (i : ℕ)
    → start + length xs ≤ length g
    → get_or (splice g start xs) i 0
      ≡ (if leb start i && ltb i (start + length xs) then get_or xs (i - start) 0 else get_or g i 0)
get_or-splice g start xs i h =
    let back = drop (start + length xs) g in
    ground (
      arith,
      get_or-append (take start g) (xs ++ back) i,
      get_or-append xs back (i - start),
      get_or-take g start i,
      length-take start g,
      get_or-drop g (start + length xs) (i - start - length xs),
      ap (λ j. get_or g j 0) {x = start + length xs + (i - start - length xs)} {y = i},
    )

-- A write to an open file puts the bytes that it reports as taken at the cursor and leaves every
-- other byte, a gap before them being filled with zeros; it moves the cursor past what it took; and
-- the buffer is then as long as before, or ends where the cursor is.
pub write_open_file-bytes :
    (f : OpenFile) (bytes : List ℕ) (i : ℕ)
    → (get_or (write_open_file f bytes).1.buffer i 0 ≡ (
        if leb f.pos i && ltb i (f.pos + (write_open_file f bytes).0)
        then get_or bytes (i - f.pos) 0
        else get_or f.buffer i 0))
      × ((write_open_file f bytes).1.pos ≡ f.pos + (write_open_file f bytes).0)
      × (length (write_open_file f bytes).1.buffer
          ≡ max (length f.buffer) (f.pos + (write_open_file f bytes).0))
unfolding write_open_file
write_open_file-bytes f bytes i = (
  ground (
    arith,
    get_or-splice whole f.pos (take n bytes) i fits,
    get_or-take bytes n (i - f.pos),
    get_or-grow f.buffer (f.pos + n) i,
    length-take n bytes,
  ),
  refl,
  omega (arith, length-splice whole f.pos (take n bytes) fits, length-grow f.buffer (f.pos + n)),
)
  where
    n : ℕ
    n = min (length bytes) (max_file_bytes - f.pos)

    whole : List ℕ
    whole = grow f.buffer (f.pos + n)

    fits : f.pos + length (take n bytes) ≤ length whole
    fits = omega (arith, length-take n bytes, length-grow f.buffer (f.pos + n))
