-- ===== src/Memory/Frames.antt =====
-- kernel/src/memory.rs, usable_frames(): the frames ascend, so that none is handed out twice.
use spikeling_os.Base.{
  ℕ, zero, suc, ◌+◌, ◌*◌, ◌%◌, ◌≤◌, ◌<◌, ◌≡◌, ◌≢◌, ap, sym, ◌∙◌, List, [], ◌∷◌, ◌++◌, some,
  Bool-cases, inl, inr, arith, get_elem?,
}
use spikeling_os.Memory.{
  frame_size, Region, steps, containing, step_count, align_all, usable_frames, IsMapFrom, IsMap,
  BootInfoFrameAllocator, allocate_frame,
}

-- Every number of the list is at least `low`, and each is above those before it.
abbrev pub Ascends : ℕ → List ℕ → Type 0
Ascends low [] = Unit {0}
Ascends low (a ∷ rest) = (low ≤ a) × Ascends (a + 1) rest

Ascends-weaken : (low low' : ℕ) (xs : List ℕ) → low' ≤ low → Ascends low xs → Ascends low' xs
Ascends-weaken low low' [] h a = tt
Ascends-weaken low low' (x ∷ xs) h a = (omega arith, a.1)

-- Frames of one region, before those of the regions after it.
region-Ascends :
    (start n low high : ℕ) (rest : List ℕ)
    → start % frame_size ≡ 0
    → low ≤ start
    → start + n * frame_size < high + frame_size
    → low ≤ high
    → Ascends high rest
    → Ascends low (align_all (steps start n) ++ rest)
unfolding align_all steps
region-Ascends start zero low high rest al h fits le a =
    Ascends-weaken high low rest (omega arith) a
region-Ascends start (suc n) low high rest al h fits le a = (
  omega arith,
  region-Ascends (start + frame_size) n (containing start + 1) high rest (omega arith) (omega arith)
      (omega arith) (omega arith) a,
)

usable_frames-Ascends :
    (low : ℕ) (rs : List Region) → IsMapFrom low rs → Ascends low (usable_frames rs)
unfolding usable_frames
usable_frames-Ascends low [] m = tt
usable_frames-Ascends low (r ∷ rs) (after, al, le, more) = elim (Bool-cases r.usable) [
  | inl e ↦ rw e (
      region-Ascends r.start (step_count r) low r.end (usable_frames rs) al after (omega arith)
        (omega arith) (usable_frames-Ascends r.end rs more))
  | inr e ↦ rw e (
      Ascends-weaken r.end low (usable_frames rs) (omega arith)
        (usable_frames-Ascends r.end rs more))
]

Ascends-le :
    (low : ℕ) (xs : List ℕ) (i : ℕ) {f : ℕ} → Ascends low xs → get_elem? xs i ≡ some f → low ≤ f
Ascends-le low [] i a e = cc
Ascends-le low (x ∷ xs) zero a e = ground arith
Ascends-le low (x ∷ xs) (suc i) a e = omega (arith, Ascends-le (x + 1) xs i a.1 e)

Ascends-lt :
    (low : ℕ) (xs : List ℕ) (i j : ℕ) {f g : ℕ}
    → Ascends low xs
    → i < j
    → get_elem? xs i ≡ some f
    → get_elem? xs j ≡ some g
    → f < g
Ascends-lt low [] i j a h e d = cc
Ascends-lt low (x ∷ xs) zero zero a h e d = elim h [ ]
Ascends-lt low (x ∷ xs) zero (suc j) a h e d = ground (arith, Ascends-le (x + 1) xs j a.1 d)
Ascends-lt low (x ∷ xs) (suc i) zero a h e d = elim h [ ]
Ascends-lt low (x ∷ xs) (suc i) (suc j) a h e d = Ascends-lt (x + 1) xs i j a.1 (omega arith) e d

pub usable_frames-distinct :
    (rs : List Region) (i j f g : ℕ)
    → IsMap rs
    → i < j
    → get_elem? (usable_frames rs) i ≡ some f
    → get_elem? (usable_frames rs) j ≡ some g
    → f ≢ g
usable_frames-distinct rs i j f g m h e d same =
    let less = Ascends-lt 0 (usable_frames rs) i j (usable_frames-Ascends 0 rs m) h e d in
    absurd (omega arith)

-- The allocator after `n` more allocations.
unfoldable pub allocate_many : ℕ → BootInfoFrameAllocator → BootInfoFrameAllocator
allocate_many zero a = a
allocate_many (suc n) a = allocate_many n (allocate_frame a).1

allocate_many-next :
    (n : ℕ) (a : BootInfoFrameAllocator) → allocate_many n a ≡ record a { next = a.next + n }
unfolding allocate_many allocate_frame
allocate_many-next zero a = λ i. record a { next = same i }
  where
    same : a.next ≡ a.next + 0
    same = omega arith
allocate_many-next (suc n) a =
    allocate_many-next n (record a { next = a.next + 1 }) ∙ (λ i. record a { next = same i })
  where
    same : (a.next + 1) + n ≡ a.next + suc n
    same = omega arith

allocate_frame-next :
    (n : ℕ) (a : BootInfoFrameAllocator)
    → (allocate_frame (allocate_many n a)).0
      ≡ get_elem? (usable_frames a.memory_regions) (a.next + n)
unfolding allocate_frame
allocate_frame-next n a = ap (λ b. (allocate_frame b).0) (allocate_many-next n a)

-- On a memory map whose regions start at pages and follow one another without overlap, the frames that
-- allocate_frame() hands out ascend: a frame that it gives after another, with however many
-- allocations between them, is a higher one, so that none is given twice.
pub allocate_frame-distinct :
    (a : BootInfoFrameAllocator) (n f g : ℕ)
    → IsMap a.memory_regions
    → (allocate_frame a).0 ≡ some f
    → (allocate_frame (allocate_many n (allocate_frame a).1)).0 ≡ some g
    → f < g
unfolding allocate_frame
allocate_frame-distinct a n f g m h e =
    Ascends-lt 0 (usable_frames a.memory_regions) a.next ((a.next + 1) + n)
      (usable_frames-Ascends 0 a.memory_regions m) (omega arith) h
      (sym (allocate_frame-next n (record a { next = a.next + 1 })) ∙ e)
