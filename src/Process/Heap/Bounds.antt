-- ===== src/Process/Heap/Bounds.antt =====
-- kernel/src/process.rs, sbrk(): what a sequence of requests of one process is given.
use spikeling_os.Base.{
  ℕ, ◌+◌, ◌≤◌, ◌<◌, ◌≡◌, ◌⊎◌, ◌↔◌, refl, ap, ◌∙◌, subst, List, [], ◌∷◌, Option, none, some, arith,
  inl, inr,
}
use spikeling_os.Process.{Process, Kernel, find_process, put_process}
use spikeling_os.Process.Heap.{heap_start, heap_size, bump, sbrk}
use spikeling_os.Process.Refs.Lookups.{with_process_mut-some, find_process-put_process}

abbrev add_span : Option ℕ → ℕ → List (ℕ × ℕ) → List (ℕ × ℕ)
add_span none size spans = spans
add_span (some start) size spans = (start, size) ∷ spans

-- The requests of one process in a row: the spans given, as start and size, and the last state.
unfoldable pub sbrk_all : ℕ → List ℕ → Kernel → List (ℕ × ℕ) × Kernel
sbrk_all id [] k = ([], k)
sbrk_all id (size ∷ rest) k =
    let (start, k1) = sbrk id size k in
    let (spans, k2) = sbrk_all id rest k1 in (add_span start size spans, k2)

-- The spans fill the addresses between the two, in order, with no gap and no overlap.
abbrev pub IsTiled : ℕ → ℕ → List (ℕ × ℕ) → Type 0
IsTiled from to [] = from ≡ to
IsTiled from to ((start, size) ∷ rest) = (start ≡ from) × IsTiled (from + size) to rest

fits_or_not :
    (size : ℕ) (p : Process)
    → ((p.heap_used + size ≤ heap_size)
        × (bump size p
            ≡ (some (heap_start + p.heap_used), record p { heap_used = p.heap_used + size })))
      ⊎ ((heap_size < p.heap_used + size) × (bump size p ≡ (none, p)))
unfolding bump
fits_or_not size p = ground arith

assoc :
    (p : Process) (size : ℕ) → heap_start + (p.heap_used + size) ≡ heap_start + p.heap_used + size
assoc p size = omega arith

sbrk-some :
    (id size : ℕ) (k : Kernel) {p : Process}
    → find_process id k ≡ some p
    → sbrk id size k ≡ ((bump size p).0, put_process id (bump size p).1 k)
unfolding sbrk
sbrk-some id size k h = with_process_mut-some id (bump size) k h

-- A request of a live process fails if, and only if, it does not fit in what is left of its heap.
pub sbrk-none :
    (id size : ℕ) (k : Kernel) (p : Process)
    → find_process id k ≡ some p
    → ((sbrk id size k).0 ≡ none) ↔ (heap_size < p.heap_used + size)
sbrk-none id size k p h = rw (ap (λ r. r.0) (sbrk-some id size k h)) (elim (fits_or_not size p) [
  | inl (le, e) ↦ rw e (ground arith)
  | inr (lt, e) ↦ rw e (ground arith)
])

-- Whatever a live process asks of sbrk(), in any number of requests, the spans that it is given tile
-- the addresses from the old end of its heap to the new one, so no two of them overlap; the new end
-- is within the heap region that is mapped for it; and the process is still there.
pub sbrk_all-IsTiled :
    (id : ℕ) (sizes : List ℕ) (k : Kernel) (p : Process)
    → find_process id k ≡ some p
    → p.heap_used ≤ heap_size
    → (p' : Process) × (find_process id (sbrk_all id sizes k).1 ≡ some p')
      × (p'.heap_used ≤ heap_size)
      × IsTiled (heap_start + p.heap_used) (heap_start + p'.heap_used) (sbrk_all id sizes k).0
unfolding sbrk_all
sbrk_all-IsTiled id [] k p h le = (p, h, le, refl)
sbrk_all-IsTiled id (size ∷ rest) k p h le = elim (fits_or_not size p) [
  | inl (fit, e) ↦
      let p1 = record p { heap_used = p.heap_used + size } in
      let step = sbrk-some id size k h ∙ ap (λ r. (r.0, put_process id r.1 k)) e in
      let (p', live, bound, tiled) =
        sbrk_all-IsTiled id rest (put_process id p1 k) p1 (find_process-put_process id p1 k h)
          fit in
      rw step (
        p',
        live,
        bound,
        (
          refl,
          subst
              (λ from.
                IsTiled from (heap_start + p'.heap_used) (sbrk_all id rest (put_process id p1 k)).0)
              (assoc p size) tiled,
        ),
      )
  | inr (lt, e) ↦
      let step = sbrk-some id size k h ∙ ap (λ r. (r.0, put_process id r.1 k)) e in
      rw step
        (sbrk_all-IsTiled id rest (put_process id p k) p (find_process-put_process id p k h) le)
]
