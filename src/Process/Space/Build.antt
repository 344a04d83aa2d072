-- ===== src/Process/Space/Build.antt =====
-- create_process_from_image() of kernel/src/process.rs, step by step: what each step takes from the
-- allocator and which pages it writes.
use spikeling_os.Base.{
  ℕ, zero, suc, ◌+◌, ◌*◌, ◌≤◌, ◌≡◌, ◌≢◌, refl, ap, subst, ◌∙◌, List, [], ◌∷◌, arith, length,
  replicate, get_elem?, Option-cases, inl, inr, leb, ◌==◌, if◌then◌else◌,
}
use spikeling_os.Base.Result.{ok}
use spikeling_os.Base.Stateful.{bind-ok, modify-next, check-next, done-ok}
use spikeling_os.Memory.{Region, allocate_frame, usable_frames}
use spikeling_os.Process.{Process, page_size}
use spikeling_os.Process.Heap.{heap_start, heap_page_count}
use spikeling_os.Process.Space.{
  user_code_addr, user_stack_addr, max_code_image_bytes, p4_index, SpaceError, image_too_large,
  split_p4_index, no_frame_pml4, no_frame_code, no_frame_stack, map_failed_code, map_failed_stack,
  no_frame_heap, map_failed_heap, Paging, Space, allocate, write_page, share_kernel, map, map_heap,
  code_page, new_process, create_process_from_image,
}
use spikeling_os.Process.Space.Grows.{Allotted, Allotted-weaken, Avoids}

module _ (pg : Paging) where
  abbrev pub regions : Space pg → List Region
  regions s = s.allocator.memory_regions

  abbrev pub next : Space pg → ℕ
  next s = s.allocator.next

  -- From one state to another those frames were taken, in this order, and perhaps others.
  pub record Takes (s : Space pg) (fs : List ℕ) (s' : Space pg) : Type 0 where
    pub same : regions s' ≡ regions s
    pub taken : Allotted (regions s) (next s) fs (next s')

  pub Takes-cons :
      (s s1 s' : Space pg) (f : ℕ) (fs : List ℕ)
      → Takes s (f ∷ []) s1
      → Takes s1 fs s'
      → Takes s (f ∷ fs) s'
  Takes-cons s s1 s' f fs a b =
      let (i, le, n, more) = a.taken in
      record {
        same = b.same ∙ a.same;
        taken = (
          i,
          le,
          n,
          subst (λ r. Allotted r (suc i) fs (next s')) a.same
              (Allotted-weaken (regions s1) (next s1) (suc i) fs (next s') more b.taken),
        );
      }

  pub Takes-none :
      (s s1 s' : Space pg) (fs : List ℕ) → Takes s [] s1 → Takes s1 fs s' → Takes s fs s'
  Takes-none s s1 s' fs a b = record {
    same = b.same ∙ a.same;
    taken =
        subst (λ r. Allotted r (next s) fs (next s')) a.same
          (Allotted-weaken (regions s1) (next s1) (next s) fs (next s') a.taken b.taken);
  }

  pub write_page_ne :
      (frame f : ℕ) (bytes : List ℕ) (s : Space pg)
      → f ≢ frame
      → (write_page pg frame bytes s).pages f ≡ s.pages f
  write_page_ne frame f bytes s ne = ground arith

  pub write_page_self :
      (frame : ℕ) (bytes : List ℕ) (s : Space pg)
      → (write_page pg frame bytes s).pages frame ≡ bytes
  write_page_self frame bytes s = ground arith

  pub allocate-ok :
      (e : SpaceError) (s s' : Space pg) (f : ℕ)
      → allocate pg e s ≡ (ok f, s')
      → Takes s (f ∷ []) s' × (s'.pages ≡ s.pages)
  unfolding allocate allocate_frame
  allocate-ok e s s' f h = elim (Option-cases (get_elem? (usable_frames (regions s)) (next s))) [
    | inl q ↦ absurd (ground arith)
    | inr (g, q) ↦
        let later : Space pg = record s {
          allocator = record s.allocator { next = s.allocator.next + 1 };
        } in
        let same : f ≡ g = ground arith in
        let after : later ≡ s' = ground arith in
        subst (λ t. Takes s (f ∷ []) t × (t.pages ≡ s.pages)) after
          (record { same = refl; taken = (next s, omega arith, rw same q, omega arith) }, refl)
  ]

  pub map-ok :
      (pml4 page frame : ℕ) (e : SpaceError) (s s' : Space pg) (u : Unit {0})
      → map pg pml4 page frame e s ≡ (ok u, s')
      → Takes s [] s' × (s'.pages ≡ s.pages)
  unfolding map
  map-ok pml4 page frame e s s' u h =
      elim (Option-cases (pg.map_to page frame (s.tables pml4) s.below s.allocator).0) [
        | inl q ↦ absurd (ground arith)
        | inr ((es, b), q) ↦
            let a = (pg.map_to page frame (s.tables pml4) s.below s.allocator).1 in
            let mapped : Space pg = record s {
              allocator = a;
              tables = λ f. if f == pml4 then es else s.tables f;
              below = b;
            } in
            let after : mapped ≡ s' = ground arith in
            subst (λ t. Takes s [] t × (t.pages ≡ s.pages)) after
              (
                record {
                  same = pg.same_map page frame (s.tables pml4) s.below s.allocator;
                  taken = pg.advances page frame (s.tables pml4) s.below s.allocator;
                },
                refl,
              )
      ]

  -- What the loop over the heap's pages has done.
  record Heaped (s : Space pg) (n : ℕ) (frames : List ℕ) (s' : Space pg) : Type 0 where
    taking : Takes s frames s'
    count : length frames ≡ n
    kept : (f : ℕ) → Avoids f frames → s'.pages f ≡ s.pages f

  map_heap-ok :
      (pml4 i n : ℕ) (s s' : Space pg) (frames : List ℕ)
      → map_heap pg pml4 i n s ≡ (ok frames, s')
      → Heaped s n frames s'
  unfolding map_heap
  map_heap-ok pml4 i zero s s' frames h =
      let (empty, same) = done-ok [] frames s s' h in
      subst (λ fs. Heaped s zero fs s') empty
        (subst (λ t. Heaped s zero [] t) same
          (record {
            taking = record { same = refl; taken = omega arith };
            count = refl;
            kept = λ f a. refl;
          }))
  map_heap-ok pml4 i (suc n) s s' frames h =
      let (frame, s1, h1, r1) = bind-ok (allocate pg no_frame_heap) _ s s' frames h in
      let (u, s2, h2, r2) =
        bind-ok (map pg pml4 (heap_start + i * page_size) frame map_failed_heap) _ s1 s' frames
          r1 in
      let s3 = write_page pg frame (replicate page_size 0) s2 in
      let (rest, s4, h4, r4) =
        bind-ok (map_heap pg pml4 (i + 1) n) _ s3 s' frames
          (modify-next (write_page pg frame (replicate page_size 0)) _ s2 (ok frames, s') r2) in
      let (all, same) = done-ok (frame ∷ rest) frames s4 s' r4 in
      let (take1, pages1) = allocate-ok no_frame_heap s s1 frame h1 in
      let (take2, pages2) =
        map-ok pml4 (heap_start + i * page_size) frame map_failed_heap s1 s2 u h2 in
      let more = map_heap-ok pml4 (i + 1) n s3 s4 rest h4 in
      let here : Takes s2 [] s3 = record { same = refl; taken = omega arith } in
      subst (λ fs. Heaped s (suc n) fs s') all
        (subst (λ t. Heaped s (suc n) (frame ∷ rest) t) same
          (record {
            taking =
                Takes-cons s s1 s4 frame rest take1
                  (Takes-none s1 s2 s4 rest take2 (Takes-none s2 s3 s4 rest here more.taking));
            count = ap suc more.count;
            kept = λ f a.
                more.kept f a.1
                ∙ (write_page_ne frame f (replicate page_size 0) s2 a.0
                    ∙ (ap (λ q. q f) pages2 ∙ ap (λ q. q f) pages1));
          }))

  -- What create_process_from_image() has done when it succeeds.
  pub record Created (s : Space pg) (image : List ℕ) (p : Process) (s' : Space pg) : Type 0 where
    pub fits : length image ≤ max_code_image_bytes
    pub taking : Takes s (p.pml4_frame ∷ p.code_frame ∷ p.stack_frame ∷ p.heap_frames) s'
    pub count : length p.heap_frames ≡ heap_page_count
    pub code : s'.pages p.code_frame ≡ code_page pg image
    pub kept : (f : ℕ) → Avoids f (p.code_frame ∷ p.heap_frames) → s'.pages f ≡ s.pages f

  assemble :
      (label image heap : List ℕ) (pml4 code stack : ℕ) (s s1 s3 s4 s5 s6 s7 : Space pg)
      → length image ≤ max_code_image_bytes
      → Takes s (pml4 ∷ []) s1 × (s1.pages ≡ s.pages)
      → Takes (share_kernel pg pml4 s1) (code ∷ []) s3 × (s3.pages ≡ s1.pages)
      → Takes s3 (stack ∷ []) s4 × (s4.pages ≡ s3.pages)
      → Takes s4 [] s5 × (s5.pages ≡ s4.pages)
      → Takes s5 [] s6 × (s6.pages ≡ s5.pages)
      → Heaped s6 heap_page_count heap s7
      → Created s image
          (new_process pg label pml4 code stack heap)
          (write_page pg code (code_page pg image) s7)
  assemble label image heap pml4 code stack s s1 s3 s4 s5 s6 s7 fits a c k m n h =
      let s2 = share_kernel pg pml4 s1 in
      let s8 = write_page pg code (code_page pg image) s7 in
      let last : Takes s6 heap s8 = record { same = h.taking.same; taken = h.taking.taken } in
      let shared : Takes s1 [] s2 = record { same = refl; taken = omega arith } in
      record {
        fits = fits;
        taking = Takes-cons s s1 s8 pml4 (code ∷ stack ∷ heap) a.0 (
            Takes-none s1 s2 s8 (code ∷ stack ∷ heap) shared (
              Takes-cons s2 s3 s8 code (stack ∷ heap) c.0 (
                Takes-cons s3 s4 s8 stack heap k.0
                  (Takes-none s4 s5 s8 heap m.0 (Takes-none s5 s6 s8 heap n.0 last)))));
        count = h.count;
        code = write_page_self code (code_page pg image) s7;
        kept = λ f away.
            write_page_ne code f (code_page pg image) s7 away.0
            ∙ (h.kept f away.1 ∙ ap (λ q. q f) (n.1 ∙ (m.1 ∙ (k.1 ∙ (c.1 ∙ a.1)))));
      }

  pub create_process_from_image-ok :
      (label image : List ℕ) (s s' : Space pg) (p : Process)
      → create_process_from_image pg label image s ≡ (ok p, s')
      → Created s image p s'
  unfolding create_process_from_image
  create_process_from_image-ok label image s s' p h =
      let (fits, r0) =
        check-next (leb (length image) max_code_image_bytes) image_too_large _ s s' p h in
      let (slot, r1) =
        check-next (p4_index user_code_addr == p4_index user_stack_addr) split_p4_index _ s s' p
          r0 in
      let (pml4, s1, h1, r2) = bind-ok (allocate pg no_frame_pml4) _ s s' p r1 in
      let s2 = share_kernel pg pml4 s1 in
      let (code, s3, h3, r3) =
        bind-ok (allocate pg no_frame_code) _ s2 s' p
          (modify-next (share_kernel pg pml4) _ s1 (ok p, s') r2) in
      let (stack, s4, h4, r4) = bind-ok (allocate pg no_frame_stack) _ s3 s' p r3 in
      let (u, s5, h5, r5) =
        bind-ok (map pg pml4 user_code_addr code map_failed_code) _ s4 s' p r4 in
      let (v, s6, h6, r6) =
        bind-ok (map pg pml4 user_stack_addr stack map_failed_stack) _ s5 s' p r5 in
      let (heap, s7, h7, r7) = bind-ok (map_heap pg pml4 0 heap_page_count) _ s6 s' p r6 in
      let s8 = write_page pg code (code_page pg image) s7 in
      let (made, same) =
        done-ok (new_process pg label pml4 code stack heap) p s8 s'
          (modify-next (write_page pg code (code_page pg image)) _ s7 (ok p, s') r7) in
      subst (λ q. Created s image q s') made
        (subst (λ t. Created s image (new_process pg label pml4 code stack heap) t) same
          (assemble label image heap pml4 code stack s s1 s3 s4 s5 s6 s7 (ground arith)
            (allocate-ok no_frame_pml4 s s1 pml4 h1) (allocate-ok no_frame_code s2 s3 code h3)
            (allocate-ok no_frame_stack s3 s4 stack h4)
            (map-ok pml4 user_code_addr code map_failed_code s4 s5 u h5)
            (map-ok pml4 user_stack_addr stack map_failed_stack s5 s6 v h6)
            (map_heap-ok pml4 0 heap_page_count s6 s7 heap h7)))
