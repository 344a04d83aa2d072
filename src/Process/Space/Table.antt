-- ===== src/Process/Space/Table.antt =====
-- kernel/src/process.rs: building an address space changes nothing of which page table is in use.
use spikeling_os.Base.{
  ℕ, zero, suc, ◌+◌, ◌*◌, ◌≡◌, refl, List, [], ◌∷◌, leb, ◌==◌, length, replicate,
}
use spikeling_os.Base.Result.{Result}
use spikeling_os.Base.Branch.{option-either}
use spikeling_os.Base.Stateful.{◌>>=◌, gets, modify, check, bind-keeps}
use spikeling_os.Memory.{allocate_frame}
use spikeling_os.Process.{page_size}
use spikeling_os.Process.Heap.{heap_start, heap_page_count}
use spikeling_os.Process.Space.{
  Paging, Space, SpaceError, Build, allocate, map, map_heap, create_process_from_image, copy_page,
  copy_pages, fork_build_child, max_code_image_bytes, image_too_large, p4_index, user_code_addr,
  user_stack_addr, split_p4_index, no_frame_heap, map_failed_heap, write_page,
}

module _ (pg : Paging) where
  -- No step of a chain changes `cr3`.
  abbrev Stays : {A : Type 0} → Build pg A → Type 0
  Stays m = (s : Space pg) → (m s).1.cr3 ≡ s.cr3

  then-Stays :
      {A B : Type 0} (m : Build pg A) (f : A → Build pg B)
      → Stays m
      → ((a : A) → Stays (f a))
      → Stays (m >>= f)
  then-Stays m f hm hf s = bind-keeps (λ t. t.cr3) m f hm hf s

  allocate-Stays : (e : SpaceError) → Stays (allocate pg e)
  unfolding allocate
  allocate-Stays e s =
      option-either (λ (r : Result SpaceError ℕ × Space pg). r.1.cr3 ≡ s.cr3)
        (allocate_frame s.allocator).0 (λ n. refl) (λ f q. refl)

  map-Stays : (pml4 page frame : ℕ) (e : SpaceError) → Stays (map pg pml4 page frame e)
  unfolding map
  map-Stays pml4 page frame e s =
      option-either (λ (r : Result SpaceError (Unit {0}) × Space pg). r.1.cr3 ≡ s.cr3)
        (pg.map_to page frame (s.tables pml4) s.below s.allocator).0 (λ n. refl) (λ (es, b) q. refl)

  map_heap-Stays : (pml4 i n : ℕ) → Stays (map_heap pg pml4 i n)
  unfolding map_heap
  map_heap-Stays pml4 i zero s = refl
  map_heap-Stays pml4 i (suc n) s =
      then-Stays (allocate pg no_frame_heap) _ (allocate-Stays no_frame_heap)
        (λ frame.
          then-Stays (map pg pml4 (heap_start + i * page_size) frame map_failed_heap) _
            (map-Stays pml4 (heap_start + i * page_size) frame map_failed_heap)
            (λ u.
              then-Stays (modify (write_page pg frame (replicate page_size 0))) _ (λ t. refl)
                (λ v.
                  then-Stays (map_heap pg pml4 (i + 1) n) _ (map_heap-Stays pml4 (i + 1) n)
                    (λ frames t. refl))))
        s

  create-Stays : (label image : List ℕ) → Stays (create_process_from_image pg label image)
  unfolding create_process_from_image
  create-Stays label image s =
      then-Stays (check (leb (length image) max_code_image_bytes) image_too_large) _ (λ t. refl)
        (λ u.
          then-Stays (check (p4_index user_code_addr == p4_index user_stack_addr) split_p4_index) _
            (λ t. refl)
            (λ u. then-Stays (allocate pg _) _ (allocate-Stays _) (λ pml4.
              then-Stays (modify _) _ (λ t. refl)
                (λ u. then-Stays (allocate pg _) _ (allocate-Stays _) (λ code.
                  then-Stays (allocate pg _) _ (allocate-Stays _) (λ stack.
                    then-Stays (map pg pml4 _ code _) _ (map-Stays pml4 _ code _) (λ u.
                      then-Stays (map pg pml4 _ stack _) _ (map-Stays pml4 _ stack _) (λ u.
                        then-Stays (map_heap pg pml4 0 heap_page_count) _
                          (map_heap-Stays pml4 0 heap_page_count)
                          (λ heap. then-Stays (modify _) _ (λ t. refl) (λ u t. refl))))))))))
        s

  copy_pages-cr3 : (tos froms : List ℕ) (s : Space pg) → (copy_pages pg tos froms s).cr3 ≡ s.cr3
  unfolding copy_pages
  copy_pages-cr3 [] froms s = refl
  copy_pages-cr3 (t ∷ ts) [] s = refl
  copy_pages-cr3 (t ∷ ts) (g ∷ gs) s = copy_pages-cr3 ts gs (copy_page pg g t s)

  pub fork_build_child-cr3 :
      (label : List ℕ) (code stack : ℕ) (heap : List ℕ) (s : Space pg)
      → (fork_build_child pg label code stack heap s).1.cr3 ≡ s.cr3
  unfolding fork_build_child
  fork_build_child-cr3 label code stack heap s =
      then-Stays (gets (λ t. t.pages code)) _ (λ t. refl)
        (λ bytes.
          then-Stays (create_process_from_image pg label bytes) _ (create-Stays label bytes)
            (λ child.
              then-Stays (modify (copy_page pg stack child.stack_frame)) _ (λ t. refl)
                (λ u.
                  then-Stays (modify (copy_pages pg child.heap_frames heap)) _
                    (copy_pages-cr3 child.heap_frames heap) (λ u t. refl))))
        s
