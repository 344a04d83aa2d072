-- ===== src/Process/Space/Copies.antt =====
-- fork_build_child() of kernel/src/process.rs: what the child's pages hold, and what becomes of the
-- parent's.
use spikeling_os.Base.{
  ℕ, suc, ◌-◌, ◌≡◌, ◌≢◌, refl, ap, ap₂, sym, subst, ◌∙◌, List, [], ◌∷◌, ◌++◌, map, arith, length,
  replicate, append-nil,
}
use spikeling_os.Base.Result.{ok}
use spikeling_os.Base.Stateful.{bind-ok, modify-next, gets-next, done-ok}
use spikeling_os.Memory.{Region, IsMap}
use spikeling_os.Process.{Process, page_size}
use spikeling_os.Process.Heap.{heap_page_count}
use spikeling_os.Process.Space.{
  Paging, Space, copy_page, copy_pages, code_page, create_process_from_image, fork_build_child,
}
use spikeling_os.Process.Space.Grows.{
  Allotted, Allotted-weaken, Allotted-AllDistinct, AllDistinct, Avoids, IsOld, old-Avoids,
}
use spikeling_os.Process.Space.Build.{
  regions, next, Takes, Created, create_process_from_image-ok, write_page_ne, write_page_self,
}

-- All were handed out before allocation `n`.
abbrev pub AllOld : List Region → ℕ → List ℕ → Type 0
AllOld rs n [] = Unit {0}
AllOld rs n (f ∷ fs) = IsOld rs n f × AllOld rs n fs

abbrev EachAvoids : List ℕ → List ℕ → Type 0
EachAvoids [] tos = Unit {0}
EachAvoids (f ∷ fs) tos = Avoids f tos × EachAvoids fs tos

AllOld-EachAvoids :
    (rs : List Region) (lo hi : ℕ) (froms tos : List ℕ)
    → IsMap rs
    → AllOld rs lo froms
    → Allotted rs lo tos hi
    → EachAvoids froms tos
AllOld-EachAvoids rs lo hi [] tos m o a = tt
AllOld-EachAvoids rs lo hi (f ∷ fs) tos m o a =
    (old-Avoids rs lo f tos hi m o.0 a, AllOld-EachAvoids rs lo hi fs tos m o.1 a)

EachAvoids-tail :
    (froms : List ℕ) (t : ℕ) (ts : List ℕ) → EachAvoids froms (t ∷ ts) → EachAvoids froms ts
EachAvoids-tail [] t ts e = tt
EachAvoids-tail (f ∷ fs) t ts e = (e.0.1, EachAvoids-tail fs t ts e.1)

-- A page read by frame, unchanged on each frame of a list.
map-pages :
    (p q : ℕ → List ℕ) (t : ℕ) (ts fs : List ℕ)
    → ((f : ℕ) → f ≢ t → p f ≡ q f)
    → EachAvoids fs (t ∷ ts)
    → map p fs ≡ map q fs
map-pages p q t ts [] h e = refl
map-pages p q t ts (f ∷ fs) h e = ap₂ (λ x xs. x ∷ xs) (h f e.0.0) (map-pages p q t ts fs h e.1)

-- Likewise where the two agree on every old frame.
map-old :
    (rs : List Region) (n : ℕ) (p q : ℕ → List ℕ) (fs : List ℕ)
    → ((f : ℕ) → IsOld rs n f → p f ≡ q f)
    → AllOld rs n fs
    → map p fs ≡ map q fs
map-old rs n p q [] h o = refl
map-old rs n p q (f ∷ fs) h o = ap₂ (λ x xs. x ∷ xs) (h f o.0) (map-old rs n p q fs h o.1)

module _ (pg : Paging) where
  copy_pages_ne :
      (tos froms : List ℕ) (s : Space pg) (f : ℕ)
      → Avoids f tos
      → (copy_pages pg tos froms s).pages f ≡ s.pages f
  unfolding copy_pages
  copy_pages_ne [] froms s f a = refl
  copy_pages_ne (t ∷ ts) [] s f a = refl
  copy_pages_ne (t ∷ ts) (g ∷ gs) s f a =
      copy_pages_ne ts gs (copy_page pg g t s) f a.1 ∙ write_page_ne pg t f (s.pages g) s a.0

  copy_pages-allocator :
      (tos froms : List ℕ) (s : Space pg) → (copy_pages pg tos froms s).allocator ≡ s.allocator
  unfolding copy_pages
  copy_pages-allocator [] froms s = refl
  copy_pages-allocator (t ∷ ts) [] s = refl
  copy_pages-allocator (t ∷ ts) (g ∷ gs) s = copy_pages-allocator ts gs (copy_page pg g t s)

  -- The heap's frames come after three others.
  heap-Allotted :
      (rs : List Region) (lo hi a b c : ℕ) (fs : List ℕ)
      → Allotted rs lo (a ∷ b ∷ c ∷ fs) hi
      → Allotted rs lo fs hi
  heap-Allotted rs lo hi a b c fs (i, h, x, (j, k, y, (l, m, z, rest))) =
      Allotted-weaken rs (suc l) lo fs hi (omega arith) rest

  -- Every page of the second list is where the first list says.
  copy_pages_lem :
      (tos froms : List ℕ) (s : Space pg)
      → AllDistinct tos
      → EachAvoids froms tos
      → length froms ≡ length tos
      → map (copy_pages pg tos froms s).pages tos ≡ map s.pages froms
  unfolding copy_pages
  copy_pages_lem [] [] s d e n = refl
  copy_pages_lem [] (g ∷ gs) s d e n = absurd (omega arith)
  copy_pages_lem (t ∷ ts) [] s d e n = absurd (omega arith)
  copy_pages_lem (t ∷ ts) (g ∷ gs) s d e n =
      let s1 = copy_page pg g t s in
      ap₂ (λ x xs. x ∷ xs) (copy_pages_ne ts gs s1 t d.0 ∙ write_page_self pg t (s.pages g) s)
        (copy_pages_lem ts gs s1 d.1 (EachAvoids-tail gs t ts e.1) (omega arith)
          ∙ map-pages s1.pages s.pages t ts gs (λ f ne. write_page_ne pg t f (s.pages g) s ne) e.1)

  -- What fork_build_child() has done when it succeeds.
  pub record Forked (s : Space pg) (code stack : ℕ) (heap : List ℕ) (p : Process) (s' : Space pg)
      : Type 0 where
    pub taking : Takes pg s (p.pml4_frame ∷ p.code_frame ∷ p.stack_frame ∷ p.heap_frames) s'
    pub code_copy : s'.pages p.code_frame ≡ s.pages code
    pub stack_copy : s'.pages p.stack_frame ≡ s.pages stack
    pub heap_copy : map s'.pages p.heap_frames ≡ map s.pages heap
    pub kept : (f : ℕ) → IsOld (regions pg s) (next pg s) f → s'.pages f ≡ s.pages f

  full_page : (bytes : List ℕ) → length bytes ≡ page_size → code_page pg bytes ≡ bytes
  full_page bytes n =
      ap (λ k. bytes ++ replicate k 0) {x = page_size - length bytes} {y = 0} (omega arith)
      ∙ append-nil bytes

  copied :
      (code stack : ℕ) (heap : List ℕ) (s s1 : Space pg) (p : Process)
      → IsMap (regions pg s)
      → AllOld (regions pg s) (next pg s) (code ∷ stack ∷ heap)
      → length (s.pages code) ≡ page_size
      → length heap ≡ heap_page_count
      → Created pg s (s.pages code) p s1
      → Forked s code stack heap p
          (copy_pages pg p.heap_frames heap (copy_page pg stack p.stack_frame s1))
  copied code stack heap s s1 p m o full n c =
      let rs = regions pg s in
      let s2 = copy_page pg stack p.stack_frame s1 in
      let apart =
        Allotted-AllDistinct rs (next pg s)
          (p.pml4_frame ∷ p.code_frame ∷ p.stack_frame ∷ p.heap_frames) (next pg s1) m
          c.taking.taken in
      let away : (f : ℕ)
          → IsOld rs (next pg s) f
          → Avoids f (p.pml4_frame ∷ p.code_frame ∷ p.stack_frame ∷ p.heap_frames) =
        λ f old.
          old-Avoids rs (next pg s) f (p.pml4_frame ∷ p.code_frame ∷ p.stack_frame ∷ p.heap_frames)
            (next pg s1) m old c.taking.taken in
      let before : (f : ℕ) → IsOld rs (next pg s) f → s1.pages f ≡ s.pages f =
        λ f old. c.kept f ((away f old).1.0, (away f old).1.1.1) in
      let between : (f : ℕ) → IsOld rs (next pg s) f → s2.pages f ≡ s.pages f = λ f old.
        write_page_ne pg p.stack_frame f (s1.pages stack) s1 (away f old).1.1.0 ∙ before f old in
      let copied_space = copy_pages-allocator p.heap_frames heap s2 in
      let heap_only =
        heap-Allotted rs (next pg s) (next pg s1) p.pml4_frame p.code_frame p.stack_frame
          p.heap_frames c.taking.taken in
      record {
        taking = record {
          same = ap (λ a. a.memory_regions) copied_space ∙ c.taking.same;
          taken =
              subst
                (λ k.
                  Allotted rs (next pg s)
                    (p.pml4_frame ∷ p.code_frame ∷ p.stack_frame ∷ p.heap_frames) k)
                (ap (λ a. a.next) (sym copied_space)) c.taking.taken;
        };
        code_copy =
            copy_pages_ne p.heap_frames heap s2 p.code_frame apart.1.0.1
            ∙ (write_page_ne pg p.stack_frame p.code_frame (s1.pages stack) s1 apart.1.0.0
                ∙ (c.code ∙ full_page (s.pages code) full));
        stack_copy =
            copy_pages_ne p.heap_frames heap s2 p.stack_frame apart.1.1.0
            ∙ (write_page_self pg p.stack_frame (s1.pages stack) s1 ∙ before stack o.1.0);
        heap_copy =
            copy_pages_lem p.heap_frames heap s2 apart.1.1.1
              (AllOld-EachAvoids rs (next pg s) (next pg s1) heap p.heap_frames m o.1.1 heap_only)
              (n ∙ sym c.count)
            ∙ map-old rs (next pg s) s2.pages s.pages heap between o.1.1;
        kept = λ f old. copy_pages_ne p.heap_frames heap s2 f (away f old).1.1.1 ∙ between f old;
      }

  -- On a machine whose usable regions do not overlap, and for a parent whose code, stack and heap frames
  -- were handed out by the frame allocator, whose code page is a whole page and which has its full
  -- heap, a fork_build_child() that succeeds gives a child whose code, stack and heap pages hold what
  -- the parent's held, in frames never handed out before; and no page of a frame handed out before
  -- has changed, the parent's own included.
  pub fork_build_child-Forked :
      (label heap : List ℕ) (code stack : ℕ) (s s' : Space pg) (p : Process)
      → IsMap (regions pg s)
      → AllOld (regions pg s) (next pg s) (code ∷ stack ∷ heap)
      → length (s.pages code) ≡ page_size
      → length heap ≡ heap_page_count
      → fork_build_child pg label code stack heap s ≡ (ok p, s')
      → Forked s code stack heap p s'
  unfolding fork_build_child
  fork_build_child-Forked label heap code stack s s' p m old full n h =
      let r0 = gets-next (λ t. t.pages code) _ s (ok p, s') h in
      let (child, s1, h1, r1) =
        bind-ok (create_process_from_image pg label (s.pages code)) _ s s' p r0 in
      let s2 = copy_page pg stack child.stack_frame s1 in
      let r2 = modify-next (copy_page pg stack child.stack_frame) _ s1 (ok p, s') r1 in
      let s3 = copy_pages pg child.heap_frames heap s2 in
      let (made, same) =
        done-ok child p s3 s'
          (modify-next (copy_pages pg child.heap_frames heap) _ s2 (ok p, s') r2) in
      subst (λ q. Forked s code stack heap q s') made
        (subst (λ t. Forked s code stack heap child t) same
          (copied code stack heap s s1 child m old full n
            (create_process_from_image-ok pg label (s.pages code) s s1 child h1)))
