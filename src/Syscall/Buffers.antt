-- ===== src/Syscall/Buffers.antt =====
-- kernel/src/usertest.rs: what a system call has written to its caller's memory, the caller finds there.
use spikeling_os.Base.{
  ℕ, zero, suc, ◌+◌, ◌%◌, ◌≤◌, ◌<◌, ◌≡◌, ◌≢◌, refl, sym, ap, subst, ◌∙◌, List, [], ◌∷◌, none, some,
  ◌==◌, if◌then◌else◌, arith, length, get_elem?, set, Option-cases, inl, inr, ℕ_discrete,
  get_elem?-set_ne, get_elem?-set_self, length-set,
}
use spikeling_os.Process.{page_size}
use spikeling_os.Process.Space.{Paging, Space}
use spikeling_os.Process.Fds.{read_fd}
use spikeling_os.Process.Files.Lengths.{read_fd-AtMost}
use spikeling_os.Process.Machine.{Machine, with_kernel}
use spikeling_os.Syscall.{
  SyscallRegs, resumes, capped, max_fd_io_len, read_byte, write_byte, read_user, write_user,
  wrapping_add, place_of,
}
use spikeling_os.Syscall.Files.{deliver, read_call}
use spikeling_os.Syscall.Dispatch.{syscall_dispatch}

abbrev offset : ℕ → ℕ
offset va = va % page_size

apart :
    (ptr i j : ℕ)
    → i < j
    → j < i + page_size
    → offset (wrapping_add ptr i) ≢ offset (wrapping_add ptr j)
apart ptr i j lt near e = omega arith

module _ (pg : Paging) where
  abbrev pub WholePages : Space pg → Type 0
  WholePages s = (f : ℕ) → length (s.pages f) ≡ page_size

  read_byte-some :
      (va f : ℕ) (s : Space pg)
      → place_of pg s va ≡ some f
      → read_byte pg va s ≡ get_elem? (s.pages f) (offset va)
  unfolding read_byte
  read_byte-some va f s e = rw (read_byte, e) refl

  read_byte-none : (va : ℕ) (s : Space pg) → place_of pg s va ≡ none → read_byte pg va s ≡ none
  unfolding read_byte
  read_byte-none va s e = rw (read_byte, e) refl

  -- A write, with the frame that it goes to.
  abbrev stored : ℕ → ℕ → ℕ → Space pg → Space pg
  stored f va b s = record s {
    pages = λ g. if g == f then set (s.pages f) (offset va) b else s.pages g;
  }

  write_byte-some :
      (va b : ℕ) (s s' : Space pg)
      → write_byte pg va b s ≡ some s'
      → (f : ℕ) × (place_of pg s va ≡ some f) × (stored f va b s ≡ s')
  unfolding write_byte
  write_byte-some va b s s' w = elim (Option-cases (place_of pg s va)) [
    | inl n ↦ absurd (ground arith)
    | inr (f, q) ↦ (f, q, ground arith)
  ]

  get_elem?-stored :
      (f g va va' b : ℕ) (s : Space pg)
      → offset va' ≢ offset va
      → get_elem? ((stored f va b s).pages g) (offset va') ≡ get_elem? (s.pages g) (offset va')
  get_elem?-stored f g va va' b s ne = elim (ℕ_discrete g f) [
    | yes e ↦
        ap (λ p. get_elem? p (offset va')) {x = (stored f va b s).pages g}
          {y = set (s.pages f) (offset va) b} (ground arith)
        ∙ (get_elem?-set_ne (s.pages f) b (λ q. ne (sym q))
            ∙ ap (λ h. get_elem? (s.pages h) (offset va')) (sym e))
    | no n ↦
        ap (λ p. get_elem? p (offset va')) {x = (stored f va b s).pages g} {y = s.pages g}
          (ground arith)
  ]

  write_byte_other :
      (va va' b : ℕ) (s s' : Space pg)
      → offset va' ≢ offset va
      → write_byte pg va b s ≡ some s'
      → read_byte pg va' s' ≡ read_byte pg va' s
  write_byte_other va va' b s s' ne w =
      let (f, q, same) = write_byte-some va b s s' w in
      subst (λ t. read_byte pg va' t ≡ read_byte pg va' s) same
        (elim (Option-cases (place_of pg s va')) [
          | inl n ↦ read_byte-none va' (stored f va b s) n ∙ sym (read_byte-none va' s n)
          | inr (g, at) ↦
              read_byte-some va' g (stored f va b s) at
              ∙ (get_elem?-stored f g va va' b s ne ∙ sym (read_byte-some va' g s at))
        ])

  write_byte_self :
      (va b : ℕ) (s s' : Space pg)
      → WholePages s
      → write_byte pg va b s ≡ some s'
      → read_byte pg va s' ≡ some b
  write_byte_self va b s s' whole w =
      let (f, q, same) = write_byte-some va b s s' w in
      let here : offset va < length (s.pages f) = omega (arith, whole f) in
      subst (λ t. read_byte pg va t ≡ some b) same
        (read_byte-some va f (stored f va b s) q
          ∙ (ap (λ p. get_elem? p (offset va)) {x = (stored f va b s).pages f}
                {y = set (s.pages f) (offset va) b} (ground arith)
              ∙ get_elem?-set_self (s.pages f) (offset va) b here))

  stored-WholePages :
      (va b : ℕ) (s s' : Space pg) → WholePages s → write_byte pg va b s ≡ some s' → WholePages s'
  stored-WholePages va b s s' whole w =
      let (f, q, same) = write_byte-some va b s s' w in
      subst WholePages same (λ g. elim (ℕ_discrete g f) [
        | yes e ↦
            ap length {x = (stored f va b s).pages g} {y = set (s.pages f) (offset va) b}
              (ground arith)
            ∙ (length-set (s.pages f) (offset va) b ∙ whole f)
        | no n ↦ ap length {x = (stored f va b s).pages g} {y = s.pages g} (ground arith) ∙ whole g
      ])

  write_user_other :
      (ptr i : ℕ) (bytes : List ℕ) (va : ℕ) (s s' : Space pg)
      → ((j : ℕ) → i ≤ j → j < i + length bytes → offset va ≢ offset (wrapping_add ptr j))
      → write_user pg ptr i bytes s ≡ some s'
      → read_byte pg va s' ≡ read_byte pg va s
  unfolding write_user
  write_user_other ptr i [] va s s' away w =
      ap (λ t. read_byte pg va t) {x = s'} {y = s} (ground arith)
  write_user_other ptr i (b ∷ bs) va s s' away w =
      elim (Option-cases (write_byte pg (wrapping_add ptr i) b s)) [
        | inl n ↦ absurd (ground arith)
        | inr (s1, w1) ↦
            write_user_other ptr (i + 1) bs va s1 s' (λ j le lt. away j (omega arith) (omega arith))
              (ground arith)
            ∙ write_byte_other (wrapping_add ptr i) va b s s1 (away i (omega arith) (omega arith))
                w1
      ]

  read_user-cons :
      (ptr i n : ℕ) (b : ℕ) (bs : List ℕ) (s : Space pg)
      → read_byte pg (wrapping_add ptr i) s ≡ some b
      → read_user pg ptr (i + 1) n s ≡ some bs
      → read_user pg ptr i (suc n) s ≡ some (b ∷ bs)
  unfolding read_user
  read_user-cons ptr i n b bs s e f = ground arith

  user_bytes :
      (ptr i : ℕ) (bytes : List ℕ) (s s' : Space pg)
      → WholePages s
      → length bytes ≤ page_size
      → write_user pg ptr i bytes s ≡ some s'
      → read_user pg ptr i (length bytes) s' ≡ some bytes
  unfolding write_user read_user
  user_bytes ptr i [] s s' whole fits w = refl
  user_bytes ptr i (b ∷ bs) s s' whole fits w =
      elim (Option-cases (write_byte pg (wrapping_add ptr i) b s)) [
        | inl n ↦ absurd (ground arith)
        | inr (s1, w1) ↦
            let rest : write_user pg ptr (i + 1) bs s1 ≡ some s' = ground arith in
            read_user-cons ptr i (length bs) b bs s'
              (write_user_other ptr (i + 1) bs (wrapping_add ptr i) s1 s'
                  (λ j le lt. apart ptr i j (omega arith) (omega arith)) rest
                ∙ write_byte_self (wrapping_add ptr i) b s s1 whole w1)
              (user_bytes ptr (i + 1) bs s1 s'
                (stored-WholePages (wrapping_add ptr i) b s s1 whole w1) (omega arith) rest)
      ]

  deliver-resumes :
      (bytes : List ℕ) (regs regs' : SyscallRegs) (m m' : Machine pg)
      → WholePages m.space
      → length bytes ≤ page_size
      → deliver pg bytes regs m ≡ resumes regs' m'
      → (regs'.rax ≡ length bytes)
        × (m'.kernel ≡ m.kernel)
        × (read_user pg regs.rsi 0 (length bytes) m'.space ≡ some bytes)
  unfolding deliver
  deliver-resumes bytes regs regs' m m' whole fits e =
      elim (Option-cases (write_user pg regs.rsi 0 bytes m.space)) [
        | inl n ↦ absurd (ground arith)
        | inr (s, w) ↦
            let to : record m { space = s } ≡ m' = ground arith in
            (
              ground arith,
              ap (λ t. t.kernel) (sym to),
              ap (λ t. read_user pg regs.rsi 0 (length bytes) t.space) (sym to)
                  ∙ user_bytes regs.rsi 0 bytes m.space s whole fits w,
            )
      ]

  -- A read call of an active process for which read_fd() has bytes, where it goes back to its caller,
  -- answers with their number, which is at most the length asked for and at most MAX_FD_IO_LEN, leaves
  -- the tables as read_fd() leaves them, and has the caller find just those bytes at its pointer,
  -- even across pages and where two pages of the caller share a frame. Pages have 4096 bytes.
  pub read_call-bytes :
      (child_runs : ℕ → ℕ → Machine pg → Machine pg) (regs regs' : SyscallRegs) (m m' : Machine pg)
      (bytes : List ℕ)
      → WholePages m.space
      → m.active ≢ zero
      → regs.rax ≡ 4
      → (read_fd m.active regs.rdi (capped max_fd_io_len regs.rdx) m.kernel).0 ≡ some bytes
      → syscall_dispatch pg child_runs regs m ≡ resumes regs' m'
      → (regs'.rax ≡ length bytes)
        × (length bytes ≤ regs.rdx)
        × (length bytes ≤ max_fd_io_len)
        × (m'.kernel ≡ (read_fd m.active regs.rdi (capped max_fd_io_len regs.rdx) m.kernel).1)
        × (read_user pg regs.rsi 0 (length bytes) m'.space ≡ some bytes)
  unfolding syscall_dispatch read_call
  read_call-bytes child_runs regs regs' m m' bytes whole nz four got e =
      let k = (read_fd m.active regs.rdi (capped max_fd_io_len regs.rdx) m.kernel).1 in
      let few =
        read_fd-AtMost m.active regs.rdi (capped max_fd_io_len regs.rdx) m.kernel bytes got in
      let cap : capped max_fd_io_len regs.rdx ≤ max_fd_io_len = ground arith in
      let asked : capped max_fd_io_len regs.rdx ≤ regs.rdx = ground arith in
      let there : deliver pg bytes regs (with_kernel pg k m) ≡ resumes regs' m' = ground arith in
      let (rax, kernel, user) =
        deliver-resumes bytes regs regs' (with_kernel pg k m) m' whole (omega arith) there in
      (rax, omega arith, omega arith, kernel, user)
