-- ===== src/Elf/Sound.antt =====
-- kernel/src/elf.rs: what holds of an image that parse() accepts.
use spikeling_os.Base.{
  ℕ, zero, suc, ◌+◌, ◌*◌, ◌≤◌, ◌==◌, leb, ◌≡◌, refl, sym, ap, ◌∙◌, List, [], ◌∷◌, ◌++◌, true, not,
  append-nil, subst, append_assoc, arith, length, length-append, take, bytes_eq, checked_add,
  checked_mul, Bool-cases, inl, inr,
}
use spikeling_os.Base.Result.{ok, ok_or, bind-ok, ok_or-ok}
use spikeling_os.Elf.{
  file_too_small, bad_magic, table_size_overflow, table_end_overflow, table_past_end, no_segments,
  not_class64, not_little_endian, not_executable, not_x86_64, no_program_headers, odd_header_size,
  ProgramSegment, ElfImage, elf_magic, elf_class64, elf_data2lsb, et_exec, em_x86_64, pt_load,
  ehdr_size, phdr_size, max_load_segments, field, header, headers, is_empty, parse_table, parse,
}
use spikeling_os.Elf.Layout.{
  AllLoadable, segment_at, load_entries, read-then, guard-then, load_header-at, ok-injective,
  header-skipped, AllLoadable-append, load_entries-load, load_entries-skip,
}

-- The loop appends the loadable entries of the headers that are left.
headers-ok :
    (image : List ℕ) (phoff i n : ℕ) (segments all : List ProgramSegment)
    → headers image phoff i n segments ≡ ok all
    → AllLoadable image segments
    → length segments ≤ max_load_segments
    → (all ≡ segments ++ load_entries image (phoff + i * phdr_size) n)
      × AllLoadable image all
      × (length all ≤ max_load_segments)
unfolding headers
headers-ok image phoff i zero segments all h loadable few =
    let same : segments ≡ all = cc in
    (sym same ∙ sym (append-nil segments), subst (AllLoadable image) same loadable, rw (← same) few)
headers-ok image phoff i (suc n) segments all h loadable few =
    let off = phoff + i * phdr_size in
    let (more, e, rest) = bind-ok (header image off segments) (headers image phoff (i + 1) n) h in
    let next : phoff + (i + 1) * phdr_size ≡ off + phdr_size = omega arith in
    elim (Bool-cases (field 4 image off == pt_load)) [
      | inl load ↦
          let (grown, good, room) = load_header-at image off segments more e load in
          let (all_of, all_good, bound) =
            headers-ok image phoff (i + 1) n more all rest
              (subst (AllLoadable image) (sym grown)
                (AllLoadable-append image segments (segment_at image off) loadable good))
              (rw (grown) (omega (arith, length-append segments (segment_at image off ∷ [])))) in
          (
            all_of
                ∙ ap (λ o. more ++ load_entries image o n) next
                ∙ ap (λ m. m ++ load_entries image (off + phdr_size) n) grown
                ∙ append_assoc segments (segment_at image off ∷ [])
                    (load_entries image (off + phdr_size) n)
                ∙ ap (λ r. segments ++ r) (sym (load_entries-load image off n load)),
            all_good,
            bound,
          )
      | inr other ↦
          let same = header-skipped image off segments more e other in
          let (all_of, all_good, bound) =
            headers-ok image phoff (i + 1) n more all rest
              (subst (AllLoadable image) (sym same) loadable) (rw same few) in
          (
            all_of
                ∙ ap (λ o. more ++ load_entries image o n) next
                ∙ ap (λ m. m ++ load_entries image (off + phdr_size) n) same
                ∙ ap (λ r. segments ++ r) (sym (load_entries-skip image off n other)),
            all_good,
            bound,
          )
    ]

parse_table-ok :
    (image : List ℕ) (entry phoff phnum : ℕ) (e : ElfImage)
    → parse_table image entry phoff phnum ≡ ok e
    → (e.entry ≡ entry)
      × (phoff + phdr_size * phnum ≤ length image)
      × (e.segments ≡ load_entries image phoff phnum)
      × AllLoadable image e.segments
      × (1 ≤ length e.segments)
      × (length e.segments ≤ max_load_segments)
unfolding parse_table
parse_table-ok image entry phoff phnum e h0 =
    let (size, s, h1) = bind-ok (ok_or (checked_mul phdr_size phnum) table_size_overflow) _ h0 in
    let (end, t, h2) = bind-ok (ok_or (checked_add phoff size) table_end_overflow) _ h1 in
    let (inside, h3) = guard-then (leb end (length image)) table_past_end _ h2 in
    let (all, headers_of, h4) = bind-ok (headers image phoff 0 phnum []) _ h3 in
    let (some_found, h5) = guard-then (not (is_empty all)) no_segments _ h4 in
    let result = ok-injective h5 in
    let mul = ok_or-ok (checked_mul phdr_size phnum) table_size_overflow s in
    let add = ok_or-ok (checked_add phoff size) table_end_overflow t in
    let (entries, loadable, few) =
      headers-ok image phoff 0 phnum [] all headers_of tt (omega arith) in
    rw result (
      refl,
      ground arith,
      entries ∙ ap (λ o. load_entries image o phnum) (omega arith),
      loadable,
      found all some_found,
      few,
    )
  where
    found : (all : List ProgramSegment) → not (is_empty all) ≡ true → 1 ≤ length all
    found [] h = cc
    found (s ∷ ss) h = omega arith

-- What parse() returns of a file that it accepts is what the ELF64 layout says of that file: the
-- entry point of its header, and every PT_LOAD entry of its program header table, none skipped, in
-- the table's order. The table lies in the file; there are 1 to 8 segments; and each has its bytes
-- in the file and no more of them than it has memory.
pub parse-ok :
    (image : List ℕ) (e : ElfImage)
    → parse image ≡ ok e
    → (e.entry ≡ field 8 image 24)
      × (field 8 image 32 + phdr_size * field 2 image 56 ≤ length image)
      × (e.segments ≡ load_entries image (field 8 image 32) (field 2 image 56))
      × AllLoadable image e.segments
      × (1 ≤ length e.segments)
      × (length e.segments ≤ max_load_segments)
unfolding parse
parse-ok image e h0 =
    let (_, h1) = guard-then (leb ehdr_size (length image)) file_too_small _ h0 in
    let (_, h2) = guard-then (bytes_eq (take 4 image) elf_magic) bad_magic _ h1 in
    let h3 = read-then 1 image 4 _ h2 in
    let (_, h4) = guard-then (field 1 image 4 == elf_class64) not_class64 _ h3 in
    let h5 = read-then 1 image 5 _ h4 in
    let (_, h6) = guard-then (field 1 image 5 == elf_data2lsb) not_little_endian _ h5 in
    let h7 = read-then 2 image 16 _ h6 in
    let h8 = read-then 2 image 18 _ h7 in
    let h9 = read-then 8 image 24 _ h8 in
    let h10 = read-then 8 image 32 _ h9 in
    let h11 = read-then 2 image 54 _ h10 in
    let h12 = read-then 2 image 56 _ h11 in
    let (_, h13) = guard-then (field 2 image 16 == et_exec) not_executable _ h12 in
    let (_, h14) = guard-then (field 2 image 18 == em_x86_64) not_x86_64 _ h13 in
    let (_, h15) = guard-then (not (field 2 image 56 == 0)) no_program_headers _ h14 in
    let (_, h16) = guard-then (field 2 image 54 == phdr_size) odd_header_size _ h15 in
    parse_table-ok image (field 8 image 24) (field 8 image 32) (field 2 image 56) e h16
