-- ===== src/Elf/Layout.antt =====
-- kernel/src/elf.rs: the ELF64 layout, said without the parser, and one header of the table as the
-- parser reads it.
use spikeling_os.Base.{
  ℕ, zero, suc, ◌+◌, ◌≤◌, ◌<◌, ◌==◌, leb, ltb, ◌≡◌, refl, sym, ap, ◌∙◌, List, [], ◌∷◌, ◌++◌, Bool,
  true, false, arith, if◌then◌else◌, length, checked_add,
}
use spikeling_os.Base.Result.{Result, ok, ◌>>=◌, ◌>>◌, guard, ok_or, bind-ok, ok_or-ok}
use spikeling_os.Elf.{
  ElfError, memory_below_file, segment_overflow, segment_past_end, too_many_segments,
  ProgramSegment, pt_load, phdr_size, max_load_segments, field, read_field, load_header, header,
}

-- A segment whose bytes are in the file and fit in the memory that it asks for.
pub record IsLoadable (image : List ℕ) (s : ProgramSegment) : Type 0 where
  pub fits : s.filesz ≤ s.memsz
  pub in_file : s.offset + s.filesz ≤ length image

abbrev pub AllLoadable : List ℕ → List ProgramSegment → Type 0
AllLoadable image [] = Unit {0}
AllLoadable image (s ∷ ss) = IsLoadable image s × AllLoadable image ss

-- The program header at an offset, by the layout of Elf64_Phdr.
abbrev pub segment_at : List ℕ → ℕ → ProgramSegment
segment_at image off = record {
  vaddr = field 8 image (off + 16);
  offset = field 8 image (off + 8);
  filesz = field 8 image (off + 32);
  memsz = field 8 image (off + 40);
  flags = field 4 image (off + 4);
}

-- The PT_LOAD entries of a table of `n` headers, in their order.
abbrev pub load_entries : List ℕ → ℕ → ℕ → List ProgramSegment
load_entries image off zero = []
load_entries image off (suc n) =
    let rest = load_entries image (off + phdr_size) n in
    if field 4 image off == pt_load then segment_at image off ∷ rest else rest

-- What a read returns is the field.
pub read_field-ok :
    (width : ℕ) (image : List ℕ) (off : ℕ) {v : ℕ}
    → read_field width image off ≡ ok v
    → v ≡ field width image off
unfolding read_field
read_field-ok width image off h = ground arith

-- A read that goes well, and what follows it.
pub read-then :
    {A : Type 0} (width : ℕ) (image : List ℕ) (off : ℕ) (f : ℕ → Result ElfError A) {a : A}
    → (read_field width image off >>= f) ≡ ok a
    → f (field width image off) ≡ ok a
read-then width image off f h =
    let (v, e, k) = bind-ok (read_field width image off) f h in
    ap f (sym (read_field-ok width image off e)) ∙ k

pub guard-then :
    {A : Type 0} (test : Bool) (e : ElfError) (m : Result ElfError A) {a : A}
    → (guard test e >> m) ≡ ok a
    → (test ≡ true) × (m ≡ ok a)
guard-then true e m h = (refl, h)
guard-then false e m h = cc

pub load_header-ok :
    (image : List ℕ) (off : ℕ) (segments more : List ProgramSegment)
    → load_header image off segments ≡ ok more
    → (more ≡ segments ++ segment_at image off ∷ [])
      × IsLoadable image (segment_at image off)
      × (length segments < max_load_segments)
unfolding load_header
load_header-ok image off segments more h0 =
    let s = segment_at image off in
    let h1 = read-then 4 image (off + 4) _ h0 in
    let h2 = read-then 8 image (off + 8) _ h1 in
    let h3 = read-then 8 image (off + 16) _ h2 in
    let h4 = read-then 8 image (off + 32) _ h3 in
    let h5 = read-then 8 image (off + 40) _ h4 in
    let (fits, h6) = guard-then (leb s.filesz s.memsz) memory_below_file _ h5 in
    let (end, sum, h7) = bind-ok (ok_or (checked_add s.offset s.filesz) segment_overflow) _ h6 in
    let total = ok_or-ok (checked_add s.offset s.filesz) segment_overflow sum in
    let (inside, h8) = guard-then (leb end (length image)) segment_past_end _ h7 in
    let (room, h9) = guard-then (ltb (length segments) max_load_segments) too_many_segments _ h8 in
    (cc, record { fits = ground arith; in_file = ground arith }, ground arith)

pub load_header-at :
    (image : List ℕ) (off : ℕ) (segments more : List ProgramSegment)
    → header image off segments ≡ ok more
    → (field 4 image off == pt_load) ≡ true
    → (more ≡ segments ++ segment_at image off ∷ [])
      × IsLoadable image (segment_at image off)
      × (length segments < max_load_segments)
unfolding header
load_header-at image off segments more h load =
    let loaded = read-then 4 image off _ h in
    load_header-ok image off segments more (rw load at loaded)

pub ok-injective : {A : Type 0} {a b : A} → ◌≡◌ {A = Result ElfError A} (ok a) (ok b) → b ≡ a
ok-injective h = cc

pub header-skipped :
    (image : List ℕ) (off : ℕ) (segments more : List ProgramSegment)
    → header image off segments ≡ ok more
    → (field 4 image off == pt_load) ≡ false
    → more ≡ segments
unfolding header
header-skipped image off segments more h other =
    let skipped = read-then 4 image off _ h in ok-injective (rw other at skipped)

pub AllLoadable-append :
    (image : List ℕ) (ss : List ProgramSegment) (s : ProgramSegment)
    → AllLoadable image ss
    → IsLoadable image s
    → AllLoadable image (ss ++ s ∷ [])
AllLoadable-append image [] s h l = (l, tt)
AllLoadable-append image (t ∷ ts) s h l = (h.0, AllLoadable-append image ts s h.1 l)

pub load_entries-load :
    (image : List ℕ) (off n : ℕ)
    → (field 4 image off == pt_load) ≡ true
    → load_entries image off (suc n) ≡ segment_at image off ∷ load_entries image (off + phdr_size) n
load_entries-load image off n e = rw e refl

pub load_entries-skip :
    (image : List ℕ) (off n : ℕ)
    → (field 4 image off == pt_load) ≡ false
    → load_entries image off (suc n) ≡ load_entries image (off + phdr_size) n
load_entries-skip image off n e = rw e refl
