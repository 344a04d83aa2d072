-- ===== src/Elf/Safe.antt =====
-- kernel/src/elf.rs: no read of parse() is out of the file's range, whatever the file is.
use spikeling_os.Base.{
  ℕ, zero, suc, ◌+◌, ◌*◌, ◌≤◌, if◌then◌else◌, ◌==◌, leb, ltb, ◌≡◌, ◌≢◌, refl, List, [], Option,
  none, some, Bool, true, false, not, arith, length, take, bytes_eq, checked_add, checked_mul,
  subst, ap,
}
use spikeling_os.Base.Result.{Result, ok, err, ◌>>=◌, ◌>>◌, guard, ok_or}
use spikeling_os.Elf.{
  ElfError, file_too_small, bad_magic, out_of_bounds, memory_below_file, segment_overflow,
  segment_past_end, too_many_segments, table_size_overflow, table_end_overflow, table_past_end,
  no_segments, not_class64, not_little_endian, not_executable, not_x86_64, no_program_headers,
  odd_header_size, ProgramSegment, elf_magic, elf_class64, elf_data2lsb, et_exec, em_x86_64,
  pt_load, ehdr_size, phdr_size, max_load_segments, field, read_field, load_header, header, headers,
  is_empty, parse_table, parse,
}

abbrev is_panic : ElfError → Bool
is_panic out_of_bounds = true
is_panic _ = false

abbrev IsSafe {ℓ} : {A : Type ℓ} → Result ElfError A → Type 0
IsSafe (ok a) = Unit {0}
IsSafe (err e) = is_panic e ≡ false

module _ {ℓ} {A : Type ℓ} where
  guard-IsSafe :
      (test : Bool) (e : ElfError) (m : Result ElfError A)
      → is_panic e ≡ false
      → (test ≡ true → IsSafe m)
      → IsSafe (guard test e >> m)
  guard-IsSafe true e m h s = s refl
  guard-IsSafe false e m h s = h

  ok_or-IsSafe :
      {B : Type 0} (o : Option B) (e : ElfError) (f : B → Result ElfError A)
      → is_panic e ≡ false
      → ((b : B) → o ≡ some b → IsSafe (f b))
      → IsSafe (ok_or o e >>= f)
  ok_or-IsSafe none e f h s = h
  ok_or-IsSafe (some b) e f h s = s b refl

  read_field-IsSafe :
      (width : ℕ) (image : List ℕ) (off : ℕ) (f : ℕ → Result ElfError A)
      → off + width ≤ length image
      → ((v : ℕ) → IsSafe (f v))
      → IsSafe (read_field width image off >>= f)
  unfolding read_field
  read_field-IsSafe width image off f h s =
      subst (λ r. IsSafe (r >>= f)) {x = ok (field width image off)} (ground arith)
        (s (field width image off))

load_header-IsSafe :
    (image : List ℕ) (off : ℕ) (segments : List ProgramSegment)
    → off + phdr_size ≤ length image
    → IsSafe (load_header image off segments)
unfolding load_header
load_header-IsSafe image off segments h =
    read_field-IsSafe 4 image (off + 4) _ (omega arith) λ flags.
      read_field-IsSafe 8 image (off + 8) _ (omega arith) λ offset.
        read_field-IsSafe 8 image (off + 16) _ (omega arith) λ vaddr.
          read_field-IsSafe 8 image (off + 32) _ (omega arith) λ filesz.
            read_field-IsSafe 8 image (off + 40) _ (omega arith) λ memsz.
              guard-IsSafe (leb filesz memsz) memory_below_file _ refl λ _.
                ok_or-IsSafe (checked_add offset filesz) segment_overflow _ refl λ seg_file_end _.
                  guard-IsSafe (leb seg_file_end (length image)) segment_past_end _ refl λ _.
                    guard-IsSafe (ltb (length segments) max_load_segments) too_many_segments _ refl
                      λ _. tt

pick-IsSafe :
    {A : Type 0} (b : Bool) (m n : Result ElfError A)
    → IsSafe m
    → IsSafe n
    → IsSafe (if b then m else n)
pick-IsSafe true m n s t = s
pick-IsSafe false m n s t = t

header-IsSafe :
    (image : List ℕ) (off : ℕ) (segments : List ProgramSegment)
    → off + phdr_size ≤ length image
    → IsSafe (header image off segments)
unfolding header
header-IsSafe image off segments h = read_field-IsSafe 4 image off _ (omega arith) λ p_type.
    pick-IsSafe (p_type == pt_load) (load_header image off segments) (ok segments)
      (load_header-IsSafe image off segments h) tt

chain-IsSafe :
    {A B : Type 0} (m : Result ElfError A) (f : A → Result ElfError B)
    → IsSafe m
    → ((a : A) → IsSafe (f a))
    → IsSafe (m >>= f)
chain-IsSafe (ok a) f s t = t a
chain-IsSafe (err e) f s t = s

headers-IsSafe :
    (image : List ℕ) (phoff i n : ℕ) (segments : List ProgramSegment)
    → phoff + (i + n) * phdr_size ≤ length image
    → IsSafe (headers image phoff i n segments)
unfolding headers
headers-IsSafe image phoff i zero segments h = tt
headers-IsSafe image phoff i (suc n) segments h =
    chain-IsSafe (header image (phoff + i * phdr_size) segments) (headers image phoff (i + 1) n)
      (header-IsSafe image (phoff + i * phdr_size) segments (omega arith))
      (λ more. headers-IsSafe image phoff (i + 1) n more (omega arith))

parse_table-IsSafe :
    (image : List ℕ) (entry phoff phnum : ℕ) → IsSafe (parse_table image entry phoff phnum)
unfolding parse_table
parse_table-IsSafe image entry phoff phnum =
    ok_or-IsSafe (checked_mul phdr_size phnum) table_size_overflow _ refl λ size s.
      ok_or-IsSafe (checked_add phoff size) table_end_overflow _ refl λ end e.
        guard-IsSafe (leb end (length image)) table_past_end _ refl λ inside.
          chain-IsSafe (headers image phoff 0 phnum []) _
            (headers-IsSafe image phoff 0 phnum [] (fits size end s e inside))
            λ segments. guard-IsSafe (not (is_empty segments)) no_segments _ refl λ _. tt
  where
    fits :
        (size end : ℕ)
        → checked_mul phdr_size phnum ≡ some size
        → checked_add phoff size ≡ some end
        → leb end (length image) ≡ true
        → phoff + (0 + phnum) * phdr_size ≤ length image
    fits size end s e inside = ground arith

parse-IsSafe : (image : List ℕ) → IsSafe (parse image)
unfolding parse
parse-IsSafe image = guard-IsSafe (leb ehdr_size (length image)) file_too_small _ refl λ big.
    let size : 64 ≤ length image = ground arith in
    guard-IsSafe (bytes_eq (take 4 image) elf_magic) bad_magic _ refl λ _.
      read_field-IsSafe 1 image 4 _ (omega arith) λ class.
        guard-IsSafe (class == elf_class64) not_class64 _ refl λ _.
          read_field-IsSafe 1 image 5 _ (omega arith) λ order.
            guard-IsSafe (order == elf_data2lsb) not_little_endian _ refl λ _.
              read_field-IsSafe 2 image 16 _ (omega arith) λ e_type.
                read_field-IsSafe 2 image 18 _ (omega arith) λ e_machine.
                  read_field-IsSafe 8 image 24 _ (omega arith) λ e_entry.
                    read_field-IsSafe 8 image 32 _ (omega arith) λ e_phoff.
                      read_field-IsSafe 2 image 54 _ (omega arith) λ e_phentsize.
                        read_field-IsSafe 2 image 56 _ (omega arith) λ e_phnum.
                          guard-IsSafe (e_type == et_exec) not_executable _ refl λ _.
                            guard-IsSafe (e_machine == em_x86_64) not_x86_64 _ refl λ _.
                              guard-IsSafe (not (e_phnum == 0)) no_program_headers _ refl λ _.
                                guard-IsSafe (e_phentsize == phdr_size) odd_header_size _ refl
                                  λ _. parse_table-IsSafe image e_entry e_phoff e_phnum

safe-ne : {A : Type 0} (r : Result ElfError A) → IsSafe r → r ≢ err out_of_bounds
safe-ne (ok a) s e = cc
safe-ne (err e) s q =
    let same : e ≡ out_of_bounds = cc in let panics : is_panic e ≡ true = ap is_panic same in cc

-- Whatever bytes a file has, parse() answers with an image or with one of its messages: it reads no
-- byte outside of the file, however it is truncated and whatever offsets and counts it claims.
pub parse-in_bounds : (image : List ℕ) → parse image ≢ err out_of_bounds
parse-in_bounds image = safe-ne (parse image) (parse-IsSafe image)
