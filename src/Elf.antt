-- ===== src/Elf.antt =====
-- kernel/src/elf.rs: the parser of ELF64 executables. A file is its bytes. An index out of range,
-- which panics in Rust, is the error `out_of_bounds`, and `Elf.Safe` shows that there is none.
-- u64 and usize are the same numbers here, and sums that no check guards stay below the length of
-- the file once the program header table has been found to lie in it.
pub mod Safe
pub mod Layout
pub mod Sound
mod Tests
use spikeling_os.Base.{
  ℕ, zero, suc, ◌+◌, ◌*◌, ◌==◌, leb, ltb, List, [], ◌∷◌, ◌++◌, Bool, not, if◌then◌else◌, length,
  take, drop, get_elem?, from_le_bytes, bytes_eq, checked_add, checked_mul,
}
use spikeling_os.Base.Result.{Result, ok, err, ◌>>=◌, ◌>>◌, guard, ok_or}

-- One constructor per message of parse().
pub data ElfError : Type 0 where
  file_too_small bad_magic not_class64 not_little_endian : ElfError
  not_executable not_x86_64 no_program_headers odd_header_size : ElfError
  table_size_overflow table_end_overflow table_past_end : ElfError
  memory_below_file segment_overflow segment_past_end too_many_segments no_segments : ElfError
  out_of_bounds : ElfError

abbrev pub elf_magic : List ℕ
elf_magic = 0x7f ∷ b'E' ∷ b'L' ∷ b'F' ∷ []

abbrev pub elf_class64 : ℕ
elf_class64 = 2

abbrev pub elf_data2lsb : ℕ
elf_data2lsb = 1

abbrev pub et_exec : ℕ
et_exec = 2

abbrev pub em_x86_64 : ℕ
em_x86_64 = 0x3e

abbrev pub pt_load : ℕ
pt_load = 1

abbrev pub ehdr_size : ℕ
ehdr_size = 64

abbrev pub phdr_size : ℕ
phdr_size = 56

abbrev pub max_load_segments : ℕ
max_load_segments = 8

pub record ProgramSegment : Type 0 where
  pub vaddr : ℕ
  pub offset : ℕ
  pub filesz : ℕ
  pub memsz : ℕ
  pub flags : ℕ

pub record ElfImage : Type 0 where
  pub entry : ℕ
  pub segments : List ProgramSegment

abbrev pub field : ℕ → List ℕ → ℕ → ℕ
field width image off = from_le_bytes width (drop off image)

-- `read_u16`, `read_u32` and `read_u64` are the readers of 2, 4 and 8 bytes.
unfoldable pub read_field : ℕ → List ℕ → ℕ → Result ElfError ℕ
read_field width image off =
    if leb (off + width) (length image) then ok (field width image off) else err out_of_bounds

abbrev pub read_u16 : List ℕ → ℕ → Result ElfError ℕ
read_u16 = read_field 2

abbrev pub read_u32 : List ℕ → ℕ → Result ElfError ℕ
read_u32 = read_field 4

abbrev pub read_u64 : List ℕ → ℕ → Result ElfError ℕ
read_u64 = read_field 8

-- The rest of the loop's body, for a header of type PT_LOAD.
unfoldable pub load_header :
    List ℕ → ℕ → List ProgramSegment → Result ElfError (List ProgramSegment)
load_header image off segments = do
  p_flags ← read_u32 image (off + 4)
  p_offset ← read_u64 image (off + 8)
  p_vaddr ← read_u64 image (off + 16)
  p_filesz ← read_u64 image (off + 32)
  p_memsz ← read_u64 image (off + 40)
  guard (leb p_filesz p_memsz) memory_below_file
  seg_file_end ← ok_or (checked_add p_offset p_filesz) segment_overflow
  guard (leb seg_file_end (length image)) segment_past_end
  guard (ltb (length segments) max_load_segments) too_many_segments
  let segment : ProgramSegment = record {
    vaddr = p_vaddr;
    offset = p_offset;
    filesz = p_filesz;
    memsz = p_memsz;
    flags = p_flags;
  }
  ok (segments ++ segment ∷ [])

unfoldable pub header : List ℕ → ℕ → List ProgramSegment → Result ElfError (List ProgramSegment)
header image off segments = do
  p_type ← read_u32 image off
  if p_type == pt_load then load_header image off segments else ok segments

-- `for i in 0..phnum`, from header `i` on with `n` to go.
unfoldable pub headers :
    List ℕ → ℕ → ℕ → ℕ → List ProgramSegment → Result ElfError (List ProgramSegment)
headers image phoff i zero segments = ok segments
headers image phoff i (suc n) segments = do
  more ← header image (phoff + i * phdr_size) segments
  headers image phoff (i + 1) n more

abbrev pub is_empty : List ProgramSegment → Bool
is_empty [] = Bool.true
is_empty (s ∷ ss) = Bool.false

-- The program header table, once the file's header has been read.
unfoldable pub parse_table : List ℕ → ℕ → ℕ → ℕ → Result ElfError ElfImage
parse_table image e_entry phoff phnum = do
  phtable_bytes ← ok_or (checked_mul phdr_size phnum) table_size_overflow
  phtable_end ← ok_or (checked_add phoff phtable_bytes) table_end_overflow
  guard (leb phtable_end (length image)) table_past_end
  segments ← headers image phoff 0 phnum []
  guard (not (is_empty segments)) no_segments
  ok (record { entry = e_entry; segments = segments })

unfoldable pub parse : List ℕ → Result ElfError ElfImage
parse image = do
  guard (leb ehdr_size (length image)) file_too_small
  guard (bytes_eq (take 4 image) elf_magic) bad_magic
  class ← read_field 1 image 4
  guard (class == elf_class64) not_class64
  data_order ← read_field 1 image 5
  guard (data_order == elf_data2lsb) not_little_endian
  e_type ← read_u16 image 16
  e_machine ← read_u16 image 18
  e_entry ← read_u64 image 24
  e_phoff ← read_u64 image 32
  e_phentsize ← read_u16 image 54
  e_phnum ← read_u16 image 56
  guard (e_type == et_exec) not_executable
  guard (e_machine == em_x86_64) not_x86_64
  guard (not (e_phnum == 0)) no_program_headers
  guard (e_phentsize == phdr_size) odd_header_size
  parse_table image e_entry e_phoff e_phnum
