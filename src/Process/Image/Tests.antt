-- ===== src/Process/Image/Tests.antt =====
-- An executable of one segment of two pages, with its entry at the start.
use spikeling_os.Base.{ℕ, ◌<◌, ◌≤◌, ◌≡◌, refl, List, [], ◌∷◌, some, none, true, length, any, arith}
use spikeling_os.Base.Result.{ok}
use spikeling_os.Elf.{ProgramSegment, max_load_segments}
use spikeling_os.Process.Space.{user_code_addr}
use spikeling_os.Process.Image.{
  max_total_elf_pages, holds_entry, check_pages, check_segment, check_segments, check_image,
}
use spikeling_os.Process.Image.Private.{AllPrivate, sum_pages, check_image-AllPrivate}

abbrev at_address : ℕ → ProgramSegment
at_address vaddr = record { vaddr = vaddr; offset = 4096; filesz = 5000; memsz = 6000; flags = 5 }

abbrev program : List ProgramSegment
program = at_address user_code_addr ∷ []

program_checked : check_image user_code_addr program ≡ some (ok 2)
unfolding check_image check_segments check_segment check_pages any
program_checked = refl

-- A second segment at an address that is not canonical halts the kernel.
stray_panics :
    check_image user_code_addr (at_address user_code_addr ∷ at_address 0x8000_0000_0000 ∷ []) ≡ none
unfolding check_image check_segments check_segment check_pages any
stray_panics = refl

check_image-AllPrivate_example :
    (user_code_addr ≡ user_code_addr)
    × (0 < length program)
    × (length program ≤ max_load_segments)
    × (any (holds_entry user_code_addr) program ≡ true)
    × (2 ≡ sum_pages program)
    × (2 ≤ max_total_elf_pages)
    × AllPrivate program
check_image-AllPrivate_example =
    check_image-AllPrivate user_code_addr program 2 (omega arith, tt) program_checked
