-- ===== src/Process/Image/Private.antt =====
-- kernel/src/process.rs: what the checks of create_process_from_elf() let through.
use spikeling_os.Base.{
  ℕ, zero, suc, ◌+◌, ◌-◌, ◌*◌, ◌/◌, ◌%◌, ◌^◌, ◌<◌, ◌≤◌, ◌≡◌, ◌≢◌, ◌⊎◌, refl, ltb, ◌==◌, not, List,
  [], ◌∷◌, Option, none, some, Bool, true, false, if◌then◌else◌, length, any, arith, Bool-cases,
  Option-cases, inl, inr, ap, ◌∙◌,
}
use spikeling_os.Base.Result.{Result, ok, err, Result-cases}
use spikeling_os.Elf.{ProgramSegment, max_load_segments}
use spikeling_os.Process.{page_size}
use spikeling_os.Process.Space.{user_code_addr, user_stack_addr, p4_index}
use spikeling_os.Process.Image.{
  max_pages_per_elf_segment, max_total_elf_pages, ImageError, wrong_entry, no_segments,
  too_many_segments, split_p4, entry_outside, unaligned_segment, empty_segment, segment_too_long,
  outside_slot, too_many_pages, is_canonical, page_count, holds_entry, check_pages, check_segment,
  check_segments, within_cap, check_image,
}

-- The bytes of a segment lie in the slot of the top-level table that is the process's own.
pub record IsPrivate (s : ProgramSegment) : Type 0 where
  pub aligned : s.vaddr % page_size ≡ 0
  pub from_slot : 170 * 2 ^ 39 ≤ s.vaddr
  pub to_slot : s.vaddr + page_count s * page_size ≤ 171 * 2 ^ 39
  pub few : page_count s ≤ max_pages_per_elf_segment

abbrev pub AllPrivate : List ProgramSegment → Type 0
AllPrivate [] = Unit {0}
AllPrivate (s ∷ ss) = IsPrivate s × AllPrivate ss

abbrev pub AllAddresses : List ProgramSegment → Type 0
AllAddresses [] = Unit {0}
AllAddresses (s ∷ ss) = (s.vaddr < 2 ^ 64) × AllAddresses ss

abbrev pub sum_pages : List ProgramSegment → ℕ
sum_pages [] = 0
sum_pages (s ∷ ss) = page_count s + sum_pages ss

-- A canonical address with the index of the process's slot lies in the slot.
slot_range :
    (va : ℕ)
    → va < 2 ^ 64
    → is_canonical va ≡ true
    → (p4_index va == p4_index user_code_addr) ≡ true
    → (170 * 2 ^ 39 ≤ va) × (va < 171 * 2 ^ 39)
slot_range va word canonical same =
    let index : (va / 2 ^ 39) % 512 ≡ 170 = ground (arith, same) in
    let low : (va < 2 ^ 47) ⊎ (2 ^ 64 - 2 ^ 47 ≤ va) = ground (arith, canonical) in
    (omega (arith, index, low), omega (arith, index, low))

page_passed :
    (va : ℕ) (rest : Option (Result ImageError (Unit {0})))
    → va < 2 ^ 64
    → (if is_canonical va
        then if p4_index va == p4_index user_code_addr then rest else some (err outside_slot)
        else none)
      ≡ some (ok tt)
    → (rest ≡ some (ok tt)) × (170 * 2 ^ 39 ≤ va) × (va < 171 * 2 ^ 39)
page_passed va rest word h = elim (Bool-cases (is_canonical va)) [
  | inl c ↦ elim (Bool-cases (p4_index va == p4_index user_code_addr)) [
    | inl q ↦ let (low, high) = slot_range va word c q in (rw (c, q) at h, low, high)
    | inr q ↦ absurd (let stop : some (err outside_slot) ≡ some (ok tt) = rw (c, q) at h in cc)
  ]
  | inr c ↦ absurd (let stop : none ≡ some (ok tt) = rw c at h in cc)
]

-- Every page that check_pages() has passed.
check_pages-slot :
    (vaddr i n j : ℕ)
    → check_pages vaddr i n ≡ some (ok tt)
    → j < n
    → (170 * 2 ^ 39 ≤ (vaddr + (i + j) * page_size) % 2 ^ 64)
      × ((vaddr + (i + j) * page_size) % 2 ^ 64 < 171 * 2 ^ 39)
unfolding check_pages
check_pages-slot vaddr i zero j h lt = absurd (omega arith)
check_pages-slot vaddr i (suc n) zero h lt =
    let (rest, low, high) =
      page_passed ((vaddr + i * page_size) % 2 ^ 64) (check_pages vaddr (i + 1) n) (omega arith)
        h in
    (omega (arith, low), omega (arith, high))
check_pages-slot vaddr i (suc n) (suc j) h lt =
    let (rest, low, high) =
      page_passed ((vaddr + i * page_size) % 2 ^ 64) (check_pages vaddr (i + 1) n) (omega arith)
        h in
    let (low', high') = check_pages-slot vaddr (i + 1) n j rest (omega arith) in
    (omega (arith, low'), omega (arith, high'))

pages-IsPrivate :
    (s : ProgramSegment)
    → s.vaddr < 2 ^ 64
    → s.vaddr % page_size ≡ 0
    → s.memsz ≢ 0
    → page_count s ≤ max_pages_per_elf_segment
    → check_pages s.vaddr 0 (page_count s) ≡ some (ok tt)
    → IsPrivate s
pages-IsPrivate s word aligned full few h =
    let (low, high) = check_pages-slot s.vaddr 0 (page_count s) 0 h (omega (arith, full)) in
    let (low', high') =
      check_pages-slot s.vaddr 0 (page_count s) (page_count s - 1) h (omega (arith, full)) in
    record {
      aligned = aligned;
      from_slot = omega (arith, low, word);
      to_slot = omega (arith, low, high, low', high', word, aligned, few);
      few = few;
    }

-- A check that was passed.
not_refused :
    {A : Type 0} (b : Bool) (e : ImageError) (r : Option (Result ImageError A)) {a : A}
    → (if b then some (err e) else r) ≡ some (ok a)
    → (b ≡ false) × (r ≡ some (ok a))
not_refused true e r {a} h = absurd (let stop : some (err e) ≡ some (ok a) = h in cc)
not_refused false e r h = (refl, h)

check_segment-IsPrivate :
    (s : ProgramSegment) → s.vaddr < 2 ^ 64 → check_segment s ≡ some (ok tt) → IsPrivate s
unfolding check_segment
check_segment-IsPrivate s word h =
    let (aligned, h1) = not_refused (not (s.vaddr % page_size == 0)) unaligned_segment _ h in
    let (full, h2) = not_refused (s.memsz == 0) empty_segment _ h1 in
    let (few, h3) =
      not_refused (ltb max_pages_per_elf_segment (page_count s)) segment_too_long _ h2 in
    pages-IsPrivate s word (ground (arith, aligned)) (ground (arith, full)) (ground (arith, few)) h3

check_segments-AllPrivate :
    (total : ℕ) (ss : List ProgramSegment) (sum : ℕ)
    → AllAddresses ss
    → check_segments total ss ≡ some (ok sum)
    → AllPrivate ss × (sum ≡ total + sum_pages ss)
unfolding check_segments
check_segments-AllPrivate total [] sum words h =
    let same : total ≡ sum = cc in (tt, omega (arith, same))
check_segments-AllPrivate total (s ∷ ss) sum words h = elim (Option-cases (check_segment s)) [
  | inl e ↦ absurd (let stop : none ≡ some (ok sum) = rw (check_segments, e) at h in cc)
  | inr (r, e) ↦ elim (Result-cases r) [
    | inl (u, q) ↦
        let passed : check_segment s ≡ some (ok tt) = e ∙ ap some q in
        let (private, counted) =
          check_segments-AllPrivate (total + page_count s) ss sum words.1
            (rw (check_segments, passed) at h) in
        ((check_segment-IsPrivate s words.0 passed, private), omega (arith, counted))
    | inr (x, q) ↦
        let failed : check_segment s ≡ some (err x) = e ∙ ap some q in
        absurd (let stop : some (err x) ≡ some (ok sum) = rw (check_segments, failed) at h in cc)
  ]
]

within_cap-ok :
    (r : Option (Result ImageError ℕ)) (sum : ℕ)
    → within_cap r ≡ some (ok sum)
    → (r ≡ some (ok sum)) × (sum ≤ max_total_elf_pages)
within_cap-ok none sum h = absurd cc
within_cap-ok (some (err e)) sum h = absurd (let stop : some (err e) ≡ some (ok sum) = h in cc)
within_cap-ok (some (ok total)) sum h =
    let (few, same) =
      not_refused (ltb max_total_elf_pages total) too_many_pages (some (ok total)) h in
    let equal : total ≡ sum = cc in (same, ground (arith, few, equal))

-- An executable that passes the checks starts at the fixed address, which one of its segments holds.
-- It has at least one segment and at most eight, which take the pages that are counted, sixteen at
-- most, and each segment begins on a page, takes at most four, and lies with its last page within
-- the 512 GiB that one entry of the top-level table covers, the one that the process does not share
-- with the kernel: no segment is mapped over an address of the kernel.
pub check_image-AllPrivate :
    (entry : ℕ) (segments : List ProgramSegment) (sum : ℕ)
    → AllAddresses segments
    → check_image entry segments ≡ some (ok sum)
    → (entry ≡ user_code_addr)
      × (0 < length segments)
      × (length segments ≤ max_load_segments)
      × (any (holds_entry entry) segments ≡ true)
      × (sum ≡ sum_pages segments)
      × (sum ≤ max_total_elf_pages)
      × AllPrivate segments
unfolding check_image
check_image-AllPrivate entry segments sum words h =
    let (e1, h1) = not_refused (not (entry == user_code_addr)) wrong_entry _ h in
    let (e2, h2) = not_refused (length segments == 0) no_segments _ h1 in
    let (e3, h3) = not_refused (ltb max_load_segments (length segments)) too_many_segments _ h2 in
    let (e4, h4) =
      not_refused (not (p4_index user_code_addr == p4_index user_stack_addr)) split_p4 _ h3 in
    let (e5, h5) = not_refused (not (any (holds_entry entry) segments)) entry_outside _ h4 in
    let (h6, few) = within_cap-ok (check_segments 0 segments) sum h5 in
    let (private, counted) = check_segments-AllPrivate 0 segments sum words h6 in
    (
      ground (arith, e1),
      ground (arith, e2),
      ground (arith, e3),
      ground (arith, e5),
      omega (arith, counted),
      few,
      private,
    )
