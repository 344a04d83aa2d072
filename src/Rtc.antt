-- ===== src/Rtc.antt =====
-- kernel/src/rtc.rs: the real-time clock. The hardware is a parameter: `clock t reg` is what the
-- `t`-th access to the ports finds in register `reg`. The waits and the loop of now() run on fuel.
-- A byte is below 256; a test of bit `2 ^ k` is written as a division.
pub mod Decode
pub mod Settle
mod Tests
use spikeling_os.Base.{
  ℕ, zero, suc, ◌+◌, ◌*◌, ◌/◌, ◌%◌, ◌==◌, ◌&&◌, Bool, not, Option, none, some, if◌then◌else◌,
}

abbrev pub Clock : Type 0
Clock = ℕ → ℕ → ℕ

-- The six registers, as read or as converted.
pub record Fields : Type 0 where
  pub second : ℕ
  pub minute : ℕ
  pub hour : ℕ
  pub day : ℕ
  pub month : ℕ
  pub year : ℕ

abbrev pub bit7 : ℕ → Bool
bit7 v = (v / 128) % 2 == 1

-- `while update_in_progress() {}`: the time of the access after the last one that the wait made.
unfoldable pub wait : ℕ → Clock → ℕ → Option ℕ
wait zero clock t = none
wait (suc fuel) clock t =
    let later = wait fuel clock (t + 1) in if bit7 (clock t 0x0a) then later else some (t + 1)

-- Six accesses, one after the other.
abbrev pub read_fields : Clock → ℕ → Fields
read_fields clock t = record {
  second = clock t 0x00;
  minute = clock (t + 1) 0x02;
  hour = clock (t + 2) 0x04;
  day = clock (t + 3) 0x07;
  month = clock (t + 4) 0x08;
  year = clock (t + 5) 0x09;
}

unfoldable pub same_fields : Fields → Fields → Bool
same_fields a b =
    (a.second == b.second)
    && ((a.minute == b.minute)
        && ((a.hour == b.hour)
            && ((a.day == b.day) && ((a.month == b.month) && (a.year == b.year)))))

-- The loop, with the fields read last; the time is that of the next access.
unfoldable pub settle : ℕ → Clock → ℕ → Fields → Option (Fields × ℕ)
settle zero clock t last = none
settle (suc fuel) clock t last = elim (wait (suc fuel) clock t) [
  | none ↦ none
  | some s ↦
      let next = read_fields clock s in
      if same_fields last next then some (last, s + 6) else settle fuel clock (s + 6) next
]

-- `(v & 0x0F) + ((v / 16) * 10)`
unfoldable pub bcd_to_bin : ℕ → ℕ
bcd_to_bin v = v % 16 + (v / 16) * 10

abbrev pub is_bcd : ℕ → Bool
is_bcd status_b = not ((status_b / 4) % 2 == 1)

abbrev pub is_12h : ℕ → Bool
is_12h status_b = not ((status_b / 2) % 2 == 1)

-- The hour after the conversion from BCD, if any, which masks bit 7 off.
abbrev pub converted_hour : ℕ → ℕ → ℕ
converted_hour status_b hour = if is_bcd status_b then bcd_to_bin (hour % 128) else hour

unfoldable pub decode_hour : ℕ → ℕ → ℕ
decode_hour status_b hour =
    let h = converted_hour status_b hour in
    if is_12h status_b && bit7 h then (h % 128) % 12 + 12 else h

abbrev pub converted : ℕ → ℕ → ℕ
converted status_b v = if is_bcd status_b then bcd_to_bin v else v

-- From the registers to a `DateTime`.
unfoldable pub decode : ℕ → Fields → Fields
decode status_b f = record {
  second = converted status_b f.second;
  minute = converted status_b f.minute;
  hour = decode_hour status_b f.hour;
  day = converted status_b f.day;
  month = converted status_b f.month;
  year = 2000 + converted status_b f.year;
}

-- `now()`: the wait, a first reading, the loop, and the status register read last.
unfoldable pub now : ℕ → Clock → ℕ → Option Fields
now fuel clock t = elim (wait fuel clock t) [
  | none ↦ none
  | some s ↦ elim (settle fuel clock (s + 6) (read_fields clock s)) [
    | none ↦ none
    | some (f, u) ↦ some (decode (clock u 0x0b) f)
  ]
]
