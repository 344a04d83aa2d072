-- ===== src/Rtc/Decode.antt =====
-- kernel/src/rtc.rs: the conversion of the registers.
use spikeling_os.Base.{ℕ, ◌+◌, ◌*◌, ◌/◌, ◌%◌, ◌≤◌, ◌<◌, ◌≡◌, arith, true, false}
use spikeling_os.Rtc.{Fields, bcd_to_bin, is_bcd, is_12h, decode_hour, decode}

-- The byte that holds a number below 100 in BCD.
abbrev pub to_bcd : ℕ → ℕ
to_bcd n = (n / 10) * 16 + n % 10

bcd_to_bin-to_bcd : (n : ℕ) → n < 100 → bcd_to_bin (to_bcd n) ≡ n
unfolding bcd_to_bin
bcd_to_bin-to_bcd n h = omega arith

-- A date and time whose parts are in range.
pub record IsDate (f : Fields) : Type 0 where
  pub second_in : f.second < 60
  pub minute_in : f.minute < 60
  pub hour_in : f.hour < 24
  pub day_in : f.day < 32
  pub month_in : f.month < 13
  pub year_in : f.year < 100

-- What a clock in BCD and 24-hour mode holds.
abbrev pub bcd_registers : Fields → Fields
bcd_registers f = record {
  second = to_bcd f.second;
  minute = to_bcd f.minute;
  hour = to_bcd f.hour;
  day = to_bcd f.day;
  month = to_bcd f.month;
  year = to_bcd f.year;
}

-- From a clock in BCD and 24-hour mode every date and time of the years 2000 to 2099 is decoded as it
-- is.
pub decode-bcd_registers :
    (status_b : ℕ) (f : Fields)
    → IsDate f
    → is_bcd status_b ≡ true
    → is_12h status_b ≡ false
    → decode status_b (bcd_registers f) ≡ record f { year = 2000 + f.year }
unfolding decode decode_hour bcd_to_bin
decode-bcd_registers status_b f d bcd full = ground arith

-- In BCD and 12-hour mode the hours after noon are decoded as those of the morning: the flag in bit 7
-- is masked off before it is tested.
pub decode_hour-afternoon :
    (status_b hour : ℕ)
    → is_bcd status_b ≡ true
    → is_12h status_b ≡ true
    → 1 ≤ hour
    → hour ≤ 12
    → (decode_hour status_b (to_bcd hour + 128) ≡ hour)
      × (decode_hour status_b (to_bcd hour) ≡ hour)
unfolding decode_hour bcd_to_bin
decode_hour-afternoon status_b hour bcd half low high = ground arith
