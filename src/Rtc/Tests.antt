-- ===== src/Rtc/Tests.antt =====
-- Readings of the clock of kernel/src/rtc.rs.
use spikeling_os.Base.{ℕ, ◌+◌, List, [], ◌∷◌, get_or, ◌≡◌, refl, some, arith}
use spikeling_os.Rtc.{
  Clock, Fields, wait, read_fields, same_fields, settle, decode, decode_hour, bcd_to_bin, now,
}
use spikeling_os.Rtc.Decode.{
  to_bcd, IsDate, bcd_registers, decode-bcd_registers, decode_hour-afternoon,
}
use spikeling_os.Rtc.Settle.{Agreed, now-agrees, now-still}

-- 2026-11-26 23:59:58, in BCD and 24-hour mode.
abbrev registers : List ℕ
registers = 0x58 ∷ 0 ∷ 0x59 ∷ 0 ∷ 0x23 ∷ 0 ∷ 0 ∷ 0x26 ∷ 0x11 ∷ 0x26 ∷ 0 ∷ 0x02 ∷ []

abbrev frozen : Clock
frozen t reg = get_or registers reg 0

abbrev date : Fields
date = record { second = 58; minute = 59; hour = 23; day = 26; month = 11; year = 26 }

frozen-now : now 2 frozen 0 ≡ some (record date { year = 2026 })
unfolding now wait settle same_fields decode decode_hour bcd_to_bin
frozen-now = refl

date-IsDate : IsDate date
date-IsDate = record {
  second_in = omega arith;
  minute_in = omega arith;
  hour_in = omega arith;
  day_in = omega arith;
  month_in = omega arith;
  year_in = omega arith;
}

decode-bcd_registers_example : decode 2 (bcd_registers date) ≡ record date { year = 2000 + 26 }
decode-bcd_registers_example = decode-bcd_registers 2 date date-IsDate refl refl

decode_hour-afternoon_example :
    (decode_hour 0 (to_bcd 3 + 128) ≡ 3) × (decode_hour 0 (to_bcd 3) ≡ 3)
decode_hour-afternoon_example = decode_hour-afternoon 0 3 refl refl (omega arith) (omega arith)

now-agrees_example :
    (f : Fields) × (u : ℕ) × Agreed frozen f u
    × (record date { year = 2026 } ≡ decode (frozen u 0x0b) f)
now-agrees_example = now-agrees 2 frozen 0 (record date { year = 2026 }) frozen-now

now-still_example : now 1 frozen 0 ≡ some (decode (frozen 0 0x0b) (read_fields frozen 0))
now-still_example = now-still frozen (λ a b reg. refl) 0 0 refl
