-- ===== src/Days/Tests.antt =====
-- Local days (db/aggregate.rs) in two calendars.
use Prim.Native.Nat.{◌/◌}
use que_qiao_router.Base.{ℕ, ◌+◌, ◌-◌, ◌*◌, ◌≡◌, refl, some, ltb, if◌then◌else◌}
use que_qiao_router.Base.Int.{pos}
use que_qiao_router.Days.{Calendar, local_day_ms, next_local_day, full_day_bounds}
use que_qiao_router.Days.Bounds.{day_ms, FullDays, full_day_bounds-FullDays}
use que_qiao_router.Days.Utc.{since_epoch, utc, utc-IsCalendar}

-- The clock is put back on the first day, which has 25 hours.
abbrev long_day : Calendar
long_day = record {
  D = ℕ;
  timestamp_millis = since_epoch;
  add_day = λ n. some (n + day_ms);
  midnight = λ n.
      some (if ltb n 90000000 then pos 0 else pos (90000000 + (n - 90000000) / day_ms * day_ms));
}

-- The day after it is that day itself, and a span that begins in it has its first full day before.
long_day_next : next_local_day long_day (pos 0) ≡ some (pos 0)
unfolding next_local_day
long_day_next = refl

long_day_bounds :
    full_day_bounds long_day (pos 3600000) (pos 176399999) ≡ some (pos 0, pos 176400000)
unfolding full_day_bounds local_day_ms next_local_day
long_day_bounds = refl

two_days : full_day_bounds utc (pos 5) (pos 259200000) ≡ some (pos 86400000, pos 259200000)
unfolding full_day_bounds local_day_ms next_local_day
two_days = refl

full_day_bounds-FullDays_example :
    FullDays utc utc-IsCalendar (pos 5) (pos 259200000) (pos 86400000) (pos 259200000)
full_day_bounds-FullDays_example =
    full_day_bounds-FullDays utc utc-IsCalendar (pos 5) (pos 259200000) (pos 86400000)
      (pos 259200000) two_days
