-- ===== src/Days.antt =====
-- db/aggregate.rs: the local days of a span of time. The calendar is chrono's, in the machine's time
-- zone, and an argument; an instant is a number of milliseconds, in the range of chrono's dates.
pub mod Bounds
pub mod Utc
mod Tests
use que_qiao_router.Base.{ℕ, Bool, Option, none, some, List, [], ◌∷◌, ◌++◌, if◌then◌else◌, ◌>>=◌}
use que_qiao_router.Base.Int.{ℤ, ltb_ℤ, leb_ℤ, eqb_ℤ, suc_ℤ, pred_ℤ}

pub record Calendar : Type 1 where
  pub D : Type 0
  -- `Local.timestamp_millis_opt(t).single()`.
  pub timestamp_millis : ℤ → Option D
  -- `d.checked_add_signed(chrono::Duration::days(1))`.
  pub add_day : D → Option D
  -- `Local.with_ymd_and_hms(year, month, day, 0, 0, 0).single()` of its date, in milliseconds.
  pub midnight : D → Option ℤ

module _ (calendar : Calendar) where
  open calendar use {timestamp_millis, add_day, midnight}

  unfoldable pub local_day_ms : ℤ → Option ℤ
  local_day_ms t = timestamp_millis t >>= midnight

  unfoldable pub next_local_day : ℤ → Option ℤ
  next_local_day day = timestamp_millis day >>= λ d. add_day d >>= midnight

  -- The day of `to` ends with it, or `to` is cut from the full days.
  unfoldable pub full_day_bounds : ℤ → ℤ → Option (ℤ × ℤ)
  unfolding local_day_ms next_local_day
  full_day_bounds from to = local_day_ms from >>= λ from_day.
      (if eqb_ℤ from from_day then some from_day else next_local_day from_day) >>= λ first_full.
      local_day_ms to >>= λ to_day. next_local_day to_day >>= λ to_day_end.
      some (first_full, if leb_ℤ to_day_end (suc_ℤ to) then to_day_end else to_day)

abbrev pub windows_before : ℤ → ℤ → List (ℤ × ℤ)
windows_before from first_full =
    if ltb_ℤ from first_full then (from, pred_ℤ first_full) ∷ [] else []

abbrev pub windows_after : ℤ → ℤ → List (ℤ × ℤ)
windows_after to full_end = if leb_ℤ full_end to then (full_end, to) ∷ [] else []

unfoldable pub correction_windows : ℤ → ℤ → ℤ → ℤ → List (ℤ × ℤ)
correction_windows from to first_full full_end =
    windows_before from first_full ++ windows_after to full_end
