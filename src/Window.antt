-- ===== src/Window.antt =====
-- metrics/sliding_window.rs: the windows over recent measurements. Each operation holds the mutex
-- of its window and reads the clock once, so it is one function on the window at a time; times are
-- nanoseconds. The values are doubles, whose maximum and sum are arguments.
pub mod Recent
pub mod Series
mod Tests
use que_qiao_router.Base.{
  ℕ, ◌-◌, ◌*◌, String, Bool, true, false, Option, none, some, List, [], ◌∷◌, ◌++◌, ltb, leb,
  if◌then◌else◌, length, map, str_eq, lookup, insert, or_else,
}
use que_qiao_router.Config.{is_some}

pub record SlidingWindow (F : Type 0) : Type 0 where
  pub window_duration : ℕ
  pub samples : List (F × ℕ)

module _ {F : Type 0} where
  unfoldable pub new_window : ℕ → SlidingWindow F
  new_window duration = record { window_duration = duration; samples = [] }

  -- The loop that drops the samples at the front that are too old.
  unfoldable pub expire : ℕ → ℕ → List (F × ℕ) → List (F × ℕ)
  expire duration now [] = []
  expire duration now (s ∷ samples) =
      let rest = expire duration now samples in
      if leb duration (now - s.1) then rest else s ∷ samples

  unfoldable pub push : F → ℕ → SlidingWindow F → SlidingWindow F
  unfolding expire
  push value now w = record w {
    samples = expire w.window_duration now w.samples ++ (value, now) ∷ [];
  }

  unfoldable pub clean : ℕ → SlidingWindow F → SlidingWindow F
  unfolding expire
  clean now w = record w { samples = expire w.window_duration now w.samples }

  abbrev pub values : SlidingWindow F → List F
  values w = map (λ s. s.0) w.samples

  unfoldable pub count : ℕ → SlidingWindow F → ℕ × SlidingWindow F
  unfolding clean
  count now w = (length (clean now w).samples, clean now w)

  -- `f64::NAN` and `f64::max`.
  module _ (nan : F) (f64_max : F → F → F) where
    abbrev pub fold_max : F → List F → F
    fold_max m [] = m
    fold_max m (x ∷ xs) = fold_max (f64_max m x) xs

    unfoldable pub max : ℕ → SlidingWindow F → F × SlidingWindow F
    unfolding clean
    max now w = (fold_max nan (values (clean now w)), clean now w)

  -- Zero, the sum of doubles and the division by a count.
  module _ (zero_ : F) (sum : List F → F) (div_count : F → ℕ → F) where
    abbrev pub mean : List F → F
    mean [] = zero_
    mean (x ∷ xs) = div_count (sum (x ∷ xs)) (length (x ∷ xs))

    unfoldable pub avg : ℕ → SlidingWindow F → F × SlidingWindow F
    unfolding clean
    avg now w = (mean (values (clean now w)), clean now w)

abbrev pub WindowMap : Type 0 → Type 0
WindowMap F = List (String × SlidingWindow F)

-- The three maps of one measurement.
pub record Windows (F : Type 0) : Type 0 where
  pub last_minute : WindowMap F
  pub last_ten_minutes : WindowMap F
  pub last_hour : WindowMap F

abbrev pub seconds : ℕ → ℕ
seconds n = n * 1000000000

module _ {F : Type 0} where
  unfoldable pub get_or_create_window : String → ℕ → WindowMap F → WindowMap F
  unfolding new_window
  get_or_create_window key duration m =
      if is_some (lookup key m) then m else insert key (new_window duration) m

  -- `get_window_ref(..).push(value)`; the key is there.
  unfoldable pub push_at : String → F → ℕ → WindowMap F → WindowMap F
  unfolding push
  push_at key value now m = elim (lookup key m) [
    | some w ↦ insert key (push value now w) m
    | none ↦ m
  ]

  unfoldable pub record_in : String → ℕ → F → ℕ → WindowMap F → WindowMap F
  unfolding get_or_create_window push_at
  record_in key duration value now m = push_at key value now (get_or_create_window key duration m)

  -- `update_ttft_windows` and its like, at the times at which the three windows read the clock.
  unfoldable pub update_windows : String → F → ℕ × ℕ × ℕ → Windows F → Windows F
  unfolding record_in
  update_windows key value (t, t', t'') m = record {
    last_minute = record_in key (seconds 60) value t m.last_minute;
    last_ten_minutes = record_in key (seconds 600) value t' m.last_ten_minutes;
    last_hour = record_in key (seconds 3600) value t'' m.last_hour;
  }

  -- `get_ttft_1m_max` and its like: the reading of a window, or zero without one.
  unfoldable pub read_at :
      F → (ℕ → SlidingWindow F → F × SlidingWindow F) → String → ℕ → WindowMap F → F × WindowMap F
  read_at zero_ read key now m = elim (lookup key m) [
    | none ↦ (zero_, m)
    | some w ↦ ((read now w).0, insert key (read now w).1 m)
  ]
