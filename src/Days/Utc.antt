-- ===== src/Days/Utc.antt =====
-- A calendar whose days have 24 hours, for the concrete inputs of other modules (db/aggregate.rs).
use Prim.Native.Nat.{◌/◌}
use que_qiao_router.Base.{
  ℕ, ◌+◌, ◌*◌, ◌≤◌, ◌≡◌, refl, sym, ap, subst, Option, none, some, arith, eq_of_some,
}
use que_qiao_router.Base.Int.{ℤ, pos, negsuc, pos_part, neg_part, ◌+ℤ◌, parts-+ℤ}
use que_qiao_router.Days.{Calendar, local_day_ms, next_local_day}
use que_qiao_router.Days.Bounds.{day_ms, IsCalendar}

abbrev pub since_epoch : ℤ → Option ℕ
since_epoch (pos n) = some n
since_epoch (negsuc n) = none

-- Days of 24 hours, from the epoch on.
abbrev pub utc : Calendar
utc = record {
  D = ℕ;
  timestamp_millis = since_epoch;
  add_day = λ n. some (n + day_ms);
  midnight = λ n. some (pos (n / day_ms * day_ms));
}

-- What the two parts of an instant and of its day are.
utc_day :
    (t d : ℤ)
    → local_day_ms utc t ≡ some d
    → (n : ℕ) × (t ≡ pos n) × (d ≡ pos (n / 86400000 * 86400000))
unfolding local_day_ms
utc_day (pos n) d h = (n, refl, sym (eq_of_some h))
utc_day (negsuc n) d h = absurd (cc)

utc_start : (n : ℕ) → n / 86400000 * 86400000 / 86400000 * 86400000 ≡ n / 86400000 * 86400000
utc_start n = omega arith

utc_next : (d e : ℤ) → next_local_day utc d ≡ some e → local_day_ms utc (d +ℤ day_ms) ≡ some e
unfolding local_day_ms next_local_day
utc_next (pos n) e h = h
utc_next (negsuc n) e h = absurd (cc)

utc_start_own : (t d : ℤ) → local_day_ms utc t ≡ some d → local_day_ms utc d ≡ some d
unfolding local_day_ms
utc_start_own (pos n) d h =
    subst (λ x. local_day_ms utc x ≡ some x) (eq_of_some h) (ap (λ m. some (pos m)) (utc_start n))
utc_start_own (negsuc n) d h = absurd (cc)

pub utc-IsCalendar : IsCalendar utc
utc-IsCalendar = record {
  starts = λ t d h.
      let x = utc_day t d h in
      omega (arith, ap pos_part x.1, ap neg_part x.1, ap pos_part x.2, ap neg_part x.2);
  start_own = utc_start_own;
  ordered = λ t u d e h k l.
      let x = utc_day t d h in
      let y = utc_day u e k in
      let m : x.0 ≤ y.0 =
        omega (arith, l, ap pos_part x.1, ap neg_part x.1, ap pos_part y.1, ap neg_part y.1) in
      omega (arith, m, ap pos_part x.2, ap neg_part x.2, ap pos_part y.2, ap neg_part y.2);
  next = utc_next;
  short = λ t d h.
      let x = utc_day t d h in
      omega (
        arith,
        ap pos_part x.1,
        ap neg_part x.1,
        ap pos_part x.2,
        ap neg_part x.2,
        parts-+ℤ d 86400000,
      );
}
