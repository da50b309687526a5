-- ===== src/Window/Recent.antt =====
-- metrics/sliding_window.rs: what a window holds.
use que_qiao_router.Base.{
  ℕ, ◌-◌, ◌≤◌, ◌<◌, ◌≡◌, refl, sym, ap, ◌∙◌, inl, inr, true, false, List, [], ◌∷◌, ◌++◌, leb, arith,
  if◌then◌else◌, if_true, if_false, Bool-cases, append_assoc, append_nil, subst,
}
use que_qiao_router.Window.{SlidingWindow, new_window, expire, push, clean}

module _ {F : Type 0} where
  -- The samples that are younger than the duration.
  unfoldable pub recent : ℕ → ℕ → List (F × ℕ) → List (F × ℕ)
  recent duration now [] = []
  recent duration now (s ∷ samples) =
      let rest = recent duration now samples in if leb duration (now - s.1) then rest else s ∷ rest

  -- The times do not fall, and begin at the given one at the earliest.
  abbrev pub InOrder : ℕ → List (F × ℕ) → Type 0
  InOrder from [] = Unit
  InOrder from (s ∷ samples) = (from ≤ s.1) × InOrder s.1 samples

  abbrev pub end_of : ℕ → List (F × ℕ) → ℕ
  end_of from [] = from
  end_of from (s ∷ samples) = end_of s.1 samples

  -- The window after the samples were pushed, each at its time.
  unfoldable pub push_all : SlidingWindow F → List (F × ℕ) → SlidingWindow F
  push_all w [] = w
  push_all w (s ∷ samples) = push_all (push s.0 s.1 w) samples

  recent_all :
      (duration now from : ℕ) (samples : List (F × ℕ))
      → InOrder from samples
      → leb duration (now - from) ≡ false
      → recent duration now samples ≡ samples
  unfolding recent
  recent_all duration now from [] o h = refl
  recent_all duration now from (s ∷ samples) o h =
      let young : leb duration (now - s.1) ≡ false = ground arith in
      if_false _ _ young ∙ ap (◌∷◌ s) (recent_all duration now s.1 samples o.1 young)

  -- Dropping at the front is enough.
  expire-recent :
      (duration now from : ℕ) (samples : List (F × ℕ))
      → InOrder from samples
      → expire duration now samples ≡ recent duration now samples
  unfolding expire recent
  expire-recent duration now from [] o = refl
  expire-recent duration now from (s ∷ samples) o = elim (Bool-cases (leb duration (now - s.1))) [
    | inl old ↦ rw (expire, recent, old) (expire-recent duration now s.1 samples o.1)
    | inr young ↦
        rw (expire, recent, young)
          (ap (◌∷◌ s) (sym (recent_all duration now s.1 samples o.1 young)))
  ]

  InOrder-lower :
      (from lower : ℕ) (samples : List (F × ℕ))
      → lower ≤ from
      → InOrder from samples
      → InOrder lower samples
  InOrder-lower from lower [] h o = tt
  InOrder-lower from lower (s ∷ samples) h o = (omega (arith, o.0), o.1)

  InOrder-recent :
      (duration now from : ℕ) (samples : List (F × ℕ))
      → InOrder from samples
      → InOrder from (recent duration now samples)
  unfolding recent
  InOrder-recent duration now from [] o = tt
  InOrder-recent duration now from (s ∷ samples) o = elim (Bool-cases (leb duration (now - s.1))) [
    | inl old ↦
        rw (recent, old)
          (InOrder-lower s.1 from (recent duration now samples) o.0
            (InOrder-recent duration now s.1 samples o.1))
    | inr young ↦ rw (recent, young) (o.0, InOrder-recent duration now s.1 samples o.1)
  ]

  -- What was dropped before would be dropped now.
  recent-recent :
      (duration before now : ℕ) (samples : List (F × ℕ))
      → before ≤ now
      → recent duration now (recent duration before samples) ≡ recent duration now samples
  unfolding recent
  recent-recent duration before now [] h = refl
  recent-recent duration before now (s ∷ samples) h =
      elim (Bool-cases (leb duration (before - s.1))) [
        | inl old ↦
            let old_now : leb duration (now - s.1) ≡ true = ground arith in
            ap (recent duration now) (if_true _ _ old)
            ∙ recent-recent duration before now samples h
            ∙ sym (if_true _ _ old_now)
        | inr young ↦
            ap (recent duration now) (if_false _ _ young)
            ∙ ap (λ r. if leb duration (now - s.1) then r else s ∷ r)
                (recent-recent duration before now samples h)
      ]

  recent-append :
      (duration now : ℕ) (samples more : List (F × ℕ))
      → recent duration now (samples ++ more)
        ≡ recent duration now samples ++ recent duration now more
  unfolding recent
  recent-append duration now [] more = refl
  recent-append duration now (s ∷ samples) more = elim (Bool-cases (leb duration (now - s.1))) [
    | inl old ↦ rw (recent, old) (recent-append duration now samples more)
    | inr young ↦ rw (recent, young) (ap (◌∷◌ s) (recent-append duration now samples more))
  ]

  recent_now :
      (duration now : ℕ) (value : F)
      → 0 < duration
      → recent duration now ((value, now) ∷ []) ≡ (value, now) ∷ []
  unfolding recent
  recent_now duration now value h =
      let young : leb duration (now - now) ≡ false = ground arith in if_false _ _ young

  InOrder-append :
      (from : ℕ) (samples : List (F × ℕ)) (s : F × ℕ)
      → InOrder from samples
      → end_of from samples ≤ s.1
      → InOrder from (samples ++ s ∷ [])
  InOrder-append from [] s o h = (h, tt)
  InOrder-append from (r ∷ samples) s o h = (o.0, InOrder-append r.1 samples s o.1 h)

  end_of-append :
      (from : ℕ) (samples : List (F × ℕ)) (s : F × ℕ) → end_of from (samples ++ s ∷ []) ≡ s.1
  end_of-append from [] s = refl
  end_of-append from (r ∷ samples) s = end_of-append r.1 samples s

  -- A window that holds what is recent of the samples so far.
  record Holds (duration from : ℕ) (past : List (F × ℕ)) (w : SlidingWindow F) : Type 0 where
    duration_of : w.window_duration ≡ duration
    held : w.samples ≡ recent duration from past
    ordered : InOrder 0 past
    ended : end_of 0 past ≤ from

  expire-Holds :
      {duration from : ℕ} {past : List (F × ℕ)} {w : SlidingWindow F} (now : ℕ)
      → Holds duration from past w
      → from ≤ now
      → expire w.window_duration now w.samples ≡ recent duration now past
  expire-Holds {duration} {from} {past} now h le =
      rw (h.duration_of, h.held)
        (expire-recent duration now 0 (recent duration from past)
            (InOrder-recent duration from 0 past h.ordered)
          ∙ recent-recent duration from now past le)

  push-Holds :
      {duration from : ℕ} {past : List (F × ℕ)} {w : SlidingWindow F} (value : F) (now : ℕ)
      → 0 < duration
      → from ≤ now
      → Holds duration from past w
      → Holds duration now (past ++ (value, now) ∷ []) (push value now w)
  unfolding push
  push-Holds {duration} {from} {past} {w} value now pos le h = record {
    duration_of = h.duration_of;
    held =
        ap (λ x. x ++ (value, now) ∷ []) (expire-Holds now h le)
        ∙ ap (λ x. recent duration now past ++ x) (sym (recent_now duration now value pos))
        ∙ sym (recent-append duration now past ((value, now) ∷ []));
    ordered = InOrder-append 0 past (value, now) h.ordered (omega (arith, h.ended));
    ended = omega (arith, end_of-append 0 past (value, now));
  }

  push_all-Holds :
      (samples : List (F × ℕ)) {duration from : ℕ} {past : List (F × ℕ)} {w : SlidingWindow F}
      → 0 < duration
      → InOrder from samples
      → Holds duration from past w
      → Holds duration (end_of from samples) (past ++ samples) (push_all w samples)
  unfolding push_all
  push_all-Holds [] {duration} {from} {past} {w} pos o h =
      subst (λ x. Holds duration from x w) (sym (append_nil past)) h
  push_all-Holds (s ∷ samples) {duration} {from} {past} {w} pos o h =
      subst (λ x. Holds duration (end_of s.1 samples) x (push_all (push s.0 s.1 w) samples))
        (append_assoc past (s ∷ []) samples)
        (push_all-Holds samples pos o.1 (push-Holds s.0 s.1 pos o.0 h))

  new-Holds : (duration : ℕ) → Holds duration 0 [] (new_window duration)
  unfolding new_window recent
  new-Holds duration = record { duration_of = refl; held = refl; ordered = tt; ended = omega arith }

  -- What a reading of a window is taken over: for a clock that does not go back, and a positive
  -- duration, a new window into which samples were pushed holds, when it is read, those of them
  -- that are younger than the duration, all of them and in order.
  pub clean-recent :
      (duration now : ℕ) (samples : List (F × ℕ))
      → 0 < duration
      → InOrder 0 samples
      → end_of 0 samples ≤ now
      → (clean now (push_all (new_window duration) samples)).samples ≡ recent duration now samples
  unfolding clean
  clean-recent duration now samples pos o le =
      expire-Holds now (push_all-Holds samples pos o (new-Holds duration)) le
