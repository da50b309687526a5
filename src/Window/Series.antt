-- ===== src/Window/Series.antt =====
-- metrics/sliding_window.rs: the windows of a model and backend.
use que_qiao_router.Base.{
  ℕ, ◌≡◌, refl, sym, ap, ◌∙◌, ◌⊎◌, inl, inr, String, false, none, some, str_eq, eq_iff, lookup,
  insert, or_else, if◌then◌else◌, Bool-cases, Option-cases, lookup-insert_self, lookup-insert_ne,
}
use que_qiao_router.Config.{is_some}
use que_qiao_router.Window.{
  SlidingWindow, new_window, push, WindowMap, get_or_create_window, push_at, record_in,
}

module _ {F : Type 0} where
  push_at_found :
      (key : String) (value : F) (now : ℕ) (m : WindowMap F) (w : SlidingWindow F)
      → lookup key m ≡ some w
      → push_at key value now m ≡ insert key (push value now w) m
  unfolding push_at
  push_at_found key value now m w e = rw (push_at, e) refl

  record_in_found :
      (key : String) (duration : ℕ) (value : F) (now : ℕ) (m : WindowMap F) (w : SlidingWindow F)
      → lookup key m ≡ some w
      → record_in key duration value now m ≡ insert key (push value now w) m
  unfolding record_in get_or_create_window
  record_in_found key duration value now m w e =
      ap (push_at key value now)
        (ap (λ o. if is_some o then m else insert key (new_window duration) m) e)
      ∙ push_at_found key value now m w e

  record_in_new :
      (key : String) (duration : ℕ) (value : F) (now : ℕ) (m : WindowMap F)
      → lookup key m ≡ none
      → let w = new_window duration in
        record_in key duration value now m ≡ insert key (push value now w) (insert key w m)
  unfolding record_in get_or_create_window
  record_in_new key duration value now m e =
      let w = new_window duration in
      ap (push_at key value now) (ap (λ o. if is_some o then m else insert key w m) e)
      ∙ push_at_found key value now (insert key w m) w (lookup-insert_self key w m)

  elsewhere :
      (key other : String) (before after : WindowMap F)
      → (str_eq key other ≡ false → lookup other after ≡ lookup other before)
      → (key ≡ other) ⊎ (lookup other after ≡ lookup other before)
  elsewhere key other before after h = elim (Bool-cases (str_eq key other)) [
    | inl same ↦ inl ((eq_iff key other).0 same)
    | inr apart ↦ inr (h apart)
  ]

  -- A measurement lands in the window of its key, which is a new one of the given duration if there
  -- was none, and in no other.
  pub record_in-lookup :
      (key other : String) (duration : ℕ) (value : F) (now : ℕ) (m : WindowMap F)
      → let after = record_in key duration value now m in
        (lookup key after ≡ some (push value now (or_else (lookup key m) (new_window duration))))
        × ((key ≡ other) ⊎ (lookup other after ≡ lookup other m))
  record_in-lookup key other duration value now m = elim (Option-cases (lookup key m)) [
    | inl e ↦
        let w = new_window duration in
        let made = record_in_new key duration value now m e in
        (
          ap (lookup key) made
              ∙ lookup-insert_self key (push value now w) (insert key w m)
              ∙ ap (λ o. some (push value now (or_else o w))) (sym e),
          elsewhere key other m (record_in key duration value now m) (λ apart.
              ap (lookup other) made
              ∙ lookup-insert_ne key other (push value now w) (insert key w m) apart
              ∙ lookup-insert_ne key other w m apart),
        )
    | inr (w, e) ↦
        let made = record_in_found key duration value now m w e in
        (
          ap (lookup key) made
              ∙ lookup-insert_self key (push value now w) m
              ∙ ap (λ o. some (push value now (or_else o (new_window duration)))) (sym e),
          elsewhere key other m (record_in key duration value now m) (λ apart.
              ap (lookup other) made ∙ lookup-insert_ne key other (push value now w) m apart),
        )
  ]
