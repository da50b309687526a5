-- ===== src/Window/Tests.antt =====
-- Small runs of metrics/sliding_window.rs, with numbers for doubles, and the theorems at such runs.
use que_qiao_router.Base.{ℕ, ◌≡◌, refl, List, [], ◌∷◌, arith}
use que_qiao_router.Window.{new_window, push, clean, expire, WindowMap}
use que_qiao_router.Window.Recent.{recent, push_all, clean-recent}

abbrev samples : List (ℕ × ℕ)
samples = (7, 1) ∷ (8, 30) ∷ (9, 65) ∷ []

held : (clean 70 (push_all (new_window 60) samples)).samples ≡ (8, 30) ∷ (9, 65) ∷ []
unfolding clean push_all new_window push expire
held = refl

clean-recent_example : (clean 70 (push_all (new_window 60) samples)).samples ≡ recent 60 70 samples
clean-recent_example =
    clean-recent 60 70 samples (omega arith) (omega arith, (omega arith, (omega arith, tt)))
      (omega arith)

abbrev unused : WindowMap ℕ
unused = []
