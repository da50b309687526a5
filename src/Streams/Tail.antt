-- ===== src/Streams/Tail.antt =====
-- handlers/stream_handler.rs: the tail of the upstream's body that is kept for the debug log.
use que_qiao_router.Base.{
  ℕ, zero, suc, ◌+◌, ◌-◌, ◌≤◌, ◌≡◌, refl, sym, ap, ◌∙◌, inl, inr, Option, some, List, [], ◌∷◌, ◌++◌,
  leb, leb→le, length, length-append, drop, arith, Bool-cases, append_assoc, append_nil,
}
use que_qiao_router.Streams.{
  Item, ok, err, Poll, pending, ready, finished, debug_raw_body_tail_limit,
  append_debug_raw_body_tail, poll_body,
}

abbrev pub Bytes : Type 0
Bytes = List ℕ

-- The last bytes, at most as many as are kept.
abbrev pub last_bytes : Bytes → Bytes
last_bytes s = drop (length s - debug_raw_body_tail_limit) s

drop_nil : (n : ℕ) → drop {A = ℕ} n [] ≡ []
drop_nil zero = refl
drop_nil (suc n) = refl

drop-drop : (j k : ℕ) (s : Bytes) → drop j (drop k s) ≡ drop (k + j) s
drop-drop j zero s = let e : j ≡ 0 + j = omega arith in ap (λ n. drop n s) e
drop-drop j (suc k) [] = drop_nil j ∙ sym (drop_nil (suc k + j))
drop-drop j (suc k) (c ∷ s) =
    let e : suc (k + j) ≡ suc k + j = omega arith in drop-drop j k s ∙ ap (λ n. drop n (c ∷ s)) e

drop-append_front : (k : ℕ) (s t : Bytes) → k ≤ length s → drop k (s ++ t) ≡ drop k s ++ t
drop-append_front zero s t h = refl
drop-append_front (suc k) [] t h = absurd (omega arith)
drop-append_front (suc k) (c ∷ s) t h = drop-append_front k s t (omega arith)

drop-append_back : (k : ℕ) (s t : Bytes) → drop (length s + k) (s ++ t) ≡ drop k t
drop-append_back k [] t = let e : 0 + k ≡ k = omega arith in ap (λ n. drop n t) e
drop-append_back k (c ∷ s) t =
    let e : suc (length s) + k ≡ suc (length s + k) = omega arith in
    ap (λ n. drop n (c ∷ (s ++ t))) e ∙ drop-append_back k s t

length-drop : (k : ℕ) (s : Bytes) → length (drop k s) ≡ length s - k
length-drop zero s = omega arith
length-drop (suc k) [] = omega arith
length-drop (suc k) (c ∷ s) = omega (arith, length-drop k s)

append-last_bytes :
    (s bytes : Bytes) → append_debug_raw_body_tail (last_bytes s) bytes ≡ last_bytes (s ++ bytes)
unfolding append_debug_raw_body_tail
append-last_bytes s bytes =
    let n = debug_raw_body_tail_limit in
    let total = length-append s bytes in
    elim (Bool-cases (leb n (length bytes))) [
      | inl long ↦
          let enough = leb→le n (length bytes) long in
          let from : length s + (length bytes - n) ≡ length (s ++ bytes) - n =
            omega (arith, enough, total) in
          rw long
            (sym (drop-append_back (length bytes - n) s bytes) ∙ ap (λ k. drop k (s ++ bytes)) from)
      | inr short ↦
          let few : length bytes ≤ n = ground arith in
          let over = length (last_bytes s) + length bytes - n in
          let from : (length s - n) + over ≡ length (s ++ bytes) - n =
            omega (arith, few, total, length-drop (length s - n) s) in
          let inside : (length s - n) + over ≤ length s =
            omega (arith, few, length-drop (length s - n) s) in
          rw short (
            ap (λ l. l ++ bytes) (drop-drop over (length s - n) s)
            ∙ sym (drop-append_front ((length s - n) + over) s bytes inside)
            ∙ ap (λ k. drop k (s ++ bytes)) from)
    ]

module _ {E : Type 0} where
  -- A body that answers the polls one after the other, and what it has delivered.
  abbrev pub next_piece :
      List (Poll (Item Bytes E)) → Poll (Item Bytes E) × List (Poll (Item Bytes E))
  next_piece [] = (pending, [])
  next_piece (p ∷ ps) = (p, ps)

  abbrev pub delivered : List (Poll (Item Bytes E)) → Bytes
  delivered [] = []
  delivered (ready (ok bytes) ∷ ps) = bytes ++ delivered ps
  delivered (_ ∷ ps) = delivered ps

  -- What is kept after some polls.
  unfoldable pub run_body : ℕ → List (Poll (Item Bytes E)) × Option Bytes → Option Bytes
  unfolding poll_body
  run_body zero s = s.1
  run_body (suc n) s = run_body n (poll_body next_piece s).1

  run_body_from :
      (ps : List (Poll (Item Bytes E))) (s : Bytes)
      → run_body (length ps) (ps, some (last_bytes s)) ≡ some (last_bytes (s ++ delivered ps))
  unfolding run_body poll_body
  run_body_from [] s = ap (λ t. some (last_bytes t)) (sym (append_nil s))
  run_body_from (pending ∷ ps) s = run_body_from ps s
  run_body_from (ready (err e) ∷ ps) s = run_body_from ps s
  run_body_from (finished ∷ ps) s = run_body_from ps s
  run_body_from (ready (ok bytes) ∷ ps) s =
      ap (λ t. run_body (length ps) (ps, some t)) (append-last_bytes s bytes)
      ∙ run_body_from ps (s ++ bytes)
      ∙ ap (λ t. some (last_bytes t)) (append_assoc s bytes (delivered ps))

  -- A stream that captures its body has kept, after any polls, the last 16 KiB of all the bytes
  -- that it has delivered, or all of them if they are fewer.
  pub run_body-last_bytes :
      (ps : List (Poll (Item Bytes E)))
      → run_body (length ps) (ps, some []) ≡ some (last_bytes (delivered ps))
  run_body-last_bytes ps = run_body_from ps []
