-- ===== src/Routing/Voting.antt =====
-- client/routing.rs: who wins a routing key, and how the votes order the backends.
use mathlib.Core.List.{Memᴰ}
use native.Mathlib.Nat.{le_trans}
use que_qiao_router.Base.{
  ℕ, ◌≤◌, ◌≡◌, refl, sym, ap, subst, String, true, false, inl, inr, ◌⊎◌, List, [], ◌∷◌, map,
  or_else, lookup, arith, All, Bool-cases,
}
use que_qiao_router.Base.Floats.{Floats}
use que_qiao_router.Base.Sorting.{
  sort_by, is_gt, then_with, IsSortedBy, sort_by-IsSortedBy, sort_by-All, IsSortedBy-map,
}
use que_qiao_router.Config.{ClientConfig}
use que_qiao_router.Routing.{
  RoutingKey, vote_order, vote_score, best_client, count_votes, select_clients_by_voting,
}
use Prim.Native.Nat.{Ordering, compare}

-- The votes of a client in a tally.
abbrev pub votes_of : List (String × ℕ) → ClientConfig → ℕ
votes_of scores c = or_else (lookup c.name scores) 0

not_gt : (m n : ℕ) (o : Ordering) → is_gt (then_with (compare m n) o) ≡ false → m ≤ n
not_gt m n o h = ground arith

is_gt-le : (m n : ℕ) (o : Ordering) → is_gt (then_with (compare m n) o) ≡ true → n ≤ m
is_gt-le m n o h = ground arith

paired :
    (score : ClientConfig → ℕ) (cs : List ClientConfig)
    → All (λ (p : ℕ × ClientConfig). p.0 ≡ score p.1) (map (λ c. (score c, c)) cs)
paired score [] = tt
paired score (c ∷ cs) = (refl, paired score cs)

module _ (fl : Floats) where
  open fl use {F, of_nat, neg, lt}

  -- The backends are tried by votes, the most first, where the votes are those of the tally over
  -- all keys.
  pub voting-IsSortedBy :
      (hash : String → String → ℕ) (clients : List ClientConfig) (keys : List RoutingKey)
      → let scores = count_votes fl hash clients keys [] in
        IsSortedBy
          (λ a b. votes_of scores b ≤ votes_of scores a)
          (select_clients_by_voting fl hash clients keys)
  unfolding select_clients_by_voting
  voting-IsSortedBy hash clients keys =
      let scores = count_votes fl hash clients keys [] in
      let scored = map (λ c. (votes_of scores c, c)) clients in
      IsSortedBy-map (λ (p : ℕ × ClientConfig). p.0 ≡ votes_of scores p.1)
        (λ (p q : ℕ × ClientConfig). q.0 ≤ p.0) (λ a b. votes_of scores b ≤ votes_of scores a)
        (λ p. p.1) (λ p q e e' h. rw (← e, ← e') h) (sort_by vote_order scored)
        (sort_by-All vote_order _ scored (paired (votes_of scores) clients))
        (sort_by-IsSortedBy vote_order (λ (p q : ℕ × ClientConfig). q.0 ≤ p.0)
          (λ a b c h k. le_trans k h) (λ a b h. not_gt b.0 a.0 _ h) (λ a b h. is_gt-le b.0 a.0 _ h)
          scored)

-- The comparison of doubles is a strict order, at a NaN too.
pub record IsStrictOrder (fl : Floats) : Type 0 where
  pub irrefl : (x : fl.F) → fl.lt x x ≡ false
  pub trans : (x y z : fl.F) → fl.lt x y ≡ true → fl.lt y z ≡ true → fl.lt x z ≡ true

module _ (fl : Floats) (order : IsStrictOrder fl) (hash : String → String → ℕ) (key : String) where
  open fl use {F, of_nat, neg, lt}

  abbrev Rises : F → F → Type 0
  Rises x r = (x ≡ r) ⊎ (lt x r ≡ true)

  -- What has risen from `x` is not below it.
  not_below : (x r : F) → Rises x r → lt r x ≡ false
  not_below x r (inl e) = rw e (order.irrefl r)
  not_below x r (inr up) = elim (Bool-cases (lt r x)) [
    | inl down ↦ absurd (cc (order.irrefl x, order.trans x r x up down))
    | inr ok ↦ ok
  ]

  -- Nor below what was not above `x`.
  not_below_other : (x s r : F) → lt x s ≡ false → Rises x r → lt r s ≡ false
  not_below_other x s r h (inl e) = rw (← e) h
  not_below_other x s r h (inr up) = elim (Bool-cases (lt r s)) [
    | inl above ↦ absurd (cc (h, order.trans x r s up above))
    | inr ok ↦ ok
  ]

  Rises-trans : (x s r : F) → lt x s ≡ true → Rises s r → Rises x r
  Rises-trans x s r h (inl e) = inr (rw (← e) h)
  Rises-trans x s r h (inr up) = inr (order.trans x s r h up)

  abbrev score : ClientConfig → F
  score = vote_score fl hash key

  -- The result is the start, or the name and score of one of the clients.
  abbrev IsFrom : List ClientConfig → String × F → String × F → Type 0
  IsFrom clients start r =
      (r ≡ start) ⊎ ((c : ClientConfig) × Memᴰ c clients × (r ≡ (c.name, score c)))

  record IsBest (clients : List ClientConfig) (start r : String × F) : Type 0 where
    rises : Rises start.1 r.1
    most : All (λ c. lt r.1 (score c) ≡ false) clients
    source : IsFrom clients start r

  IsFrom-moved :
      (c : ClientConfig) (cs : List ClientConfig) (start r : String × F)
      → IsFrom cs (c.name, score c) r
      → IsFrom (c ∷ cs) start r
  IsFrom-moved c cs start r (inl e) = inr (c, Memᴰ.head refl, e)
  IsFrom-moved c cs start r (inr (d, m, e)) = inr (d, Memᴰ.tail m, e)

  IsFrom-kept :
      (c : ClientConfig) (cs : List ClientConfig) (start r : String × F)
      → IsFrom cs start r
      → IsFrom (c ∷ cs) start r
  IsFrom-kept c cs start r (inl e) = inl e
  IsFrom-kept c cs start r (inr (d, m, e)) = inr (d, Memᴰ.tail m, e)

  best_client-IsBest :
      (clients : List ClientConfig) (start : String × F)
      → IsBest clients start (best_client fl hash key clients start)
  unfolding best_client
  best_client-IsBest [] start = record { rises = inl refl; most = tt; source = inl refl }
  best_client-IsBest (c ∷ cs) start = elim (Bool-cases (lt start.1 (score c))) [
    | inl better ↦
        let ih = best_client-IsBest cs (c.name, score c) in
        rw better (record {
          rises = Rises-trans start.1 (score c) _ better ih.rises;
          most = (not_below (score c) _ ih.rises, ih.most);
          source = IsFrom-moved c cs start _ ih.source;
        })
    | inr worse ↦
        let ih = best_client-IsBest cs start in
        rw worse (record {
          rises = ih.rises;
          most = (not_below_other start.1 (score c) _ worse ih.rises, ih.most);
          source = IsFrom-kept c cs start _ ih.source;
        })
  ]

  All-mem :
      (P : ClientConfig → Type 0) (c : ClientConfig) (cs : List ClientConfig)
      → Memᴰ c cs
      → All P cs
      → P c
  All-mem P c [] m h = elim m [ ]
  All-mem P c (d ∷ cs) (Memᴰ.head e) h = subst P (sym e) h.0
  All-mem P c (d ∷ cs) (Memᴰ.tail m) h = All-mem P c cs m h.1

  -- A key goes to a client of the highest score, if some client scores above -1, as every score
  -- that is a number does: the winner is one of the clients, and none scores above it.
  pub best_client-wins :
      (clients : List ClientConfig) (c : ClientConfig)
      → Memᴰ c clients
      → lt (neg (of_nat 1)) (vote_score fl hash key c) ≡ true
      → let r = best_client fl hash key clients ("", neg (of_nat 1)) in
        (w : ClientConfig) × Memᴰ w clients
        × (r ≡ (w.name, vote_score fl hash key w))
        × All (λ d. lt (vote_score fl hash key w) (vote_score fl hash key d) ≡ false) clients
  best_client-wins clients c m above =
      let b = best_client-IsBest clients ("", neg (of_nat 1)) in
      elim b.source [
        | inl e ↦
            let below =
              All-mem
                (λ d. lt (best_client fl hash key clients ("", neg (of_nat 1))).1 (score d) ≡ false)
                c clients m b.most in
            absurd (cc (above, below, ap (λ (p : String × F). p.1) e))
        | inr (w, mem, e) ↦ (
          w,
          mem,
          e,
          subst (λ (p : String × F). All (λ d. lt p.1 (score d) ≡ false) clients) e b.most,
        )
      ]
