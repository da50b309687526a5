-- ===== src/Routing.antt =====
-- client/routing.rs: the order in which the backends of a model are tried. The random draws, the
-- hash of the standard library and the doubles are arguments.
pub mod Permutation
pub mod Voting
mod Tests
use Prim.Native.Nat.{Ordering, compare}
use Prim.Native.String.{compare as compare_str}
use que_qiao_router.Base.{
  ℕ, ◌+◌, ◌%◌, ◌^◌, max, String, Bool, Option, none, some, List, [], ◌∷◌, map, if◌then◌else◌,
  or_else, lookup, insert, str_eq,
}
use que_qiao_router.Base.Floats.{Floats}
use que_qiao_router.Base.Int.{ℤ, pos, le_zero, pos_part}
use que_qiao_router.Base.Sorting.{sort_by, then_with}
use que_qiao_router.Config.{
  ClientConfig, LoadBalancingStrategy, deterministic, random, least_connections,
}

-- A routing key with its weight.
abbrev pub RoutingKey : Type 0
RoutingKey = String × ℕ

abbrev pub u64_mod : ℕ
u64_mod = 2 ^ 64

-- What the environment supplies to one selection: the uniform draws of the generator in the order
-- of use, and the hash of a key and a client's name.
pub record Entropy (F : Type 0) : Type 0 where
  pub draw : ℕ → F
  pub hash : String → String → ℕ

abbrev pub ordering_of : Option Ordering → Ordering
ordering_of o = or_else o Ordering.eq

-- Of pairs of a score and a client, the clients.
abbrev pub clients_of : {F : Type 0} → List (F × ClientConfig) → List ClientConfig
clients_of = map (λ p. p.1)

-- The votes: each key gives its weight, as a u64 that wraps, to the client that it prefers.
unfoldable pub add_vote : String → ℕ → List (String × ℕ) → List (String × ℕ)
add_vote name weight scores =
    if str_eq name ""
    then scores
    else insert name ((or_else (lookup name scores) 0 + weight) % u64_mod) scores

abbrev pub vote_order : ℕ × ClientConfig → ℕ × ClientConfig → Ordering
vote_order a b = then_with (compare b.0 a.0) (compare_str a.1.name b.1.name)

module _ (fl : Floats) where
  open fl use {F, of_nat, lt, le, partial_cmp, div, add, neg, powf}

  abbrev pub weight_order : F × ClientConfig → F × ClientConfig → Ordering
  weight_order a b = ordering_of (partial_cmp b.0 a.0)

  -- The sort key of a client, with the draw that it would use.
  unfoldable pub random_key : F → ClientConfig → F
  random_key draw client =
      let weight = of_nat (or_else client.priority 0) in
      if le weight (of_nat 0) then of_nat 0 else powf draw (div (of_nat 1) weight)

  -- A client of no weight takes no draw.
  unfoldable pub next_draw : ℕ → ClientConfig → ℕ
  next_draw i client = if le (of_nat (or_else client.priority 0)) (of_nat 0) then i else i + 1

  unfoldable pub weigh : (ℕ → F) → ℕ → List ClientConfig → List (F × ClientConfig)
  weigh draw i [] = []
  weigh draw i (c ∷ cs) = (random_key (draw i) c, c) ∷ weigh draw (next_draw i c) cs

  unfoldable pub select_clients_by_random_weight : (ℕ → F) → List ClientConfig → List ClientConfig
  unfolding weigh random_key next_draw
  select_clients_by_random_weight draw clients =
      clients_of (sort_by weight_order (weigh draw 0 clients))

  unfoldable pub vote_score : (String → String → ℕ) → String → ClientConfig → F
  vote_score hash key client =
      let normalized_hash =
        div (add (of_nat (hash key client.name)) (of_nat 1))
          (add (of_nat 18446744073709551615) (of_nat 1)) in
      let priority = of_nat (or_else client.priority 0) in
      if le priority (of_nat 0) then of_nat 0 else powf normalized_hash (div (of_nat 1) priority)

  -- The inner loop, from the best name and score so far.
  unfoldable pub best_client :
      (String → String → ℕ) → String → List ClientConfig → String × F → String × F
  best_client hash key [] best = best
  best_client hash key (c ∷ cs) best =
      best_client hash key cs
        (if lt best.1 (vote_score hash key c) then (c.name, vote_score hash key c) else best)

  unfoldable pub count_votes :
      (String → String → ℕ)
      → List ClientConfig
      → List RoutingKey
      → List (String × ℕ)
      → List (String × ℕ)
  unfolding add_vote best_client vote_score
  count_votes hash clients [] scores = scores
  count_votes hash clients ((key, weight) ∷ keys) scores =
      count_votes hash clients keys
        (add_vote (best_client hash key clients ("", neg (of_nat 1))).0 weight scores)

  unfoldable pub select_clients_by_voting :
      (String → String → ℕ) → List ClientConfig → List RoutingKey → List ClientConfig
  unfolding count_votes
  select_clients_by_voting hash clients keys =
      let scores = count_votes hash clients keys [] in
      clients_of (sort_by vote_order (map (λ c. (or_else (lookup c.name scores) 0, c)) clients))

  unfoldable pub connection_score : List (String × ℤ) → ClientConfig → F
  connection_score counts client =
      let active = or_else (lookup client.name counts) (pos 0) in
      let priority = of_nat (max (or_else client.priority 1) 1) in
      if le_zero active then of_nat 0 else div (of_nat (pos_part active)) priority

  abbrev pub connection_order : F × ClientConfig → F × ClientConfig → Ordering
  connection_order a b =
      then_with (ordering_of (partial_cmp a.0 b.0)) (compare_str b.1.name a.1.name)

  unfoldable pub select_clients_by_least_connections :
      List ClientConfig → Option (List (String × ℤ)) → List ClientConfig
  unfolding connection_score
  select_clients_by_least_connections clients active_counts =
      let counts = or_else active_counts [] in
      clients_of (sort_by connection_order (map (λ c. (connection_score counts c, c)) clients))

  unfoldable pub select_by_strategy :
      Entropy F
      → List ClientConfig
      → Option (List RoutingKey)
      → LoadBalancingStrategy
      → Option (List (String × ℤ))
      → List ClientConfig
  unfolding select_clients_by_random_weight select_clients_by_voting
      select_clients_by_least_connections
  select_by_strategy e clients keys random counts = select_clients_by_random_weight e.draw clients
  select_by_strategy e clients none deterministic counts =
      select_clients_by_random_weight e.draw clients
  select_by_strategy e clients (some []) deterministic counts =
      select_clients_by_random_weight e.draw clients
  select_by_strategy e clients (some (k ∷ ks)) deterministic counts =
      select_clients_by_voting e.hash clients (k ∷ ks)
  select_by_strategy e clients keys least_connections counts =
      select_clients_by_least_connections clients counts

  unfoldable pub select_clients :
      Entropy F
      → List ClientConfig
      → Option (List RoutingKey)
      → LoadBalancingStrategy
      → Option (List (String × ℤ))
      → List ClientConfig
  unfolding select_by_strategy
  select_clients e [] keys strategy counts = []
  select_clients e (c ∷ cs) keys strategy counts =
      select_by_strategy e (c ∷ cs) keys strategy counts
