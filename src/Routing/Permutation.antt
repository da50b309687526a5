-- ===== src/Routing/Permutation.antt =====
-- client/routing.rs: a selection reorders the backends, and neither drops nor repeats one.
use mathlib.Core.List.{Perm}
use mathlib.Core.List.Perm
use que_qiao_router.Base.{ℕ, ◌≡◌, refl, ap, subst, String, Option, none, some, List, [], ◌∷◌, map}
use que_qiao_router.Base.Floats.{Floats}
use que_qiao_router.Base.Int.{ℤ}
use que_qiao_router.Base.Sorting.{sort_by, sort_by-perm}
use que_qiao_router.Config.{
  ClientConfig, LoadBalancingStrategy, deterministic, random, least_connections,
}
use que_qiao_router.Routing.{
  RoutingKey, Entropy, clients_of, vote_order, weight_order, connection_order, next_draw, weigh,
  select_clients_by_random_weight, select_clients_by_voting, select_clients_by_least_connections,
  select_by_strategy, select_clients,
}
use Prim.Native.Nat.{Ordering}

module _ {K : Type 0} where
  -- Scoring, sorting and dropping the scores permutes the clients.
  ranked-perm :
      (cmp : K × ClientConfig → K × ClientConfig → Ordering) (scored : List (K × ClientConfig))
      (clients : List ClientConfig)
      → clients_of scored ≡ clients
      → Perm (clients_of (sort_by cmp scored)) clients
  ranked-perm cmp scored clients e =
      subst (Perm (clients_of (sort_by cmp scored))) e
        (Perm.map (λ (p : K × ClientConfig). p.1) (sort_by-perm cmp scored))

  clients_of-map :
      (score : ClientConfig → K) (clients : List ClientConfig)
      → clients_of (map (λ c. (score c, c)) clients) ≡ clients
  clients_of-map score [] = refl
  clients_of-map score (c ∷ cs) = ap (◌∷◌ c) (clients_of-map score cs)

module _ (fl : Floats) where
  open fl use {F}

  clients_of-weigh :
      (draw : ℕ → F) (i : ℕ) (clients : List ClientConfig)
      → clients_of (weigh fl draw i clients) ≡ clients
  unfolding weigh
  clients_of-weigh draw i [] = refl
  clients_of-weigh draw i (c ∷ cs) = ap (◌∷◌ c) (clients_of-weigh draw (next_draw fl i c) cs)

  random_weight-perm :
      (draw : ℕ → F) (clients : List ClientConfig)
      → Perm (select_clients_by_random_weight fl draw clients) clients
  unfolding select_clients_by_random_weight
  random_weight-perm draw clients =
      ranked-perm (weight_order fl) _ clients (clients_of-weigh draw 0 clients)

  voting-perm :
      (hash : String → String → ℕ) (clients : List ClientConfig) (keys : List RoutingKey)
      → Perm (select_clients_by_voting fl hash clients keys) clients
  unfolding select_clients_by_voting
  voting-perm hash clients keys = ranked-perm vote_order _ clients (clients_of-map _ clients)

  least_connections-perm :
      (clients : List ClientConfig) (counts : Option (List (String × ℤ)))
      → Perm (select_clients_by_least_connections fl clients counts) clients
  unfolding select_clients_by_least_connections
  least_connections-perm clients counts =
      ranked-perm (connection_order fl) _ clients (clients_of-map _ clients)

  by_strategy-perm :
      (e : Entropy F) (clients : List ClientConfig) (keys : Option (List RoutingKey))
      (strategy : LoadBalancingStrategy) (counts : Option (List (String × ℤ)))
      → Perm (select_by_strategy fl e clients keys strategy counts) clients
  unfolding select_by_strategy
  by_strategy-perm e clients keys random counts = random_weight-perm e.draw clients
  by_strategy-perm e clients none deterministic counts = random_weight-perm e.draw clients
  by_strategy-perm e clients (some []) deterministic counts = random_weight-perm e.draw clients
  by_strategy-perm e clients (some (k ∷ ks)) deterministic counts =
      voting-perm e.hash clients (k ∷ ks)
  by_strategy-perm e clients keys least_connections counts = least_connections-perm clients counts

  pub select_clients-perm :
      (e : Entropy F) (clients : List ClientConfig) (keys : Option (List RoutingKey))
      (strategy : LoadBalancingStrategy) (counts : Option (List (String × ℤ)))
      → Perm (select_clients fl e clients keys strategy counts) clients
  unfolding select_clients
  select_clients-perm e [] keys strategy counts = Perm.refl []
  select_clients-perm e (c ∷ cs) keys strategy counts =
      by_strategy-perm e (c ∷ cs) keys strategy counts
