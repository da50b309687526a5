-- ===== src/Routing/Tests.antt =====
-- Selections of client/routing.rs on small inputs, with doubles in tenths, and the theorems at such
-- inputs.
use que_qiao_router.Base.{
  ℕ, ◌+◌, ◌≡◌, refl, String, none, some, List, [], ◌∷◌, map, arith, if◌then◌else◌, str_eq, lookup,
  insert,
}
use que_qiao_router.Base.Sorting.{sort_by}
use que_qiao_router.Samples.{tenths, primary, spare}
use que_qiao_router.Config.{ClientConfig, deterministic}
use que_qiao_router.Routing.{Entropy, RoutingKey, select_clients, count_votes}
use que_qiao_router.Routing.Voting.{IsStrictOrder}

-- The key prefers the spare backend.
abbrev hash : String → String → ℕ
hash key name = if str_eq name "spare" then 18446744073709551615 else 9223372036854775807

abbrev entropy : Entropy ℕ
entropy = record { draw = λ i. i + 1; hash = hash }

abbrev clients : List ClientConfig
clients = primary ∷ spare ∷ []

abbrev keys : List RoutingKey
keys = ("session-1", 1) ∷ []

deterministic_order :
    map (λ c. c.name) (select_clients tenths entropy clients (some keys) deterministic none)
    ≡ "spare" ∷ "primary" ∷ []
unfolding select_clients sort_by count_votes lookup insert
deterministic_order = refl

ordered : IsStrictOrder tenths
ordered = record { irrefl = λ x. ground arith; trans = λ x y z h k. ground arith }
