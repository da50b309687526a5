-- ===== src/ModelList/Tests.antt =====
-- Small runs of handlers/model_handler.rs, and the theorems at such runs.
use que_qiao_router.Base.{
  ℕ, ◌≡◌, refl, String, Option, none, some, List, [], ◌∷◌, map, All, arith, lookup as look,
}
use que_qiao_router.Config.{ClientConfig, matches_model, by_match, any_str, rewrite_of}
use que_qiao_router.Samples.{primary, spare}
use que_qiao_router.ModelsCache.{CacheKey, Entry}
use que_qiao_router.ModelList.{Model, Listing, aggregate_models}
use que_qiao_router.ModelList.Encoding.{encode_effective_keys-injective}
use que_qiao_router.ModelList.Aggregate.{Distinct, aggregate_models-Distinct}
use que_qiao_router.ModelList.Routable.{IsServed, aggregate_models-IsServed}

abbrev keys : List (Option (List ℕ))
keys = some (b'a' ∷ b'b' ∷ []) ∷ none ∷ []

encode_effective_keys-injective_example : keys ≡ keys
encode_effective_keys-injective_example =
    encode_effective_keys-injective keys keys (omega arith, (tt, tt)) (omega arith, (tt, tt))
      (omega arith) (omega arith) refl

abbrev model : String → Model
model id = record { id = some id; json = "" }

abbrev large : ClientConfig
large = record primary { model_match = record { match_type = "exact"; value = "large" ∷ [] } }

abbrev aliased : ClientConfig
aliased = record spare {
  model_match = record { match_type = "exact"; value = "large" ∷ [] };
  model_rewrite = some (("alias", "large") ∷ []);
}

-- Both upstreams offer one model, and the first a second one that it is not configured for.
abbrev results : List (ClientConfig × Option Listing)
results =
    (
      large,
      some (record { data_array = some (model "large" ∷ model "small" ∷ []); whole = model "" }),
    )
    ∷ (aliased, some (record { data_array = some (model "large" ∷ []); whole = model "" }))
    ∷ []

listed_ids :
    map (λ m. m.id) (aggregate_models (λ alias owner. alias) results).0
    ≡ some "large" ∷ some "alias" ∷ []
unfolding aggregate_models matches_model by_match any_str rewrite_of look
listed_ids = refl

aggregate_models-Distinct_example : Distinct [] (aggregate_models (λ alias owner. alias) results).0
aggregate_models-Distinct_example = aggregate_models-Distinct (λ alias owner. alias) results

aggregate_models-IsServed_example :
    All (IsServed (large ∷ aliased ∷ [])) (aggregate_models (λ alias owner. alias) results).0
aggregate_models-IsServed_example = aggregate_models-IsServed (λ alias owner. alias) results

abbrev key : CacheKey
key = record { generation = 1; credential = "digest" }

abbrev oldest : List (CacheKey × Entry (List Model)) → Option CacheKey
oldest [] = none
oldest (e ∷ entries) = some e.0
