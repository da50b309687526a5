-- ===== src/ModelList/Routable.antt =====
-- handlers/model_handler.rs: a listed model can be requested.
use que_qiao_router.Base.{
  ◌≡◌, refl, sym, ◌∙◌, subst, inl, inr, String, Bool, true, false, ◌||◌, Option, none, some, List,
  [], ◌∷◌, arith, All, All-append, Bool-cases, Option-cases, if_true, if_false, map, or_else,
  str_eq, eq_refl, lookup,
}
use que_qiao_router.Config.{ClientConfig, matches_model, rewrite_of, is_some}
use que_qiao_router.Dispatcher.{find_matching_clients}
use que_qiao_router.ModelList.{
  Model, Listing, offered, keep_offered, models_of, collect, seen, unique, add_aliases, aliases,
  aggregate_models,
}

-- Some client takes the model.
abbrev pub has_client : List ClientConfig → String → Bool
has_client [] id = false
has_client (c ∷ cs) id = matches_model c id || has_client cs id

-- The model has an identifier that a client takes.
abbrev pub IsRoutable : List ClientConfig → Model → Type 0
IsRoutable clients m = (id : String) × (m.id ≡ some id) × (has_client clients id ≡ true)

IsRoutable-cons :
    (c : ClientConfig) (clients : List ClientConfig) (m : Model)
    → IsRoutable clients m
    → IsRoutable (c ∷ clients) m
IsRoutable-cons c clients m (id, e, h) = (id, e, ground arith)

IsRoutable-All :
    (c : ClientConfig) (clients : List ClientConfig) (ms : List Model)
    → All (IsRoutable clients) ms
    → All (IsRoutable (c ∷ clients)) ms
IsRoutable-All c clients [] h = tt
IsRoutable-All c clients (m ∷ ms) h =
    (IsRoutable-cons c clients m h.0, IsRoutable-All c clients ms h.1)

offered-IsRoutable :
    (c : ClientConfig) (clients : List ClientConfig) (m : Model)
    → offered c m ≡ true
    → IsRoutable (c ∷ clients) m
offered-IsRoutable c clients m h = elim (Option-cases m.id) [
  | inl e ↦ absurd (cc (rw e at h))
  | inr (id, e) ↦ let h' : matches_model c id ≡ true = rw e at h in (id, e, ground arith)
]

keep_offered-IsRoutable :
    (c : ClientConfig) (clients : List ClientConfig) (ms : List Model)
    → All (IsRoutable (c ∷ clients)) (keep_offered c ms)
unfolding keep_offered
keep_offered-IsRoutable c clients [] = tt
keep_offered-IsRoutable c clients (m ∷ ms) = elim (Bool-cases (offered c m)) [
  | inl kept ↦
      subst (All (IsRoutable (c ∷ clients))) (sym (if_true _ _ kept))
        (offered-IsRoutable c clients m kept, keep_offered-IsRoutable c clients ms)
  | inr out ↦
      subst (All (IsRoutable (c ∷ clients))) (sym (if_false _ _ out))
        (keep_offered-IsRoutable c clients ms)
]

models_of-IsRoutable :
    (c : ClientConfig) (clients : List ClientConfig) (l : Listing)
    → All (IsRoutable (c ∷ clients)) (models_of c l)
unfolding models_of
models_of-IsRoutable c clients l = elim (Option-cases l.data_array) [
  | inl e ↦ rw (models_of, e) (keep_offered-IsRoutable c clients (l.whole ∷ []))
  | inr (found, e) ↦ rw (models_of, e) (keep_offered-IsRoutable c clients found)
]

collect-IsRoutable :
    (results : List (ClientConfig × Option Listing))
    → All (IsRoutable (map (λ r. r.0) results)) (collect results).0
unfolding collect
collect-IsRoutable [] = tt
collect-IsRoutable ((c, none) ∷ results) =
    IsRoutable-All c (map (λ r. r.0) results) (collect results).0 (collect-IsRoutable results)
collect-IsRoutable ((c, some l) ∷ results) =
    let clients = map (λ (r : ClientConfig × Option Listing). r.0) results in
    All-append (IsRoutable (c ∷ clients)) (models_of c l) (collect results).0
      (models_of-IsRoutable c clients l)
      (IsRoutable-All c clients (collect results).0 (collect-IsRoutable results))

unique-All :
    (P : Model → Type 0) (ms : List Model) (ids : List String) → All P ms → All P (unique ms ids).0
unfolding unique
unique-All P [] ids h = tt
unique-All P (m ∷ ms) ids h = elim (Option-cases m.id) [
  | inl e ↦ rw (unique, e) (h.0, unique-All P ms ids h.1)
  | inr (id, e) ↦ elim (Bool-cases (seen id ids)) [
    | inl old ↦ rw (unique, e, old) (unique-All P ms ids h.1)
    | inr new ↦ rw (unique, e, new) (h.0, unique-All P ms (id ∷ ids) h.1)
  ]
]

-- Each key of a map is found in it.
abbrev IsKey : List (String × String) → String × String → Type 0
IsKey rewrites p = is_some (lookup p.0 rewrites) ≡ true

IsKey-cons :
    (q : String × String) (rewrites rest : List (String × String))
    → All (IsKey rewrites) rest
    → All (IsKey (q ∷ rewrites)) rest
unfolding lookup
IsKey-cons q rewrites [] h = tt
IsKey-cons q rewrites (p ∷ rest) h = (
  elim (Bool-cases (str_eq q.0 p.0)) [
    | inl same ↦ rw (lookup, same) refl
    | inr apart ↦ rw (lookup, apart) h.0
  ],
  IsKey-cons q rewrites rest h.1,
)

keys-IsKey : (rewrites : List (String × String)) → All (IsKey rewrites) rewrites
unfolding lookup
keys-IsKey [] = tt
keys-IsKey (p ∷ rewrites) =
    (rw (lookup, eq_refl p.0) refl, IsKey-cons p rewrites rewrites (keys-IsKey rewrites))

alias_matches :
    (c : ClientConfig) (alias : String)
    → is_some (lookup alias (or_else c.model_rewrite [])) ≡ true
    → matches_model c alias ≡ true
unfolding matches_model rewrite_of lookup
alias_matches c alias h = elim (Option-cases c.model_rewrite) [
  | inl e ↦ absurd (cc (rw (e, lookup) at h))
  | inr (rewrites, e) ↦
      let h' : is_some (lookup alias rewrites) ≡ true = rw e at h in
      let found : is_some (rewrite_of c alias) ≡ true = rw (rewrite_of, e) h' in ground arith
]

add_aliases-IsRoutable :
    (alias_json : String → String → String) (c : ClientConfig) (clients : List ClientConfig)
    (rewrites : List (String × String)) (ids : List String)
    → All (IsKey (or_else c.model_rewrite [])) rewrites
    → All (IsRoutable (c ∷ clients)) (add_aliases alias_json c rewrites ids).0
unfolding add_aliases
add_aliases-IsRoutable alias_json c clients [] ids h = tt
add_aliases-IsRoutable alias_json c clients ((alias, target) ∷ rewrites) ids h =
    elim (Bool-cases (seen alias ids)) [
      | inl old ↦
          rw (add_aliases, old) (add_aliases-IsRoutable alias_json c clients rewrites ids h.1)
      | inr new ↦
          let taken = alias_matches c alias h.0 in
          rw (add_aliases, new)
            (
              (alias, refl, ground arith),
              add_aliases-IsRoutable alias_json c clients rewrites (alias ∷ ids) h.1,
            )
    ]

aliases-IsRoutable :
    (alias_json : String → String → String) (clients : List ClientConfig) (ids : List String)
    → All (IsRoutable clients) (aliases alias_json clients ids).0
unfolding aliases
aliases-IsRoutable alias_json [] ids = tt
aliases-IsRoutable alias_json (c ∷ clients) ids =
    let r = add_aliases alias_json c (or_else c.model_rewrite []) ids in
    All-append (IsRoutable (c ∷ clients)) r.0 (aliases alias_json clients r.1).0
      (add_aliases-IsRoutable alias_json c clients (or_else c.model_rewrite []) ids
        (keys-IsKey (or_else c.model_rewrite [])))
      (IsRoutable-All c clients (aliases alias_json clients r.1).0
        (aliases-IsRoutable alias_json clients r.1))

aggregate-IsRoutable :
    (alias_json : String → String → String) (results : List (ClientConfig × Option Listing))
    → All (IsRoutable (map (λ r. r.0) results)) (aggregate_models alias_json results).0
unfolding aggregate_models
aggregate-IsRoutable alias_json results =
    let clients = map (λ (r : ClientConfig × Option Listing). r.0) results in
    let listed = unique (collect results).0 [] in
    All-append (IsRoutable clients) listed.0 (aliases alias_json clients listed.1).0
      (unique-All (IsRoutable clients) (collect results).0 [] (collect-IsRoutable results))
      (aliases-IsRoutable alias_json clients listed.1)

-- A model that a client takes is routed to one, at the least.
matching-has :
    (clients : List ClientConfig) (id : String)
    → has_client clients id ≡ true
    → (c : ClientConfig) × (cs : List ClientConfig) × (find_matching_clients clients id ≡ c ∷ cs)
unfolding find_matching_clients
matching-has [] id h = absurd (cc)
matching-has (c ∷ clients) id h = elim (Bool-cases (matches_model c id)) [
  | inl here ↦ (c, find_matching_clients clients id, if_true _ _ here)
  | inr out ↦
      let (d, cs, e) = matching-has clients id (rw out at h) in (d, cs, if_false _ _ out ∙ e)
]

abbrev pub IsServed : List ClientConfig → Model → Type 0
IsServed clients m =
    (id : String) × (m.id ≡ some id)
    × (c : ClientConfig) × (cs : List ClientConfig) × (find_matching_clients clients id ≡ c ∷ cs)

IsServed-All :
    (clients : List ClientConfig) (ms : List Model)
    → All (IsRoutable clients) ms
    → All (IsServed clients) ms
IsServed-All clients [] h = tt
IsServed-All clients (m ∷ ms) ((id, e, has_), h) =
    let (c, cs, found) = matching-has clients id has_ in
    ((id, e, c, cs, found), IsServed-All clients ms h)

-- Whatever the upstreams answer, each model that is listed, by an upstream or as an alias, has an
-- identifier, and the dispatcher has a backend for a request that names it.
pub aggregate_models-IsServed :
    (alias_json : String → String → String) (results : List (ClientConfig × Option Listing))
    → All (IsServed (map (λ r. r.0) results)) (aggregate_models alias_json results).0
aggregate_models-IsServed alias_json results =
    IsServed-All (map (λ r. r.0) results) (aggregate_models alias_json results).0
      (aggregate-IsRoutable alias_json results)
