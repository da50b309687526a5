-- ===== src/ModelList/Aggregate.antt =====
-- handlers/model_handler.rs: which models are listed.
use que_qiao_router.Base.{
  ◌≡◌, refl, sym, ap, ◌∙◌, subst, inl, inr, String, false, Option, none, some, List, [], ◌∷◌, ◌++◌,
  Bool-cases, Option-cases, map, or_else,
}
use que_qiao_router.Config.{ClientConfig}
use que_qiao_router.ModelList.{
  Model, Listing, collect, seen, unique, add_aliases, aliases, aggregate_models,
}

-- The identifiers after a model.
abbrev pub with_id : Option String → List String → List String
with_id none ids = ids
with_id (some id) ids = id ∷ ids

abbrev pub after : List String → List Model → List String
after ids [] = ids
after ids (m ∷ ms) = after (with_id m.id ids) ms

abbrev pub IsNew : Option String → List String → Type 0
IsNew none ids = Unit
IsNew (some id) ids = seen id ids ≡ false

-- No two of the models have one identifier, and none has one of those before them.
abbrev pub Distinct : List String → List Model → Type 0
Distinct ids [] = Unit
Distinct ids (m ∷ ms) = IsNew m.id ids × Distinct (with_id m.id ids) ms

after-append :
    (ids : List String) (ms ns : List Model) → after ids (ms ++ ns) ≡ after (after ids ms) ns
after-append ids [] ns = refl
after-append ids (m ∷ ms) ns = after-append (with_id m.id ids) ms ns

Distinct-append :
    (ids : List String) (ms ns : List Model)
    → Distinct ids ms
    → Distinct (after ids ms) ns
    → Distinct ids (ms ++ ns)
Distinct-append ids [] ns h k = k
Distinct-append ids (m ∷ ms) ns h k = (h.0, Distinct-append (with_id m.id ids) ms ns h.1 k)

-- A list of models with the identifiers after it.
record Lists (ids : List String) (r : List Model × List String) : Type 0 where
  distinct : Distinct ids r.0
  ids_after : r.1 ≡ after ids r.0

add_first :
    (ids : List String) (m : Model) (r : List Model × List String)
    → IsNew m.id ids
    → Lists (with_id m.id ids) r
    → Lists ids (m ∷ r.0, r.1)
add_first ids m r new l = record { distinct = (new, l.distinct); ids_after = l.ids_after }

unique-Lists : (ms : List Model) (ids : List String) → Lists ids (unique ms ids)
unfolding unique
unique-Lists [] ids = record { distinct = tt; ids_after = refl }
unique-Lists (m ∷ ms) ids = elim (Option-cases m.id) [
  | inl e ↦
      let l = unique-Lists ms ids in
      rw (unique, e)
        (add_first ids m (unique ms ids) (rw e tt)
          (subst (λ o. Lists (with_id o ids) (unique ms ids)) (sym e) l))
  | inr (id, e) ↦ elim (Bool-cases (seen id ids)) [
    | inl old ↦ rw (unique, e, old) (unique-Lists ms ids)
    | inr new ↦
        rw (unique, e, new)
          (add_first ids m (unique ms (id ∷ ids)) (subst (λ o. IsNew o ids) (sym e) new) (
            subst (λ o. Lists (with_id o ids) (unique ms (id ∷ ids))) (sym e)
              (unique-Lists ms (id ∷ ids))))
  ]
]

add_aliases-Lists :
    (alias_json : String → String → String) (client : ClientConfig)
    (rewrites : List (String × String)) (ids : List String)
    → Lists ids (add_aliases alias_json client rewrites ids)
unfolding add_aliases
add_aliases-Lists alias_json client [] ids = record { distinct = tt; ids_after = refl }
add_aliases-Lists alias_json client ((alias, target) ∷ rewrites) ids =
    elim (Bool-cases (seen alias ids)) [
      | inl old ↦ rw (add_aliases, old) (add_aliases-Lists alias_json client rewrites ids)
      | inr new ↦
          let m : Model = record { id = some alias; json = alias_json alias client.name } in
          rw (add_aliases, new)
            (add_first ids m (add_aliases alias_json client rewrites (alias ∷ ids)) new
              (add_aliases-Lists alias_json client rewrites (alias ∷ ids)))
    ]

both_Lists :
    (ids : List String) (r q : List Model × List String)
    → Lists ids r
    → Lists r.1 q
    → Lists ids (r.0 ++ q.0, q.1)
both_Lists ids r q l k = record {
  distinct =
      Distinct-append ids r.0 q.0 l.distinct (subst (λ x. Distinct x q.0) l.ids_after k.distinct);
  ids_after = k.ids_after ∙ ap (λ x. after x q.0) l.ids_after ∙ sym (after-append ids r.0 q.0);
}

aliases-Lists :
    (alias_json : String → String → String) (clients : List ClientConfig) (ids : List String)
    → Lists ids (aliases alias_json clients ids)
unfolding aliases
aliases-Lists alias_json [] ids = record { distinct = tt; ids_after = refl }
aliases-Lists alias_json (client ∷ clients) ids =
    let r = add_aliases alias_json client (or_else client.model_rewrite []) ids in
    both_Lists ids r (aliases alias_json clients r.1)
      (add_aliases-Lists alias_json client (or_else client.model_rewrite []) ids)
      (aliases-Lists alias_json clients r.1)

-- No identifier is listed twice, whatever the upstreams answer and the aliases are.
pub aggregate_models-Distinct :
    (alias_json : String → String → String) (results : List (ClientConfig × Option Listing))
    → Distinct [] (aggregate_models alias_json results).0
unfolding aggregate_models
aggregate_models-Distinct alias_json results =
    let listed = unique (collect results).0 [] in
    (both_Lists [] listed (aliases alias_json (map (λ r. r.0) results) listed.1)
      (unique-Lists (collect results).0 [])
      (aliases-Lists alias_json (map (λ r. r.0) results) listed.1)).distinct
