-- ===== src/RequestBody/Lookup.antt =====
-- handlers/request_body.rs: what each of its steps leaves under a name.
use que_qiao_router.Base.{
  ◌≡◌, refl, ap, subst, ◌∙◌, inl, inr, String, Bool, true, false, Option, none, some, List, [], ◌∷◌,
  ◌++◌, ◌||◌, str_eq, eq_iff, lookup, insert, lookup-insert_self, lookup-insert_ne,
  lookup-remove_ne, Bool-cases, Option-cases,
}
use que_qiao_router.RequestBody.{
  Json, Object, put, put_all, apply_extra, apply_extra_body_cached, put_stream_options,
}

abbrev pub or_value : Option Json → Option Json → Option Json
or_value none o = o
or_value (some v) o = some v

-- One of the fields has the name.
abbrev pub named : String → List (String × Option Json) → Bool
named key [] = false
named key ((name, value) ∷ later) = str_eq name key || named key later

lookup-put :
    (name key : String) (value : Option Json) (body : Object)
    → str_eq name key ≡ false
    → lookup key (put name value body) ≡ lookup key body
lookup-put name key none body h = refl
lookup-put name key (some v) body h = lookup-insert_ne name key v body h

or_false : (a b : Bool) → (a || b) ≡ false → (a ≡ false) × (b ≡ false)
or_false true b h = absurd (cc)
or_false false b h = (refl, h)

pub lookup-put_all :
    (key : String) (fields : List (String × Option Json)) (body : Object)
    → named key fields ≡ false
    → lookup key (put_all fields body) ≡ lookup key body
unfolding put_all
lookup-put_all key [] body h = refl
lookup-put_all key ((name, value) ∷ later) body h =
    let parts = or_false (str_eq name key) (named key later) h in
    lookup-put_all key later (put name value body) parts.1 ∙ lookup-put name key value body parts.0

-- A field that no later one has the name of.
pub lookup-put_all_here :
    (key : String) (v : Json) (earlier later : List (String × Option Json)) (body : Object)
    → named key later ≡ false
    → lookup key (put_all (earlier ++ (key, some v) ∷ later) body) ≡ some v
unfolding put_all
lookup-put_all_here key v [] later body h =
    lookup-put_all key later (insert key v body) h ∙ lookup-insert_self key v body
lookup-put_all_here key v ((name, value) ∷ earlier) later body h =
    lookup-put_all_here key v earlier later (put name value body) h

pub lookup-put_stream_options :
    (key : String) (stream : Bool) (opts : Option Json) (body : Object)
    → str_eq "stream_options" key ≡ false
    → lookup key (put_stream_options stream opts body) ≡ lookup key body
lookup-put_stream_options key true opts body h = lookup-insert_ne "stream_options" key _ body h
lookup-put_stream_options key false opts body h = lookup-remove_ne "stream_options" key body h

or_none : (o : Option Json) → o ≡ or_value o none
or_none none = refl
or_none (some v) = refl

-- An extra body only fills in what is missing.
pub lookup-apply_extra :
    (key : String) (extra target : Object)
    → lookup key (apply_extra target extra) ≡ or_value (lookup key target) (lookup key extra)
unfolding apply_extra lookup
lookup-apply_extra key [] target = or_none (lookup key target)
lookup-apply_extra key ((name, value) ∷ extra) target = elim (Bool-cases (str_eq name key)) [
  | inl same ↦
      let is : name ≡ key = (eq_iff name key).0 same in
      elim (Option-cases (lookup name target)) [
        | inl missing ↦
            let now =
              subst (λ k. lookup k (insert name value target) ≡ some value) is
                (lookup-insert_self name value target) in
            rw (missing, same, subst (λ k. lookup k target ≡ none) is missing)
              (lookup-apply_extra key extra (insert name value target)
                ∙ ap (λ o. or_value o (lookup key extra)) now)
        | inr (v, there) ↦
            let here = subst (λ k. lookup k target ≡ some v) is there in
            rw (there, here)
              (lookup-apply_extra key extra target ∙ ap (λ o. or_value o (lookup key extra)) here)
      ]
  | inr apart ↦ elim (Option-cases (lookup name target)) [
    | inl missing ↦
        rw (missing, apart)
          (lookup-apply_extra key extra (insert name value target)
            ∙ ap (λ o. or_value o (lookup key extra))
                (lookup-insert_ne name key value target apart))
    | inr (v, there) ↦ rw (there, apart) (lookup-apply_extra key extra target)
  ]
]

abbrev pub extra_value : String → Option Object → Option Json
extra_value key none = none
extra_value key (some extra) = lookup key extra

pub lookup-apply_extra_body_cached :
    (key : String) (extra : Option Object) (body : Object)
    → lookup key (apply_extra_body_cached extra body)
      ≡ or_value (lookup key body) (extra_value key extra)
lookup-apply_extra_body_cached key none body = or_none (lookup key body)
lookup-apply_extra_body_cached key (some extra) body = lookup-apply_extra key extra body
