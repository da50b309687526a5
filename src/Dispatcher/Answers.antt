-- ===== src/Dispatcher/Answers.antt =====
-- What the result of a chain of services/dispatcher.rs says of the answers of its clients.
use que_qiao_router.Base.{
  ◌≡◌, ◌≢◌, refl, sym, ap, ◌∙◌, subst, ◌⊎◌, inl, inr, String, Bool, true, false, ◌||◌, Option, none,
  some, List, [], ◌∷◌, ◌++◌, All, arith, Bool-cases, Option-cases, if_true, if_false,
}
use que_qiao_router.Base.Floats.{Floats}
use que_qiao_router.Config.{ClientConfig}
use que_qiao_router.Response.{UpstreamClientErrorKind, Message, Response}
use que_qiao_router.Dispatcher.{
  Reply, ok, err, Environment, Run, ChainResult, respond, fall_back, exhausted, LoopEnd, returned,
  finished, Verdict, accept, continue, is_final, judge, conclude, with_meta, pass_through,
  cooling_response, select_fallback_model,
}
use que_qiao_router.Dispatcher.Execute.{end_result, execute_client_chain}
use que_qiao_router.Dispatcher.Trace.{
  Log, LastError, read_log, Attempts, no_more, passed_over, accepted, failed,
  execute_client_chain-Attempts, read_log_accept, read_log_continue,
}

-- An answer that ends the chain.
abbrev pub is_done : Reply → Bool
is_done (ok resp) = is_final resp.status
is_done (err e) = false

abbrev pub IsError : Reply → Type 0
IsError (ok resp) = ⊥
IsError (err e) = Unit

-- The last answer that was no error of the gateway.
abbrev pub last_ok : Option Response → Log → Option Response
last_ok o [] = o
last_ok o ((c, ok resp) ∷ log) = last_ok (some resp) log
last_ok o ((c, err e) ∷ log) = last_ok o log

-- The same status and body.
pub record SameAnswer (a b : Response) : Type 0 where
  pub status : a.status ≡ b.status
  pub body : a.body ≡ b.body

with_meta-SameAnswer :
    (model : String) (c : ClientConfig) (e : Option Message) (resp : Response)
    → SameAnswer (with_meta model c e resp) resp
unfolding with_meta
with_meta-SameAnswer model c e resp = ground arith

pass_through-SameAnswer :
    (kind : UpstreamClientErrorKind) (resp : Response) → SameAnswer (pass_through kind resp) resp
unfolding pass_through
pass_through-SameAnswer kind resp = ground arith

SameAnswer-trans : (a b c : Response) → SameAnswer a b → SameAnswer b c → SameAnswer a c
SameAnswer-trans a b c h k = record { status = h.status ∙ k.status; body = h.body ∙ k.body }

-- The kept 4xx has the status and body of the last answer.
abbrev Keeps : LastError → Option Response → Type 0
Keeps none none = Unit
Keeps none (some _) = ⊥
Keeps (some _) none = ⊥
Keeps (some (kind, kept)) (some resp) = SameAnswer kept resp

response_of : Verdict → Response → Response
response_of (accept resp) d = resp
response_of (continue last) d = d

accept-injective : {a b : Response} → accept a ≡ accept b → a ≡ b
unfolding response_of
accept-injective {a} h = ap (λ v. response_of v a) h

kept_of : Verdict → LastError
kept_of (accept resp) = none
kept_of (continue last) = last

continue-injective : {a b : LastError} → continue a ≡ continue b → a ≡ b
unfolding kept_of
continue-injective h = ap kept_of h

judge-accept :
    (c : ClientConfig) (model : String) (last : LastError) (reply : Reply) (resp : Response)
    → judge c model last reply ≡ accept resp
    → (r : Response) × (reply ≡ ok r) × (is_final r.status ≡ true) × SameAnswer resp r
unfolding judge
judge-accept c model last (err e) resp h = absurd (cc)
judge-accept c model last (ok r) resp h = elim (Bool-cases (is_final r.status)) [
  | inl final ↦ (
    r,
    refl,
    final,
    subst (λ a. SameAnswer a r) (accept-injective (sym (if_true _ _ final) ∙ h))
        (with_meta-SameAnswer model c _ r),
  )
  | inr other ↦ absurd (cc (sym (if_false _ _ other) ∙ h))
]

judge-continue :
    (c : ClientConfig) (model : String) (last last' : LastError) (o : Option Response)
    (reply : Reply)
    → judge c model last reply ≡ continue last'
    → Keeps last o
    → (is_done reply ≡ false) × Keeps last' (last_ok o ((c, reply) ∷ []))
unfolding judge
judge-continue c model last last' o (err e) h k =
    (refl, subst (λ l. Keeps l o) (continue-injective h) k)
judge-continue c model last last' o (ok r) h k = elim (Bool-cases (is_final r.status)) [
  | inl final ↦ absurd (cc (sym (if_true _ _ final) ∙ h))
  | inr other ↦ (
    other,
    subst (λ l. Keeps l (some r)) (continue-injective (sym (if_false _ _ other) ∙ h))
        (with_meta-SameAnswer model c _ r),
  )
]

last_ok-some : (log : Log) (r : Response) → last_ok (some r) log ≢ none
last_ok-some [] r h = cc
last_ok-some ((c, ok q) ∷ log) r h = last_ok-some log q h
last_ok-some ((c, err e) ∷ log) r h = last_ok-some log r h

errors_of_none : (log : Log) → last_ok none log ≡ none → All (λ p. IsError p.1) log
errors_of_none [] h = tt
errors_of_none ((c, ok r) ∷ log) h = absurd (last_ok-some log r h)
errors_of_none ((c, err e) ∷ log) h = (tt, errors_of_none log h)

Keeps-none : (o : Option Response) → Keeps none o → o ≡ none
Keeps-none none k = refl
Keeps-none (some r) k = absurd k

Keeps-some :
    (kind : UpstreamClientErrorKind) (kept : Response) (o : Option Response)
    → Keeps (some (kind, kept)) o
    → (r : Response) × (o ≡ some r) × SameAnswer kept r
Keeps-some kind kept none k = absurd k
Keeps-some kind kept (some r) k = (r, refl, k)

-- What a result says of the answers, in the order in which they came.
abbrev pub Describes : List ClientConfig → String → Log → ChainResult → Type 0
Describes clients model log (fall_back fallback) =
    (log ≢ [])
    × All (λ p. is_done p.1 ≡ false) log
    × (select_fallback_model clients ≡ some fallback)
Describes clients model log exhausted =
    (log ≢ []) × All (λ p. IsError p.1) log × (select_fallback_model clients ≡ none)
Describes clients model log (respond resp) =
    ((log ≡ []) × (resp ≡ cooling_response model))
    ⊎ ((before : Log) × (c : ClientConfig) × (r : Response) × (log ≡ before ++ (c, ok r) ∷ [])
        × All (λ p. is_done p.1 ≡ false) before
        × (is_final r.status ≡ true)
        × SameAnswer resp r)
    ⊎ (All (λ p. is_done p.1 ≡ false) log
        × (select_fallback_model clients ≡ none)
        × (r : Response) × (last_ok none log ≡ some r)
        × SameAnswer resp r)

abbrev pub is_cons {ℓ} : {A : Type ℓ} → List A → Bool
is_cons [] = false
is_cons (_ ∷ _) = true

-- How the loop ended, with what was known at its start.
abbrev Ends : Bool → LastError → Option Response → Log → LoopEnd → Type 0
Ends attempted last o log (returned resp) =
    (before : Log) × (c : ClientConfig) × (r : Response) × (log ≡ before ++ (c, ok r) ∷ [])
    × All (λ p. is_done p.1 ≡ false) before
    × (is_final r.status ≡ true)
    × SameAnswer resp r
Ends attempted last o log (finished tried kept) =
    (tried ≡ (attempted || is_cons log))
    × All (λ p. is_done p.1 ≡ false) log
    × Keeps kept (last_ok o log)

module _ (fl : Floats) {W : Type 0} where
  open fl use {F}

  module _ (env : Environment F W) (model : String) where
    Ends-cons :
        (c : ClientConfig) (reply : Reply) (last last' : LastError) (attempted : Bool)
        (o : Option Response) (log : Log) (e : LoopEnd)
        → is_done reply ≡ false
        → Ends true last' (last_ok o ((c, reply) ∷ [])) log e
        → Ends attempted last o ((c, reply) ∷ log) e
    Ends-cons c reply last last' attempted o log (returned resp) d (before, c', r, e, all, f, s) =
        ((c, reply) ∷ before, c', r, ap (◌∷◌ (c, reply)) e, (d, all), f, s)
    Ends-cons c (ok r) last last' attempted o log (finished tried kept) d (t, all, k) =
        (ground arith, (d, all), k)
    Ends-cons c (err x) last last' attempted o log (finished tried kept) d (t, all, k) =
        (ground arith, (refl, all), k)

    Attempts-Ends :
        {cs : List ClientConfig} {last : LastError} {run end : Run F W} {log : Log}
        (attempted : Bool) (o : Option Response)
        → Attempts fl env model cs last run log end
        → Keeps last o
        → Ends attempted last o log (read_log model attempted last log)
    unfolding read_log
    Attempts-Ends attempted o no_more k = (ground arith, tt, k)
    Attempts-Ends attempted o (passed_over wait asked rest) k = Attempts-Ends attempted o rest k
    Attempts-Ends attempted o (accepted {c} {last} {reply} p resp asked free call j) k =
        let (r, e, final, same) = judge-accept c model last reply resp j in
        rw (read_log_accept fl env model c attempted last reply [] resp j)
          ([], c, r, ap (λ x. (c, x) ∷ []) e, tt, final, same)
    Attempts-Ends attempted o (failed {c} {last} {last'} {reply} {log} p asked free call j rest) k =
        let (d, k') = judge-continue c model last last' o reply j k in
        rw (read_log_continue fl env model c attempted last last' reply log j) (
          Ends-cons c reply last last' attempted o log (read_log model true last' log) d
            (Attempts-Ends true (last_ok o ((c, reply) ∷ [])) rest k'))

    conclude-none :
        (clients : List ClientConfig) (kept : LastError) (log : Log)
        → log ≢ []
        → All (λ p. is_done p.1 ≡ false) log
        → Keeps kept (last_ok none log)
        → select_fallback_model clients ≡ none
        → Describes clients model log (conclude clients model true kept)
    unfolding conclude
    conclude-none clients none log cons all k e =
        rw (e, conclude) (cons, errors_of_none log (Keeps-none _ k), e)
    conclude-none clients (some (kind, kept)) log cons all k e =
        let (r, last, same) = Keeps-some kind kept (last_ok none log) k in
        rw (e, conclude)
          (inr (
            inr (
              all,
              e,
              r,
              last,
              SameAnswer-trans _ kept r (pass_through-SameAnswer kind kept) same,
            )))

    conclude-Describes :
        (clients : List ClientConfig) (kept : LastError) (log : Log) (tried : Bool)
        → Ends false none none log (finished tried kept)
        → Describes clients model log (conclude clients model tried kept)
    unfolding conclude
    conclude-Describes clients kept [] false h = inl (refl, refl)
    conclude-Describes clients kept (p ∷ log) false h = absurd (cc h.0)
    conclude-Describes clients kept [] true h = absurd (cc h.0)
    conclude-Describes clients kept (p ∷ log) true h =
        elim (Option-cases (select_fallback_model clients)) [
          | inl e ↦ conclude-none clients kept (p ∷ log) (λ q. cc q) h.1 h.2 e
          | inr (fallback, e) ↦ rw (e, conclude) ((λ q. cc q), h.1, e)
        ]

    Ends-Describes :
        (clients : List ClientConfig) (log : Log) (e : LoopEnd)
        → Ends false none none log e
        → Describes clients model log (end_result fl env clients model e)
    unfolding end_result
    Ends-Describes clients log (returned resp) h = inr (inl h)
    Ends-Describes clients log (finished tried kept) h = conclude-Describes clients kept log tried h

    -- The result of a chain and the answers of the clients that were called determine each other as
    -- follows. 503 for cooling down: nobody was called. An answer that ends the chain, which only
    -- the last one called gave: its status and body are returned. Otherwise all that were called,
    -- one at least, failed: the first fallback in the order of the clients is taken; without one the
    -- last answer that was no error of the gateway is passed on, status and body; and without that
    -- the chain is exhausted.
    pub execute_client_chain-Describes :
        (clients : List ClientConfig) (run after : Run F W) (result : ChainResult)
        → execute_client_chain fl env clients model run ≡ some (result, after)
        → (log : Log) × Attempts fl env model clients none run log after
          × Describes clients model log result
    execute_client_chain-Describes clients run after result h =
        let (log, made, same) =
          execute_client_chain-Attempts fl env model clients run after result h in
        (
          log,
          made,
          subst (Describes clients model log) (sym same) (
              Ends-Describes clients log (read_log model false none log)
                (Attempts-Ends false none made tt)),
        )
