-- ===== src/Dispatcher/Trace.antt =====
-- The attempts of services/dispatcher.rs as a relation, and the result of a chain as a function of
-- the answers alone.
use que_qiao_router.Base.{
  ℕ, ◌≡◌, ◌≢◌, refl, sym, ap, ◌∙◌, subst, ◌⊎◌, inl, inr, String, Bool, true, false, Option, none,
  some, List, [], ◌∷◌, >>=-eq-some, eq_of_some, arith,
}
use que_qiao_router.Base.Floats.{Floats}
use que_qiao_router.Config.{ClientConfig}
use que_qiao_router.CircuitBreaker.{
  AttemptPermission, allowed, half_open, blocked, RegistryState, allow,
}
use que_qiao_router.Response.{UpstreamClientErrorKind, Response}
use que_qiao_router.Dispatcher.{
  Reply, Environment, Run, ChainResult, LoopEnd, returned, finished, Verdict, accept, continue,
  judge,
}
use que_qiao_router.Dispatcher.Execute.{
  pause, attempt, try_clients, end_result, execute_client_chain,
}

-- The clients that were called, with their answers, in order.
abbrev pub Log : Type 0
Log = List (ClientConfig × Reply)

abbrev pub LastError : Type 0
LastError = Option (UpstreamClientErrorKind × Response)

-- The end of the loop as told by the answers: the first that is accepted ends it.
unfoldable pub read_log : String → Bool → LastError → Log → LoopEnd
read_log model attempted last [] = finished attempted last
read_log model attempted last ((c, reply) ∷ log) = elim (judge c model last reply) [
  | accept resp ↦ returned resp
  | continue last' ↦ read_log model true last' log
]

module _ (fl : Floats) {W : Type 0} where
  open fl use {F}

  module _ (env : Environment F W) (model : String) where
    -- The run before a client is asked for, with the registry's permission, and after it.
    pub record Asked (c : ClientConfig) (run : Run F W) (p : AttemptPermission) (ready : Run F W)
        : Type 0 where
      pub registry : RegistryState F
      pub answer :
          allow fl c (env.clock (pause fl env run).world) (pause fl env run).registry
          ≡ some (p, registry)
      pub kept : ready ≡ record (pause fl env run) { registry = registry }

    -- From a run through the clients to a run, with the calls that were made. A client that is
    -- cooling down is passed over, the others are called once each, in the order of the list, until
    -- an answer is accepted.
    pub data Attempts : List ClientConfig → LastError → Run F W → Log → Run F W → Type 0 where
      no_more : {last : LastError} {run : Run F W} → Attempts [] last run [] run
      passed_over :
          {c : ClientConfig} {cs : List ClientConfig} {last : LastError} {run ready end : Run F W}
          {log : Log} (wait : ℕ)
          → Asked c run (blocked wait) ready
          → Attempts cs last ready log end
          → Attempts (c ∷ cs) last run log end
      accepted :
          {c : ClientConfig} {cs : List ClientConfig} {last : LastError} {run ready end : Run F W}
          {reply : Reply} (p : AttemptPermission) (resp : Response)
          → Asked c run p ready
          → ((wait : ℕ) → p ≢ blocked wait)
          → attempt fl env c model ready ≡ (reply, end)
          → judge c model last reply ≡ accept resp
          → Attempts (c ∷ cs) last run ((c, reply) ∷ []) end
      failed :
          {c : ClientConfig} {cs : List ClientConfig} {last last' : LastError}
          {run ready after end : Run F W} {reply : Reply} {log : Log} (p : AttemptPermission)
          → Asked c run p ready
          → ((wait : ℕ) → p ≢ blocked wait)
          → attempt fl env c model ready ≡ (reply, after)
          → judge c model last reply ≡ continue last'
          → Attempts cs last' after log end
          → Attempts (c ∷ cs) last run ((c, reply) ∷ log) end

    Verdict-cases :
        (v : Verdict)
        → ((resp : Response) × (v ≡ accept resp)) ⊎ ((last : LastError) × (v ≡ continue last))
    Verdict-cases (accept resp) = inl (resp, refl)
    Verdict-cases (continue last) = inr (last, refl)

    pub permission_cases :
        (p : AttemptPermission)
        → ((wait : ℕ) × (p ≡ blocked wait)) ⊎ ((wait : ℕ) → p ≢ blocked wait)
    permission_cases allowed = inr (λ w e. cc e)
    permission_cases half_open = inr (λ w e. cc e)
    permission_cases (blocked w) = inl (w, refl)

    -- What the body of the loop does once the registry has answered.
    body :
        ClientConfig
        → List ClientConfig
        → Bool
        → LastError
        → AttemptPermission
        → Run F W
        → Option (LoopEnd × Run F W)
    body c cs attempted last p ready = elim p [
      | blocked _ ↦ try_clients fl env cs model attempted last ready
      | _ ↦
          let (reply, after) = attempt fl env c model ready in
          elim (judge c model last reply) [
            | accept resp ↦ some (returned resp, after)
            | continue last' ↦ try_clients fl env cs model true last' after
          ]
    ]

    try_clients_step :
        (c : ClientConfig) (cs : List ClientConfig) (attempted : Bool) (last : LastError)
        (run : Run F W) {r : LoopEnd × Run F W}
        → try_clients fl env (c ∷ cs) model attempted last run ≡ some r
        → (p : AttemptPermission) × (ready : Run F W) × Asked c run p ready
          × (body c cs attempted last p ready ≡ some r)
    unfolding try_clients body
    try_clients_step c cs attempted last run h =
        let (q, e, rest) =
          >>=-eq-some (allow fl c (env.clock (pause fl env run).world) (pause fl env run).registry)
            _ h in
        (
          q.0,
          record (pause fl env run) { registry = q.1 },
          record { registry = q.1; answer = e; kept = refl },
          rest,
        )

    try_clients_answered :
        (c : ClientConfig) (cs : List ClientConfig) (attempted : Bool) (last : LastError)
        (run : Run F W) (p : AttemptPermission) (registry : RegistryState F)
        → allow fl c (env.clock (pause fl env run).world) (pause fl env run).registry
          ≡ some (p, registry)
        → try_clients fl env (c ∷ cs) model attempted last run
          ≡ body c cs attempted last p (record (pause fl env run) { registry = registry })
    unfolding try_clients body
    try_clients_answered c cs attempted last run p registry e = rw e

    -- The same, after the handler's answer.
    follow : ClientConfig → List ClientConfig → Verdict → Run F W → Option (LoopEnd × Run F W)
    follow c cs (accept resp) after = some (returned resp, after)
    follow c cs (continue last') after = try_clients fl env cs model true last' after

    body_called :
        (c : ClientConfig) (cs : List ClientConfig) (attempted : Bool) (last : LastError)
        (p : AttemptPermission) (ready : Run F W)
        → ((wait : ℕ) → p ≢ blocked wait)
        → body c cs attempted last p ready
          ≡ follow c cs
              (judge c model last (attempt fl env c model ready).0)
              (attempt fl env c model ready).1
    unfolding body follow
    body_called c cs attempted last allowed ready h = ground arith
    body_called c cs attempted last half_open ready h = ground arith
    body_called c cs attempted last (blocked w) ready h = absurd (h w refl)

    pub try_clients_nil :
        (attempted : Bool) (last : LastError) (run : Run F W)
        → try_clients fl env [] model attempted last run ≡ some (finished attempted last, run)
    unfolding try_clients
    try_clients_nil attempted last run = refl

    -- One round of the loop, at a client that is called in vain.
    pub try_clients_continue :
        (c : ClientConfig) (cs : List ClientConfig) (attempted : Bool) (last last' : LastError)
        (run : Run F W) (p : AttemptPermission) (registry : RegistryState F)
        → let ready = record (pause fl env run) { registry = registry } in
          allow fl c (env.clock (pause fl env run).world) (pause fl env run).registry
            ≡ some (p, registry)
          → ((wait : ℕ) → p ≢ blocked wait)
          → judge c model last (attempt fl env c model ready).0 ≡ continue last'
          → try_clients fl env (c ∷ cs) model attempted last run
            ≡ try_clients fl env cs model true last' (attempt fl env c model ready).1
    unfolding follow
    try_clients_continue c cs attempted last last' run p registry e free j =
        let ready = record (pause fl env run) { registry = registry } in
        try_clients_answered c cs attempted last run p registry e
        ∙ body_called c cs attempted last p ready free
        ∙ ap (λ v. follow c cs v (attempt fl env c model ready).1) j

    pub read_log_accept :
        (c : ClientConfig) (attempted : Bool) (last : LastError) (reply : Reply) (log : Log)
        (resp : Response)
        → judge c model last reply ≡ accept resp
        → read_log model attempted last ((c, reply) ∷ log) ≡ returned resp
    unfolding read_log
    read_log_accept c attempted last reply log resp e = rw (e, read_log)

    pub read_log_continue :
        (c : ClientConfig) (attempted : Bool) (last last' : LastError) (reply : Reply) (log : Log)
        → judge c model last reply ≡ continue last'
        → read_log model attempted last ((c, reply) ∷ log) ≡ read_log model true last' log
    unfolding read_log
    read_log_continue c attempted last last' reply log e = rw (e, read_log)

    -- A run of the loop is a list of attempts, and its end is what the answers tell.
    abbrev Explains : List ClientConfig → Bool → LastError → Run F W → LoopEnd × Run F W → Type 0
    Explains cs attempted last run r =
        (log : Log) × Attempts cs last run log r.1 × (r.0 ≡ read_log model attempted last log)

    explain_end :
        (attempted : Bool) (last : LastError) (run : Run F W)
        → Explains [] attempted last run (finished attempted last, run)
    unfolding read_log
    explain_end attempted last run = ([], no_more, refl)

    explain_follow :
        {c : ClientConfig} {cs : List ClientConfig} {run ready : Run F W} (attempted : Bool)
        (last : LastError) (p : AttemptPermission) {r : LoopEnd × Run F W}
        → Asked c run p ready
        → ((wait : ℕ) → p ≢ blocked wait)
        → follow c cs
            (judge c model last (attempt fl env c model ready).0)
            (attempt fl env c model ready).1
          ≡ some r
        → ((last' : LastError)
            → try_clients fl env cs model true last' (attempt fl env c model ready).1 ≡ some r
            → Explains cs true last' (attempt fl env c model ready).1 r)
        → Explains (c ∷ cs) attempted last run r
    unfolding follow
    explain_follow {c} {cs} {run} {ready} attempted last p {r} asked free h ih =
        let reply = (attempt fl env c model ready).0 in
        elim (Verdict-cases (judge c model last reply)) [
          | inl (resp, e) ↦
              let h' : ◌≡◌ {A = Option (LoopEnd × Run F W)}
                  (some (returned resp, (attempt fl env c model ready).1)) (some r) =
                rw e at h in
              subst (Explains (c ∷ cs) attempted last run) (eq_of_some h') (
                (c, reply) ∷ [],
                accepted p resp asked free refl e,
                sym (read_log_accept c attempted last reply [] resp e),
              )
          | inr (last', e) ↦
              let (log, later, same) = ih last' (rw e at h) in
              (
                (c, reply) ∷ log,
                failed p asked free refl e later,
                same ∙ sym (read_log_continue c attempted last last' reply log e),
              )
        ]

    pub explain :
        (cs : List ClientConfig) (attempted : Bool) (last : LastError) (run : Run F W)
        {r : LoopEnd × Run F W}
        → try_clients fl env cs model attempted last run ≡ some r
        → Explains cs attempted last run r
    unfolding try_clients body
    explain [] attempted last run h =
        subst (Explains [] attempted last run) (eq_of_some h) (explain_end attempted last run)
    explain (c ∷ cs) attempted last run h =
        let (p, ready, asked, rest) = try_clients_step c cs attempted last run h in
        elim (permission_cases p) [
          | inl (wait, e) ↦
              let (log, later, same) = explain cs attempted last ready (rw e at rest) in
              (log, passed_over wait (subst (λ q. Asked c run q ready) e asked) later, same)
          | inr free ↦
              explain_follow attempted last p asked free
                (sym (body_called c cs attempted last p ready free) ∙ rest)
                (λ last' h'. explain cs true last' (attempt fl env c model ready).1 h')
        ]

    pub execute_client_chain-Attempts :
        (clients : List ClientConfig) (run after : Run F W) (result : ChainResult)
        → execute_client_chain fl env clients model run ≡ some (result, after)
        → (log : Log) × Attempts clients none run log after
          × (result ≡ end_result fl env clients model (read_log model false none log))
    unfolding execute_client_chain
    execute_client_chain-Attempts clients run after result h =
        let (r, e, rest) = >>=-eq-some (try_clients fl env clients model false none run) _ h in
        let (log, made, same) = explain clients false none run e in
        let q = eq_of_some rest in
        (
          log,
          subst (Attempts clients none run log) (ap (λ (x : ChainResult × Run F W). x.1) q) made,
          sym (ap (λ (x : ChainResult × Run F W). x.0) q)
              ∙ ap (end_result fl env clients model) same,
        )
