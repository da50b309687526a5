-- ===== src/Dispatcher/Calls.antt =====
-- Which clients a chain of services/dispatcher.rs calls.
use que_qiao_router.Base.{
  ◌≡◌, ◌⊎◌, refl, sym, ap, ◌∙◌, inl, inr, String, none, some, List, [], ◌∷◌, ◌++◌, map,
  append_assoc, append_nil,
}
use que_qiao_router.Base.Floats.{Floats}
use que_qiao_router.Config.{ClientConfig}
use que_qiao_router.CircuitBreaker.{AttemptPermission}
use que_qiao_router.Dispatcher.{Reply, Environment, Run, ChainResult}
use que_qiao_router.Dispatcher.Execute.{pause, attempt, execute_client_chain}
use que_qiao_router.Dispatcher.Trace.{
  Log, LastError, Asked, Attempts, no_more, passed_over, accepted, failed,
  execute_client_chain-Attempts,
}

-- The elements stand in the second list in the same order, each at a place of its own.
abbrev pub Sublist : List ClientConfig → List ClientConfig → Type 0
Sublist [] cs = Unit
Sublist (d ∷ ds) [] = ⊥
Sublist (d ∷ ds) (c ∷ cs) = ((d ≡ c) × Sublist ds cs) ⊎ Sublist (d ∷ ds) cs

Sublist-cons : (ds cs : List ClientConfig) (c : ClientConfig) → Sublist ds cs → Sublist ds (c ∷ cs)
Sublist-cons [] cs c h = tt
Sublist-cons (d ∷ ds) cs c h = inr h

abbrev pub callers : Log → List ClientConfig
callers log = map (λ p. p.0) log

abbrev pub names : Log → List String
names log = map (λ (p : ClientConfig × Reply). p.0.name) log

module _ (fl : Floats) {W : Type 0} where
  open fl use {F}

  module _ (env : Environment F W) (model : String) where
    -- What a chain's attempts say of its clients.
    abbrev Called : List ClientConfig → Run F W → Log → Run F W → Type 0
    Called clients run log after =
        Sublist (callers log) clients × (after.tried ≡ run.tried ++ names log)

    Asked-tried :
        {c : ClientConfig} {run ready : Run F W} {p : AttemptPermission}
        → Asked fl env model c run p ready
        → ready.tried ≡ run.tried
    unfolding pause
    Asked-tried a = ap (λ (r : Run F W). r.tried) a.kept

    attempt_tried :
        (c : ClientConfig) (ready : Run F W) {after : Run F W} {reply : Reply}
        → attempt fl env c model ready ≡ (reply, after)
        → after.tried ≡ ready.tried ++ c.name ∷ []
    unfolding attempt
    attempt_tried c ready e = sym (ap (λ (r : Reply × Run F W). r.1.tried) e)

    Attempts-Called :
        {clients : List ClientConfig} {last : LastError} {run after : Run F W} {log : Log}
        → Attempts fl env model clients last run log after
        → Called clients run log after
    Attempts-Called {run} no_more = (tt, sym (append_nil run.tried))
    Attempts-Called (passed_over {c} {cs} {log} wait a rest) =
        let r = Attempts-Called rest in
        (Sublist-cons (callers log) cs c r.0, r.1 ∙ ap (λ x. x ++ names log) (Asked-tried a))
    Attempts-Called (accepted {c} {ready} p resp a free e j) =
        (inl (refl, tt), attempt_tried c ready e ∙ ap (λ x. x ++ c.name ∷ []) (Asked-tried a))
    Attempts-Called (failed {c} {run} {ready} {log} p a free e j rest) =
        let r = Attempts-Called rest in
        (
          inl (refl, r.0),
          r.1
              ∙ ap (λ x. x ++ names log)
                  (attempt_tried c ready e ∙ ap (λ x. x ++ c.name ∷ []) (Asked-tried a))
              ∙ append_assoc run.tried (c.name ∷ []) (names log),
        )

    -- The clients that a chain calls stand among its clients in the same order, none twice but where
    -- the list has it twice; and their names, in the order of the calls, are what it adds to the
    -- names tried, which a failing request reports.
    pub execute_client_chain-Called :
        (clients : List ClientConfig) (run after : Run F W) (result : ChainResult)
        → execute_client_chain fl env clients model run ≡ some (result, after)
        → (log : Log) × Attempts fl env model clients none run log after
          × Sublist (callers log) clients
          × (after.tried ≡ run.tried ++ names log)
    execute_client_chain-Called clients run after result h =
        let (log, made, same) =
          execute_client_chain-Attempts fl env model clients run after result h in
        let r = Attempts-Called made in (log, made, r.0, r.1)
