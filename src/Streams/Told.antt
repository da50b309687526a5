-- ===== src/Streams/Told.antt =====
-- handlers/stream_handler.rs: the client of a stream that has ended has been told so.
use que_qiao_router.Base.{
  ◌≡◌, refl, sym, ap, ◌∙◌, inl, inr, Bool, true, false, not, ◌&&◌, ◌||◌, Option, none, some, List,
  [], ◌∷◌, ◌++◌, length, Bool-cases, Option-cases, append_assoc, append_nil, eq_of_some,
}
use que_qiao_router.Config.{ThinkingFormat}
use que_qiao_router.Thinking.{Text, Fields, same_bytes}
use que_qiao_router.Streams.{Item, ok, err, pending, ready, finished}
use que_qiao_router.Streams.Forward.{
  UpstreamEvent, Event, event_data, keepalive, done, Setup, Forward, flush_done, finish, on_done,
  on_item, on_event, on_error,
}
use que_qiao_router.Streams.Response.{new_forward, new_response, run_response}
use que_qiao_router.Streams.Ending.{
  Polls, next, heard, any_end, closing, handle_all, run_response-events,
}

-- The client has received an end marker.
abbrev pub is_done : Event → Bool
is_done (event_data t) = same_bytes t done
is_done keepalive = false

abbrev pub told_done : List Event → Bool
told_done [] = false
told_done (e ∷ es) = is_done e || told_done es

-- The error that the stream has ended with.
abbrev pub last_error : {E : Type 0} → List (Item UpstreamEvent E) → Option E
last_error [] = none
last_error (err e ∷ []) = some e
last_error (_ ∷ is) = last_error is

or_assoc : (a b c : Bool) → ((a || b) || c) ≡ (a || (b || c))
or_assoc true b c = refl
or_assoc false b c = refl

or_true : (a : Bool) → (a || true) ≡ true
or_true true = refl
or_true false = refl

told_done-append : (xs ys : List Event) → told_done (xs ++ ys) ≡ (told_done xs || told_done ys)
told_done-append [] ys = refl
told_done-append (x ∷ xs) ys =
    ap (λ b. is_done x || b) (told_done-append xs ys)
    ∙ sym (or_assoc (is_done x) (told_done xs) (told_done ys))

-- Told of the end: by the error, as the last of all, or by an end marker.
abbrev pub Told : {E : Type 0} → Setup E → Option E → List Event → Type 0
Told setup (some e) events =
    (front : List Event) × (events ≡ front ++ event_data (setup.error_text e) ∷ [])
Told setup none events = told_done events ≡ true

module _ {E : Type 0} (setup : Setup E) where
  flush_done-told : (o : Option Text) (f : Forward) → told_done (flush_done setup o f).0 ≡ true
  flush_done-told none f = refl
  flush_done-told (some t) f = or_true (same_bytes t done)

  finish-told : (o : Option Fields) (f : Forward) → told_done (finish setup o f).0 ≡ true
  finish-told none f = refl
  finish-told (some delta) f = flush_done-told (setup.flush_text delta) f

  on_done-told : (f : Forward) → told_done (on_done setup f).0 ≡ true
  unfolding on_done
  on_done-told f = elim (Bool-cases setup.apply_thinking) [
    | inl on ↦ rw on (finish-told _ _)
    | inr off ↦ rw off refl
  ]

  on_event-told :
      (e : UpstreamEvent) (f : Forward)
      → same_bytes e.body done ≡ true
      → told_done (on_event setup e f).0 ≡ true
  unfolding on_event
  on_event-told e f h = rw h (on_done-told f)

  -- An end marker of the upstream reaches the client.
  heard_done :
      (ps : Polls E) (f : Forward)
      → last_error (heard ps).0 ≡ none
      → any_end (heard ps).0 ≡ true
      → told_done (handle_all setup (heard ps).0 f).0 ≡ true
  unfolding on_item
  heard_done [] f h k = absurd (cc)
  heard_done (pending ∷ ps) f h k = heard_done ps f h k
  heard_done (ready (err e) ∷ ps) f h k = absurd (cc)
  heard_done (finished ∷ ps) f h k = absurd (cc)
  heard_done (ready (ok e) ∷ ps) f h k =
      let g = on_event setup e f in
      let later = (handle_all setup (heard ps).0 g.1).0 in
      told_done-append g.0 later ∙ elim (Bool-cases (same_bytes e.body done)) [
        | inl is ↦ ap (λ b. b || told_done later) (on_event-told e f is)
        | inr no_ ↦
            ap (λ b. told_done g.0 || b) (heard_done ps g.1 h (rw no_ at k))
            ∙ or_true (told_done g.0)
      ]

  -- An error is the last that the client receives of the events.
  heard_error :
      (ps : Polls E) (f : Forward) (e : E)
      → last_error (heard ps).0 ≡ some e
      → (front : List Event) × ((handle_all setup (heard ps).0 f).0
          ≡ front ++ event_data (setup.error_text e) ∷ [])
        × (any_end (heard ps).0 ≡ true)
  unfolding on_item on_error
  heard_error [] f e h = absurd (cc)
  heard_error (pending ∷ ps) f e h = heard_error ps f e h
  heard_error (ready (err e') ∷ ps) f e h =
      ([], ap (λ x. event_data (setup.error_text x) ∷ []) (eq_of_some h), refl)
  heard_error (finished ∷ ps) f e h = absurd (cc)
  heard_error (ready (ok a) ∷ ps) f e h =
      let g = on_event setup a f in
      let r = heard_error ps g.1 e h in
      (
        g.0 ++ r.0,
        ap (λ l. g.0 ++ l) r.1 ∙ sym (append_assoc g.0 r.0 (event_data (setup.error_text e) ∷ [])),
        ap (λ b. same_bytes a.body done || b) r.2 ∙ or_true (same_bytes a.body done),
      )

  -- Whatever the events are, the client of a stream whose upstream has ended has been told so: where
  -- the upstream failed, the last that the client received is its error, and else an end marker is among
  -- what it received.
  pub run_response-Told :
      (target : ThinkingFormat) (ps : Polls E)
      → (heard ps).1 ≡ true
      → Told setup
          (last_error (heard ps).0)
          (run_response setup next (length ps) (new_response ps target)).0
  run_response-Told target ps ended =
      let items = (heard ps).0 in
      let f = new_forward target in
      let outs = (handle_all setup items f).0 in
      let all = run_response-events setup target ps in
      let rest : outs ++ closing ((heard ps).1 && not (any_end items))
          ≡ outs ++ closing (not (any_end items)) =
        ap (λ b. outs ++ closing (b && not (any_end items))) ended in
      elim (Option-cases (last_error items)) [
        | inr (e, is) ↦
            let r = heard_error ps f e is in
            rw is (r.0, all ∙ rest ∙ ap (λ b. outs ++ closing (not b)) r.2 ∙ append_nil outs ∙ r.1)
        | inl none_ ↦ rw none_ (
            ap told_done (all ∙ rest)
            ∙ told_done-append outs (closing (not (any_end items)))
            ∙ elim (Bool-cases (any_end items)) [
              | inl is ↦
                  ap (λ b. b || told_done (closing (not (any_end items))))
                    (heard_done ps f none_ is)
              | inr no_ ↦ rw no_ (or_true (told_done outs))
            ])
      ]
