-- ===== src/Streams/Ending.antt =====
-- handlers/stream_handler.rs: what the client of a stream has received, and the outcome that is noted,
-- whatever the upstream does.
use que_qiao_router.Base.{
  ℕ, zero, suc, ◌≡◌, refl, sym, ap, ◌∙◌, Bool, true, false, not, ◌&&◌, ◌||◌, List, [], ◌∷◌, ◌++◌,
  if◌then◌else◌, length, append_nil, append_assoc,
}
use que_qiao_router.Config.{ThinkingFormat}
use que_qiao_router.Thinking.{same_bytes}
use que_qiao_router.Streams.{
  Outcome, running, completed, upstream_error, mark, Item, ok, err, Poll, pending, ready, finished,
  poll_terminate, poll_outcome, poll_sentinel,
}
use que_qiao_router.Streams.Forward.{
  UpstreamEvent, Event, event_data, done, Setup, Forward, on_item, on_event, on_error,
}
use que_qiao_router.Streams.Flags.{on_event-Leaves}
use que_qiao_router.Streams.Response.{
  as_list, new_forward, new_response, poll_response, run_response,
}

abbrev pub Polls : Type 0 → Type 0
Polls E = List (Poll (Item UpstreamEvent E))

-- An upstream that answers the polls one after the other.
abbrev pub next : {E : Type 0} → Polls E → Poll (Item UpstreamEvent E) × Polls E
next [] = (pending, [])
next (p ∷ ps) = (p, ps)

abbrev pub is_some_left {ℓ} : {A : Type ℓ} → List A → Bool
is_some_left [] = false
is_some_left (_ ∷ _) = true

-- The items up to the first error, and whether the stream has come to its end.
abbrev pub heard : {E : Type 0} → Polls E → List (Item UpstreamEvent E) × Bool
heard [] = ([], false)
heard (pending ∷ ps) = heard ps
heard (ready (ok e) ∷ ps) = let later = heard ps in (ok e ∷ later.0, later.1)
heard (ready (err e) ∷ ps) = (err e ∷ [], is_some_left ps)
heard (finished ∷ ps) = ([], true)

-- An item that tells the client of the end: the upstream's end marker, or its error.
abbrev pub is_end : {E : Type 0} → Item UpstreamEvent E → Bool
is_end (ok e) = same_bytes e.body done
is_end (err e) = true

abbrev pub any_end : {E : Type 0} → List (Item UpstreamEvent E) → Bool
any_end [] = false
any_end (i ∷ is) = is_end i || any_end is

-- The first of them decides how the stream has gone.
abbrev pub verdict : {E : Type 0} → List (Item UpstreamEvent E) → Bool → Outcome
verdict [] ended = if ended then completed else running
verdict (ok e ∷ is) ended = if same_bytes e.body done then completed else verdict is ended
verdict (err e ∷ is) ended = upstream_error

or_swap : (a b c : Bool) → (a || (b || c)) ≡ ((b || a) || c)
or_swap true true c = refl
or_swap true false c = refl
or_swap false true c = refl
or_swap false false c = refl

or_true : (a : Bool) → (a || true) ≡ true
or_true true = refl
or_true false = refl

mark_running : (o : Outcome) → mark o running ≡ o
mark_running running = refl
mark_running completed = refl
mark_running upstream_error = refl

mark_once : (o p : Outcome) → mark (mark o completed) p ≡ mark o completed
mark_once running p = refl
mark_once completed p = refl
mark_once upstream_error p = refl

mark_if :
    (o : Outcome) (b : Bool) (p : Outcome)
    → mark (if b then mark o completed else o) p ≡ mark o (if b then completed else p)
mark_if o true p = mark_once o p
mark_if o false p = refl

mark_error :
    (o : Outcome) (b : Bool)
    → (if b then mark (mark o upstream_error) completed else mark o upstream_error)
      ≡ mark o upstream_error
mark_error running true = refl
mark_error completed true = refl
mark_error upstream_error true = refl
mark_error o false = refl

-- The end marker that the gateway adds.
abbrev pub closing : Bool → List Event
closing true = event_data done ∷ []
closing false = []

sentinel_closing :
    (flag : Bool)
    → as_list (poll_sentinel (event_data done) (record { flag = flag; emitted = false })).0
      ≡ closing (not flag)
unfolding poll_sentinel
sentinel_closing true = refl
sentinel_closing false = refl

or_nothing : (a : Bool) → a ≡ (a || false)
or_nothing true = refl
or_nothing false = refl

and_false : (a : Bool) → (a && false) ≡ false
and_false true = refl
and_false false = refl

module _ {E : Type 0} (setup : Setup E) where
  -- The items are handled one after the other.
  abbrev pub handle_all : List (Item UpstreamEvent E) → Forward → List Event × Forward
  handle_all [] f = ([], f)
  handle_all (i ∷ is) f =
      let first = on_item setup i f in
      let later = handle_all is first.1 in (first.0 ++ later.0, later.1)

  flag_of :
      (items : List (Item UpstreamEvent E)) (f : Forward)
      → (handle_all items f).1.done_flag ≡ (any_end items || f.done_flag)
  unfolding on_item on_error
  flag_of [] f = refl
  flag_of (ok e ∷ is) f =
      let g = (on_event setup e f).1 in
      flag_of is g
      ∙ ap (λ b. any_end is || b) (on_event-Leaves setup e f).0
      ∙ or_swap (any_end is) (same_bytes e.body done) f.done_flag
  flag_of (err e ∷ is) f = flag_of is (on_error setup e f).1 ∙ or_true (any_end is)

  -- Nothing comes after the end.
  run_over :
      (n : ℕ) (u : Polls E × Bool) (f : Forward)
      → run_response setup next n (record { upstream = u; forward = f; ended = true })
        ≡ ([], record { upstream = u; forward = f; ended = true })
  unfolding run_response poll_response
  run_over zero u f = refl
  run_over (suc n) u f = rw (run_over n u f) refl

  -- The last poll gives what the sentinel has, and the others nothing.
  run_end :
      (ps qs : Polls E) (f : Forward)
      → let g = record f { outcome = mark f.outcome completed } in
        let r =
          run_response setup next
            (length ps)
            (record { upstream = (qs, true); forward = g; ended = true }) in
        (as_list
              (poll_sentinel (event_data done) (record { flag = f.done_flag; emitted = false })).0
            ++ r.0
          ≡ closing (not f.done_flag))
        × (r.1.forward.outcome ≡ mark f.outcome completed)
  run_end ps qs f =
      let g = record f { outcome = mark f.outcome completed } in
      let over = run_over (length ps) (qs, true) g in
      let last =
        as_list
          (poll_sentinel (event_data done) (record { flag = f.done_flag; emitted = false })).0 in
      (
        ap (λ r. last ++ r.0) over ∙ append_nil last ∙ sentinel_closing f.done_flag,
        ap (λ r. r.1.forward.outcome) over,
      )

  -- After an error the next poll, if there is one, is the end.
  run_broken :
      (ps qs : Polls E) (f : Forward)
      → f.done_flag ≡ true
      → let r =
          run_response setup next
            (length ps)
            (record { upstream = (qs, true); forward = f; ended = false }) in
        (r.0 ≡ [])
        × (r.1.forward.outcome ≡ (if is_some_left ps then mark f.outcome completed else f.outcome))
  unfolding run_response poll_response poll_outcome poll_terminate poll_sentinel
  run_broken [] qs f h = (refl, refl)
  run_broken (p ∷ ps) qs f h = let r = run_end ps qs f in (r.0 ∙ ap (λ b. closing (not b)) h, r.1)

  -- What the client has received and the outcome, for any state at the start.
  run_heard :
      (ps : Polls E) (f : Forward)
      → let r =
          run_response setup next
            (length ps)
            (record { upstream = (ps, false); forward = f; ended = false }) in
        let h = heard ps in
        let all = handle_all h.0 f in
        (r.0 ≡ all.0 ++ closing (h.1 && not all.1.done_flag))
        × (r.1.forward.outcome ≡ mark f.outcome (verdict h.0 h.1))
  unfolding run_response poll_response poll_outcome poll_terminate poll_sentinel on_item on_error
  run_heard [] f = (refl, sym (mark_running f.outcome))
  run_heard (pending ∷ ps) f = run_heard ps f
  run_heard (ready (ok e) ∷ ps) f =
      let g = on_event setup e f in
      let r = run_heard ps g.1 in
      let h = heard ps in
      let all = handle_all h.0 g.1 in
      (
        ap (λ l. g.0 ++ l) r.0
            ∙ sym (append_assoc g.0 all.0 (closing (h.1 && not all.1.done_flag))),
        r.1
            ∙ ap (λ o. mark o (verdict h.0 h.1)) (on_event-Leaves setup e f).1
            ∙ mark_if f.outcome (same_bytes e.body done) (verdict h.0 h.1),
      )
  run_heard (ready (err e) ∷ ps) f =
      let g = (on_error setup e (record f { outcome = mark f.outcome upstream_error })).1 in
      let r = run_broken ps ps g refl in
      (
        ap (◌∷◌ (event_data (setup.error_text e)))
            (r.0 ∙ sym (ap closing (and_false (is_some_left ps)))),
        r.1 ∙ mark_error f.outcome (is_some_left ps),
      )
  run_heard (finished ∷ ps) f = run_end ps ps f

-- The client of a stream receives what the events of the upstream become, one after the other, up to
-- the first error and no further, and after them one end marker if the upstream has ended without an
-- error and without an end marker of its own.
pub run_response-events :
    {E : Type 0} (setup : Setup E) (target : ThinkingFormat) (ps : Polls E)
    → (run_response setup next (length ps) (new_response ps target)).0
      ≡ (handle_all setup (heard ps).0 (new_forward target)).0
        ++ closing ((heard ps).1 && not (any_end (heard ps).0))
unfolding new_response new_forward
run_response-events setup target ps =
    let h = heard ps in
    let f = new_forward target in
    (run_heard setup ps f).0
    ∙ ap (λ b. (handle_all setup h.0 f).0 ++ closing (h.1 && not b))
        (flag_of setup h.0 f ∙ sym (or_nothing (any_end h.0)))

-- The outcome of a stream is that of the first sign of its end, whatever comes after: completed for
-- an end marker of the upstream or its end, an error of the upstream for its error, and running while
-- there was none, as for a client that leaves.
pub run_response-outcome :
    {E : Type 0} (setup : Setup E) (target : ThinkingFormat) (ps : Polls E)
    → (run_response setup next (length ps) (new_response ps target)).1.forward.outcome
      ≡ verdict (heard ps).0 (heard ps).1
unfolding new_response new_forward
run_response-outcome setup target ps = (run_heard setup ps (new_forward target)).1
