-- ===== src/Streams/Response.antt =====
-- handlers/stream_handler.rs: the stream of the response, which `process_streaming_response` puts
-- together: the upstream's, ended by its first error, its outcome noted, its events handled, and
-- the sentinel at its end.
use que_qiao_router.Base.{
  ℕ, zero, suc, Bool, true, false, Option, none, some, List, [], ◌∷◌, ◌++◌, if◌then◌else◌,
}
use que_qiao_router.Config.{ThinkingFormat}
use que_qiao_router.Thinking.{new_transformer}
use que_qiao_router.Streams.{
  Outcome, running, Item, Poll, pending, ready, finished, poll_terminate, poll_outcome,
  poll_sentinel,
}
use que_qiao_router.Streams.Forward.{
  UpstreamEvent, Event, event_data, done, Setup, Forward, on_item,
}

pub record Response (S : Type 0) : Type 0 where
  pub upstream : S × Bool
  pub forward : Forward
  pub ended : Bool

unfoldable pub new_forward : ThinkingFormat → Forward
unfolding new_transformer
new_forward target = record {
  transformer = new_transformer target;
  prefix_applied = false;
  done_flag = false;
  outcome = running;
  sent = [];
}

unfoldable pub new_response : {S : Type 0} → S → ThinkingFormat → Response S
unfolding new_forward
new_response s target = record {
  upstream = (s, false);
  forward = new_forward target;
  ended = false;
}

abbrev pub as_list {ℓ} : {A : Type ℓ} → Option A → List A
as_list none = []
as_list (some a) = a ∷ []

module _ {E S : Type 0} (setup : Setup E) (poll_inner : S → Poll (Item UpstreamEvent E) × S) where
  abbrev handled : S × Bool → List Event × Forward → List Event × Response S
  handled s (events, f) = (events, record { upstream = s; forward = f; ended = false })

  abbrev last_event : Forward → List Event
  last_event f =
      as_list (poll_sentinel (event_data done) (record { flag = f.done_flag; emitted = false })).0

  abbrev polled :
      Forward → Poll (Item UpstreamEvent E) × ((S × Bool) × Outcome) → List Event × Response S
  polled f (pending, (s, o)) =
      ([], record { upstream = s; forward = record f { outcome = o }; ended = false })
  polled f (ready item, (s, o)) = handled s (on_item setup item (record f { outcome = o }))
  polled f (finished, (s, o)) =
      let g = record f { outcome = o } in
      (last_event g, record { upstream = s; forward = g; ended = true })

  -- One poll of the upstream, and the events that it gives the client.
  unfoldable pub poll_response : Response S → List Event × Response S
  unfolding poll_terminate poll_outcome poll_sentinel on_item
  poll_response r =
      if r.ended
      then ([], r)
      else polled r.forward
          (poll_outcome (poll_terminate poll_inner) (r.upstream, r.forward.outcome))

  -- Some polls.
  unfoldable pub run_response : ℕ → Response S → List Event × Response S
  unfolding poll_response
  run_response zero r = ([], r)
  run_response (suc n) r =
      let first = poll_response r in
      let later = run_response n first.1 in (first.0 ++ later.0, later.1)
