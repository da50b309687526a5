-- ===== src/Streams/Tests.antt =====
-- Streams of handlers/stream_handler.rs on small inputs, and the theorems at such inputs.
use que_qiao_router.Base.{
  ℕ, ◌≡◌, refl, not, true, false, ◌&&◌, ◌++◌, none, some, List, [], ◌∷◌, length,
}
use que_qiao_router.Config.{passthrough}
use que_qiao_router.Thinking.{Text}
use que_qiao_router.Streams.{completed, Item, ok, err, Poll, pending, ready, finished}
use que_qiao_router.Streams.Chunk.{has_empty_choices_marker, choices_key}
use que_qiao_router.Streams.Forward.{UpstreamEvent, event_data, done, Setup}
use que_qiao_router.Streams.Response.{new_forward, new_response, run_response}
use que_qiao_router.Streams.Ending.{
  Polls, next, heard, any_end, closing, handle_all, run_response-events, run_response-outcome,
}
use que_qiao_router.Streams.Told.{Told, run_response-Told}
use que_qiao_router.Streams.Tail.{Bytes, delivered, last_bytes, run_body, run_body-last_bytes}

-- Text that is no JSON is passed on as it is.
abbrev setup : Setup ℕ
setup = record {
  is_chat = true;
  apply_thinking = false;
  special_prefix = [];
  echo_inbound_model = false;
  inbound_model_name = b'm' ∷ [];
  parse = λ s. none;
  print = λ c. none;
  type_of = λ s. none;
  flush_text = λ d. none;
  error_text = λ e. b'!' ∷ [];
}

abbrev says : Text → Poll (Item UpstreamEvent ℕ)
says s = ready (ok (record { event = []; body = s }))

-- An upstream that ends without an end marker, and one that breaks.
abbrev silent_end : Polls ℕ
silent_end = says (b'a' ∷ []) ∷ pending ∷ finished ∷ []

abbrev broken : Polls ℕ
broken = says (b'a' ∷ []) ∷ ready (err 7) ∷ ready (err 7) ∷ []

marker : has_empty_choices_marker (b'{' ∷ (choices_key ++ (b':' ∷ b' ' ∷ b'[' ∷ b']' ∷ []))) ≡ true
unfolding has_empty_choices_marker
marker = refl

ended :
    (run_response setup next 3 (new_response silent_end passthrough)).0
    ≡ event_data (b'a' ∷ []) ∷ event_data done ∷ []
unfolding run_response new_response has_empty_choices_marker
ended = refl

run_response-events_example :
    (run_response setup next (length broken) (new_response broken passthrough)).0
    ≡ (handle_all setup (heard broken).0 (new_forward passthrough)).0
      ++ closing ((heard broken).1 && not (any_end (heard broken).0))
run_response-events_example = run_response-events setup passthrough broken

run_response-outcome_example :
    (run_response setup next
      (length silent_end)
      (new_response silent_end passthrough)).1.forward.outcome
    ≡ completed
run_response-outcome_example = run_response-outcome setup passthrough silent_end

run_response-Told_example :
    Told setup
      (some 7)
      (run_response setup next (length broken) (new_response broken passthrough)).0
run_response-Told_example = run_response-Told setup passthrough broken refl

abbrev pieces : List (Poll (Item Bytes ℕ))
pieces = ready (ok (b'a' ∷ [])) ∷ pending ∷ ready (ok (b'b' ∷ [])) ∷ []

run_body-last_bytes_example :
    run_body (length pieces) (pieces, some []) ≡ some (last_bytes (delivered pieces))
run_body-last_bytes_example = run_body-last_bytes pieces
