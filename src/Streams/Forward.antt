-- ===== src/Streams/Forward.antt =====
-- handlers/stream_handler.rs: what `process_streaming_response` makes of the events of the upstream.
-- What reads and writes JSON is an argument, and so is the text of an error.
use que_qiao_router.Base.{
  Bool, true, false, not, ◌&&◌, ◌||◌, Option, none, some, List, [], ◌∷◌, ◌++◌, if◌then◌else◌,
  or_else,
}
use que_qiao_router.Thinking.{Text, same_bytes, is_empty, Fields, Transformer, finalize}
use que_qiao_router.Streams.{Outcome, mark, completed, Item, ok, err}
use que_qiao_router.Streams.Chunk.{
  Chunk, type_key, contains, has_empty_choices_marker, has_model_field_marker,
  ensure_non_empty_choices, rewrite_chunk_model, apply_prefix, transform_chunk,
}

-- An event of the upstream: its name and its data.
pub record UpstreamEvent : Type 0 where
  pub event : Text
  pub body : Text

-- An event for the client, by its data, or the comment that keeps the connection alive.
pub data Event : Type 0 where
  event_data : Text → Event
  keepalive : Event

-- the end marker and "ping".
abbrev pub done : Text
done = b'[' ∷ b'D' ∷ b'O' ∷ b'N' ∷ b'E' ∷ b']' ∷ []

abbrev pub ping : Text
ping = b'p' ∷ b'i' ∷ b'n' ∷ b'g' ∷ []

-- What the closure knows of the request and of its libraries: `parse` and `print` are simd-json's,
-- `type_of` gives the text of the field "type" by serde-json, `flush_text` the text of the chunk of
-- a flushed delta, and `error_text` that of an error.
pub record Setup (E : Type 0) : Type 0 where
  pub is_chat : Bool
  pub apply_thinking : Bool
  pub special_prefix : Text
  pub echo_inbound_model : Bool
  pub inbound_model_name : Text
  pub parse : Text → Option Chunk
  pub print : Chunk → Option Text
  pub type_of : Text → Option Text
  pub flush_text : Fields → Option Text
  pub error_text : E → Text

-- A message to the logger: a chunk, or that the upstream has failed.
pub data Sent : Type 0 where
  chunk_text : Text → Sent
  upstream_failed : Sent

pub record Forward : Type 0 where
  pub transformer : Transformer
  pub prefix_applied : Bool
  pub done_flag : Bool
  pub outcome : Outcome
  pub sent : List Sent

abbrev is_ping : Option Text → Bool
is_ping none = false
is_ping (some t) = same_bytes t ping

module _ {E : Type 0} (setup : Setup E) where
  unfoldable pub is_chat_completion_ping : UpstreamEvent → Bool
  unfolding contains
  is_chat_completion_ping e =
      same_bytes e.event ping || (contains type_key e.body && is_ping (setup.type_of e.body))

  -- `tx.send` and the event with the same data.
  abbrev send : Text → Forward → List Event × Forward
  send t f = (event_data t ∷ [], record f { sent = f.sent ++ chunk_text t ∷ [] })

  abbrev pub flush_done : Option Text → Forward → List Event × Forward
  flush_done none f = (event_data done ∷ [], f)
  flush_done (some t) f =
      (event_data t ∷ event_data done ∷ [], record f { sent = f.sent ++ chunk_text t ∷ [] })

  abbrev pub finish : Option Fields → Forward → List Event × Forward
  finish none f = (event_data done ∷ [], f)
  finish (some delta) f = flush_done (setup.flush_text delta) f

  -- The upstream says that it is done.
  unfoldable pub on_done : Forward → List Event × Forward
  unfolding finalize
  on_done f =
      let g = record f { done_flag = true; outcome = mark f.outcome completed } in
      if setup.apply_thinking
      then (let r = finalize g.transformer in finish r.0 (record g { transformer = r.1 }))
      else (event_data done ∷ [], g)

  abbrev echo : Chunk → Chunk
  echo chunk =
      if setup.echo_inbound_model then rewrite_chunk_model setup.inbound_model_name chunk else chunk

  -- The prefix, once.
  abbrev pub with_prefix : Chunk → Forward → Chunk × Forward
  with_prefix chunk f =
      if not f.prefix_applied && not (is_empty setup.special_prefix)
      then (let r = apply_prefix setup.is_chat setup.special_prefix chunk in
          (r.0, record f { prefix_applied = r.1 }))
      else (chunk, f)

  abbrev pub with_thinking : Chunk → Forward → Chunk × Forward
  with_thinking chunk f =
      if setup.apply_thinking
      then (let r = transform_chunk f.transformer chunk in (r.0, record f { transformer = r.1 }))
      else (chunk, f)

  -- A chunk that is rewritten; one that is no JSON is passed on as it is.
  unfoldable pub round_trip : Text → Option Chunk → Forward → List Event × Forward
  unfolding rewrite_chunk_model apply_prefix transform_chunk ensure_non_empty_choices
  round_trip body none f = (event_data body ∷ [], f)
  round_trip body (some chunk) f =
      let p = with_prefix chunk f in
      let t = with_thinking p.0 p.1 in
      send (or_else (setup.print (echo (ensure_non_empty_choices setup.is_chat t.0))) []) t.1

  unfoldable pub fill_choices : Text → Option Chunk → Forward → List Event × Forward
  unfolding ensure_non_empty_choices rewrite_chunk_model
  fill_choices body none f = send body f
  fill_choices body (some chunk) f =
      send (or_else (setup.print (echo (ensure_non_empty_choices setup.is_chat chunk))) body) f

  unfoldable pub echo_model : Text → Option Chunk → Forward → List Event × Forward
  unfolding rewrite_chunk_model
  echo_model body none f = send body f
  echo_model body (some chunk) f =
      send (or_else (setup.print (rewrite_chunk_model setup.inbound_model_name chunk)) body) f

  abbrev pub needs_json_roundtrip : Bool
  needs_json_roundtrip = setup.apply_thinking || not (is_empty setup.special_prefix)

  unfoldable pub on_event : UpstreamEvent → Forward → List Event × Forward
  unfolding on_done is_chat_completion_ping round_trip fill_choices echo_model
  on_event e f =
      if same_bytes e.body done
      then on_done f
      else if setup.is_chat && is_chat_completion_ping e
      then (keepalive ∷ [], f)
      else if needs_json_roundtrip
      then round_trip e.body (setup.parse e.body) f
      else if has_empty_choices_marker e.body
      then fill_choices e.body (setup.parse e.body) f
      else if setup.echo_inbound_model && has_model_field_marker e.body
      then echo_model e.body (setup.parse e.body) f
      else send e.body f

  unfoldable pub on_error : E → Forward → List Event × Forward
  on_error e f = (
    event_data (setup.error_text e) ∷ [],
    record f { done_flag = true; sent = f.sent ++ upstream_failed ∷ [] },
  )

  -- The closure of `flat_map`.
  unfoldable pub on_item : Item UpstreamEvent E → Forward → List Event × Forward
  unfolding on_event on_error
  on_item (ok e) f = on_event e f
  on_item (err e) f = on_error e f
