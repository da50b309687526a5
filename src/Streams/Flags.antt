-- ===== src/Streams/Flags.antt =====
-- handlers/stream_handler.rs: what an event leaves of the flag for the sentinel and of the outcome.
use que_qiao_router.Base.{
  ◌≡◌, refl, ◌∙◌, inl, inr, Bool, true, false, ◌&&◌, ◌||◌, Option, none, some, List, if◌then◌else◌,
  Bool-cases, arith,
}
use que_qiao_router.Thinking.{Text, Fields, same_bytes}
use que_qiao_router.Streams.Chunk.{Chunk, has_empty_choices_marker, has_model_field_marker}
use que_qiao_router.Streams.{Outcome, completed, mark}
use que_qiao_router.Streams.Forward.{
  UpstreamEvent, Event, done, Setup, Forward, with_prefix, with_thinking, round_trip, fill_choices,
  echo_model, flush_done, finish, needs_json_roundtrip, is_chat_completion_ping, on_done, on_event,
}

module _ {E : Type 0} (setup : Setup E) where
  -- What an item leaves of the flag and of the outcome.
  abbrev pub Leaves : Bool → Outcome → Forward → Type 0
  Leaves flag o f = (f.done_flag ≡ flag) × (f.outcome ≡ o)

  with_prefix-Leaves :
      (c : Chunk) (f : Forward) → Leaves f.done_flag f.outcome (with_prefix setup c f).1
  with_prefix-Leaves c f = ground arith

  with_thinking-Leaves :
      (c : Chunk) (f : Forward) → Leaves f.done_flag f.outcome (with_thinking setup c f).1
  with_thinking-Leaves c f = ground arith

  round_trip-Leaves :
      (body : Text) (o : Option Chunk) (f : Forward)
      → Leaves f.done_flag f.outcome (round_trip setup body o f).1
  unfolding round_trip
  round_trip-Leaves body none f = (refl, refl)
  round_trip-Leaves body (some c) f =
      let p = with_prefix setup c f in
      let a = with_prefix-Leaves c f in
      let b = with_thinking-Leaves p.0 p.1 in (b.0 ∙ a.0, b.1 ∙ a.1)

  fill_choices-Leaves :
      (body : Text) (o : Option Chunk) (f : Forward)
      → Leaves f.done_flag f.outcome (fill_choices setup body o f).1
  unfolding fill_choices
  fill_choices-Leaves body none f = (refl, refl)
  fill_choices-Leaves body (some c) f = (refl, refl)

  echo_model-Leaves :
      (body : Text) (o : Option Chunk) (f : Forward)
      → Leaves f.done_flag f.outcome (echo_model setup body o f).1
  unfolding echo_model
  echo_model-Leaves body none f = (refl, refl)
  echo_model-Leaves body (some c) f = (refl, refl)

  flush_done-Leaves :
      (o : Option Text) (f : Forward) → Leaves f.done_flag f.outcome (flush_done setup o f).1
  flush_done-Leaves none f = (refl, refl)
  flush_done-Leaves (some t) f = (refl, refl)

  finish-Leaves :
      (o : Option Fields) (f : Forward) → Leaves f.done_flag f.outcome (finish setup o f).1
  finish-Leaves none f = (refl, refl)
  finish-Leaves (some delta) f = flush_done-Leaves (setup.flush_text delta) f

  on_done-Leaves : (f : Forward) → Leaves true (mark f.outcome completed) (on_done setup f).1
  unfolding on_done
  on_done-Leaves f = elim (Bool-cases setup.apply_thinking) [
    | inl on ↦ rw on (finish-Leaves _ _)
    | inr off ↦ rw off (refl, refl)
  ]

  branch-Leaves :
      (b : Bool) (flag : Bool) (o : Outcome) (x y : List Event × Forward)
      → Leaves flag o x.1
      → Leaves flag o y.1
      → Leaves flag o (if b then x else y).1
  branch-Leaves true flag o x y h k = h
  branch-Leaves false flag o x y h k = k

  other-Leaves :
      (e : UpstreamEvent) (f : Forward)
      → same_bytes e.body done ≡ false
      → Leaves f.done_flag f.outcome (on_event setup e f).1
  unfolding on_event
  other-Leaves e f h =
      let branch =
        λ (b : Bool) (x y : List Event × Forward). branch-Leaves b f.done_flag f.outcome x y in
      rw h (
        branch (setup.is_chat && is_chat_completion_ping setup e) _ _ (refl, refl)
          (branch (needs_json_roundtrip setup) _ _ (round_trip-Leaves e.body (setup.parse e.body) f)
            (branch (has_empty_choices_marker e.body) _ _
              (fill_choices-Leaves e.body (setup.parse e.body) f)
              (branch (setup.echo_inbound_model && has_model_field_marker e.body) _ _
                (echo_model-Leaves e.body (setup.parse e.body) f) (refl, refl)))))

  pub on_event-Leaves :
      (e : UpstreamEvent) (f : Forward)
      → Leaves
          (same_bytes e.body done || f.done_flag)
          (if same_bytes e.body done then mark f.outcome completed else f.outcome)
          (on_event setup e f).1
  unfolding on_event
  on_event-Leaves e f = elim (Bool-cases (same_bytes e.body done)) [
    | inl is ↦ rw is (on_done-Leaves f)
    | inr no_ ↦ let r = other-Leaves e f no_ in (r.0 ∙ rw no_ refl, r.1 ∙ rw no_ refl)
  ]
