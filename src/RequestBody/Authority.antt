-- ===== src/RequestBody/Authority.antt =====
-- handlers/request_body.rs: which fields of a body the gateway decides, and what it passes on.
use que_qiao_router.Base.{
  ℕ, ◌≤◌, ◌≡◌, String, Bool, false, Option, none, some, str_eq, lookup, or_else,
}
use que_qiao_router.Config.{ClientConfig}
use que_qiao_router.RequestBody.{
  bool, num, str, Object, ChatCompletionRequest, chat_fields, chat_late_fields, upstream_name,
}
use que_qiao_router.RequestBody.Lookup.{or_value, named, extra_value}

module _ (p : ChatCompletionRequest) (client : ClientConfig) (stream : Bool) where
  -- The gateway writes no field of the name.
  abbrev pub IsUnknown : String → Type 0
  IsUnknown key =
      (str_eq "stream_options" key ≡ false)
      × (named key (chat_late_fields p) ≡ false)
      × (named key (chat_fields p client) ≡ false)
      × (str_eq "stream" key ≡ false)
      × (str_eq "messages" key ≡ false)
      × (str_eq "model" key ≡ false)

-- The limit that the backend has for the tokens of an answer.
abbrev pub Limited : Option ℕ → Object → Type 0
Limited none body = Unit {0}
Limited (some limit) body = (n : ℕ) × (n ≤ limit) × (lookup "max_tokens" body ≡ some (num n))

-- What the gateway decides of the body of a chat request, and what it passes on.
pub record IsChatBody (p : ChatCompletionRequest) (client : ClientConfig) (extra : Option Object)
    (stream : Bool) (body : Object) : Type 0 where
  -- The backend's name for the model that was asked for.
  pub model : lookup "model" body ≡ some (str (or_else (upstream_name client p.model) p.model))
  pub streams : lookup "stream" body ≡ some (bool stream)
  pub messages : lookup "messages" body ≡ some p.messages
  pub within : Limited client.max_tokens body
  -- A field without a meaning here is the request's, or else the backend's.
  pub passes :
      (key : String)
      → IsUnknown p client stream key
      → lookup key body ≡ or_value (lookup key p.extra) (extra_value key extra)
