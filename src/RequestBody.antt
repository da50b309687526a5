-- ===== src/RequestBody.antt =====
-- handlers/request_body.rs: the body of a request to a backend. A JSON object is an association list;
-- the fields of a payload are the values that serde makes of them, as far as nothing looks inside.
pub mod Lookup
pub mod Authority
pub mod Stop
mod Tests
use que_qiao_router.Base.{
  ℕ, String, Bool, true, false, Option, none, some, List, [], ◌∷◌, ◌++◌, ◌||◌, if◌then◌else◌, ltb,
  str_eq, lookup, insert, remove, ◌>>=◌,
}
use que_qiao_router.Config.{ClientConfig}

pub data Json : Type 0 where
  null : Json
  bool : Bool → Json
  num : ℕ → Json
  str : String → Json
  strs : List String → Json
  other : String → Json

abbrev pub Object : Type 0
Object = List (String × Json)

-- `Vec::contains`.
unfoldable pub contains : String → List String → Bool
contains w [] = false
contains w (v ∷ vs) = str_eq v w || contains w vs

abbrev push_new : String → List String → List String
push_new w words = if contains w words then words else words ++ w ∷ []

unfoldable pub push_words : List String → List String → List String
unfolding contains
push_words merged [] = merged
push_words merged (w ∷ ws) = push_words (push_new w merged) ws

unfoldable pub merge_stop_words : Option (List String) → Option (List String) → Option (List String)
unfolding push_words
merge_stop_words (some client_stop) (some request_stop) = some (push_words client_stop request_stop)
merge_stop_words (some client_stop) none = some client_stop
merge_stop_words none request_stop = request_stop

unfoldable pub adjust_max_tokens : Option ℕ → Option ℕ → Option ℕ
adjust_max_tokens (some limit) (some requested) =
    some (if ltb limit requested then limit else requested)
adjust_max_tokens (some limit) none = some limit
adjust_max_tokens none requested = requested

-- Without `stream`, which the caller decides; `extra` holds the fields that have no name here.
pub record ChatCompletionRequest : Type 0 where
  pub model : String
  pub messages : Json
  pub temperature : Option Json
  pub top_p : Option Json
  pub frequency_penalty : Option Json
  pub presence_penalty : Option Json
  pub repetition_penalty : Option Json
  pub seed : Option Json
  pub max_tokens : Option ℕ
  pub stop : Option (List String)
  pub tools : Option Json
  pub chat_template_kwargs : Option Json
  pub stream_options : Option Json
  pub logprobs : Option Json
  pub top_logprobs : Option Json
  pub prompt_cache_key : Option Json
  pub prompt_cache_retention : Option Json
  pub extra : Object

pub record CompletionRequest : Type 0 where
  pub model : String
  pub prompt : Json
  pub temperature : Option Json
  pub max_tokens : Option ℕ
  pub stop : Option (List String)
  pub stream_options : Option Json
  pub logprobs : Option Json
  pub prompt_logprobs : Option Json
  pub echo : Option Json
  pub extra : Object

-- What only `serde_json::to_value` looks into stands for the object that it makes.
pub data RequestPayload : Type 0 where
  chat : ChatCompletionRequest → RequestPayload
  completion : CompletionRequest → RequestPayload
  embedding : Object → RequestPayload
  rerank : Object → RequestPayload
  score : Object → RequestPayload
  classify : Object → RequestPayload
  responses : Object → RequestPayload
  anthropic_messages : Object → RequestPayload

-- `json!` of a number or of words.
abbrev pub as_num : Option ℕ → Option Json
as_num none = none
as_num (some n) = some (num n)

abbrev pub as_strs : Option (List String) → Option Json
as_strs none = none
as_strs (some words) = some (strs words)

abbrev pub put : String → Option Json → Object → Object
put name none body = body
put name (some value) body = insert name value body

-- A run of `if let Some(value) = … { body[name] = value }`.
unfoldable pub put_all : List (String × Option Json) → Object → Object
put_all [] body = body
put_all ((name, value) ∷ later) body = put_all later (put name value body)

-- What the source writes as `json!({"include_usage": true})`.
abbrev pub include_usage : Json
include_usage = other "include_usage"

abbrev pub or_usage : Option Json → Json
or_usage none = include_usage
or_usage (some opts) = opts

abbrev pub put_stream_options : Bool → Option Json → Object → Object
put_stream_options true opts body = insert "stream_options" (or_usage opts) body
put_stream_options false opts body = remove "stream_options" body

-- What is written before the options of a stream, and after them.
abbrev pub chat_fields : ChatCompletionRequest → ClientConfig → List (String × Option Json)
chat_fields p client =
    ("temperature", p.temperature)
    ∷ ("top_p", p.top_p)
    ∷ ("frequency_penalty", p.frequency_penalty)
    ∷ ("presence_penalty", p.presence_penalty)
    ∷ ("repetition_penalty", p.repetition_penalty)
    ∷ ("seed", p.seed)
    ∷ ("max_tokens", as_num (adjust_max_tokens client.max_tokens p.max_tokens))
    ∷ ("stop", as_strs (merge_stop_words client.stop p.stop))
    ∷ ("tools", p.tools)
    ∷ ("chat_template_kwargs", p.chat_template_kwargs)
    ∷ []

abbrev pub chat_late_fields : ChatCompletionRequest → List (String × Option Json)
chat_late_fields p =
    ("logprobs", p.logprobs)
    ∷ ("top_logprobs", p.top_logprobs)
    ∷ ("prompt_cache_key", p.prompt_cache_key)
    ∷ ("prompt_cache_retention", p.prompt_cache_retention)
    ∷ []

unfoldable pub chat_body : ChatCompletionRequest → ClientConfig → Bool → Object
unfolding put_all
chat_body p client stream =
    let named = insert "model" (str p.model) p.extra in
    let told = insert "messages" p.messages named in
    let set = insert "stream" (bool stream) told in
    let early = put_all (chat_fields p client) set in
    put_all (chat_late_fields p) (put_stream_options stream p.stream_options early)

abbrev pub completion_fields : CompletionRequest → ClientConfig → List (String × Option Json)
completion_fields p client =
    ("temperature", p.temperature)
    ∷ ("max_tokens", as_num (adjust_max_tokens client.max_tokens p.max_tokens))
    ∷ ("stop", as_strs (merge_stop_words client.stop p.stop))
    ∷ []

abbrev pub completion_late_fields : CompletionRequest → List (String × Option Json)
completion_late_fields p =
    ("logprobs", p.logprobs) ∷ ("prompt_logprobs", p.prompt_logprobs) ∷ ("echo", p.echo) ∷ []

unfoldable pub completion_body : CompletionRequest → ClientConfig → Bool → Object
unfolding put_all
completion_body p client stream =
    let named = insert "model" (str p.model) p.extra in
    let told = insert "prompt" p.prompt named in
    let set = insert "stream" (bool stream) told in
    let early = put_all (completion_fields p client) set in
    put_all (completion_late_fields p) (put_stream_options stream p.stream_options early)

unfoldable pub build_request_body_inner : RequestPayload → ClientConfig → Bool → Object
unfolding chat_body completion_body
build_request_body_inner (chat p) client stream = chat_body p client stream
build_request_body_inner (completion p) client stream = completion_body p client stream
build_request_body_inner (embedding p) client stream = p
build_request_body_inner (rerank p) client stream = p
build_request_body_inner (score p) client stream = p
build_request_body_inner (classify p) client stream = p
build_request_body_inner (responses p) client stream = insert "stream" (bool stream) p
build_request_body_inner (anthropic_messages p) client stream = insert "stream" (bool stream) p

abbrev put_absent : String → Json → Option Json → Object → Object
put_absent name value none target = insert name value target
put_absent name value (some _) target = target

unfoldable pub apply_extra : Object → Object → Object
apply_extra target [] = target
apply_extra target ((name, value) ∷ extra) =
    apply_extra (put_absent name value (lookup name target) target) extra

-- `None` where the backend has no extra body, or one that is no JSON object.
abbrev pub apply_extra_body_cached : Option Object → Object → Object
apply_extra_body_cached none body = body
apply_extra_body_cached (some extra) body = apply_extra body extra

abbrev pub rename : String → Option String → Object → Object
rename inbound none body = body
rename inbound (some upstream) body =
    if str_eq upstream inbound then body else insert "model" (str upstream) body

-- What the backend calls a model.
abbrev pub upstream_name : ClientConfig → String → Option String
upstream_name client inbound = client.model_rewrite >>= lookup inbound

abbrev pub rewrite_named : ClientConfig → Option Json → Object → Object
rewrite_named client (some (str inbound)) body = rename inbound (upstream_name client inbound) body
rewrite_named client _ body = body

unfoldable pub rewrite_body_model : Object → ClientConfig → Object
rewrite_body_model body client = rewrite_named client (lookup "model" body) body

-- `extra` is the parsed copy of the client's `extra_body`.
unfoldable pub build_request_body_generic :
    RequestPayload → ClientConfig → Option Object → Bool → Object
unfolding build_request_body_inner apply_extra rewrite_body_model
build_request_body_generic payload client extra stream =
    rewrite_body_model
      (apply_extra_body_cached extra (build_request_body_inner payload client stream)) client
