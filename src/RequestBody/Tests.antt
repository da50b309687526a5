-- ===== src/RequestBody/Tests.antt =====
-- Bodies of handlers/request_body.rs for small requests, and the theorems at such inputs.
use que_qiao_router.Base.{◌≡◌, refl, false, Option, none, some, [], ◌∷◌, lookup, insert, remove}
use que_qiao_router.Config.{ClientConfig, default_client}
use que_qiao_router.RequestBody.{
  num, str, other, Object, adjust_max_tokens, merge_stop_words, ChatCompletionRequest, chat,
  build_request_body_generic,
}

-- A request that tries to name another model and to stream by an unknown field.
abbrev request : ChatCompletionRequest
request = record {
  model = "a";
  messages = other "hello";
  temperature = none;
  top_p = none;
  frequency_penalty = none;
  presence_penalty = none;
  repetition_penalty = none;
  seed = none;
  max_tokens = some 900;
  stop = some ("x" ∷ "y" ∷ []);
  tools = none;
  chat_template_kwargs = none;
  stream_options = some (other "opts");
  logprobs = none;
  top_logprobs = none;
  prompt_cache_key = none;
  prompt_cache_retention = none;
  extra = ("top_k", num 5) ∷ ("model", str "z") ∷ [];
}

abbrev backend : ClientConfig
backend = record default_client {
  max_tokens = some 100;
  stop = some ("y" ∷ []);
  model_rewrite = some (("a", "b") ∷ []);
}

abbrev extra_body : Option Object
extra_body = some (("model", str "q") ∷ ("top_k", num 7) ∷ ("min_p", num 1) ∷ [])

built_model :
    lookup "model" (build_request_body_generic (chat request) backend extra_body false)
    ≡ some (str "b")
unfolding build_request_body_generic adjust_max_tokens merge_stop_words lookup insert remove
built_model = refl

built_tokens :
    lookup "max_tokens" (build_request_body_generic (chat request) backend extra_body false)
    ≡ some (num 100)
unfolding build_request_body_generic adjust_max_tokens merge_stop_words lookup insert remove
built_tokens = refl
