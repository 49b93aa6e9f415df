-- ===== src/Webhook/Http.antt =====
-- `do_POST` of the HTTP handler of webhook/grafana.py. The chat services that it passes questions to
-- are arguments; they share no state with the receiver.
use self_healing_kafka_syste.Base.{
  ℕ, zero, suc, ◌*◌, Bool, true, false, ◌&&◌, ◌||◌, not, Option, none, some, List, [], ◌∷◌, ltb,
  ◌==◌, if◌then◌else◌, is_empty,
}
use self_healing_kafka_syste.Base.Text.{Text, text_eq}
use self_healing_kafka_syste.Base.Dict.{lookup, text_key}
use self_healing_kafka_syste.Domain.{Time}
use self_healing_kafka_syste.Domain.Json.{Value, Fields, end, field, null, num, str, obj, get}
use self_healing_kafka_syste.Effect.Exn.{Exn, ExnKind, Result, ok, raised, text}
use self_healing_kafka_syste.Webhook.Config.{GrafanaWebhookConfig, Signed, Bytes, Platform}
use self_healing_kafka_syste.Webhook.Auth.{verify}
use self_healing_kafka_syste.Webhook.Followups.{Service}
use self_healing_kafka_syste.Webhook.Service.{Receipt, submit}

-- A request: the path and the query of its target, `headers.get(name, "")`, and the stream of its body.
pub record HttpRequest : Type 0 where
  pub path : Text
  pub query : Text
  pub headers : Text → Text
  pub stream : Bytes

-- A response with its status, or an exception that leaves the handler without one.
pub data Answer : Type 0 where
  reply : ℕ → Fields → Answer
  broken : Exn → Answer

-- How a question ends.
pub data Asked : Type 0 where
  answered : Fields → Asked
  bad_input : Text → Asked
  bad_plan crashed : Asked

-- The services of a chat: whether it is enabled, its path, `is_authorized` of the chat API, and `ask`.
pub record Chat : Type 0 where
  pub enabled : Bool
  pub path : Text
  pub is_authorized : Text → Bool
  pub ask : Text → Option Text → Asked

unfoldable pub max_body_bytes : ℕ
max_body_bytes = 1024 * 1024

abbrev pub error_reply : ℕ → Text → Answer
error_reply status message = reply status (field "error" (str message) end)

abbrev pub read_stream : ℕ → Bytes → Bytes
read_stream zero bytes = []
read_stream (suc n) [] = []
read_stream (suc n) (b ∷ bytes) = b ∷ read_stream n bytes

-- The body of a request, or the answer that ends it.
pub data Body : Type 0 where
  body : Bytes → Body
  refused : Answer → Body

abbrev pub sized_body : Bytes → Option Signed → Body
sized_body stream none =
    refused
      (broken (record { kind = ExnKind.value_error; message = text "invalid literal for int()" }))
sized_body stream (some length) =
    if length.negative || length.size == 0 || ltb max_body_bytes length.size
    then refused (error_reply 413 (text "invalid body size"))
    else body (read_stream length.size stream)

pub data Payload : Type 0 where
  payload : Fields → Payload
  rejected : Answer → Payload

-- Of the exceptions of `json.loads` only a `ValueError` is caught; a `JSONDecodeError` is one.
abbrev pub refused_payload : ExnKind → Exn → Answer
refused_payload ExnKind.value_error x = error_reply 400 x.message
refused_payload _ x = broken x

abbrev pub object_payload : Result Value → Payload
object_payload (ok (obj fs)) = payload fs
object_payload (ok _) = rejected (error_reply 400 (text "payload must be an object"))
object_payload (raised x) = rejected (refused_payload x.kind x)

module _ (lib : Platform) (config : GrafanaWebhookConfig) where
  -- `_read_body`.
  unfoldable pub read_body : HttpRequest → Body
  read_body r =
      let length = r.headers (text "Content-Length") in
      sized_body r.stream (
        if is_empty length
        then some (record { negative = false; size = 0 })
        else lib.parse_int length)

  -- `json.loads(body)`, which has to be an object.
  unfoldable pub load_object : Bytes → Payload
  load_object bytes = object_payload (lib.json_loads bytes)

  abbrev first_value : Option (List Text) → Text
  first_value none = []
  first_value (some []) = []
  first_value (some (v ∷ vs)) = v

  unfoldable pub query_token : HttpRequest → Text
  query_token r = first_value (lookup (text "token") (lib.parse_qs r.query))

  abbrev pub receipt_reply : Result Receipt × Service → Answer × Service
  receipt_reply (raised x, s) = (broken x, s)
  receipt_reply (ok r, s) = (
    reply 202 (
        field "accepted" (num r.accepted)
          (field "duplicate" (num r.duplicate) (field "ignored" (num r.ignored) end))),
    s,
  )

  abbrev pub submit_loaded : (ℕ → Time) → Payload → Service → Answer × Service
  submit_loaded clock (rejected a) s = (a, s)
  submit_loaded clock (payload fs) s = receipt_reply (submit config lib.repr clock fs s)

  abbrev pub admit : (ℕ → Time) → Bytes → Result Bool → Service → Answer × Service
  admit clock bytes (raised x) s = (broken x, s)
  admit clock bytes (ok false) s = (error_reply 401 (text "invalid webhook authentication"), s)
  admit clock bytes (ok true) s = submit_loaded clock (load_object bytes) s

  abbrev pub receive : ℕ → (ℕ → Time) → HttpRequest → Body → Service → Answer × Service
  receive now clock r (refused a) s = (a, s)
  receive now clock r (body bytes) s =
      admit clock bytes (verify lib config now r.headers bytes (query_token r)) s

  -- The part of `do_POST` for Grafana's alerts; `now` is the time of the verification.
  unfoldable pub post_alerts : ℕ → (ℕ → Time) → HttpRequest → Service → Answer × Service
  unfolding read_body query_token load_object
  post_alerts now clock r s =
      if not config.enabled
      then (error_reply 404 (text "not found"), s)
      else if not (text_eq r.path config.path)
      then (error_reply 404 (text "not found"), s)
      else receive now clock r (read_body r) s

  abbrev pub asked : Text → Text → Asked → Answer
  asked planner unavailable (answered fs) = reply 200 fs
  asked planner unavailable (bad_input message) = error_reply 400 message
  asked planner unavailable bad_plan = error_reply 502 planner
  asked planner unavailable crashed = error_reply 503 unavailable

  abbrev pub ask_analytics : Chat → Text → Option Value → Answer
  ask_analytics chat question none =
      asked (text "analytics planner returned an invalid response")
        (text "analytics chat is unavailable") (chat.ask question none)
  ask_analytics chat question (some null) =
      asked (text "analytics planner returned an invalid response")
        (text "analytics chat is unavailable") (chat.ask question none)
  ask_analytics chat question (some (str id)) =
      asked (text "analytics planner returned an invalid response")
        (text "analytics chat is unavailable") (chat.ask question (some id))
  ask_analytics chat question (some _) = error_reply 400 (text "conversation_id must be a string")

  abbrev pub ask_question : (Text → Answer) → Option Value → Answer
  ask_question ask (some (str question)) = ask question
  ask_question ask _ = error_reply 400 (text "question must be a string")

  abbrev pub ask_loaded : (Fields → Text → Answer) → Payload → Answer
  ask_loaded ask (rejected a) = a
  ask_loaded ask (payload fs) = ask_question (ask fs) (get "question" fs)

  abbrev pub ask_body : (Fields → Text → Answer) → Body → Answer
  ask_body ask (refused a) = a
  ask_body ask (body bytes) = ask_loaded ask (load_object bytes)

  unfoldable pub post_question : Chat → (Fields → Text → Answer) → HttpRequest → Answer
  unfolding read_body load_object
  post_question chat ask r =
      if not (chat.is_authorized (r.headers (text "Authorization")))
      then error_reply 401 (text "invalid chat API authentication")
      else ask_body ask (read_body r)

  unfoldable pub do_post : Chat → Chat → ℕ → (ℕ → Time) → HttpRequest → Service → Answer × Service
  unfolding post_alerts post_question
  do_post analytics ollama now clock r s =
      if analytics.enabled && text_eq r.path analytics.path
      then (
        post_question analytics (λ fs q. ask_analytics analytics q (get "conversation_id" fs)) r,
        s,
      )
      else if ollama.enabled && text_eq r.path ollama.path
      then (
        post_question ollama
            (λ fs q.
              asked (text "chat model is unavailable") (text "chat model is unavailable")
                (ollama.ask q none))
            r,
        s,
      )
      else post_alerts now clock r s
