-- ===== src/Webhook/Routes.antt =====
-- `do_GET` and `do_DELETE` of the HTTP handler of webhook/grafana.py, and its three methods together.
use self_healing_kafka_syste.Base.{ℕ, Bool, ◌&&◌, not, Option, some, List, [], ◌∷◌, if◌then◌else◌}
use self_healing_kafka_syste.Base.Text.{Text, text_eq}
use self_healing_kafka_syste.Base.Dict.{lookup, text_key}
use self_healing_kafka_syste.Domain.{Time}
use self_healing_kafka_syste.Domain.Json.{Fields, end, field, str}
use self_healing_kafka_syste.Effect.Exn.{Exn, text}
use self_healing_kafka_syste.Webhook.Config.{GrafanaWebhookConfig, Platform}
use self_healing_kafka_syste.Webhook.Followups.{Service}
use self_healing_kafka_syste.Webhook.Http.{
  HttpRequest, Answer, reply, broken, Asked, answered, bad_input, bad_plan, crashed, Chat,
  error_reply, do_post,
}

-- How `handle_get` of the chat API ends: with a status and a payload, with a `ValueError`, or with
-- another exception.
pub data Got : Type 0 where
  got : ℕ → Fields → Got
  bad_query : Text → Got
  failed : Exn → Got

-- The chat API, which only reads, and what the analytics chat does with a conversation to forget.
pub record ChatApi : Type 0 where
  pub enabled : Bool
  pub is_authorized : Text → Bool
  pub handle_get : Text → List (Text × List Text) → Got
  pub clear_conversation : Text → Asked

pub data Method : Type 0 where
  get_method post_method delete_method : Method

abbrev pub got_reply : Got → Answer
got_reply (got status payload) = reply status payload
got_reply (bad_query message) = error_reply 400 message
got_reply (failed x) = broken x

abbrev pub cleared_reply : Text → Asked → Answer
cleared_reply id (answered fs) =
    reply 200 (field "status" (str (text "ok")) (field "conversation_id" (str id) end))
cleared_reply id (bad_input message) = error_reply 400 message
cleared_reply id bad_plan = error_reply 503 (text "analytics chat context is unavailable")
cleared_reply id crashed = error_reply 503 (text "analytics chat context is unavailable")

abbrev pub clear_one : (Text → Asked) → Option (List Text) → Answer
clear_one clear (some (id ∷ [])) = cleared_reply id (clear id)
clear_one clear _ = error_reply 400 (text "conversation_id is required")

module _ (lib : Platform) (config : GrafanaWebhookConfig) where
  unfoldable pub do_get : ChatApi → HttpRequest → Answer
  do_get api r =
      if text_eq r.path (text "/health")
      then reply 200 (field "status" (str (text "ok")) end)
      else if not api.enabled
      then error_reply 404 (text "not found")
      else if not (api.is_authorized (r.headers (text "Authorization")))
      then error_reply 401 (text "invalid chat API authentication")
      else got_reply (api.handle_get r.path (lib.parse_qs r.query))

  unfoldable pub do_delete : ChatApi → Chat → HttpRequest → Answer
  do_delete api analytics r =
      if not (analytics.enabled && text_eq r.path analytics.path)
      then error_reply 404 (text "not found")
      else if not (api.is_authorized (r.headers (text "Authorization")))
      then error_reply 401 (text "invalid chat API authentication")
      else clear_one api.clear_conversation (lookup (text "conversation_id") (lib.parse_qs r.query))

  -- A request of one of the three methods.
  unfoldable pub respond :
      Method → ChatApi → Chat → Chat → ℕ → (ℕ → Time) → HttpRequest → Service → Answer × Service
  unfolding do_get do_delete
  respond Method.get_method api analytics ollama now clock r s = (do_get api r, s)
  respond Method.post_method api analytics ollama now clock r s =
      do_post lib config analytics ollama now clock r s
  respond Method.delete_method api analytics ollama now clock r s = (do_delete api analytics r, s)
