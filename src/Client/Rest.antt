-- ===== src/Client/Rest.antt =====
-- The methods of `KafkaConnectClient`. `_request` adds a log line to the library's call and nothing
-- else, so it is `send`.
use self_healing_kafka_syste.Base.{
  ℕ, Bool, true, false, ◌&&◌, ◌||◌, Option, none, some, List, [], ◌∷◌, leb, ltb, ◌==◌,
  if◌then◌else◌, is_some,
}
use self_healing_kafka_syste.Base.Text.{Text}
use self_healing_kafka_syste.Domain.{ConnectorStatus}
use self_healing_kafka_syste.Domain.Json.{Value, Items, Fields, nil, cons, str, arr, obj}
use self_healing_kafka_syste.Effect.Exn.{
  Exn, ExnKind, Result, ok, raised, text, is_request_error, is_status_error,
}
use self_healing_kafka_syste.Effect.World.{Env, Request, Response}
use self_healing_kafka_syste.Effect.Monad.{M, send, raise, lift, pure, skip, catch, ◌>>=◌, ◌>>◌}
use self_healing_kafka_syste.Client.Payload.{bad_payload, from_api_response}
use self_healing_kafka_syste.Client.Circuit.{
  before_status_request, open_status_circuit, close_status_circuit,
}

-- `resp.raise_for_status()`: the library raises unless the status is 2xx.
unfoldable pub raise_for_status : Response → M (Unit {0})
raise_for_status resp =
    if leb 200 resp.status && ltb resp.status 300
    then skip
    else raise (record { kind = ExnKind.status_error resp.status; message = text "HTTP error" })

abbrev pub json_of : Option Value → M Value
json_of none = lift bad_payload
json_of (some v) = pure v

-- `resp.json()`.
unfoldable pub json : Response → M Value
json resp = json_of resp.body

-- `except (httpx.HTTPStatusError, httpx.RequestError)`.
abbrev pub is_http_error : Exn → Bool
is_http_error x = is_status_error x.kind || is_request_error x.kind

-- `resp.status_code in (404, 405)`.
abbrev pub is_missing : Response → Bool
is_missing resp = resp.status == 404 || resp.status == 405

-- The names of `GET /connectors`, a list of texts.
unfoldable pub names_of : Items → Result (List Text)
names_of nil = ok []
names_of (cons (str s) vs) = elim (names_of vs) [ ok ss ↦ ok (s ∷ ss) | raised x ↦ raised x ]
names_of (cons _ vs) = bad_payload

module _ (env : Env) (circuit_cooldown : ℕ) where
  -- The body of the `try` of `get_status`.
  unfoldable pub fetch_status : Text → M (Option ConnectorStatus)
  fetch_status name = do
    resp ← send env (Request.status name)
    close_status_circuit
    if resp.status == 404 then pure none else do
      raise_for_status resp
      payload ← json resp
      status ← lift (from_api_response payload)
      pure (some status)

  -- The handlers of `get_status`.
  unfoldable pub on_status_error : Exn → M (Option ConnectorStatus)
  on_status_error x =
      if is_status_error x.kind
      then (do close_status_circuit; raise x)
      else if is_request_error x.kind
      then (do open_status_circuit env circuit_cooldown; raise x)
      else raise x

  unfoldable pub get_status : Text → M (Option ConnectorStatus)
  get_status name = do
    before_status_request env circuit_cooldown
    catch (fetch_status name) on_status_error

  unfoldable pub connector_exists : Text → M Bool
  connector_exists name =
      catch (do status ← get_status name; pure (is_some status)) (λ x. pure false)

module _ (env : Env) where
  unfoldable pub list_connectors : M (List Text)
  list_connectors = do
    resp ← send env Request.list_connectors
    raise_for_status resp
    payload ← json resp
    elim payload [ arr vs ↦ lift (names_of vs) | _ ↦ lift bad_payload ]

  unfoldable pub get_config : Text → M (Option Fields)
  get_config name = do
    resp ← send env (Request.config name)
    if resp.status == 404 then pure none else do
      raise_for_status resp
      payload ← json resp
      pure (elim payload [ obj fs ↦ some fs | _ ↦ none ])

  unfoldable pub restart_connector : Text → Bool → M (Unit {0})
  restart_connector name only_failed = do
    resp ← send env (Request.restart name only_failed)
    raise_for_status resp

  unfoldable pub delete_connector : Text → M (Unit {0})
  delete_connector name = do
    resp ← send env (Request.delete name)
    if resp.status == 200 || resp.status == 204 || resp.status == 404
        then skip
        else raise_for_status resp

  unfoldable pub create_connector : Text → Fields → Option Text → M Value
  create_connector name config initial_state = do
    resp ← send env (Request.create name config initial_state)
    raise_for_status resp
    json resp

  unfoldable pub get_offsets : Text → M (Option Value)
  get_offsets name =
      catch
        (do
          resp ← send env (Request.offsets name)
          if is_missing resp
              then pure none
              else do raise_for_status resp; payload ← json resp; pure (some payload))
        (λ x. if is_request_error x.kind then pure none else raise x)

  unfoldable pub patch_offsets : Text → Fields → M Bool
  patch_offsets name offsets =
      catch
        (do
          resp ← send env (Request.patch_offsets name offsets)
          if is_missing resp then pure false else do raise_for_status resp; pure true)
        (λ x. if is_http_error x then pure false else raise x)

  unfoldable pub stop_connector : Text → M Bool
  stop_connector name =
      catch
        (do
          resp ← send env (Request.stop name)
          if resp.status == 404
              then pure true
              else if resp.status == 405
              then pure false
              else do raise_for_status resp; pure true)
        (λ x. if is_http_error x then pure false else raise x)

  unfoldable pub resume_connector : Text → M Bool
  resume_connector name =
      catch
        (do
          resp ← send env (Request.resume name)
          if is_missing resp then pure false else do raise_for_status resp; pure true)
        (λ x. if is_http_error x then pure false else raise x)
