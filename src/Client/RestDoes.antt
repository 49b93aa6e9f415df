-- ===== src/Client/RestDoes.antt =====
-- The one request that each method of `KafkaConnectClient` makes.
use self_healing_kafka_syste.Base.{ℕ, Bool, false, Option, none, some, refl, []}
use self_healing_kafka_syste.Base.Text.{Text}
use self_healing_kafka_syste.Domain.Json.{Value, Fields, arr}
use self_healing_kafka_syste.Effect.Exn.{Exn}
use self_healing_kafka_syste.Effect.World.{Env, World, Request, Response}
use self_healing_kafka_syste.Effect.Does.{
  Does, Extends, Does-pure, Does-raise, Does-lift, Does-gets, Does-if, Does-bind, Does-catch,
  Does-monotonic, Does-send, Does-modify,
}
use self_healing_kafka_syste.Client.Circuit.{
  set_circuit, status_circuit_open, before_status_request, open_status_circuit,
  close_status_circuit,
}
use self_healing_kafka_syste.Client.Rest.{
  raise_for_status, json_of, json, fetch_status, on_status_error, get_status, connector_exists,
  list_connectors, get_config, restart_connector, delete_connector, create_connector, get_offsets,
  patch_offsets, stop_connector, resume_connector,
}

module _ {P : Request → Type 0} where
  Does-set_circuit : (t : ℕ) (b : Bool) → (w : World) → Extends P w (set_circuit t b w)
  Does-set_circuit t b w = record { locks = refl; trace = ([], refl, tt); logs = ([], refl) }

  pub Does-raise_for_status : (resp : Response) → Does P (raise_for_status resp)
  unfolding raise_for_status
  Does-raise_for_status resp = Does-if _ (Does-pure tt) (Does-raise _)

  Does-json_of : (body : Option Value) → Does P (json_of body)
  Does-json_of none = Does-lift _
  Does-json_of (some v) = Does-pure v

  pub Does-json : (resp : Response) → Does P (json resp)
  unfolding json
  Does-json resp = Does-json_of resp.body

  Does-close_status_circuit : Does P close_status_circuit
  unfolding close_status_circuit
  Does-close_status_circuit = Does-modify _ (Does-set_circuit 0 false)

module _ {P : Request → Type 0} (env : Env) (cooldown : ℕ) where
  Does-before_status_request : Does P (before_status_request env cooldown)
  unfolding before_status_request
  Does-before_status_request = Does-bind (Does-monotonic env) λ now.
      Does-bind (Does-gets _)
        λ c. search (Does-if, Does-raise, Does-pure, Does-modify, Does-set_circuit)

  pub Does-status_circuit_open : Does P (status_circuit_open env cooldown)
  unfolding status_circuit_open
  Does-status_circuit_open =
      Does-bind (Does-monotonic env) λ now. Does-bind (Does-gets _) λ c. Does-pure _

  Does-open_status_circuit : Does P (open_status_circuit env cooldown)
  unfolding open_status_circuit
  Does-open_status_circuit =
      Does-bind (Does-monotonic env) λ now. Does-modify _ (Does-set_circuit _ _)

  Does-fetch_status :
      (name : Text) → P (Request.status name) → Does P (fetch_status env cooldown name)
  unfolding fetch_status
  Does-fetch_status name p = Does-bind (Does-send env _ p) λ resp.
      Does-bind Does-close_status_circuit λ _. Does-if _ (Does-pure none) (
        Does-bind (Does-raise_for_status resp)
          λ _. Does-bind (Does-json resp) λ payload. Does-bind (Does-lift _) λ status. Does-pure _)

  Does-on_status_error : (x : Exn) → Does P (on_status_error env cooldown x)
  unfolding on_status_error
  Does-on_status_error x =
      Does-if _ (Does-bind Does-close_status_circuit λ _. Does-raise x)
        (Does-if _ (Does-bind Does-open_status_circuit λ _. Does-raise x) (Does-raise x))

  pub Does-get_status :
      (name : Text) → P (Request.status name) → Does P (get_status env cooldown name)
  unfolding get_status
  Does-get_status name p =
      Does-bind Does-before_status_request
        λ _. Does-catch (Does-fetch_status name p) Does-on_status_error

  pub Does-connector_exists :
      (name : Text) → P (Request.status name) → Does P (connector_exists env cooldown name)
  unfolding connector_exists
  Does-connector_exists name p =
      Does-catch (Does-bind (Does-get_status name p) λ s. Does-pure _) λ x. Does-pure _

module _ {P : Request → Type 0} (env : Env) where
  pub Does-list_connectors : P Request.list_connectors → Does P (list_connectors env)
  unfolding list_connectors
  Does-list_connectors p = Does-bind (Does-send env _ p) λ resp.
      Does-bind (Does-raise_for_status resp)
        λ _. Does-bind (Does-json resp) (elim [ arr vs ↦ Does-lift _ | _ ↦ Does-lift _ ])

  pub Does-get_config : (name : Text) → P (Request.config name) → Does P (get_config env name)
  unfolding get_config
  Does-get_config name p = Does-bind (Does-send env _ p) λ resp. Does-if _ (Does-pure none) (
      Does-bind (Does-raise_for_status resp) λ _. Does-bind (Does-json resp) λ payload. Does-pure _)

  pub Does-restart_connector :
      (name : Text) (only_failed : Bool)
      → P (Request.restart name only_failed)
      → Does P (restart_connector env name only_failed)
  unfolding restart_connector
  Does-restart_connector name only_failed p =
      Does-bind (Does-send env _ p) λ resp. Does-raise_for_status resp

  pub Does-delete_connector :
      (name : Text) → P (Request.delete name) → Does P (delete_connector env name)
  unfolding delete_connector
  Does-delete_connector name p =
      Does-bind (Does-send env _ p) λ resp. Does-if _ (Does-pure tt) (Does-raise_for_status resp)

  pub Does-create_connector :
      (name : Text) (config : Fields) (state : Option Text)
      → P (Request.create name config state)
      → Does P (create_connector env name config state)
  unfolding create_connector
  Does-create_connector name config state p =
      Does-bind (Does-send env _ p)
        λ resp. Does-bind (Does-raise_for_status resp) λ _. Does-json resp

  pub Does-get_offsets : (name : Text) → P (Request.offsets name) → Does P (get_offsets env name)
  unfolding get_offsets
  Does-get_offsets name p =
      Does-catch
        (Does-bind (Does-send env _ p) λ resp. Does-if _ (Does-pure none) (
          Does-bind (Does-raise_for_status resp)
            λ _. Does-bind (Does-json resp) λ payload. Does-pure _))
        λ x. Does-if _ (Does-pure none) (Does-raise x)

  pub Does-patch_offsets :
      (name : Text) (offsets : Fields)
      → P (Request.patch_offsets name offsets)
      → Does P (patch_offsets env name offsets)
  unfolding patch_offsets
  Does-patch_offsets name offsets p =
      Does-catch
        (Does-bind (Does-send env _ p)
          λ resp. Does-if _ (Does-pure _) (Does-bind (Does-raise_for_status resp) λ _. Does-pure _))
        λ x. Does-if _ (Does-pure _) (Does-raise x)

  pub Does-stop_connector : (name : Text) → P (Request.stop name) → Does P (stop_connector env name)
  unfolding stop_connector
  Does-stop_connector name p =
      Does-catch
        (Does-bind (Does-send env _ p)
          λ resp. search (Does-if, Does-pure, Does-bind, Does-raise_for_status))
        λ x. Does-if _ (Does-pure _) (Does-raise x)

  pub Does-resume_connector :
      (name : Text) → P (Request.resume name) → Does P (resume_connector env name)
  unfolding resume_connector
  Does-resume_connector name p =
      Does-catch
        (Does-bind (Does-send env _ p)
          λ resp. Does-if _ (Does-pure _) (Does-bind (Does-raise_for_status resp) λ _. Does-pure _))
        λ x. Does-if _ (Does-pure _) (Does-raise x)
