-- ===== src/Webhook/Config.antt =====
-- What the receiver is configured with, and what it takes from Python's libraries.
use self_healing_kafka_syste.Base.{ℕ, Bool, Option, List}
use self_healing_kafka_syste.Base.Text.{Text}
use self_healing_kafka_syste.Domain.Json.{Value}
use self_healing_kafka_syste.Effect.Exn.{Result}

-- `GrafanaWebhookConfig` of config.py, as far as the receiver reads it. Times are in seconds.
pub record GrafanaWebhookConfig : Type 0 where
  pub enabled : Bool
  pub path : Text
  pub auth_mode : Text
  pub secret : Text
  pub signature_header : Text
  pub timestamp_header : Text
  pub timestamp_tolerance_seconds : ℕ
  pub dedupe_ttl_seconds : ℕ
  pub queue_size : ℕ
  pub worker_count : ℕ

-- A Python integer: its sign and its size.
pub record Signed : Type 0 where
  pub negative : Bool
  pub size : ℕ

abbrev pub Bytes : Type 0
Bytes = List ℕ

-- The libraries: `int(text)`, `str.encode("utf-8")`, the hexadecimal digest of an HMAC with SHA-256,
-- `json.loads`, `str()` of a list or a dict, and `parse_qs`.
pub record Platform : Type 0 where
  pub parse_int : Text → Option Signed
  pub utf8 : Text → Bytes
  pub hmac_sha256 : Bytes → Bytes → Text
  pub json_loads : Bytes → Result Value
  pub repr : Value → Text
  pub parse_qs : Text → List (Text × List Text)
