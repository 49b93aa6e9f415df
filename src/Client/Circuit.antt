-- ===== src/Client/Circuit.antt =====
-- The circuit breaker of src/self_healthy_kafka/connect/client.py. The lock around each method
-- makes it one step.
use self_healing_kafka_syste.Base.{ℕ, ◌+◌, Bool, true, false, ◌&&◌, not, ltb, ◌==◌, if◌then◌else◌}
use self_healing_kafka_syste.Base.Text.{Text}
use self_healing_kafka_syste.Domain.{Time}
use self_healing_kafka_syste.Effect.Exn.{Exn, ExnKind, text}
use self_healing_kafka_syste.Effect.World.{Env, World}
use self_healing_kafka_syste.Effect.Monad.{M, monotonic, gets, modify, raise, pure, skip, ◌>>=◌}

abbrev pub set_circuit : Time → Bool → World → World
set_circuit t b w = record w { circuit = record { open_until = t; half_open = b } }

-- The two messages of `KafkaConnectCircuitOpen`: the cooldown is not over, or a probe is under way.
abbrev pub circuit_message : Bool → Text
circuit_message true = text "Kafka Connect status circuit is open until cooldown expires"
circuit_message false = text "Kafka Connect status circuit half-open probe is in progress"

abbrev pub circuit_error : Bool → Exn
circuit_error cooling = record { kind = ExnKind.circuit_open; message = circuit_message cooling }

module _ (env : Env) (circuit_cooldown : ℕ) where
  -- The property `status_circuit_open`.
  unfoldable pub status_circuit_open : M Bool
  status_circuit_open = do
    now ← monotonic env
    c ← gets (λ w. w.circuit)
    pure (ltb now c.open_until)

  unfoldable pub before_status_request : M (Unit {0})
  before_status_request = do
    now ← monotonic env
    c ← gets (λ w. w.circuit)
    if ltb now c.open_until
        then raise (circuit_error true)
        else if not (c.open_until == 0) && c.half_open
        then raise (circuit_error false)
        else if not (c.open_until == 0)
        then modify (set_circuit c.open_until true)
        else skip

  unfoldable pub open_status_circuit : M (Unit {0})
  open_status_circuit = do now ← monotonic env; modify (set_circuit (now + circuit_cooldown) false)

unfoldable pub close_status_circuit : M (Unit {0})
close_status_circuit = modify (set_circuit 0 false)
