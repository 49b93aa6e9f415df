-- ===== src/Webhook/Alone.antt =====
-- The methods of webhook/grafana.py that are run without another thread in between, as interleavings.
use self_healing_kafka_syste.Base.Text.{Text}
use self_healing_kafka_syste.Webhook.Followups.{Service}
use self_healing_kafka_syste.Webhook.Steps.{Steps}
