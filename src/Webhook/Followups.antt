-- ===== src/Webhook/Followups.antt =====
-- The state of `GrafanaWebhookService` of webhook/grafana.py and its follow-up timers. Each function
-- is its method run without another thread in between; Webhook/Steps has the parts in which they interleave.
use self_healing_kafka_syste.Base.{
  ℕ, suc, Bool, true, false, ◌||◌, not, Option, none, some, List, [], ◌∷◌, ◌==◌, if◌then◌else◌,
  keep_if, is_some,
}
use self_healing_kafka_syste.Base.Text.{Text}
use self_healing_kafka_syste.Base.Dict.{lookup, insert, remove, text_key}
use self_healing_kafka_syste.Base.Decimal.{print_decimal}
use self_healing_kafka_syste.Domain.{Time}
use self_healing_kafka_syste.Effect.Exn.{text}
use self_healing_kafka_syste.Webhook.Dedupe.{Claims, release}
use self_healing_kafka_syste.Webhook.Alerts.{GrafanaAlertEvent, dedupe_key}

-- A timer that is started and has neither fired nor been cancelled.
pub record Timer : Type 0 where
  pub id : ℕ
  pub connector_name : Text
  pub failure_confirmed : Bool

-- `none` in the queue sends a worker home. `followup_timers` has the timers by connector, `started`
-- those of the timers that may still fire, and `next_id` names the next timer.
pub record Service : Type 0 where
  pub queue : List (Option GrafanaAlertEvent)
  pub claims : Claims
  pub followup_timers : List (Text × ℕ)
  pub started : List Timer
  pub next_id : ℕ
  pub stopping : Bool

unfoldable pub new_service : Service
new_service = record {
  queue = [];
  claims = [];
  followup_timers = [];
  started = [];
  next_id = 0;
  stopping = false;
}

unfoldable pub release_event : GrafanaAlertEvent → Service → Service
release_event event s = record s { claims = release (dedupe_key event) s.claims }

-- `_schedule_followup`.
unfoldable pub schedule_followup : Text → Bool → Service → Service
schedule_followup name failure_confirmed s =
    if is_some (lookup name s.followup_timers) || s.stopping then s else record s {
      followup_timers = insert name s.next_id s.followup_timers;
      started =
          record { id = s.next_id; connector_name = name; failure_confirmed = failure_confirmed }
          ∷ s.started;
      next_id = suc s.next_id;
    }

unfoldable pub schedule_recovery_followup : Text → Service → Service
unfolding schedule_followup
schedule_recovery_followup name s = schedule_followup name false s

-- `timer.cancel()`.
abbrev pub cancel : ℕ → List Timer → List Timer
cancel id timers = keep_if (λ t. not (t.id == id)) timers

-- A timer that runs the method itself is not cancelled: it has fired.
abbrev pub is_current : Option ℕ → ℕ → Bool
is_current none id = false
is_current (some current) id = current == id

abbrev pub cancel_popped : Option ℕ → Option ℕ → List Timer → List Timer
cancel_popped current none timers = timers
cancel_popped current (some id) timers = if is_current current id then timers else cancel id timers

-- `_clear_followup` run alone; `current` is the timer that runs it, if one does.
unfoldable pub clear_followup : Option ℕ → Text → Service → Service
clear_followup current name s = record s {
  followup_timers = remove name s.followup_timers;
  started = cancel_popped current (lookup name s.followup_timers) s.started;
}

unfoldable pub followup_event : Time → Text → Bool → GrafanaAlertEvent
followup_event now name failure_confirmed = record {
  connector_name = name;
  status = text "followup";
  fingerprint = text "internal";
  starts_at = print_decimal now;
  alert_name = text "SELF-HEALTHY-KAFKA recovery follow-up";
  failure_confirmed = failure_confirmed;
}

-- `self._stopping.set()`.
unfoldable pub set_stopping : Service → Service
set_stopping s = record s { stopping = true }

abbrev pub has_id : ℕ → List (Text × ℕ) → Bool
has_id id [] = false
has_id id ((name, i) ∷ m) = i == id || has_id id m

-- The timers that `close` takes out and cancels, run alone.
unfoldable pub cancel_timers : Service → Service
cancel_timers s = record s {
  followup_timers = [];
  started = keep_if (λ t. not (has_id t.id s.followup_timers)) s.started;
}
