-- ===== src/Machine/Healthy.antt =====
-- `_handle_healthy`, `_handle_post_action_healthy`, `_record_recovered` and
-- `_delete_superseded_connector_if_needed`.
use self_healing_kafka_syste.Base.{
  Bool, true, false, ◌&&◌, ◌||◌, not, Option, none, some, List, [], ◌∷◌, ltb, leb, ◌==◌,
  if◌then◌else◌, is_empty, keep_if,
}
use self_healing_kafka_syste.Base.Text.{Text, text_eq}
use self_healing_kafka_syste.Domain.{Time, EventType, ConnectorJob, HealthResult, Settings}
use self_healing_kafka_syste.Domain.Json.{Value, keep_truthy}
use self_healing_kafka_syste.Effect.Exn.{text}
use self_healing_kafka_syste.Effect.World.{Env, Severity, FinalOutcome}
use self_healing_kafka_syste.Effect.Monad.{M, catch, utc_now, skip, ◌>>=◌, ◌>>◌}
use self_healing_kafka_syste.Client.Rest.{delete_connector}
use self_healing_kafka_syste.Naming.Scn.{text_of}
use self_healing_kafka_syste.Policy.{wait_after_restart_events, wait_after_recreate_events}
use self_healing_kafka_syste.Store.Queue.{complete}
use self_healing_kafka_syste.Store.Logs.{Entry, record_connector_log}
use self_healing_kafka_syste.Healing.Helpers.{
  RecoveryDetails, recovery_details, recovery_fields, recovery_message,
}
use self_healing_kafka_syste.Machine.Memory.{
  after_seconds, forget_healthy, set_healthy_since, healthy_since,
}

-- `a <= b` on texts, by code points.
unfoldable pub text_leb : Text → Text → Bool
text_leb [] t = true
text_leb (c ∷ s) [] = false
text_leb (c ∷ s) (d ∷ t) = ltb c d || (c == d && text_leb s t)

module _ (env : Env) (settings : Settings) where
  -- `{str(name)} if name and str(name) != current_name`.
  unfoldable pub superseded : Text → Option Value → List Text
  superseded current value = elim (keep_truthy value) [
    | none ↦ []
    | some v ↦ if text_eq (text_of env.repr v) current then [] else text_of env.repr v ∷ []
  ]

  -- A set of at most two names, sorted.
  unfoldable pub sorted_set : List Text → List Text → List Text
  sorted_set [] names = names
  sorted_set (s ∷ ss) [] = s ∷ []
  sorted_set (s ∷ ss) (t ∷ ts) =
      if text_eq s t then s ∷ [] else if text_leb s t then s ∷ t ∷ [] else t ∷ s ∷ []

  unfoldable pub old_names : ConnectorJob → RecoveryDetails → List Text
  unfolding superseded sorted_set
  old_names job details =
      let both =
        sorted_set (superseded job.connector_name (some details.original_connector_name))
          (superseded job.connector_name details.old_connector_name) in
      if settings.recreate_keep_base_connector
      then keep_if (λ n. not (text_eq n (text_of env.repr details.original_connector_name))) both
      else both

  unfoldable pub delete_all : List Text → M (Unit {0})
  delete_all [] = skip
  delete_all (n ∷ ns) = do catch (delete_connector env n) (λ x. skip); delete_all ns

  unfoldable pub delete_superseded_connector_if_needed :
      ConnectorJob → RecoveryDetails → M (Unit {0})
  delete_superseded_connector_if_needed job details =
      if is_empty job.connector_name then skip else delete_all (old_names job details)

  abbrev pub recovered_entry : ConnectorJob → RecoveryDetails → Entry
  recovered_entry job details = record {
    connector_id = job.id;
    connector_name = job.connector_name;
    event_type = EventType.healing_recovered;
    attempt_no = none;
    healing_step = none;
    severity = Severity.info;
    message = recovery_message env.repr details;
    scn = none;
    commit_scn = none;
    details = recovery_fields details;
  }

  unfoldable pub record_recovered : ConnectorJob → HealthResult → M (Unit {0})
  record_recovered job result =
      let details = recovery_details job result in
      if text_eq details.healing_steps (text "NO_AUTOMATED_STEP")
      then (do complete env job.id FinalOutcome.recovered; forget_healthy job.id)
      else do
        delete_superseded_connector_if_needed job details
        record_connector_log env (recovered_entry job details)
        complete env job.id FinalOutcome.recovered
        forget_healthy job.id

  -- `stable_started_at`, dropped where it is not after the latest action.
  unfoldable pub stable_since : Option Time → Option Time → Option Time
  stable_since none started = started
  stable_since (some at) none = none
  stable_since (some at) (some started) = if leb started at then none else some started

  -- With the time since when the connector is seen healthy after the action.
  abbrev pub after_stable : ConnectorJob → HealthResult → Option Time → M (Unit {0})
  after_stable job result none = set_healthy_since job.id result.checked_at
  after_stable job result (some since) = do
    now ← utc_now env
    if ltb now (after_seconds since settings.recovery_healthy_confirm_seconds)
        then skip
        else record_recovered job result

  unfoldable pub handle_post_action_healthy : ConnectorJob → HealthResult → M (Unit {0})
  handle_post_action_healthy job result = do
    started ← healthy_since job.id
    after_stable job result (stable_since job.latest_event_at started)

  unfoldable pub handle_healthy : ConnectorJob → HealthResult → M (Unit {0})
  handle_healthy job result =
      if wait_after_restart_events job.latest_event_type
        || wait_after_recreate_events job.latest_event_type
      then handle_post_action_healthy job result
      else record_recovered job result
