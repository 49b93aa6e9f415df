-- ===== src/Machine/Memory.antt =====
-- The memory of the state machine: `_healthy_since`, `_uncertain_actions` and the locks, and the
-- waits that follow an action.
use self_healing_kafka_syste.Base.{
  ℕ, ◌+◌, ◌*◌, Bool, true, false, ◌&&◌, not, Option, none, some, List, ◌∷◌, ◌==◌, if◌then◌else◌,
  any, keep_if, is_some,
}
use self_healing_kafka_syste.Base.Text.{Text, text_eq}
use self_healing_kafka_syste.Base.Dict.{lookup, insert, remove, nat_key}
use self_healing_kafka_syste.Domain.{Time, QueueId, EventType, ConnectorJob, Settings}
use self_healing_kafka_syste.Effect.Exn.{ok}
use self_healing_kafka_syste.Effect.World.{World}
use self_healing_kafka_syste.Effect.Monad.{M, modify, gets}
use self_healing_kafka_syste.Policy.{
  wait_after_restart_events, wait_after_recreate_events, recreate_with_offset_retry_events,
  recreate_with_offset_failure_events, is_recreate_with_offset,
}

-- `t + timedelta(seconds=s)`.
abbrev pub after_seconds : Time → ℕ → Time
after_seconds t s = t + s * 1_000_000

unfoldable pub forget_healthy : QueueId → M (Unit {0})
unfolding modify
forget_healthy id = modify (λ w. record w { healthy_since = remove id w.healthy_since })

unfoldable pub set_healthy_since : QueueId → Time → M (Unit {0})
unfolding modify
set_healthy_since id t = modify (λ w. record w { healthy_since = insert id t w.healthy_since })

unfoldable pub healthy_since : QueueId → M (Option Time)
unfolding gets
healthy_since id = gets (λ w. lookup id w.healthy_since)

-- `str(job.id) in self._uncertain_actions`.
unfoldable pub is_member : QueueId → List QueueId → Bool
is_member id ids = any (λ j. j == id) ids

unfoldable pub is_uncertain : QueueId → M Bool
unfolding gets
is_uncertain id = gets (λ w. is_member id w.uncertain_actions)

unfoldable pub mark_uncertain : QueueId → M (Unit {0})
unfolding modify
mark_uncertain id = modify (λ w. record w {
  uncertain_actions =
      if is_member id w.uncertain_actions then w.uncertain_actions else id ∷ w.uncertain_actions;
})

unfoldable pub discard_uncertain : QueueId → M (Unit {0})
unfolding modify
discard_uncertain id =
    modify (λ w. record w { uncertain_actions = keep_if (λ j. not (j == id)) w.uncertain_actions })

unfoldable pub holds : Text → List Text → Bool
holds name names = any (λ n. text_eq n name) names

-- `lock.acquire(blocking=False)` on the lock of a name.
unfoldable pub acquire : Text → M Bool
acquire name w =
    if holds name w.locks then (ok false, w) else (ok true, record w { locks = name ∷ w.locks })

unfoldable pub release : Text → World → World
release name w = record w { locks = keep_if (λ n. not (text_eq n name)) w.locks }

module _ (settings : Settings) where
  unfoldable pub wait_after : Option EventType → Time → Option Time
  wait_after event at =
      if wait_after_restart_events event
      then some (after_seconds at settings.post_restart_wait_seconds)
      else if wait_after_recreate_events event
      then some (after_seconds at settings.recreate_verify_wait_seconds)
      else if recreate_with_offset_retry_events event
      then some (after_seconds at settings.recreate_verify_wait_seconds)
      else none

  -- `_action_wait_until`.
  unfoldable pub action_wait_until : ConnectorJob → Option Time
  unfolding wait_after
  action_wait_until job = elim job.latest_event_at [
    | none ↦ none
    | some at ↦ wait_after job.latest_event_type at
  ]

abbrev is_true : Option Bool → Bool
is_true (some true) = true
is_true _ = false

-- `HEALING_MANAGED_STOPPED_EVENTS`.
unfoldable pub healing_managed_stopped_events : Option EventType → Bool
healing_managed_stopped_events event =
    if recreate_with_offset_failure_events event
    then true
    else if recreate_with_offset_retry_events event
    then true
    else is_recreate_with_offset event

unfoldable pub is_healing_managed_stopped : ConnectorJob → Bool
unfolding healing_managed_stopped_events
is_healing_managed_stopped job =
    is_some job.active_incident_id
    && is_true job.latest_has_next_step
    && healing_managed_stopped_events job.latest_event_type
