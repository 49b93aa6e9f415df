-- ===== src/Webhook/Steps.antt =====
-- How the threads of the receiver of webhook/grafana.py interleave: each critical section, each access to
-- the queue and each `cancel` is a step of its own, and they come in any order. A thread may put an entry
-- at any time, so the steps allow more than `_enqueue_followup` does, which tests `_stopping` first.
use self_healing_kafka_syste.Base.{
  ℕ, Bool, true, false, ◌||◌, not, Option, none, some, List, [], ◌∷◌, ◌++◌, any, ◌==◌, ◌≡◌,
  if◌then◌else◌, keep_if,
}
use self_healing_kafka_syste.Base.Text.{Text}
use self_healing_kafka_syste.Base.Dict.{lookup, remove, text_key}
use self_healing_kafka_syste.Domain.{Time}
use self_healing_kafka_syste.Webhook.Config.{GrafanaWebhookConfig}
use self_healing_kafka_syste.Webhook.Alerts.{GrafanaAlertEvent}
use self_healing_kafka_syste.Webhook.Followups.{
  Service, Timer, release_event, schedule_followup, cancel, is_current, set_stopping,
}
use self_healing_kafka_syste.Webhook.Service.{put_nowait, claim_event}

abbrev pub is_started : ℕ → List Timer → Bool
is_started id timers = any (λ t. t.id == id) timers

abbrev pub is_in : List ℕ → ℕ → Bool
is_in [] i = false
is_in (j ∷ js) i = i == j || is_in js i

-- The service while its threads run. `doomed` has the timers that some thread has taken out of
-- `_followup_timers` under the lock and has yet to cancel.
pub record Threads : Type 0 where
  pub service : Service
  pub doomed : List ℕ

abbrev pub alone : Service → Threads
alone s = record { service = s; doomed = [] }

-- The service with the cancellations that are due.
abbrev pub settle : Threads → Service
settle u = record u.service { started = keep_if (λ t. not (is_in u.doomed t.id)) u.service.started }

abbrev pub within : (Service → Service) → Threads → Threads
within f u = record { service = f u.service; doomed = u.doomed }

abbrev pub doom : Option ℕ → Option ℕ → List ℕ → List ℕ
doom current none ids = ids
doom current (some id) ids = if is_current current id then ids else id ∷ ids

-- The critical section of `_clear_followup`; `current` is the timer that runs it, if one does.
unfoldable pub pop_followup : Option ℕ → Text → Threads → Threads
pop_followup current name u = record {
  service = record u.service { followup_timers = remove name u.service.followup_timers };
  doomed = doom current (lookup name u.service.followup_timers) u.doomed;
}

-- A thread cancels a timer that it has taken out.
unfoldable pub cancel_one : ℕ → Threads → Threads
cancel_one id u = record {
  service = record u.service { started = cancel id u.service.started };
  doomed = keep_if (λ i. not (i == id)) u.doomed;
}

abbrev pub ids_of : List (Text × ℕ) → List ℕ
ids_of [] = []
ids_of ((name, id) ∷ m) = id ∷ ids_of m

-- The critical section of `close`.
unfoldable pub take_timers : Threads → Threads
take_timers u = record {
  service = record u.service { followup_timers = [] };
  doomed = ids_of u.service.followup_timers ++ u.doomed;
}

-- `queue.get`.
abbrev pub rest_of : {A : Type 0} → List A → List A
rest_of [] = []
rest_of (x ∷ xs) = xs

unfoldable pub take : Service → Service
take s = record s { queue = rest_of s.queue }

-- A timer that fires is no longer waiting, and runs `_enqueue_followup` at some time after that.
unfoldable pub fire : Timer → Service → Service
fire t s = record s { started = cancel t.id s.started }

-- A timer that runs `_clear_followup` has fired.
abbrev pub IsIdle : Option ℕ → List Timer → Type 0
IsIdle none ts = Unit
IsIdle (some current) ts = is_started current ts ≡ false

module _ (config : GrafanaWebhookConfig) where
  pub data Step : Threads → Threads → Type 0 where
    claimed :
        (now : Time) (event : GrafanaAlertEvent) (u : Threads)
        → Step u (within (λ s. (claim_event config now event s).1) u)
    put :
        (entry : Option GrafanaAlertEvent) (u : Threads)
        → Step u (within (λ s. (put_nowait config entry s).1) u)
    released : (event : GrafanaAlertEvent) (u : Threads) → Step u (within (release_event event) u)
    taken : (u : Threads) → Step u (within take u)
    scheduled :
        (name : Text) (failure_confirmed : Bool) (u : Threads)
        → Step u (within (schedule_followup name failure_confirmed) u)
    fired : (t : Timer) (u : Threads) → Step u (within (fire t) u)
    popped :
        (current : Option ℕ) (name : Text) (u : Threads)
        → IsIdle current u.service.started
        → Step u (pop_followup current name u)
    cancelled : (id : ℕ) (u : Threads) → is_in u.doomed id ≡ true → Step u (cancel_one id u)
    stopped : (u : Threads) → Step u (within set_stopping u)
    drained : (u : Threads) → Step u (take_timers u)

  -- Any number of steps, the last one first.
  pub data Steps (u : Threads) : Threads → Type 0 where
    here : Steps u u
    then_step : {v w : Threads} → Steps u v → Step v w → Steps u w
