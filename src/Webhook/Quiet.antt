-- ===== src/Webhook/Quiet.antt =====
-- After the critical section of `close` of webhook/grafana.py.
use self_healing_kafka_syste.Base.{
  ℕ, suc, Bool, true, false, ◌||◌, not, Option, none, some, List, [], ◌∷◌, ◌≡◌, refl, ◌∙◌, ap,
  if◌then◌else◌, keep_if, is_some, All,
}
use self_healing_kafka_syste.Base.Text.{Text}
use self_healing_kafka_syste.Base.Dict.{lookup, insert, text_key}
use self_healing_kafka_syste.Webhook.Config.{GrafanaWebhookConfig}
use self_healing_kafka_syste.Webhook.Alerts.{GrafanaAlertEvent}
use self_healing_kafka_syste.Webhook.Followups.{
  Service, Timer, new_service, release_event, schedule_followup, is_current, cancel_popped,
  clear_followup, cancel, set_stopping, cancel_timers,
}
use self_healing_kafka_syste.Webhook.Service.{is_full, put_unless, put_nowait, claim_event}
use self_healing_kafka_syste.Webhook.Steps.{
  is_in, Threads, alone, settle, within, pop_followup, cancel_one, take_timers, take, fire, Step,
  claimed, put, released, taken, scheduled, fired, popped, cancelled, stopped, drained, Steps, here,
  then_step,
}
use self_healing_kafka_syste.Webhook.Settled.{
  settle-pop_followup, settle-cancel_one, settle-take_timers, settle-fire,
}
use self_healing_kafka_syste.Webhook.Registered.{cancel_timers-started}
use self_healing_kafka_syste.Webhook.Sound.{Steps-Tidy}

-- The service stops, and no timer is left but those to be cancelled.
record IsClosing (u : Threads) : Type 0 where
  flag : u.service.stopping ≡ true
  nothing_left : (settle u).started ≡ []

clear_followup-started :
    (current : Option ℕ) (name : Text) (s : Service)
    → s.started ≡ []
    → (clear_followup current name s).started ≡ []
unfolding clear_followup
clear_followup-started current name s h = by_entry (lookup name s.followup_timers)
  where
    by_current : (id : ℕ) (b : Bool) → (if b then s.started else cancel id s.started) ≡ []
    by_current id true = h
    by_current id false = rw (h)

    by_entry : (o : Option ℕ) → cancel_popped current o s.started ≡ []
    by_entry none = h
    by_entry (some id) = by_current id (is_current current id)

IsClosing-scheduled :
    (name : Text) (c : Bool) (u : Threads)
    → IsClosing u
    → IsClosing (within (schedule_followup name c) u)
unfolding schedule_followup
IsClosing-scheduled name c u h =
    by_entry (is_some (lookup name u.service.followup_timers)) u.service.stopping h.flag
  where
    by_entry :
        (b f : Bool)
        → f ≡ true
        → IsClosing (
            within
              (λ s. if b || f then s else record s {
                followup_timers = insert name s.next_id s.followup_timers;
                started =
                    record { id = s.next_id; connector_name = name; failure_confirmed = c }
                    ∷ s.started;
                next_id = suc s.next_id;
              })
              u)
    by_entry true f e = record { flag = h.flag; nothing_left = h.nothing_left }
    by_entry false true e = record { flag = h.flag; nothing_left = h.nothing_left }
    by_entry false false e = cc

IsClosing-popped :
    (current : Option ℕ) (name : Text) (u : Threads)
    → IsClosing u
    → IsClosing (pop_followup current name u)
unfolding clear_followup
IsClosing-popped current name u h = record {
  flag = ap (λ (s : Service). s.stopping) (settle-pop_followup current name u) ∙ same;
  nothing_left =
      ap (λ (s : Service). s.started) (settle-pop_followup current name u)
      ∙ clear_followup-started current name (settle u) h.nothing_left;
}
  where
    same : (clear_followup current name (settle u)).stopping ≡ true
    same = h.flag

IsClosing-cancelled :
    (id : ℕ) (u : Threads) → is_in u.doomed id ≡ true → IsClosing u → IsClosing (cancel_one id u)
IsClosing-cancelled id u due h = record {
  flag = ap (λ (s : Service). s.stopping) (settle-cancel_one id u due) ∙ h.flag;
  nothing_left = ap (λ (s : Service). s.started) (settle-cancel_one id u due) ∙ h.nothing_left;
}

IsClosing-fired : (t : Timer) (u : Threads) → IsClosing u → IsClosing (within (fire t) u)
IsClosing-fired t u h = record {
  flag = ap (λ (s : Service). s.stopping) (settle-fire t u) ∙ h.flag;
  nothing_left =
      ap (λ (s : Service). s.started) (settle-fire t u) ∙ ap (cancel t.id) h.nothing_left;
}

IsClosing-drained :
    (u : Threads)
    → u.service.stopping ≡ true
    → (cancel_timers (settle u)).started ≡ []
    → IsClosing (take_timers u)
unfolding cancel_timers
IsClosing-drained u f h = record {
  flag = ap (λ (s : Service). s.stopping) (settle-take_timers u) ∙ f;
  nothing_left = ap (λ (s : Service). s.started) (settle-take_timers u) ∙ h;
}

each_doomed :
    (ids : List ℕ) (ts : List Timer)
    → keep_if (λ t. not (is_in ids t.id)) ts ≡ []
    → All (λ t. is_in ids t.id ≡ true) ts
each_doomed ids [] h = tt
each_doomed ids (t ∷ ts) h = by_test (is_in ids t.id) refl h (each_doomed ids ts)
  where
    rest : List Timer
    rest = keep_if (λ t. not (is_in ids t.id)) ts

    by_test :
        (b : Bool)
        → is_in ids t.id ≡ b
        → (if not b then t ∷ rest else rest) ≡ []
        → (rest ≡ [] → All (λ t. is_in ids t.id ≡ true) ts)
        → All (λ t. is_in ids t.id ≡ true) (t ∷ ts)
    by_test true e k later = (e, later k)
    by_test false e k later = cc

none_doomed :
    (ids : List ℕ) (ts : List Timer)
    → ids ≡ []
    → keep_if (λ t. not (is_in ids t.id)) ts ≡ []
    → ts ≡ []
none_doomed ids [] e h = refl
none_doomed [] (t ∷ ts) e h = cc
none_doomed (i ∷ ids) (t ∷ ts) e h = cc

module _ (config : GrafanaWebhookConfig) where
  IsClosing-put :
      (e : Option GrafanaAlertEvent) (u : Threads)
      → IsClosing u
      → IsClosing (within (λ s. (put_nowait config e s).1) u)
  unfolding put_nowait
  IsClosing-put e u h = by_full (is_full config u.service.queue)
    where
      by_full : (b : Bool) → IsClosing (within (λ s. (put_unless b e s).1) u)
      by_full true = record { flag = h.flag; nothing_left = h.nothing_left }
      by_full false = record { flag = h.flag; nothing_left = h.nothing_left }

  Step-IsClosing : {u v : Threads} → Step config u v → IsClosing u → IsClosing v
  unfolding claim_event release_event take set_stopping cancel_timers
  Step-IsClosing (claimed now event u) h = record { flag = h.flag; nothing_left = h.nothing_left }
  Step-IsClosing (put entry u) h = IsClosing-put entry u h
  Step-IsClosing (released event u) h = record { flag = h.flag; nothing_left = h.nothing_left }
  Step-IsClosing (taken u) h = record { flag = h.flag; nothing_left = h.nothing_left }
  Step-IsClosing (scheduled name c u) h = IsClosing-scheduled name c u h
  Step-IsClosing (fired t u) h = IsClosing-fired t u h
  Step-IsClosing (popped current name u idle) h = IsClosing-popped current name u h
  Step-IsClosing (cancelled id u due) h = IsClosing-cancelled id u due h
  Step-IsClosing (stopped u) h = record { flag = refl; nothing_left = h.nothing_left }
  Step-IsClosing (drained u) h = IsClosing-drained u h.flag (rw (h.nothing_left))

  Steps-IsClosing : {u v : Threads} → Steps config u v → IsClosing u → IsClosing v
  Steps-IsClosing here h = h
  Steps-IsClosing (then_step before step) h = Step-IsClosing step (Steps-IsClosing before h)

  -- From the critical section of `close` in a state that the threads reach and in which the flag is set, the
  -- only timers that may fire are those that a thread is about to cancel, however the threads go on; none is
  -- left when these cancellations are done.
  pub close-IsQuiet :
      (u v : Threads)
      → Steps config (alone new_service) u
      → u.service.stopping ≡ true
      → Steps config (take_timers u) v
      → All (λ t. is_in v.doomed t.id ≡ true) v.service.started
        × (v.doomed ≡ [] → v.service.started ≡ [])
  unfolding cancel_timers
  close-IsQuiet u v before flag after =
      let tidy = Steps-Tidy config before in
      let closing = Steps-IsClosing after (
        IsClosing-drained u flag
          (cancel_timers-started u.service.followup_timers (settle u).started tidy.known)) in
      (
        each_doomed v.doomed v.service.started closing.nothing_left,
        λ done. none_doomed v.doomed v.service.started done closing.nothing_left,
      )
