-- ===== src/Webhook/Sound.antt =====
-- What every step of the threads of webhook/grafana.py keeps of the timers.
use self_healing_kafka_syste.Base.{
  ℕ, suc, Bool, true, false, ◌||◌, not, Option, none, some, List, ◌∷◌, ◌≡◌, refl, sym, subst, ◌==◌,
  if◌then◌else◌, is_some, arith,
}
use self_healing_kafka_syste.Base.Text.{Text}
use self_healing_kafka_syste.Base.Dict.{lookup, insert, text_key}
use self_healing_kafka_syste.Webhook.Config.{GrafanaWebhookConfig}
use self_healing_kafka_syste.Webhook.Alerts.{GrafanaAlertEvent}
use self_healing_kafka_syste.Webhook.Followups.{
  Service, Timer, new_service, release_event, schedule_followup, is_current, set_stopping,
  cancel_timers,
}
use self_healing_kafka_syste.Webhook.Service.{is_full, put_unless, put_nowait, claim_event}
use self_healing_kafka_syste.Webhook.Steps.{
  Threads, alone, settle, within, doom, pop_followup, cancel_one, ids_of, take_timers, take, fire,
  Step, claimed, put, released, taken, scheduled, fired, popped, cancelled, stopped, drained, Steps,
  here, then_step,
}
use self_healing_kafka_syste.Webhook.Settled.{
  settle-IsIdle, settle-pop_followup, settle-cancel_one, settle-take_timers,
  settle-schedule_followup, settle-fire,
}
use self_healing_kafka_syste.Webhook.Registered.{cancel_timers-started}
use self_healing_kafka_syste.Webhook.Timers.{
  Tidy, Tidy-keep_if, Tidy-schedule_followup, Tidy-clear_followup, keep_if-All,
}
use self_healing_kafka_syste.Webhook.Numbers.{
  AreBelow, AreBelow-fresh, AreBelow-append, lookup-AreBelow, remove-AreBelow, insert-AreBelow,
  AreBelow-suc,
}

-- With the due cancellations carried out the timers are tidy, and no number is given twice.
record Sound (u : Threads) : Type 0 where
  tidy : Tidy (settle u)
  doomed : AreBelow u.service.next_id u.doomed
  registered : AreBelow u.service.next_id (ids_of u.service.followup_timers)

Sound-scheduled :
    (name : Text) (c : Bool) (u : Threads) → Sound u → Sound (within (schedule_followup name c) u)
unfolding schedule_followup
Sound-scheduled name c u h = record {
  tidy =
      subst Tidy
        (sym
          (settle-schedule_followup name c u (AreBelow-fresh u.service.next_id u.doomed h.doomed)))
        (Tidy-schedule_followup name c (settle u) h.tidy);
  doomed = (numbers name c u.service u.doomed h.doomed h.registered).0;
  registered = (numbers name c u.service u.doomed h.doomed h.registered).1;
}
  where
    Numbered : Service → List ℕ → Type 0
    Numbered s ids = AreBelow s.next_id ids × AreBelow s.next_id (ids_of s.followup_timers)

    numbers :
        (name : Text) (c : Bool) (s : Service) (ids : List ℕ)
        → AreBelow s.next_id ids
        → AreBelow s.next_id (ids_of s.followup_timers)
        → Numbered (schedule_followup name c s) ids
    numbers name c s ids k r = by_test (is_some (lookup name s.followup_timers) || s.stopping)
      where
        by_test :
            (b : Bool)
            → Numbered
                (if b then s else record s {
                  followup_timers = insert name s.next_id s.followup_timers;
                  started =
                      record { id = s.next_id; connector_name = name; failure_confirmed = c }
                      ∷ s.started;
                  next_id = suc s.next_id;
                })
                ids
        by_test true = (k, r)
        by_test false = (
          AreBelow-suc s.next_id ids k,
          insert-AreBelow (suc s.next_id) name s.next_id s.followup_timers (omega arith)
              (AreBelow-suc s.next_id (ids_of s.followup_timers) r),
        )

Sound-popped :
    (current : Option ℕ) (name : Text) (u : Threads)
    → Tidy (settle (pop_followup current name u))
    → Sound u
    → Sound (pop_followup current name u)
unfolding pop_followup
Sound-popped current name u tidy h = record {
  tidy = tidy;
  doomed = by_entry (lookup name u.service.followup_timers) refl;
  registered = remove-AreBelow u.service.next_id name u.service.followup_timers h.registered;
}
  where
    by_entry :
        (o : Option ℕ)
        → lookup name u.service.followup_timers ≡ o
        → AreBelow u.service.next_id (doom current o u.doomed)
    by_entry none e = h.doomed
    by_entry (some id) e = by_current (is_current current id)
      where
        by_current : (b : Bool) → AreBelow u.service.next_id (if b then u.doomed else id ∷ u.doomed)
        by_current true = h.doomed
        by_current false = (
          lookup-AreBelow u.service.next_id name id u.service.followup_timers h.registered e,
          h.doomed,
        )

Tidy-cancel_timers : (s : Service) → Tidy s → Tidy (cancel_timers s)
unfolding cancel_timers
Tidy-cancel_timers s h =
    rw (cancel_timers-started s.followup_timers s.started h.known)
      (record { known = tt; fresh = tt; once = λ id. omega arith })

Sound-drained : (u : Threads) → Tidy (settle (take_timers u)) → Sound u → Sound (take_timers u)
unfolding take_timers
Sound-drained u tidy h = record {
  tidy = tidy;
  doomed = AreBelow-append u.service.next_id _ u.doomed h.registered h.doomed;
  registered = tt;
}

Sound-cancelled :
    (id : ℕ) (u : Threads) → Tidy (settle (cancel_one id u)) → Sound u → Sound (cancel_one id u)
unfolding cancel_one
Sound-cancelled id u tidy h = record {
  tidy = tidy;
  doomed = keep_if-All (λ i. not (i == id)) (λ i k e. k) u.doomed h.doomed;
  registered = h.registered;
}

Sound-fired :
    (t : Timer) (u : Threads)
    → Tidy (settle (within (fire t) u))
    → Sound u
    → Sound (within (fire t) u)
unfolding fire
Sound-fired t u tidy h = record { tidy = tidy; doomed = h.doomed; registered = h.registered }

module _ (config : GrafanaWebhookConfig) where
  Sound-put :
      (e : Option GrafanaAlertEvent) (u : Threads)
      → Sound u
      → Sound (within (λ s. (put_nowait config e s).1) u)
  unfolding put_nowait
  Sound-put e u h = by_full (is_full config u.service.queue)
    where
      by_full : (b : Bool) → Sound (within (λ s. (put_unless b e s).1) u)
      by_full true = h
      by_full false = record {
        tidy = record { known = h.tidy.known; fresh = h.tidy.fresh; once = h.tidy.once };
        doomed = h.doomed;
        registered = h.registered;
      }

  Step-Sound : {u v : Threads} → Step config u v → Sound u → Sound v
  unfolding claim_event release_event take set_stopping
  Step-Sound (claimed now event u) h = record {
    tidy = record { known = h.tidy.known; fresh = h.tidy.fresh; once = h.tidy.once };
    doomed = h.doomed;
    registered = h.registered;
  }
  Step-Sound (put entry u) h = Sound-put entry u h
  Step-Sound (released event u) h = record {
    tidy = record { known = h.tidy.known; fresh = h.tidy.fresh; once = h.tidy.once };
    doomed = h.doomed;
    registered = h.registered;
  }
  Step-Sound (taken u) h = record {
    tidy = record { known = h.tidy.known; fresh = h.tidy.fresh; once = h.tidy.once };
    doomed = h.doomed;
    registered = h.registered;
  }
  Step-Sound (scheduled name c u) h = Sound-scheduled name c u h
  Step-Sound (fired t u) h =
      Sound-fired t u (subst Tidy (sym (settle-fire t u)) (Tidy-keep_if (settle u) _ h.tidy)) h
  Step-Sound (popped current name u idle) h =
      Sound-popped current name u
        (subst Tidy (sym (settle-pop_followup current name u))
          (Tidy-clear_followup current name (settle u) (settle-IsIdle current u idle) h.tidy))
        h
  Step-Sound (cancelled id u due) h =
      Sound-cancelled id u (subst Tidy (sym (settle-cancel_one id u due)) h.tidy) h
  Step-Sound (stopped u) h = record {
    tidy = record { known = h.tidy.known; fresh = h.tidy.fresh; once = h.tidy.once };
    doomed = h.doomed;
    registered = h.registered;
  }
  Step-Sound (drained u) h =
      Sound-drained u
        (subst Tidy (sym (settle-take_timers u)) (Tidy-cancel_timers (settle u) h.tidy)) h

  Sound-new : Sound (alone new_service)
  unfolding new_service
  Sound-new = record {
    tidy = record { known = tt; fresh = tt; once = λ id. omega arith };
    doomed = tt;
    registered = tt;
  }

  Steps-Sound : {u : Threads} → Steps config (alone new_service) u → Sound u
  Steps-Sound here = Sound-new
  Steps-Sound (then_step before step) = Step-Sound step (Steps-Sound before)

  -- In a state that the threads reach, the timers are tidy but for those that are to be cancelled.
  pub Steps-Tidy : {u : Threads} → Steps config (alone new_service) u → Tidy (settle u)
  Steps-Tidy steps = (Steps-Sound steps).tidy
