-- ===== src/Webhook/Scheduled.antt =====
-- What the scheduling of follow-ups in webhook/grafana.py does to the timers and to the queue.
use self_healing_kafka_syste.Base.{
  ℕ, suc, Bool, true, false, ◌||◌, Option, none, some, List, [], ◌∷◌, ◌≡◌, refl, sym, ◌∙◌, ap,
  if◌then◌else◌, is_some, All, ◌⊎◌, inl, inr,
}
use self_healing_kafka_syste.Base.Text.{Text, text_eq, text_eq_refl, text_eq_iff}
use self_healing_kafka_syste.Base.Dict.{lookup, insert, text_key, lookup-insert}
use self_healing_kafka_syste.Effect.Exn.{Result, ok, raised}
use self_healing_kafka_syste.Webhook.Followups.{
  Service, Timer, schedule_followup, schedule_recovery_followup,
}
use self_healing_kafka_syste.Webhook.Worker.{followed_up, schedule_each}

abbrev pub Among : Timer → List Timer → Type 0
Among t [] = ⊥
Among t (u ∷ us) = (t ≡ u) ⊎ Among t us

-- The connector has the timer that it had before, or a timer is started for it that carries the flag.
pub data HasTimer (failure_confirmed : Bool) (before after : Service) (name : Text) : Type 0 where
  had :
      (id : ℕ)
      → lookup name before.followup_timers ≡ some id
      → lookup name after.followup_timers ≡ some id
      → HasTimer failure_confirmed before after name
  begun :
      (t : Timer)
      → t.connector_name ≡ name
      → t.failure_confirmed ≡ failure_confirmed
      → lookup name after.followup_timers ≡ some t.id
      → Among t after.started
      → HasTimer failure_confirmed before after name

-- The queue and the flag stay, each connector keeps its timer, and a timer is added by being started.
pub record Schedules (c : Bool) (s u : Service) : Type 0 where
  pub queue : u.queue ≡ s.queue
  pub stopping : u.stopping ≡ s.stopping
  pub timers :
      (name : Text) (id : ℕ)
      → lookup name s.followup_timers ≡ some id
      → lookup name u.followup_timers ≡ some id
  pub started : (t : Timer) → Among t s.started → Among t u.started
  pub origin :
      (name : Text) (id : ℕ) → lookup name u.followup_timers ≡ some id → HasTimer c s u name

Schedules-refl : (c : Bool) (s : Service) → Schedules c s s
Schedules-refl c s = record {
  queue = refl;
  stopping = refl;
  timers = λ name id h. h;
  started = λ t h. h;
  origin = λ name id h. had id h h;
}

later-HasTimer :
    (c : Bool) (name : Text) (s u v : Service)
    → HasTimer c s u name
    → Schedules c u v
    → HasTimer c s v name
later-HasTimer c name s u v (had id e f) k = had id e (k.timers name id f)
later-HasTimer c name s u v (begun t n d f m) k = begun t n d (k.timers name t.id f) (k.started t m)

Schedules-trans : (c : Bool) (s u v : Service) → Schedules c s u → Schedules c u v → Schedules c s v
Schedules-trans c s u v first later = record {
  queue = later.queue ∙ first.queue;
  stopping = later.stopping ∙ first.stopping;
  timers = λ name id h. later.timers name id (first.timers name id h);
  started = λ t h. later.started t (first.started t h);
  origin = λ name id h. from_there name (later.origin name id h);
}
  where
    from_there : (name : Text) → HasTimer c u v name → HasTimer c s v name
    from_there name (had id e f) = later-HasTimer c name s u v (first.origin name id e) later
    from_there name (begun t n d f m) = begun t n d f m

-- Scheduling leaves a timer for the connector, unless the service stops.
record Registers (name : Text) (c : Bool) (s u : Service) : Type 0 where
  kept : Schedules c s u
  there : s.stopping ≡ false → is_some (lookup name u.followup_timers) ≡ true

schedule_followup-Registers :
    (name : Text) (c : Bool) (s : Service) → Registers name c s (schedule_followup name c s)
unfolding schedule_followup
schedule_followup-Registers name c s = by_test (lookup name s.followup_timers) refl s.stopping refl
  where
    m : List (Text × ℕ)
    m = s.followup_timers

    timer : Timer
    timer = record { id = s.next_id; connector_name = name; failure_confirmed = c }

    begins : Service
    begins = record s {
      followup_timers = insert name s.next_id m;
      started = timer ∷ s.started;
      next_id = suc s.next_id;
    }

    same : (j : Text) → text_eq name j ≡ true → name ≡ j
    same j e = (text_eq_iff name j).0 e

    keeps :
        lookup name m ≡ none
        → (j : Text) (id : ℕ) (b : Bool) → text_eq name j ≡ b
        → lookup j m ≡ some id
        → lookup j (insert name s.next_id m) ≡ some id
    keeps absent j id true e h =
        elim (clash (sym absent ∙ (ap (λ n. lookup n m) (same j e) ∙ h))) [ ]
      where
        clash : none ≡ some id → ⊥
        clash e = cc
    keeps absent j id false e h = lookup-insert name j s.next_id m ∙ rw (e) h

    comes :
        (j : Text) (id : ℕ) (b : Bool)
        → text_eq name j ≡ b
        → lookup j (insert name s.next_id m) ≡ some id
        → HasTimer c s begins j
    comes j id true e h =
        begun timer (same j e) refl (lookup-insert name j s.next_id m ∙ rw (e)) (inl refl)
    comes j id false e h = had id (old (sym (lookup-insert name j s.next_id m) ∙ h)) h
      where
        old :
            (if text_eq name j then some s.next_id else lookup j m) ≡ some id → lookup j m ≡ some id
        old k = rw (e) at k

    by_test :
        (o : Option ℕ)
        → lookup name m ≡ o
        → (f : Bool) → s.stopping ≡ f
        → Registers name c s (if is_some o || f then s else begins)
    by_test (some id) e f k = record { kept = Schedules-refl c s; there = λ h. rw (e) }
    by_test none e true k = record { kept = Schedules-refl c s; there = λ h. clash (sym h ∙ k) }
      where
        clash : false ≡ true → is_some (lookup name m) ≡ true
        clash h = cc
    by_test none e false k = record {
      kept = record {
        queue = refl;
        stopping = refl;
        timers = λ j id h. keeps e j id (text_eq name j) refl h;
        started = λ t h. inr h;
        origin = λ j id h. comes j id (text_eq name j) refl h;
      };
      there = λ h. rw (lookup-insert name name s.next_id m, text_eq_refl name);
    }

pub followed_up-Schedules :
    (c : Bool) (r : Result (Option Text)) (s : Service) → Schedules c s (followed_up c r s)
followed_up-Schedules c (raised x) s = Schedules-refl c s
followed_up-Schedules c (ok none) s = Schedules-refl c s
followed_up-Schedules c (ok (some [])) s = Schedules-refl c s
followed_up-Schedules c (ok (some (x ∷ name))) s = (schedule_followup-Registers (x ∷ name) c s).kept

pub schedule_each-Schedules :
    (names : List Text) (s : Service) → Schedules false s (schedule_each names s)
unfolding schedule_each schedule_recovery_followup
schedule_each-Schedules [] s = Schedules-refl false s
schedule_each-Schedules (name ∷ names) s =
    Schedules-trans false s (schedule_followup name false s) _
      (schedule_followup-Registers name false s).kept
      (schedule_each-Schedules names (schedule_followup name false s))

still_some :
    (o p : Option ℕ) → ((id : ℕ) → o ≡ some id → p ≡ some id) → is_some o ≡ true → is_some p ≡ true
still_some none p h e = cc
still_some (some id) p h e = ap is_some (h id refl)

abbrev pub IsRegistered : Service → Text → Type 0
IsRegistered s name = is_some (lookup name s.followup_timers) ≡ true

pub schedule_each-IsRegistered :
    (names : List Text) (s : Service)
    → s.stopping ≡ false
    → All (IsRegistered (schedule_each names s)) names
unfolding schedule_each schedule_recovery_followup
schedule_each-IsRegistered [] s h = tt
schedule_each-IsRegistered (name ∷ names) s h =
    let first = schedule_followup-Registers name false s in
    let u = schedule_followup name false s in
    (
      still_some _ _ ((schedule_each-Schedules names u).timers name) (first.there h),
      schedule_each-IsRegistered names u (first.kept.stopping ∙ h),
    )

pub each-HasTimer :
    (c : Bool) (s u : Service)
    → Schedules c s u
    → (names : List Text) → All (IsRegistered u) names
    → All (HasTimer c s u) names
each-HasTimer c s u k [] h = tt
each-HasTimer c s u k (name ∷ names) h =
    (by_entry (lookup name u.followup_timers) refl h.0, each-HasTimer c s u k names h.1)
  where
    by_entry :
        (o : Option ℕ) → lookup name u.followup_timers ≡ o → is_some o ≡ true → HasTimer c s u name
    by_entry none e r = cc
    by_entry (some id) e r = k.origin name id e
