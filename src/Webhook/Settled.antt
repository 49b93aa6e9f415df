-- ===== src/Webhook/Settled.antt =====
-- What the steps of the receiver's threads do to the service with the due cancellations carried out.
use self_healing_kafka_syste.Base.{
  ℕ, suc, Bool, true, false, ◌&&◌, ◌||◌, not, Option, none, some, List, [], ◌∷◌, ◌++◌, ◌≡◌, refl,
  sym, ◌∙◌, ap, ◌==◌, if◌then◌else◌, keep_if, is_some, Bool-cases, inl, inr, arith,
}
use self_healing_kafka_syste.Base.Text.{Text}
use self_healing_kafka_syste.Base.Dict.{lookup, insert, remove, text_key}
use self_healing_kafka_syste.Webhook.Followups.{
  Service, Timer, schedule_followup, is_current, cancel_popped, clear_followup, cancel, has_id,
  cancel_timers,
}
use self_healing_kafka_syste.Webhook.Steps.{
  is_started, is_in, Threads, alone, settle, within, doom, pop_followup, cancel_one, ids_of,
  take_timers, fire, IsIdle,
}

module _ {A : Type 0} where
  keep_if-both :
      (p q r : A → Bool)
      → ((a : A) → r a ≡ (p a && q a))
      → (xs : List A) → keep_if p (keep_if q xs) ≡ keep_if r xs
  keep_if-both p q r h [] = refl
  keep_if-both p q r h (x ∷ xs) = by_test (q x) refl (p x) refl (keep_if-both p q r h xs)
    where
      by_test :
          (b : Bool)
          → q x ≡ b
          → (c : Bool) → p x ≡ c
          → keep_if p (keep_if q xs) ≡ keep_if r xs
          → keep_if p (keep_if q (x ∷ xs)) ≡ keep_if r (x ∷ xs)
      by_test true e true f ih = rw (h x, e, f) (ap (λ ys. x ∷ ys) ih)
      by_test true e false f ih = rw (h x, e, f) ih
      by_test false e true f ih = rw (h x, e) (rw (f) ih)
      by_test false e false f ih = rw (h x, e) (rw (f) ih)

  pub keep_if-swap :
      (p q : A → Bool) (xs : List A) → keep_if p (keep_if q xs) ≡ keep_if q (keep_if p xs)
  keep_if-swap p q xs =
      keep_if-both p q (λ a. p a && q a) (λ a. refl) xs
      ∙ sym (keep_if-both q p (λ a. p a && q a) (λ a. swap (p a) (q a)) xs)
    where
      swap : (b c : Bool) → (b && c) ≡ (c && b)
      swap true true = refl
      swap true false = refl
      swap false true = refl
      swap false false = refl

any-keep_if-false :
    (id : ℕ) (p : Timer → Bool) (ts : List Timer)
    → is_started id ts ≡ false
    → is_started id (keep_if p ts) ≡ false
any-keep_if-false id p [] h = refl
any-keep_if-false id p (t ∷ ts) h = ground (arith, any-keep_if-false id p ts (ground (arith, h)))

pub settle-IsIdle :
    (current : Option ℕ) (u : Threads)
    → IsIdle current u.service.started
    → IsIdle current (settle u).started
settle-IsIdle none u h = tt
settle-IsIdle (some id) u h = any-keep_if-false id _ u.service.started h

-- A timer that is taken out counts as cancelled.
pub settle-pop_followup :
    (current : Option ℕ) (name : Text) (u : Threads)
    → settle (pop_followup current name u) ≡ clear_followup current name (settle u)
unfolding pop_followup clear_followup
settle-pop_followup current name u = by_entry (lookup name u.service.followup_timers)
  where
    flip :
        (id : ℕ) (t : Timer)
        → not (is_in (id ∷ u.doomed) t.id) ≡ (not (t.id == id) && not (is_in u.doomed t.id))
    flip id t = ground arith

    started_after : (o : Option ℕ) → List Timer
    started_after o = keep_if (λ t. not (is_in (doom current o u.doomed) t.id)) u.service.started

    by_entry :
        (o : Option ℕ)
        → (record u.service {
          followup_timers = remove name u.service.followup_timers;
          started = keep_if (λ t. not (is_in (doom current o u.doomed) t.id)) u.service.started;
        })
          ≡ (record u.service {
            followup_timers = remove name u.service.followup_timers;
            started = cancel_popped current o (settle u).started;
          })
    by_entry none = refl
    by_entry (some id) = elim (Bool-cases (is_current current id)) [
      | inl e ↦ rw (e)
      | inr e ↦ rw (e) (
          ap
            (λ ts. record u.service {
              followup_timers = remove name u.service.followup_timers;
              started = ts;
            })
            (sym (
              keep_if-both (λ t. not (t.id == id)) (λ t. not (is_in u.doomed t.id))
                (λ t. not (is_in (id ∷ u.doomed) t.id)) (flip id) u.service.started)))
    ]

is_in-keep_if :
    (id i : ℕ) (ds : List ℕ)
    → (is_in (keep_if (λ j. not (j == id)) ds) i && not (i == id)) ≡ (is_in ds i && not (i == id))
is_in-keep_if id i [] = refl
is_in-keep_if id i (d ∷ ds) = ground (arith, is_in-keep_if id i ds)

-- A cancellation that is due changes nothing else.
pub settle-cancel_one :
    (id : ℕ) (u : Threads) → is_in u.doomed id ≡ true → settle (cancel_one id u) ≡ settle u
unfolding cancel_one
settle-cancel_one id u h =
    ap (λ ts. record u.service { started = ts })
      (keep_if-both (λ t. not (is_in (keep_if (λ i. not (i == id)) u.doomed) t.id))
        (λ t. not (t.id == id)) (λ t. not (is_in u.doomed t.id)) (λ t. by_id t (t.id == id) refl)
        u.service.started)
  where
    there : (i : ℕ) → (i == id) ≡ true → is_in u.doomed i ≡ true
    there i e = let same : i ≡ id = ground (arith, e) in rw (same) h

    by_id :
        (t : Timer) (b : Bool)
        → (t.id == id) ≡ b
        → not (is_in u.doomed t.id)
          ≡ (not (is_in (keep_if (λ i. not (i == id)) u.doomed) t.id) && not (t.id == id))
    by_id t true e = ground (arith, there t.id e, e)
    by_id t false e = ground (arith, is_in-keep_if id t.id u.doomed, e)

is_in-ids_of :
    (m : List (Text × ℕ)) (ds : List ℕ) (i : ℕ)
    → is_in (ids_of m ++ ds) i ≡ (has_id i m || is_in ds i)
is_in-ids_of [] ds i = refl
is_in-ids_of ((name, j) ∷ m) ds i = ground (arith, is_in-ids_of m ds i)

pub settle-take_timers : (u : Threads) → settle (take_timers u) ≡ cancel_timers (settle u)
unfolding take_timers cancel_timers
settle-take_timers u =
    ap (λ ts. record u.service { followup_timers = []; started = ts })
      (sym (
        keep_if-both (λ t. not (has_id t.id u.service.followup_timers))
          (λ t. not (is_in u.doomed t.id))
          (λ t. not (is_in (ids_of u.service.followup_timers ++ u.doomed) t.id))
          (λ t. rw (is_in-ids_of u.service.followup_timers u.doomed t.id) (de_morgan _ _))
          u.service.started))
  where
    de_morgan : (a b : Bool) → not (a || b) ≡ (not a && not b)
    de_morgan true b = refl
    de_morgan false b = refl

-- A timer with a new number is not among those to be cancelled.
pub settle-schedule_followup :
    (name : Text) (c : Bool) (u : Threads)
    → is_in u.doomed u.service.next_id ≡ false
    → settle (within (schedule_followup name c) u) ≡ schedule_followup name c (settle u)
unfolding schedule_followup
settle-schedule_followup name c u fresh =
    by_test (is_some (lookup name u.service.followup_timers) || u.service.stopping)
  where
    added : List Timer → Service
    added ts = record u.service {
      followup_timers = insert name u.service.next_id u.service.followup_timers;
      started =
          record { id = u.service.next_id; connector_name = name; failure_confirmed = c } ∷ ts;
      next_id = suc u.service.next_id;
    }

    by_test :
        (b : Bool)
        → settle (record {
          service = if b then u.service else added u.service.started;
          doomed = u.doomed;
        })
          ≡ (if b then settle u else added (settle u).started)
    by_test true = refl
    by_test false = rw (fresh)

pub settle-fire :
    (t : Timer) (u : Threads)
    → settle (within (fire t) u) ≡ record (settle u) { started = cancel t.id (settle u).started }
unfolding fire
settle-fire t u = ap (λ ts. record u.service { started = ts }) (keep_if-swap _ _ u.service.started)

keep_all : {A : Type 0} (xs : List A) → keep_if (λ a. true) xs ≡ xs
keep_all [] = refl
keep_all (x ∷ xs) = ap (λ ys. x ∷ ys) (keep_all xs)

pub settle-alone : (s : Service) → settle (alone s) ≡ s
settle-alone s = ap (λ ts. record s { started = ts }) (keep_all s.started)

-- A `_clear_followup` that no other thread comes between is `clear_followup`.
pub clear_followup-alone :
    (current : Option ℕ) (name : Text) (s : Service)
    → settle (pop_followup current name (alone s)) ≡ clear_followup current name s
clear_followup-alone current name s =
    settle-pop_followup current name (alone s) ∙ ap (clear_followup current name) (settle-alone s)

-- The timers that `close` takes out and cancels are those of `cancel_timers`, when no other thread comes
-- between.
pub cancel_timers-alone : (s : Service) → settle (take_timers (alone s)) ≡ cancel_timers s
cancel_timers-alone s = settle-take_timers (alone s) ∙ ap cancel_timers (settle-alone s)
