-- ===== src/Webhook/Timers.antt =====
-- The follow-up timers and the queue of the receiver, over all interleavings of its threads.
use self_healing_kafka_syste.Base.{
  ℕ, suc, ◌≤◌, ◌<◌, subst, Bool, true, false, ◌||◌, not, Option, none, some, List, [], ◌∷◌, ◌≡◌,
  ◌≢◌, refl, sym, ◌∙◌, ◌==◌, if◌then◌else◌, keep_if, count_if, any, All, is_some, Bool-cases, inl,
  inr, arith,
}
use self_healing_kafka_syste.Base.Text.{Text, text_eq, text_eq_iff, text_eq_refl}
use self_healing_kafka_syste.Base.Dict.{
  lookup, insert, remove, text_key, lookup-insert, lookup-remove,
}
use self_healing_kafka_syste.Webhook.Followups.{
  Service, Timer, schedule_followup, is_current, cancel_popped, clear_followup,
}
use self_healing_kafka_syste.Webhook.Steps.{IsIdle}

module _ {A : Type 0} where
  pub keep_if-All :
      {P Q : A → Type 0} (p : A → Bool)
      → ((a : A) → P a → p a ≡ true → Q a)
      → (xs : List A) → All P xs
      → All Q (keep_if p xs)
  keep_if-All p h [] k = tt
  keep_if-All {P} {Q} p h (x ∷ xs) k = by_test (keep_if-All p h xs k.1) (p x) refl
    where
      by_test : All Q (keep_if p xs) → (b : Bool) → p x ≡ b → All Q (keep_if p (x ∷ xs))
      by_test ih true e = rw (e) (h x k.0 e, ih)
      by_test ih false e = rw (e) ih

  pub map-All : {P Q : A → Type 0} → ((a : A) → P a → Q a) → (xs : List A) → All P xs → All Q xs
  map-All h [] k = tt
  map-All h (x ∷ xs) k = (h x k.0, map-All h xs k.1)

  count_if-keep_if : (q p : A → Bool) (xs : List A) → count_if q (keep_if p xs) ≤ count_if q xs
  count_if-keep_if q p [] = omega arith
  count_if-keep_if q p (x ∷ xs) = ground (arith, count_if-keep_if q p xs)

  any-All : (p : A → Bool) (xs : List A) → any p xs ≡ false → All (λ a. p a ≡ false) xs
  any-All p [] e = tt
  any-All p (x ∷ xs) e = (ground (arith, e), any-All p xs (ground (arith, e)))

  zip-All : (P Q : A → Type 0) (xs : List A) → All P xs → All Q xs → All (λ a. P a × Q a) xs
  zip-All P Q [] h k = tt
  zip-All P Q (x ∷ xs) h k = ((h.0, k.0), zip-All P Q xs h.1 k.1)

-- The connector of the timer has that timer.
abbrev pub IsKnown : List (Text × ℕ) → Timer → Type 0
IsKnown m t = lookup t.connector_name m ≡ some t.id

abbrev pub has_number : ℕ → Timer → Bool
has_number id t = t.id == id

-- Each timer that may fire is the one registered for its connector, and no two share a number.
pub record Tidy (s : Service) : Type 0 where
  pub known : All (IsKnown s.followup_timers) s.started
  pub fresh : All (λ t. t.id < s.next_id) s.started
  pub once : (id : ℕ) → count_if (has_number id) s.started ≤ 1

pub some_inj : {a b : ℕ} → some a ≡ some b → a ≡ b
some_inj e = cc

pub registered_for :
    (name : Text) (m : List (Text × ℕ)) (t : Timer)
    → IsKnown m t
    → text_eq name t.connector_name ≡ true
    → lookup name m ≡ some t.id
registered_for name m t h e =
    subst (λ (n : Text). lookup n m ≡ some t.id) (sym ((text_eq_iff name t.connector_name).0 e)) h

-- Another connector's timer stays registered.
IsKnown-remove :
    (name : Text) (m : List (Text × ℕ)) (t : Timer)
    → IsKnown m t
    → lookup name m ≢ some t.id
    → IsKnown (remove name m) t
IsKnown-remove name m t h other = by_name (text_eq name t.connector_name) refl
  where
    by_name : (b : Bool) → text_eq name t.connector_name ≡ b → IsKnown (remove name m) t
    by_name true e = elim (other (registered_for name m t h e)) [ ]
    by_name false e = lookup-remove name t.connector_name m ∙ rw (e) h

IsKnown-insert :
    (name : Text) (id : ℕ) (m : List (Text × ℕ)) (t : Timer)
    → IsKnown m t
    → lookup name m ≡ none
    → IsKnown (insert name id m) t
IsKnown-insert name id m t h absent = by_name (text_eq name t.connector_name) refl
  where
    clash : some t.id ≡ none → ⊥
    clash e = cc

    by_name : (b : Bool) → text_eq name t.connector_name ≡ b → IsKnown (insert name id m) t
    by_name true e = elim (clash (sym (registered_for name m t h e) ∙ absent)) [ ]
    by_name false e = lookup-insert name t.connector_name id m ∙ rw (e) h

count-fresh : (n : ℕ) (ts : List Timer) → All (λ t. t.id < n) ts → count_if (has_number n) ts ≡ 0
count-fresh n [] h = refl
count-fresh n (t ∷ ts) h = ground (arith, h.0, count-fresh n ts h.1)

pub Tidy-keep_if :
    (s : Service) (p : Timer → Bool) → Tidy s → Tidy (record s { started = keep_if p s.started })
Tidy-keep_if s p h = record {
  known = keep_if-All p (λ t k e. k) s.started h.known;
  fresh = keep_if-All p (λ t k e. k) s.started h.fresh;
  once = λ id. omega (arith, count_if-keep_if (has_number id) p s.started, h.once id);
}

pub Tidy-schedule_followup :
    (name : Text) (failure_confirmed : Bool) (s : Service)
    → Tidy s
    → Tidy (schedule_followup name failure_confirmed s)
unfolding schedule_followup
Tidy-schedule_followup name failure_confirmed s h =
    by_entry (lookup name s.followup_timers) refl s.stopping
  where
    by_entry :
        (o : Option ℕ)
        → lookup name s.followup_timers ≡ o
        → (b : Bool)
        → Tidy (
            if is_some o || b then s else record s {
              followup_timers = insert name s.next_id s.followup_timers;
              started =
                  record {
                    id = s.next_id;
                    connector_name = name;
                    failure_confirmed = failure_confirmed;
                  }
                  ∷ s.started;
              next_id = suc s.next_id;
            })
    by_entry (some id) e b = h
    by_entry none e true = h
    by_entry none e false = record {
      known = (
        lookup-insert name name s.next_id s.followup_timers ∙ rw (text_eq_refl name),
        map-All (λ t k. IsKnown-insert name s.next_id s.followup_timers t k e) s.started h.known,
      );
      fresh = (omega arith, map-All (λ t k. omega (arith, k)) s.started h.fresh);
      once = λ id. ground (arith, h.once id, count-fresh s.next_id s.started h.fresh);
    }

pub Tidy-clear_followup :
    (current : Option ℕ) (name : Text) (s : Service)
    → IsIdle current s.started
    → Tidy s
    → Tidy (clear_followup current name s)
unfolding clear_followup
Tidy-clear_followup current name s idle h = by_entry (lookup name s.followup_timers) refl
  where
    Cleared : Option ℕ → Type 0
    Cleared o = Tidy (record s {
      followup_timers = remove name s.followup_timers;
      started = cancel_popped current o s.started;
    })

    absent :
        (t : Timer)
        → lookup name s.followup_timers ≡ none
        → lookup name s.followup_timers ≢ some t.id
    absent t e k = clash (sym k ∙ e)
      where
        clash : some t.id ≡ none → ⊥
        clash e = cc

    other :
        (id : ℕ) (t : Timer)
        → lookup name s.followup_timers ≡ some id
        → (t.id == id) ≡ false
        → lookup name s.followup_timers ≢ some t.id
    other id t e d k = ground (arith, some_inj (sym k ∙ e), d)

    by_current :
        (id : ℕ) (c : Option ℕ)
        → IsIdle c s.started
        → lookup name s.followup_timers ≡ some id
        → is_current c id ≡ true
        → Tidy (record s { followup_timers = remove name s.followup_timers })
    by_current id none idle e r = cc
    by_current id (some c) idle e r = record {
      known =
          map-All
            (λ t k.
              IsKnown-remove name s.followup_timers t k.0 (other id t e (ground (arith, k.1, r))))
            s.started
            (zip-All (IsKnown s.followup_timers) (λ t. has_number c t ≡ false) s.started h.known
              (any-All (has_number c) s.started idle));
      fresh = h.fresh;
      once = h.once;
    }

    by_entry : (o : Option ℕ) → lookup name s.followup_timers ≡ o → Cleared o
    by_entry none e = record {
      known =
          map-All (λ t k. IsKnown-remove name s.followup_timers t k (absent t e)) s.started h.known;
      fresh = h.fresh;
      once = h.once;
    }
    by_entry (some id) e = elim (Bool-cases (is_current current id)) [
      | inl r ↦ rw (r) (by_current id current idle e r)
      | inr r ↦ rw (r) (record {
        known =
            keep_if-All (λ t. not (t.id == id))
              (λ t k d.
                IsKnown-remove name s.followup_timers t k (other id t e (ground (arith, d))))
              s.started h.known;
        fresh = (Tidy-keep_if s (λ t. not (t.id == id)) h).fresh;
        once = (Tidy-keep_if s (λ t. not (t.id == id)) h).once;
      })
    ]
