-- ===== src/Webhook/Reach.antt =====
-- The timers of the receiver of webhook/grafana.py in every state that its threads reach.
use self_healing_kafka_syste.Base.{
  ℕ, ◌≤◌, Bool, true, false, ◌&&◌, not, some, List, [], ◌∷◌, ◌≡◌, refl, ◌⊎◌, inl, inr,
  if◌then◌else◌, keep_if, count_if, Option-cases, All, arith,
}
use self_healing_kafka_syste.Base.Text.{Text, text_eq}
use self_healing_kafka_syste.Base.Dict.{lookup, text_key}
use self_healing_kafka_syste.Webhook.Config.{GrafanaWebhookConfig}
use self_healing_kafka_syste.Webhook.Followups.{Timer, new_service}
use self_healing_kafka_syste.Webhook.Steps.{is_in, Threads, alone, settle, Steps}
use self_healing_kafka_syste.Webhook.Registered.{count-named, count-absent}
use self_healing_kafka_syste.Webhook.Timers.{IsKnown}
use self_healing_kafka_syste.Webhook.Sound.{Steps-Tidy}

count_if-keep_if_both :
    {A : Type 0} (p q : A → Bool) (xs : List A)
    → count_if p (keep_if q xs) ≡ count_if (λ a. p a && q a) xs
count_if-keep_if_both p q [] = refl
count_if-keep_if_both p q (x ∷ xs) = ground (arith, count_if-keep_if_both p q xs)

-- A property of the timers that are not to be cancelled.
each_but_doomed :
    (P : Timer → Type 0) (ids : List ℕ) (ts : List Timer)
    → All P (keep_if (λ t. not (is_in ids t.id)) ts)
    → All (λ t. (is_in ids t.id ≡ true) ⊎ P t) ts
each_but_doomed P ids [] h = tt
each_but_doomed P ids (t ∷ ts) h = by_test (is_in ids t.id) refl h (each_but_doomed P ids ts)
  where
    by_test :
        (b : Bool)
        → is_in ids t.id ≡ b
        → All P (
            if not b
            then t ∷ keep_if (λ t. not (is_in ids t.id)) ts
            else keep_if (λ t. not (is_in ids t.id)) ts)
        → (All P (keep_if (λ t. not (is_in ids t.id)) ts)
            → All (λ t. (is_in ids t.id ≡ true) ⊎ P t) ts)
        → All (λ t. (is_in ids t.id ≡ true) ⊎ P t) (t ∷ ts)
    by_test true e k rest = (inl e, rest k)
    by_test false e k rest = (inr k.0, rest k.1)

module _ (config : GrafanaWebhookConfig) where
  -- However the threads interleave, every timer that may fire is the one registered for its connector, or a
  -- thread has taken it out and is about to cancel it; of the former there is at most one for a connector.
  pub one_followup :
      (u : Threads) (name : Text)
      → Steps config (alone new_service) u
      → All
          (λ t.
            (is_in u.doomed t.id ≡ true)
            ⊎ (lookup t.connector_name u.service.followup_timers ≡ some t.id))
          u.service.started
        × (count_if
              (λ t. text_eq name t.connector_name && not (is_in u.doomed t.id))
              u.service.started
            ≤ 1)
  one_followup u name steps =
      let h = Steps-Tidy config steps in
      (
        each_but_doomed (IsKnown u.service.followup_timers) u.doomed u.service.started h.known,
        (elim (Option-cases (lookup name u.service.followup_timers)) [
          | inl e ↦ omega (
            arith,
            count_if-keep_if_both (λ t. text_eq name t.connector_name)
                (λ t. not (is_in u.doomed t.id)) u.service.started,
            count-absent name u.service.followup_timers (settle u).started e h.known,
          )
          | inr (i, e) ↦ omega (
            arith,
            count_if-keep_if_both (λ t. text_eq name t.connector_name)
                (λ t. not (is_in u.doomed t.id)) u.service.started,
            count-named name i u.service.followup_timers (settle u).started e h.known,
            h.once i,
          )
        ]),
      )
