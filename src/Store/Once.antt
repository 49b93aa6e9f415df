-- ===== src/Store/Once.antt =====
-- The confirmations that `spInsertConnectorHealingLog` lets into the logs.
use self_healing_kafka_syste.Base.{
  ℕ, ◌≤◌, subst, Bool, true, false, ◌&&◌, List, [], ◌∷◌, ◌≡◌, refl, ◌==◌, any, Bool-cases, inl, inr,
  arith,
}
use self_healing_kafka_syste.Domain.{QueueId}
use self_healing_kafka_syste.Effect.World.{World, LogRow}
use self_healing_kafka_syste.Store.Logs.{is_confirmation, count_events, insert_log}

abbrev pub ConfirmedOnce : List LogRow → Type 0
ConfirmedOnce logs = (id : QueueId) → count_events is_confirmation id logs ≤ 1

abbrev confirms : QueueId → LogRow → Bool
confirms id m = m.queue_id == id && is_confirmation m.event_type

count_none :
    (id : QueueId) (logs : List LogRow)
    → any (confirms id) logs ≡ false
    → count_events is_confirmation id logs ≡ 0
unfolding count_events
count_none id [] h = refl
count_none id (l ∷ ls) h = elim (Bool-cases (confirms id l)) [
  | inl e ↦ elim (apart e h) [ ]
  | inr e ↦ rw (e) (count_none id ls (other e h))
]
  where
    apart : confirms id l ≡ true → any (confirms id) (l ∷ ls) ≡ false → ⊥
    apart e h = cc

    other :
        confirms id l ≡ false → any (confirms id) (l ∷ ls) ≡ false → any (confirms id) ls ≡ false
    other e h = cc

same_id : (a b : ℕ) → (a == b) ≡ true → a ≡ b
same_id a b h = ground arith

-- The insertion of a log keeps every row at one confirmation at most, whatever the log is.
pub insert_log-ConfirmedOnce :
    (l : LogRow) (w : World) → ConfirmedOnce w.logs → ConfirmedOnce (insert_log l w).logs
unfolding insert_log count_events
insert_log-ConfirmedOnce l w h id =
    by_test (is_confirmation l.event_type && any (confirms l.queue_id) w.logs) refl
  where
    by_match :
        (is_confirmation l.event_type && any (confirms l.queue_id) w.logs) ≡ false
        → confirms id l ≡ true
        → count_events is_confirmation id w.logs ≡ 0
    by_match t e =
        let same : l.queue_id ≡ id = same_id l.queue_id id (ground (arith, e)) in
        let none : any (confirms l.queue_id) w.logs ≡ false = ground (arith, t, e) in
        count_none id w.logs (subst (λ (i : QueueId). any (confirms i) w.logs ≡ false) same none)

    added :
        (is_confirmation l.event_type && any (confirms l.queue_id) w.logs) ≡ false
        → count_events is_confirmation id (l ∷ w.logs) ≤ 1
    added t = elim (Bool-cases (confirms id l)) [
      | inl e ↦ rw (e, by_match t e) (omega arith)
      | inr e ↦ rw (e) (h id)
    ]

    by_test :
        (b : Bool)
        → (is_confirmation l.event_type && any (confirms l.queue_id) w.logs) ≡ b
        → count_events is_confirmation id (insert_log l w).logs ≤ 1
    by_test true e = rw (e) (h id)
    by_test false e = rw (e) (added e)
