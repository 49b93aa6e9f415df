-- ===== src/Webhook/Registered.antt =====
-- What the registered timers of the receiver say of those that may still fire.
use self_healing_kafka_syste.Base.{
  ℕ, ◌≤◌, Bool, true, false, ◌||◌, not, none, some, List, [], ◌∷◌, ◌≡◌, refl, sym, ◌∙◌, ◌==◌,
  keep_if, count_if, All, arith,
}
use self_healing_kafka_syste.Base.Text.{Text, text_eq}
use self_healing_kafka_syste.Base.Dict.{lookup, text_key}
use self_healing_kafka_syste.Webhook.Followups.{Timer, has_id}
use self_healing_kafka_syste.Webhook.Timers.{IsKnown, has_number, some_inj, registered_for}

lookup-has_id :
    (name : Text) (id : ℕ) (m : List (Text × ℕ)) → lookup name m ≡ some id → has_id id m ≡ true
unfolding lookup
lookup-has_id name id [] e = cc
lookup-has_id name id ((n, i) ∷ m) e = by_name (lookup-has_id name id m) (text_eq n name) refl
  where
    same : some i ≡ some id → i ≡ id
    same e = cc

    by_name :
        (lookup name m ≡ some id → has_id id m ≡ true)
        → (b : Bool) → text_eq n name ≡ b
        → (i == id || has_id id m) ≡ true
    by_name ih true k = ground (arith, same (rw (k) at e))
    by_name ih false k = ground (arith, ih (rw (k) at e))

-- No timer is left.
pub cancel_timers-started :
    (m : List (Text × ℕ)) (ts : List Timer)
    → All (IsKnown m) ts
    → keep_if (λ t. not (has_id t.id m)) ts ≡ []
cancel_timers-started m [] h = refl
cancel_timers-started m (t ∷ ts) h =
    rw (lookup-has_id t.connector_name t.id m h.0) (cancel_timers-started m ts h.1)

pub count-named :
    (name : Text) (i : ℕ) (m : List (Text × ℕ)) (ts : List Timer)
    → lookup name m ≡ some i
    → All (IsKnown m) ts
    → count_if (λ t. text_eq name t.connector_name) ts ≤ count_if (has_number i) ts
count-named name i m [] e h = omega arith
count-named name i m (t ∷ ts) e h =
    by_name (count-named name i m ts e h.1) (text_eq name t.connector_name) refl
  where
    by_name :
        count_if (λ t. text_eq name t.connector_name) ts ≤ count_if (has_number i) ts
        → (b : Bool) → text_eq name t.connector_name ≡ b
        → count_if (λ t. text_eq name t.connector_name) (t ∷ ts) ≤ count_if (has_number i) (t ∷ ts)
    by_name ih true k =
        rw (k) (ground (arith, ih, some_inj (sym e ∙ registered_for name m t h.0 k)))
    by_name ih false k = rw (k) (ground (arith, ih))

pub count-absent :
    (name : Text) (m : List (Text × ℕ)) (ts : List Timer)
    → lookup name m ≡ none
    → All (IsKnown m) ts
    → count_if (λ t. text_eq name t.connector_name) ts ≡ 0
count-absent name m [] e h = refl
count-absent name m (t ∷ ts) e h =
    by_name (count-absent name m ts e h.1) (text_eq name t.connector_name) refl
  where
    clash : some t.id ≡ none → ⊥
    clash e = cc

    by_name :
        count_if (λ t. text_eq name t.connector_name) ts ≡ 0
        → (b : Bool) → text_eq name t.connector_name ≡ b
        → count_if (λ t. text_eq name t.connector_name) (t ∷ ts) ≡ 0
    by_name ih true k = elim (clash (sym (registered_for name m t h.0 k) ∙ e)) [ ]
    by_name ih false k = rw (k) ih
