-- ===== src/Webhook/Numbers.antt =====
-- The numbers of the timers of webhook/grafana.py: those in use are below the next one.
use self_healing_kafka_syste.Base.{
  ℕ, suc, ◌<◌, Bool, true, false, some, List, [], ◌∷◌, ◌++◌, ◌≡◌, refl, inl, inr, Bool-cases, All,
  arith,
}
use self_healing_kafka_syste.Base.Text.{Text, text_eq}
use self_healing_kafka_syste.Base.Dict.{lookup, insert, remove, text_key}
use self_healing_kafka_syste.Webhook.Steps.{is_in, ids_of}
use self_healing_kafka_syste.Webhook.Timers.{map-All}

-- Every number in use is below the next one.
abbrev pub AreBelow : ℕ → List ℕ → Type 0
AreBelow n ids = All (λ i. i < n) ids

pub AreBelow-fresh : (n : ℕ) (ids : List ℕ) → AreBelow n ids → is_in ids n ≡ false
AreBelow-fresh n [] h = refl
AreBelow-fresh n (i ∷ is) h = ground (arith, h.0, AreBelow-fresh n is h.1)

pub AreBelow-append :
    (n : ℕ) (is js : List ℕ) → AreBelow n is → AreBelow n js → AreBelow n (is ++ js)
AreBelow-append n [] js h k = k
AreBelow-append n (i ∷ is) js h k = (h.0, AreBelow-append n is js h.1 k)

pub lookup-AreBelow :
    (n : ℕ) (name : Text) (id : ℕ) (m : List (Text × ℕ))
    → AreBelow n (ids_of m)
    → lookup name m ≡ some id
    → id < n
unfolding lookup
lookup-AreBelow n name id [] h e = cc
lookup-AreBelow n name id ((j, i) ∷ m) h e =
    by_name (lookup-AreBelow n name id m h.1) (text_eq j name) refl
  where
    same : some i ≡ some id → i ≡ id
    same e = cc

    by_name : (lookup name m ≡ some id → id < n) → (b : Bool) → text_eq j name ≡ b → id < n
    by_name ih true k = omega (arith, h.0, same (rw (k) at e))
    by_name ih false k = ih (rw (k) at e)

pub remove-AreBelow :
    (n : ℕ) (name : Text) (m : List (Text × ℕ))
    → AreBelow n (ids_of m)
    → AreBelow n (ids_of (remove name m))
unfolding remove
remove-AreBelow n name [] h = tt
remove-AreBelow n name ((j, i) ∷ m) h = elim (Bool-cases (text_eq j name)) [
  | inl e ↦ rw (e) (remove-AreBelow n name m h.1)
  | inr e ↦ rw (e) (h.0, remove-AreBelow n name m h.1)
]

pub insert-AreBelow :
    (n : ℕ) (name : Text) (id : ℕ) (m : List (Text × ℕ))
    → id < n
    → AreBelow n (ids_of m)
    → AreBelow n (ids_of (insert name id m))
unfolding insert
insert-AreBelow n name id [] k h = (k, tt)
insert-AreBelow n name id ((j, i) ∷ m) k h = elim (Bool-cases (text_eq j name)) [
  | inl e ↦ rw (e) (k, h.1)
  | inr e ↦ rw (e) (h.0, insert-AreBelow n name id m k h.1)
]

pub AreBelow-suc : (n : ℕ) (ids : List ℕ) → AreBelow n ids → AreBelow (suc n) ids
AreBelow-suc n ids h = map-All (λ i k. omega (arith, k)) ids h
