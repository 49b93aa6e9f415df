-- ===== src/Effect/Keeps.antt =====
-- Actions that leave one part of the world alone, and predicates that an exception does not break.
use self_healing_kafka_syste.Base.{Bool, true, false, ◌≡◌, refl, ◌∙◌, if◌then◌else◌}
use self_healing_kafka_syste.Effect.Exn.{Exn, Result, ok, raised}
use self_healing_kafka_syste.Effect.World.{World, Env, Outcome, done, lost, uncertain}
use self_healing_kafka_syste.Effect.Monad.{
  M, pure, raise, gets, continue, ◌>>=◌, modify, tick, utc_now, execute,
}

pub record Keeps {X : Type 0} (part : World → X) {A : Type 0} (m : M A) : Type 0 where
  pub at : (w : World) → part (m w).1 ≡ part w

module _ {X : Type 0} {part : World → X} {A : Type 0} where
  pub Keeps-pure : (a : A) → Keeps part (pure a)
  unfolding pure
  Keeps-pure a = record { at = λ w. refl }

  pub Keeps-raise : (x : Exn) → Keeps part (raise {A = A} x)
  unfolding raise
  Keeps-raise x = record { at = λ w. refl }

  pub Keeps-gets : (f : World → A) → Keeps part (gets f)
  unfolding gets
  Keeps-gets f = record { at = λ w. refl }

  pub Keeps-if :
      (b : Bool) {m n : M A} → Keeps part m → Keeps part n → Keeps part (if b then m else n)
  Keeps-if true h k = h
  Keeps-if false h k = k

module _ {X : Type 0} {part : World → X} {A B : Type 0} where
  after_result :
      (r : Result A) (f : A → M B) (w : World)
      → ((a : A) → Keeps part (f a))
      → part (continue r f w).1 ≡ part w
  after_result (ok a) f w k = (k a).at w
  after_result (raised x) f w k = refl

  pub Keeps-bind :
      {m : M A} {f : A → M B} → Keeps part m → ((a : A) → Keeps part (f a)) → Keeps part (m >>= f)
  unfolding ◌>>=◌
  Keeps-bind {m = m} {f = f} h k = record { at = λ w. after_result (m w).0 f (m w).1 k ∙ h.at w }

module _ {X : Type 0} {part : World → X} (env : Env)
    (ticks : (w : World) → part (tick env w) ≡ part w) where
  pub Keeps-utc_now : Keeps part (utc_now env)
  unfolding utc_now
  Keeps-utc_now = record { at = ticks }

  pub Keeps-execute :
      (f : World → World) → ((w : World) → part (f w) ≡ part w) → Keeps part (execute env f)
  unfolding execute
  Keeps-execute f k = record { at = λ w. at_outcome w (env.database w.steps) refl }
    where
      at_outcome :
          (w : World) (o : Outcome) → env.database w.steps ≡ o → part (execute env f w).1 ≡ part w
      at_outcome w done e = rw (e, execute) (k (tick env w) ∙ ticks w)
      at_outcome w (lost x) e = rw (e, execute) (ticks w)
      at_outcome w (uncertain x) e = rw (e, execute) (k (tick env w) ∙ ticks w)

-- `Q` still holds when `m` starts in it and ends with an exception.
pub record Survives (Q : World → Type 0) {A : Type 0} (m : M A) : Type 0 where
  pub at : (w : World) → Q w → (x : Exn) → (m w).0 ≡ raised x → Q (m w).1

module _ {Q : World → Type 0} {A B : Type 0} where
  survives_after :
      (r : Result A) (f : A → M B) (w : World)
      → Q w
      → ((a : A) → Survives Q (f a))
      → (x : Exn) → (continue r f w).0 ≡ raised x
      → Q (continue r f w).1
  survives_after (ok a) f w q k x e = (k a).at w q x e
  survives_after (raised y) f w q k x e = q

  -- The first part keeps `Q` whichever way it ends.
  pub Survives-bind :
      (m : M A) {f : A → M B}
      → ((w : World) → Q w → Q (m w).1)
      → ((a : A) → Survives Q (f a))
      → Survives Q (m >>= f)
  unfolding ◌>>=◌
  Survives-bind m {f = f} h k = record {
    at = λ w q x e. survives_after (m w).0 f (m w).1 (h w q) k x e;
  }

pub Survives-modify : {Q : World → Type 0} (f : World → World) → Survives Q (modify f)
unfolding modify
Survives-modify f = record { at = λ w q x e. cc }
