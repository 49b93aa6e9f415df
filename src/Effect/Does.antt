-- ===== src/Effect/Does.antt =====
-- What an action may do to the world: `Does P m` says that every HTTP request of `m` satisfies `P`,
-- that `m` appends to the trace and to the logs and never rewrites them, and that it leaves the
-- locks alone. One rule for each way to build an action.
use self_healing_kafka_syste.Base.{
  ◌≡◌, refl, ◌∙◌, ap, Bool, true, false, List, [], ◌∷◌, ◌++◌, if◌then◌else◌, All, All-append,
}
use mathlib.Core.List.{append_assoc}
use self_healing_kafka_syste.Effect.Exn.{Exn, Result, ok, raised}
use self_healing_kafka_syste.Effect.World.{
  World, Env, Request, Exchange, LogRow, Reply, response, failed, Outcome, done, lost, uncertain,
}
use self_healing_kafka_syste.Effect.Monad.{
  M, pure, raise, lift, gets, continue, ◌>>=◌, handle, catch, attempt, modify, tick, utc_now,
  monotonic, send, execute, query,
}

abbrev pub Asks : (Request → Type 0) → Exchange → Type 0
Asks P x = P x.request

pub record Extends (P : Request → Type 0) (w w' : World) : Type 0 where
  pub locks : w'.locks ≡ w.locks
  pub trace : (new : List Exchange) × (w'.trace ≡ new ++ w.trace) × All (Asks P) new
  pub logs : (new : List LogRow) × (w'.logs ≡ new ++ w.logs)

pub record Does (P : Request → Type 0) {A : Type 0} (m : M A) : Type 0 where
  pub at : (w : World) → Extends P w (m w).1

module _ {P : Request → Type 0} where
  pub Extends-refl : (w : World) → Extends P w w
  Extends-refl w = record { locks = refl; trace = ([], refl, tt); logs = ([], refl) }

  pub Extends-trans : {u v w : World} → Extends P u v → Extends P v w → Extends P u w
  Extends-trans {u} {v} {w} h k =
      let (new, e, all) = h.trace in
      let (new', e', all') = k.trace in
      let (rows, l) = h.logs in
      let (rows', l') = k.logs in
      record {
        locks = k.locks ∙ h.locks;
        trace = (
          new' ++ new,
          (e' ∙ ap (λ t. new' ++ t) e) ∙ sym_assoc new' new u.trace,
          All-append (Asks P) new' new all' all,
        );
        logs = (rows' ++ rows, (l' ∙ ap (λ t. rows' ++ t) l) ∙ sym_assoc rows' rows u.logs);
      }
    where
      sym_assoc : {A : Type 0} (xs ys zs : List A) → (xs ++ (ys ++ zs)) ≡ (xs ++ ys) ++ zs
      sym_assoc xs ys zs = rw append_assoc

  -- A change of nothing but the counter of questions.
  pub Extends-tick : (env : Env) (w : World) → Extends P w (tick env w)
  Extends-tick env w = record { locks = refl; trace = ([], refl, tt); logs = ([], refl) }

module _ {P : Request → Type 0} {A : Type 0} where
  pub Does-pure : (a : A) → Does P (pure a)
  unfolding pure
  Does-pure a = record { at = Extends-refl }

  pub Does-raise : (x : Exn) → Does P (raise {A = A} x)
  unfolding raise
  Does-raise x = record { at = Extends-refl }

  pub Does-lift : (r : Result A) → Does P (lift r)
  unfolding lift
  Does-lift r = record { at = Extends-refl }

  pub Does-gets : (f : World → A) → Does P (gets f)
  unfolding gets
  Does-gets f = record { at = Extends-refl }

  pub Does-if : (b : Bool) {m n : M A} → Does P m → Does P n → Does P (if b then m else n)
  Does-if true h k = h
  Does-if false h k = k

  pub Does-query : (env : Env) (f : World → A) → Does P (query env f)
  unfolding query
  Does-query env f = record { at = λ w. at_outcome w (env.database w.steps) refl }
    where
      at_outcome :
          (w : World) (o : Outcome) → env.database w.steps ≡ o → Extends P w (query env f w).1
      at_outcome w done e = rw (e, query) (Extends-tick env w)
      at_outcome w (lost x) e = rw (e, query) (Extends-tick env w)
      at_outcome w (uncertain x) e = rw (e, query) (Extends-tick env w)

module _ {P : Request → Type 0} {A B : Type 0} where
  pub after_result :
      (r : Result A) {f : A → M B} {w w' : World}
      → Extends P w w'
      → ((a : A) → Does P (f a))
      → Extends P w (continue r f w').1
  after_result (ok a) {w' = w'} h k = Extends-trans h ((k a).at w')
  after_result (raised x) h k = h

  pub Does-bind : {m : M A} {f : A → M B} → Does P m → ((a : A) → Does P (f a)) → Does P (m >>= f)
  unfolding ◌>>=◌
  Does-bind {m = m} h k = record { at = λ w. after_result (m w).0 (h.at w) k }

module _ {P : Request → Type 0} {A : Type 0} where
  after_raise :
      (r : Result A) {h : Exn → M A} {w w' : World}
      → Extends P w w'
      → ((x : Exn) → Does P (h x))
      → Extends P w (handle r h w').1
  after_raise (ok a) e k = e
  after_raise (raised x) {w' = w'} e k = Extends-trans e ((k x).at w')

  pub Does-catch :
      {m : M A} {h : Exn → M A} → Does P m → ((x : Exn) → Does P (h x)) → Does P (catch m h)
  unfolding catch
  Does-catch {m = m} e k = record { at = λ w. after_raise (m w).0 (e.at w) k }

  pub Does-attempt : {m : M A} → Does P m → Does P (attempt m)
  unfolding attempt
  Does-attempt h = record { at = h.at }

module _ {P : Request → Type 0} (env : Env) where
  pub Does-utc_now : Does P (utc_now env)
  unfolding utc_now
  Does-utc_now = record { at = Extends-tick env }

  pub Does-monotonic : Does P (monotonic env)
  unfolding monotonic
  Does-monotonic = record { at = Extends-tick env }

  pub Does-send : (r : Request) → P r → Does P (send env r)
  unfolding send
  Does-send r p = record { at = λ w. at_reply w (env.http w.steps r) refl }
    where
      at_reply : (w : World) (a : Reply) → env.http w.steps r ≡ a → Extends P w (send env r w).1
      at_reply w (response q) e =
          rw (e, send) (record { locks = refl; trace = (_ ∷ [], refl, (p, tt)); logs = ([], refl) })
      at_reply w (failed x) e =
          rw (e, send) (record { locks = refl; trace = (_ ∷ [], refl, (p, tt)); logs = ([], refl) })

  pub Does-execute :
      (f : World → World) → ((w : World) → Extends P w (f w)) → Does P (execute env f)
  unfolding execute
  Does-execute f k = record { at = λ w. at_outcome w (env.database w.steps) refl }
    where
      at_outcome :
          (w : World) (o : Outcome) → env.database w.steps ≡ o → Extends P w (execute env f w).1
      at_outcome w done e = rw (e, execute) (Extends-trans (Extends-tick env w) (k (tick env w)))
      at_outcome w (lost x) e = rw (e, execute) (Extends-tick env w)
      at_outcome w (uncertain x) e =
          rw (e, execute) (Extends-trans (Extends-tick env w) (k (tick env w)))

pub Does-modify :
    {P : Request → Type 0} (f : World → World)
    → ((w : World) → Extends P w (f w))
    → Does P (modify f)
unfolding modify
Does-modify f k = record { at = k }

pub Does-weaken :
    {P Q : Request → Type 0} {A : Type 0} {m : M A}
    → ((r : Request) → P r → Q r)
    → Does P m
    → Does Q m
Does-weaken {P} {Q} {m = m} k h = record {
  at = λ w.
      let e = h.at w in
      let (new, same, all) = e.trace in
      record { locks = e.locks; trace = (new, same, weaken new all); logs = e.logs };
}
  where
    weaken : (new : List Exchange) → All (Asks P) new → All (Asks Q) new
    weaken [] all = tt
    weaken (x ∷ xs) all = (k x.request all.0, weaken xs all.1)

pub ruleset does_rules = (
  Does-pure, Does-raise, Does-lift, Does-gets, Does-if, Does-bind, Does-catch, Does-attempt,
  Does-utc_now,
)

-- The rules for a value that is known: `m` ends with `b`, or with an exception.
module _ {P : Request → Type 0} {A B C : Type 0} where
  after_pure :
      (r : Result A) (b : B) (f : B → M C) {w w' : World}
      → Extends P w w'
      → Does P (f b)
      → Extends P w (continue (continue r (λ _. pure b) w').0 f (continue r (λ _. pure b) w').1).1
  unfolding pure
  after_pure (ok a) b f {w' = w'} h k = Extends-trans h (k.at w')
  after_pure (raised x) b f h k = h

  pub Does-bind-pure :
      {m : M A} (b : B) (f : B → M C) → Does P m → Does P (f b) → Does P ((m >>= λ _. pure b) >>= f)
  unfolding ◌>>=◌
  Does-bind-pure {m = m} b f h k = record { at = λ w. after_pure (m w).0 b f (h.at w) k }

module _ {P : Request → Type 0} {A B : Type 0} where
  pub Does-pure-bind : (a : A) (f : A → M B) → Does P (f a) → Does P (pure a >>= f)
  unfolding ◌>>=◌ pure
  Does-pure-bind a f k = record { at = λ w. k.at w }

  pub Does-raise-bind : (x : Exn) (f : A → M B) → Does P (raise x >>= f)
  unfolding ◌>>=◌ raise
  Does-raise-bind x f = record { at = λ w. Extends-refl w }
