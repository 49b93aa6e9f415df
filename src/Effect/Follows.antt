-- ===== src/Effect/Follows.antt =====
-- The order of the requests of an action: a prefix of a fixed sequence.
use self_healing_kafka_syste.Base.{
  ℕ, zero, suc, ◌++◌, Bool, true, false, List, [], ◌∷◌, ◌≡◌, refl, ◌∙◌, ap, map, if◌then◌else◌,
}
use self_healing_kafka_syste.Effect.Exn.{Exn, Result, ok, raised}
use self_healing_kafka_syste.Effect.World.{World, Env, Request, Exchange, Reply, response, failed}
use self_healing_kafka_syste.Effect.Monad.{lift, M, continue, ◌>>=◌, handle, catch, attempt, send}
use self_healing_kafka_syste.Effect.Does.{Does, Asks}
use self_healing_kafka_syste.Base.{All}

-- The requests made so far, the newest first.
abbrev pub requests : World → List Request
requests w = map (λ (x : Exchange). x.request) w.trace

-- The first `n` requests of a sequence, made in this order.
abbrev pub sent : ℕ → List Request → List Request → List Request
sent zero rs done = done
sent (suc n) [] done = done
sent (suc n) (r ∷ rs) done = sent n rs (r ∷ done)

pub record Sends (r : Request) {A : Type 0} (m : M A) : Type 0 where
  pub at : (w : World) → requests (m w).1 ≡ r ∷ requests w

pub record Follows (rs : List Request) {A : Type 0} (m : M A) : Type 0 where
  pub at : (w : World) → (n : ℕ) × (requests (m w).1 ≡ sent n rs (requests w))

module _ {A : Type 0} {m : M A} where
  quiet : Does (λ r. ⊥) m → (w : World) → requests (m w).1 ≡ requests w
  quiet h w = by_new (h.at w).trace
    where
      by_new :
          (new : List Exchange) × ((m w).1.trace ≡ new ++ w.trace) × All (Asks (λ r. ⊥)) new
          → requests (m w).1 ≡ requests w
      by_new ([], e, all) = ap (map (λ (x : Exchange). x.request)) e
      by_new (x ∷ xs, e, all) = elim all.0 [ ]

  pub Follows-quiet : (rs : List Request) → Does (λ r. ⊥) m → Follows rs m
  Follows-quiet rs h = record { at = λ w. (0, quiet h w) }

pub Follows-if :
    {A : Type 0} {rs : List Request} (b : Bool) {m n : M A}
    → Follows rs m
    → Follows rs n
    → Follows rs (if b then m else n)
Follows-if true h k = h
Follows-if false h k = k

module _ {A : Type 0} where
  handled :
      (x : Result A) (h : Exn → M A) (w : World)
      → ((e : Exn) → Does (λ r. ⊥) (h e))
      → requests (handle x h w).1 ≡ requests w
  handled (ok a) h w k = refl
  handled (raised e) h w k = quiet (k e) w

module _ {A : Type 0} {r : Request} where
  pub Sends-attempt : {m : M A} → Sends r m → Sends r (attempt m)
  unfolding attempt
  Sends-attempt h = record { at = h.at }

  pub Sends-catch :
      {m : M A} {h : Exn → M A}
      → Sends r m
      → ((x : Exn) → Does (λ r. ⊥) (h x))
      → Sends r (catch m h)
  unfolding catch
  Sends-catch {m = m} {h = h} s k = record { at = λ w. handled (m w).0 h (m w).1 k ∙ s.at w }

module _ {A B : Type 0} where
  quiet_after :
      (x : Result A) (f : A → M B) (w : World)
      → ((a : A) → Does (λ r. ⊥) (f a))
      → requests (continue x f w).1 ≡ requests w
  quiet_after (ok a) f w k = quiet (k a) w
  quiet_after (raised e) f w k = refl

  pub Sends-bind :
      {r : Request} {m : M A} {f : A → M B}
      → Sends r m
      → ((a : A) → Does (λ r. ⊥) (f a))
      → Sends r (m >>= f)
  unfolding ◌>>=◌
  Sends-bind {m = m} {f = f} s k = record { at = λ w. quiet_after (m w).0 f (m w).1 k ∙ s.at w }

  after_send :
      (x : Result A) (f : A → M B) (w v : World) (r : Request) (rs : List Request)
      → requests v ≡ r ∷ requests w
      → ((a : A) → Follows rs (f a))
      → (n : ℕ) × (requests (continue x f v).1 ≡ sent n (r ∷ rs) (requests w))
  after_send (ok a) f w v r rs e k = let (n, same) = (k a).at v in (suc n, same ∙ ap (sent n rs) e)
  after_send (raised x) f w v r rs e k = (1, e)

  -- One request, and then a prefix of the rest.
  pub Follows-send :
      {r : Request} {rs : List Request} {m : M A} {f : A → M B}
      → Sends r m
      → ((a : A) → Follows rs (f a))
      → Follows (r ∷ rs) (m >>= f)
  unfolding ◌>>=◌
  Follows-send {r = r} {rs = rs} {m = m} {f = f} s k = record {
    at = λ w. after_send (m w).0 f w (m w).1 r rs (s.at w) k;
  }

  after_quiet :
      (x : Result A) (f : A → M B) (w v : World) (rs : List Request)
      → requests v ≡ requests w
      → ((a : A) → Follows rs (f a))
      → (n : ℕ) × (requests (continue x f v).1 ≡ sent n rs (requests w))
  after_quiet (ok a) f w v rs e k = let (n, same) = (k a).at v in (n, same ∙ ap (sent n rs) e)
  after_quiet (raised x) f w v rs e k = (0, e)

  -- A value that is known.
  pub Follows-ok :
      {rs : List Request} (a : A) (f : A → M B) → Follows rs (f a) → Follows rs (lift (ok a) >>= f)
  unfolding ◌>>=◌ lift
  Follows-ok a f k = record { at = k.at }

  -- A prefix, and then no request.
  pub Follows-then :
      {rs : List Request} {m : M A} {f : A → M B}
      → Follows rs m
      → ((a : A) → Does (λ r. ⊥) (f a))
      → Follows rs (m >>= f)
  unfolding ◌>>=◌
  Follows-then {m = m} {f = f} h k = record {
    at = λ w. let (n, same) = h.at w in (n, quiet_after (m w).0 f (m w).1 k ∙ same);
  }

  pub Follows-bind :
      {rs : List Request} {m : M A} {f : A → M B}
      → Does (λ r. ⊥) m
      → ((a : A) → Follows rs (f a))
      → Follows rs (m >>= f)
  unfolding ◌>>=◌
  Follows-bind {rs = rs} {m = m} {f = f} s k = record {
    at = λ w. after_quiet (m w).0 f w (m w).1 rs (quiet s w) k;
  }

pub Sends-send : (env : Env) (r : Request) → Sends r (send env r)
unfolding send
Sends-send env r = record { at = λ w. by_reply w (env.http w.steps r) refl }
  where
    by_reply :
        (w : World) (a : Reply)
        → env.http w.steps r ≡ a
        → requests (send env r w).1 ≡ r ∷ requests w
    by_reply w (response q) e = rw (e, send)
    by_reply w (failed x) e = rw (e, send)

pub Follows-one :
    {A : Type 0} {m : M A} {r : Request} (rs : List Request) → Sends r m → Follows (r ∷ rs) m
Follows-one rs s = record { at = λ w. (1, s.at w) }
