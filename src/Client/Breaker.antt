-- ===== src/Client/Breaker.antt =====
-- The circuit breaker in front of `get_status` of src/self_healthy_kafka/connect/client.py.
use self_healing_kafka_syste.Base.{
  ℕ, ◌+◌, suc, Bool, true, false, not, ◌&&◌, ◌||◌, ltb, ◌==◌, ◌≡◌, refl, if◌then◌else◌, Bool-cases,
  inl, inr, ◌∷◌, arith,
}
use self_healing_kafka_syste.Base.Text.{Text}
use self_healing_kafka_syste.Domain.{Time}
use self_healing_kafka_syste.Effect.Exn.{
  Exn, ExnKind, ok, raised, is_request_error, is_status_error,
}
use self_healing_kafka_syste.Effect.World.{World, Env, Request, failed}
use self_healing_kafka_syste.Effect.Monad.{
  pure, raise, gets, ◌>>=◌, catch, modify, tick, monotonic, send,
}
use self_healing_kafka_syste.Client.Circuit.{
  set_circuit, circuit_error, before_status_request, open_status_circuit,
}
use self_healing_kafka_syste.Client.Rest.{fetch_status, on_status_error, get_status}

abbrev after_failure : World → Request → Exn → World
after_failure w r x = record w {
  steps = suc w.steps;
  trace = record { request = r; reply = failed x } ∷ w.trace;
}

request_not_status : (k : ExnKind) → is_request_error k ≡ true → is_status_error k ≡ false
unfolding is_status_error is_request_error
request_not_status ExnKind.httpx_timeout e = refl
request_not_status ExnKind.httpx_request e = refl
request_not_status ExnKind.builtin_timeout e = refl
request_not_status ExnKind.circuit_open e = refl
request_not_status ExnKind.value_error e = refl
request_not_status ExnKind.runtime_error e = refl
request_not_status ExnKind.bad_payload e = refl
request_not_status ExnKind.database e = refl
request_not_status ExnKind.other e = refl
request_not_status (ExnKind.status_error n) e = cc

module _ (env : Env) (cooldown : ℕ) (name : Text) where
  send_fails :
      (v : World) (r : Request) (x : Exn)
      → env.http v.steps r ≡ failed x
      → send env r v ≡ (raised x, after_failure v r x)
  unfolding send
  send_fails v r x e = rw (e, send) (rw (e))

  -- The handlers of `get_status`, when the request itself fails.
  handled :
      (v : World) (x : Exn)
      → env.http v.steps (Request.status name) ≡ failed x
      → catch (fetch_status env cooldown name) (on_status_error env cooldown) v
        ≡ on_status_error env cooldown x (after_failure v (Request.status name) x)
  unfolding catch fetch_status ◌>>=◌
  handled v x e = rw (send_fails v (Request.status name) x e)

  transport_failed :
      (v : World) (x : Exn)
      → is_request_error x.kind ≡ true
      → on_status_error env cooldown x v
        ≡ (raised x, set_circuit (env.monotonic v.steps + cooldown) false (tick env v))
  unfolding on_status_error open_status_circuit ◌>>=◌ monotonic modify raise
  transport_failed v x e = rw (request_not_status x.kind e, e)

  unexpected :
      (v : World) (x : Exn)
      → is_status_error x.kind ≡ false
      → is_request_error x.kind ≡ false
      → on_status_error env cooldown x v ≡ (raised x, v)
  unfolding on_status_error raise
  unexpected v x d e = rw (d, e)

module _ (env : Env) (cooldown : ℕ) (name : Text) (w : World) where
  abbrev now : Time
  now = env.monotonic w.steps

  -- The circuit keeps a status request back: it is open still, or its one probe is under way.
  abbrev pub Blocked : Type 0
  Blocked =
      (ltb now w.circuit.open_until || (not (w.circuit.open_until == 0) && w.circuit.half_open))
      ≡ true

  blocked :
      Blocked
      → before_status_request env cooldown w
        ≡ (raised (circuit_error (ltb now w.circuit.open_until)), tick env w)
  unfolding before_status_request ◌>>=◌ monotonic gets raise
  blocked h = by_test (ltb now w.circuit.open_until) refl
    where
      by_test :
          (b : Bool)
          → ltb now w.circuit.open_until ≡ b
          → before_status_request env cooldown w
            ≡ (raised (circuit_error (ltb now w.circuit.open_until)), tick env w)
      by_test true e = rw (e)
      by_test false e =
          let rest : (not (w.circuit.open_until == 0) && w.circuit.half_open) ≡ true =
            ground arith in
          rw (e, rest)

  get_status-blocked :
      Blocked
      → get_status env cooldown name w
        ≡ (raised (circuit_error (ltb now w.circuit.open_until)), tick env w)
  unfolding get_status ◌>>=◌
  get_status-blocked h = rw (blocked h)

  -- Past the circuit, with the flag of the probe set where the circuit was open.
  passed : World
  passed =
      if w.circuit.open_until == 0
      then tick env w
      else set_circuit w.circuit.open_until true (tick env w)

  not_blocked :
      (ltb now w.circuit.open_until || (not (w.circuit.open_until == 0) && w.circuit.half_open))
        ≡ false
      → before_status_request env cooldown w ≡ (ok tt, passed)
  unfolding before_status_request ◌>>=◌ monotonic gets raise pure modify passed
  not_blocked h = by_zero (w.circuit.open_until == 0) refl
    where
      expired : ltb now w.circuit.open_until ≡ false
      expired = ground arith

      by_zero :
          (b : Bool)
          → (w.circuit.open_until == 0) ≡ b
          → before_status_request env cooldown w ≡ (ok tt, passed)
      by_zero true e = rw (expired, e)
      by_zero false e =
          let free : w.circuit.half_open ≡ false = ground arith in rw (expired, e, free)

  -- The circuit lets a status request through.
  abbrev pub Free : Type 0
  Free =
      (ltb now w.circuit.open_until || (not (w.circuit.open_until == 0) && w.circuit.half_open))
      ≡ false

  passed_steps : passed.steps ≡ suc w.steps
  unfolding passed
  passed_steps = elim (Bool-cases (w.circuit.open_until == 0)) [ inl e ↦ rw (e) | inr e ↦ rw (e) ]

  failing :
      (x : Exn)
      → Free
      → env.http (suc w.steps) (Request.status name) ≡ failed x
      → get_status env cooldown name w
        ≡ on_status_error env cooldown x (after_failure passed (Request.status name) x)
  unfolding get_status ◌>>=◌
  failing x h e = rw (not_blocked h) (handled env cooldown name passed x (rw (passed_steps) e))

  -- A status request that fails in transport opens the circuit for the whole cooldown, whether it was the
  -- probe or not.
  pub get_status-opens :
      (x : Exn)
      → Free
      → env.http (suc w.steps) (Request.status name) ≡ failed x
      → is_request_error x.kind ≡ true
      → ((get_status env cooldown name w).0 ≡ raised x)
        × ((get_status env cooldown name w).1.circuit ≡ record {
          open_until = env.monotonic (suc (suc w.steps)) + cooldown;
          half_open = false;
        })
  get_status-opens x h e k =
      rw
        (
          failing x h e,
          transport_failed env cooldown name (after_failure passed (Request.status name) x) x k,
          passed_steps,
        )
        (refl, refl)

-- When the probe of an open circuit ends with an exception that is neither a status error nor a
-- transport error, the next status request is refused without a request, whenever it comes and for
-- whichever connector, and leaves the circuit as it is.
pub get_status-stuck :
    (env env' : Env) (cooldown cooldown' : ℕ) (name other : Text) (w : World) (x : Exn)
    → Free env cooldown name w
    → (w.circuit.open_until == 0) ≡ false
    → env.http (suc w.steps) (Request.status name) ≡ failed x
    → is_status_error x.kind ≡ false
    → is_request_error x.kind ≡ false
    → get_status env' cooldown' other (get_status env cooldown name w).1 ≡ (
      raised (
          circuit_error (
            ltb
              (env'.monotonic (get_status env cooldown name w).1.steps)
              (get_status env cooldown name w).1.circuit.open_until)),
      tick env' (get_status env cooldown name w).1,
    )
unfolding passed
get_status-stuck env env' cooldown cooldown' name other w x h z e d k =
    let end = after_failure (passed env cooldown name w) (Request.status name) x in
    let probing : Blocked env' cooldown' other end = rw (z) (ground (arith, z)) in
    rw (failing env cooldown name w x h e, unexpected env cooldown name end x d k)
      (get_status-blocked env' cooldown' other end probing)
