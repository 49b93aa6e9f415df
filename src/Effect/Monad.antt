-- ===== src/Effect/Monad.antt =====
-- Methods that change the world and may raise. What was written before a raise stays written.
use self_healing_kafka_syste.Base.{suc, ◌∷◌}
use self_healing_kafka_syste.Domain.{Time}
use self_healing_kafka_syste.Effect.Exn.{Exn, Result, ok, raised}
use self_healing_kafka_syste.Effect.World.{
  World, Env, Request, Response, response, failed, done, lost, uncertain,
}

abbrev pub M : Type 0 → Type 0
M A = World → Result A × World

module _ {A : Type 0} where
  unfoldable pub pure : A → M A
  pure a w = (ok a, w)

  unfoldable pub raise : Exn → M A
  raise x w = (raised x, w)

  unfoldable pub lift : Result A → M A
  lift r w = (r, w)

  unfoldable pub gets : (World → A) → M A
  gets f w = (ok (f w), w)

module _ {A B : Type 0} where
  abbrev pub continue : Result A → (A → M B) → M B
  continue (ok a) f w = f a w
  continue (raised x) f w = (raised x, w)

  infixl 10 ◌>>=◌ ◌>>◌
  unfoldable pub ◌>>=◌ : M A → (A → M B) → M B
  ◌>>=◌ m f w = let (r, w') = m w in continue r f w'

  abbrev pub ◌>>◌ : M A → M B → M B
  m >> k = m >>= λ _. k

module _ {A : Type 0} where
  abbrev pub handle : Result A → (Exn → M A) → M A
  handle (ok a) h w = (ok a, w)
  handle (raised x) h w = h x w

  -- `try: m except Exception as exc: h(exc)`.
  unfoldable pub catch : M A → (Exn → M A) → M A
  catch m h w = let (r, w') = m w in handle r h w'

  -- `try: m finally: k`, for a clean-up that does not raise.
  unfoldable pub finally : M A → (World → World) → M A
  finally m k w = let (r, w') = m w in (r, k w')

module _ {A : Type 0} where
  -- `try: m except Exception as exc`, where both ends go on.
  unfoldable pub attempt : M A → M (Result A)
  attempt m w = let (r, w') = m w in (ok r, w')

unfoldable pub modify : (World → World) → M (Unit {0})
modify f w = (ok tt, f w)

abbrev pub skip : M (Unit {0})
skip = pure tt

module _ (env : Env) where
  abbrev pub tick : World → World
  tick w = record w { steps = suc w.steps }

  -- `datetime.now(timezone.utc)`, which is also `utc_now` of healing/helpers.py.
  unfoldable pub utc_now : M Time
  utc_now w = (ok (env.wall_clock w.steps), tick w)

  -- `time.monotonic()`.
  unfoldable pub monotonic : M Time
  monotonic w = (ok (env.monotonic w.steps), tick w)

  -- A call of the HTTP library: it is on the trace, whatever comes back.
  unfoldable pub send : Request → M Response
  send r w =
      let p = env.http w.steps r in
      let w' = record w {
        steps = suc w.steps;
        trace = record { request = r; reply = p } ∷ w.trace;
      } in
      elim p [ response answer ↦ (ok answer, w') | failed x ↦ (raised x, w') ]

  -- A call of a stored procedure that changes the tables by `f`.
  unfoldable pub execute : (World → World) → M (Unit {0})
  execute f w = elim (env.database w.steps) [
    | done ↦ (ok tt, f (tick w))
    | lost x ↦ (raised x, tick w)
    | uncertain x ↦ (raised x, f (tick w))
  ]

  -- A call of a stored procedure that reads the tables.
  unfoldable pub query : {A : Type 0} → (World → A) → M A
  query f w = elim (env.database w.steps) [
    | done ↦ (ok (f w), tick w)
    | lost x ↦ (raised x, tick w)
    | uncertain x ↦ (raised x, tick w)
  ]
