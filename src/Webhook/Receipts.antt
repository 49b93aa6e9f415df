-- ===== src/Webhook/Receipts.antt =====
-- What `submit` of the receiver answers, and what it leaves in the queue and among the claims.
use self_healing_kafka_syste.Base.{
  ℕ, suc, ◌+◌, ◌-◌, ◌≤◌, ◌<◌, Bool, true, false, some, List, [], ◌∷◌, ◌≡◌, refl, ◌∙◌, length,
  length-append, arith, lt→ltb,
}
use self_healing_kafka_syste.Base.Text.{Text, text_eq_refl}
use self_healing_kafka_syste.Domain.{Time}
use self_healing_kafka_syste.Domain.Json.{Value, Fields, Items}
use self_healing_kafka_syste.Effect.Exn.{Result, ok, raised}
use self_healing_kafka_syste.Webhook.Config.{GrafanaWebhookConfig}
use self_healing_kafka_syste.Webhook.Dedupe.{Claims, claim}
use self_healing_kafka_syste.Webhook.Claims.{Unique, is_live, claim_refines, release_refines}
use self_healing_kafka_syste.Webhook.Alerts.{
  GrafanaAlertEvent, dedupe_key, alerts_of, parse_grafana_alerts,
}
use self_healing_kafka_syste.Webhook.Followups.{Service, release_event}
use self_healing_kafka_syste.Webhook.Service.{
  items_length, Receipt, is_full, put_unless, put_nowait, claim_event, counted, offered,
  submit_event, submit_each, submit_parsed, submit,
}
use self_healing_kafka_syste.Webhook.Parsed.{parse_grafana_alerts-WellFormed}

abbrev pub total : Receipt → ℕ
total r = r.accepted + r.duplicate + r.ignored

-- One more event is counted, and the queue grows by those that are accepted.
abbrev Counts : ℕ → Receipt → Service → Receipt × Service → Type 0
Counts n r s (r', s') =
    (total r' ≡ n + total r) × (length s'.queue + r.accepted ≡ length s.queue + r'.accepted)

-- Every alert is counted once and the queue grows by the accepted ones, or nothing has changed.
abbrev pub Accounts : Result Items → Service → Result Receipt × Service → Type 0
Accounts alerts s (raised x, s') = s' ≡ s
Accounts (raised x) s (ok r, s') = ⊥
Accounts (ok alerts) s (ok r, s') =
    (total r ≡ items_length alerts) × (length s'.queue ≡ length s.queue + r.accepted)

module _ (config : GrafanaWebhookConfig) where
  submit_event-Counts :
      (now : Time) (event : GrafanaAlertEvent) (r : Receipt) (s : Service)
      → Counts 1 r s (submit_event config now event r s)
  unfolding submit_event claim_event put_nowait release_event
  submit_event-Counts now event r s =
      by_claim (claim config.dedupe_ttl_seconds now (dedupe_key event) s.claims)
    where
      by_claim :
          (g : Bool × Claims)
          → Counts 1 r s (offered config g.0 event r (record s { claims = g.1 }))
      by_claim (false, cs) = (omega arith, refl)
      by_claim (true, cs) = by_full (is_full config s.queue)
        where
          by_full :
              (b : Bool)
              → Counts 1 r s (
                  counted
                    (put_unless b (some event) (record s { claims = cs })).0
                    event
                    (r, (put_unless b (some event) (record s { claims = cs })).1))
          by_full true = (omega arith, refl)
          by_full false = (omega arith, omega (arith, length-append s.queue (some event ∷ [])))

  submit_each-Counts :
      (clock : ℕ → Time) (n : ℕ) (events : List GrafanaAlertEvent) (r : Receipt) (s : Service)
      → Counts (length events) r s (submit_each config clock n events r s)
  unfolding submit_each
  submit_each-Counts clock n [] r s = (omega arith, refl)
  submit_each-Counts clock n (event ∷ events) r s =
      let (r', s') = submit_event config (clock n) event r s in
      let (one, grown) = submit_event-Counts (clock n) event r s in
      let (more, grown') = submit_each-Counts clock (suc n) events r' s' in
      (omega (arith, one, more), omega (arith, grown, grown'))

  -- An answer counts every alert of the payload once, as accepted, duplicate or ignored, and the queue grows
  -- by the accepted ones. A payload that is refused leaves the state as it was.
  pub submit-Accounts :
      (repr : Value → Text) (clock : ℕ → Time) (payload : Fields) (s : Service)
      → Accounts (alerts_of repr payload) s (submit config repr clock payload s)
  unfolding submit
  submit-Accounts repr clock payload s =
      by_parse (alerts_of repr payload) refl (parse_grafana_alerts repr payload) refl
    where
      by_parse :
          (a : Result Items)
          → alerts_of repr payload ≡ a
          → (es : Result (List GrafanaAlertEvent)) → parse_grafana_alerts repr payload ≡ es
          → Accounts a s (submit_parsed config clock a es s)
      by_parse (raised y) e (raised x) k = refl
      by_parse (ok alerts) e (raised x) k = refl
      by_parse (raised x) e (ok events) k = refl
      by_parse (ok alerts) e (ok events) k =
          let start : Receipt = record {
            accepted = 0;
            duplicate = 0;
            ignored = items_length alerts - length events;
          } in
          let (all, grown) = submit_each-Counts clock 0 events start s in
          let (sound, fewer) = parse_grafana_alerts-WellFormed repr payload alerts events e k in
          (omega (arith, all, fewer), omega (arith, grown))

  module _ (now : Time) (event : GrafanaAlertEvent) (r : Receipt) (s : Service)
      (u : Unique s.claims) where
    -- Where no key is claimed twice, an event whose key is not live and that meets a full queue is
    -- counted as ignored, the queue stays, and the key is not live afterwards, so that the event is
    -- no duplicate when it comes again.
    pub full_queue_releases :
        is_full config s.queue ≡ true
        → is_live config.dedupe_ttl_seconds now (dedupe_key event) s.claims ≡ false
        → ((submit_event config now event r s).0.ignored ≡ suc r.ignored)
          × ((submit_event config now event r s).1.queue ≡ s.queue)
          × ((later : Time)
              → is_live config.dedupe_ttl_seconds later
                  (dedupe_key event)
                  (submit_event config now event r s).1.claims
                ≡ false)
    unfolding submit_event claim_event put_nowait release_event
    full_queue_releases full idle =
        let (grants, unique, live) =
          claim_refines config.dedupe_ttl_seconds now (dedupe_key event) s.claims u in
        rw (grants, idle, full)
          (
            refl,
            refl,
            λ later.
                (release_refines config.dedupe_ttl_seconds later (dedupe_key event) _ unique).1
                  (dedupe_key event)
                ∙ rw (text_eq_refl (dedupe_key event)),
          )

    -- Where no key is claimed twice, an event whose key is not live is accepted by a queue with
    -- room, and when it comes again within the time to live it is counted as a duplicate and the
    -- queue stays.
    pub redelivery_is_duplicate :
        (later : Time)
        → now ≤ later
        → later < now + config.dedupe_ttl_seconds
        → is_full config s.queue ≡ false
        → is_live config.dedupe_ttl_seconds now (dedupe_key event) s.claims ≡ false
        → let (r', s') = submit_event config now event r s in
          (r'.accepted ≡ suc r.accepted)
          × ((submit_event config later event r' s').0 ≡ record r' { duplicate = suc r'.duplicate })
          × ((submit_event config later event r' s').1.queue ≡ s'.queue)
    unfolding submit_event claim_event put_nowait release_event
    redelivery_is_duplicate later h k room idle =
        let key = dedupe_key event in
        let ttl = config.dedupe_ttl_seconds in
        let (grants, unique, live) = claim_refines ttl now key s.claims u in
        let alive : is_live ttl later key (claim ttl now key s.claims).1 ≡ true =
          live key later h ∙ rw (grants, idle, text_eq_refl key) (lt→ltb _ _ k) in
        rw (grants, idle, room, (claim_refines ttl later key _ unique).0, alive) (refl, refl, refl)
