-- ===== src/Webhook/Auth.antt =====
-- `WebhookAuthenticator` of webhook/security.py.
use self_healing_kafka_syste.Base.{
  ℕ, ◌+◌, ◌-◌, Bool, false, ◌&&◌, ◌||◌, not, Option, none, some, ◌∷◌, ◌++◌, ltb, leb, if◌then◌else◌,
  all,
}
use self_healing_kafka_syste.Base.Text.{Text, text_eq, strip, lower}
use self_healing_kafka_syste.Effect.Exn.{ExnKind, Result, ok, raised, text}
use self_healing_kafka_syste.Webhook.Config.{GrafanaWebhookConfig, Signed, Bytes, Platform}

abbrev pub is_ascii : Text → Bool
is_ascii s = all (λ c. ltb c 128) s

-- `hmac.compare_digest(a, b)` on texts, which refuses other characters than ASCII's.
unfoldable pub compare_digest : Text → Text → Result Bool
compare_digest a b =
    if is_ascii a && is_ascii b
    then ok (text_eq a b)
    else raised (record {
      kind = ExnKind.other;
      message = text "comparing strings with non-ASCII characters is not supported";
    })

-- The distance of a time and a Python integer.
unfoldable pub distance : ℕ → Signed → ℕ
distance now t =
    if t.negative then now + t.size else if leb t.size now then now - t.size else t.size - now

-- `a` or `b` after both are computed.
abbrev pub either : Result Bool → Result Bool → Result Bool
either (raised x) b = raised x
either (ok a) (raised x) = raised x
either (ok a) (ok b) = ok (a || b)

module _ (lib : Platform) (config : GrafanaWebhookConfig) where
  -- `config.auth_mode.strip().lower()`.
  unfoldable pub auth_mode : Text
  auth_mode = lower (strip config.auth_mode)

  -- `any((…, …, …))` of the bearer mode: the three comparisons are made first.
  unfoldable pub verify_bearer : (Text → Text) → Text → Result Bool
  verify_bearer headers query_token =
      either
        (either (compare_digest (headers (text "Authorization")) (text "Bearer " ++ config.secret))
          (compare_digest (headers (text "X-SELF-HEALTHY-KAFKA-Token")) config.secret))
        (compare_digest query_token config.secret)

  -- The digest of a time stamp and a body.
  unfoldable pub expected_signature : Text → Bytes → Text
  expected_signature timestamp body =
      lib.hmac_sha256 (lib.utf8 config.secret) (lib.utf8 timestamp ++ (58 ∷ body))

  abbrev pub verify_stamped : ℕ → (Text → Text) → Bytes → Option Signed → Result Bool
  verify_stamped now headers body none = ok false
  verify_stamped now headers body (some stamp) =
      if ltb config.timestamp_tolerance_seconds (distance now stamp)
      then ok false
      else compare_digest (headers config.signature_header)
          (expected_signature (headers config.timestamp_header) body)

  unfoldable pub verify_hmac : ℕ → (Text → Text) → Bytes → Result Bool
  verify_hmac now headers body =
      verify_stamped now headers body (lib.parse_int (headers config.timestamp_header))

  -- `verify`; `headers` is `headers.get(name, "")`, and `now` is `int(time.time())`.
  unfoldable pub verify : ℕ → (Text → Text) → Bytes → Text → Result Bool
  unfolding verify_bearer verify_hmac
  verify now headers body query_token =
      if text_eq auth_mode (text "bearer")
      then verify_bearer headers query_token
      else if not (text_eq auth_mode (text "hmac"))
      then ok false
      else verify_hmac now headers body
