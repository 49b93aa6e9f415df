-- ===== src/Webhook/Signature.antt =====
-- What a request needs to pass the authentication of webhook/security.py.
use self_healing_kafka_syste.Base.{
  ℕ, Bool, true, false, ◌&&◌, not, Option, none, some, ltb, ◌≡◌, refl, ◌⊎◌, inl, inr, ◌++◌,
  if◌then◌else◌, Bool-cases, arith, ◌≤◌,
}
use self_healing_kafka_syste.Base.Text.{Text, text_eq, text_eq_iff}
use self_healing_kafka_syste.Effect.Exn.{Exn, Result, ok, raised, text}
use self_healing_kafka_syste.Webhook.Config.{GrafanaWebhookConfig, Signed, Bytes, Platform}
use self_healing_kafka_syste.Webhook.Auth.{
  is_ascii, compare_digest, distance, either, auth_mode, verify_bearer, expected_signature,
  verify_stamped, verify_hmac, verify,
}

ok_inj : {a b : Bool} → ok a ≡ ok b → a ≡ b
ok_inj e = cc

compare_digest-ok : (a b : Text) → compare_digest a b ≡ ok true → a ≡ b
unfolding compare_digest
compare_digest-ok a b e = elim (Bool-cases (is_ascii a && is_ascii b)) [
  | inl h ↦ (text_eq_iff a b).0 (ok_inj (rw (h) at e))
  | inr h ↦ let e' : raised _ ≡ ok true = rw (h) at e in elim (apart e') [ ]
]
  where
    apart : {x : Exn} → raised x ≡ ok true → ⊥
    apart e = cc

either-ok : (a b : Result Bool) → either a b ≡ ok true → (a ≡ ok true) ⊎ (b ≡ ok true)
either-ok (raised x) b e = cc
either-ok (ok a) (raised x) e = cc
either-ok (ok true) (ok b) e = inl refl
either-ok (ok false) (ok b) e = inr e

module _ (lib : Platform) (config : GrafanaWebhookConfig) (now : ℕ) (headers : Text → Text)
    (body : Bytes) (query_token : Text) where
  -- The secret itself came along, in one of the three places.
  abbrev pub HasSecret : Type 0
  HasSecret =
      (headers (text "Authorization") ≡ text "Bearer " ++ config.secret)
      ⊎ ((headers (text "X-SELF-HEALTHY-KAFKA-Token") ≡ config.secret)
          ⊎ (query_token ≡ config.secret))

  -- The request is stamped within the tolerance, and signed with its stamp and body.
  abbrev pub IsSigned : Type 0
  IsSigned =
      (stamp : Signed) × (lib.parse_int (headers config.timestamp_header) ≡ some stamp)
      × (distance now stamp ≤ config.timestamp_tolerance_seconds)
      × (headers config.signature_header
          ≡ expected_signature lib config (headers config.timestamp_header) body)

  bearer : verify_bearer lib config headers query_token ≡ ok true → HasSecret
  unfolding verify_bearer
  bearer e = elim (either-ok _ _ e) [
    | inl h ↦ elim (either-ok _ _ h) [
      | inl k ↦ inl (compare_digest-ok _ _ k)
      | inr k ↦ inr (inl (compare_digest-ok _ _ k))
    ]
    | inr h ↦ inr (inr (compare_digest-ok _ _ h))
  ]

  stamped :
      (o : Option Signed)
      → lib.parse_int (headers config.timestamp_header) ≡ o
      → verify_stamped lib config now headers body o ≡ ok true
      → IsSigned
  stamped none p e = cc
  stamped (some stamp) p e =
      elim (Bool-cases (ltb config.timestamp_tolerance_seconds (distance now stamp))) [
        | inl h ↦ elim (late (rw (h) at e)) [ ]
        | inr h ↦ (stamp, p, ground (arith, h), compare_digest-ok _ _ (rw (h) at e))
      ]
    where
      late : ok false ≡ ok true → ⊥
      late e = cc

  -- An accepted request has the secret in the mode `bearer`, and in the mode `hmac` a fresh time stamp and
  -- the signature of that stamp and of its body; no other mode accepts a request.
  pub verify-Genuine :
      verify lib config now headers body query_token ≡ ok true
      → ((auth_mode lib config ≡ text "bearer") × HasSecret)
        ⊎ ((auth_mode lib config ≡ text "hmac") × IsSigned)
  unfolding verify verify_hmac
  verify-Genuine e = by_bearer (text_eq (auth_mode lib config) (text "bearer")) refl
    where
      by_hmac :
          (b : Bool)
          → text_eq (auth_mode lib config) (text "hmac") ≡ b
          → (if not (text_eq (auth_mode lib config) (text "hmac"))
              then ok false
              else verify_hmac lib config now headers body)
            ≡ ok true
          → (auth_mode lib config ≡ text "hmac") × IsSigned
      by_hmac true h k =
          ((text_eq_iff (auth_mode lib config) (text "hmac")).0 h, stamped _ refl (rw (h) at k))
      by_hmac false h k = let k' : ok false ≡ ok true = rw (h) at k in elim (apart k') [ ]
        where
          apart : ok false ≡ ok true → ⊥
          apart e = cc

      by_bearer :
          (b : Bool)
          → text_eq (auth_mode lib config) (text "bearer") ≡ b
          → ((auth_mode lib config ≡ text "bearer") × HasSecret)
            ⊎ ((auth_mode lib config ≡ text "hmac") × IsSigned)
      by_bearer true h =
          inl ((text_eq_iff (auth_mode lib config) (text "bearer")).0 h, bearer (rw (h) at e))
      by_bearer false h =
          inr (by_hmac (text_eq (auth_mode lib config) (text "hmac")) refl (rw (h) at e))
