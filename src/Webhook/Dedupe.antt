-- ===== src/Webhook/Dedupe.antt =====
-- `EventDeduplicator` of webhook/security.py; its lock makes each method one step.
use self_healing_kafka_syste.Base.{
  ℕ, ◌+◌, Bool, true, false, not, List, leb, if◌then◌else◌, keep_if, is_some,
}
use self_healing_kafka_syste.Base.Text.{Text}
use self_healing_kafka_syste.Base.Dict.{lookup, insert, remove, text_key}
use self_healing_kafka_syste.Domain.{Time}

-- `_claims`: the keys with the times of their claims.
abbrev pub Claims : Type 0
Claims = List (Text × Time)

-- `now - claimed_at >= ttl`.
unfoldable pub is_expired : ℕ → Time → Time → Bool
is_expired ttl now claimed_at = leb (claimed_at + ttl) now

unfoldable pub drop_expired : ℕ → Time → Claims → Claims
drop_expired ttl now claims = keep_if (λ e. not (is_expired ttl now e.1)) claims

-- Whether the key is granted, and the claims after that.
unfoldable pub claim : ℕ → Time → Text → Claims → Bool × Claims
unfolding drop_expired
claim ttl now key claims =
    let live = drop_expired ttl now claims in
    if is_some (lookup key live) then (false, live) else (true, insert key now live)

unfoldable pub release : Text → Claims → Claims
release key claims = remove key claims
