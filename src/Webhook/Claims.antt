-- ===== src/Webhook/Claims.antt =====
-- The deduplicator of webhook/security.py as a set of keys that expire.
use self_healing_kafka_syste.Base.{
  ℕ, ◌+◌, ◌≤◌, subst, Bool, true, false, ◌&&◌, not, Option, none, some, [], ◌∷◌, ◌≡◌, refl, ◌∙◌, ap,
  ltb, if◌then◌else◌, is_some, arith,
}
use self_healing_kafka_syste.Base.Text.{Text, text_eq, text_eq_iff}
use self_healing_kafka_syste.Base.Dict.{
  lookup, insert, remove, text_key, lookup-insert, lookup-remove,
}
use self_healing_kafka_syste.Domain.{Time}
use self_healing_kafka_syste.Webhook.Dedupe.{Claims, is_expired, drop_expired, claim, release}

-- No key is there twice, as in a `dict`.
abbrev pub Unique : Claims → Type 0
Unique [] = Unit
Unique ((k, t) ∷ cs) = (lookup k cs ≡ none) × Unique cs

-- The abstract view: the key is claimed at that time, and the claim has not expired.
abbrev pub live_at : ℕ → Time → Option Time → Bool
live_at ttl now none = false
live_at ttl now (some t) = not (is_expired ttl now t)

abbrev pub is_live : ℕ → Time → Text → Claims → Bool
is_live ttl now key claims = live_at ttl now (lookup key claims)

abbrev when : ℕ → Time → Option Time → Option Time
when ttl now none = none
when ttl now (some t) = if is_expired ttl now t then none else some t

lookup-drop_expired :
    (ttl : ℕ) (now : Time) (key : Text) (cs : Claims)
    → Unique cs
    → lookup key (drop_expired ttl now cs) ≡ when ttl now (lookup key cs)
unfolding drop_expired lookup
lookup-drop_expired ttl now key [] u = refl
lookup-drop_expired ttl now key ((k, t) ∷ cs) (new, u) =
    by_key (lookup-drop_expired ttl now key cs u) (text_eq k key) (is_expired ttl now t) refl refl
  where
    absent : text_eq k key ≡ true → lookup key cs ≡ none
    absent e = subst (λ (s : Text). lookup s cs ≡ none) ((text_eq_iff k key).0 e) new

    by_key :
        (ih : lookup key (drop_expired ttl now cs) ≡ when ttl now (lookup key cs)) (b x : Bool)
        → text_eq k key ≡ b
        → is_expired ttl now t ≡ x
        → lookup key (drop_expired ttl now ((k, t) ∷ cs)) ≡ when ttl now (lookup key ((k, t) ∷ cs))
    by_key ih true true e d = rw (e, d, ih, absent e)
    by_key ih true false e d = rw (d) (rw (e, d))
    by_key ih false true e d = rw (d) (rw (e) ih)
    by_key ih false false e d = rw (d) (rw (e) ih)

drop_expired-Unique :
    (ttl : ℕ) (now : Time) (cs : Claims) → Unique cs → Unique (drop_expired ttl now cs)
unfolding drop_expired
drop_expired-Unique ttl now [] u = tt
drop_expired-Unique ttl now ((k, t) ∷ cs) (new, u) =
    by_age (drop_expired-Unique ttl now cs u) (lookup-drop_expired ttl now k cs u)
      (is_expired ttl now t) refl
  where
    by_age :
        Unique (drop_expired ttl now cs)
        → lookup k (drop_expired ttl now cs) ≡ when ttl now (lookup k cs)
        → (x : Bool) → is_expired ttl now t ≡ x
        → Unique (drop_expired ttl now ((k, t) ∷ cs))
    by_age ih e true d = rw (d) ih
    by_age ih e false d = rw (d) (e ∙ rw (new), ih)

insert-Unique : (key : Text) (now : Time) (cs : Claims) → Unique cs → Unique (insert key now cs)
unfolding insert lookup
insert-Unique key now [] u = (refl, tt)
insert-Unique key now ((k, t) ∷ cs) (new, u) =
    by_key (insert-Unique key now cs u) (text_eq k key) refl
  where
    by_key :
        Unique (insert key now cs)
        → (b : Bool) → text_eq k key ≡ b
        → Unique (insert key now ((k, t) ∷ cs))
    by_key ih true e =
        rw (e) (subst (λ (s : Text). lookup s cs ≡ none) ((text_eq_iff k key).0 e) new, u)
    by_key ih false e = rw (e) (lookup-insert key k now cs ∙ rw (flip e) new, ih)
      where
        flip : text_eq k key ≡ false → text_eq key k ≡ false
        flip h = ground (arith, text_eq_iff k key, text_eq_iff key k)

remove-Unique : (key : Text) (cs : Claims) → Unique cs → Unique (remove key cs)
unfolding remove lookup
remove-Unique key [] u = tt
remove-Unique key ((k, t) ∷ cs) (new, u) = by_key (remove-Unique key cs u) (text_eq k key) refl
  where
    by_key :
        Unique (remove key cs) → (b : Bool) → text_eq k key ≡ b → Unique (remove key ((k, t) ∷ cs))
    by_key ih true e = rw (e) ih
    by_key ih false e = rw (e) (lookup-remove key k cs ∙ (by_none (text_eq key k)), ih)
      where
        by_none : (b : Bool) → (if b then none else lookup k cs) ≡ none
        by_none true = refl
        by_none false = new

-- A claim that is not live is not live later.
live_at-when :
    (ttl : ℕ) (now later : Time) (o : Option Time)
    → now ≤ later
    → live_at ttl later (when ttl now o) ≡ live_at ttl later o
unfolding is_expired
live_at-when ttl now later none h = refl
live_at-when ttl now later (some t) h = ground arith

module _ (ttl : ℕ) (now : Time) (key : Text) (cs : Claims) (u : Unique cs) where
  is_some-when : is_some (lookup key (drop_expired ttl now cs)) ≡ is_live ttl now key cs
  is_some-when = ap is_some (lookup-drop_expired ttl now key cs u) ∙ by_entry (lookup key cs)
    where
      by_entry : (o : Option Time) → is_some (when ttl now o) ≡ live_at ttl now o
      by_entry none = refl
      by_entry (some t) = ground arith

  -- Where no key is stored twice, a claim of a key is granted exactly when the key is not live.
  -- From then on the key is live for the whole time to live if it was granted, every other key is
  -- as live as before, at any later time, and no key is stored twice.
  pub claim_refines :
      ((claim ttl now key cs).0 ≡ not (is_live ttl now key cs))
      × Unique (claim ttl now key cs).1
      × ((j : Text) (later : Time)
          → now ≤ later
          → is_live ttl later j (claim ttl now key cs).1 ≡ (
              if (claim ttl now key cs).0 && text_eq key j
              then ltb later (now + ttl)
              else is_live ttl later j cs))
  unfolding claim is_expired
  claim_refines = by_live (is_live ttl now key cs) refl
    where
      kept :
          (j : Text) (later : Time)
          → now ≤ later
          → is_live ttl later j (drop_expired ttl now cs) ≡ is_live ttl later j cs
      kept j later h =
          ap (live_at ttl later) (lookup-drop_expired ttl now j cs u)
          ∙ live_at-when ttl now later (lookup j cs) h

      granted :
          (j : Text) (later : Time)
          → now ≤ later
          → is_live ttl later j (insert key now (drop_expired ttl now cs))
            ≡ (if text_eq key j then ltb later (now + ttl) else is_live ttl later j cs)
      granted j later h = by_key (text_eq key j) refl
        where
          by_key :
              (b : Bool)
              → text_eq key j ≡ b
              → is_live ttl later j (insert key now (drop_expired ttl now cs))
                ≡ (if text_eq key j then ltb later (now + ttl) else is_live ttl later j cs)
          by_key true e = rw (lookup-insert key j now (drop_expired ttl now cs), e) (ground arith)
          by_key false e =
              rw (lookup-insert key j now (drop_expired ttl now cs), e) (kept j later h)

      by_live :
          (b : Bool)
          → is_live ttl now key cs ≡ b
          → ((claim ttl now key cs).0 ≡ not (is_live ttl now key cs))
            × Unique (claim ttl now key cs).1
            × ((j : Text) (later : Time)
                → now ≤ later
                → is_live ttl later j (claim ttl now key cs).1 ≡ (
                    if (claim ttl now key cs).0 && text_eq key j
                    then ltb later (now + ttl)
                    else is_live ttl later j cs))
      by_live true e = rw (is_some-when, e) (refl, drop_expired-Unique ttl now cs u, kept)
      by_live false e =
          rw (is_some-when, e)
            (refl, insert-Unique key now _ (drop_expired-Unique ttl now cs u), granted)

  -- After a release from claims without repeated keys the key is not live, every other key is as live as before, and no key is stored twice.
  pub release_refines :
      Unique (release key cs)
      × ((j : Text)
          → is_live ttl now j (release key cs)
            ≡ (if text_eq key j then false else is_live ttl now j cs))
  unfolding release
  release_refines = (remove-Unique key cs u, λ j. by_key j (text_eq key j) refl)
    where
      by_key :
          (j : Text) (b : Bool)
          → text_eq key j ≡ b
          → is_live ttl now j (remove key cs)
            ≡ (if text_eq key j then false else is_live ttl now j cs)
      by_key j true e = rw (lookup-remove key j cs, e)
      by_key j false e = rw (lookup-remove key j cs, e)
