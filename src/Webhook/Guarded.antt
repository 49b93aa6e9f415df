-- ===== src/Webhook/Guarded.antt =====
-- What a request needs to change the state of the receiver.
use self_healing_kafka_syste.Base.{
  ℕ, zero, suc, Bool, true, false, ◌&&◌, ◌||◌, not, Option, none, some, [], ◌∷◌, ◌≡◌, ◌≤◌, refl,
  ◌⊎◌, inl, inr, arith, ltb, ◌==◌, if◌then◌else◌, is_empty, length,
}
use self_healing_kafka_syste.Base.Text.{text_eq, text_eq_iff}
use self_healing_kafka_syste.Domain.{Time}
use self_healing_kafka_syste.Domain.Json.{
  Value, Fields, null, bool, num, other_num, str, stamp, arr, obj,
}
use self_healing_kafka_syste.Effect.Exn.{Result, ok, raised, text}
use self_healing_kafka_syste.Webhook.Config.{GrafanaWebhookConfig, Signed, Bytes, Platform}
use self_healing_kafka_syste.Webhook.Auth.{verify}
use self_healing_kafka_syste.Webhook.Followups.{Service}
use self_healing_kafka_syste.Webhook.Service.{Receipt, submit}
use self_healing_kafka_syste.Webhook.Http.{
  HttpRequest, Answer, Chat, max_body_bytes, Body, body, refused, read_stream, sized_body, Payload,
  payload, rejected, object_payload, read_body, load_object, query_token, receipt_reply,
  submit_loaded, admit, receive, post_alerts, do_post,
}
use self_healing_kafka_syste.Webhook.Routes.{ChatApi, Method, respond}

length-read_stream : (n : ℕ) (s : Bytes) → length (read_stream n s) ≤ n
length-read_stream zero s = omega arith
length-read_stream (suc n) [] = omega arith
length-read_stream (suc n) (b ∷ s) = omega (arith, length-read_stream n s)

module _ (lib : Platform) (config : GrafanaWebhookConfig) (now : ℕ) (clock : ℕ → Time)
    (r : HttpRequest) (s : Service) where
  -- The request is for the enabled receiver, its body is within the bound and authentic, and the body is an
  -- object whose alerts are submitted.
  pub record Admitted (after : Service) : Type 0 where
    pub enabled : config.enabled ≡ true
    pub at_path : r.path ≡ config.path
    pub bytes : Bytes
    pub bounded : length bytes ≤ max_body_bytes
    pub authentic : verify lib config now r.headers bytes (query_token lib config r) ≡ ok true
    pub loaded : Fields
    pub is_object : lib.json_loads bytes ≡ ok (obj loaded)
    pub submitted : after ≡ (submit config lib.repr clock loaded s).1

  -- The answer leaves the state alone, or the request is admitted.
  abbrev pub IsGuarded : Answer × Service → Type 0
  IsGuarded (answer, after) = (after ≡ s) ⊎ Admitted after

  abbrev IsBounded : Body → Type 0
  IsBounded (refused a) = Unit
  IsBounded (body bytes) = length bytes ≤ max_body_bytes

  sized_body-Bounded : (o : Option Signed) → IsBounded (sized_body r.stream o)
  sized_body-Bounded none = tt
  sized_body-Bounded (some n) =
      by_size _ (n.negative || n.size == 0) (ltb max_body_bytes n.size) refl
    where
      by_size :
          (a : Answer) (b c : Bool)
          → ltb max_body_bytes n.size ≡ c
          → IsBounded (if b || c then refused a else body (read_stream n.size r.stream))
      by_size a true c e = tt
      by_size a false true e = tt
      by_size a false false e = ground (arith, length-read_stream n.size r.stream, e)

  read_body-Bounded : IsBounded (read_body lib config r)
  unfolding read_body
  read_body-Bounded =
      let length = r.headers (text "Content-Length") in
      sized_body-Bounded (
        if is_empty length
        then some (record { negative = false; size = 0 })
        else lib.parse_int length)

  object_payload-obj :
      (v : Result Value) (fs : Fields) → object_payload v ≡ payload fs → v ≡ ok (obj fs)
  object_payload-obj (raised x) fs e = cc
  object_payload-obj (ok null) fs e = cc
  object_payload-obj (ok (bool b)) fs e = cc
  object_payload-obj (ok (num n)) fs e = cc
  object_payload-obj (ok (other_num t b)) fs e = cc
  object_payload-obj (ok (str t)) fs e = cc
  object_payload-obj (ok (stamp t)) fs e = cc
  object_payload-obj (ok (arr vs)) fs e = cc
  object_payload-obj (ok (obj gs)) fs e = cc

  receipt_reply-state : (q : Result Receipt × Service) → (receipt_reply lib config q).1 ≡ q.1
  receipt_reply-state (raised x, u) = refl
  receipt_reply-state (ok n, u) = refl

  module _ (on : config.enabled ≡ true) (at : r.path ≡ config.path) where
    submit_loaded-Guarded :
        (bytes : Bytes)
        → length bytes ≤ max_body_bytes
        → verify lib config now r.headers bytes (query_token lib config r) ≡ ok true
        → (p : Payload) → load_object lib config bytes ≡ p
        → IsGuarded (submit_loaded lib config clock p s)
    unfolding load_object
    submit_loaded-Guarded bytes h a (rejected x) e = inl refl
    submit_loaded-Guarded bytes h a (payload fs) e = inr (record {
      enabled = on;
      at_path = at;
      bytes = bytes;
      bounded = h;
      authentic = a;
      loaded = fs;
      is_object = object_payload-obj (lib.json_loads bytes) fs e;
      submitted = receipt_reply-state (submit config lib.repr clock fs s);
    })

    admit-Guarded :
        (bytes : Bytes)
        → length bytes ≤ max_body_bytes
        → (v : Result Bool) → verify lib config now r.headers bytes (query_token lib config r) ≡ v
        → IsGuarded (admit lib config clock bytes v s)
    admit-Guarded bytes h (raised x) e = inl refl
    admit-Guarded bytes h (ok false) e = inl refl
    admit-Guarded bytes h (ok true) e =
        submit_loaded-Guarded bytes h e (load_object lib config bytes) refl

    receive-Guarded : (b : Body) → IsBounded b → IsGuarded (receive lib config now clock r b s)
    receive-Guarded (refused a) h = inl refl
    receive-Guarded (body bytes) h = admit-Guarded bytes h _ refl

  post_alerts-Guarded : IsGuarded (post_alerts lib config now clock r s)
  unfolding post_alerts read_body
  post_alerts-Guarded = by_enabled _ _ config.enabled refl
    where
      by_path :
          (a : Answer)
          → config.enabled ≡ true
          → (b : Bool) → text_eq r.path config.path ≡ b
          → IsGuarded
              (if not b then (a, s) else receive lib config now clock r (read_body lib config r) s)
      by_path a on false e = inl refl
      by_path a on true e =
          receive-Guarded on ((text_eq_iff r.path config.path).0 e) (read_body lib config r)
            read_body-Bounded

      by_enabled :
          (a c : Answer) (b : Bool)
          → config.enabled ≡ b
          → IsGuarded (
              if not b
              then (a, s)
              else if not (text_eq r.path config.path)
              then (c, s)
              else receive lib config now clock r (read_body lib config r) s)
      by_enabled a c false e = inl refl
      by_enabled a c true e = by_path c e (text_eq r.path config.path) refl

  do_post-IsGuarded :
      (analytics ollama : Chat) → IsGuarded (do_post lib config analytics ollama now clock r s)
  unfolding do_post
  do_post-IsGuarded analytics ollama =
      by_chat _ _ (analytics.enabled && text_eq r.path analytics.path)
        (ollama.enabled && text_eq r.path ollama.path)
    where
      by_chat :
          (x y : Answer) (a b : Bool)
          → IsGuarded
              (if a then (x, s) else if b then (y, s) else post_alerts lib config now clock r s)
      by_chat x y true b = inl refl
      by_chat x y false true = inl refl
      by_chat x y false false = post_alerts-Guarded

  -- A request of any method leaves the state of the receiver as it was, or the receiver is enabled, the path
  -- is its path, the body is within the bound and authentic, and the new state is that of submitting the
  -- alerts of that body.
  pub respond-IsGuarded :
      (method : Method) (api : ChatApi) (analytics ollama : Chat)
      → IsGuarded (respond lib config method api analytics ollama now clock r s)
  unfolding respond
  respond-IsGuarded Method.get_method api analytics ollama = inl refl
  respond-IsGuarded Method.post_method api analytics ollama = do_post-IsGuarded analytics ollama
  respond-IsGuarded Method.delete_method api analytics ollama = inl refl
