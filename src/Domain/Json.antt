-- ===== src/Domain/Json.antt =====
-- The JSON values that the engine exchanges with Kafka Connect and with the database, and the
-- `dict` operations on JSON objects.
use text.Mathlib.Text.{◌==◌ as key_eq}
use self_healing_kafka_syste.Base.{
  ℕ, Bool, true, false, Option, none, some, String, ◌==◌, not, if◌then◌else◌, is_empty,
}
use self_healing_kafka_syste.Base.Text.{Text}

-- `stamp t` is the ISO 8601 text of the instant `t`; `other_num s b` is a number that is not a
-- natural one, by its `str()` and its truth value.
mutual
  pub data Fields : Type 0 where
    end : Fields
    field : String → Value → Fields → Fields

  pub data Items : Type 0 where
    nil : Items
    cons : Value → Items → Items

  pub data Value : Type 0 where
    null : Value
    bool : Bool → Value
    num : ℕ → Value
    other_num : Text → Bool → Value
    str : Text → Value
    stamp : ℕ → Value
    arr : Items → Value
    obj : Fields → Value

abbrev pub no_items : Items → Bool
no_items nil = true
no_items (cons v vs) = false

abbrev pub no_fields : Fields → Bool
no_fields end = true
no_fields (field k v fs) = false

-- `bool(v)`.
unfoldable pub truthy : Value → Bool
truthy null = false
truthy (bool b) = b
truthy (num n) = not (n == 0)
truthy (other_num s b) = b
truthy (str s) = not (is_empty s)
truthy (stamp t) = true
truthy (arr vs) = not (no_items vs)
truthy (obj fs) = not (no_fields fs)

-- `d.get(k)`.
unfoldable pub get : String → Fields → Option Value
get k end = none
get k (field j v fs) = if key_eq j k then some v else get k fs

-- `d[k] = v`.
unfoldable pub put : String → Value → Fields → Fields
put k v end = field k v end
put k v (field j w fs) = if key_eq j k then field k v fs else field j w (put k v fs)

-- `d.pop(k, None)`.
unfoldable pub pop : String → Fields → Fields
pop k end = end
pop k (field j w fs) = let rest = pop k fs in if key_eq j k then rest else field j w rest

-- `d.setdefault(k, v)`.
unfoldable pub set_default : String → Value → Fields → Fields
unfolding get put
set_default k v fs = elim (get k fs) [ none ↦ put k v fs | some w ↦ fs ]

-- `d.update(other)`.
unfoldable pub update : Fields → Fields → Fields
unfolding put
update fs end = fs
update fs (field k v rest) = update (put k v fs) rest

-- `v if v else None` for a value that is looked up.
abbrev pub keep_truthy : Option Value → Option Value
keep_truthy none = none
keep_truthy (some v) = if truthy v then some v else none
