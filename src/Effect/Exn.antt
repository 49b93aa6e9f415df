-- ===== src/Effect/Exn.antt =====
-- Python exceptions, as far as the engine tells them apart, and results.
use self_healing_kafka_syste.Base.{
  ℕ, Bool, true, false, ◌||◌, ◌&&◌, leb, if◌then◌else◌, ◌+◌, map, String,
}
use self_healing_kafka_syste.Base.Text.{Text, has_infix, codes}

-- `httpx_timeout` is a subclass of `httpx.RequestError`, the built-in `TimeoutError` is not;
-- `status_error` is `httpx.HTTPStatusError`; `other` is any exception of no class named here.
pub data ExnKind : Type 0 where
  builtin_timeout httpx_timeout httpx_request circuit_open value_error runtime_error bad_payload
        database other :
      ExnKind
  status_error : ℕ → ExnKind

pub record Exn : Type 0 where
  pub kind : ExnKind
  pub message : Text

pub data Result (A : Type 0) : Type 0 where
  ok : A → Result A
  raised : Exn → Result A

-- The text of a literal, kept shut.
unfoldable pub text : String → Text
text s = codes s

-- `except httpx.RequestError`.
unfoldable pub is_request_error : ExnKind → Bool
is_request_error ExnKind.httpx_timeout = true
is_request_error ExnKind.httpx_request = true
is_request_error _ = false

-- `except httpx.HTTPStatusError`.
unfoldable pub is_status_error : ExnKind → Bool
is_status_error (ExnKind.status_error n) = true
is_status_error _ = false

-- `isinstance(exc, (TimeoutError, httpx.TimeoutException))`.
unfoldable pub is_timeout_kind : ExnKind → Bool
is_timeout_kind ExnKind.builtin_timeout = true
is_timeout_kind ExnKind.httpx_timeout = true
is_timeout_kind _ = false

-- `str.lower()` on ASCII letters.
unfoldable pub lower : ℕ → ℕ
lower c = if leb 65 c && leb c 90 then c + 32 else c

-- `_is_timeout` of healing/actions.py.
unfoldable pub is_timeout : Exn → Bool
is_timeout x = is_timeout_kind x.kind || has_infix (text "timed out") (map lower x.message)
