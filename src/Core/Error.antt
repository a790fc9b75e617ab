-- ===== src/Core/Error.antt =====
-- crates/core/src/error.rs: the errors of the proxy and the responses that they become. A chained
-- `anyhow` error is kept as its message. A `Duration` is a number of nanoseconds.
use Prim.Native.String
use agent_proxy_rust.Common.{
  ℕ, String, Option, none, some, if◌then◌else◌, contains, Bool, ◌≡◌, refl,
}

pub data ProxyError : Type 0 where
  upstream : String → ProxyError
  protocol_conversion : String → ProxyError
  channel_selection : String → ProxyError
  compression : String → ProxyError
  bad_request : String → ProxyError
  unauthorized : ProxyError
  rate_limited : ℕ → ProxyError
  circuit_open : String → ProxyError
  internal : String → ProxyError

-- `Result<A, ProxyError>`.
pub data Result {ℓ} (A : Type ℓ) : Type ℓ where
  err : ProxyError → Result A
  ok : A → Result A

-- The `?` operator: an error ends the chain.
module _ {ℓ κ} {A : Type ℓ} {B : Type κ} where
  infixl 5 ◌>>=◌
  abbrev pub ◌>>=◌ : Result A → (A → Result B) → Result B
  err e >>= next = err e
  ok a >>= next = next a

  -- What a successful chain went through.
  pub >>=-eq-ok :
      (r : Result A) (next : A → Result B) {b : B}
      → (r >>= next) ≡ ok b
      → (a : A) × (r ≡ ok a) × (next a ≡ ok b)
  >>=-eq-ok (err e) next h = cc
  >>=-eq-ok (ok a) next h = (a, refl, h)

-- The same where the value is only a sign of success.
infixl 5 ◌>>◌
abbrev pub ◌>>◌ {ℓ} : {A : Type ℓ} → Result (Unit {0}) → Result A → Result A
check >> next = check >>= λ done. next

-- `ok_or_else`.
abbrev pub ok_or {ℓ} : {A : Type ℓ} → ProxyError → Option A → Result A
ok_or e none = err e
ok_or e (some a) = ok a

abbrev pub guard : Bool → ProxyError → Result (Unit {0})
guard b e = if b then ok tt else err e

pub record ErrorBody : Type 0 where
  pub code : String
  pub message : String
  pub detail : Option String

pub record ErrorResponse : Type 0 where
  pub status : ℕ
  pub error : ErrorBody

abbrev pub plain : String → String → ErrorBody
plain code message = record { code = code; message = message; detail = none }

abbrev pub respond : ℕ → ErrorBody → ErrorResponse
respond status body = record { status = status; error = body }

infixr 65 ◌<>◌
abbrev pub ◌<>◌ : String → String → String
s <> t = String.◌++◌ s t

-- The two renderings of a delay, `{secs:.1}` and `{secs:.0}`, are the formatter's.
module _ (tenths wholes : ℕ → String) where
  unfoldable pub to_response : ProxyError → ErrorResponse
  to_response (bad_request msg) = respond 400 (plain "bad_request" msg)
  to_response unauthorized = respond 401 (plain "unauthorized" "invalid proxy API key")
  to_response (rate_limited retry_after) = respond 429 (record {
    code = "rate_limited";
    message = "rate limit exceeded, retry after " <> tenths retry_after <> "s";
    detail = some ("retry_after_seconds: " <> wholes retry_after);
  })
  to_response (upstream source) =
      if contains source "429"
      then respond 429 (plain "upstream_rate_limited" "upstream rate limited")
      else respond 502 (plain "upstream_error" source)
  to_response (protocol_conversion msg) = respond 502 (plain "protocol_conversion" msg)
  to_response (channel_selection model) =
      respond 503 (plain "no_channel" ("no channel available for model '" <> model <> "'"))
  to_response (circuit_open channel) =
      respond 503 (plain "circuit_open" ("circuit breaker open for channel '" <> channel <> "'"))
  to_response (compression msg) = respond 500 (plain "compression_error" msg)
  to_response (internal msg) = respond 500 (plain "internal_error" "internal server error")

unfoldable pub status_code : ProxyError → ℕ
status_code (bad_request msg) = 400
status_code unauthorized = 401
status_code (rate_limited retry_after) = 429
status_code (upstream source) = if contains source "429" then 429 else 502
status_code (protocol_conversion msg) = 502
status_code (circuit_open channel) = 503
status_code (channel_selection model) = 503
status_code (compression msg) = 500
status_code (internal msg) = 500

unfoldable pub error_code : ProxyError → String
error_code (bad_request msg) = "bad_request"
error_code unauthorized = "unauthorized"
error_code (rate_limited retry_after) = "rate_limited"
error_code (upstream source) =
    if contains source "429" then "upstream_rate_limited" else "upstream_error"
error_code (protocol_conversion msg) = "protocol_conversion"
error_code (circuit_open channel) = "circuit_open"
error_code (channel_selection model) = "no_channel"
error_code (compression msg) = "compression_error"
error_code (internal msg) = "internal_error"
