-- ===== src/Core/Auth.antt =====
-- crates/core/src/auth.rs: the authentication of the requests to the proxy. A secret is its text; the
-- role that a key is mapped to is the result of a request that passes.
pub mod Laws
mod Tests
use agent_proxy_rust.Common.{
  String, Option, none, some, Bool, true, false, not, ◌||◌, if◌then◌else◌, str_eq, is_some,
  is_empty, strip_prefix, and_then, Table, lookup,
}
use agent_proxy_rust.Core.Http.{HeaderMap}

pub record AuthState : Type 0 where
  pub proxy_api_key : Option String
  pub proxy_token : Option String
  -- The role of each key.
  pub proxy_auth_keys : Table String

unfoldable pub has_auth : AuthState → Bool
has_auth auth =
    is_some auth.proxy_api_key || is_some auth.proxy_token || not (is_empty auth.proxy_auth_keys)

-- How the middleware ends: the request goes on, with a role or without, or it is answered with 401.
pub data Verdict : Type 0 where
  passed : Option String → Verdict
  unauthorized : Verdict

abbrev pub same_text : Option String → String → Bool
same_text none expected = false
same_text (some provided) expected = str_eq provided expected

module _ {H : Type 0} (hm : HeaderMap H) where
  abbrev pub bearer : H → Option String
  bearer headers = and_then (hm.get "authorization" headers) λ v. strip_prefix v "Bearer "

  abbrev pub key_or : Option String → Option String → Option String
  key_or (some key) other = some key
  key_or none other = other

  unfoldable pub extract_api_key : H → Option String
  extract_api_key headers = key_or (hm.get "x-api-key" headers) (bearer headers)

  -- Role mapping.
  abbrev pub role_verdict : Option String → Verdict
  role_verdict none = unauthorized
  role_verdict (some role) = passed (some role)

  abbrev pub accept : Bool → Verdict
  accept b = if b then passed none else unauthorized

  -- The simple modes: the key before the token.
  abbrev pub simple_modes : Option String → Option String → H → Verdict
  simple_modes (some expected) token headers = accept (same_text (bearer headers) expected)
  simple_modes none (some expected) headers =
      accept (same_text (hm.get "x-proxy-token" headers) expected)
  simple_modes none none headers = passed none

  unfoldable pub auth_middleware : AuthState → H → Verdict
  auth_middleware auth headers =
      if not (has_auth auth)
      then passed none
      else if not (is_empty auth.proxy_auth_keys)
      then role_verdict (and_then (extract_api_key headers) λ key. lookup key auth.proxy_auth_keys)
      else simple_modes auth.proxy_api_key auth.proxy_token headers
