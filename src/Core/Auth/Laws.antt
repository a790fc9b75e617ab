-- ===== src/Core/Auth/Laws.antt =====
-- Who passes the authentication.
use agent_proxy_rust.Common.{◌≡◌, String, Option, none, some, true, is_empty, lookup}
use agent_proxy_rust.Core.Http.{HeaderMap}
use agent_proxy_rust.Core.Auth.{AuthState, extract_api_key, bearer}

module _ {H : Type 0} (hm : HeaderMap H) where
  -- What a request that passes must have shown.
  abbrev pub Shown : AuthState → H → Option String → Type 0
  Shown auth headers (some role) =
      (key : String) × (extract_api_key hm headers ≡ some key)
      × (lookup key auth.proxy_auth_keys ≡ some role)
  Shown auth headers none =
      (is_empty auth.proxy_auth_keys ≡ true)
      × ((key : String) → auth.proxy_api_key ≡ some key → bearer hm headers ≡ some key)
      × ((token : String)
          → auth.proxy_api_key ≡ none
          → auth.proxy_token ≡ some token
          → hm.get "x-proxy-token" headers ≡ some token)
