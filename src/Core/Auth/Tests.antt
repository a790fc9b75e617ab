-- ===== src/Core/Auth/Tests.antt =====
-- An instance of the law of the authentication.
use agent_proxy_rust.Common.{String, none, [], ◌∷◌, Table}
use agent_proxy_rust.Core.Auth.{AuthState}

abbrev auth : AuthState
auth = record { proxy_api_key = none; proxy_token = none; proxy_auth_keys = ("k", "coder") ∷ [] }

abbrev headers : Table String
headers = ("authorization", "Bearer k") ∷ []
