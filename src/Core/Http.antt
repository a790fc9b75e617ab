-- ===== src/Core/Http.antt =====
-- What the proxy takes from the crates `http`, `bytes` and `serde_json`: status codes as numbers
-- with their classes, header maps, bodies, and parsed JSON values. None of it is under the
-- repository, so each is a record of operations that the code is written over.
use agent_proxy_rust.Common.{ℕ, ◌≡◌, String, Option, Bool, ◌&&◌, List, leb, ltb}

-- `http::StatusCode`, a number from 100 to 999.
pub record StatusClass : Type 0 where
  pub is_server_error : ℕ → Bool
  pub is_client_error : ℕ → Bool

-- What the crate documents of the two tests.
pub record IsStatusClass (c : StatusClass) : Type 0 where
  pub server_range : (s : ℕ) → c.is_server_error s ≡ (leb 500 s && ltb s 600)
  pub client_range : (s : ℕ) → c.is_client_error s ≡ (leb 400 s && ltb s 500)

-- `http::HeaderMap`. A value reads as `none` where `to_str` fails.
pub record HeaderMap (H : Type 0) : Type 0 where
  pub get : String → H → Option String
  pub contains_key : String → H → Bool
  pub iter : H → List (String × Option String)

-- `serde_json::Value` over bodies `B`. A refusal carries the message of the error.
pub record Json (V B : Type 0) : Type 0 where
  pub from_slice : B → Option V
  pub from_slice_error : B → String
  pub to_vec : V → Option B
  pub to_vec_error : V → String
  pub get : String → V → Option V
  pub as_str : V → Option String
  pub as_u64 : V → Option ℕ
  pub as_bool : V → Option Bool
  -- `v[key] = String(text)`
  pub set_str : String → String → V → V
  pub body_len : B → ℕ
