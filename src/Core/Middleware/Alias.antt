-- ===== src/Core/Middleware/Alias.antt =====
-- `ModelAliasMiddleware` of crates/core/src/middleware.rs.
use agent_proxy_rust.Common.{
  String, Option, none, some, Table, lookup, and_then, is_blank, if◌then◌else◌,
}
use agent_proxy_rust.Core.Error.{Result, ok, err, bad_request, internal, ◌<>◌}
use agent_proxy_rust.Core.Http.{Json}
use agent_proxy_rust.Core.Types.{ProxyRequest}

module _ {V B : Type 0} (j : Json V B) where
  -- The target of the request's model, where it names one that has an alias.
  unfoldable pub alias_target : Table String → V → Option String
  alias_target aliases json = elim (and_then (j.get "model" json) j.as_str) [
    | none ↦ none
    | some model ↦ if is_blank model then none else lookup model aliases
  ]

  -- `on_request` of the alias middleware: the request with the model renamed, and the result.
  unfoldable pub rename_model :
      {H : Type 0} → Table String → ProxyRequest H B → ProxyRequest H B × Result (Unit {0})
  unfolding alias_target
  rename_model aliases req = elim (j.from_slice req.body) [
    | none ↦ (req, err (bad_request ("invalid JSON body: " <> j.from_slice_error req.body)))
    | some json ↦ elim (alias_target aliases json) [
      | none ↦ (req, ok tt)
      | some target ↦
          let renamed = j.set_str "model" target json in
          elim (j.to_vec renamed) [
            | none ↦ (req, err (internal (j.to_vec_error renamed)))
            | some body ↦ (record req { body = body }, ok tt)
          ]
    ]
  ]
