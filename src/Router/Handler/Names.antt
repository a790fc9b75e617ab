-- ===== src/Router/Handler/Names.antt =====
-- The router's middleware marks health under the name of a channel, and selects by its id.
use agent_proxy_rust.Common.{ℕ, String, false, ◌≡◌, sym, subst, str_eq, is_blank}
use agent_proxy_rust.Core.Http.{Json, StatusClass, IsStatusClass}
use agent_proxy_rust.Core.Types.{ProxyRequest, ProxyResponse, ConnectionContext, selected_name}
use agent_proxy_rust.Router.Billing.{PricingJson}
use agent_proxy_rust.Router.Select.{Candidate, RouterState, Env, is_healthy}
use agent_proxy_rust.Router.Handler.{SelectedMappingInfo, on_response}
use agent_proxy_rust.Router.Handler.Laws.{Sent}
use agent_proxy_rust.Router.Handler.Marks.{on_response-health}

module _ {F V H B : Type 0} (j : Json V B) (pj : PricingJson F) (describe : Candidate F → String)
    (st : RouterState F) (c : Candidate F) where
  Sent-name :
      (body : V) (req req' : ProxyRequest H B) (ctx' : ConnectionContext (SelectedMappingInfo F) V)
      → Sent j pj describe st c body req req' ctx'
      → selected_name ctx' ≡ c.0.channel_name
  Sent-name body req req' ctx' s = rw (selected_name, s.channel_set)

  -- A channel whose id is not its name keeps its health whatever its responses are: none of them
  -- counts in the next selections.
  pub on_response_unnoticed :
      (sc : StatusClass) (body : V) (req req' : ProxyRequest H B)
      (ctx' : ConnectionContext (SelectedMappingInfo F) V) (env : Env) (res : ProxyResponse H B)
      (now : RouterState F) (later : ℕ)
      → IsStatusClass sc
      → Sent j pj describe st c body req req' ctx'
      → is_blank c.0.channel_name ≡ false
      → str_eq c.0.channel_name c.0.channel_id ≡ false
      → is_healthy (on_response j sc env res ctx' now).0 later c.0.channel_id
        ≡ is_healthy now later c.0.channel_id
  on_response_unnoticed sc body req req' ctx' env res now later laws s named differs =
      let name = Sent-name body req req' ctx' s in
      (on_response-health sc laws j env res ctx' now later
          (subst (λ n. is_blank n ≡ false) (sym name) named)).1
        c.0.channel_id (subst (λ n. str_eq n c.0.channel_id ≡ false) (sym name) differs)
