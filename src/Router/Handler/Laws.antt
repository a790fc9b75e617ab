-- ===== src/Router/Handler/Laws.antt =====
-- What a request that the router passes on looks like.
use agent_proxy_rust.Common.{
  String, Option, some, true, ◌≡◌, refl, subst, inl, inr, is_blank, is_empty, Bool-cases,
  Option-cases, lookup-insert,
}
use agent_proxy_rust.Core.Error.{ok, ok_or, >>=-eq-ok}
use agent_proxy_rust.Core.Http.{Json}
use agent_proxy_rust.Core.Types.{
  ProxyRequest, ConnectionContext, channel, mapping, put, read, as_channel, as_mapping,
  ext_selected_channel, ext_selected_mapping, ApiFormat,
}
use agent_proxy_rust.Router.Billing.{PricingJson}
use agent_proxy_rust.Router.Protocol.{
  resolve_target_protocol, resolve_upstream_url, compatible_protocol,
}
use agent_proxy_rust.Router.Protocol.Laws.{
  Served, Admits, Addressed, resolve_target_protocol-Served, resolve_upstream_url-Addressed,
  compatible_protocol-Served, ok_or-eq-ok, ok-injective,
}
use agent_proxy_rust.Router.Select.{
  Candidate, RouterState, Env, find_candidates, select_channel, is_usable,
}
use agent_proxy_rust.Router.Select.Candidates.{Offers, find_candidates_iff}
use agent_proxy_rust.Router.Select.Choice.{select_channel_sound}
use agent_proxy_rust.Router.Handler.{
  SelectedMappingInfo, selected_info, channel_config, model_of, route, on_body, on_request,
}

-- The context that `route` makes.
abbrev pub routed_context :
    {F V : Type 0}
    → PricingJson F
    → RouterState F
    → Candidate F
    → ApiFormat
    → String × Option String
    → ConnectionContext (SelectedMappingInfo F) V
    → ConnectionContext (SelectedMappingInfo F) V
routed_context pj st c target address ctx =
    put ext_selected_mapping (mapping (selected_info pj c)) (
      put ext_selected_channel (channel (channel_config st c.0 target address))
        (record ctx { target_protocol = some target }))

module _ {F V H B : Type 0} (j : Json V B) (pj : PricingJson F) (describe : Candidate F → String)
    (st : RouterState F) where
  -- The request and the context that the router makes for a candidate.
  pub record Sent (c : Candidate F) (body : V) (req req' : ProxyRequest H B)
      (ctx' : ConnectionContext (SelectedMappingInfo F) V) : Type 0 where
    pub target : ApiFormat
    pub address : String × Option String
    pub served : Served c.0.protocols target
    pub admitted : Admits c.1.allowed_protocols target
    pub addressed : Addressed c.0.protocols target address
    pub protocol_set : ctx'.target_protocol ≡ some target
    pub channel_set :
        read as_channel ext_selected_channel ctx' ≡ some (channel_config st c.0 target address)
    pub mapping_set : read as_mapping ext_selected_mapping ctx' ≡ some (selected_info pj c)
    pub renamed : j.to_vec (j.set_str "model" c.1.upstream_name body) ≡ some req'.body
    pub kept : (req'.path ≡ req.path) × (req'.method ≡ req.method) × (req'.headers ≡ req.headers)

  made-Sent :
      (c : Candidate F) (body : V) (req : ProxyRequest H B)
      (ctx : ConnectionContext (SelectedMappingInfo F) V) (new_body : B) (target : ApiFormat)
      (address : String × Option String)
      → j.to_vec (j.set_str "model" c.1.upstream_name body) ≡ some new_body
      → Served c.0.protocols target × Admits c.1.allowed_protocols target
      → Addressed c.0.protocols target address
      → Sent c body req (record req { body = new_body }) (routed_context pj st c target address ctx)
  made-Sent c body req ctx new_body target address printed (served, admitted) addressed = record {
    target = target;
    address = address;
    served = served;
    admitted = admitted;
    addressed = addressed;
    protocol_set = refl;
    channel_set = simp (lookup-insert);
    mapping_set = simp (lookup-insert);
    renamed = printed;
    kept = (refl, refl, refl);
  }

  route-Sent :
      (c : Candidate F) (body : V) (req : ProxyRequest H B)
      (ctx : ConnectionContext (SelectedMappingInfo F) V) {req' : ProxyRequest H B}
      {ctx' : ConnectionContext (SelectedMappingInfo F) V}
      → route j pj describe st c body req ctx ≡ ok (req', ctx')
      → Sent c body req req' ctx'
  unfolding route
  route-Sent (ch, m) body req ctx {req'} {ctx'} h =
      let (new_body, printed, h1) =
        >>=-eq-ok (ok_or _ (j.to_vec (j.set_str "model" m.upstream_name body))) _ h in
      let (resolved, first_choice, h2) =
        >>=-eq-ok (resolve_target_protocol ch.force_protocol ctx.detected_format ch.protocols) _
          h1 in
      let (target, compatible, h3) =
        >>=-eq-ok (compatible_protocol (describe (ch, m)) m.allowed_protocols ch.protocols resolved)
          _ h2 in
      let (address, found, made) = >>=-eq-ok (resolve_upstream_url target ch.protocols) _ h3 in
      let (served, admitted, unchanged) =
        compatible_protocol-Served _ m.allowed_protocols ch.protocols resolved target
          (resolve_target_protocol-Served _ _ _ _ first_choice).0 compatible in
      let it =
        made-Sent (ch, m) body req ctx new_body target address (ok_or-eq-ok _ _ printed)
          (served, admitted) (resolve_upstream_url-Addressed ch.protocols target address found) in
      subst (λ p. Sent (ch, m) body req p.0 p.1) (ok-injective made) it

  -- A request that is passed on goes to a channel that is on and usable, by one of its mappings for
  -- the model of the body.
  pub record Routed (env : Env) (req req' : ProxyRequest H B)
      (ctx' : ConnectionContext (SelectedMappingInfo F) V) : Type 0 where
    pub body : V
    pub parsed : j.from_slice req.body ≡ some body
    pub choice : Candidate F
    pub offered : Offers st.channels (model_of j body) choice
    pub usable : is_usable st env.now choice ≡ true
    pub sent : Sent choice body req req' ctx'

  on_body-Routed :
      (env : Env) (body : V) (req : ProxyRequest H B)
      (ctx : ConnectionContext (SelectedMappingInfo F) V) {req' : ProxyRequest H B}
      {ctx' : ConnectionContext (SelectedMappingInfo F) V}
      → j.from_slice req.body ≡ some body
      → (on_body j pj describe st env body req ctx).1 ≡ ok (req', ctx')
      → Routed env req req' ctx'
  unfolding on_body
  on_body-Routed env body req ctx parsed h = elim (Bool-cases (is_blank (model_of j body))) [
    | inl blank ↦ cc (rw blank at h)
    | inr named ↦ elim (Bool-cases (is_empty (find_candidates st.channels (model_of j body)))) [
      | inl nobody ↦ cc (rw (named, nobody) at h)
      | inr some_one ↦
          let cs = find_candidates st.channels (model_of j body) in
          let (c, picked, sent) =
            >>=-eq-ok (select_channel env st cs (model_of j body)).1 _
              (rw (named, some_one) at h) in
          let (m, u) = select_channel_sound env st cs (model_of j body) c picked in
          record {
            body = body;
            parsed = parsed;
            choice = c;
            offered = (find_candidates_iff st.channels (model_of j body) c).0 m;
            usable = u;
            sent = route-Sent c body req ctx sent;
          }
    ]
  ]

  -- Every request that the router passes on is sent to a channel that is enabled, has a key and is
  -- healthy or past its cooldown, by a mapping of that channel for the model of the body. The target
  -- protocol is one that the channel serves and the mapping admits, the address is the one of the
  -- channel's entry for it and not empty, the new body is the old one with the upstream's model
  -- name, and the context holds the channel and the mapping for the later middlewares.
  pub on_request-Routed :
      (env : Env) (req : ProxyRequest H B) (ctx : ConnectionContext (SelectedMappingInfo F) V)
      {req' : ProxyRequest H B} {ctx' : ConnectionContext (SelectedMappingInfo F) V}
      → (on_request j pj describe st env req ctx).1 ≡ ok (req', ctx')
      → Routed env req req' ctx'
  unfolding on_request
  on_request-Routed env req ctx h = elim (Option-cases (j.from_slice req.body)) [
    | inl broken ↦ cc (rw (on_request, broken) at h)
    | inr (body, parsed) ↦ on_body-Routed env body req ctx parsed (rw (on_request, parsed) at h)
  ]
