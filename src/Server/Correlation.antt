-- ===== src/Server/Correlation.antt =====
-- `handle_proxy_request` of crates/core/src/server.rs between the making of the context and the request
-- chain: the session and the project of the headers, the report of the session, and the statistics of
-- compression.
use agent_proxy_rust.Common.{
  ℕ, String, Option, none, some, List, [], ◌∷◌, find, and_then, or_else, Table, if◌then◌else◌, ltb,
}
use agent_proxy_rust.Core.Http.{HeaderMap}
use agent_proxy_rust.Core.Types.{
  ConnectionContext, CompressionStats, stats, put, ext_compression_stats,
}
use agent_proxy_rust.Core.Stats.{total_saved}
use agent_proxy_rust.Core.Report.{Outside, TokenlessAccumulator, consume_report}
use agent_proxy_rust.Server.{Headers, is_among}

-- The value of the first header that has one of the names.
abbrev pub header_of : List String → Headers → Option String
header_of names headers = and_then (find (λ h. is_among names h.0) headers) λ h. h.1

module _ {M V : Type 0} where
  abbrev pub with_project : Option String → ConnectionContext M V → ConnectionContext M V
  with_project none ctx = ctx
  with_project (some project) ctx = record ctx { project_path = some project }

  -- The savings of the report go to the context. Its names are those that the headers and the context
  -- do not have.
  unfoldable pub apply_report :
      Option String → Option TokenlessAccumulator → ConnectionContext M V → ConnectionContext M V
  apply_report project none ctx = with_project project ctx
  apply_report project (some acc) ctx =
      with_project (or_else project acc.project_path) (record ctx {
        tokenless_saved_tokens = acc.total_saved;
        tokenless_rtk_saved = acc.rtk_saved;
        tokenless_response_saved = acc.response_saved;
        tokenless_schema_saved = acc.schema_saved;
        tokenless_breakdown_json = some acc.breakdown_json;
        user_name = or_else ctx.user_name acc.user_name;
      })

  abbrev pub of_session :
      Outside
      → (String → Option (List ℕ))
      → Option String
      → Option String
      → Table ℕ
      → ConnectionContext M V
      → Table ℕ × ConnectionContext M V
  of_session out read project none cursors ctx = (cursors, with_project project ctx)
  of_session out read project (some sid) cursors ctx =
      let (cursors', report) = consume_report out read sid cursors in
      (cursors', apply_report project report (record ctx { session_id = some sid }))

  unfoldable pub correlate :
      {H : Type 0}
      → Outside
      → (String → Option (List ℕ))
      → HeaderMap H
      → H
      → Table ℕ
      → ConnectionContext M V
      → Table ℕ × ConnectionContext M V
  correlate out read hm headers =
      of_session out read
        (header_of ("x-claude-code-project-path" ∷ "x-project-path" ∷ []) (hm.iter headers))
        (header_of ("x-claude-code-session-id" ∷ []) (hm.iter headers))

  -- The statistics that the environment has are put in the context where something was saved.
  unfoldable pub inject_stats : CompressionStats → ConnectionContext M V → ConnectionContext M V
  inject_stats measured ctx =
      if ltb 0 (total_saved measured) then put ext_compression_stats (stats measured) ctx else ctx
