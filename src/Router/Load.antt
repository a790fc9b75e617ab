-- ===== src/Router/Load.antt =====
-- crates/model-router/src/lib.rs: the channels that the router loads from the storage, at its start
-- (`from_storage`) and when an admin call asks for it (`reload_channels_from_storage`), where the same
-- loop is written twice. What the storage answers to the reads is an interface; `parse_list` and
-- `parse_protocols` are `serde_json` on lists of texts and of protocols, and `print` is the text of a
-- storage error.
pub mod Laws
use agent_proxy_rust.Common.{
  ℕ, String, Option, none, some, Bool, true, not, List, [], ◌∷◌, map, if◌then◌else◌, is_blank,
  is_empty, get_or, keep_if, keep, trim_slashes, Table, insert,
}
use agent_proxy_rust.Core.Error.{Result, ok, err, internal, ◌>>=◌}
use agent_proxy_rust.Storage.Types.{Channel, ModelMapping, StorageError}
use agent_proxy_rust.Storage.Sql.{Outcome, failed, done}
use agent_proxy_rust.Router.Billing.{
  PricingJson, ChannelBilling, from_storage as billing_from_storage,
}
use agent_proxy_rust.Router.Protocol.{ProtocolEntry}
use agent_proxy_rust.Router.Select.{ResolvedChannel, ResolvedMapping, RouterState}

-- The reads of `Storage` that the router makes, as they are answered during one load.
pub record ChannelReads : Type 0 where
  pub list_channels : Outcome (List Channel)
  pub list_mappings : String → Outcome (List ModelMapping)

pub record LoadJson (F : Type 0) : Type 0 where
  pub prices : PricingJson F
  pub parse_protocols : String → Option (List ProtocolEntry)
  pub parse_list : String → Option (List String)
  pub print : StorageError → String

-- `map_err(|e| ProxyError::Internal(e.into()))`.
abbrev pub or_internal : {A : Type 0} → (StorageError → String) → Outcome A → Result A
or_internal print (failed e) = err (internal (print e))
or_internal print (done a) = ok a

unfoldable pub normalize_entry : ProtocolEntry → ProtocolEntry
normalize_entry p = record p {
  base_url = trim_slashes p.base_url;
  rewrite_path = keep_if (λ path. not (is_blank path)) p.rewrite_path;
}

module _ {F : Type 0} (json : LoadJson F) where
  abbrev pub add_mapping :
      Option (ChannelBilling F) → ModelMapping → List (ResolvedMapping F) → List (ResolvedMapping F)
  add_mapping none m rest = rest
  add_mapping (some billing) m rest =
      record {
        mapping_id = m.id;
        client_name = m.client_name;
        upstream_name = m.upstream_name;
        billing = billing;
        allowed_protocols = get_or [] (json.parse_list m.protocols);
      }
      ∷ rest

  -- `filter_map`: a mapping whose billing does not parse is dropped.
  unfoldable pub resolve_mappings : List ModelMapping → List (ResolvedMapping F)
  resolve_mappings [] = []
  resolve_mappings (m ∷ ms) =
      add_mapping (billing_from_storage json.prices m.billing m.pricing_json) m
        (resolve_mappings ms)

  abbrev pub resolve_channel : Channel → List ProtocolEntry → List ModelMapping → ResolvedChannel F
  resolve_channel ch protocols ms = record {
    channel_id = ch.id;
    channel_name = ch.name;
    api_key = ch.api_key;
    protocols = map normalize_entry protocols;
    enabled = ch.enabled;
    force_protocol = ch.force_protocol;
    priority = ch.priority;
    mappings = resolve_mappings (keep (λ m. m.enabled) ms);
  }

  abbrev pub protocols_of : Channel → List ProtocolEntry
  protocols_of ch = get_or [] (json.parse_protocols ch.protocols)

  -- The loop: a channel without protocols is skipped, and its mappings are not read.
  unfoldable pub load_each :
      (String → Outcome (List ModelMapping)) → List Channel → Result (List (ResolvedChannel F))
  load_each mappings [] = ok []
  load_each mappings (ch ∷ chs) =
      let rest = load_each mappings chs in
      if is_empty (protocols_of ch)
      then rest
      else or_internal json.print (mappings ch.id) >>= λ ms.
          rest >>= λ loaded. ok (resolve_channel ch (protocols_of ch) ms ∷ loaded)

  unfoldable pub load_channels : ChannelReads → Result (List (ResolvedChannel F))
  load_channels reads = or_internal json.print reads.list_channels >>= load_each reads.list_mappings

  -- The keys of the loaded channels that have one.
  unfoldable pub api_keys : List (ResolvedChannel F) → Table String → Table String
  api_keys [] table = table
  api_keys (ch ∷ chs) table =
      api_keys chs (if is_blank ch.api_key then table else insert ch.channel_id ch.api_key table)

  -- A router starts with the keys of its channels, and without health and usage.
  abbrev pub start_router : List (ResolvedChannel F) → RouterState F
  start_router chs = record {
    channels = chs;
    health = [];
    quota_usage = [];
    channel_api_keys = api_keys chs [];
  }

  unfoldable pub from_storage : ChannelReads → Result (RouterState F)
  from_storage reads = load_channels reads >>= λ chs. ok (start_router chs)

  -- What the swap holds after a reload, and whether it was one.
  abbrev pub swapped :
      Result (List (ResolvedChannel F))
      → List (ResolvedChannel F)
      → List (ResolvedChannel F) × Result (Unit {0})
  swapped (err e) old = (old, err e)
  swapped (ok loaded) old = (loaded, ok tt)

  unfoldable pub reload_channels_from_storage :
      ChannelReads → List (ResolvedChannel F) → List (ResolvedChannel F) × Result (Unit {0})
  reload_channels_from_storage reads old = swapped (load_channels reads) old
