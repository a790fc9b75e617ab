-- ===== src/App/Admin/Answers.antt =====
-- The state of the admin API, its errors and its answers.
use agent_proxy_rust.Core.Error.{◌<>◌}
use agent_proxy_rust.Core.Float.{Float}
use agent_proxy_rust.Common.{ℕ, String, Option, none, some, Bool, List, Table}
use agent_proxy_rust.Storage.Types.{
  StorageError, backend, not_found, duplicate, connection, migration,
}
use agent_proxy_rust.Storage.Sql.{Outcome, failed, done, Conn}
use agent_proxy_rust.Storage.Db.{Db}
use agent_proxy_rust.Storage.Channels.{list_channels}
use agent_proxy_rust.Storage.Mappings.{list_mappings}
use agent_proxy_rust.Router.Health.{ChannelState}
use agent_proxy_rust.Router.Select.{ResolvedChannel}
use agent_proxy_rust.Router.Load.{LoadJson, ChannelReads, reload_channels_from_storage}
use agent_proxy_rust.App.Probe.{ProbeRequest, Answer}

pub record AdminState (F : Type 0) : Type 0 where
  pub db : Db F
  pub health_map : Table ChannelState
  pub api_key_map : Table String
  pub compress_enabled : Bool
  pub channels : List (ResolvedChannel F)

pub record Call : Type 0 where
  pub conn : ℕ → Conn
  pub mapping_conn : String → Conn
  pub now : ℕ
  pub later : String
  pub instant : ℕ

-- What is not the program's: `f64`, the JSON reader, the HTTP client, and the formatter of a list.
pub record Outside (F : Type 0) : Type 0 where
  pub float : Float F
  pub json : LoadJson F
  pub client : ProbeRequest → Answer
  pub json_error : String → String
  pub print_list : List String → String

pub record AppError : Type 0 where
  pub status : ℕ
  pub code : String
  pub message : String

pub data ApiResult (A : Type 0) : Type 0 where
  refused : AppError → ApiResult A
  json : A → ApiResult A

abbrev pub app_error : ℕ → String → String → AppError
app_error status code message = record { status = status; code = code; message = message }

unfoldable pub not_found_error : String → AppError
not_found_error resource = app_error 404 "not_found" (resource <> " not found")

-- `Display` of a storage error.
unfoldable pub storage_message : StorageError → String
storage_message (backend m) = "backend error: " <> m
storage_message (not_found m) = "not found: " <> m
storage_message (duplicate m) = "duplicate: " <> m
storage_message (connection m) = "connection error: " <> m
storage_message (migration m) = "migration error: " <> m

-- `From<StorageError>`.
unfoldable pub storage_error : StorageError → AppError
storage_error e = app_error 500 "internal_error" (storage_message e)

-- The `map_err` of the handlers that know a missing resource.
unfoldable pub or_missing : String → StorageError → AppError
or_missing resource (not_found m) = not_found_error resource
or_missing resource e = storage_error e

module _ {F : Type 0} where
  abbrev pub with_db : AdminState F → Db F → AdminState F
  with_db st db = record st { db = db }

  abbrev pub reads_of : Call → Db F → ChannelReads
  reads_of call db = record {
    list_channels = (list_channels (call.conn 9) none db).1;
    list_mappings = λ id. (list_mappings (call.mapping_conn id) id db).1;
  }

  -- `reload_channels`: an error is only logged.
  unfoldable pub reload_channels : Outside F → Call → AdminState F → AdminState F
  reload_channels out call st = record st {
    channels = (reload_channels_from_storage out.json (reads_of call st.db) st.channels).0;
  }

  -- The `?` on a storage call with the errors that `describe` makes.
  abbrev pub try_storage :
      {A B : Type 0}
      → (StorageError → AppError)
      → AdminState F
      → Db F × Outcome A
      → (AdminState F → A → AdminState F × ApiResult B)
      → AdminState F × ApiResult B
  try_storage describe st (db, failed e) next = (with_db st db, refused (describe e))
  try_storage describe st (db, done a) next = next (with_db st db) a

  -- `ok_or_else` of an absent resource.
  abbrev pub found :
      {A B : Type 0}
      → String
      → AdminState F
      → Option A
      → (A → AdminState F × ApiResult B)
      → AdminState F × ApiResult B
  found resource st none next = (st, refused (not_found_error resource))
  found resource st (some a) next = next a
