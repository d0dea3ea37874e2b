-- ===== src/Database/Pipeline.antt =====
-- src/api/database/handlers.py: the calls of engines behind the caches, the forwarding to other
-- sites, and the pipeline of a statement.
use nexus_gate.Prelude.{
  ℕ, String, Bool, not, ◌||◌, Option, none, some, List, contains, lookup, insert, string_eq,
}
use nexus_gate.Text.{◌<>◌}
use nexus_gate.Errors.{Result, nexus, key_error, driver_error, auth_scope_denied, db_not_found}
use nexus_gate.Auth.{AuthContext}
use nexus_gate.Actions.{Action, ◌>>=◌, ◌>>◌, pure, fail, gets, modify, raise_when}
use nexus_gate.Query.{Sqlglot}
use nexus_gate.Filter.{Json, Fields}
use nexus_gate.RateLimit.Memory.{TtlCache}
use nexus_gate.Webhook.{TokenCrypto, WebhookConfig, Hook, Event, Webhooks}
use nexus_gate.Federation.Proxy.{Http, Mesh, Routes}
use nexus_gate.Database.Pool.{Database, Engine, instantiate_engine}
use nexus_gate.Database.Columns.{ColumnInfo, TableInfo}

-- What is read of the settings and of the flags that are made of them.
pub record Settings : Type 0 where
  pub server_workers : ℕ
  pub database : List (String × Database)
  pub mesh : Mesh
  pub federation_enabled : Bool
  pub webhook_enabled : Bool
  pub query_cache_enabled : Bool
  pub webhooks : WebhookConfig
  pub hooks : List (String × Hook)

pub record QueryResult : Type 0 where
  pub columns : Option (List String)
  pub rows : Option (List Fields)
  pub affected_rows : Option ℕ

-- What one asks an engine; the engine is the one that the pool holds for the alias.
pub data Call : Type 0 where
  connect : Database → Call
  list_tables : Call
  describe_table : (table : String) → Call
  execute : (sql : String) → (params : List (String × Json)) → Call

abbrev pub Answered : Call → Type 0
Answered (connect cfg) = Unit {0}
Answered list_tables = List TableInfo
Answered (describe_table table) = List ColumnInfo
Answered (execute sql params) = QueryResult

-- The parts outside the repository. `transpile` is `none` for a `ParseError`; `dumps` writes the
-- parameters of a statement as sorted JSON; `payload` writes an event out.
pub record Env : Type 1 where
  pub glot : Sqlglot
  pub Databases : Type 0
  pub ask : String → (call : Call) → Databases → Databases × Result (Answered call)
  pub transpile : String → String → Option (List String)
  pub loads : String → Option Json
  pub dumps : List (String × Json) → String
  pub md5 : String → String
  pub exceeds : ℕ → Json → Option Bool
  pub http : Http
  pub tokens : TokenCrypto
  pub payload : Event → String → ℕ → String
  -- The keys of the cache have a prefix for each kind of value, so each kind has its own here.
  pub tables : TtlCache (List TableInfo)
  pub columns : TtlCache (List ColumnInfo)
  pub results : TtlCache QueryResult

abbrev pub has_scope : List String → String → Bool
has_scope scope name = contains scope "*" || contains scope name

module _ (env : Env) where
  pub record World : Type 0 where
    pub databases : env.Databases
    pub engines : List (String × Engine)
    pub tables : env.tables.Cache
    pub columns : env.columns.Cache
    pub results : env.results.Cache
    pub routes : Routes
    pub net : env.http.Net
    pub webhooks : Webhooks

  abbrev pub Gate : Type 0 → Type 0
  Gate A = Action World A

  -- `engine.connect()`, `engine.execute(…)` and so on, of the engine for an alias.
  abbrev pub call_engine : String → (call : Call) → Gate (Answered call)
  call_engine alias call w =
      let (databases, r) = env.ask alias call w.databases in (record w { databases = databases }, r)

module _ (env : Env) (cfg : Settings) where
  abbrev pub start_engine : String → Database → Option Engine → Gate env (Option Engine)
  start_engine alias db_config none = fail driver_error
  start_engine alias db_config (some engine) = do
    call_engine env alias (connect engine.config)
    modify (λ w. record w { engines = insert alias engine w.engines })
    pure (some engine)

  abbrev pub configured_engine : String → Option Database → Gate env (Option Engine)
  configured_engine alias none = pure none
  configured_engine alias (some db_config) =
      start_engine alias db_config (instantiate_engine cfg.server_workers db_config)

  abbrev pub pooled_engine : String → Option Engine → Gate env (Option Engine)
  pooled_engine alias (some engine) = pure (some engine)
  pooled_engine alias none = configured_engine alias (lookup alias cfg.database)

  unfoldable pub get_engine : String → Gate env (Option Engine)
  get_engine alias = do pooled_engine alias (← gets (λ w. lookup alias w.engines))

  abbrev pub engine_found : Option Engine → Gate env Engine
  engine_found none = fail (nexus db_not_found 404)
  engine_found (some engine) = pure engine

  -- `config.database[db_name]`.
  abbrev pub config_of : Option Database → Gate env Database
  config_of none = fail key_error
  config_of (some db_config) = pure db_config

  unfoldable pub get_db_engine : String → AuthContext → Gate env (Engine × Database)
  unfolding get_engine
  get_db_engine db_name auth = do
    raise_when (not (has_scope auth.db_scope db_name)) auth_scope_denied 403
    engine ← engine_found (← get_engine db_name)
    db_cfg ← config_of (lookup db_name cfg.database)
    pure (engine, db_cfg)

  -- `_get_cached_tables` and `_get_cached_columns`.
  abbrev pub tables_or_fetch : ℕ → String → Option (List TableInfo) → Gate env (List TableInfo)
  tables_or_fetch now db_name (some tables) = pure tables
  tables_or_fetch now db_name none = do
    tables ← call_engine env db_name list_tables
    modify (λ w. record w {
      tables = env.tables.put now ("schema:tables:" <> db_name) tables w.tables;
    })
    pure tables

  unfoldable pub get_cached_tables : ℕ → String → Gate env (List TableInfo)
  get_cached_tables now db_name = do
    tables_or_fetch now db_name
        (← gets (λ w. env.tables.get now ("schema:tables:" <> db_name) w.tables))

  abbrev pub columns_key : String → String → String
  columns_key db_name table_name = "schema:cols:" <> (db_name <> (":" <> table_name))

  abbrev pub columns_or_fetch :
      ℕ → String → String → Option (List ColumnInfo) → Gate env (List ColumnInfo)
  columns_or_fetch now db_name table_name (some columns) = pure columns
  columns_or_fetch now db_name table_name none = do
    columns ← call_engine env db_name (describe_table table_name)
    modify (λ w. record w {
      columns = env.columns.put now (columns_key db_name table_name) columns w.columns;
    })
    pure columns

  unfoldable pub get_cached_columns : ℕ → String → String → Gate env (List ColumnInfo)
  get_cached_columns now db_name table_name = do
    columns_or_fetch now db_name table_name
        (← gets (λ w. env.columns.get now (columns_key db_name table_name) w.columns))
