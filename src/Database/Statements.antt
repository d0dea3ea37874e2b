-- ===== src/Database/Statements.antt =====
-- src/api/database/handlers.py: requests for other sites, and the pipeline that checks, rewrites
-- and runs a statement. src/db/dialect/transpiler.py, without its cache.
use nexus_gate.Prelude.{
  ℕ, ◌+◌, String, Bool, true, false, not, ◌&&◌, Option, none, some, List, [], ◌∷◌, ◌++◌, map, ◌==◌,
  if◌then◌else◌, contains, lookup, string_eq, length,
}
use nexus_gate.Text.{◌<>◌, strip, split, has_char}
use nexus_gate.Errors.{Result, raise, ok, nexus, index_error, db_query_invalid}
use nexus_gate.Actions.{◌>>=◌, ◌>>◌, continue, pure, lift, gets, modify}
use nexus_gate.Auth.{ServerMode, readwrite, readonly, writeonly, AuthContext}
use nexus_gate.Query.{validate}
use nexus_gate.Filter.{Json, Jsons, nil, cons, seq, obj, Fields, done, field, construct_insert}
use nexus_gate.Webhook.{Event, emit_event}
use nexus_gate.Federation.Proxy.{Request, Response, proxy_request, resolve_server}
use nexus_gate.Database.Pool.{Database, Engine, value}
use nexus_gate.Database.Columns.{TableInfo, ColumnInfo}
use nexus_gate.Database.Pipeline.{Env, Settings, World, Gate, QueryResult, execute, call_engine}

pub data Answer : Type 0 where
  relayed : Response → Answer
  merged : (mesh_nodes : ℕ) → (rows : List Json) → Answer
  query_data : QueryResult → Answer
  affected_rows : Option ℕ → Answer
  tables_page :
      List (TableInfo × List ColumnInfo) → (total limit offset : ℕ) → (has_more : Bool) → Answer
  rows_page : List Fields → (page limit : ℕ) → (total : Option Json) → (has_more : Bool) → Answer

abbrev pub mode_value : ServerMode → String
mode_value readwrite = "readwrite"
mode_value readonly = "readonly"
mode_value writeonly = "writeonly"

abbrev pub items : Jsons → List Json
items nil = []
items (cons item rest) = item ∷ items rest

-- `payload.get("data", payload)`.
abbrev pub get_field : String → Json → Fields → Json
get_field name default done = default
get_field name default (field key val fields) =
    if key == name then val else get_field name default fields

abbrev pub data_block : Json → Json
data_block (obj fields) = get_field "data" (obj fields) fields
data_block payload = payload

abbrev pub block_rows : Json → List Json
block_rows (seq rows) = items rows
block_rows other = []

abbrev pub payload_rows : Option Json → List Json
payload_rows none = []
payload_rows (some payload) = block_rows (data_block payload)

abbrev pub is_read : String → Bool
is_read operations = contains ("select" ∷ "show" ∷ "describe" ∷ []) operations

abbrev pub or_zero : Option ℕ → ℕ
or_zero none = 0
or_zero (some n) = n

module _ (env : Env) (cfg : Settings) where
  unfoldable pub is_federated : String → Gate env Bool
  is_federated alias w =
      if not cfg.federation_enabled
      then (w, ok false)
      else (let (routes, found) = resolve_server cfg.mesh alias w.routes in
          (record w { routes = routes }, ok (elim found [ none ↦ false | some server_id ↦ true ])))

  unfoldable pub forward_to : String → Request → String → Gate env Response
  forward_to path req target w =
      let (st, out) = proxy_request env.http cfg.mesh target path req true (w.routes, w.net) in
      let (routes, net) = st in (record w { routes = routes; net = net }, out)

  -- The rows of the answers, without those that fail or do not read.
  abbrev pub rows_of : Result Response → List Json
  rows_of (raise e) = []
  rows_of (ok resp) = payload_rows (env.loads resp.body)

  -- The requests of a `gather`, one after the other.
  unfoldable pub gather_rows : String → Request → List String → World env → World env × List Json
  unfolding forward_to
  gather_rows path req [] w = (w, [])
  gather_rows path req (target ∷ targets) w =
      let (w', resp) = forward_to path req target w in
      let (w'', rows) = gather_rows path req targets w' in (w'', rows_of resp ++ rows)

  unfoldable pub execute_distributed_query : String → String → Request → Gate env Answer
  unfolding gather_rows split strip has_char
  execute_distributed_query db_name path_segment req w =
      let targets = map strip (split b',' db_name) in
      let (merging, rows) = gather_rows path_segment req targets w in
      let (relaying, resp) = forward_to path_segment req db_name w in
      if has_char b',' db_name
      then (merging, ok (merged (length targets) rows))
      else continue (relaying, resp) (λ r. pure (relayed r))

  abbrev pub event_type : String → String
  event_type action =
      if action == "SELECT" then "read" else if action == "DELETE" then "delete" else "write"

  unfoldable pub emit_db_webhook_event :
      Request → String → String → String → ℕ → Gate env (Unit {0})
  emit_db_webhook_event req db_name table_name action affected w =
      let e : Event = record {
        module_name = "db";
        operation = event_type action;
        resource = db_name;
        target = table_name;
        webhook_token = lookup "x-nexusgate-webhook-token" req.headers;
      } in
      if not cfg.webhook_enabled
      then (w, ok tt)
      else continue
          (
            w,
            emit_event env.tokens cfg.webhooks cfg.hooks e (env.payload e action affected)
                w.webhooks,
          )
          (λ webhooks. modify (λ u. record u { webhooks = webhooks }))

  abbrev pub resolve_target_dialect : String → String
  resolve_target_dialect to_dialect = if to_dialect == "mssql" then "tsql" else to_dialect

  abbrev pub first_statement : Option (List String) → Result String
  first_statement none = raise (nexus db_query_invalid 400)
  first_statement (some []) = raise index_error
  first_statement (some (sql ∷ rest)) = ok sql

  unfoldable pub transpile_sql : String → String → Result String
  transpile_sql sql to_dialect =
      first_statement (env.transpile sql (resolve_target_dialect to_dialect))

  abbrev pub cache_key : String → String → List (String × Json) → String
  cache_key db_name safe_sql params =
      "qc:" <> env.md5 (db_name <> ("|" <> (safe_sql <> ("|" <> env.dumps params))))

  -- The answer that the cache has of a statement that reads, and the writing of one.
  abbrev pub cached_result : ℕ → Bool → String → World env → Option QueryResult
  cached_result now read key w =
      if read && cfg.query_cache_enabled then env.results.get now key w.results else none

  abbrev pub keep_result : ℕ → Bool → String → QueryResult → World env → World env
  keep_result now read key result w =
      if read && cfg.query_cache_enabled
      then record w { results = env.results.put now key result w.results }
      else w

  abbrev pub or_run : Option QueryResult → Gate env QueryResult → Gate env QueryResult
  or_run (some cached) run = pure cached
  or_run none run = run

  unfoldable pub run_query :
      ℕ
      → Engine
      → Database
      → AuthContext
      → Request
      → String
      → String
      → List (String × Json)
      → Gate env QueryResult
  unfolding transpile_sql emit_db_webhook_event
  run_query now engine db_cfg auth req db_name sql params = do
    (safe_sql, operations, target_table) ←
        lift (validate env.glot sql db_cfg.policy (mode_value auth.mode))
    let key = cache_key db_name safe_sql params
    cached ← gets (cached_result now (is_read operations) key)
    or_run cached (do
      transpiled ← lift (transpile_sql safe_sql engine.dialect)
      result ← call_engine env db_name (execute transpiled params)
      emit_db_webhook_event req db_name target_table
          (if is_read operations then "SELECT" else env.glot.upper operations)
          (or_zero result.affected_rows)
      modify (keep_result now (is_read operations) key result)
      pure result)

  -- The statement for the engine's dialect, which need not be rewritten if it is the engine's own.
  abbrev pub native_sql : Engine → Database → String → Result String
  native_sql engine db_cfg safe_sql =
      if value db_cfg.engine == engine.dialect
      then ok safe_sql
      else transpile_sql safe_sql engine.dialect

  unfoldable pub insert_all :
      Engine → Database → AuthContext → String → String → List Fields → ℕ → Gate env ℕ
  unfolding transpile_sql construct_insert
  insert_all engine db_cfg auth db_name table_name [] total = pure total
  insert_all engine db_cfg auth db_name table_name (row ∷ rows) total = do
    let (sql, sql_params) = construct_insert table_name row
    (safe_sql, operations, target_table) ←
        lift (validate env.glot sql db_cfg.policy (mode_value auth.mode))
    transpiled ← lift (native_sql engine db_cfg safe_sql)
    result ← call_engine env db_name (execute transpiled sql_params)
    insert_all engine db_cfg auth db_name table_name rows (total + or_zero result.affected_rows)

  unfoldable pub run_bulk_inserts :
      Engine → Database → AuthContext → Request → String → String → List Fields → Gate env ℕ
  unfolding insert_all
  run_bulk_inserts engine db_cfg auth req db_name table_name rows = do
    total ← insert_all engine db_cfg auth db_name table_name rows 0
    emit_db_webhook_event req db_name table_name "INSERT" total
    pure total
