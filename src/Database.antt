-- ===== src/Database.antt =====
-- src/api/database/handlers.py: the handlers of one database. The check of the columns, the pool of
-- engines, the caches and the pipeline of a statement are in the modules below.
pub mod Pool
pub mod Columns
pub mod Pipeline
pub mod Statements
pub mod Calls
pub mod Runs
pub mod Authorized
pub mod Outcomes
use nexus_gate.Prelude.{
  ℕ, zero, suc, ◌+◌, ◌*◌, String, Bool, true, false, not, ◌&&◌, Option, none, some, List, [], ◌∷◌,
  ◌==◌, if◌then◌else◌, ltb, leb, length, take,
}
use nexus_gate.Text.{◌<>◌, truthy}
use nexus_gate.Errors.{
  ErrorCode, Error, Result, raise, ok, nexus, type_error, index_error, key_error,
  auth_insufficient_mode, input_schema_invalid, db_query_failed,
}
use nexus_gate.Actions.{Action, ◌>>=◌, ◌>>◌, continue, pure, fail, lift, raise_when}
use nexus_gate.Auth.{ServerMode, readwrite, readonly, writeonly, AuthContext}
use nexus_gate.Filter.{Json, Fields, done, field, construct_update, construct_delete}
use nexus_gate.Federation.Proxy.{Request}
use nexus_gate.Database.Pool.{Database, Engine}
use nexus_gate.Database.Columns.{
  ColumnInfo, TableInfo, FetchRowsParams, check_columns, construct_select_rest_payload,
  given_filter,
}
use nexus_gate.Database.Pipeline.{
  Env, Settings, World, Gate, QueryResult, get_db_engine, get_cached_tables, get_cached_columns,
}
use nexus_gate.Database.Statements.{
  Answer, query_data, affected_rows, tables_page, rows_page, is_federated,
  execute_distributed_query, run_query, run_bulk_inserts,
}

-- What a client asks of a database, with the body that pydantic has read. Of the rows the parameter
-- `count=1` asks for their number.
pub data Operation : Type 0 where
  list_tables : (limit offset : ℕ) → Operation
  execute_query : (sql : String) → (params : List (String × Json)) → Operation
  get_rows : (table_name : String) → FetchRowsParams → (count : Bool) → Operation
  insert_rows :
      (table_name : String) → (rows : Option (List Fields)) → (row : Option Fields) → Operation
  update_rows : (table_name : String) → (update filter : Fields) → Operation
  delete_rows : (table_name : String) → (filter : Fields) → Operation

abbrev pub is_readonly : ServerMode → Bool
is_readonly readonly = true
is_readonly other = false

abbrev pub is_writeonly : ServerMode → Bool
is_writeonly writeonly = true
is_writeonly other = false

-- `except NexusGateException: raise` and `except Exception as e: raise …`.
abbrev pub as_query_failed : {A : Type 0} → Result A → Result A
as_query_failed (ok a) = ok a
as_query_failed (raise (nexus code status)) = raise (nexus code status)
as_query_failed (raise other) = raise (nexus db_query_failed 500)

abbrev pub skip : {A : Type 0} → ℕ → List A → List A
skip zero xs = xs
skip (suc n) [] = []
skip (suc n) (x ∷ xs) = skip n xs

-- `body.rows if body.rows is not None else ([body.row] if body.row else [])`.
abbrev pub target_rows : Option (List Fields) → Option Fields → List Fields
target_rows (some rows) row = rows
target_rows none none = []
target_rows none (some done) = []
target_rows none (some row) = row ∷ []

abbrev pub rows_in : QueryResult → Result (List Fields)
rows_in data_ = elim data_.rows [ none ↦ raise type_error | some rows ↦ ok rows ]

abbrev pub field_in : String → Fields → Result Json
field_in name done = raise key_error
field_in name (field key val fields) = if key == name then ok val else field_in name fields

-- `cr["rows"][0]["cnt"]`.
abbrev pub count_in : List Fields → Result Json
count_in [] = raise index_error
count_in (row ∷ rows) = field_in "cnt" row

abbrev pub or_type_error : Option Bool → Result Bool
or_type_error none = raise type_error
or_type_error (some b) = ok b

abbrev pub path_of : Operation → String
path_of (list_tables limit offset) = "tables"
path_of (execute_query sql params) = "query"
path_of (get_rows table_name params count) = table_name <> "/rows"
path_of (insert_rows table_name rows row) = table_name <> "/rows"
path_of (update_rows table_name update filter) = table_name <> "/rows"
path_of (delete_rows table_name filter) = table_name <> "/rows"

module _ (env : Env) (cfg : Settings) (now : ℕ) (req : Request) (auth : AuthContext)
    (db_name : String) where
  abbrev pub guarded : {A : Type 0} → Gate env A → Gate env A
  guarded m w = let (w', r) = m w in (w', as_query_failed r)

  unfoldable pub format_tables : List TableInfo → Gate env (List (TableInfo × List ColumnInfo))
  format_tables [] = pure []
  format_tables (table ∷ tables) = do
    columns ← get_cached_columns env cfg now db_name table.name
    rest ← format_tables tables
    pure ((table, columns) ∷ rest)

  unfoldable pub list_tables_of : ℕ → ℕ → Gate env Answer
  unfolding format_tables
  list_tables_of limit offset = do
    raise_when (is_writeonly auth.mode) auth_insufficient_mode 403
    (engine, db_cfg) ← get_db_engine env cfg db_name auth
    tables ← get_cached_tables env cfg now db_name
    formatted ← format_tables (take limit (skip offset tables))
    pure (tables_page formatted (length tables) limit offset (ltb (offset + limit) (length tables)))

  unfoldable pub query_of : String → List (String × Json) → Gate env Answer
  query_of sql params = do
    (engine, db_cfg) ← get_db_engine env cfg db_name auth
    guarded (do
      result ← run_query env cfg now engine db_cfg auth req db_name sql params
      pure (query_data result))

  -- `_validate_select_columns`.
  unfoldable pub validate_select_columns :
      String → Option String → Option String → Gate env (Unit {0})
  unfolding check_columns
  validate_select_columns table_name fields sort =
      if not (truthy fields) && not (truthy sort) then pure tt else (do
        columns ← get_cached_columns env cfg now db_name table_name
        lift (check_columns env.glot.lower columns fields sort))

  abbrev pub count_sql : String → String → String
  count_sql table_name where_sql =
      "SELECT COUNT(*) AS cnt FROM "
      <> (if where_sql == "" then table_name else table_name <> (" WHERE " <> where_sql))

  abbrev pub statement_of_count :
      String → String × List (String × Json) → String × List (String × Json)
  statement_of_count table_name (where_sql, params) =
      (count_sql table_name where_sql, if where_sql == "" then [] else params)

  -- The pagination with `count=1`, whose total is what the database says.
  abbrev pub counted : Engine → Database → String → FetchRowsParams → List Fields → Gate env Answer
  counted engine db_cfg table_name params rows = do
    clause ← lift (given_filter env.loads env.glot.upper params.filter)
    let (sql, sql_params) = statement_of_count table_name clause
    cr ← run_query env cfg now engine db_cfg auth req db_name sql sql_params
    first ← lift (rows_in cr)
    total ← lift (count_in first)
    has_more ← lift (or_type_error (env.exceeds (params.page * params.limit) total))
    pure (rows_page rows params.page params.limit (some total) has_more)

  abbrev pub paged :
      Engine → Database → String → FetchRowsParams → Bool → List Fields → Gate env Answer
  paged engine db_cfg table_name params count rows =
      if count
      then counted engine db_cfg table_name params rows
      else pure (rows_page rows params.page params.limit none (leb params.limit (length rows)))

  unfoldable pub rows_of_table : String → FetchRowsParams → Bool → Gate env Answer
  unfolding validate_select_columns construct_select_rest_payload
  rows_of_table table_name params count = do
    raise_when (is_writeonly auth.mode) auth_insufficient_mode 403
    (engine, db_cfg) ← get_db_engine env cfg db_name auth
    validate_select_columns table_name params.fields params.sort
    (raw_sql, sql_params) ←
        lift (construct_select_rest_payload env.loads env.glot.upper table_name params)
    guarded (do
      result ← run_query env cfg now engine db_cfg auth req db_name raw_sql sql_params
      rows ← lift (rows_in result)
      paged engine db_cfg table_name params count rows)

  abbrev pub bulk_of : Engine → Database → String → List Fields → Gate env Answer
  bulk_of engine db_cfg table_name [] = fail (nexus input_schema_invalid 400)
  bulk_of engine db_cfg table_name (row ∷ rows) = guarded (do
    total ← run_bulk_inserts env cfg engine db_cfg auth req db_name table_name (row ∷ rows)
    pure (affected_rows (some total)))

  unfoldable pub insert_of : String → Option (List Fields) → Option Fields → Gate env Answer
  insert_of table_name rows row = do
    raise_when (is_readonly auth.mode) auth_insufficient_mode 403
    (engine, db_cfg) ← get_db_engine env cfg db_name auth
    bulk_of engine db_cfg table_name (target_rows rows row)

  -- An update or a delete, with the statement that is built for it.
  unfoldable pub write_of : Result (String × List (String × Json)) → Gate env Answer
  write_of statement = do
    raise_when (is_readonly auth.mode) auth_insufficient_mode 403
    (engine, db_cfg) ← get_db_engine env cfg db_name auth
    guarded (do
      (sql, sql_params) ← lift statement
      result ← run_query env cfg now engine db_cfg auth req db_name sql sql_params
      pure (affected_rows result.affected_rows))

  unfoldable pub local : Operation → Gate env Answer
  unfolding construct_update construct_delete list_tables_of query_of rows_of_table insert_of
      write_of
  local (list_tables limit offset) = list_tables_of limit offset
  local (execute_query sql params) = query_of sql params
  local (get_rows table_name params count) = rows_of_table table_name params count
  local (insert_rows table_name rows row) = insert_of table_name rows row
  local (update_rows table_name update filter) =
      write_of (construct_update table_name update filter)
  local (delete_rows table_name filter) = write_of (construct_delete table_name filter)

  -- A handler: another site's database is forwarded before anything else is looked at.
  unfoldable pub handle : Operation → Gate env Answer
  unfolding local
  handle op = do
    federated ← is_federated env cfg db_name
    if federated then execute_distributed_query env cfg db_name (path_of op) req else local op
