-- ===== src/Database/Authorized.antt =====
-- Which statements the handlers of src/api/database/handlers.py can bring to an engine.
use nexus_gate.Prelude.{
  map, ℕ, String, Bool, true, false, not, ◌&&◌, Option, some, List, [], ◌∷◌, ◌≡◌, refl, sym, subst,
  if◌then◌else◌, lookup, string_eq, if-both, if_not-both,
}
use nexus_gate.Text.{truthy, has_char, strip, split}
use nexus_gate.Errors.{Result, raise, ok, ErrorCode, auth_insufficient_mode}
use nexus_gate.Actions.{
  ◌>>=◌, ◌>>◌, continue, pure, Keeps, bind-Keeps, bind-Keeps_ok, lift-Keeps, raise_when,
}
use nexus_gate.Auth.{AuthContext}
use nexus_gate.Database.Calls.{
  Reach, stay, order, columns-Reach, tables-Reach, get_db_engine-Reach, get_db_engine-ok,
}
use nexus_gate.Database.{
  Operation, list_tables, execute_query, get_rows, insert_rows, update_rows, delete_rows,
  list_tables_of, format_tables, query_of, validate_select_columns, rows_of_table, counted, paged,
  insert_of, bulk_of, write_of, handle, local, path_of, is_readonly, is_writeonly, target_rows,
  rows_in, count_in,
}
use nexus_gate.Filter.{Json, Fields}
use nexus_gate.Federation.Proxy.{Request, Response}
use nexus_gate.Database.Pool.{Database, Engine}
use nexus_gate.Database.Columns.{TableInfo, FetchRowsParams}
use nexus_gate.Database.Pipeline.{Env, Settings, World, Gate, has_scope, get_db_engine}
use nexus_gate.Database.Runs.{run_query-Reach, run_bulk_inserts-Reach}
use nexus_gate.Database.Statements.{
  Answer, relayed, is_federated, forward_to, gather_rows, execute_distributed_query, run_query,
}

module _ (env : Env) (cfg : Settings) (now : ℕ) (req : Request) (auth : AuthContext)
    (db_name : String) where
  abbrev Quiet : {A : Type 0} → Gate env A → Type 0
  Quiet m = Keeps (order env cfg auth db_name) m

  format_tables-Reach :
      has_scope auth.db_scope db_name ≡ true
      → (tables : List TableInfo) → Quiet (format_tables env cfg now req auth db_name tables)
  unfolding format_tables
  format_tables-Reach scoped [] = λ w. stay w.databases
  format_tables-Reach scoped (table ∷ tables) =
      bind-Keeps (order env cfg auth db_name) _ _
        (columns-Reach env cfg auth db_name scoped now table.name)
        (λ columns.
          bind-Keeps (order env cfg auth db_name) _ _ (format_tables-Reach scoped tables)
            (λ rest w. stay w.databases))

  -- What is done with the engine may use the scope and the settings of the database.
  with_engine :
      {A : Type 0} (next : Engine × Database → Gate env A)
      → ((engine : Engine) (db_cfg : Database)
          → has_scope auth.db_scope db_name ≡ true
          → lookup db_name cfg.database ≡ some db_cfg
          → Quiet (next (engine, db_cfg)))
      → Quiet (get_db_engine env cfg db_name auth >>= next)
  with_engine next later =
      bind-Keeps_ok (order env cfg auth db_name) _ next (get_db_engine-Reach env cfg auth db_name)
        (λ w (engine, db_cfg) found.
          let (scoped, configured) = get_db_engine-ok env cfg auth db_name w engine db_cfg found in
          later engine db_cfg scoped configured)

  after_check :
      {A : Type 0} (test : Bool) (code : ErrorCode) (status : ℕ) (rest : Gate env A)
      → Quiet rest
      → Quiet (raise_when test code status >> rest)
  after_check test code status rest quiet =
      lift-Keeps (order env cfg auth db_name) _ _ (λ done e. quiet)

  list_tables-Reach :
      (limit offset : ℕ) → Quiet (list_tables_of env cfg now req auth db_name limit offset)
  unfolding list_tables_of
  list_tables-Reach limit offset =
      after_check (is_writeonly auth.mode) auth_insufficient_mode 403 _ (
        with_engine _ (λ engine db_cfg scoped configured.
          bind-Keeps (order env cfg auth db_name) _ _ (tables-Reach env cfg auth db_name scoped now)
            (λ tables.
              bind-Keeps (order env cfg auth db_name) _ _ (format_tables-Reach scoped _)
                (λ rows w. stay w.databases))))

  query-Reach :
      (sql : String) (params : List (String × Json))
      → Quiet (query_of env cfg now req auth db_name sql params)
  unfolding query_of
  query-Reach sql params = with_engine _ (λ engine db_cfg scoped configured.
      bind-Keeps (order env cfg auth db_name) _ _
        (run_query-Reach env cfg auth db_name scoped db_cfg configured now engine req sql params)
        (λ result w. stay w.databases))

  validate-Reach :
      has_scope auth.db_scope db_name ≡ true
      → (table_name : String) (fields sort : Option String)
      → Quiet (validate_select_columns env cfg now req auth db_name table_name fields sort)
  unfolding validate_select_columns
  validate-Reach scoped table_name fields sort w =
      if-both
        (λ (m : Gate env (Unit {0})). Reach env cfg auth db_name w.databases (m w).0.databases)
        (not (truthy fields) && not (truthy sort)) (stay w.databases)
        (bind-Keeps (order env cfg auth db_name) _ _
          (columns-Reach env cfg auth db_name scoped now table_name) (λ columns v. stay v.databases)
          w)

  module _ (scoped : has_scope auth.db_scope db_name ≡ true) (engine : Engine) (db_cfg : Database)
      (configured : lookup db_name cfg.database ≡ some db_cfg) where
    query-run :
        (sql : String) (params : List (String × Json))
        → Quiet (run_query env cfg now engine db_cfg auth req db_name sql params)
    query-run = run_query-Reach env cfg auth db_name scoped db_cfg configured now engine req

    counted-Reach :
        (table_name : String) (params : FetchRowsParams) (rows : List Fields)
        → Quiet (counted env cfg now req auth db_name engine db_cfg table_name params rows)
    counted-Reach table_name params rows = lift-Keeps (order env cfg auth db_name) _ _ (λ clause e.
        bind-Keeps (order env cfg auth db_name) _ _ (query-run _ _) (λ cr.
          lift-Keeps (order env cfg auth db_name) (rows_in cr) _ (λ first e1.
            lift-Keeps (order env cfg auth db_name) (count_in first) _ (λ total e2.
              lift-Keeps (order env cfg auth db_name) _ _ (λ more e3 w. stay w.databases)))))

    paged-Reach :
        (table_name : String) (params : FetchRowsParams) (count : Bool) (rows : List Fields)
        → Quiet (paged env cfg now req auth db_name engine db_cfg table_name params count rows)
    paged-Reach table_name params true rows = counted-Reach table_name params rows
    paged-Reach table_name params false rows = λ w. stay w.databases

    bulk-Reach :
        (table_name : String) (rows : List Fields)
        → Quiet (bulk_of env cfg now req auth db_name engine db_cfg table_name rows)
    bulk-Reach table_name [] = λ w. stay w.databases
    bulk-Reach table_name (row ∷ rows) =
        bind-Keeps (order env cfg auth db_name) _ _
          (run_bulk_inserts-Reach env cfg auth db_name scoped db_cfg configured engine req
            table_name (row ∷ rows))
          (λ total w. stay w.databases)

  rows-Reach :
      (table_name : String) (params : FetchRowsParams) (count : Bool)
      → Quiet (rows_of_table env cfg now req auth db_name table_name params count)
  unfolding rows_of_table
  rows-Reach table_name params count =
      after_check (is_writeonly auth.mode) auth_insufficient_mode 403 _ (
        with_engine _ (λ engine db_cfg scoped configured.
          bind-Keeps (order env cfg auth db_name) _ _
            (validate-Reach scoped table_name params.fields params.sort)
            (λ u. lift-Keeps (order env cfg auth db_name) _ _ (λ statement e.
              bind-Keeps (order env cfg auth db_name) _ _
                (query-run scoped engine db_cfg configured statement.0 statement.1)
                (λ result. lift-Keeps (order env cfg auth db_name) (rows_in result) _ (λ rows e1.
                  paged-Reach scoped engine db_cfg configured table_name params count rows))))))

  insert-Reach :
      (table_name : String) (rows : Option (List Fields)) (row : Option Fields)
      → Quiet (insert_of env cfg now req auth db_name table_name rows row)
  unfolding insert_of
  insert-Reach table_name rows row =
      after_check (is_readonly auth.mode) auth_insufficient_mode 403 _ (
        with_engine _ (λ engine db_cfg scoped configured.
          bulk-Reach scoped engine db_cfg configured table_name (target_rows rows row)))

  write-Reach :
      (statement : Result (String × List (String × Json)))
      → Quiet (write_of env cfg now req auth db_name statement)
  unfolding write_of
  write-Reach statement = after_check (is_readonly auth.mode) auth_insufficient_mode 403 _ (
      with_engine _ (λ engine db_cfg scoped configured.
        lift-Keeps (order env cfg auth db_name) statement _ (λ (sql, sql_params) e.
          bind-Keeps (order env cfg auth db_name) _ _
            (query-run scoped engine db_cfg configured sql sql_params)
            (λ result w. stay w.databases))))

  local-Reach : (op : Operation) → Quiet (local env cfg now req auth db_name op)
  unfolding local
  local-Reach (list_tables limit offset) = list_tables-Reach limit offset
  local-Reach (execute_query sql params) = query-Reach sql params
  local-Reach (get_rows table_name params count) = rows-Reach table_name params count
  local-Reach (insert_rows table_name rows row) = insert-Reach table_name rows row
  local-Reach (update_rows table_name update filter) = write-Reach _
  local-Reach (delete_rows table_name filter) = write-Reach _

  federated-Reach : Quiet (is_federated env cfg db_name)
  unfolding is_federated
  federated-Reach w =
      if_not-both
        (λ (p : World env × Result Bool). Reach env cfg auth db_name w.databases p.0.databases)
        cfg.federation_enabled (stay w.databases) (stay w.databases)

  gather-databases :
      (path : String) (targets : List String) (w : World env)
      → (gather_rows env cfg path req targets w).0.databases ≡ w.databases
  unfolding gather_rows forward_to
  gather-databases path [] w = refl
  gather-databases path (target ∷ targets) w =
      gather-databases path targets (forward_to env cfg path req target w).0

  continue-databases :
      (p : World env × Result Response)
      → (continue p (λ r. pure (relayed r))).0.databases ≡ p.0.databases
  continue-databases (w, raise e) = refl
  continue-databases (w, ok r) = refl

  distributed-Reach : (path : String) → Quiet (execute_distributed_query env cfg db_name path req)
  unfolding execute_distributed_query forward_to
  distributed-Reach path w =
      let targets = map strip (split b',' db_name) in
      let same : (d : env.Databases) → d ≡ w.databases → Reach env cfg auth db_name w.databases d =
        λ d e. subst (λ x. Reach env cfg auth db_name w.databases x) (sym e) (stay w.databases) in
      if-both
        (λ (p : World env × Result Answer). Reach env cfg auth db_name w.databases p.0.databases)
        (has_char b',' db_name) (same _ (gather-databases path targets w))
        (same _ (continue-databases (forward_to env cfg path req db_name w)))

  branch-Reach :
      (federated : Bool) (op : Operation)
      → Quiet (
          if federated
          then execute_distributed_query env cfg db_name (path_of op) req
          else local env cfg now req auth db_name op)
  branch-Reach true op = distributed-Reach (path_of op)
  branch-Reach false op = local-Reach op

  -- Whatever a client asks of a database, and whether it ends in an answer or an error: all that is
  -- done to the databases is calls of that database's engine, none of them unless the key's scope
  -- covers it, and each statement that is run is what the parser writes, or its translation, of one
  -- statement that the mode of the key and the policy of the database permit.
  pub handle-Reach :
      (op : Operation) (w : World env)
      → Reach env cfg auth db_name w.databases
          (handle env cfg now req auth db_name op w).0.databases
  unfolding handle
  handle-Reach op w =
      bind-Keeps (order env cfg auth db_name) (is_federated env cfg db_name) _ federated-Reach
        (λ federated. branch-Reach federated op) w
