-- ===== src/Database/Outcomes.antt =====
-- What the handlers of src/api/database/handlers.py do with another site's database, and how they
-- fail.
use nexus_gate.Prelude.{
  ℕ, String, Bool, true, false, not, Option, none, some, List, [], ◌∷◌, ◌≡◌, refl, sym, subst,
  if◌then◌else◌, lookup, string_eq,
}
use nexus_gate.Errors.{
  Result, raise, ok, nexus, auth_scope_denied, ErrorCode, auth_insufficient_mode,
}
use nexus_gate.Actions.{◌>>=◌, ◌>>◌, continue, bind-IsNexus, IsNexus, raise_when}
use nexus_gate.Auth.{AuthContext}
use nexus_gate.Database.{
  Operation, list_tables, execute_query, get_rows, insert_rows, update_rows, delete_rows, query_of,
  insert_of, bulk_of, write_of, handle, local, path_of, as_query_failed, is_readonly, target_rows,
}
use nexus_gate.Filter.{Json, Fields}
use nexus_gate.Federation.Proxy.{Request}
use nexus_gate.Database.Pool.{Database, Engine}
use nexus_gate.Database.Pipeline.{
  Env, Settings, World, Gate, get_engine, has_scope, engine_found, config_of, get_db_engine,
}
use nexus_gate.Database.Statements.{Answer, is_federated, execute_distributed_query}

if_not-false : {A : Type 0} (b : Bool) (x y : A) → b ≡ false → (if not b then x else y) ≡ x
if_not-false true x y e = cc
if_not-false false x y e = refl

alone-federated :
    (env : Env) (cfg : Settings) (db_name : String) (w : World env)
    → cfg.federation_enabled ≡ false
    → is_federated env cfg db_name w ≡ (w, ok false)
unfolding is_federated
alone-federated env cfg db_name w alone = if_not-false cfg.federation_enabled _ _ alone

mapped : {A : Type 0} (r : Result A) → IsNexus (as_query_failed r)
mapped (ok a) = tt
mapped (raise (nexus code status)) = tt
mapped (raise other) = tt

module _ (env : Env) (cfg : Settings) (now : ℕ) (req : Request) (auth : AuthContext)
    (db_name : String) (engine : Engine) (db_cfg : Database)
    (configured : lookup db_name cfg.database ≡ some db_cfg) where
  -- The pool holds the engine, so that none has to be connected.
  abbrev IsPooled : World env → Type 0
  IsPooled w = lookup db_name w.engines ≡ some engine

  found-IsNexus : (o : Option Engine) (w : World env) → IsNexus (engine_found env cfg o w).1
  found-IsNexus none w = tt
  found-IsNexus (some e) w = tt

  check-IsNexus :
      (test : Bool) (code : ErrorCode) (status : ℕ) (w : World env)
      → IsNexus (raise_when test code status w).1
  check-IsNexus true code status w = tt
  check-IsNexus false code status w = tt

  after-IsNexus :
      {A : Type 0} (test : Bool) (code : ErrorCode) (status : ℕ) (rest : Gate env A) (w : World env)
      → IsNexus (rest w).1
      → IsNexus ((raise_when test code status >> rest) w).1
  after-IsNexus test code status rest w later =
      bind-IsNexus (raise_when test code status) _ w (check-IsNexus test code status w)
        (λ u e. later)

  configured-IsNexus :
      (w : World env) → IsNexus (config_of env cfg (lookup db_name cfg.database) w).1
  configured-IsNexus w = rw configured tt

  pooled-IsNexus : (w : World env) → IsPooled w → IsNexus (get_engine env cfg db_name w).1
  unfolding get_engine ◌>>=◌
  pooled-IsNexus w pooled = rw pooled tt

  engine-IsNexus : (w : World env) → IsPooled w → IsNexus (get_db_engine env cfg db_name auth w).1
  unfolding get_db_engine
  engine-IsNexus w pooled =
      after-IsNexus (not (has_scope auth.db_scope db_name)) auth_scope_denied 403 _ w (
        bind-IsNexus _ _ w (pooled-IsNexus w pooled) (λ o e.
          bind-IsNexus _ _ _ (found-IsNexus o _)
            (λ eng e1. bind-IsNexus _ _ _ (configured-IsNexus _) (λ d e2. tt))))

  with_pooled :
      {A : Type 0} (next : Engine × Database → Gate env A) (w : World env)
      → IsPooled w
      → ((found : Engine × Database) (u : World env) → IsNexus (next found u).1)
      → IsNexus ((get_db_engine env cfg db_name auth >>= next) w).1
  with_pooled next w pooled later =
      bind-IsNexus _ next w (engine-IsNexus w pooled) (λ found e. later found _)

  bulk-IsNexus :
      (table_name : String) (rows : List Fields) (found : Engine × Database) (w : World env)
      → IsNexus (bulk_of env cfg now req auth db_name found.0 found.1 table_name rows w).1
  bulk-IsNexus table_name [] found w = tt
  bulk-IsNexus table_name (row ∷ rows) found w = mapped _

  write-IsNexus :
      (statement : Result (String × List (String × Json))) (w : World env)
      → IsPooled w
      → IsNexus (write_of env cfg now req auth db_name statement w).1
  unfolding write_of
  write-IsNexus statement w pooled =
      after-IsNexus (is_readonly auth.mode) auth_insufficient_mode 403 _ w
        (with_pooled _ w pooled (λ found u. mapped _))

  -- Asking for tables or rows, whose first steps stand outside of the `try`.
  abbrev pub is_listing : Operation → Bool
  is_listing (list_tables limit offset) = true
  is_listing (get_rows table_name params count) = true
  is_listing other = false

  local-IsNexus :
      (op : Operation) (w : World env)
      → IsPooled w
      → is_listing op ≡ false
      → IsNexus (local env cfg now req auth db_name op w).1
  unfolding local query_of insert_of
  local-IsNexus (list_tables limit offset) w pooled other = cc
  local-IsNexus (get_rows table_name params count) w pooled other = cc
  local-IsNexus (execute_query sql params) w pooled other =
      with_pooled _ w pooled (λ found u. mapped _)
  local-IsNexus (insert_rows table_name rows row) w pooled other =
      after-IsNexus (is_readonly auth.mode) auth_insufficient_mode 403 _ w
        (with_pooled _ w pooled (λ found u. bulk-IsNexus table_name (target_rows rows row) found u))
  local-IsNexus (update_rows table_name update filter) w pooled other = write-IsNexus _ w pooled
  local-IsNexus (delete_rows table_name filter) w pooled other = write-IsNexus _ w pooled

  abbrev branch : Operation → Bool → Gate env Answer
  branch op federated =
      if federated
      then execute_distributed_query env cfg db_name (path_of op) req
      else local env cfg now req auth db_name op

  -- A statement or a change of rows, on a configured database whose engine is in the pool, while
  -- there is no federation: whatever the engine, the parser or the hooks raise, what the handler
  -- raises is an error of the program with a code and a status.
  pub handle-IsNexus :
      (op : Operation) (w : World env)
      → cfg.federation_enabled ≡ false
      → lookup db_name w.engines ≡ some engine
      → is_listing op ≡ false
      → IsNexus (handle env cfg now req auth db_name op w).1
  unfolding handle ◌>>=◌
  handle-IsNexus op w alone pooled other =
      subst (λ (p : World env × Result Bool). IsNexus (continue p (branch op)).1)
        (sym (alone-federated env cfg db_name w alone)) (local-IsNexus op w pooled other)
