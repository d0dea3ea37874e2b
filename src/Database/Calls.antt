-- ===== src/Database/Calls.antt =====
-- Which calls of an engine the parts of src/api/database/handlers.py make.
use nexus_gate.Prelude.{
  ℕ, String, Bool, true, false, not, Option, none, some, ◌≡◌, refl, ap, ◌∙◌, arith, ◌⊎◌, inl, inr,
  if◌then◌else◌, lookup, string_eq, Option-cases,
}
use nexus_gate.Text.{◌<>◌}
use nexus_gate.Errors.{raise, ok, nexus, auth_scope_denied}
use nexus_gate.Actions.{◌>>=◌, Preorder, Keeps, bind-Keeps, lift-Keeps, bind-ok}
use nexus_gate.Auth.{AuthContext}
use nexus_gate.Query.Permitted.{Permitted}
use nexus_gate.Database.Pool.{Database, Engine, instantiate_engine}
use nexus_gate.Database.Pipeline.{
  Env, Settings, World, Call, connect, list_tables, describe_table, execute, call_engine,
  start_engine, get_engine, has_scope, engine_found, config_of, get_db_engine, columns_key,
  get_cached_tables, get_cached_columns,
}
use nexus_gate.Database.Statements.{mode_value, transpile_sql}

module _ (env : Env) (cfg : Settings) (auth : AuthContext) (db_name : String) where
  -- A text that may be run: what the parser writes of one statement that the mode of the key and the
  -- policy of the database permit, as it is or rewritten for a dialect.
  pub record IsAuthorized (sql : String) : Type 0 where
    pub db_cfg : Database
    pub configured : lookup db_name cfg.database ≡ some db_cfg
    pub statement : env.glot.Node
    pub permitted : Permitted env.glot db_cfg.policy (mode_value auth.mode) statement
    pub written :
        (sql ≡ env.glot.to_sql statement)
        ⊎ ((dialect : String) × (transpile_sql env cfg (env.glot.to_sql statement) dialect
              ≡ ok sql))

  abbrev pub Allowed : Call → Type 0
  Allowed (execute sql params) = IsAuthorized sql
  Allowed other = Unit {0}

  -- What the databases become by calls of this one's engine, which the key's scope covers and of
  -- which each that runs a statement is authorized.
  pub data Reach : env.Databases → env.Databases → Type 0 where
    stay : (d : env.Databases) → Reach d d
    call :
        (d : env.Databases) (c : Call) {e : env.Databases}
        → has_scope auth.db_scope db_name ≡ true
        → Allowed c
        → Reach (env.ask db_name c d).0 e
        → Reach d e

  pub follow : {u v w : env.Databases} → Reach u v → Reach v w → Reach u w
  follow (stay d) r = r
  follow (call d c scoped allowed q) r = call d c scoped allowed (follow q r)

  abbrev pub order : Preorder (World env)
  order = record {
    Rel = λ u w. Reach u.databases w.databases;
    stay = λ w. stay w.databases;
    follow = λ u v w. follow;
  }

  module _ (scoped : has_scope auth.db_scope db_name ≡ true) where
    pub call-Reach : (c : Call) → Allowed c → Keeps order (call_engine env db_name c)
    call-Reach c allowed w = call w.databases c scoped allowed (stay _)

    start-Reach :
        (db_config : Database) (o : Option Engine)
        → Keeps order (start_engine env cfg db_name db_config o)
    unfolding ◌>>=◌
    start-Reach db_config none = λ w. stay w.databases
    start-Reach db_config (some engine) =
        bind-Keeps order (call_engine env db_name (connect engine.config)) _
          (call-Reach (connect engine.config) tt) (λ u w. stay w.databases)

    get_engine-Reach : Keeps order (get_engine env cfg db_name)
    unfolding get_engine ◌>>=◌
    get_engine-Reach w = elim (Option-cases (lookup db_name w.engines)) [
      | inr (engine, pooled) ↦ rw pooled (stay w.databases)
      | inl fresh ↦ rw fresh (elim (Option-cases (lookup db_name cfg.database)) [
        | inl missing ↦ rw missing (stay w.databases)
        | inr (db_config, known) ↦
            rw known (start-Reach db_config (instantiate_engine cfg.server_workers db_config) w)
      ])
    ]

    pub columns-Reach :
        (now : ℕ) (table_name : String)
        → Keeps order (get_cached_columns env cfg now db_name table_name)
    unfolding get_cached_columns ◌>>=◌
    columns-Reach now table_name w =
        elim (Option-cases
          (env.columns.get now (columns_key env cfg db_name table_name) w.columns)) [
            | inr (columns, cached) ↦ rw cached (stay w.databases)
            | inl missing ↦ rw missing (
                bind-Keeps order (call_engine env db_name (describe_table table_name)) _
                  (call-Reach (describe_table table_name) tt) (λ columns v. stay v.databases) w)
          ]

    pub tables-Reach : (now : ℕ) → Keeps order (get_cached_tables env cfg now db_name)
    unfolding get_cached_tables ◌>>=◌
    tables-Reach now w =
        elim (Option-cases (env.tables.get now ("schema:tables:" <> db_name) w.tables)) [
          | inr (tables, cached) ↦ rw cached (stay w.databases)
          | inl missing ↦ rw missing (
              bind-Keeps order (call_engine env db_name list_tables) _ (call-Reach list_tables tt)
                (λ tables v. stay v.databases) w)
        ]

  scope-ok :
      (b : Bool) {u : Unit {0}}
      → (if not b then raise (nexus auth_scope_denied 403) else ok tt) ≡ ok u
      → b ≡ true
  scope-ok true h = refl
  scope-ok false h = cc

  found-Reach : (o : Option Engine) → Keeps order (engine_found env cfg o)
  found-Reach none = λ w. stay w.databases
  found-Reach (some engine) = λ w. stay w.databases

  config-Reach : (o : Option Database) → Keeps order (config_of env cfg o)
  config-Reach none = λ w. stay w.databases
  config-Reach (some db_config) = λ w. stay w.databases

  pub get_db_engine-Reach : Keeps order (get_db_engine env cfg db_name auth)
  unfolding get_db_engine
  get_db_engine-Reach = lift-Keeps order _ _ (λ u e.
      let scoped = scope-ok (has_scope auth.db_scope db_name) e in
      bind-Keeps order _ _ (get_engine-Reach scoped) (λ o.
        bind-Keeps order _ _ (found-Reach o) (λ engine.
          bind-Keeps order _ _ (config-Reach (lookup db_name cfg.database))
            (λ db_cfg w. stay w.databases))))

  config-ok :
      (o : Option Database) (w : World env) {db_cfg : Database}
      → (config_of env cfg o w).1 ≡ ok db_cfg
      → o ≡ some db_cfg
  config-ok none w h = cc
  config-ok (some d) w h = ground (arith, h)

  -- What is known once an engine has been given.
  pub get_db_engine-ok :
      (w : World env) (engine : Engine) (db_cfg : Database)
      → (get_db_engine env cfg db_name auth w).1 ≡ ok (engine, db_cfg)
      → (has_scope auth.db_scope db_name ≡ true) × (lookup db_name cfg.database ≡ some db_cfg)
  unfolding get_db_engine
  get_db_engine-ok w engine db_cfg h =
      let (u, e, h1) = bind-ok _ _ w h in
      let (o, e1, h2) = bind-ok _ _ _ h1 in
      let (eng, e2, h3) = bind-ok _ _ _ h2 in
      let (d, e3, h4) = bind-ok _ _ _ h3 in
      (
        scope-ok (has_scope auth.db_scope db_name) e,
        config-ok (lookup db_name cfg.database) _ e3 ∙ ap (λ c. some c) (ground (arith, h4)),
      )
