-- ===== src/Database/Runs.antt =====
-- Which statements the pipeline of src/api/database/handlers.py brings to an engine.
use nexus_gate.Prelude.{
  ℕ, ◌+◌, String, Bool, true, ◌&&◌, Option, none, some, List, [], ◌∷◌, ◌≡◌, ap, sym, subst, arith,
  ◌⊎◌, inl, inr, if◌then◌else◌, lookup, string_eq, Bool-cases, if-both, if_not-both, ◌==◌,
}
use nexus_gate.Errors.{Result, ok}
use nexus_gate.Actions.{Keeps, bind-Keeps, lift-Keeps, continue-Keeps}
use nexus_gate.Auth.{AuthContext}
use nexus_gate.Database.Calls.{IsAuthorized, Reach, stay, order, call-Reach}
use nexus_gate.Query.{validate}
use nexus_gate.Query.Permitted.{validate_iff}
use nexus_gate.Filter.{Json, Fields}
use nexus_gate.Federation.Proxy.{Request}
use nexus_gate.Database.Pool.{Database, Engine, value}
use nexus_gate.Database.Pipeline.{Env, Settings, World, Gate, QueryResult, execute, has_scope}
use nexus_gate.Database.Statements.{
  mode_value, emit_db_webhook_event, transpile_sql, run_query, native_sql, insert_all,
  run_bulk_inserts, or_run, keep_result, is_read, or_zero,
}

module _ (env : Env) (cfg : Settings) (auth : AuthContext) (db_name : String) where
  abbrev Quiet : {A : Type 0} → Gate env A → Type 0
  Quiet m = Keeps (order env cfg auth db_name) m

  emit-Reach :
      (req : Request) (name table_name action : String) (affected : ℕ)
      → Quiet (emit_db_webhook_event env cfg req name table_name action affected)
  unfolding emit_db_webhook_event
  emit-Reach req name table_name action affected w =
      if_not-both
        (λ (p : World env × Result (Unit {0})).
          Reach env cfg auth db_name w.databases p.0.databases)
        cfg.webhook_enabled (stay w.databases)
        (continue-Keeps (order env cfg auth db_name) w (w, _) _ (stay w.databases)
          (λ webhooks e v. stay v.databases))

  or_run-Reach :
      (cached : Option QueryResult) (run : Gate env QueryResult)
      → Quiet run
      → Quiet (or_run env cfg cached run)
  or_run-Reach none run quiet = quiet
  or_run-Reach (some cached) run quiet = λ w. stay w.databases

  keep-Reach :
      (now : ℕ) (read : Bool) (key : String) (result : QueryResult) (w : World env)
      → Reach env cfg auth db_name w.databases (keep_result env cfg now read key result w).databases
  keep-Reach now read key result w =
      if-both (λ (u : World env). Reach env cfg auth db_name w.databases u.databases)
        (read && cfg.query_cache_enabled) (stay w.databases) (stay w.databases)

  module _ (scoped : has_scope auth.db_scope db_name ≡ true) (db_cfg : Database)
      (configured : lookup db_name cfg.database ≡ some db_cfg) where
    -- What the check of a statement lets pass, rewritten or not, may be run.
    authorized :
        (sql safe_sql operations target_table : String)
        → validate env.glot sql db_cfg.policy (mode_value auth.mode)
          ≡ ok (safe_sql, operations, target_table)
        → (written : String)
        → (written ≡ safe_sql)
          ⊎ ((dialect : String) × (transpile_sql env cfg safe_sql dialect ≡ ok written))
        → IsAuthorized env cfg auth db_name written
    authorized sql safe_sql operations target_table passed written how =
        let (e, one, permitted, verdict) =
          (validate_iff env.glot sql db_cfg.policy (mode_value auth.mode)
              (safe_sql, operations, target_table)).0
            passed in
        let text : safe_sql ≡ env.glot.to_sql e = ap (λ v. v.0) (sym verdict) in
        record {
          db_cfg = db_cfg;
          configured = configured;
          statement = e;
          permitted = permitted;
          written =
              subst
                (λ t.
                  (written ≡ t)
                  ⊎ ((dialect : String) × (transpile_sql env cfg t dialect ≡ ok written)))
                text how;
        }

    pub run_query-Reach :
        (now : ℕ) (engine : Engine) (req : Request) (sql : String) (params : List (String × Json))
        → Quiet (run_query env cfg now engine db_cfg auth req db_name sql params)
    unfolding run_query
    run_query-Reach now engine req sql params =
        lift-Keeps (order env cfg auth db_name) _ _ (λ (safe_sql, operations, target_table) passed.
          bind-Keeps (order env cfg auth db_name) _ _ (λ w. stay w.databases)
            (λ cached. or_run-Reach cached _ (
              lift-Keeps (order env cfg auth db_name) _ _ (λ transpiled rewritten.
                let allowed =
                  authorized sql safe_sql operations target_table passed transpiled
                    (inr (engine.dialect, rewritten)) in
                bind-Keeps (order env cfg auth db_name) _ _
                  (call-Reach env cfg auth db_name scoped (execute transpiled params) allowed)
                  (λ result.
                    bind-Keeps (order env cfg auth db_name) _ _
                      (emit-Reach req db_name target_table
                        (if is_read operations then "SELECT" else env.glot.upper operations)
                        (or_zero result.affected_rows))
                      (λ done.
                        bind-Keeps (order env cfg auth db_name) _ _
                          (keep-Reach now (is_read operations) _ result)
                          (λ kept w. stay w.databases)))))))

    native-written :
        (engine : Engine) (safe_sql written : String)
        → native_sql env cfg engine db_cfg safe_sql ≡ ok written
        → (written ≡ safe_sql)
          ⊎ ((dialect : String) × (transpile_sql env cfg safe_sql dialect ≡ ok written))
    native-written engine safe_sql written e =
        elim (Bool-cases (value db_cfg.engine == engine.dialect)) [
          | inl own ↦ inl (ground (arith, own, e))
          | inr foreign ↦ inr (engine.dialect, ground (arith, foreign, e))
        ]

    insert_all-Reach :
        (engine : Engine) (table_name : String) (rows : List Fields) (total : ℕ)
        → Quiet (insert_all env cfg engine db_cfg auth db_name table_name rows total)
    unfolding insert_all
    insert_all-Reach engine table_name [] total = λ w. stay w.databases
    insert_all-Reach engine table_name (row ∷ rows) total =
        lift-Keeps (order env cfg auth db_name) _ _ (λ (safe_sql, operations, target_table) passed.
          lift-Keeps (order env cfg auth db_name) _ _ (λ transpiled rewritten.
            let allowed =
              authorized _ safe_sql operations target_table passed transpiled
                (native-written engine safe_sql transpiled rewritten) in
            bind-Keeps (order env cfg auth db_name) _ _
              (call-Reach env cfg auth db_name scoped (execute transpiled _) allowed)
              (λ result.
                insert_all-Reach engine table_name rows (total + or_zero result.affected_rows))))

    pub run_bulk_inserts-Reach :
        (engine : Engine) (req : Request) (table_name : String) (rows : List Fields)
        → Quiet (run_bulk_inserts env cfg engine db_cfg auth req db_name table_name rows)
    unfolding run_bulk_inserts
    run_bulk_inserts-Reach engine req table_name rows =
        bind-Keeps (order env cfg auth db_name) _ _ (insert_all-Reach engine table_name rows 0)
          (λ total.
            bind-Keeps (order env cfg auth db_name) _ _
              (emit-Reach req db_name table_name "INSERT" total) (λ done w. stay w.databases))
