-- ===== src/Tests/DatabaseTests.antt =====
-- Requests for a database at concrete inputs.
use nexus_gate.Prelude.{
  ◌≡◌, refl, ◌*◌, ◌/◌, ◌≤◌, max, String, true, false, none, some, List, [], ◌∷◌, lookup, insert,
  remove, string_eq, arith,
}
use nexus_gate.Text.{
  split, strip, lstrip, rstrip, is_space, last_part, strip_chars, lstrip_chars, rstrip_chars,
  has_char, cut_prefix,
}
use nexus_gate.Errors.{Result, ok}
use nexus_gate.Actions.{IsNexus, ◌>>=◌}
use nexus_gate.Auth.{AuthContext, readonly}
use nexus_gate.Query.{validate}
use nexus_gate.Federation.Proxy.{server_of, resolve_server}
use nexus_gate.Database.Pool.{
  Database, Engine, postgres, most_connections, factor, scaled_pool-bounds, get_worker_scaled_pool,
}
use nexus_gate.Database.Columns.{check_columns}
use nexus_gate.Database.Pipeline.{
  Env, Settings, World, Call, connect, list_tables, describe_table, execute, Answered,
  get_db_engine,
}
use nexus_gate.Database.Statements.{is_federated, run_query}
use nexus_gate.Database.{execute_query, handle, local, query_of}
use nexus_gate.Database.Calls.{Reach}
use nexus_gate.Database.Authorized.{handle-Reach}
use nexus_gate.Database.Outcomes.{handle-IsNexus}
use nexus_gate.Tests.RateTests.{dict_ttl}
use nexus_gate.Tests.RequestTests.{glot, silent}
use nexus_gate.Tests.ProxyTests.{echo_http, two_sites, no_routes, get_rows_request}

abbrev shop : Database
shop = record {
  engine = postgres;
  url = "postgres://shop";
  pool_min = 5;
  pool_max = 50;
  policy = record { dangerous_operations = false; query_blacklist = []; query_whitelist = [] };
}

scaled_pool-bounds_example :
    (max 1 (5 / 4) ≤ max 2 (50 / 4))
    × (4 * most_connections shop.engine (max 1 (5 / 4)) (max 2 (50 / 4))
        ≤ factor shop.engine * max 50 (4 * 2))
unfolding get_worker_scaled_pool
scaled_pool-bounds_example = scaled_pool-bounds 4 shop (omega arith) (omega arith)

-- Databases that note what they are asked to run.
abbrev noted : (call : Call) → List String → List String × Result (Answered call)
noted (connect cfg) log = (log, ok tt)
noted list_tables log = (log, ok [])
noted (describe_table table) log = (log, ok [])
noted (execute sql params) log =
    (sql ∷ log, ok (record { columns = none; rows = none; affected_rows = none }))

abbrev plain_env : Env
plain_env = record {
  glot = record glot { lower = λ s. "select" };
  Databases = List String;
  ask = λ alias. noted;
  transpile = λ sql dialect. some (sql ∷ []);
  loads = λ s. none;
  dumps = λ params. "{}";
  md5 = λ s. s;
  exceeds = λ n total. some false;
  http = echo_http;
  tokens = silent;
  payload = λ e action affected. "";
  tables = dict_ttl;
  columns = dict_ttl;
  results = dict_ttl;
}

abbrev one_shop : Settings
one_shop = record {
  server_workers = 1;
  database = ("shop", shop) ∷ [];
  mesh = two_sites;
  federation_enabled = false;
  webhook_enabled = false;
  query_cache_enabled = true;
  webhooks = record { is_on = false; queue_size = 1; max_retries = 1; retry_delay = 2 };
  hooks = [];
}

abbrev with_sites : Settings
with_sites = record one_shop { federation_enabled = true }

abbrev shop_engine : Engine
shop_engine = record { dialect = "postgres"; config = shop }

abbrev first_world : World plain_env
first_world = record {
  databases = [];
  engines = ("shop", shop_engine) ∷ [];
  tables = [];
  columns = [];
  results = [];
  routes = no_routes;
  net = [];
  webhooks = record { queue = []; pending = [] };
}

abbrev reader : AuthContext
reader = record {
  api_key_name = "reader";
  mode = readonly;
  db_scope = "shop" ∷ [];
  fs_scope = [];
  rate_limit_override = 0;
  full_admin = false;
}

program : Unit {0}
unfolding lookup insert remove handle local query_of run_query is_federated validate get_db_engine
    ◌>>=◌ resolve_server server_of cut_prefix check_columns split strip lstrip rstrip is_space
    last_part strip_chars lstrip_chars rstrip_chars has_char
program = tt

-- A statement is run once; the answer of the second request is the cache's.
run_once :
    let ask =
      handle plain_env one_shop 0 get_rows_request reader "shop" (execute_query "SELECT 1" []) in
    (ask (ask first_world).0).0.databases ≡ "SELECT 1" ∷ []
unfolding program
run_once = refl

handle-Reach_example :
    Reach plain_env one_shop reader "shop" []
      (handle plain_env one_shop 0 get_rows_request reader "shop"
        (execute_query "SELECT 1" [])
        first_world).0.databases
handle-Reach_example =
    handle-Reach plain_env one_shop 0 get_rows_request reader "shop" (execute_query "SELECT 1" [])
      first_world

-- A key without any scope has another site asked.
handle-IsNexus_example :
    IsNexus
      (handle plain_env one_shop 0 get_rows_request reader "shop"
        (execute_query "SELECT 1" [])
        first_world).1
unfolding program
handle-IsNexus_example =
    handle-IsNexus plain_env one_shop 0 get_rows_request reader "shop" shop_engine shop refl
      (execute_query "SELECT 1" []) first_world refl refl refl

-- The check of the columns looks at what follows the last point, so another column comes through.
check_columns-comment :
    check_columns
      (λ s. s)
      (record { name = "id"; kind = "int"; nullable = false; primary_key = true } ∷ [])
      (some "password FROM users --.id")
      none
    ≡ ok tt
unfolding program
check_columns-comment = refl
