-- ===== src/Database/Pool.antt =====
-- src/db/pool.py: the engine of a configured database and the size of its pool of connections.
use native.Mathlib.Nat.{div-mul-le_self, mul-div-le, le-div_iff_mul-le}
use nexus_gate.Prelude.{
  subst, sym, ℕ, ◌+◌, ◌-◌, ◌*◌, ◌/◌, ◌≤◌, String, Option, none, some, max, leb, if◌then◌else◌, ◌≡◌,
  arith, Bool-cases, inl, inr,
}
use nexus_gate.Query.{DatabaseConfig}

-- `DbEngineType` of src/utils/types.py.
pub data EngineType : Type 0 where
  postgres mysql sqlite mssql oracle mariadb db2 cockroachdb : EngineType

-- What is read of `DatabaseDefConfig`; the policy is what the parser of statements reads of it.
pub record Database : Type 0 where
  pub engine : EngineType
  pub url : String
  pub pool_min : ℕ
  pub pool_max : ℕ
  pub policy : DatabaseConfig

abbrev pub value : EngineType → String
value postgres = "postgres"
value mysql = "mysql"
value sqlite = "sqlite"
value mssql = "mssql"
value oracle = "oracle"
value mariadb = "mariadb"
value db2 = "db2"
value cockroachdb = "cockroachdb"

unfoldable pub get_worker_scaled_pool : ℕ → Database → Database
get_worker_scaled_pool server_workers db_config =
    let workers = max server_workers 1 in
    if leb workers 1 then db_config else record db_config {
      pool_min = max 1 (db_config.pool_min / workers);
      pool_max = max 2 (db_config.pool_max / workers);
    }

-- An engine and the dialect that it names; `none` is a `NotImplementedError`.
pub record Engine : Type 0 where
  pub dialect : String
  pub config : Database

abbrev pub dialect_of : EngineType → Option String
dialect_of sqlite = some "sqlite"
dialect_of postgres = some "postgres"
dialect_of mysql = some "mysql"
dialect_of mariadb = some "mysql"
dialect_of mssql = some "tsql"
dialect_of other = none

abbrev pub make_engine : Option String → Database → Option Engine
make_engine none db_config = none
make_engine (some dialect) db_config = some (record { dialect = dialect; config = db_config })

unfoldable pub instantiate_engine : ℕ → Database → Option Engine
unfolding get_worker_scaled_pool
instantiate_engine server_workers db_config =
    make_engine (dialect_of db_config.engine) (get_worker_scaled_pool server_workers db_config)

-- The most connections that the pool of SQLAlchemy has open at once, `pool_size` and `max_overflow`
-- together, as the constructor of the engine sets them.
unfoldable pub most_connections : EngineType → ℕ → ℕ → ℕ
most_connections sqlite pool_min pool_max = pool_max + pool_max
most_connections other pool_min pool_max = pool_min + (pool_max - pool_min)

-- How often the configured number of connections an engine may open.
unfoldable pub factor : EngineType → ℕ
factor sqlite = 2
factor other = 1

open_one : (w low high m : ℕ) → low ≤ high → w * high ≤ m → w * (low + (high - low)) ≤ 1 * m
open_one w low high m ordered h =
    let e : low + (high - low) ≡ high = omega arith in
    subst (λ k. w * k ≤ 1 * m) (sym e) (omega (arith, h))

open_all :
    (e : EngineType) (w low high m : ℕ)
    → low ≤ high
    → w * high ≤ m
    → w * most_connections e low high ≤ factor e * m
unfolding most_connections factor
open_all sqlite w low high m ordered h = omega (arith, h)
open_all postgres w low high m ordered h = open_one w low high m ordered h
open_all mysql w low high m ordered h = open_one w low high m ordered h
open_all mssql w low high m ordered h = open_one w low high m ordered h
open_all oracle w low high m ordered h = open_one w low high m ordered h
open_all mariadb w low high m ordered h = open_one w low high m ordered h
open_all db2 w low high m ordered h = open_one w low high m ordered h
open_all cockroachdb w low high m ordered h = open_one w low high m ordered h

lesser : (a b : ℕ) → a ≤ b → max 1 a ≤ max 2 b
lesser a b h = omega arith

total_open : (w q m : ℕ) → w * q ≤ m → w * max 2 q ≤ max m (w * 2)
total_open w q m h = elim (Bool-cases (leb 2 q)) [
  | inl large ↦
      let e : max 2 q ≡ q = ground (arith, large) in
      subst (λ k. w * k ≤ max m (w * 2)) (sym e) (omega (arith, h))
  | inr small ↦
      let e : max 2 q ≡ 2 = ground (arith, small) in
      subst (λ k. w * k ≤ max m (w * 2)) (sym e) (omega arith)
]

scaled_sizes :
    (server_workers : ℕ) (db : Database)
    → 1 ≤ server_workers
    → db.pool_min ≤ db.pool_max
    → let scaled = get_worker_scaled_pool server_workers db in
      (scaled.pool_min ≤ scaled.pool_max)
      × (server_workers * scaled.pool_max ≤ max db.pool_max (server_workers * 2))
unfolding get_worker_scaled_pool
scaled_sizes server_workers db some_worker ordered =
    let w = max server_workers 1 in
    let same : w ≡ server_workers = omega arith in
    let low = div-mul-le_self db.pool_min w in
    let lower : db.pool_min / w ≤ db.pool_max / w =
      (le-div_iff_mul-le {k = w} {x = db.pool_min / w} {y = db.pool_max} (omega arith)).1
        (omega (arith, low, ordered)) in
    let upper : server_workers * (db.pool_max / w) ≤ db.pool_max =
      subst (λ k. k * (db.pool_max / w) ≤ db.pool_max) same (mul-div-le db.pool_max w) in
    elim (Bool-cases (leb w 1)) [
      | inl single ↦ rw single (
        ordered,
        (let one : server_workers ≡ 1 = ground (arith, single) in
            subst (λ k. k * db.pool_max ≤ max db.pool_max (k * 2)) (sym one) (omega arith)),
      )
      | inr several ↦ rw several (
        lesser (db.pool_min / w) (db.pool_max / w) lower,
        total_open server_workers (db.pool_max / w) db.pool_max upper,
      )
    ]

scaled_engine : (w : ℕ) (db : Database) → (get_worker_scaled_pool w db).engine ≡ db.engine
unfolding get_worker_scaled_pool
scaled_engine w db = ground arith

pub scaled_pool-bounds :
    (server_workers : ℕ) (db : Database)
    → 1 ≤ server_workers
    → db.pool_min ≤ db.pool_max
    → let scaled = get_worker_scaled_pool server_workers db in
      (scaled.pool_min ≤ scaled.pool_max)
      × (server_workers * most_connections scaled.engine scaled.pool_min scaled.pool_max
          ≤ factor db.engine * max db.pool_max (server_workers * 2))
scaled_pool-bounds server_workers db some_worker ordered =
    let scaled = get_worker_scaled_pool server_workers db in
    let (in_order, total) = scaled_sizes server_workers db some_worker ordered in
    (
      in_order,
      subst
          (λ e.
            server_workers * most_connections scaled.engine scaled.pool_min scaled.pool_max
            ≤ factor e * max db.pool_max (server_workers * 2))
          (scaled_engine server_workers db)
          (open_all scaled.engine server_workers scaled.pool_min scaled.pool_max
            (max db.pool_max (server_workers * 2)) in_order total),
    )
