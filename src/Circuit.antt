-- ===== src/Circuit.antt =====
-- src/security/circuit_breaker.py, and the circuit part of src/security/storage.py.
-- Times are natural numbers of clock ticks. `_persist_state` creates a task that later writes the
-- values it was given: first the row, then, after the commit, the cache.
pub mod Invariant
pub mod Trip
pub mod Recovery
pub mod Tasks
use nexus_gate.Prelude.{
  ℕ, ◌+◌, ◌-◌, String, Bool, true, false, not, ◌&&◌, Option, none, some, List, [], ◌∷◌, ◌++◌, ltb,
  leb, if◌then◌else◌, lookup, insert, string_eq,
}
use nexus_gate.Sql.{Table}

-- `OPEN` is `opened`.
pub data CircuitState : Type 0 where
  closed opened half_open : CircuitState

abbrev pub is_opened : CircuitState → Bool
is_opened opened = true
is_opened _ = false

pub record Circuit : Type 0 where
  pub state : CircuitState
  pub failures : ℕ
  pub successes : ℕ
  pub last_failure_time : Option ℕ
  pub tripped_at : Option ℕ

-- The class attributes that `_ensure_config` fills.
pub record CircuitConfig : Type 0 where
  pub enabled : Bool
  pub failure_threshold : ℕ
  pub success_threshold : ℕ
  pub timeout : ℕ

-- A task of `update_circuit`: its arguments, and whether its row has been committed.
pub record Task : Type 0 where
  pub key : String
  pub circuit : Circuit
  pub saved : Bool

abbrev pub fresh : Circuit
fresh = record {
  state = closed;
  failures = 0;
  successes = 0;
  last_failure_time = none;
  tripped_at = none;
}

abbrev pub get_or_fresh : Option Circuit → Circuit
get_or_fresh none = fresh
get_or_fresh (some c) = c

-- `tripped_at and (time.time() - tripped_at) >= timeout`: a time of 0 is falsy.
unfoldable pub timed_out : ℕ → ℕ → Option ℕ → Bool
timed_out timeout now none = false
timed_out timeout now (some t) = ltb 0 t && leb (t + timeout) now

-- What `is_open`, `record_success` and `record_failure` do to the circuit itself; the second part
-- tells whether `_persist_state` is called, and the third is the answer of `is_open`.
unfoldable pub check : CircuitConfig → ℕ → Circuit → Circuit × Bool × Bool
unfolding timed_out
check cfg now c =
    if not (is_opened c.state)
    then (c, false, false)
    else if timed_out cfg.timeout now c.tripped_at
    then (record c { state = half_open; successes = 0 }, true, false)
    else (c, false, true)

abbrev succeed_in : CircuitState → CircuitConfig → Circuit → Circuit × Bool
succeed_in half_open cfg c =
    if leb cfg.success_threshold (c.successes + 1)
    then (record c { state = closed; failures = 0; successes = c.successes + 1 }, true)
    else (record c { successes = c.successes + 1 }, false)
succeed_in closed cfg c = (record c { failures = c.failures - 1 }, false)
succeed_in opened cfg c = (c, false)

unfoldable pub succeed : CircuitConfig → Circuit → Circuit × Bool
succeed cfg c = succeed_in c.state cfg c

unfoldable pub fail : CircuitConfig → ℕ → Circuit → Circuit × Bool
fail cfg now c =
    if leb cfg.failure_threshold (c.failures + 1) && not (is_opened c.state)
    then (
      record c {
        failures = c.failures + 1;
        last_failure_time = some now;
        state = opened;
        tripped_at = some now;
      },
      true,
    )
    else (record c { failures = c.failures + 1; last_failure_time = some now }, false)

-- The store: the cache of `SecurityStorage`, the table, and the tasks that have not finished.
module _ (db : Table String Circuit) where
  pub record Circuits : Type 0 where
    pub cache : List (String × Circuit)
    pub table : db.State
    pub tasks : List Task

  -- A missing circuit is put into the cache; the caller then changes it in place.
  unfoldable pub get_circuit_cache : String → Circuits → Circuit × Circuits
  get_circuit_cache key s =
      let c = get_or_fresh (lookup key s.cache) in (c, record s { cache = insert key c s.cache })

  abbrev pub persist_state : Bool → String → Circuit → Circuits → Circuits
  persist_state false key c s = s
  persist_state true key c s = record s {
    tasks = s.tasks ++ record { key = key; circuit = c; saved = false } ∷ [];
  }

  abbrev pub write_back : String → Circuit → Bool → Circuits → Circuits
  write_back key c changed s =
      persist_state changed key c (record s { cache = insert key c s.cache })

  unfoldable pub is_open : CircuitConfig → ℕ → String → Circuits → Circuits × Bool
  unfolding get_circuit_cache
  is_open cfg now key s =
      if not cfg.enabled
      then (s, false)
      else let (c, s') = get_circuit_cache key s in
        let (c', changed, answer) = check cfg now c in (write_back key c' changed s', answer)

  unfoldable pub record_success : CircuitConfig → String → Circuits → Circuits
  unfolding get_circuit_cache
  record_success cfg key s =
      if not cfg.enabled
      then s
      else let (c, s') = get_circuit_cache key s in
        let (c', changed) = succeed cfg c in write_back key c' changed s'

  unfoldable pub record_failure : CircuitConfig → ℕ → String → Circuits → Circuits
  unfolding get_circuit_cache
  record_failure cfg now key s =
      if not cfg.enabled
      then s
      else let (c, s') = get_circuit_cache key s in
        let (c', changed) = fail cfg now c in write_back key c' changed s'

  -- The two halves of `update_circuit`: the committed row, and the new cache entry.
  unfoldable pub save_row : String → Circuit → Circuits → Circuits
  save_row key c s = record s { table = db.replace key c s.table }

  unfoldable pub publish : String → Circuit → Circuits → Circuits
  publish key c s = record s { cache = insert key c s.cache }

  unfoldable pub update_circuit : String → Circuit → Circuits → Circuits
  unfolding save_row publish
  update_circuit key c s = publish key c (save_row key c s)

  unfoldable pub reset : String → Circuits → Circuits
  unfolding update_circuit
  reset key s = update_circuit key fresh s

  -- `_load_circuit_breakers`: the cache is the table.
  unfoldable pub load_circuit_breakers : Circuits → Circuits
  load_circuit_breakers s = record s { cache = db.rows s.table }

  unfoldable pub get_state : String → Circuits → Circuits × CircuitState × ℕ × Option ℕ
  unfolding get_circuit_cache
  get_state key s =
      let (c, s') = get_circuit_cache key s in (s', c.state, c.failures, c.last_failure_time)
