-- ===== src/RateLimit/Sqlite.antt =====
-- `SQLiteCache.check_rate_limit` of src/cache/sqlite_backend.py: a log of requests in a table
-- without a key, and violations and penalties in the table `cache`.
pub mod Sliding
use nexus_gate.Prelude.{
  ℕ, ◌+◌, ◌-◌, ◌*◌, ◌≤◌, String, Bool, true, false, Option, none, some, List, [], ◌∷◌, ◌≡◌, ◌==◌,
  leb, ltb, if◌then◌else◌, length, string_eq,
}
use nexus_gate.Sql.{Table}
use nexus_gate.RateLimit.Request.{LimitRequest, violations_key}

-- The times that are not before a limit.
unfoldable pub since : ℕ → List ℕ → List ℕ
since w [] = []
since w (t ∷ ts) = if leb w t then t ∷ since w ts else since w ts

-- The table `rate_limits`: for each key the times of its rows, in no order that counts.
pub record Log : Type 1 where
  pub State : Type 0
  pub times : String → State → List ℕ
  pub purge : String → ℕ → State → State
  pub add : String → ℕ → State → State
  pub times-purge :
      (k j : String) (w : ℕ) (s : State)
      → times j (purge k w s) ≡ (if k == j then since w (times j s) else times j s)
  pub times-add :
      (k j : String) (t : ℕ) (s : State)
      → times j (add k t s) ≡ (if k == j then t ∷ times j s else times j s)

-- A row of the table `cache`. `none` is a value that does not read as a number.
pub record CacheRow : Type 0 where
  pub value : Option ℕ
  pub expires_at : Option ℕ

module _ (log : Log) (db : Table String CacheRow) where
  pub record Store : Type 0 where
    pub limits : log.State
    pub cache : db.State

  abbrev pub penalized : ℕ → Option CacheRow → Bool
  penalized now none = false
  penalized now (some r) = elim r.expires_at [ none ↦ true | some exp ↦ ltb now exp ]

  abbrev pub next_violation : Option CacheRow → ℕ
  next_violation none = 1
  next_violation (some r) = elim r.value [ none ↦ 1 | some n ↦ n + 1 ]

  unfoldable pub enforce_rate_penalty : ℕ → LimitRequest → Store → Store
  enforce_rate_penalty now p s =
      let v_count = next_violation (db.select (violations_key p) s.cache) in
      let s' = record s {
        cache =
            db.replace (violations_key p)
              (record { value = some v_count; expires_at = some (now + p.window * 2) }) s.cache;
      } in
      if leb p.penalty_threshold v_count
      then record s {
        cache =
            db.replace p.penalty_key
              (record { value = some 1; expires_at = some (now + p.penalty_cooldown) }) s'.cache;
      }
      else s'

  -- The part between `BEGIN EXCLUSIVE` and the commit.
  unfoldable pub transaction : ℕ → LimitRequest → Store → Store × Bool × ℕ
  unfolding enforce_rate_penalty
  transaction now p s =
      if penalized now (db.select p.penalty_key s.cache)
      then (s, true, p.limit + 1)
      else let s' = record s { limits = log.purge p.limits_key (now - p.window) s.limits } in
        let count = length (log.times p.limits_key s'.limits) in
        if leb (p.limit + p.burst) count
        then (enforce_rate_penalty now p s', true, count)
        else (record s' { limits = log.add p.limits_key now s'.limits }, false, count + 1)

  -- A statement after `BEGIN EXCLUSIVE` that fails rolls everything back and lets the request pass. A
  -- connection or a `BEGIN` that fails raises instead; such a call leaves the store as it is and is
  -- none of these.
  unfoldable pub check_rate_limit : Bool → ℕ → LimitRequest → Store → Store × Bool × ℕ
  unfolding transaction
  check_rate_limit fails now p s = if fails then (s, false, 0) else transaction now p s
