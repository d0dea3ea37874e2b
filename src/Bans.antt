-- ===== src/Bans.antt =====
-- src/security/ban_list.py and the bans of src/security/storage.py: a cache for each kind of
-- entity before a table whose primary key is (type, identifier).
pub mod Coherence
pub mod Verdict
pub mod Overlap
pub mod Race
use nexus_gate.Prelude.{
  ℕ, ◌+◌, String, Bool, true, false, Option, none, some, List, [], ◌∷◌, ◌++◌, ◌==◌, ltb,
  if◌then◌else◌, lookup, insert, remove, string_eq, pair_eq,
}
use nexus_gate.Sql.{Table, is_some}

pub record Entry : Type 0 where
  pub reason : String
  pub expires_at : Option ℕ

pub record BanRow : Type 0 where
  pub reason : String
  pub expires_at : Option ℕ
  pub created_at : ℕ

abbrev pub BanTable : Type 1
BanTable = Table (String × String) BanRow

-- `exp is not None and now > exp`
unfoldable pub has_expired : ℕ → Option ℕ → Bool
has_expired now none = false
has_expired now (some exp) = ltb exp now

-- `time.time() + duration_seconds if duration_seconds else None`: a duration of 0 is none at all.
unfoldable pub expiry : ℕ → Option ℕ → Option ℕ
expiry now none = none
expiry now (some d) = if ltb 0 d then some (now + d) else none

-- `expires_at is None or expires_at > now`
unfoldable pub still_active : ℕ → Option ℕ → Bool
still_active now none = true
still_active now (some exp) = ltb now exp

module _ (db : BanTable) where
  -- The two caches, the table, and the identities whose clean-up is scheduled.
  pub record Bans : Type 0 where
    pub ips : List (String × Entry)
    pub keys : List (String × Entry)
    pub table : db.State
    pub cleanups : List (String × String)

  abbrev pub cache_of : String → Bans → List (String × Entry)
  cache_of entity_type s = if entity_type == "ip" then s.ips else s.keys

  abbrev pub pop_cached : String → String → Bans → Bans
  pop_cached entity_type identifier s =
      if entity_type == "ip"
      then record s { ips = remove identifier s.ips }
      else record s { keys = remove identifier s.keys }

  abbrev pub put_cached : String → String → Entry → Bans → Bans
  put_cached entity_type identifier entry s =
      if entity_type == "ip"
      then record s { ips = insert identifier entry s.ips }
      else if entity_type == "key"
      then record s { keys = insert identifier entry s.keys }
      else s

  -- The two halves of `ban_entity`: the row, which is committed, and the entry of the cache, before
  -- which other coroutines can run.
  unfoldable pub commit_ban : ℕ → String → String → String → Option ℕ → Bans → Bans
  commit_ban now entity_type identifier reason duration s = record s {
    table =
        db.replace (entity_type, identifier)
          (record { reason = reason; expires_at = expiry now duration; created_at = now }) s.table;
  }

  -- The cache's half of a ban and of a lifted ban.
  unfoldable pub write_cache : String → String → Option Entry → Bans → Bans
  write_cache entity_type identifier none s = pop_cached entity_type identifier s
  write_cache entity_type identifier (some e) s = put_cached entity_type identifier e s

  abbrev pub entry_for : ℕ → String → Option ℕ → Entry
  entry_for now reason duration = record { reason = reason; expires_at = expiry now duration }

  unfoldable pub ban_entity : ℕ → String → String → String → Option ℕ → Bans → Bans
  unfolding commit_ban write_cache
  ban_entity now entity_type identifier reason duration s =
      write_cache entity_type identifier (some (entry_for now reason duration))
        (commit_ban now entity_type identifier reason duration s)

  -- The two halves of `unban_entity`; the second is left out where no row was deleted.
  unfoldable pub commit_unban : String → String → Bans → Bans × Bool
  commit_unban entity_type identifier s = (
    record s { table = db.delete (entity_type, identifier) s.table },
    is_some (db.select (entity_type, identifier) s.table),
  )

  unfoldable pub unban_entity : String → String → Bans → Bans × Bool
  unfolding commit_unban write_cache
  unban_entity entity_type identifier s =
      let (s', deleted) = commit_unban entity_type identifier s in
      if deleted then (write_cache entity_type identifier none s', true) else (s', false)

  abbrev pub check_entry : ℕ → String → String → Option Entry → Bans → Bans × Bool × Option String
  check_entry now entity_type identifier none s = (s, false, none)
  check_entry now entity_type identifier (some e) s =
      if has_expired now e.expires_at
      then (
        record (pop_cached entity_type identifier s) {
          cleanups = s.cleanups ++ (entity_type, identifier) ∷ [];
        },
        false,
        none,
      )
      else (s, true, some e.reason)

  unfoldable pub check_ban : ℕ → String → String → Bans → Bans × Bool × Option String
  check_ban now entity_type identifier s =
      check_entry now entity_type identifier (lookup identifier (cache_of entity_type s)) s

  -- The loop of `_load_bans` over the rows.
  unfoldable pub load_rows : ℕ → List ((String × String) × BanRow) → Bans → Bans
  load_rows now [] s = s
  load_rows now (((kind, identifier), r) ∷ rows) s = load_rows now rows (
      if has_expired now r.expires_at
      then s
      else put_cached kind identifier (record { reason = r.reason; expires_at = r.expires_at }) s)

  unfoldable pub load_bans : ℕ → Bans → Bans
  unfolding load_rows
  load_bans now s = load_rows now (db.rows s.table) (record s { ips = []; keys = [] })

  -- `BanList`
  unfoldable pub ban_ip : ℕ → String → String → Option ℕ → Bans → Bans
  unfolding ban_entity
  ban_ip now ip reason duration s = ban_entity now "ip" ip reason duration s

  unfoldable pub unban_ip : String → Bans → Bans × Bool
  unfolding unban_entity
  unban_ip ip s = unban_entity "ip" ip s

  unfoldable pub is_ip_banned : ℕ → String → Bans → Bans × Bool × Option String
  unfolding check_ban
  is_ip_banned now ip s = check_ban now "ip" ip s

  unfoldable pub ban_key : ℕ → String → String → Option ℕ → Bans → Bans
  unfolding ban_entity
  ban_key now key_name reason duration s = ban_entity now "key" key_name reason duration s

  unfoldable pub unban_key : String → Bans → Bans × Bool
  unfolding unban_entity
  unban_key key_name s = unban_entity "key" key_name s

  unfoldable pub is_key_banned : ℕ → String → Bans → Bans × Bool × Option String
  unfolding check_ban
  is_key_banned now key_name s = check_ban now "key" key_name s

  -- The dictionary comprehensions of `list_bans`.
  unfoldable pub active : ℕ → List (String × Entry) → List (String × Entry)
  active now [] = []
  active now ((k, e) ∷ m) =
      if still_active now e.expires_at then (k, e) ∷ active now m else active now m

  unfoldable pub list_bans : ℕ → Bans → List (String × Entry) × List (String × Entry)
  unfolding active
  list_bans now s = (active now s.ips, active now s.keys)
