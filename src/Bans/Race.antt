-- ===== src/Bans/Race.antt =====
-- The clean-up that a check of src/security/storage.py schedules runs later, and deletes whatever
-- ban stands at that time.
use nexus_gate.Prelude.{
  ℕ, ◌+◌, ◌≤◌, ◌<◌, ◌≡◌, String, true, false, Option, none, some, ap, ◌∙◌, [], ◌∷◌, ◌++◌, arith,
  eq_refl, lookup, lookup-insert_self, lookup-remove_self, string_eq, pair_eq,
}
use nexus_gate.Bans.{
  Entry, BanTable, Bans, has_expired, expiry, ban_ip, unban_ip, is_ip_banned, entry_for, commit_ban,
  unban_entity, write_cache, check_ban, cache_of, load_bans,
}
use nexus_gate.Bans.Coherence.{Kind, name, load_bans-IsCoherent, load_bans-table}
use nexus_gate.Bans.Verdict.{answer, verdict, check_ban-verdict}
use nexus_gate.Bans.Overlap.{write_cache-lookup, write_cache-table}

module _ (db : BanTable) where
  -- A check of an IP whose ban has expired schedules its clean-up. If the IP is banned again
  -- before the clean-up runs, for some time above 0, the new ban is in force until then, and the
  -- clean-up lifts it: no later check finds the IP banned.
  pub stale_cleanup-lifts :
      (now later duration : ℕ) (ip reason : String) (e : Entry) (s : Bans db)
      → lookup ip s.ips ≡ some e
      → has_expired now e.expires_at ≡ true
      → 0 < duration
      → later ≤ now + duration
      → let checked = (is_ip_banned db now ip s).0 in
        let banned = ban_ip db now ip reason (some duration) checked in
        let cleaned = (unban_ip db ip banned).0 in
        (checked.cleanups ≡ s.cleanups ++ ("ip", ip) ∷ [])
        × ((is_ip_banned db later ip banned).1 ≡ true)
        × ((is_ip_banned db later ip cleaned).1 ≡ false)
  unfolding is_ip_banned ban_ip unban_ip has_expired expiry
  stale_cleanup-lifts now later duration ip reason e s found old pos within =
      let checked = (is_ip_banned db now ip s).0 in
      let banned = ban_ip db now ip reason (some duration) checked in
      let put =
        lookup-insert_self ip (record { reason = reason; expires_at = some (now + duration) })
          checked.ips in
      let dropped = lookup-remove_self ip banned.ips in
      let row =
        db.select-replace ("ip", ip) ("ip", ip)
          (record { reason = reason; expires_at = some (now + duration); created_at = now })
          checked.table in
      (ground (arith, found, old), ground (arith, put), ground (arith, dropped, row, eq_refl ip))

  found-answer :
      (now : ℕ) (k : Kind) (i : String) (s : Bans db) {e : Entry}
      → lookup i (cache_of db (name k) s) ≡ some e
      → has_expired now e.expires_at ≡ false
      → answer db now k i s ≡ (true, some e.reason)
  unfolding answer check_ban
  found-answer now k i s found lasts = rw (found, lasts)

  cleaned-select :
      (k : Kind) (i : String) (s : Bans db)
      → db.select (name k, i) (unban_entity db (name k) i s).0.table ≡ none
  unfolding unban_entity
  cleaned-select k i s = ground (
    arith,
    db.select-delete (name k, i) (name k, i) s.table,
    eq_refl (name k),
    eq_refl i,
    write_cache-table db k i none (record s { table = db.delete (name k, i) s.table }),
  )

  -- If the whole clean-up of an identity runs between the two halves of a ban of it, the ban is found
  -- by every check for as long as it lasts, but its row is gone, so a restart forgets it.
  pub overlap-loses_row :
      (now later : ℕ) (k : Kind) (i reason : String) (duration : Option ℕ) (s : Bans db)
      → has_expired later (expiry now duration) ≡ false
      → let cleaned =
          (unban_entity db (name k) i (commit_ban db now (name k) i reason duration s)).0 in
        let banned = write_cache db (name k) i (some (entry_for db now reason duration)) cleaned in
        (answer db later k i banned ≡ (true, some reason))
        × (db.select (name k, i) banned.table ≡ none)
        × (answer db later k i (load_bans db later banned) ≡ (false, none))
  overlap-loses_row now later k i reason duration s lasts =
      let cleaned =
        (unban_entity db (name k) i (commit_ban db now (name k) i reason duration s)).0 in
      let entry = entry_for db now reason duration in
      let banned = write_cache db (name k) i (some entry) cleaned in
      let gone : db.select (name k, i) banned.table ≡ none =
        ap (λ t. db.select (name k, i) t) (write_cache-table db k i (some entry) cleaned)
        ∙ cleaned-select k i (commit_ban db now (name k) i reason duration s) in
      let put : lookup i (cache_of db (name k) banned) ≡ some entry =
        write_cache-lookup db k k i i (some entry) cleaned ∙ rw (eq_refl (name k), eq_refl i) in
      (
        found-answer later k i banned put lasts,
        gone,
        check_ban-verdict db later k i (load_bans db later banned)
              (load_bans-IsCoherent db later banned k i)
            ∙ ap (λ t. verdict later (db.select (name k, i) t)) (load_bans-table db later banned)
            ∙ ap (verdict later) gone,
      )
