-- ===== src/Bans/Overlap.antt =====
-- The caches of src/security/storage.py while bans are between the commit of their row and the write
-- to their cache.
use nexus_gate.Prelude.{
  ℕ, ◌≡◌, refl, subst, String, Bool, true, false, ◌&&◌, Option, none, some, List, arith, ◌==◌,
  eq_iff, if◌then◌else◌, Option-cases, inl, inr, lookup, insert, remove, lookup-insert,
  lookup-remove, string_eq, pair_eq, pair_beq_iff, Bool-cases,
}
use nexus_gate.Bans.{
  Entry, BanRow, BanTable, Bans, expiry, cache_of, entry_for, commit_ban, commit_unban, write_cache,
  check_ban,
}
use nexus_gate.Bans.Coherence.{Kind, ip, key, name, Agrees}

-- For an identity, what is to be written to its cache.
abbrev pub Writes : Type 0
Writes = List ((String × String) × Option Entry)

abbrev pub to_pop : String × String → Bool → Writes → Writes
to_pop id false ws = ws
to_pop id true ws = insert id none ws

-- The entry of the cache once the write that is to come has been made.
abbrev seen : Option (Option Entry) → Option Entry → Option Entry
seen none cached = cached
seen (some o) cached = o

module _ (db : BanTable) where
  abbrev pub IsSettled : ℕ → Writes → Bans db → Type 0
  IsSettled now ws s =
      (k : Kind) (j : String)
      → Agrees now (seen (lookup (name k, j) ws) (lookup j (cache_of db (name k) s)))
          (db.select (name k, j) s.table)

  pub settled-Agrees :
      (now : ℕ) (k : Kind) (i : String) (ws : Writes) (s : Bans db)
      → lookup (name k, i) ws ≡ none
      → IsSettled now ws s
      → Agrees now (lookup i (cache_of db (name k) s)) (db.select (name k, i) s.table)
  settled-Agrees now k i ws s settled h =
      subst
        (λ o.
          Agrees now (seen o (lookup i (cache_of db (name k) s))) (db.select (name k, i) s.table))
        settled (h k i)

  commit_ban-cache :
      (now : ℕ) (k k' : Kind) (i reason : String) (duration : Option ℕ) (s : Bans db)
      → cache_of db (name k') (commit_ban db now (name k) i reason duration s)
        ≡ cache_of db (name k') s
  unfolding commit_ban
  commit_ban-cache now k k' i reason duration s = refl

  pub commit_ban-IsSettled :
      (now : ℕ) (k : Kind) (i reason : String) (duration : Option ℕ) (ws : Writes) (s : Bans db)
      → lookup (name k, i) ws ≡ none
      → IsSettled now ws s
      → IsSettled now
          (insert (name k, i) (some (entry_for db now reason duration)) ws)
          (commit_ban db now (name k) i reason duration s)
  unfolding commit_ban
  commit_ban-IsSettled now k i reason duration ws s free h k' j =
      let row : BanRow = record {
        reason = reason;
        expires_at = expiry now duration;
        created_at = now;
      } in
      rw
        (
          lookup-insert (name k, i) (name k', j) (some (entry_for db now reason duration)) ws,
          db.select-replace (name k, i) (name k', j) row s.table,
        )
        (elim (Bool-cases (name k == name k' && i == j)) [
          | inl same ↦ rw same (refl, refl)
          | inr other ↦ rw other (h k' j)
        ])

  pub commit_unban-IsSettled :
      (now : ℕ) (k : Kind) (i : String) (ws : Writes) (s : Bans db)
      → lookup (name k, i) ws ≡ none
      → IsSettled now ws s
      → IsSettled now
          (to_pop (name k, i) (commit_unban db (name k) i s).1 ws)
          (commit_unban db (name k) i s).0
  unfolding commit_unban
  commit_unban-IsSettled now k i ws s free h k' j =
      rw (db.select-delete (name k, i) (name k', j) s.table)
        (elim (Option-cases (db.select (name k, i) s.table)) [
          | inl absent ↦ rw absent (elim (Bool-cases (name k == name k' && i == j)) [
            | inl same ↦
                let gone : db.select (name k', j) s.table ≡ none =
                  subst (λ id. db.select id s.table ≡ none)
                    ((pair_beq_iff (name k, i) (name k', j)).0 same) absent in
                rw same (rw gone at (h k' j))
            | inr other ↦ rw other (h k' j)
          ])
          | inr (row, present) ↦
              rw (present, lookup-insert {V = Option Entry} (name k, i) (name k', j) none ws)
                (elim (Bool-cases (name k == name k' && i == j)) [
                  | inl same ↦ rw same tt
                  | inr other ↦ rw other (h k' j)
                ])
        ])

  pub write_cache-lookup :
      (k k' : Kind) (i j : String) (o : Option Entry) (s : Bans db)
      → lookup j (cache_of db (name k') (write_cache db (name k) i o s))
        ≡ (if name k == name k' && i == j then o else lookup j (cache_of db (name k') s))
  unfolding write_cache
  write_cache-lookup ip ip i j none s = lookup-remove i j s.ips
  write_cache-lookup ip ip i j (some e) s = lookup-insert i j e s.ips
  write_cache-lookup ip key i j none s = refl
  write_cache-lookup ip key i j (some e) s = refl
  write_cache-lookup key ip i j none s = refl
  write_cache-lookup key ip i j (some e) s = refl
  write_cache-lookup key key i j none s = lookup-remove i j s.keys
  write_cache-lookup key key i j (some e) s = lookup-insert i j e s.keys

  pub write_cache-table :
      (k : Kind) (i : String) (o : Option Entry) (s : Bans db)
      → (write_cache db (name k) i o s).table ≡ s.table
  unfolding write_cache
  write_cache-table ip i none s = refl
  write_cache-table ip i (some e) s = refl
  write_cache-table key i none s = refl
  write_cache-table key i (some e) s = refl

  pub write_cache-IsSettled :
      (now : ℕ) (k : Kind) (i : String) (o : Option Entry) (ws : Writes) (s : Bans db)
      → lookup (name k, i) ws ≡ some o
      → IsSettled now ws s
      → IsSettled now (remove (name k, i) ws) (write_cache db (name k) i o s)
  write_cache-IsSettled now k i o ws s waiting h k' j =
      rw
        (
          write_cache-table k i o s,
          write_cache-lookup k k' i j o s,
          lookup-remove (name k, i) (name k', j) ws,
        )
        (elim (Bool-cases (name k == name k' && i == j)) [
          | inl same ↦
              let e : lookup (name k', j) ws ≡ some o =
                subst (λ id. lookup id ws ≡ some o) ((pair_beq_iff (name k, i) (name k', j)).0 same)
                  waiting in
              rw same (rw e at (h k' j))
          | inr other ↦ rw other (h k' j)
        ])

  check_ban-table :
      (now : ℕ) (k : Kind) (i : String) (s : Bans db)
      → (check_ban db now (name k) i s).0.table ≡ s.table
  unfolding check_ban
  check_ban-table now k i s = ground arith

  -- A check drops entries only that have expired.
  check_ban-Agrees :
      (now : ℕ) (k k' : Kind) (i j : String) (r : Option BanRow) (s : Bans db)
      → Agrees now (lookup j (cache_of db (name k') s)) r
      → Agrees now (lookup j (cache_of db (name k') (check_ban db now (name k) i s).0)) r
  unfolding check_ban
  check_ban-Agrees now ip ip i j r s a = ground (arith, eq_iff i j, a, lookup-remove i j s.ips)
  check_ban-Agrees now ip key i j r s a = ground (arith, a)
  check_ban-Agrees now key ip i j r s a = ground (arith, a)
  check_ban-Agrees now key key i j r s a = ground (arith, eq_iff i j, a, lookup-remove i j s.keys)

  pub check_ban-IsSettled :
      (now : ℕ) (k : Kind) (i : String) (ws : Writes) (s : Bans db)
      → IsSettled now ws s
      → IsSettled now ws (check_ban db now (name k) i s).0
  check_ban-IsSettled now k i ws s h k' j =
      rw (check_ban-table now k i s) (elim (Option-cases (lookup (name k', j) ws)) [
        | inl none_waits ↦
            rw none_waits (check_ban-Agrees now k k' i j _ s (rw none_waits at (h k' j)))
        | inr (o, waits) ↦ rw waits (rw waits at (h k' j))
      ])
