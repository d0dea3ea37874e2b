-- ===== src/Bans/Verdict.antt =====
-- What a check of src/security/ban_list.py answers, told from the table alone.
use nexus_gate.Prelude.{
  ℕ, ◌≤◌, ◌≡◌, refl, String, Bool, true, false, Option, none, some, [], arith, if◌then◌else◌,
  lookup, insert, remove, string_eq, pair_eq,
}
use nexus_gate.Bans.{
  Entry, BanRow, BanTable, Bans, has_expired, cache_of, entry_for, commit_ban, commit_unban,
  write_cache, check_ban, check_entry, load_bans,
}
use nexus_gate.Bans.Coherence.{Kind, name, Agrees, Agrees-later, load_bans-IsCoherent}
use nexus_gate.Bans.Overlap.{
  Writes, to_pop, IsSettled, settled-Agrees, commit_ban-IsSettled, commit_unban-IsSettled,
  write_cache-IsSettled, check_ban-IsSettled,
}

-- The answer for a row: no ban without one, or after its expiry; otherwise its reason.
abbrev pub verdict : ℕ → Option BanRow → Bool × Option String
verdict now none = (false, none)
verdict now (some r) = if has_expired now r.expires_at then (false, none) else (true, some r.reason)

module _ (db : BanTable) where
  unfoldable pub answer : ℕ → Kind → String → Bans db → Bool × Option String
  answer now k i s = let r = check_ban db now (name k) i s in (r.1, r.2)

  check_entry-verdict :
      (now : ℕ) (k : Kind) (i : String) (o : Option Entry) (r : Option BanRow) (s : Bans db)
      → Agrees now o r
      → (let c = check_entry db now (name k) i o s in
          ◌≡◌ {A = Bool × Option String} (c.1, c.2) (verdict now r))
  check_entry-verdict now k i none none s a = refl
  check_entry-verdict now k i none (some r) s a = ground arith
  check_entry-verdict now k i (some e) none s a = absurd a
  check_entry-verdict now k i (some e) (some r) s a = ground arith

  -- Where the cache of an identity agrees with its row, a check answers what the row says.
  pub check_ban-verdict :
      (now : ℕ) (k : Kind) (i : String) (s : Bans db)
      → Agrees now (lookup i (cache_of db (name k) s)) (db.select (name k, i) s.table)
      → answer now k i s ≡ verdict now (db.select (name k, i) s.table)
  unfolding answer check_ban
  check_ban-verdict now k i s a = check_entry-verdict now k i _ _ s a

  -- A time, the bans, and the writes to the caches that are still to come.
  pub record Run : Type 0 where
    pub now : ℕ
    pub bans : Bans db
    pub writes : Writes

  -- The first half of a ban or of a lifted ban (the scheduled ones included) of an identity that no
  -- other one is in the middle of; the second half of one; a check; time passing; or a restart, with
  -- which the writes to come are lost.
  pub data Step (r : Run) : Run → Type 0 where
    begin_ban :
        (k : Kind) (i reason : String) (duration : Option ℕ)
        → lookup (name k, i) r.writes ≡ none
        → Step r (record r {
          bans = commit_ban db r.now (name k) i reason duration r.bans;
          writes = insert (name k, i) (some (entry_for db r.now reason duration)) r.writes;
        })
    begin_unban :
        (k : Kind) (i : String)
        → lookup (name k, i) r.writes ≡ none
        → Step r (record r {
          bans = (commit_unban db (name k) i r.bans).0;
          writes = to_pop (name k, i) (commit_unban db (name k) i r.bans).1 r.writes;
        })
    finish :
        (k : Kind) (i : String) (o : Option Entry)
        → lookup (name k, i) r.writes ≡ some o
        → Step r (record r {
          bans = write_cache db (name k) i o r.bans;
          writes = remove (name k, i) r.writes;
        })
    check :
        (k : Kind) (i : String)
        → Step r (record r { bans = (check_ban db r.now (name k) i r.bans).0 })
    wait : (later : ℕ) → r.now ≤ later → Step r (record r { now = later })
    restart : Step r (record r { bans = load_bans db r.now r.bans; writes = [] })

  pub data Reach (r : Run) : Run → Type 0 where
    here : Reach r r
    next : {s t : Run} → Reach r s → Step s t → Reach r t

  Step-IsSettled :
      {r s : Run}
      → Step r s
      → IsSettled db r.now r.writes r.bans
      → IsSettled db s.now s.writes s.bans
  unfolding lookup
  Step-IsSettled {r} (begin_ban k i reason duration free) h =
      commit_ban-IsSettled db r.now k i reason duration r.writes r.bans free h
  Step-IsSettled {r} (begin_unban k i free) h =
      commit_unban-IsSettled db r.now k i r.writes r.bans free h
  Step-IsSettled {r} (finish k i o waiting) h =
      write_cache-IsSettled db r.now k i o r.writes r.bans waiting h
  Step-IsSettled {r} (check k i) h = check_ban-IsSettled db r.now k i r.writes r.bans h
  Step-IsSettled {r} (wait later le) h = λ k j. Agrees-later r.now later _ _ le (h k j)
  Step-IsSettled {r} restart h = load_bans-IsCoherent db r.now r.bans

  Reach-IsSettled :
      {r s : Run}
      → Reach r s
      → IsSettled db r.now r.writes r.bans
      → IsSettled db s.now s.writes s.bans
  Reach-IsSettled here h = h
  Reach-IsSettled (next r st) h = Step-IsSettled st (Reach-IsSettled r h)

  -- After the caches are read at the start, and any sequence of the halves of bans and lifted bans
  -- (the scheduled ones included), checks, waiting and restarts, a check of an IP or a key answers
  -- what the table says, unless a ban or a lifted ban of that identity is between its two halves; no
  -- two of one identity overlap in the sequence, while those of different ones may.
  pub Reach-answer :
      (start : ℕ) (s₀ : Bans db) {q : Run} (k : Kind) (i : String)
      → Reach (record { now = start; bans = load_bans db start s₀; writes = [] }) q
      → lookup (name k, i) q.writes ≡ none
      → answer q.now k i q.bans ≡ verdict q.now (db.select (name k, i) q.bans.table)
  unfolding lookup
  Reach-answer start s₀ {q} k i r settled =
      let h = Reach-IsSettled r (load_bans-IsCoherent db start s₀) in
      check_ban-verdict q.now k i q.bans (settled-Agrees db q.now k i q.writes q.bans settled h)
