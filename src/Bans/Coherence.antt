-- ===== src/Bans/Coherence.antt =====
-- The caches of src/security/storage.py are a view of the table of bans.
use nexus_gate.Prelude.{
  ℕ, ◌≤◌, ◌≡◌, ◌≢◌, refl, subst, pair_beq_iff, ap, ◌∙◌, String, true, ◌&&◌, Option, none, some,
  List, [], ◌∷◌, arith, ◌==◌, eq_iff, if◌then◌else◌, Bool-cases, inl, inr, lookup, lookup-insert,
  string_eq, pair_eq,
}
use nexus_gate.Sql.{IsDistinct}
use nexus_gate.Bans.{
  Entry, BanRow, BanTable, Bans, has_expired, cache_of, put_cached, load_rows, load_bans,
}

-- The entity types that the program passes.
pub data Kind : Type 0 where
  ip key : Kind

abbrev pub name : Kind → String
name ip = "ip"
name key = "key"

-- The cache has the row's entry, except that it may lack an entry that has expired.
abbrev pub Agrees : ℕ → Option Entry → Option BanRow → Type 0
Agrees now none none = Unit
Agrees now none (some r) = has_expired now r.expires_at ≡ true
Agrees now (some e) none = ⊥
Agrees now (some e) (some r) = (e.reason ≡ r.reason) × (e.expires_at ≡ r.expires_at)

pub Agrees-later :
    (now later : ℕ) (o : Option Entry) (r : Option BanRow)
    → now ≤ later
    → Agrees now o r
    → Agrees later o r
unfolding has_expired
Agrees-later now later none none h a = a
Agrees-later now later none (some r) h a = ground arith
Agrees-later now later (some e) none h a = a
Agrees-later now later (some e) (some r) h a = a

abbrev entry_of : BanRow → Entry
entry_of r = record { reason = r.reason; expires_at = r.expires_at }

ip_ne_key : ◌≢◌ {A = String} "ip" "key"
ip_ne_key = ground (arith, eq_iff "ip" "key")

module _ (db : BanTable) where
  abbrev pub IsCoherent : ℕ → Bans db → Type 0
  IsCoherent now s =
      (k : Kind) (j : String)
      → Agrees now (lookup j (cache_of db (name k) s)) (db.select (name k, j) s.table)

  -- What the loop over the rows leaves in the cache of a kind.
  abbrev loaded : ℕ → Option BanRow → Option Entry → Option Entry
  loaded now none old = old
  loaded now (some r) old =
      if has_expired now r.expires_at
      then old
      else some (record { reason = r.reason; expires_at = r.expires_at })

  abbrev cache_row : ℕ → String → String → BanRow → Bans db → Bans db
  cache_row now t i r s =
      if has_expired now r.expires_at
      then s
      else put_cached db t i (record { reason = r.reason; expires_at = r.expires_at }) s

  cache_row-loaded :
      (now : ℕ) (k : Kind) (j t i : String) (r : BanRow) (s : Bans db)
      → lookup j (cache_of db (name k) (cache_row now t i r s))
        ≡ loaded now
            (if t == name k && i == j then some r else none)
            (lookup j (cache_of db (name k) s))
  cache_row-loaded now ip j t i r s =
      ground (arith, eq_iff t "ip", eq_iff i j, lookup-insert i j (entry_of r) s.ips)
  cache_row-loaded now key j t i r s = ground (
    arith,
    eq_iff t "ip",
    eq_iff t "key",
    ip_ne_key,
    eq_iff i j,
    lookup-insert i j (entry_of r) s.keys,
  )

  load_rows-loaded :
      (now : ℕ) (k : Kind) (j : String) (rows : List ((String × String) × BanRow)) (s : Bans db)
      → IsDistinct rows
      → lookup j (cache_of db (name k) (load_rows db now rows s))
        ≡ loaded now (lookup (name k, j) rows) (lookup j (cache_of db (name k) s))
  unfolding load_rows lookup
  load_rows-loaded now k j [] s d = refl
  load_rows-loaded now k j (((t, i), r) ∷ rows) s (fresh, d) =
      load_rows-loaded now k j rows (cache_row now t i r s) d
      ∙ ap (loaded now (lookup (name k, j) rows)) (cache_row-loaded now k j t i r s)
      ∙ elim (Bool-cases (t == name k && i == j)) [
        | inl hit ↦
            let gone : lookup (name k, j) rows ≡ none =
              subst (λ p. lookup p rows ≡ none) ((pair_beq_iff (t, i) (name k, j)).0 hit) fresh in
            rw (hit, gone)
        | inr miss ↦ rw miss
      ]

  load_rows-table :
      (now : ℕ) (rows : List ((String × String) × BanRow)) (s : Bans db)
      → (load_rows db now rows s).table ≡ s.table
  unfolding load_rows
  load_rows-table now [] s = refl
  load_rows-table now (((t, i), r) ∷ rows) s =
      load_rows-table now rows (cache_row now t i r s) ∙ ground arith

  pub load_bans-table : (now : ℕ) (s : Bans db) → (load_bans db now s).table ≡ s.table
  unfolding load_bans
  load_bans-table now s = load_rows-table now (db.rows s.table) (record s { ips = []; keys = [] })

  loaded-Agrees : (now : ℕ) (o : Option BanRow) → Agrees now (loaded now o none) o
  loaded-Agrees now none = tt
  loaded-Agrees now (some r) = ground arith

  -- Reading the table at the start makes the caches agree with it.
  pub load_bans-IsCoherent : (now : ℕ) (s : Bans db) → IsCoherent now (load_bans db now s)
  unfolding load_bans lookup
  load_bans-IsCoherent now s ip j =
      rw
        (
          load_rows-loaded now ip j (db.rows s.table) (record s { ips = []; keys = [] })
              (db.rows-IsDistinct s.table),
          load_rows-table now (db.rows s.table) (record s { ips = []; keys = [] }),
          db.lookup-rows ("ip", j) s.table,
        )
        (loaded-Agrees now _)
  load_bans-IsCoherent now s key j =
      rw
        (
          load_rows-loaded now key j (db.rows s.table) (record s { ips = []; keys = [] })
              (db.rows-IsDistinct s.table),
          load_rows-table now (db.rows s.table) (record s { ips = []; keys = [] }),
          db.lookup-rows ("key", j) s.table,
        )
        (loaded-Agrees now _)
