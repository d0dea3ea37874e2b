-- ===== src/Keys/Coherence.antt =====
-- The cache of API keys of src/security/storage.py is the table, read through JSON.
use nexus_gate.Prelude.{
  ℕ, ◌≡◌, refl, sym, ap, ◌∙◌, subst, String, Option, none, some, List, [], ◌∷◌, arith, ◌==◌, eq_iff,
  if◌then◌else◌, Option-cases, inl, inr, lookup, insert, lookup-insert, lookup-remove, string_eq,
}
use nexus_gate.Sql.{Table, is_some, map_some, IsDistinct}
use nexus_gate.Keys.{
  ApiKey, KeyRow, Updates, Json, Keys, load_row, new_row, set_columns, add_api_key, delete_api_key,
  update_api_key, update_existing, updated, get_api_key, load_rows, load_api_keys,
}

module _ (json : Json) (db : Table String KeyRow) where
  -- For every name, the cached key is the row, decoded.
  abbrev pub IsCoherent : Keys json db → Type 0
  IsCoherent s =
      (name : String) → lookup name s.cache ≡ map_some (load_row json) (db.select name s.table)

  load_row-new_row : (now : ℕ) (k : ApiKey) → load_row json (new_row json db now k) ≡ k
  unfolding load_row
  load_row-new_row now k = rw (json.loads-dumps k.db_scope, json.loads-dumps k.fs_scope)

  load_row-set_columns :
      (u : Updates) (r : KeyRow)
      → load_row json (set_columns json db (updated json db u (load_row json r)) r)
        ≡ updated json db u (load_row json r)
  unfolding load_row
  load_row-set_columns u r = rw (
    json.loads-dumps (updated json db u (load_row json r)).db_scope,
    json.loads-dumps (updated json db u (load_row json r)).fs_scope,
  )

  pub add_api_key-IsCoherent :
      (now : ℕ) (name : String) (k : ApiKey) (s : Keys json db)
      → IsCoherent s
      → IsCoherent (add_api_key json db now name k s)
  unfolding add_api_key
  add_api_key-IsCoherent now name k s c j = ground (
    arith,
    eq_iff name j,
    c j,
    lookup-insert name j k s.cache,
    db.select-replace name j (new_row json db now k) s.table,
    load_row-new_row now k,
  )

  pub delete_api_key-IsCoherent :
      (name : String) (s : Keys json db)
      → IsCoherent s
      → IsCoherent (delete_api_key json db name s).0
  unfolding delete_api_key
  delete_api_key-IsCoherent name s c j = ground (
    arith,
    eq_iff name j,
    c j,
    c name,
    lookup-remove name j s.cache,
    db.select-delete name j s.table,
  )

  load_rows-lookup :
      (j : String) (rows : List (String × KeyRow)) (cache : List (String × ApiKey))
      → IsDistinct rows
      → lookup j (load_rows json db rows cache)
        ≡ elim (lookup j rows) [ none ↦ lookup j cache | some r ↦ some (load_row json r) ]
  unfolding load_rows lookup
  load_rows-lookup j [] cache d = refl
  load_rows-lookup j ((name, r) ∷ rows) cache (fresh, d) = ground (
    arith,
    eq_iff name j,
    load_rows-lookup j rows (insert name (load_row json r) cache) d,
    lookup-insert name j (load_row json r) cache,
  )

  pub load_api_keys-IsCoherent : (s : Keys json db) → IsCoherent (load_api_keys json db s)
  unfolding load_api_keys lookup
  load_api_keys-IsCoherent s j =
      load_rows-lookup j (db.rows s.table) [] (db.rows-IsDistinct s.table)
      ∙ ground (arith, db.lookup-rows j s.table)

  update_existing-IsCoherent :
      (name : String) (u : Updates) (o : Option ApiKey) (r : Option KeyRow) (s : Keys json db)
      → o ≡ map_some (load_row json) r
      → db.select name s.table ≡ r
      → IsCoherent s
      → IsCoherent (update_existing json db name u o s).0
  update_existing-IsCoherent name u none r s e f c j = c j
  update_existing-IsCoherent name u (some k) none s e f c j = cc
  update_existing-IsCoherent name u (some k) (some r) s e f c j =
      let same : load_row json r ≡ k = ground arith in
      ground (
        arith,
        eq_iff name j,
        c j,
        lookup-insert name j (updated json db u k) s.cache,
        db.select-update name j (set_columns json db (updated json db u k)) s.table,
        subst
            (λ t. load_row json (set_columns json db (updated json db u t) r) ≡ updated json db u t)
            same (load_row-set_columns u r),
      )

  pub update_api_key-IsCoherent :
      (name : String) (u : Updates) (s : Keys json db)
      → IsCoherent s
      → IsCoherent (update_api_key json db name u s).0
  unfolding update_api_key
  update_api_key-IsCoherent name u s c =
      update_existing-IsCoherent name u _ (db.select name s.table) s (c name) refl c

  -- The administration's operations on keys.
  pub data Operation : Type 0 where
    add : (now : ℕ) → String → ApiKey → Operation
    delete : String → Operation
    update : String → Updates → Operation

  pub apply : Operation → Keys json db → Keys json db
  apply (add now name k) s = add_api_key json db now name k s
  apply (delete name) s = (delete_api_key json db name s).0
  apply (update name u) s = (update_api_key json db name u s).0

  pub apply_all : List Operation → Keys json db → Keys json db
  apply_all [] s = s
  apply_all (o ∷ os) s = apply_all os (apply o s)

  apply-IsCoherent : (o : Operation) (s : Keys json db) → IsCoherent s → IsCoherent (apply o s)
  unfolding apply
  apply-IsCoherent (add now name k) s c = add_api_key-IsCoherent now name k s c
  apply-IsCoherent (delete name) s c = delete_api_key-IsCoherent name s c
  apply-IsCoherent (update name u) s c = update_api_key-IsCoherent name u s c

  pub apply_all-IsCoherent :
      (os : List Operation) (s : Keys json db) → IsCoherent s → IsCoherent (apply_all os s)
  unfolding apply_all
  apply_all-IsCoherent [] s c = c
  apply_all-IsCoherent (o ∷ os) s c = apply_all-IsCoherent os (apply o s) (apply-IsCoherent o s c)

  load_api_keys-table : (s : Keys json db) → (load_api_keys json db s).table ≡ s.table
  unfolding load_api_keys
  load_api_keys-table s = refl

  -- Once the keys are loaded, any sequence of additions, deletions and updates leaves for every
  -- name the key that a restart would load, if JSON texts read back as what was written.
  pub apply_all-get_api_key :
      (os : List Operation) (s : Keys json db) (name : String)
      → let t = apply_all os (load_api_keys json db s) in
        get_api_key json db name (load_api_keys json db t) ≡ get_api_key json db name t
  unfolding get_api_key
  apply_all-get_api_key os s name =
      let t = apply_all os (load_api_keys json db s) in
      load_api_keys-IsCoherent t name
      ∙ ap (λ u. map_some (load_row json) (db.select name u)) (load_api_keys-table t)
      ∙ sym (apply_all-IsCoherent os (load_api_keys json db s) (load_api_keys-IsCoherent s) name)

  -- An update of a cached key whose row exists changes what it names and leaves the rest: the
  -- secret's hash and the salt stay; other names keep their keys.
  pub update_api_key-get_api_key :
      (name j : String) (u : Updates) (s : Keys json db)
      → IsCoherent s
      → let (t, done) = update_api_key json db name u s in
        (done ≡ is_some (get_api_key json db name s))
        × (get_api_key json db j t ≡ (
            if name == j
            then map_some (updated json db u) (get_api_key json db j s)
            else get_api_key json db j s))
  unfolding update_api_key get_api_key
  update_api_key-get_api_key name j u s c = (
    ground (arith, c name),
    elim (Option-cases (lookup name s.cache)) [
      | inl missing ↦ ground (arith, eq_iff name j, missing)
      | inr (k, found) ↦
          ground (
            arith,
            eq_iff name j,
            c name,
            found,
            lookup-insert name j (updated json db u k) s.cache,
          )
    ],
  )
