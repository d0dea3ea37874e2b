-- ===== src/Keys.antt =====
-- The API keys of src/security/storage.py: a cache before the table `api_keys`, whose scopes are
-- stored as JSON texts.
pub mod Coherence
use nexus_gate.Prelude.{
  ℕ, String, Bool, true, false, ◌≡◌, Option, none, some, List, [], ◌∷◌, if◌then◌else◌, lookup,
  insert, remove, string_eq,
}
use nexus_gate.Sql.{Table, is_some}

pub record ApiKey : Type 0 where
  pub secret_hash : String
  pub salt : String
  pub mode : String
  pub db_scope : List String
  pub fs_scope : List String
  pub rate_limit_override : ℕ

pub record KeyRow : Type 0 where
  pub secret_hash : String
  pub salt : String
  pub mode : String
  pub db_scope : String
  pub fs_scope : String
  pub rate_limit_override : ℕ
  pub created_at : ℕ

-- The argument `updates`: a missing entry leaves the field as it is.
pub record Updates : Type 0 where
  pub mode : Option String
  pub db_scope : Option (List String)
  pub fs_scope : Option (List String)
  pub rate_limit_override : Option ℕ

-- `json.dumps` and `json.loads` on a list of texts; `none` is an exception.
pub record Json : Type 0 where
  pub dumps : List String → String
  pub loads : String → Option (List String)
  pub loads-dumps : (xs : List String) → loads (dumps xs) ≡ some xs

abbrev pub get_or {ℓ} : {A : Type ℓ} → Option A → A → A
get_or none d = d
get_or (some a) d = a

module _ (json : Json) where
  -- Both scopes are everything if either text cannot be read.
  abbrev pub load_scopes : Option (List String) → Option (List String) → List String × List String
  load_scopes (some d) (some f) = (d, f)
  load_scopes _ _ = ("*" ∷ [], "*" ∷ [])

  unfoldable pub load_row : KeyRow → ApiKey
  load_row r =
      let (db_scope, fs_scope) = load_scopes (json.loads r.db_scope) (json.loads r.fs_scope) in
      record {
        secret_hash = r.secret_hash;
        salt = r.salt;
        mode = r.mode;
        db_scope = db_scope;
        fs_scope = fs_scope;
        rate_limit_override = r.rate_limit_override;
      }

  module _ (db : Table String KeyRow) where
    pub record Keys : Type 0 where
      pub cache : List (String × ApiKey)
      pub table : db.State

    abbrev pub new_row : ℕ → ApiKey → KeyRow
    new_row now k = record {
      secret_hash = k.secret_hash;
      salt = k.salt;
      mode = k.mode;
      db_scope = json.dumps k.db_scope;
      fs_scope = json.dumps k.fs_scope;
      rate_limit_override = k.rate_limit_override;
      created_at = now;
    }

    -- The columns that `UPDATE api_keys SET …` writes.
    abbrev pub set_columns : ApiKey → KeyRow → KeyRow
    set_columns k r = record r {
      mode = k.mode;
      db_scope = json.dumps k.db_scope;
      fs_scope = json.dumps k.fs_scope;
      rate_limit_override = k.rate_limit_override;
    }

    unfoldable pub add_api_key : ℕ → String → ApiKey → Keys → Keys
    add_api_key now name k s = record {
      table = db.replace name (new_row now k) s.table;
      cache = insert name k s.cache;
    }

    unfoldable pub delete_api_key : String → Keys → Keys × Bool
    delete_api_key name s =
        if is_some (db.select name s.table)
        then (record { table = db.delete name s.table; cache = remove name s.cache }, true)
        else (record s { table = db.delete name s.table }, false)

    abbrev pub updated : Updates → ApiKey → ApiKey
    updated u k = record k {
      mode = get_or u.mode k.mode;
      db_scope = get_or u.db_scope k.db_scope;
      fs_scope = get_or u.fs_scope k.fs_scope;
      rate_limit_override = get_or u.rate_limit_override k.rate_limit_override;
    }

    abbrev pub update_existing : String → Updates → Option ApiKey → Keys → Keys × Bool
    update_existing name u none s = (s, false)
    update_existing name u (some existing) s =
        let k = updated u existing in
        let s' = record s { table = db.update name (set_columns k) s.table } in
        if is_some (db.select name s.table)
        then (record s' { cache = insert name k s.cache }, true)
        else (s', false)

    unfoldable pub update_api_key : String → Updates → Keys → Keys × Bool
    update_api_key name u s = update_existing name u (lookup name s.cache) s

    unfoldable pub get_api_key : String → Keys → Option ApiKey
    get_api_key name s = lookup name s.cache

    unfoldable pub load_rows :
        List (String × KeyRow) → List (String × ApiKey) → List (String × ApiKey)
    load_rows [] cache = cache
    load_rows ((name, r) ∷ rows) cache = load_rows rows (insert name (load_row r) cache)

    unfoldable pub load_api_keys : Keys → Keys
    unfolding load_rows
    load_api_keys s = record s { cache = load_rows (db.rows s.table) [] }
