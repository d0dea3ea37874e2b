-- ===== src/Admin.antt =====
-- src/api/admin/handlers.py: the administration of keys, bans and circuits. `require_admin` of
-- src/server/middleware/auth.py has let the caller in before, as `auth`.
pub mod Banning
pub mod Revoked
pub mod Issued
use nexus_gate.Prelude.{
  ℕ, ◌≡◌, String, Bool, true, false, not, ◌&&◌, Option, none, some, List, [], ◌∷◌, ◌++◌, ◌==◌,
  if◌then◌else◌, lookup, string_eq, pair_eq,
}
use nexus_gate.Text.{◌<>◌}
use nexus_gate.Errors.{
  input_schema_invalid, input_value_invalid, auth_invalid_key, nexus, Result, ok, raise,
}
use nexus_gate.Actions.{Action, ◌>>=◌, ◌>>◌, lift}
use nexus_gate.Sql.{Table, is_some}
use nexus_gate.Bans.{BanTable, Bans}
use nexus_gate.Bans
use nexus_gate.Keys.{
  ApiKey, KeyRow, Updates, Json, Keys, get_or, add_api_key, delete_api_key, get_api_key,
}
use nexus_gate.Keys
use nexus_gate.Circuit.{Circuit, Circuits}
use nexus_gate.Circuit
use nexus_gate.Auth.{ServerMode, readwrite, readonly, writeonly, AuthContext, StaticKey, Crypto}

-- A required field of a body: missing or falsy, a value that is no text, or a text.
pub data Field : Type 0 where
  falsy other : Field
  string : String → Field

unfoldable pub require_field : Field → Result (Unit {0})
require_field falsy = raise (nexus input_schema_invalid 400)
require_field other = ok tt
require_field (string s) = if s == "" then raise (nexus input_schema_invalid 400) else ok tt

-- `if not isinstance(…, str): raise …`
unfoldable pub as_text : Field → Result String
as_text falsy = raise (nexus input_schema_invalid 400)
as_text other = raise (nexus input_schema_invalid 400)
as_text (string s) = ok s

-- `base64.b64encode(….encode()).decode()`, which the decoding of a token reads back.
pub record Encoder (crypto : Crypto) : Type 0 where
  pub b64encode : String → String
  pub b64decode-b64encode : (s : String) → crypto.b64decode (b64encode s) ≡ some s

-- The body of a new key. A field that is given has the type of its column.
pub record KeyBody : Type 0 where
  pub name : Field
  pub mode : Option String
  pub db_scope : Option (List String)
  pub fs_scope : Option (List String)
  pub rate_limit_override : Option ℕ

pub record Created : Type 0 where
  pub name : String
  pub key : ApiKey
  pub secret : String
  pub bearer_token : String

pub record Listed : Type 0 where
  pub name : String
  pub source : String
  pub mode : String
  pub db_scope : List String
  pub fs_scope : List String
  pub rate_limit_override : ℕ
  pub full_admin : Bool

-- `mode.value`
abbrev pub mode_value : ServerMode → String
mode_value readwrite = "readwrite"
mode_value readonly = "readonly"
mode_value writeonly = "writeonly"

unfoldable pub list_static : List (String × StaticKey) → List Listed
list_static [] = []
list_static ((name, cfg) ∷ keys) =
    record {
      name = name;
      source = "config.toml";
      mode = mode_value cfg.mode;
      db_scope = cfg.db_scope;
      fs_scope = cfg.fs_scope;
      rate_limit_override = cfg.rate_limit_override;
      full_admin = cfg.full_admin;
    }
    ∷ list_static keys

unfoldable pub list_dynamic : List (String × ApiKey) → List Listed
list_dynamic [] = []
list_dynamic ((name, k) ∷ keys) =
    record {
      name = name;
      source = "sqlite";
      mode = k.mode;
      db_scope = k.db_scope;
      fs_scope = k.fs_scope;
      rate_limit_override = k.rate_limit_override;
      full_admin = false;
    }
    ∷ list_dynamic keys

-- `if not updates`
abbrev pub is_empty : Updates → Bool
is_empty u =
    not (is_some u.mode)
    && not (is_some u.db_scope)
    && not (is_some u.fs_scope)
    && not (is_some u.rate_limit_override)

module _ (json : Json) (keys_db : Table String KeyRow) (bans_db : BanTable)
    (circuits_db : Table String Circuit) where
  pub record AdminState : Type 0 where
    pub keys : Keys json keys_db
    pub bans : Bans bans_db
    pub circuits : Circuits circuits_db

  unfoldable pub list_api_keys : List (String × StaticKey) → AdminState → List Listed
  unfolding list_static list_dynamic
  list_api_keys static s = list_static static ++ list_dynamic s.keys.cache

  module _ (crypto : Crypto) (encoder : Encoder crypto) where
    -- The key of a body, for a secret and its salt.
    abbrev pub key_of : String → String → KeyBody → ApiKey
    key_of raw_secret salt body = record {
      secret_hash = crypto.pbkdf2 raw_secret salt;
      salt = salt;
      mode = get_or body.mode "readwrite";
      db_scope = get_or body.db_scope ("*" ∷ []);
      fs_scope = get_or body.fs_scope ("*" ∷ []);
      rate_limit_override = get_or body.rate_limit_override 0;
    }

    abbrev pub store_key : ℕ → String → String → KeyBody → String → Action AdminState Created
    store_key now raw_secret salt body name s =
        if is_some (get_api_key json keys_db name s.keys)
        then (s, raise (nexus input_value_invalid 400))
        else (
          record s {
            keys = add_api_key json keys_db now name (key_of raw_secret salt body) s.keys;
          },
          ok (record {
            name = name;
            key = key_of raw_secret salt body;
            secret = raw_secret;
            bearer_token = encoder.b64encode (name <> ":" <> raw_secret);
          }),
        )

    -- The secret and the salt are what `secrets` and `os.urandom` have drawn.
    unfoldable pub create_api_key : ℕ → String → String → KeyBody → Action AdminState Created
    create_api_key now raw_secret salt body = do
      lift (require_field body.name)
      name ← lift (as_text body.name)
      store_key now raw_secret salt body name

  abbrev pub ban_static : ℕ → Bool → String → Bans bans_db → Bans bans_db
  ban_static now false key_name s = s
  ban_static now true key_name s = Bans.ban_key bans_db now key_name "Revoked via admin API" none s

  unfoldable pub revoke_api_key :
      ℕ → List (String × StaticKey) → AuthContext → String → Action AdminState (String × String)
  revoke_api_key now static auth key_name s =
      if key_name == auth.api_key_name
      then (s, raise (nexus input_value_invalid 400))
      else let (keys, deleted) = delete_api_key json keys_db key_name s.keys in
        let banned = is_some (lookup key_name static) in
        (
          record s { keys = keys; bans = ban_static now banned key_name s.bans },
          if not deleted && not banned
              then raise (nexus auth_invalid_key 404)
              else ok (
                key_name,
                if deleted then "Revoked from SQLite database." else "Banned static config layout.",
              ),
        )

  abbrev pub store_updates :
      List (String × StaticKey) → Updates → String → Action AdminState (String × Updates)
  store_updates static updates name s =
      if is_some (lookup name static)
      then (s, raise (nexus input_value_invalid 400))
      else if is_empty updates
      then (s, raise (nexus input_schema_invalid 400))
      else let (keys, updated) = Keys.update_api_key json keys_db name updates s.keys in
        (
          record s { keys = keys },
          if not updated then raise (nexus input_value_invalid 404) else ok (name, updates),
        )

  unfoldable pub update_key_action :
      List (String × StaticKey) → Field → Updates → Action AdminState (String × Updates)
  update_key_action static field updates = do
    lift (require_field field)
    name ← lift (as_text field)
    store_updates static updates name
