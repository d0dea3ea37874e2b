-- ===== src/Auth.antt =====
-- src/server/middleware/auth.py. A header is a function of its name; `bans` is the store of
-- src/security/ban_list.py, and a check may drop an expired ban from its cache.
pub mod Granted
pub mod Sound
pub mod Complete
pub mod Admin
use nexus_gate.Prelude.{
  ℕ, suc, ◌+◌, String, Bool, true, false, not, ◌||◌, ◌&&◌, ◌≡◌, ◌↔◌, Option, none, some, List, [],
  ◌∷◌, ◌==◌, if◌then◌else◌, lookup, string_eq, pair_eq,
}
use nexus_gate.Text.{split_once, has_char, strip, truthy, ◌<>◌}
use nexus_gate.Errors.{
  ErrorCode, auth_missing_header, auth_invalid_format, auth_invalid_key, auth_invalid_secret,
  auth_insufficient_mode, rate_limit_blocked, Error, nexus, value_error, Result, ok, raise,
}
use nexus_gate.Bans.{BanTable, Bans, is_key_banned, is_ip_banned}
use nexus_gate.Keys.{ApiKey}

-- `ServerMode` and `AuthContext` of src/utils/types.py.
pub data ServerMode : Type 0 where
  readwrite readonly writeonly : ServerMode

unfoldable pub server_mode : String → Option ServerMode
server_mode s =
    if s == "readwrite"
    then some readwrite
    else if s == "readonly"
    then some readonly
    else if s == "writeonly"
    then some writeonly
    else none

pub record AuthContext : Type 0 where
  pub api_key_name : String
  pub mode : ServerMode
  pub db_scope : List String
  pub fs_scope : List String
  pub rate_limit_override : ℕ
  pub full_admin : Bool

-- The keys of config.toml, and the peers that may come in.
pub record StaticKey : Type 0 where
  pub secret : String
  pub mode : ServerMode
  pub db_scope : List String
  pub fs_scope : List String
  pub rate_limit_override : ℕ
  pub full_admin : Bool

pub record IncomingKey : Type 0 where
  pub secret : String
  pub mode : ServerMode
  pub db_scope : List String
  pub fs_scope : List String

pub record AuthConfig : Type 0 where
  pub features_federation : Bool
  pub federation_enabled : Bool
  pub incoming : List (String × IncomingKey)
  pub api_key : List (String × StaticKey)

-- The standard library's part: `base64.b64decode(…).decode("utf-8")`, where `none` is any
-- exception; `hashlib.pbkdf2_hmac(…).hex()` of a secret and a salt; and `hmac.compare_digest`.
pub record Crypto : Type 0 where
  pub b64decode : String → Option String
  pub pbkdf2 : String → String → String
  pub compare_digest : String → String → Bool
  pub compare_digest_iff : (a b : String) → (compare_digest a b ≡ true) ↔ (a ≡ b)

pub record Request : Type 0 where
  pub headers : String → Option String
  pub client : Option String
  pub credentials : Option String

-- `a or b` on texts that may be missing.
abbrev pub or_else : Option String → String → String
or_else none d = d
or_else (some s) d = if s == "" then d else s

abbrev client_host : Option String → String
client_host none = "unknown"
client_host (some host) = host

unfoldable pub resolve_client_ip : Request → String
resolve_client_ip req =
    let ip =
      or_else (req.headers "X-Forwarded-For")
        (or_else (req.headers "X-Real-IP") (client_host req.client)) in
    if has_char b',' ip then strip (split_once b',' ip).0 else ip

unfoldable pub require_admin : AuthContext → Result AuthContext
require_admin auth = if auth.full_admin then ok auth else raise (nexus auth_insufficient_mode 403)

module _ (crypto : Crypto) (db : BanTable) where
  -- What a request changes: the bans, the counter of failures, and its own cached context.
  pub record AuthState : Type 0 where
    pub bans : Bans db
    pub auth_failures : ℕ
    pub auth_context : Option AuthContext

  abbrev pub M : Type 0 → Type 0
  M A = AuthState → AuthState × Result A

  -- What follows a first part: an exception keeps the state and ends the chain.
  abbrev pub continue : {A B : Type 0} → AuthState × Result A → (A → M B) → AuthState × Result B
  continue (s, raise e) f = (s, raise e)
  continue (s, ok a) f = f a s

  infixl 5 ◌>>=◌ ◌>>◌
  abbrev pub ◌>>=◌ : {A B : Type 0} → M A → (A → M B) → M B
  ◌>>=◌ m f s = continue (m s) f

  abbrev pub ◌>>◌ : {B : Type 0} → M (Unit {0}) → M B → M B
  m >> k = m >>= λ _. k

  abbrev pub pure : {A : Type 0} → A → M A
  pure a s = (s, ok a)

  abbrev pub fail : {A : Type 0} → ErrorCode → ℕ → M A
  fail code status s = (s, raise (nexus code status))

  abbrev pub record_auth_failure : M (Unit {0})
  record_auth_failure s = (record s { auth_failures = s.auth_failures + 1 }, ok tt)

  abbrev pub remember : AuthContext → M AuthContext
  remember ctx s = (record s { auth_context = some ctx }, ok ctx)

  unfoldable pub evaluate_network_bans : ℕ → Request → String → M (Unit {0})
  evaluate_network_bans now req key_name s =
      let (b, banned, _) = is_key_banned db now key_name s.bans in
      if banned
      then (record s { bans = b }, raise (nexus auth_invalid_key 403))
      else let (b', ip_banned, _) = is_ip_banned db now (resolve_client_ip req) b in
        if ip_banned
        then (record s { bans = b' }, raise (nexus rate_limit_blocked 403))
        else (record s { bans = b' }, ok tt)

  abbrev pub federation_context : String → IncomingKey → AuthContext
  federation_context node k = record {
    api_key_name = "federation:" <> node;
    mode = k.mode;
    db_scope = k.db_scope;
    fs_scope = k.fs_scope;
    rate_limit_override = 0;
    full_admin = false;
  }

  abbrev pub match_secret : String → IncomingKey → Option String → M AuthContext
  match_secret node k none = fail auth_invalid_format 403
  match_secret node k (some decoded) =
      if crypto.compare_digest k.secret decoded
      then pure (federation_context node k)
      else fail auth_invalid_secret 403

  abbrev pub match_node : String → String → Option IncomingKey → M AuthContext
  match_node node secret none = fail auth_invalid_key 403
  match_node node secret (some k) =
      if secret == ""
      then fail auth_missing_header 403
      else match_secret node k (crypto.b64decode secret)

  -- `node` and `secret` are the two headers, which the caller has found to be present.
  unfoldable pub get_federation_context : AuthConfig → String → String → M AuthContext
  get_federation_context config node secret =
      if not (config.features_federation && config.federation_enabled)
      then fail auth_invalid_key 403
      else match_node node secret (lookup node config.incoming)

  abbrev pub dynamic_context : String → ApiKey → ServerMode → AuthContext
  dynamic_context key_name k mode = record {
    api_key_name = key_name;
    mode = mode;
    db_scope = k.db_scope;
    fs_scope = k.fs_scope;
    rate_limit_override = k.rate_limit_override;
    full_admin = false;
  }

  abbrev pub with_mode : String → ApiKey → Option ServerMode → M (Option AuthContext)
  with_mode key_name k none s = (s, raise value_error)
  with_mode key_name k (some mode) s = (s, ok (some (dynamic_context key_name k mode)))

  unfoldable pub get_dynamic_key_context : String → String → Option ApiKey → M (Option AuthContext)
  get_dynamic_key_context key_name secret none = pure none
  get_dynamic_key_context key_name secret (some k) =
      if crypto.compare_digest k.secret_hash (crypto.pbkdf2 secret k.salt)
      then with_mode key_name k (server_mode k.mode)
      else (record_auth_failure >> fail auth_invalid_secret 401)

  abbrev pub static_context : String → StaticKey → AuthContext
  static_context key_name k = record {
    api_key_name = key_name;
    mode = k.mode;
    db_scope = k.db_scope;
    fs_scope = k.fs_scope;
    rate_limit_override = k.rate_limit_override;
    full_admin = k.full_admin;
  }

  unfoldable pub get_static_key_context : String → String → Option StaticKey → M AuthContext
  get_static_key_context key_name secret none = fail auth_invalid_key 401
  get_static_key_context key_name secret (some k) =
      if crypto.compare_digest k.secret secret
      then pure (static_context key_name k)
      else (record_auth_failure >> fail auth_invalid_secret 401)

  abbrev pub two_parts : String × Option String → M (String × String)
  two_parts (key_name, none) = fail auth_invalid_format 401
  two_parts (key_name, some secret) = pure (key_name, secret)

  abbrev pub decoded_token : Option String → M (String × String)
  decoded_token none = fail auth_invalid_format 401
  decoded_token (some token) = two_parts (split_once b':' token)

  unfoldable pub parse_bearer_token : Option String → M (String × String)
  parse_bearer_token none = fail auth_invalid_format 401
  parse_bearer_token (some credentials) = decoded_token (crypto.b64decode credentials)

  abbrev pub choose : AuthConfig → String → String → Option AuthContext → M AuthContext
  choose config key_name secret (some ctx) = remember ctx
  choose config key_name secret none = do
    ctx ← get_static_key_context key_name secret (lookup key_name config.api_key)
    remember ctx

  -- `keys` is `SecurityStorage.get_api_key`.
  abbrev pub resolve_key : AuthConfig → (String → Option ApiKey) → String → String → M AuthContext
  resolve_key config keys key_name secret = do
    dynamic ← get_dynamic_key_context key_name secret (keys key_name)
    choose config key_name secret dynamic

  abbrev pub with_token :
      ℕ → AuthConfig → (String → Option ApiKey) → Request → String × String → M AuthContext
  with_token now config keys req (key_name, secret) = do
    evaluate_network_bans now req key_name
    resolve_key config keys key_name secret

  unfoldable pub authenticate_key :
      ℕ → AuthConfig → (String → Option ApiKey) → Request → M AuthContext
  authenticate_key now config keys req = do
    token ← parse_bearer_token req.credentials
    with_token now config keys req token

  -- The caller has found both headers, so the last clause is never reached.
  abbrev pub authenticate_node : AuthConfig → Option String → Option String → M AuthContext
  authenticate_node config (some secret) (some node) = do
    ctx ← get_federation_context config node secret
    remember ctx
  authenticate_node config _ _ = fail auth_invalid_key 403

  abbrev pub resolve :
      ℕ → AuthConfig → (String → Option ApiKey) → Request → Option AuthContext → M AuthContext
  resolve now config keys req (some cached) = pure cached
  resolve now config keys req none =
      if truthy (req.headers "X-Federation-Secret") && truthy (req.headers "X-Federation-Node")
      then authenticate_node config (req.headers "X-Federation-Secret")
          (req.headers "X-Federation-Node")
      else authenticate_key now config keys req

  unfoldable pub get_auth_context :
      ℕ → AuthConfig → (String → Option ApiKey) → Request → M AuthContext
  get_auth_context now config keys req s = resolve now config keys req s.auth_context s
