-- ===== src/Tests/AuthTests.antt =====
-- src/server/middleware/auth.py at concrete inputs.
use nexus_gate.Prelude.{
  ◌≡◌, ◌↔◌, refl, true, false, String, Option, none, some, [], ◌∷◌, ◌==◌, eq_iff, lookup, insert,
  string_eq, pair_eq,
}
use nexus_gate.Text.{split_once, has_char, strip}
use nexus_gate.Errors.{ok, raise, nexus, auth_invalid_key, auth_invalid_secret}
use nexus_gate.Sql.{dict_table}
use nexus_gate.Bans.{
  BanTable, ban_entity, check_ban, is_ip_banned, is_key_banned, has_expired, expiry,
}
use nexus_gate.Keys.{ApiKey}
use nexus_gate.Auth.{
  AuthConfig, AuthContext, AuthState, Crypto, Request, StaticKey, readwrite, get_auth_context,
  evaluate_network_bans, resolve_client_ip, get_dynamic_key_context, get_static_key_context,
  parse_bearer_token, authenticate_key, require_admin,
}
use nexus_gate.Auth.Granted.{Granted}
use nexus_gate.Auth.Complete.{get_auth_context_iff}
use nexus_gate.Auth.Admin.{HoldsAdminKey, require_admin_sound}

abbrev pub db : BanTable
db = dict_table

-- Tokens that are their own decoding, and a hash that is the secret.
abbrev pub plain : Crypto
plain = record {
  b64decode = λ s. some s;
  pbkdf2 = λ secret salt. secret;
  compare_digest = λ a b. a == b;
  compare_digest_iff = eq_iff;
}

abbrev pub root : StaticKey
root = record {
  secret = "pw";
  mode = readwrite;
  db_scope = "*" ∷ [];
  fs_scope = "*" ∷ [];
  rate_limit_override = 0;
  full_admin = true;
}

abbrev pub config : AuthConfig
config = record {
  features_federation = false;
  federation_enabled = false;
  incoming = [];
  api_key = ("root", root) ∷ [];
}

abbrev pub ask : String → Request
ask token = record { headers = λ h. none; client = some "10.0.0.1"; credentials = some token }

abbrev no_keys : String → Option ApiKey
no_keys name = none

abbrev pub calm : AuthState plain db
calm = record {
  bans = record { ips = []; keys = []; table = []; cleanups = [] };
  auth_failures = 0;
  auth_context = none;
}

abbrev pub root_context : AuthContext
root_context = record {
  api_key_name = "root";
  mode = readwrite;
  db_scope = "*" ∷ [];
  fs_scope = "*" ∷ [];
  rate_limit_override = 0;
  full_admin = true;
}

program : Unit {0}
unfolding get_auth_context evaluate_network_bans resolve_client_ip get_static_key_context
    get_dynamic_key_context parse_bearer_token authenticate_key require_admin split_once has_char
    strip check_ban is_ip_banned is_key_banned lookup insert ban_entity has_expired expiry
program = tt

root_enters :
    get_auth_context plain db 0 config no_keys (ask "root:pw") calm
    ≡ (record calm { auth_context = some root_context }, ok root_context)
unfolding program
root_enters = refl

wrong_secret :
    get_auth_context plain db 0 config no_keys (ask "root:px") calm
    ≡ (record calm { auth_failures = 1 }, raise (nexus auth_invalid_secret 401))
unfolding program
wrong_secret = refl

banned_key :
    (get_auth_context plain db 5 config no_keys
      (ask "root:pw")
      (record calm { bans = ban_entity db 0 "key" "root" "leaked" none calm.bans })).1
    ≡ raise (nexus auth_invalid_key 403)
unfolding program
banned_key = refl

get_auth_context_iff_example :
    ((t : AuthState plain db) × (get_auth_context plain db 0 config no_keys (ask "root:pw") calm
        ≡ (t, ok root_context)))
    ↔ Granted plain db 0 config no_keys (ask "root:pw") calm.bans root_context
get_auth_context_iff_example =
    get_auth_context_iff plain db 0 config no_keys (ask "root:pw") calm root_context refl

require_admin_sound_example : HoldsAdminKey plain db 0 config no_keys (ask "root:pw") calm.bans
unfolding program
require_admin_sound_example =
    require_admin_sound plain db 0 config no_keys (ask "root:pw") calm
      (record calm { auth_context = some root_context }) root_context root_context refl refl refl
