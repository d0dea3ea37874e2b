-- ===== src/Tests/AdminTests.antt =====
-- src/api/admin/handlers.py at concrete inputs.
use nexus_gate.Prelude.{
  ◌≡◌, refl, String, none, some, [], ◌∷◌, lookup, insert, remove, string_eq, pair_eq,
}
use nexus_gate.Text.{split_once, has_char, strip}
use nexus_gate.Errors.{
  ok, raise, nexus, input_schema_invalid, input_value_invalid, auth_invalid_key,
}
use nexus_gate.Actions.{◌>>=◌}
use nexus_gate.Sql.{Table, dict_table, scan}
use nexus_gate.Bans.{
  ban_entity, check_ban, ban_key, is_key_banned, is_ip_banned, has_expired, expiry, unban_entity,
  unban_key,
}
use nexus_gate.Keys.{
  ApiKey, KeyRow, Updates, Keys, add_api_key, delete_api_key, get_api_key, load_api_keys,
  update_api_key,
}
use nexus_gate.Keys.Coherence.{add_api_key-IsCoherent, load_api_keys-IsCoherent}
use nexus_gate.Circuit.{Circuit}
use nexus_gate.Auth.{
  AuthContext, AuthState, readonly, server_mode, get_auth_context, dynamic_context,
  resolve_client_ip,
}
use nexus_gate.Admin.{
  other, string, require_field, as_text, Encoder, KeyBody, Created, AdminState, create_api_key,
  revoke_api_key, update_key_action,
}
use nexus_gate.Admin.Banning.{ban_key_action, unban_key_action}
use nexus_gate.Admin.Revoked.{revoke_api_key-shuts}
use nexus_gate.Admin.Issued.{create_api_key-enters}
use nexus_gate.Tests.Codec.{codec}
use nexus_gate.Tests.AuthTests.{plain, config, ask, calm, root_context, db}

abbrev keys_db : Table String KeyRow
keys_db = dict_table

abbrev circuits_db : Table String Circuit
circuits_db = dict_table

abbrev encoder : Encoder plain
encoder = record { b64encode = λ s. s; b64decode-b64encode = λ s. refl }

abbrev no_keys : Keys codec keys_db
no_keys = load_api_keys codec keys_db (record { cache = []; table = [] })

abbrev start : AdminState codec keys_db db circuits_db
start = record {
  keys = no_keys;
  bans = calm.bans;
  circuits = record { cache = []; table = []; tasks = [] };
}

-- A key of the registry under the name of a configured key.
abbrev shadow : ApiKey
shadow = record {
  secret_hash = "pw";
  salt = "";
  mode = "readonly";
  db_scope = [];
  fs_scope = [];
  rate_limit_override = 0;
}

abbrev shadowed : AdminState codec keys_db db circuits_db
shadowed = record start { keys = add_api_key codec keys_db 5 "root" shadow no_keys }

abbrev boss : AuthContext
boss = record root_context { api_key_name = "boss" }

abbrev revoked : AdminState codec keys_db db circuits_db
revoked = (revoke_api_key codec keys_db db circuits_db 6 config.api_key boss "root" shadowed).0

program : Unit {0}
unfolding require_field as_text create_api_key revoke_api_key update_key_action ban_key_action
    unban_key_action add_api_key delete_api_key get_api_key update_api_key load_api_keys ◌>>=◌
    lookup insert remove scan ban_entity check_ban ban_key is_key_banned is_ip_banned has_expired
    expiry unban_entity unban_key server_mode resolve_client_ip has_char split_once strip
program = tt

revoke_api_key-shuts_example : ¬ (
    get_auth_context plain db 9 config
      (λ n. get_api_key codec keys_db n revoked.keys)
      (ask "root:pw")
      (record calm { bans = revoked.bans })
    ≡ (calm, ok root_context))
unfolding program
revoke_api_key-shuts_example =
    revoke_api_key-shuts codec keys_db db circuits_db plain 6 9 config boss "root" "pw" shadowed
      ("root", "Revoked from SQLite database.") (ask "root:pw")
      (record calm { bans = revoked.bans }) calm root_context
      (add_api_key-IsCoherent codec keys_db 5 "root" shadow no_keys
        (load_api_keys-IsCoherent codec keys_db (record { cache = []; table = [] })))
      refl refl refl refl
      (record {
        credentials = "root:pw";
        token = "root:pw";
        given = refl;
        decodes = refl;
        splits = refl;
      })

abbrev body : KeyBody
body = record {
  name = string "ann";
  mode = some "readonly";
  db_scope = none;
  fs_scope = none;
  rate_limit_override = none;
}

abbrev ann : ApiKey
ann = record {
  secret_hash = "s3";
  salt = "salt";
  mode = "readonly";
  db_scope = "*" ∷ [];
  fs_scope = "*" ∷ [];
  rate_limit_override = 0;
}

abbrev made : Created
made = record { name = "ann"; key = ann; secret = "s3"; bearer_token = "ann:s3" }

abbrev issued : AdminState codec keys_db db circuits_db
issued = (create_api_key codec keys_db db circuits_db plain encoder 5 "s3" "salt" body start).0

create_api_key-enters_example :
    (t : AuthState plain db) × (get_auth_context plain db 9 config
        (λ n. get_api_key codec keys_db n issued.keys)
        (ask "ann:s3")
        calm
      ≡ (t, ok (dynamic_context plain db "ann" ann readonly)))
unfolding program
create_api_key-enters_example =
    create_api_key-enters codec keys_db db circuits_db plain encoder 5 9 "s3" "salt" body config
      start made readonly (ask "ann:s3") calm refl refl refl refl refl
      (record { key = refl; ip = refl }) refl

abbrev nothing : Updates
nothing = record { mode = none; db_scope = none; fs_scope = none; rate_limit_override = none }

refusals :
    ((create_api_key codec keys_db db circuits_db plain encoder 5 "s3" "salt" body issued).1
      ≡ raise (nexus input_value_invalid 400))
    × ((create_api_key codec keys_db db circuits_db plain encoder 5 "s3" "salt"
          (record body { name = other })
          start).1
        ≡ raise (nexus input_schema_invalid 400))
    × ((revoke_api_key codec keys_db db circuits_db 6 config.api_key boss "bob" start).1
        ≡ raise (nexus auth_invalid_key 404))
    × ((update_key_action codec keys_db db circuits_db config.api_key
          (string "ann")
          nothing
          issued).1
        ≡ raise (nexus input_schema_invalid 400))
    × ((ban_key_action codec keys_db db circuits_db 6 root_context
          (string "root")
          none
          none
          start).1
        ≡ raise (nexus input_value_invalid 400))
    × ((unban_key_action codec keys_db db circuits_db "root" revoked).1 ≡ ok "root")
unfolding program
refusals = (refl, refl, refl, refl, refl, refl)
