-- ===== src/Admin/Banning.antt =====
-- The bans and the reset of a circuit of src/api/admin/handlers.py.
use nexus_gate.Prelude.{ℕ, String, not, Option, ◌==◌, if◌then◌else◌, string_eq, pair_eq}
use nexus_gate.Errors.{input_value_invalid, nexus, ok, raise}
use nexus_gate.Actions.{Action, ◌>>=◌, ◌>>◌, lift}
use nexus_gate.Sql.{Table}
use nexus_gate.Bans.{BanTable}
use nexus_gate.Bans
use nexus_gate.Keys.{KeyRow, Json, get_or}
use nexus_gate.Circuit.{Circuit}
use nexus_gate.Circuit
use nexus_gate.Auth.{AuthContext}
use nexus_gate.Admin.{Field, require_field, as_text, AdminState}

module _ (json : Json) (keys_db : Table String KeyRow) (bans_db : BanTable)
    (circuits_db : Table String Circuit) where
  abbrev pub store_ip_ban :
      ℕ
      → Option String
      → Option ℕ
      → String
      → Action (AdminState json keys_db bans_db circuits_db) (String × String)
  store_ip_ban now reason duration ip s = (
    record s {
      bans = Bans.ban_ip bans_db now ip (get_or reason "Manual ban via admin API") duration s.bans;
    },
    ok (ip, get_or reason "Manual ban"),
  )

  unfoldable pub ban_ip_action :
      ℕ
      → Field
      → Option String
      → Option ℕ
      → Action (AdminState json keys_db bans_db circuits_db) (String × String)
  ban_ip_action now field reason duration = do
    lift (require_field field)
    ip ← lift (as_text field)
    store_ip_ban now reason duration ip

  unfoldable pub unban_ip_action :
      String → Action (AdminState json keys_db bans_db circuits_db) String
  unban_ip_action ip s =
      let (bans, lifted) = Bans.unban_ip bans_db ip s.bans in
      (
        record s { bans = bans },
        if not lifted then raise (nexus input_value_invalid 404) else ok ip,
      )

  abbrev pub store_key_ban :
      ℕ
      → AuthContext
      → Option String
      → Option ℕ
      → String
      → Action (AdminState json keys_db bans_db circuits_db) (String × String)
  store_key_ban now auth reason duration key_name s =
      if key_name == auth.api_key_name then (s, raise (nexus input_value_invalid 400)) else (
        record s {
          bans = Bans.ban_key bans_db now key_name (get_or reason "Manual array") duration s.bans;
        },
        ok (key_name, get_or reason "Manual array"),
      )

  unfoldable pub ban_key_action :
      ℕ
      → AuthContext
      → Field
      → Option String
      → Option ℕ
      → Action (AdminState json keys_db bans_db circuits_db) (String × String)
  ban_key_action now auth field reason duration = do
    lift (require_field field)
    key_name ← lift (as_text field)
    store_key_ban now auth reason duration key_name

  unfoldable pub unban_key_action :
      String → Action (AdminState json keys_db bans_db circuits_db) String
  unban_key_action key_name s =
      let (bans, lifted) = Bans.unban_key bans_db key_name s.bans in
      (
        record s { bans = bans },
        if not lifted then raise (nexus input_value_invalid 404) else ok key_name,
      )

  unfoldable pub reset_circuit_breaker :
      String → Action (AdminState json keys_db bans_db circuits_db) (String × String)
  reset_circuit_breaker key s =
      (record s { circuits = Circuit.reset circuits_db key s.circuits }, ok (key, "closed"))
