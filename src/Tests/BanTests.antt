-- ===== src/Tests/BanTests.antt =====
-- src/security/ban_list.py and the bans and keys of src/security/storage.py at concrete inputs.
use nexus_gate.Prelude.{
  ◌≡◌, refl, true, false, String, none, some, List, [], ◌∷◌, ◌++◌, arith, lookup, insert, remove,
  string_eq, pair_eq,
}
use nexus_gate.Sql.{Table, dict_table, scan}
use nexus_gate.Bans.{
  Entry, BanTable, Bans, has_expired, expiry, ban_entity, unban_entity, commit_ban, write_cache,
  entry_for, check_ban, load_bans, ban_ip, unban_ip, is_ip_banned,
}
use nexus_gate.Bans.Coherence.{ip, key}
use nexus_gate.Bans.Verdict.{Run, Step, Reach, answer, verdict, Reach-answer}
use nexus_gate.Bans.Race.{stale_cleanup-lifts, overlap-loses_row}
use nexus_gate.Keys.{ApiKey, KeyRow, Updates, Keys, load_api_keys, get_api_key}
use nexus_gate.Tests.Codec.{codec}
use nexus_gate.Keys.Coherence.{Operation, apply_all, apply_all-get_api_key}

abbrev db : BanTable
db = dict_table

abbrev empty : Bans db
empty = record { ips = []; keys = []; table = []; cleanups = [] }

abbrev banned : Bans db
banned = ban_entity db 100 "ip" "10.0.0.1" "scan" (some 50) (load_bans db 100 empty)

program : Unit {0}
unfolding ban_entity unban_entity commit_ban write_cache check_ban load_bans ban_ip unban_ip
    is_ip_banned has_expired expiry lookup insert remove scan
program = tt

ban_runs :
    ((check_ban db 150 "ip" "10.0.0.1" banned).1 ≡ true)
    × ((check_ban db 151 "ip" "10.0.0.1" banned).1 ≡ false)
    × ((check_ban db 120 "key" "10.0.0.1" banned).1 ≡ false)
unfolding program
ban_runs = (refl, refl, refl)

-- The key is between the halves of its ban, while the address has been banned.
abbrev overlapping : Run db
overlapping = record {
  now = 100;
  bans =
      ban_entity db 100 "ip" "10.0.0.1" "scan" (some 50)
        (commit_ban db 100 "key" "ann" "leak" none (load_bans db 100 empty));
  writes = (("key", "ann"), some (entry_for db 100 "leak" none)) ∷ [];
}

Reach-answer_example :
    answer db 100 ip "10.0.0.1" overlapping.bans
    ≡ verdict 100 (db.select ("ip", "10.0.0.1") overlapping.bans.table)
unfolding program
Reach-answer_example =
    Reach-answer db 100 empty ip "10.0.0.1"
      (Reach.next
        (Reach.next (Reach.next Reach.here (Step.begin_ban key "ann" "leak" none refl))
          (Step.begin_ban ip "10.0.0.1" "scan" (some 50) refl))
        (Step.finish ip "10.0.0.1" (some (entry_for db 100 "scan" (some 50))) refl))
      refl

overlap-loses_row_example :
    (answer db 20 ip "10.0.0.1" (
        write_cache db "ip" "10.0.0.1"
          (some (entry_for db 10 "scan" (some 50)))
          (unban_entity db "ip" "10.0.0.1"
            (commit_ban db 10 "ip" "10.0.0.1" "scan" (some 50) empty)).0)
      ≡ (true, some "scan"))
    × (db.select
          ("ip", "10.0.0.1")
          (write_cache db "ip" "10.0.0.1"
            (some (entry_for db 10 "scan" (some 50)))
            (unban_entity db "ip" "10.0.0.1"
              (commit_ban db 10 "ip" "10.0.0.1" "scan" (some 50) empty)).0).table
        ≡ none)
    × (answer db 20 ip "10.0.0.1" (
          load_bans db 20 (
            write_cache db "ip" "10.0.0.1"
              (some (entry_for db 10 "scan" (some 50)))
              (unban_entity db "ip" "10.0.0.1"
                (commit_ban db 10 "ip" "10.0.0.1" "scan" (some 50) empty)).0))
        ≡ (false, none))
unfolding has_expired expiry
overlap-loses_row_example = overlap-loses_row db 10 20 ip "10.0.0.1" "scan" (some 50) empty refl

abbrev old : Entry
old = record { reason = "scan"; expires_at = some 10 }

abbrev stale : Bans db
stale = record empty { ips = ("10.0.0.1", old) ∷ [] }

abbrev again : Bans db
again = ban_ip db 20 "10.0.0.1" "again" (some 1000) (is_ip_banned db 20 "10.0.0.1" stale).0

stale_cleanup-lifts_example :
    ((is_ip_banned db 20 "10.0.0.1" stale).0.cleanups ≡ [] ++ ("ip", "10.0.0.1") ∷ [])
    × ((is_ip_banned db 30 "10.0.0.1" again).1 ≡ true)
    × ((is_ip_banned db 30 "10.0.0.1" (unban_ip db "10.0.0.1" again).0).1 ≡ false)
unfolding lookup has_expired
stale_cleanup-lifts_example =
    stale_cleanup-lifts db 20 30 1000 "10.0.0.1" "again" old stale refl refl (omega arith)
      (omega arith)

abbrev keys_db : Table String KeyRow
keys_db = dict_table

abbrev reader : ApiKey
reader = record {
  secret_hash = "h";
  salt = "s";
  mode = "readonly";
  db_scope = "main" ∷ [];
  fs_scope = [];
  rate_limit_override = 0;
}

abbrev no_keys : Keys codec keys_db
no_keys = record { cache = []; table = [] }

abbrev widen : Updates
widen = record {
  mode = some "readwrite";
  db_scope = none;
  fs_scope = some ("*" ∷ []);
  rate_limit_override = none;
}

abbrev work : List (Operation codec keys_db)
work = Operation.add 5 "ann" reader ∷ Operation.update "ann" widen ∷ Operation.delete "bob" ∷ []

apply_all-get_api_key_example :
    get_api_key codec keys_db "ann" (
      load_api_keys codec keys_db
        (apply_all codec keys_db work (load_api_keys codec keys_db no_keys)))
    ≡ get_api_key codec keys_db "ann"
        (apply_all codec keys_db work (load_api_keys codec keys_db no_keys))
apply_all-get_api_key_example = apply_all-get_api_key codec keys_db work no_keys "ann"

abbrev one_key : Keys codec keys_db
one_key =
    apply_all codec keys_db (Operation.add 5 "ann" reader ∷ [])
      (load_api_keys codec keys_db no_keys)
