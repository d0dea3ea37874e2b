-- ===== src/Tests/DriveTests.antt =====
-- Paths, actions, listings and uploads of a storage at concrete inputs.
use nexus_gate.Prelude.{
  ◌≡◌, ◌↔◌, refl, ℕ, String, true, false, Option, none, some, List, [], ◌∷◌, lookup, insert,
  string_eq, arith, ◌==◌, if◌then◌else◌,
}
use nexus_gate.Text.{◌<>◌, cut_prefix, lstrip_char, rstrip_char}
use nexus_gate.Errors.{ok}
use nexus_gate.Actions.{◌>>=◌}
use nexus_gate.Auth.{AuthContext, readwrite}
use nexus_gate.Federation.Proxy.{server_of, resolve_server}
use nexus_gate.Storage.Bytes.{concat}
use nexus_gate.Storage.FilePath.{Paths, get_storage_path, target_path, Passes, get_storage_path_iff}
use nexus_gate.Storage.Usage.{
  Entries, file, folder, other, nil, cons, scan_directory, scan_directory-total, folders_in,
  bytes_in, files_in, scan_loop, scan_entries,
}
use nexus_gate.Storage.Site.{
  Drive, Storages, Site, DirEntry, entries, FileCall, rmtree, done, listed, results, is_remote,
  path_for,
}
use nexus_gate.Storage.Listing.{list_local, scan_page, list_local-repeat}
use nexus_gate.Storage.Scanner.{Names, Scanner, stream_chunks, scan_magic_bytes, is_over}
use nexus_gate.Storage.Scanner.Kept.{stream_chunks_iff, IsClean}
use nexus_gate.Storage.Actions.{
  ActionRequest, bulk_move, delete, execute_action, perform, delete_path, bulk_move_of,
  operations_for, bulk_move_paths, rename_path,
}
use nexus_gate.Storage.Actions.Touched.{Reach}
use nexus_gate.Storage.Actions.Inside.{execute_action-Reach}
use nexus_gate.Tests.RateTests.{dict_ttl}
use nexus_gate.Tests.ProxyTests.{echo_http, no_routes, get_rows_request}

-- A disk without links, that notes what is done.
abbrev plain_paths : Paths
plain_paths = record {
  Disk = List FileCall;
  realpath = λ path disk. rstrip_char b'/' path;
  join = λ base rel. base <> ("/" <> rel);
}

abbrev named : String → DirEntry
named name = record { name = name; path = name; is_dir = false }

abbrev noting_drive : Drive
noting_drive = record {
  paths = plain_paths;
  scandir = λ path disk. entries (named "a" ∷ named "b" ∷ named "c" ∷ []);
  exists = λ path disk. true;
  isdir = λ path disk. true;
  touch = λ call disk. (call ∷ disk, done);
  sort_by_name = λ es. es;
  sort_by_path = λ es. es;
  http = echo_http;
  listings = dict_ttl;
}

abbrev one_storage : Storages
one_storage = record {
  storage = ("files", "/srv/files") ∷ [];
  mesh = record { federated_aliases = []; server = [] };
  federation_enabled = false;
}

abbrev fresh_site : Site noting_drive
fresh_site = record { disk = []; listings = []; routes = no_routes; net = [] }

abbrev writer : AuthContext
writer = record {
  api_key_name = "writer";
  mode = readwrite;
  db_scope = [];
  fs_scope = "files" ∷ [];
  rate_limit_override = 0;
  full_admin = false;
}

program : Unit {0}
unfolding lookup insert cut_prefix lstrip_char rstrip_char target_path get_storage_path list_local
    scan_page path_for stream_chunks scan_magic_bytes execute_action perform delete_path
    bulk_move_of operations_for bulk_move_paths rename_path is_remote scan_loop scan_entries
    folders_in bytes_in files_in ◌>>=◌ resolve_server server_of
program = tt

-- A disk on which `..` is taken out of one path.
abbrev climbing : Paths
climbing = record plain_paths {
  realpath = λ path disk. if path == "/srv/files/../files2/x" then "/srv/files2/x" else path;
}

climbs :
    get_storage_path climbing one_storage.storage "files" (some "../files2/x") writer []
    ≡ ok "/srv/files2/x"
unfolding program
climbs = refl

get_storage_path_iff_example :
    (get_storage_path climbing one_storage.storage "files" (some "../files2/x") writer []
      ≡ ok "/srv/files2/x")
    ↔ Passes climbing one_storage.storage "files" (some "../files2/x") writer [] "/srv/files2/x"
get_storage_path_iff_example =
    get_storage_path_iff climbing one_storage.storage "files" (some "../files2/x") writer []
      "/srv/files2/x"

abbrev tree : Entries
tree = cons (file 3) (cons (folder (cons (file 4) nil)) (cons other nil))

scan_directory-total_example :
    scan_directory 2 tree ≡ record { stack = []; total_bytes = 7; file_count = 2 }
unfolding program
scan_directory-total_example = scan_directory-total 2 tree (ground arith)

list_local-repeat_example :
    let w = (list_local noting_drive one_storage 9 0 "files" "/" false 2 0 writer fresh_site).0 in
    (list_local noting_drive one_storage 9 1 "files" "/" false 2 2 writer w).1
    ≡ ok (listed [] 3 2 2 false)
unfolding program
list_local-repeat_example =
    list_local-repeat noting_drive one_storage 9 0 "files" "/" false writer fresh_site "/srv/files"
      refl 1 2 0 2 2 3 (named "a" ∷ named "b" ∷ []) refl refl (omega arith) (λ e. cc)

abbrev plain_names : Names
plain_names = record { extension = λ s. ".txt"; lower = λ s. s }

abbrev four_bytes : Scanner
four_bytes = record { allowed_extensions = []; blocked_extensions = []; max_file_size = 4 }

stream_chunks_iff_example :
    (◌≡◌ {A = List ℕ} (104 ∷ 105 ∷ 33 ∷ []) (concat ((104 ∷ 105 ∷ []) ∷ (33 ∷ []) ∷ [])))
    × (is_over four_bytes 3 ≡ false)
    × IsClean plain_names 8 four_bytes "a.txt" ((104 ∷ 105 ∷ []) ∷ (33 ∷ []) ∷ [])
unfolding program
stream_chunks_iff_example =
    (stream_chunks_iff plain_names 8 four_bytes "a.txt" ((104 ∷ 105 ∷ []) ∷ (33 ∷ []) ∷ [])
        (104 ∷ 105 ∷ 33 ∷ [])).0
      refl

abbrev request_of : Option String → ActionRequest
request_of source = record {
  action = delete;
  source = source;
  target = none;
  sources = [];
  operations = [];
}

-- A delete that names no source takes the whole storage away.
delete_all :
    (execute_action noting_drive one_storage "files" writer get_rows_request
      (request_of none)
      fresh_site).0.disk
    ≡ rmtree "/srv/files" ∷ []
unfolding program
delete_all = refl

-- An operation that is left out shifts the names of the results.
bulk_names :
    let body : ActionRequest = record (request_of none) {
      action = bulk_move;
      operations =
          record { source = some "x"; target = none }
          ∷ record { source = some "y"; target = some "z" }
          ∷ [];
    } in
    (execute_action noting_drive one_storage "files" writer get_rows_request body fresh_site).1
    ≡ ok (results ((some "x", none, true) ∷ []))
unfolding program
bulk_names = refl

execute_action-Reach_example :
    Reach noting_drive one_storage "files" writer []
      (execute_action noting_drive one_storage "files" writer get_rows_request
        (request_of (some "a"))
        fresh_site).0.disk
execute_action-Reach_example =
    execute_action-Reach noting_drive one_storage "files" writer get_rows_request
      (request_of (some "a")) fresh_site
