-- ===== src/Storage/Listing.antt =====
-- `list_folder` of src/api/storage/handlers.py.
use nexus_gate.Prelude.{
  ℕ, zero, suc, ◌+◌, String, Bool, true, false, Option, none, some, List, [], ◌∷◌, ◌≡◌, ◌≢◌, ◌≤◌,
  inl, inr, refl, ap, ◌∙◌, if◌then◌else◌, ltb, length, take, string_eq,
}
use nexus_gate.Text.{◌<>◌}
use nexus_gate.Errors.{
  Result, raise, ok, nexus, fs_path_not_found, auth_scope_denied, server_internal,
}
use nexus_gate.Actions.{Action, ◌>>=◌, ◌>>◌, pure, gets, modify}
use nexus_gate.Auth.{AuthContext}
use nexus_gate.Federation.Proxy.{Request}
use nexus_gate.Storage.Bytes.{drop}
use nexus_gate.Storage.FilePath.{get_storage_path}
use nexus_gate.Storage.Site.{
  DirEntry, Scandir, entries, file_not_found, not_a_directory, permission_error, failure, Drive,
  Storages, Answer, listed, Site, is_remote, relay_to, path_for,
}

abbrev pub scanned : Scandir → Result (List DirEntry)
scanned (entries es) = ok es
scanned file_not_found = raise (nexus fs_path_not_found 404)
scanned not_a_directory = raise (nexus fs_path_not_found 400)
scanned permission_error = raise (nexus auth_scope_denied 403)
scanned failure = raise (nexus server_internal 500)

abbrev pub or_none : Scandir → List DirEntry
or_none (entries es) = es
or_none error = []

abbrev pub page_of : ℕ → ℕ → List DirEntry → List DirEntry
page_of limit offset es = take limit (drop offset es)

abbrev pub bool_text : Bool → String
bool_text true = "True"
bool_text false = "False"

abbrev pub listing_key : String → Bool → String
listing_key target_path recursive = "ls:" <> (target_path <> (":r=" <> bool_text recursive))

abbrev pub last_first : List DirEntry → List DirEntry → List DirEntry
last_first [] stack = stack
last_first (e ∷ es) stack = last_first es (e ∷ stack)

module _ (drive : Drive) (cfg : Storages) where
  -- The walk, with the end of the stack first, for as many entries as the fuel says.
  unfoldable pub walk : ℕ → List DirEntry → drive.paths.Disk → List DirEntry
  walk zero stack disk = []
  walk (suc fuel) [] disk = []
  walk (suc fuel) (e ∷ stack) disk =
      let deeper = walk fuel (last_first (or_none (drive.scandir e.path disk)) stack) disk in
      let further = walk fuel stack disk in e ∷ (if e.is_dir then deeper else further)

  abbrev pub all_entries : ℕ → Bool → List DirEntry → drive.paths.Disk → List DirEntry
  all_entries fuel true es disk = drive.sort_by_path (walk fuel (last_first es []) disk)
  all_entries fuel false es disk = drive.sort_by_name es

  -- `_scan_directory`: the number of entries and one page of them.
  unfoldable pub scan_page :
      ℕ → String → Bool → ℕ → ℕ → drive.paths.Disk → Result (ℕ × List DirEntry)
  unfolding walk
  scan_page fuel target_path recursive limit offset disk =
      elim (scanned (drive.scandir target_path disk)) [
        | raise e ↦ raise e
        | ok es ↦
            let all = all_entries fuel recursive es disk in
            ok (length all, page_of limit offset all)
      ]

  abbrev pub answer_page : ℕ → ℕ → ℕ → List DirEntry → Answer
  answer_page limit offset total items =
      listed items total limit offset (ltb (offset + limit) total)

  abbrev pub listed_or_scan :
      ℕ → ℕ → String → Bool → ℕ → ℕ → Option (ℕ × List DirEntry) → Action (Site drive) Answer
  listed_or_scan fuel now target_path recursive limit offset (some (total, all_items)) =
      pure (answer_page limit offset total (page_of limit offset all_items))
  listed_or_scan fuel now target_path recursive limit offset none = do
    (total, items) ← (λ w. (w, scan_page fuel target_path recursive limit offset w.disk))
    modify (λ w. record w {
      listings =
          drive.listings.put now (listing_key target_path recursive) (total, items) w.listings;
    })
    pure (answer_page limit offset total items)

  unfoldable pub list_local :
      ℕ → ℕ → String → String → Bool → ℕ → ℕ → AuthContext → Action (Site drive) Answer
  unfolding scan_page path_for
  list_local fuel now alias path recursive limit offset auth = do
    target_path ← path_for drive cfg alias (some path) auth
    cached ← gets (λ w. drive.listings.get now (listing_key target_path recursive) w.listings)
    listed_or_scan fuel now target_path recursive limit offset cached

  unfoldable pub list_folder :
      ℕ → ℕ → Request → String → String → Bool → ℕ → ℕ → AuthContext → Action (Site drive) Answer
  unfolding list_local is_remote relay_to
  list_folder fuel now req alias path recursive limit offset auth = do
    remote ← is_remote drive cfg alias
    if remote
        then relay_to drive cfg alias "list" req
        else list_local fuel now alias path recursive limit offset auth

module _ (drive : Drive) (cfg : Storages) (fuel now : ℕ) (alias path : String) (recursive : Bool)
    (auth : AuthContext) (w : Site drive) (target : String)
    (passed : get_storage_path drive.paths cfg.storage alias (some path) auth w.disk
      ≡ ok target) where
  abbrev put_page : ℕ → List DirEntry → Site drive
  put_page total items = record w {
    listings = drive.listings.put now (listing_key target recursive) (total, items) w.listings;
  }

  first_time :
      (limit offset total : ℕ) (items : List DirEntry)
      → drive.listings.get now (listing_key target recursive) w.listings ≡ none
      → scan_page drive cfg fuel target recursive limit offset w.disk ≡ ok (total, items)
      → list_local drive cfg fuel now alias path recursive limit offset auth w
        ≡ (put_page total items, ok (answer_page drive cfg limit offset total items))
  unfolding list_local path_for ◌>>=◌
  first_time limit offset total items fresh scan = rw (passed, fresh, scan) refl

  from_cache :
      (later limit offset total : ℕ) (items : List DirEntry)
      → drive.listings.get later (listing_key target recursive) (put_page total items).listings
        ≡ some (total, items)
      → (list_local drive cfg fuel later alias path recursive limit offset auth
          (put_page total items)).1
        ≡ ok (answer_page drive cfg limit offset total (page_of limit offset items))
  unfolding list_local path_for ◌>>=◌
  from_cache later limit offset total items found = rw (passed, found) refl

  still_there :
      (later total : ℕ) (items : List DirEntry)
      → now ≤ later
      → drive.listings.get later (listing_key target recursive) (put_page total items).listings
        ≢ none
      → drive.listings.get later (listing_key target recursive) (put_page total items).listings
        ≡ some (total, items)
  still_there later total items le there =
      elim (drive.listings.get-later now later (listing_key target recursive)
        (put_page total items).listings le) [
          | inl same ↦
              same
              ∙ drive.listings.get-put_self now (listing_key target recursive) (total, items)
                  w.listings
          | inr gone ↦ absurd (there gone)
        ]

  pub list_local-repeat :
      (later limit offset limit' offset' total : ℕ) (items : List DirEntry)
      → drive.listings.get now (listing_key target recursive) w.listings ≡ none
      → scan_page drive cfg fuel target recursive limit offset w.disk ≡ ok (total, items)
      → now ≤ later
      → let w' = (list_local drive cfg fuel now alias path recursive limit offset auth w).0 in
        drive.listings.get later (listing_key target recursive) w'.listings ≢ none
        → (list_local drive cfg fuel later alias path recursive limit' offset' auth w').1
          ≡ ok (answer_page drive cfg limit' offset' total (page_of limit' offset' items))
  list_local-repeat later limit offset limit' offset' total items fresh scan le there =
      let e = first_time limit offset total items fresh scan in
      let found = still_there later total items le (rw e at there) in
      ap (λ p. (list_local drive cfg fuel later alias path recursive limit' offset' auth p.0).1) e
      ∙ from_cache later limit' offset' total items found
