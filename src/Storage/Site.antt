-- ===== src/Storage/Site.antt =====
-- What the handlers of src/api/storage/handlers.py stand on: the disk, the cache of listings and the
-- requests for other sites.
use nexus_gate.Prelude.{ℕ, String, Bool, true, false, not, Option, none, some, List, if◌then◌else◌}
use nexus_gate.Errors.{ok}
use nexus_gate.Actions.{Action, continue, pure}
use nexus_gate.Auth.{AuthContext}
use nexus_gate.RateLimit.Memory.{TtlCache}
use nexus_gate.Federation.Proxy.{
  Http, Mesh, Routes, Request, Response, proxy_request, resolve_server,
}
use nexus_gate.Storage.FilePath.{Paths, get_storage_path}

-- An `os.DirEntry`.
pub record DirEntry : Type 0 where
  pub name : String
  pub path : String
  pub is_dir : Bool

pub data Scandir : Type 0 where
  entries : List DirEntry → Scandir
  file_not_found not_a_directory permission_error failure : Scandir

-- What the operations of a disk do: `os.rename`, `shutil.copytree`, `shutil.copy2`, `shutil.rmtree`,
-- `os.remove` and `os.makedirs`.
pub data FileCall : Type 0 where
  rename copytree copy2 : (source target : String) → FileCall
  rmtree remove makedirs : (path : String) → FileCall

pub data Outcome : Type 0 where
  done missing failed : Outcome

-- The operating system, Python's sort by a key, and the cache.
pub record Drive : Type 1 where
  pub paths : Paths
  pub scandir : String → paths.Disk → Scandir
  pub exists : String → paths.Disk → Bool
  pub isdir : String → paths.Disk → Bool
  pub touch : FileCall → paths.Disk → paths.Disk × Outcome
  pub sort_by_name : List DirEntry → List DirEntry
  pub sort_by_path : List DirEntry → List DirEntry
  pub http : Http
  pub listings : TtlCache (ℕ × List DirEntry)

-- Of the settings: the directory of each storage, and the sites.
pub record Storages : Type 0 where
  pub storage : List (String × String)
  pub mesh : Mesh
  pub federation_enabled : Bool

pub data Answer : Type 0 where
  relayed : Response → Answer
  listed : (page : List DirEntry) → (total limit offset : ℕ) → (has_more : Bool) → Answer
  exists_is : Bool → Answer
  info_of : (path : String) → Answer
  success : Answer
  -- Of a bulk action, each source and target as the client wrote it, and whether it was done.
  results : List (Option String × Option String × Bool) → Answer

module _ (drive : Drive) where
  pub record Site : Type 0 where
    pub disk : drive.paths.Disk
    pub listings : drive.listings.Cache
    pub routes : Routes
    pub net : drive.http.Net

module _ (drive : Drive) (cfg : Storages) where
  unfoldable pub is_remote : String → Action (Site drive) Bool
  is_remote alias w =
      if not cfg.federation_enabled
      then (w, ok false)
      else (let (routes, found) = resolve_server cfg.mesh alias w.routes in
          (record w { routes = routes }, ok (elim found [ none ↦ false | some server_id ↦ true ])))

  unfoldable pub relay_to : String → String → Request → Action (Site drive) Answer
  relay_to alias path req w =
      let (st, out) = proxy_request drive.http cfg.mesh alias path req false (w.routes, w.net) in
      let (routes, net) = st in
      continue (record w { routes = routes; net = net }, out) (λ resp. pure (relayed resp))

  unfoldable pub path_for : String → Option String → AuthContext → Action (Site drive) String
  path_for alias rel_path auth w =
      (w, get_storage_path drive.paths cfg.storage alias rel_path auth w.disk)
