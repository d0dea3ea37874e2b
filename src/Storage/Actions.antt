-- ===== src/Storage/Actions.antt =====
-- src/api/storage/file_ops.py and `execute_action` of src/api/storage/handlers.py.
pub mod Touched
pub mod Inside
use nexus_gate.Prelude.{
  String, Bool, true, false, not, ◌&&◌, Option, none, some, List, [], ◌∷◌, ◌==◌, if◌then◌else◌,
}
use nexus_gate.Text.{truthy}
use nexus_gate.Errors.{
  Result, raise, ok, nexus, fs_path_not_found, server_internal, input_schema_invalid,
  auth_insufficient_mode,
}
use nexus_gate.Actions.{Action, ◌>>=◌, ◌>>◌, pure, fail, lift, gets, raise_when}
use nexus_gate.Auth.{ServerMode, readonly, AuthContext}
use nexus_gate.Federation.Proxy.{Request}
use nexus_gate.Storage.FilePath.{get_storage_path}
use nexus_gate.Storage.Site.{
  FileCall, rename, copytree, copy2, rmtree, remove, makedirs, Outcome, done, missing, failed,
  Drive, Storages, Answer, exists_is, info_of, success, results, Site, is_remote, relay_to,
  path_for,
}

pub data ActionName : Type 0 where
  rename_to move copy delete mkdir info exists bulk_delete bulk_move : ActionName

pub record Operation : Type 0 where
  pub source : Option String
  pub target : Option String

-- `ActionRequest`.
pub record ActionRequest : Type 0 where
  pub action : ActionName
  pub source : Option String
  pub target : Option String
  pub sources : List String
  pub operations : List Operation

-- What an exception of the operating system becomes.
abbrev pub or_not_found : Outcome → Result (Unit {0})
or_not_found done = ok tt
or_not_found missing = raise (nexus fs_path_not_found 404)
or_not_found failed = raise (nexus server_internal 500)

abbrev pub or_internal : Outcome → Result (Unit {0})
or_internal done = ok tt
or_internal other = raise (nexus server_internal 500)

-- `status` of a result.
abbrev pub succeeded : Result (Unit {0}) → Bool
succeeded (ok u) = true
succeeded (raise e) = false

abbrev pub is_locked : ServerMode → Bool
is_locked readonly = true
is_locked other = false

abbrev pub only_looks : ActionName → Bool
only_looks info = true
only_looks exists = true
only_looks other = false

abbrev pub given_operation : Operation → Bool
given_operation o = truthy o.source && truthy o.target

module _ (drive : Drive) where
  abbrev pub Task : Type 0 → Type 0
  Task A = Action (Site drive) A

  -- A call of the operating system on the disk.
  abbrev pub touch : (Outcome → Result (Unit {0})) → FileCall → Task (Unit {0})
  touch read call w =
      let (disk, outcome) = drive.touch call w.disk in (record w { disk = disk }, read outcome)

  unfoldable pub rename_path : String → String → Task (Unit {0})
  rename_path source target = touch or_not_found (rename source target)

  unfoldable pub copy_path : String → String → Task (Unit {0})
  copy_path source target = do
    is_dir ← gets (λ w. drive.isdir source w.disk)
    if is_dir
        then touch or_internal (copytree source target)
        else touch or_internal (copy2 source target)

  unfoldable pub delete_path : String → Task (Unit {0})
  delete_path source = do
    there ← gets (λ w. drive.exists source w.disk)
    raise_when (not there) fs_path_not_found 404
    is_dir ← gets (λ w. drive.isdir source w.disk)
    if is_dir then touch or_internal (rmtree source) else touch or_internal (remove source)

  unfoldable pub make_directory : String → Task (Unit {0})
  make_directory path = touch or_internal (makedirs path)

  -- A step of a bulk action, whose exception becomes its status.
  abbrev pub attempt : Task (Unit {0}) → Task Bool
  attempt m w = let (w', r) = m w in (w', ok (succeeded r))

  unfoldable pub bulk_delete_paths : List String → Task (List Bool)
  unfolding delete_path
  bulk_delete_paths [] = pure []
  bulk_delete_paths (source ∷ sources) = do
    status ← attempt (delete_path source)
    rest ← bulk_delete_paths sources
    pure (status ∷ rest)

  unfoldable pub bulk_move_paths : List (String × String) → Task (List Bool)
  unfolding rename_path
  bulk_move_paths [] = pure []
  bulk_move_paths ((source, target) ∷ operations) = do
    status ← attempt (
        if source == ""
        then fail (nexus input_schema_invalid 400)
        else if target == ""
        then fail (nexus input_schema_invalid 400)
        else rename_path source target)
    rest ← bulk_move_paths operations
    pure (status ∷ rest)

  module _ (cfg : Storages) (alias : String) (auth : AuthContext) where
    unfoldable pub paths_for : List String → Task (List String)
    unfolding path_for
    paths_for [] = pure []
    paths_for (source ∷ sources) = do
      path ← path_for drive cfg alias (some source) auth
      rest ← paths_for sources
      pure (path ∷ rest)

    unfoldable pub operations_for : List Operation → Task (List (String × String))
    unfolding path_for
    operations_for [] = pure []
    operations_for (o ∷ operations) =
        let rest = operations_for operations in
        if given_operation o
        then (do
          source ← path_for drive cfg alias o.source auth
          target ← path_for drive cfg alias o.target auth
          others ← rest
          pure ((source, target) ∷ others))
        else rest

    -- Each result with the source, or the operation, that stands at its place in the request.
    abbrev pub name_sources : List String → List Bool → List (Option String × Option String × Bool)
    name_sources (source ∷ sources) (status ∷ rest) =
        (some source, none, status) ∷ name_sources sources rest
    name_sources sources statuses = []

    abbrev pub name_operations :
        List Operation → List Bool → List (Option String × Option String × Bool)
    name_operations (o ∷ operations) (status ∷ rest) =
        (o.source, o.target, status) ∷ name_operations operations rest
    name_operations operations statuses = []

    unfoldable pub bulk_delete_of : List String → Task Answer
    unfolding paths_for bulk_delete_paths
    bulk_delete_of [] = fail (nexus input_schema_invalid 400)
    bulk_delete_of (source ∷ sources) = do
      real_paths ← paths_for (source ∷ sources)
      statuses ← bulk_delete_paths real_paths
      pure (results (name_sources (source ∷ sources) statuses))

    unfoldable pub bulk_move_of : List Operation → Task Answer
    unfolding operations_for bulk_move_paths
    bulk_move_of [] = fail (nexus input_schema_invalid 400)
    bulk_move_of (o ∷ operations) = do
      real_ops ← operations_for (o ∷ operations)
      statuses ← bulk_move_paths real_ops
      pure (results (name_operations (o ∷ operations) statuses))

    -- A path and then what is done with it; or two, first one and then the other.
    abbrev pub on_source : Option String → (String → Task Answer) → Task Answer
    on_source source act = do path ← path_for drive cfg alias source auth; act path

    abbrev pub on_both :
        Option String → Option String → (String → String → Task (Unit {0})) → Task Answer
    on_both source target act = do
      from ← path_for drive cfg alias source auth
      to ← path_for drive cfg alias target auth
      act from to
      pure success

    unfoldable pub perform : ActionName → ActionRequest → Task Answer
    unfolding path_for rename_path copy_path delete_path make_directory bulk_delete_of bulk_move_of
    perform info body = on_source body.source (λ path. do
      there ← gets (λ w. drive.exists path w.disk)
      raise_when (not there) fs_path_not_found 404
      pure (info_of path))
    perform exists body =
        on_source body.source
          (λ path. do there ← gets (λ w. drive.exists path w.disk); pure (exists_is there))
    perform bulk_delete body = bulk_delete_of body.sources
    perform bulk_move body = bulk_move_of body.operations
    perform delete body = on_source body.source (λ path. do delete_path path; pure success)
    perform mkdir body = on_source body.source (λ path. do make_directory path; pure success)
    perform copy body = on_both body.source body.target copy_path
    perform rename_to body = on_both body.source body.target rename_path
    perform move body = on_both body.source body.target rename_path

    unfoldable pub execute_action : Request → ActionRequest → Task Answer
    unfolding perform is_remote relay_to
    execute_action req body = do
      remote ← is_remote drive cfg alias
      if remote then relay_to drive cfg alias "action" req else (do
        raise_when (is_locked auth.mode && not (only_looks body.action)) auth_insufficient_mode 403
        perform body.action body)
