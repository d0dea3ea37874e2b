-- ===== src/Storage/Actions/Touched.antt =====
-- What src/api/storage/file_ops.py does to the disk, on paths that have been checked.
use nexus_gate.Prelude.{
  String, Bool, true, false, Option, List, [], ◌∷◌, ◌==◌, ◌≡◌, if◌then◌else◌, All,
}
use nexus_gate.Errors.{Result, ok}
use nexus_gate.Actions.{Preorder, Keeps, bind-Keeps}
use nexus_gate.Auth.{AuthContext}
use nexus_gate.Storage.FilePath.{get_storage_path}
use nexus_gate.Storage.Site.{
  FileCall, rename, copytree, copy2, rmtree, remove, makedirs, Outcome, Drive, Storages, Site,
}
use nexus_gate.Storage.Actions.{
  or_not_found, or_internal, is_locked, Task, touch, rename_path, copy_path, delete_path, attempt,
  bulk_delete_paths, bulk_move_paths,
}

module _ (drive : Drive) (cfg : Storages) (alias : String) (auth : AuthContext) where
  -- A path that the check of paths has given, for the key and the storage of the request.
  abbrev pub Resolved : String → Type 0
  Resolved path =
      (disk : drive.paths.Disk) × (rel_path : Option String) × (get_storage_path drive.paths
          cfg.storage alias rel_path auth disk
        ≡ ok path)

  abbrev pub Touches : FileCall → Type 0
  Touches (rename source target) = Resolved source × Resolved target
  Touches (copytree source target) = Resolved source × Resolved target
  Touches (copy2 source target) = Resolved source × Resolved target
  Touches (rmtree path) = Resolved path
  Touches (remove path) = Resolved path
  Touches (makedirs path) = Resolved path

  -- What the disk becomes by calls on such paths, for a key that is not for reading alone.
  pub data Reach : drive.paths.Disk → drive.paths.Disk → Type 0 where
    stay : (d : drive.paths.Disk) → Reach d d
    call :
        (d : drive.paths.Disk) (c : FileCall) {e : drive.paths.Disk}
        → is_locked auth.mode ≡ false
        → Touches c
        → Reach (drive.touch c d).0 e
        → Reach d e

  pub follow : {u v w : drive.paths.Disk} → Reach u v → Reach v w → Reach u w
  follow (stay d) r = r
  follow (call d c unlocked touches q) r = call d c unlocked touches (follow q r)

  abbrev pub order : Preorder (Site drive)
  order = record {
    Rel = λ u w. Reach u.disk w.disk;
    stay = λ w. stay w.disk;
    follow = λ u v w. follow;
  }

  abbrev pub Quiet : {A : Type 0} → Task drive A → Type 0
  Quiet m = Keeps order m

  abbrev pub pair-Resolved : String × String → Type 0
  pair-Resolved (source, target) = Resolved source × Resolved target

  pub branch-Reach :
      {A : Type 0} (b : Bool) (m n : Task drive A) → Quiet m → Quiet n → Quiet (if b then m else n)
  branch-Reach true m n p q = p
  branch-Reach false m n p q = q

  pub pick-true :
      {A : Type 0} (b : Bool) (m n : Task drive A) (w : Site drive) {r : Result A}
      → b ≡ true
      → ((if b then m else n) w).1 ≡ r
      → (m w).1 ≡ r
  pick-true true m n w e h = h
  pick-true false m n w e h = cc

  pub pick-false :
      {A : Type 0} (b : Bool) (m n : Task drive A) (w : Site drive) {r : Result A}
      → b ≡ false
      → ((if b then m else n) w).1 ≡ r
      → (n w).1 ≡ r
  pick-false true m n w e h = cc
  pick-false false m n w e h = h

  module _ (unlocked : is_locked auth.mode ≡ false) where
    pub touch-Reach :
        (read : Outcome → Result (Unit {0})) (c : FileCall) → Touches c → Quiet (touch drive read c)
    touch-Reach read c touches w = call w.disk c unlocked touches (stay _)

    pub rename-Reach :
        (source target : String)
        → Resolved source
        → Resolved target
        → Quiet (rename_path drive source target)
    unfolding rename_path
    rename-Reach source target s t = touch-Reach or_not_found (rename source target) (s, t)

    pub copy-Reach :
        (source target : String)
        → Resolved source
        → Resolved target
        → Quiet (copy_path drive source target)
    unfolding copy_path
    copy-Reach source target s t =
        bind-Keeps order _ _ (λ w. stay w.disk)
          (λ is_dir.
            branch-Reach is_dir _ _ (touch-Reach or_internal (copytree source target) (s, t))
              (touch-Reach or_internal (copy2 source target) (s, t)))

    pub delete-Reach : (source : String) → Resolved source → Quiet (delete_path drive source)
    unfolding delete_path
    delete-Reach source s =
        bind-Keeps order _ _ (λ w. stay w.disk)
          (λ there.
            bind-Keeps order _ _ (λ w. stay w.disk)
              (λ u.
                bind-Keeps order _ _ (λ w. stay w.disk)
                  (λ is_dir.
                    branch-Reach is_dir _ _ (touch-Reach or_internal (rmtree source) s)
                      (touch-Reach or_internal (remove source) s))))

    pub bulk_delete-Reach :
        (sources : List String) → All Resolved sources → Quiet (bulk_delete_paths drive sources)
    unfolding bulk_delete_paths
    bulk_delete-Reach [] h = λ w. stay w.disk
    bulk_delete-Reach (source ∷ sources) (s, h) =
        bind-Keeps order (attempt drive (delete_path drive source)) _ (delete-Reach source s)
          (λ status. bind-Keeps order _ _ (bulk_delete-Reach sources h) (λ rest w. stay w.disk))

    pub bulk_move-Reach :
        (operations : List (String × String))
        → All pair-Resolved operations
        → Quiet (bulk_move_paths drive operations)
    unfolding bulk_move_paths
    bulk_move-Reach [] h = λ w. stay w.disk
    bulk_move-Reach ((source, target) ∷ operations) ((s, t), h) =
        bind-Keeps order (attempt drive _) _
          (branch-Reach (source == "") _ _ (λ w. stay w.disk)
            (branch-Reach (target == "") _ _ (λ w. stay w.disk) (rename-Reach source target s t)))
          (λ status. bind-Keeps order _ _ (bulk_move-Reach operations h) (λ rest w. stay w.disk))
