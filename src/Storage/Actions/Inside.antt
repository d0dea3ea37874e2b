-- ===== src/Storage/Actions/Inside.antt =====
-- Which paths `execute_action` of src/api/storage/handlers.py can touch.
use nexus_gate.Prelude.{
  String, Bool, true, false, not, ◌&&◌, Option, some, List, [], ◌∷◌, ◌≡◌, refl, sym, subst, arith,
  if◌then◌else◌, All, Bool-cases, inl, inr, if_not-both,
}
use nexus_gate.Errors.{Result, raise, ok, nexus, auth_insufficient_mode}
use nexus_gate.Actions.{continue, pure, bind-Keeps, bind-Keeps_ok, lift-Keeps, bind-ok}
use nexus_gate.Auth.{AuthContext}
use nexus_gate.Federation.Proxy.{Request, Response}
use nexus_gate.Storage.Site.{
  makedirs, Drive, Storages, Answer, relayed, Site, is_remote, relay_to, path_for,
}
use nexus_gate.Storage.Actions.{
  ActionName, rename_to, move, copy, delete, mkdir, info, exists, bulk_delete, bulk_move, Operation,
  ActionRequest, or_internal, is_locked, only_looks, given_operation, Task, touch, make_directory,
  paths_for, operations_for, bulk_delete_of, bulk_move_of, on_source, on_both, perform,
  execute_action,
}
use nexus_gate.Storage.Actions.Touched.{
  Resolved, Reach, stay, order, Quiet, pair-Resolved, branch-Reach, pick-true, pick-false,
  touch-Reach, rename-Reach, copy-Reach, delete-Reach, bulk_delete-Reach, bulk_move-Reach,
}

module _ (drive : Drive) (cfg : Storages) (alias : String) (auth : AuthContext) where
  path-Reach :
      (rel_path : Option String)
      → Quiet drive cfg alias auth (path_for drive cfg alias rel_path auth)
  unfolding path_for
  path-Reach rel_path = λ w. stay w.disk

  path-Resolved :
      (rel_path : Option String) (w : Site drive) (path : String)
      → (path_for drive cfg alias rel_path auth w).1 ≡ ok path
      → Resolved drive cfg alias auth path
  unfolding path_for
  path-Resolved rel_path w path h = (w.disk, rel_path, h)

  paths-Reach :
      (sources : List String) → Quiet drive cfg alias auth (paths_for drive cfg alias auth sources)
  unfolding paths_for
  paths-Reach [] = λ w. stay w.disk
  paths-Reach (source ∷ sources) =
      bind-Keeps (order drive cfg alias auth) _ _ (path-Reach (some source)) (λ path.
        bind-Keeps (order drive cfg alias auth) _ _ (paths-Reach sources) (λ rest w. stay w.disk))

  paths-Resolved :
      (sources : List String) (w : Site drive) (paths : List String)
      → (paths_for drive cfg alias auth sources w).1 ≡ ok paths
      → All (Resolved drive cfg alias auth) paths
  unfolding paths_for
  paths-Resolved [] w paths h =
      let same : [] ≡ paths = ground (arith, h) in
      subst (λ ps. All (Resolved drive cfg alias auth) ps) same tt
  paths-Resolved (source ∷ sources) w paths h =
      let (path, e, h1) = bind-ok (path_for drive cfg alias (some source) auth) _ w h in
      let (rest, e1, h2) = bind-ok (paths_for drive cfg alias auth sources) _ _ h1 in
      let same : path ∷ rest ≡ paths = ground (arith, h2) in
      subst (λ ps. All (Resolved drive cfg alias auth) ps) same
        (path-Resolved (some source) w path e, paths-Resolved sources _ rest e1)

  operations-Reach :
      (operations : List Operation)
      → Quiet drive cfg alias auth (operations_for drive cfg alias auth operations)
  unfolding operations_for
  operations-Reach [] = λ w. stay w.disk
  operations-Reach (o ∷ operations) =
      branch-Reach drive cfg alias auth (given_operation o) _ _
        (bind-Keeps (order drive cfg alias auth) _ _ (path-Reach o.source) (λ source.
          bind-Keeps (order drive cfg alias auth) _ _ (path-Reach o.target) (λ target.
            bind-Keeps (order drive cfg alias auth) _ _ (operations-Reach operations)
              (λ rest w. stay w.disk))))
        (operations-Reach operations)

  operations-Resolved :
      (operations : List Operation) (w : Site drive) (pairs : List (String × String))
      → (operations_for drive cfg alias auth operations w).1 ≡ ok pairs
      → All (pair-Resolved drive cfg alias auth) pairs
  unfolding operations_for
  operations-Resolved [] w pairs h =
      let same : [] ≡ pairs = ground (arith, h) in
      subst (λ ps. All (pair-Resolved drive cfg alias auth) ps) same tt
  operations-Resolved (o ∷ operations) w pairs h = elim (Bool-cases (given_operation o)) [
    | inl given ↦
        let (source, e, h1) =
          bind-ok (path_for drive cfg alias o.source auth) _ w
            (pick-true drive cfg alias auth (given_operation o) _ _ w given h) in
        let (target, e1, h2) = bind-ok (path_for drive cfg alias o.target auth) _ _ h1 in
        let (rest, e2, h3) = bind-ok (operations_for drive cfg alias auth operations) _ _ h2 in
        let same : (source, target) ∷ rest ≡ pairs = ground (arith, h3) in
        subst (λ ps. All (pair-Resolved drive cfg alias auth) ps) same
          (
            (
              path-Resolved o.source w source e,
              path-Resolved o.target (path_for drive cfg alias o.source auth w).0 target e1,
            ),
            operations-Resolved operations _ rest e2,
          )
    | inr left_out ↦
        operations-Resolved operations w pairs
          (pick-false drive cfg alias auth (given_operation o) _ _ w left_out h)
  ]

  source-Reach :
      (source : Option String) (act : String → Task drive Answer)
      → ((path : String)
          → Resolved drive cfg alias auth path
          → Quiet drive cfg alias auth (act path))
      → Quiet drive cfg alias auth (on_source drive cfg alias auth source act)
  source-Reach source act later =
      bind-Keeps_ok (order drive cfg alias auth) _ _ (path-Reach source)
        (λ w path e. later path (path-Resolved source w path e))

  both-Reach :
      (source target : Option String) (act : String → String → Task drive (Unit {0}))
      → ((from to : String)
          → Resolved drive cfg alias auth from
          → Resolved drive cfg alias auth to
          → Quiet drive cfg alias auth (act from to))
      → Quiet drive cfg alias auth (on_both drive cfg alias auth source target act)
  both-Reach source target act later =
      bind-Keeps_ok (order drive cfg alias auth) _ _ (path-Reach source) (λ w from e.
        bind-Keeps_ok (order drive cfg alias auth) _ _ (path-Reach target) (λ v to e1.
          bind-Keeps (order drive cfg alias auth) _ _
            (later from to (path-Resolved source w from e) (path-Resolved target v to e1))
            (λ u v. stay v.disk)))

  bulk_delete_of-Reach :
      is_locked auth.mode ≡ false
      → (sources : List String)
      → Quiet drive cfg alias auth (bulk_delete_of drive cfg alias auth sources)
  unfolding bulk_delete_of
  bulk_delete_of-Reach unlocked [] = λ w. stay w.disk
  bulk_delete_of-Reach unlocked (source ∷ sources) =
      bind-Keeps_ok (order drive cfg alias auth) _ _ (paths-Reach (source ∷ sources)) (λ w paths e.
        bind-Keeps (order drive cfg alias auth) _ _
          (bulk_delete-Reach drive cfg alias auth unlocked paths
            (paths-Resolved (source ∷ sources) w paths e))
          (λ statuses w. stay w.disk))

  bulk_move_of-Reach :
      is_locked auth.mode ≡ false
      → (operations : List Operation)
      → Quiet drive cfg alias auth (bulk_move_of drive cfg alias auth operations)
  unfolding bulk_move_of
  bulk_move_of-Reach unlocked [] = λ w. stay w.disk
  bulk_move_of-Reach unlocked (o ∷ operations) =
      bind-Keeps_ok (order drive cfg alias auth) _ _ (operations-Reach (o ∷ operations))
        (λ w pairs e.
          bind-Keeps (order drive cfg alias auth) _ _
            (bulk_move-Reach drive cfg alias auth unlocked pairs
              (operations-Resolved (o ∷ operations) w pairs e))
            (λ statuses w. stay w.disk))

  may_write :
      (action : ActionName)
      → (is_locked auth.mode && not (only_looks action)) ≡ false
      → only_looks action ≡ false
      → is_locked auth.mode ≡ false
  may_write action passed changes = ground (arith, passed, changes)

  perform-Reach :
      (action : ActionName) (body : ActionRequest)
      → (is_locked auth.mode && not (only_looks action)) ≡ false
      → Quiet drive cfg alias auth (perform drive cfg alias auth action body)
  unfolding perform make_directory
  perform-Reach info body passed = source-Reach body.source _ (λ path resolved.
      bind-Keeps (order drive cfg alias auth) _ _ (λ w. stay w.disk)
        (λ there.
          bind-Keeps (order drive cfg alias auth) _ _ (λ w. stay w.disk) (λ u w. stay w.disk)))
  perform-Reach exists body passed = source-Reach body.source _ (λ path resolved.
      bind-Keeps (order drive cfg alias auth) _ _ (λ w. stay w.disk) (λ there w. stay w.disk))
  perform-Reach bulk_delete body passed =
      bulk_delete_of-Reach (may_write bulk_delete passed refl) body.sources
  perform-Reach bulk_move body passed =
      bulk_move_of-Reach (may_write bulk_move passed refl) body.operations
  perform-Reach delete body passed = source-Reach body.source _ (λ path resolved.
      bind-Keeps (order drive cfg alias auth) _ _
        (delete-Reach drive cfg alias auth (may_write delete passed refl) path resolved)
        (λ u w. stay w.disk))
  perform-Reach mkdir body passed = source-Reach body.source _ (λ path resolved.
      bind-Keeps (order drive cfg alias auth) (touch drive or_internal (makedirs path)) _
        (touch-Reach drive cfg alias auth (may_write mkdir passed refl) or_internal (makedirs path)
          resolved)
        (λ u w. stay w.disk))
  perform-Reach copy body passed =
      both-Reach body.source body.target _
        (copy-Reach drive cfg alias auth (may_write copy passed refl))
  perform-Reach rename_to body passed =
      both-Reach body.source body.target _
        (rename-Reach drive cfg alias auth (may_write rename_to passed refl))
  perform-Reach move body passed =
      both-Reach body.source body.target _
        (rename-Reach drive cfg alias auth (may_write move passed refl))

  check-ok :
      (b : Bool) {u : Unit {0}}
      → (if b then raise (nexus auth_insufficient_mode 403) else ok tt) ≡ ok u
      → b ≡ false
  check-ok true h = cc
  check-ok false h = refl

  remote-Reach : Quiet drive cfg alias auth (is_remote drive cfg alias)
  unfolding is_remote
  remote-Reach w =
      if_not-both (λ (p : Site drive × Result Bool). Reach drive cfg alias auth w.disk p.0.disk)
        cfg.federation_enabled (stay w.disk) (stay w.disk)

  relay-disk :
      (p : Site drive × Result Response)
      → (continue p (λ resp. pure (relayed resp))).0.disk ≡ p.0.disk
  relay-disk (w, raise e) = refl
  relay-disk (w, ok resp) = refl

  relay-Reach : (req : Request) → Quiet drive cfg alias auth (relay_to drive cfg alias "action" req)
  unfolding relay_to
  relay-Reach req w =
      subst (λ d. Reach drive cfg alias auth w.disk d) (sym (relay-disk _)) (stay w.disk)

  -- Whatever action is asked for, and whether it ends in an answer or an error: the disk changes by
  -- calls alone that a key for reading cannot make, on paths that the check of paths has let pass for
  -- this key and this storage.
  pub execute_action-Reach :
      (req : Request) (body : ActionRequest) (w : Site drive)
      → Reach drive cfg alias auth w.disk (execute_action drive cfg alias auth req body w).0.disk
  unfolding execute_action
  execute_action-Reach req body w =
      bind-Keeps (order drive cfg alias auth) (is_remote drive cfg alias) _ remote-Reach
        (λ remote. branch-Reach drive cfg alias auth remote _ _ (relay-Reach req) (
          lift-Keeps (order drive cfg alias auth) _ _ (λ u e.
            perform-Reach body.action body
              (check-ok (is_locked auth.mode && not (only_looks body.action)) e))))
        w
