-- ===== src/Storage/FilePath.antt =====
-- `_get_storage_path` of src/api/storage/handlers.py: the path of a file of a storage.
use nexus_gate.Prelude.{
  ℕ, String, Bool, true, false, not, ◌||◌, Option, none, some, List, ◌≡◌, ◌↔◌, refl, arith,
  contains, lookup, string_eq, Bool-cases, Option-cases, inl, inr, ap, sym, subst, ◌∙◌,
}
use nexus_gate.Text.{
  ◌<>◌, starts_with-append, lstrip_char, starts_with, cut_prefix, cut_prefix-append,
}
use nexus_gate.Errors.{
  ErrorCode, Result, raise, ok, ◌>>=◌, ◌>>◌, raise_if, nexus, auth_scope_denied, fs_not_found,
  input_path_traversal,
}
use nexus_gate.Auth.{AuthContext}

-- `os.path` on a disk, whose links `realpath` follows.
pub record Paths : Type 1 where
  pub Disk : Type 0
  pub realpath : String → Disk → String
  pub join : String → String → String

-- `rel_path or ""`.
abbrev pub or_empty : Option String → String
or_empty none = ""
or_empty (some s) = s

abbrev pub has_fs_scope : AuthContext → String → Bool
has_fs_scope auth alias = contains auth.fs_scope "*" || contains auth.fs_scope alias

abbrev pub storage_of : Option String → Result String
storage_of none = raise (nexus fs_not_found 404)
storage_of (some path) = ok path

checked_iff :
    (b : Bool) (code : ErrorCode) (status : ℕ) (t target : String)
    → ((raise_if (not b) code status >> ok t) ≡ ok target) ↔ ((b ≡ true) × (target ≡ t))
checked_iff true code status t target =
    ((λ h. (refl, ground (arith, h))), λ (b, e). ap (λ x. ok x) (sym e))
checked_iff false code status t target = ((λ h. cc), λ (b, e). cc)

module _ (paths : Paths) (storages : List (String × String)) where
  abbrev pub base_path : String → paths.Disk → String
  base_path path disk = paths.realpath path disk

  unfoldable pub target_path : String → Option String → paths.Disk → String
  unfolding lstrip_char
  target_path path rel_path disk =
      paths.realpath (paths.join (base_path path disk) (lstrip_char b'/' (or_empty rel_path))) disk

  -- With the directory that the settings give for the alias.
  unfoldable pub get_storage_path :
      String → Option String → AuthContext → paths.Disk → Result String
  unfolding target_path
  get_storage_path alias rel_path auth disk =
      raise_if (not (has_fs_scope auth alias)) auth_scope_denied 403
      >> (storage_of (lookup alias storages) >>= λ path.
          let target = target_path path rel_path disk in
          raise_if (not (starts_with (base_path path disk) target)) input_path_traversal 400
          >> ok target)

  -- What a path must be to be let pass.
  pub record Passes (alias : String) (rel_path : Option String) (auth : AuthContext)
      (disk : paths.Disk) (target : String) : Type 0 where
    pub path : String
    pub scoped : has_fs_scope auth alias ≡ true
    pub configured : lookup alias storages ≡ some path
    pub resolved : target ≡ target_path path rel_path disk
    pub begins : (rest : String) × (target ≡ base_path path disk <> rest)

  starts_with_iff : (p s : String) → (starts_with p s ≡ true) ↔ ((rest : String) × (s ≡ p <> rest))
  starts_with_iff p s = (
    λ h. elim (Option-cases (cut_prefix p s)) [
      | inl none_cut ↦ ground (arith, h, none_cut)
      | inr (rest, cut) ↦ (rest, cut_prefix-append p s rest cut)
    ],
    λ (rest, e). ap (starts_with p) e ∙ starts_with-append p rest,
  )

  after_scope :
      (alias : String) (rel_path : Option String) (auth : AuthContext) (disk : paths.Disk)
      (target : String)
      → has_fs_scope auth alias ≡ true
      → (storage : Option String) → lookup alias storages ≡ storage
      → ((storage_of storage >>= λ path.
            let t = target_path path rel_path disk in
            raise_if (not (starts_with (base_path path disk) t)) input_path_traversal 400 >> ok t)
          ≡ ok target)
        ↔ Passes alias rel_path auth disk target
  after_scope alias rel_path auth disk target scoped none e = ((λ h. cc), λ p. cc (p.configured, e))
  after_scope alias rel_path auth disk target scoped (some path) e =
      let t = target_path path rel_path disk in
      let check =
        checked_iff (starts_with (base_path path disk) t) input_path_traversal 400 t target in
      (
        λ h.
            let (begins, resolved) = check.0 h in
            record {
              path = path;
              scoped = scoped;
              configured = e;
              resolved = resolved;
              begins =
                  (starts_with_iff (base_path path disk) target).0
                    (ap (λ u. starts_with (base_path path disk) u) resolved ∙ begins);
            },
        λ p.
            let same : p.path ≡ path = ground (arith, p.configured, e) in
            check.1 (
              subst (λ q. starts_with (base_path q disk) (target_path q rel_path disk) ≡ true) same
                  (ap (λ u. starts_with (base_path p.path disk) u) (sym p.resolved)
                    ∙ (starts_with_iff (base_path p.path disk) target).1 p.begins),
              p.resolved ∙ ap (λ q. target_path q rel_path disk) same,
            ),
      )

  -- A path is let pass exactly if the scope of the key covers the storage, the storage is
  -- configured, and the path, its links followed, is the text of the storage's directory with any text
  -- after it, whether that begins with a separator or not.
  pub get_storage_path_iff :
      (alias : String) (rel_path : Option String) (auth : AuthContext) (disk : paths.Disk)
      (target : String)
      → (get_storage_path alias rel_path auth disk ≡ ok target)
        ↔ Passes alias rel_path auth disk target
  unfolding get_storage_path
  get_storage_path_iff alias rel_path auth disk target =
      elim (Bool-cases (has_fs_scope auth alias)) [
        | inl scoped ↦
            rw scoped
              (after_scope alias rel_path auth disk target scoped (lookup alias storages) refl)
        | inr denied ↦ rw denied ((λ h. cc), λ p. cc (p.scoped, denied))
      ]
