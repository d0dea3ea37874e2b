-- ===== src/Admin/Issued.antt =====
-- The token that src/api/admin/handlers.py hands out for a new key, read again by
-- src/server/middleware/auth.py.
use text.Mathlib.TextLemmas.{nil-append, cons-append}
use nexus_gate.Prelude.{
  ℕ, ◌≡◌, refl, subst, ap, ◌∙◌, String, false, ◌&&◌, none, some, arith, ◌==◌, eq_refl, lookup,
  lookup-insert, string_eq, pair_eq, Bool-cases, inl, inr,
}
use nexus_gate.Text.{truthy, split_once, has_char, ◌<>◌}
use nexus_gate.Errors.{ok}
use nexus_gate.Actions.{◌>>=◌, ◌>>◌, lift}
use nexus_gate.Sql.{Table, is_some}
use nexus_gate.Bans.{BanTable}
use nexus_gate.Keys.{ApiKey, KeyRow, Json, add_api_key, get_api_key}
use nexus_gate.Circuit.{Circuit}
use nexus_gate.Auth.{
  AuthConfig, Crypto, Request, AuthState, ServerMode, server_mode, get_auth_context,
  dynamic_context,
}
use nexus_gate.Auth.Granted.{dynamic, HasToken, NotBanned}
use nexus_gate.Auth.Complete.{get_auth_context_complete}
use nexus_gate.Admin.{
  Field, falsy, other, string, Encoder, KeyBody, Created, AdminState, require_field, as_text,
  key_of, store_key, create_api_key,
}

-- A text without the separator is read up to the first one that is put behind it.
split_once-has_char :
    (s rest : String)
    → has_char b':' s ≡ false
    → split_once b':' (s <> ":" <> rest) ≡ (s, some rest)
unfolding split_once has_char
split_once-has_char String.[] rest h =
    ap (split_once b':') (nil-append (":" <> rest) ∙ cons-append ":" "" rest)
    ∙ ap (λ t. ("", some t)) (nil-append rest)
split_once-has_char (String.◌∷◌ c s) rest h =
    ap (split_once b':') (cons-append c s (":" <> rest))
    ∙ ground (arith, h, split_once-has_char s rest (ground (arith, h)))

module _ (json : Json) (keys_db : Table String KeyRow) (bans_db : BanTable)
    (circuits_db : Table String Circuit) (crypto : Crypto) (encoder : Encoder crypto) where
  -- What a key that has been made is.
  abbrev IsIssued : AdminState json keys_db bans_db circuits_db → Created → Type 0
  IsIssued s k =
      (get_api_key json keys_db k.name s.keys ≡ some k.key)
      × (crypto.pbkdf2 k.secret k.key.salt ≡ k.key.secret_hash)
      × (k.bearer_token ≡ encoder.b64encode (k.name <> ":" <> k.secret))

  created_of : String → String → KeyBody → String → Created
  created_of raw_secret salt body name = record {
    name = name;
    key = key_of json keys_db bans_db circuits_db crypto encoder raw_secret salt body;
    secret = raw_secret;
    bearer_token = encoder.b64encode (name <> ":" <> raw_secret);
  }

  store_key-IsIssued :
      (now : ℕ) (raw_secret salt : String) (body : KeyBody) (name : String)
      (s : AdminState json keys_db bans_db circuits_db) (k : Created)
      → (let done =
            store_key json keys_db bans_db circuits_db crypto encoder now raw_secret salt body name
              s in
          done.1 ≡ ok k → IsIssued done.0 k)
  unfolding get_api_key add_api_key created_of
  store_key-IsIssued now raw_secret salt body name s k h =
      elim (Bool-cases (is_some (lookup name s.keys.cache))) [
        | inl known ↦ ground (arith, known, h)
        | inr new ↦
            let made =
              store_key json keys_db bans_db circuits_db crypto encoder now raw_secret salt body
                name s in
            let is : created_of raw_secret salt body name ≡ k = ground (arith, new, h) in
            subst (IsIssued made.0) is
              (rw (new, lookup-insert {V = ApiKey} name name, eq_refl name) (refl, refl, refl))
      ]

  named_key-IsIssued :
      (now : ℕ) (raw_secret salt : String) (body : KeyBody) (field : Field)
      (s : AdminState json keys_db bans_db circuits_db) (k : Created)
      → (let store =
            store_key json keys_db bans_db circuits_db crypto encoder now raw_secret salt body in
          let done = (lift (require_field field) >> (lift (as_text field) >>= store)) s in
          done.1 ≡ ok k → IsIssued done.0 k)
  unfolding require_field as_text ◌>>=◌
  named_key-IsIssued now raw_secret salt body falsy s k h = ground (arith, h)
  named_key-IsIssued now raw_secret salt body other s k h = ground (arith, h)
  named_key-IsIssued now raw_secret salt body (string name) s k h = elim (Bool-cases (name == "")) [
    | inl empty ↦ ground (arith, empty, h)
    | inr full ↦ rw full (store_key-IsIssued now raw_secret salt body name s k (rw full at h))
  ]

  create_api_key-IsIssued :
      (now : ℕ) (raw_secret salt : String) (body : KeyBody)
      (s : AdminState json keys_db bans_db circuits_db) (k : Created)
      → (let done =
            create_api_key json keys_db bans_db circuits_db crypto encoder now raw_secret salt body
              s in
          done.1 ≡ ok k → IsIssued done.0 k)
  unfolding create_api_key
  create_api_key-IsIssued now raw_secret salt body s k h =
      named_key-IsIssued now raw_secret salt body body.name s k h

  issued-HasToken :
      (s : AdminState json keys_db bans_db circuits_db) (k : Created) (req : Request)
      → IsIssued s k
      → has_char b':' k.name ≡ false
      → req.credentials ≡ some k.bearer_token
      → HasToken crypto bans_db req k.name k.secret
  issued-HasToken s k req (held, hashed, encoded) plain given = record {
    credentials = k.bearer_token;
    token = k.name <> ":" <> k.secret;
    given = given;
    decodes = ap crypto.b64decode encoded ∙ encoder.b64decode-b64encode (k.name <> ":" <> k.secret);
    splits = split_once-has_char k.name k.secret plain;
  }

  -- The token that a successful creation hands out lets in: where the name has no colon and the mode
  -- is one of the three, a request with that token that claims no federation node, key and address
  -- not banned, is authenticated under the key's name with its mode, its scopes and its limit, and
  -- without administration.
  pub create_api_key-enters :
      (now later : ℕ) (raw_secret salt : String) (body : KeyBody) (config : AuthConfig)
      (s : AdminState json keys_db bans_db circuits_db) (k : Created) (mode : ServerMode)
      (req : Request) (a : AuthState crypto bans_db)
      → let done =
          create_api_key json keys_db bans_db circuits_db crypto encoder now raw_secret salt body
            s in
        done.1 ≡ ok k
        → has_char b':' k.name ≡ false
        → server_mode k.key.mode ≡ some mode
        → req.credentials ≡ some k.bearer_token
        → (truthy (req.headers "X-Federation-Secret") && truthy (req.headers "X-Federation-Node"))
          ≡ false
        → NotBanned crypto bans_db later req k.name a.bans
        → a.auth_context ≡ none
        → (t : AuthState crypto bans_db) × (get_auth_context crypto bans_db later config
              (λ n. get_api_key json keys_db n done.0.keys)
              req
              a
            ≡ (t, ok (dynamic_context crypto bans_db k.name k.key mode)))
  create_api_key-enters now later raw_secret salt body config s k mode req a h plain good given
        direct free fresh =
      let done =
        create_api_key json keys_db bans_db circuits_db crypto encoder now raw_secret salt body s in
      let issued = create_api_key-IsIssued now raw_secret salt body s k h in
      get_auth_context_complete crypto bans_db later config _ req a _ fresh (
        dynamic k.name k.secret k.key mode direct (issued-HasToken done.0 k req issued plain given)
          free issued.0 issued.1 good refl)
