-- ===== src/Auth/Sound.antt =====
-- `get_auth_context` of src/server/middleware/auth.py lets in exactly whom it should.
use nexus_gate.Prelude.{
  ℕ, ◌≡◌, refl, sym, subst, String, true, false, ◌&&◌, Option, none, some, arith, lookup, string_eq,
  pair_eq, Bool-cases, Option-cases, inl, inr,
}
use nexus_gate.Text.{split_once, truthy}
use nexus_gate.Errors.{Result, ok, raise}
use nexus_gate.Bans.{BanTable}
use nexus_gate.Keys.{ApiKey}
use nexus_gate.Auth.{
  ServerMode, server_mode, AuthContext, StaticKey, IncomingKey, AuthConfig, Crypto, Request,
  AuthState, federation_context, dynamic_context, static_context, M, ◌>>=◌, continue,
  evaluate_network_bans, get_federation_context, get_dynamic_key_context, get_static_key_context,
  parse_bearer_token, choose, remember, resolve_key, with_token, authenticate_key,
  authenticate_node, resolve, get_auth_context,
}
use nexus_gate.Auth.Granted.{Granted, node, dynamic, static, HasToken, NotBanned}

module _ (crypto : Crypto) (db : BanTable) where
  -- What a bind that returns has done.
  bind-eq-ok :
      {A B : Type 0} (m : M crypto db A) (f : A → M crypto db B) (s t : AuthState crypto db) {b : B}
      → ◌>>=◌ crypto db m f s ≡ (t, ok b)
      → (u : AuthState crypto db) × (a : A) × (m s ≡ (u, ok a)) × (f a u ≡ (t, ok b))
  bind-eq-ok {A} m f s t {b} h = go (m s) refl h
    where
      go :
          (r : AuthState crypto db × Result A)
          → m s ≡ r
          → continue crypto db r f ≡ (t, ok b)
          → (u : AuthState crypto db) × (a : A) × (m s ≡ (u, ok a)) × (f a u ≡ (t, ok b))
      go (u, ok a) e k = (u, a, e, k)
      go (u, raise x) e k = cc

  federation_sound :
      (config : AuthConfig) (n secret : String) (s t : AuthState crypto db) (ctx : AuthContext)
      → get_federation_context crypto db config n secret s ≡ (t, ok ctx)
      → (k : IncomingKey) × (config.features_federation ≡ true)
        × (config.federation_enabled ≡ true)
        × (lookup n config.incoming ≡ some k)
        × (crypto.b64decode secret ≡ some k.secret)
        × (ctx ≡ federation_context crypto db n k)
        × (s ≡ t)
  unfolding get_federation_context
  federation_sound config n secret s t ctx h = elim (Option-cases (lookup n config.incoming)) [
    | inl missing ↦ absurd (ground (arith, missing))
    | inr (k, found) ↦ elim (Option-cases (crypto.b64decode secret)) [
      | inl bad ↦ absurd (ground (arith, found, bad))
      | inr (d, decoded) ↦ (
        k,
        ground (arith, found, decoded),
        ground (arith, found, decoded),
        found,
        ground (arith, found, decoded, crypto.compare_digest_iff k.secret d),
        ground (arith, found, decoded),
        ground (arith, found, decoded),
      )
    ]
  ]

  token_sound :
      (req : Request) (s t : AuthState crypto db) (p : String × String)
      → parse_bearer_token crypto db req.credentials s ≡ (t, ok p)
      → HasToken crypto db req p.0 p.1 × (s ≡ t)
  unfolding parse_bearer_token
  token_sound req s t p h = elim (Option-cases req.credentials) [
    | inl missing ↦ absurd (ground (arith, missing))
    | inr (c, given) ↦ elim (Option-cases (crypto.b64decode c)) [
      | inl bad ↦ absurd (ground (arith, given, bad))
      | inr (token, decoded) ↦ elim (Option-cases (split_once b':' token).1) [
        | inl short ↦ absurd (ground (arith, given, decoded, short))
        | inr (secret, split) ↦ (
          record {
            credentials = c;
            token = token;
            given = given;
            decodes = decoded;
            splits = ground (arith, given, decoded, split);
          },
          ground (arith, given, decoded, split),
        )
      ]
    ]
  ]

  bans_sound :
      (now : ℕ) (req : Request) (name : String) (s t : AuthState crypto db) (u : Unit {0})
      → evaluate_network_bans crypto db now req name s ≡ (t, ok u)
      → NotBanned crypto db now req name s.bans
  unfolding evaluate_network_bans
  bans_sound now req name s t u h = record { key = ground arith; ip = ground arith }

  dynamic_sound :
      (name secret : String) (o : Option ApiKey) (s t : AuthState crypto db) (ctx : AuthContext)
      → get_dynamic_key_context crypto db name secret o s ≡ (t, ok (some ctx))
      → (k : ApiKey) × (mode : ServerMode) × (o ≡ some k)
        × (crypto.pbkdf2 secret k.salt ≡ k.secret_hash)
        × (server_mode k.mode ≡ some mode)
        × (ctx ≡ dynamic_context crypto db name k mode)
  unfolding get_dynamic_key_context
  dynamic_sound name secret none s t ctx h = cc
  dynamic_sound name secret (some k) s t ctx h = elim (Option-cases (server_mode k.mode)) [
    | inl bad ↦ absurd (ground (arith, bad))
    | inr (mode, good) ↦ (
      k,
      mode,
      refl,
      ground (arith, good, crypto.compare_digest_iff k.secret_hash (crypto.pbkdf2 secret k.salt)),
      good,
      ground (arith, good),
    )
  ]

  no_dynamic :
      (name secret : String) (o : Option ApiKey) (s t : AuthState crypto db)
      → get_dynamic_key_context crypto db name secret o s ≡ (t, ok none)
      → o ≡ none
  unfolding get_dynamic_key_context
  no_dynamic name secret none s t h = refl
  no_dynamic name secret (some k) s t h = absurd (ground arith)

  static_sound :
      (name secret : String) (o : Option StaticKey) (s t : AuthState crypto db) (ctx : AuthContext)
      → get_static_key_context crypto db name secret o s ≡ (t, ok ctx)
      → (k : StaticKey) × (o ≡ some k)
        × (k.secret ≡ secret)
        × (ctx ≡ static_context crypto db name k)
  unfolding get_static_key_context
  static_sound name secret none s t ctx h = cc
  static_sound name secret (some k) s t ctx h =
      (k, refl, ground (arith, crypto.compare_digest_iff k.secret secret), ground arith)

  module _ (now : ℕ) (config : AuthConfig) (keys : String → Option ApiKey) (req : Request) where
    -- The end of `get_auth_context`, once the token is parsed and no ban stands.
    chosen_sound :
        (name secret : String) (s u t : AuthState crypto db) (d : Option AuthContext)
        (ctx : AuthContext)
        → (truthy (req.headers "X-Federation-Secret") && truthy (req.headers "X-Federation-Node"))
          ≡ false
        → HasToken crypto db req name secret
        → NotBanned crypto db now req name s.bans
        → (v : AuthState crypto db)
        → get_dynamic_key_context crypto db name secret (keys name) v ≡ (u, ok d)
        → choose crypto db config name secret d u ≡ (t, ok ctx)
        → Granted crypto db now config keys req s.bans ctx
    chosen_sound name secret s u t (some dctx) ctx plain token free v got h =
        let (k, mode, known, hashed, good, is) =
          dynamic_sound name secret (keys name) v u dctx got in
        dynamic name secret k mode plain token free known hashed good (ground (arith, is))
    chosen_sound name secret s u t none ctx plain token free v got h =
        let (w, sctx, ran, rest) =
          bind-eq-ok (get_static_key_context crypto db name secret (lookup name config.api_key))
            (remember crypto db) u t h in
        let (k, found, same, is) =
          static_sound name secret (lookup name config.api_key) u w sctx ran in
        static name secret k plain token free (no_dynamic name secret (keys name) v u got) found
          same (ground (arith, is, rest))

    authenticate_key_sound :
        (s t : AuthState crypto db) (ctx : AuthContext)
        → (truthy (req.headers "X-Federation-Secret") && truthy (req.headers "X-Federation-Node"))
          ≡ false
        → authenticate_key crypto db now config keys req s ≡ (t, ok ctx)
        → Granted crypto db now config keys req s.bans ctx
    unfolding authenticate_key
    authenticate_key_sound s t ctx plain h =
        let (a, (name, secret), parsed, rest) =
          bind-eq-ok (parse_bearer_token crypto db req.credentials)
            (with_token crypto db now config keys req) s t h in
        let (token, same) = token_sound req s a (name, secret) parsed in
        let (b, u, checked, rest') =
          bind-eq-ok (evaluate_network_bans crypto db now req name)
            (λ _. resolve_key crypto db config keys name secret) a t rest in
        let (c, d, got, rest'') =
          bind-eq-ok (get_dynamic_key_context crypto db name secret (keys name))
            (choose crypto db config name secret) b t rest' in
        let free : NotBanned crypto db now req name s.bans =
          subst (λ v. NotBanned crypto db now req name v.bans) (sym same)
            (bans_sound now req name a b u checked) in
        chosen_sound name secret s c t d ctx plain token free b got rest''

    node_sound :
        (o p : Option String) (s t : AuthState crypto db) (ctx : AuthContext)
        → req.headers "X-Federation-Secret" ≡ o
        → req.headers "X-Federation-Node" ≡ p
        → (truthy o && truthy p) ≡ true
        → authenticate_node crypto db config o p s ≡ (t, ok ctx)
        → Granted crypto db now config keys req s.bans ctx
    node_sound (some secret) (some n) s t ctx e f both h =
        let (u, fctx, ran, rest) =
          bind-eq-ok (get_federation_context crypto db config n secret) (remember crypto db) s t
            h in
        let (k, on, on', found, decoded, is, same) =
          federation_sound config n secret s u fctx ran in
        node secret n k (e, f, ground arith, ground arith) on on' found decoded
          (ground (arith, is, rest))
    node_sound none p s t ctx e f both h = cc
    node_sound (some secret) none s t ctx e f both h = absurd (ground arith)

    -- Whoever is let in, on a request with no context yet, is a federation node with its secret,
    -- or holds the secret of a key in the registry, or of a configured key whose name the registry
    -- does not have, neither key nor address banned; the context is that key's.
    pub get_auth_context_sound :
        (s t : AuthState crypto db) (ctx : AuthContext)
        → s.auth_context ≡ none
        → get_auth_context crypto db now config keys req s ≡ (t, ok ctx)
        → Granted crypto db now config keys req s.bans ctx
    unfolding get_auth_context
    get_auth_context_sound s t ctx fresh h =
        let e = subst (λ o. resolve crypto db now config keys req o s ≡ (t, ok ctx)) fresh h in
        elim (Bool-cases (
          truthy (req.headers "X-Federation-Secret") && truthy (req.headers "X-Federation-Node"))) [
            | inl both ↦ node_sound _ _ s t ctx refl refl both (rw both at e)
            | inr plain ↦ authenticate_key_sound s t ctx plain (rw plain at e)
          ]
