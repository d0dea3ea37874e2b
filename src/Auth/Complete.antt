-- ===== src/Auth/Complete.antt =====
-- Whoever `Granted` describes is let in by src/server/middleware/auth.py.
use nexus_gate.Prelude.{
  ℕ, ◌≡◌, ◌↔◌, sym, ◌∙◌, ap, subst, String, Option, none, some, arith, string_eq, pair_eq,
}
use nexus_gate.Errors.{Result, ok}
use nexus_gate.Bans.{BanTable, is_key_banned, is_ip_banned}
use nexus_gate.Keys.{ApiKey}
use nexus_gate.Auth.{
  AuthContext, AuthConfig, Crypto, Request, AuthState, resolve_client_ip, M, ◌>>=◌, continue,
  evaluate_network_bans, get_federation_context, get_dynamic_key_context, get_static_key_context,
  parse_bearer_token, resolve_key, with_token, authenticate_key, resolve, get_auth_context,
}
use nexus_gate.Auth.Granted.{Granted, node, dynamic, static, HasToken, NotBanned}
use nexus_gate.Auth.Sound.{get_auth_context_sound}

module _ (crypto : Crypto) (db : BanTable) where
  bind-ok :
      {A B : Type 0} (m : M crypto db A) (f : A → M crypto db B) (s t : AuthState crypto db) (a : A)
      → m s ≡ (t, ok a)
      → ◌>>=◌ crypto db m f s ≡ f a t
  bind-ok m f s t a h = ap (λ r. continue crypto db r f) h

  token_complete :
      (req : Request) (name secret : String) (s : AuthState crypto db)
      → HasToken crypto db req name secret
      → parse_bearer_token crypto db req.credentials s ≡ (s, ok (name, secret))
  unfolding parse_bearer_token
  token_complete req name secret s h = rw (h.given, h.decodes, h.splits)

  -- The bans once both checks are made.
  abbrev checked_bans : ℕ → Request → String → AuthState crypto db → AuthState crypto db
  checked_bans now req name s = record s {
    bans = (is_ip_banned db now (resolve_client_ip req) (is_key_banned db now name s.bans).0).0;
  }

  bans_complete :
      (now : ℕ) (req : Request) (name : String) (s : AuthState crypto db)
      → NotBanned crypto db now req name s.bans
      → evaluate_network_bans crypto db now req name s ≡ (checked_bans now req name s, ok tt)
  unfolding evaluate_network_bans
  bans_complete now req name s h = rw (h.key, h.ip)

  module _ (now : ℕ) (config : AuthConfig) (keys : String → Option ApiKey) (req : Request)
      (s : AuthState crypto db) (ctx : AuthContext) where
    -- With a token and no ban, all is up to the key.
    key_complete :
        (name secret : String)
        → HasToken crypto db req name secret
        → NotBanned crypto db now req name s.bans
        → authenticate_key crypto db now config keys req s
          ≡ resolve_key crypto db config keys name secret (checked_bans now req name s)
    unfolding authenticate_key
    key_complete name secret token free =
        bind-ok (parse_bearer_token crypto db req.credentials)
          (with_token crypto db now config keys req) s s (name, secret)
          (token_complete req name secret s token)
        ∙ bind-ok (evaluate_network_bans crypto db now req name)
            (λ _. resolve_key crypto db config keys name secret) s (checked_bans now req name s) tt
            (bans_complete now req name s free)

    resolved :
        (r : AuthState crypto db × Result AuthContext)
        → s.auth_context ≡ none
        → resolve crypto db now config keys req none s ≡ r
        → get_auth_context crypto db now config keys req s ≡ r
    unfolding get_auth_context
    resolved r fresh h = subst (λ o. resolve crypto db now config keys req o s ≡ r) (sym fresh) h

    pub get_auth_context_complete :
        s.auth_context ≡ none
        → Granted crypto db now config keys req s.bans ctx
        → (t : AuthState crypto db) × (get_auth_context crypto db now config keys req s
            ≡ (t, ok ctx))
    unfolding get_federation_context get_dynamic_key_context get_static_key_context
    get_auth_context_complete fresh (node secret n k claim on on' found decoded is) = (
      record s { auth_context = some ctx },
      resolved _ fresh (
          ground (
            arith,
            claim,
            on,
            on',
            found,
            decoded,
            is,
            crypto.compare_digest_iff k.secret k.secret,
          )),
    )
    get_auth_context_complete fresh
          (dynamic name secret k mode plain token free known hashed good is) =
        (
          record (checked_bans now req name s) { auth_context = some ctx },
          resolved _ fresh (
              rw plain (
                key_complete name secret token free
                ∙ ground (
                  arith,
                  known,
                  hashed,
                  good,
                  is,
                  crypto.compare_digest_iff k.secret_hash (crypto.pbkdf2 secret k.salt),
                ))),
        )
    get_auth_context_complete fresh (static name secret k plain token free unknown found same is) =
        (
          record (checked_bans now req name s) { auth_context = some ctx },
          resolved _ fresh (
              rw plain (
                key_complete name secret token free
                ∙ ground
                    (arith, unknown, found, same, is, crypto.compare_digest_iff k.secret secret))),
        )

  -- A request with no context yet is let in with a context exactly when it is a federation node
  -- with its secret, or holds the secret of a key in the registry, or of a configured key whose
  -- name the registry does not have, neither key nor address banned, and the context is that
  -- key's.
  pub get_auth_context_iff :
      (now : ℕ) (config : AuthConfig) (keys : String → Option ApiKey) (req : Request)
      (s : AuthState crypto db) (ctx : AuthContext)
      → s.auth_context ≡ none
      → ((t : AuthState crypto db) × (get_auth_context crypto db now config keys req s
            ≡ (t, ok ctx)))
        ↔ Granted crypto db now config keys req s.bans ctx
  get_auth_context_iff now config keys req s ctx fresh = (
    λ r. get_auth_context_sound crypto db now config keys req s r.0 ctx fresh r.1,
    get_auth_context_complete now config keys req s ctx fresh,
  )
