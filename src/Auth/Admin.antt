-- ===== src/Auth/Admin.antt =====
-- Administration behind src/server/middleware/auth.py.
use nexus_gate.Prelude.{
  ℕ, ◌≡◌, sym, subst, String, true, Option, none, some, arith, lookup, string_eq, pair_eq,
}
use nexus_gate.Errors.{ok}
use nexus_gate.Bans.{BanTable, Bans}
use nexus_gate.Keys.{ApiKey}
use nexus_gate.Auth.{
  AuthContext, StaticKey, AuthConfig, Crypto, Request, AuthState, get_auth_context, require_admin,
}
use nexus_gate.Auth.Granted.{Granted, node, dynamic, static, HasToken, NotBanned}
use nexus_gate.Auth.Sound.{get_auth_context_sound}

module _ (crypto : Crypto) (db : BanTable) where
  -- A configured key with administration rights whose secret the request holds.
  abbrev pub HoldsAdminKey : ℕ → AuthConfig → (String → Option ApiKey) → Request → Bans db → Type 0
  HoldsAdminKey now config keys req s =
      (name : String) × (k : StaticKey) × (lookup name config.api_key ≡ some k)
      × (k.full_admin ≡ true)
      × HasToken crypto db req name k.secret
      × (keys name ≡ none)
      × NotBanned crypto db now req name s

  Granted-admin :
      (now : ℕ) (config : AuthConfig) (keys : String → Option ApiKey) (req : Request) (s : Bans db)
      (ctx : AuthContext)
      → ctx.full_admin ≡ true
      → Granted crypto db now config keys req s ctx
      → HoldsAdminKey now config keys req s
  Granted-admin now config keys req s ctx admin (node secret n k c f g found d is) =
      absurd (ground (arith, is, admin))
  Granted-admin now config keys req s ctx admin (dynamic n x k mode plain t free known h good is) =
      absurd (ground (arith, is, admin))
  Granted-admin now config keys req s ctx admin (static n x k plain t free unknown found same is) =
      (
        n,
        k,
        found,
        ground (arith, is, admin),
        subst (HasToken crypto db req n) (sym same) t,
        unknown,
        free,
      )

  -- Whoever passes `require_admin` on a request with no context yet holds the secret of a key
  -- that config.toml gives administration rights, under a name that the registry does not have,
  -- neither key nor address banned: no key of the registry and no federation node passes.
  pub require_admin_sound :
      (now : ℕ) (config : AuthConfig) (keys : String → Option ApiKey) (req : Request)
      (s t : AuthState crypto db) (ctx ctx' : AuthContext)
      → s.auth_context ≡ none
      → get_auth_context crypto db now config keys req s ≡ (t, ok ctx)
      → require_admin ctx ≡ ok ctx'
      → HoldsAdminKey now config keys req s.bans
  unfolding require_admin
  require_admin_sound now config keys req s t ctx ctx' fresh h admin =
      Granted-admin now config keys req s.bans ctx (ground arith)
        (get_auth_context_sound crypto db now config keys req s t ctx fresh h)
