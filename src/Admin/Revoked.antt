-- ===== src/Admin/Revoked.antt =====
-- A key that src/api/admin/handlers.py has revoked, before src/server/middleware/auth.py.
use nexus_gate.Prelude.{
  ℕ, ◌≡◌, ap, ◌∙◌, String, true, false, ◌&&◌, Option, none, arith, ◌==◌, eq_refl, lookup,
  lookup-insert, lookup-remove_self, string_eq, pair_eq, Bool-cases, inl, inr,
}
use nexus_gate.Text.{truthy}
use nexus_gate.Errors.{ok}
use nexus_gate.Sql.{Table, is_some}
use nexus_gate.Bans.{
  BanTable, Bans, ban_key, ban_entity, is_key_banned, check_ban, expiry, has_expired,
}
use nexus_gate.Keys.{ApiKey, KeyRow, Json, Keys, delete_api_key, get_api_key}
use nexus_gate.Keys.Coherence
use nexus_gate.Circuit.{Circuit}
use nexus_gate.Auth.{AuthContext, AuthConfig, Crypto, Request, AuthState, get_auth_context}
use nexus_gate.Auth.Granted.{Granted, node, dynamic, static, HasToken}
use nexus_gate.Auth.Sound.{get_auth_context_sound}
use nexus_gate.Admin.{AdminState, revoke_api_key}

-- A token has one name.
token-name :
    (crypto : Crypto) (bans_db : BanTable) (req : Request) (n m x y : String)
    → HasToken crypto bans_db req n x
    → HasToken crypto bans_db req m y
    → n ≡ m
token-name crypto bans_db req n m x y h k =
    ground (arith, h.given, h.decodes, h.splits, k.given, k.decodes, k.splits)

module _ (json : Json) (keys_db : Table String KeyRow) where
  deleted-get_api_key :
      (name : String) (s : Keys json keys_db)
      → Coherence.IsCoherent json keys_db s
      → get_api_key json keys_db name (delete_api_key json keys_db name s).0 ≡ none
  unfolding delete_api_key get_api_key
  deleted-get_api_key name s c = ground (arith, c name, lookup-remove_self name s.cache)

-- A ban without a duration is never over.
ban_key-for_ever :
    (bans_db : BanTable) (now later : ℕ) (name reason : String) (s : Bans bans_db)
    → (is_key_banned bans_db later name (ban_key bans_db now name reason none s)).1 ≡ true
unfolding ban_key ban_entity is_key_banned check_ban expiry has_expired
ban_key-for_ever bans_db now later name reason s = rw (lookup-insert name name, eq_refl name)

module _ (json : Json) (keys_db : Table String KeyRow) (bans_db : BanTable)
    (circuits_db : Table String Circuit) (crypto : Crypto) where
  -- A configured key of that name is banned.
  revoked-bans :
      (now later : ℕ) (config : AuthConfig) (auth : AuthContext) (name : String)
      (s : AdminState json keys_db bans_db circuits_db) {r : String × String}
      → (revoke_api_key json keys_db bans_db circuits_db now config.api_key auth name s).1 ≡ ok r
      → is_some (lookup name config.api_key) ≡ true
      → (is_key_banned bans_db later name
          (revoke_api_key json keys_db bans_db circuits_db now config.api_key auth name s).0.bans).1
        ≡ true
  unfolding revoke_api_key
  revoked-bans now later config auth name s h known =
      elim (Bool-cases (name == auth.api_key_name)) [
        | inl own ↦ ground (arith, own, h)
        | inr other ↦
            rw
              (other, known, ban_key-for_ever bans_db now later name "Revoked via admin API" s.bans)
      ]

  -- The registry has no key of that name.
  revoked-get_api_key :
      (now : ℕ) (config : AuthConfig) (auth : AuthContext) (name : String)
      (s : AdminState json keys_db bans_db circuits_db) {r : String × String}
      → Coherence.IsCoherent json keys_db s.keys
      → (revoke_api_key json keys_db bans_db circuits_db now config.api_key auth name s).1 ≡ ok r
      → get_api_key json keys_db name
          (revoke_api_key json keys_db bans_db circuits_db now config.api_key auth name s).0.keys
        ≡ none
  unfolding revoke_api_key
  revoked-get_api_key now config auth name s c h = elim (Bool-cases (name == auth.api_key_name)) [
    | inl own ↦ ground (arith, own, h)
    | inr other ↦ rw (other, deleted-get_api_key json keys_db name s.keys c)
  ]

  -- A request for the name of a key that is in neither list, or banned, is let in by no key.
  shut-Granted :
      (later : ℕ) (config : AuthConfig) (keys : String → Option ApiKey) (req : Request)
      (s : Bans bans_db) (ctx : AuthContext) (name secret : String)
      → (truthy (req.headers "X-Federation-Secret") && truthy (req.headers "X-Federation-Node"))
        ≡ false
      → HasToken crypto bans_db req name secret
      → keys name ≡ none
      → (is_some (lookup name config.api_key) ≡ true
          → (is_key_banned bans_db later name s).1 ≡ true)
      → ¬ Granted crypto bans_db later config keys req s ctx
  shut-Granted later config keys req s ctx name secret plain token none_left banned
        (node _ _ k claim on on' found decoded is) =
      ground (arith, plain, claim)
  shut-Granted later config keys req s ctx name secret plain token none_left banned
        (dynamic other _ k mode _ token' free found hashed good is) =
      let same = token-name crypto bans_db req name other _ _ token token' in
      ground (arith, found, none_left, same)
  shut-Granted later config keys req s ctx name secret plain token none_left banned
        (static other _ k _ token' free unknown found matches is) =
      let same = token-name crypto bans_db req name other _ _ token token' in
      ground (arith, found, same, banned, free.key)

  -- Where the cache of keys agrees with its table, a key whose revocation has succeeded lets nobody
  -- in: with the lists of keys and bans it leaves, at any time, no request that claims no
  -- federation node and whose credentials are for that name is authenticated.
  pub revoke_api_key-shuts :
      (now later : ℕ) (config : AuthConfig) (auth : AuthContext) (name secret : String)
      (s : AdminState json keys_db bans_db circuits_db) (r : String × String) (req : Request)
      (a t : AuthState crypto bans_db) (ctx : AuthContext)
      → Coherence.IsCoherent json keys_db s.keys
      → let done = revoke_api_key json keys_db bans_db circuits_db now config.api_key auth name s in
        done.1 ≡ ok r
        → a.bans ≡ done.0.bans
        → a.auth_context ≡ none
        → (truthy (req.headers "X-Federation-Secret") && truthy (req.headers "X-Federation-Node"))
          ≡ false
        → HasToken crypto bans_db req name secret
        → ¬ (
            get_auth_context crypto bans_db later config
              (λ n. get_api_key json keys_db n done.0.keys)
              req
              a
            ≡ (t, ok ctx))
  revoke_api_key-shuts now later config auth name secret s r req a t ctx c h same fresh plain token
        e =
      let done = revoke_api_key json keys_db bans_db circuits_db now config.api_key auth name s in
      shut-Granted later config _ req a.bans ctx name secret plain token
        (revoked-get_api_key now config auth name s c h)
        (λ known.
          ap (λ b. (is_key_banned bans_db later name b).1) same
          ∙ revoked-bans now later config auth name s h known)
        (get_auth_context_sound crypto bans_db later config _ req a t ctx fresh e)
