-- ===== src/Auth/Granted.antt =====
-- Who may be let in by src/server/middleware/auth.py, said without its steps.
use nexus_gate.Prelude.{
  ℕ, ◌≡◌, String, true, false, ◌&&◌, Option, none, some, lookup, string_eq, pair_eq,
}
use nexus_gate.Text.{split_once, truthy}
use nexus_gate.Bans.{BanTable, Bans, is_key_banned, is_ip_banned}
use nexus_gate.Keys.{ApiKey}
use nexus_gate.Auth.{
  ServerMode, server_mode, AuthContext, StaticKey, IncomingKey, AuthConfig, Crypto, Request,
  resolve_client_ip, federation_context, dynamic_context, static_context,
}

module _ (crypto : Crypto) (db : BanTable) where
  -- The request claims to come from a federation node.
  abbrev pub ClaimsNode : Request → String → String → Type 0
  ClaimsNode req secret node =
      (req.headers "X-Federation-Secret" ≡ some secret)
      × (req.headers "X-Federation-Node" ≡ some node)
      × (truthy (some secret) ≡ true)
      × (truthy (some node) ≡ true)

  -- The credentials decode to `name:secret`, split at the first colon.
  pub record HasToken (req : Request) (name secret : String) : Type 0 where
    pub credentials : String
    pub token : String
    pub given : req.credentials ≡ some credentials
    pub decodes : crypto.b64decode credentials ≡ some token
    pub splits : split_once b':' token ≡ (name, some secret)

  -- Neither the key nor, checked after it, the client's address is banned.
  pub record NotBanned (now : ℕ) (req : Request) (name : String) (s : Bans db) : Type 0 where
    pub key : (is_key_banned db now name s).1 ≡ false
    pub ip : (is_ip_banned db now (resolve_client_ip req) (is_key_banned db now name s).0).1 ≡ false

  pub data Granted (now : ℕ) (config : AuthConfig) (keys : String → Option ApiKey) (req : Request)
      (s : Bans db) (ctx : AuthContext) : Type 0 where
    node :
        (secret node : String) (k : IncomingKey)
        → ClaimsNode req secret node
        → config.features_federation ≡ true
        → config.federation_enabled ≡ true
        → lookup node config.incoming ≡ some k
        → crypto.b64decode secret ≡ some k.secret
        → ctx ≡ federation_context crypto db node k
        → Granted now config keys req s ctx
    dynamic :
        (name secret : String) (k : ApiKey) (mode : ServerMode)
        → (truthy (req.headers "X-Federation-Secret") && truthy (req.headers "X-Federation-Node"))
          ≡ false
        → HasToken req name secret
        → NotBanned now req name s
        → keys name ≡ some k
        → crypto.pbkdf2 secret k.salt ≡ k.secret_hash
        → server_mode k.mode ≡ some mode
        → ctx ≡ dynamic_context crypto db name k mode
        → Granted now config keys req s ctx
    static :
        (name secret : String) (k : StaticKey)
        → (truthy (req.headers "X-Federation-Secret") && truthy (req.headers "X-Federation-Node"))
          ≡ false
        → HasToken req name secret
        → NotBanned now req name s
        → keys name ≡ none
        → lookup name config.api_key ≡ some k
        → k.secret ≡ secret
        → ctx ≡ static_context crypto db name k
        → Granted now config keys req s ctx
