-- ===== src/RateLimit/Middleware.antt =====
-- src/server/middleware/rate_limit.py. Headers are pairs of latin-1 texts, and the backend is any
-- `check_rate_limit`.
pub mod Memo
use nexus_gate.Prelude.{
  ℕ, ◌-◌, String, Bool, true, false, not, Option, none, some, List, [], ◌∷◌, ◌==◌, ltb,
  if◌then◌else◌, contains, lookup, remove, string_eq, take,
}
use nexus_gate.Text.{split_once, strip, ◌<>◌, cut_prefix}
use nexus_gate.RateLimit.Request.{LimitRequest}

abbrev pub Headers : Type 0
Headers = List (String × String)

-- The last `x-real-ip` before the first `x-forwarded-for`, or the first address of the latter.
unfoldable pub resolve_client_ip : Headers → Option String → Option String
unfolding split_once strip
resolve_client_ip [] found = found
resolve_client_ip ((k, v) ∷ headers) found =
    let rest = resolve_client_ip headers (if k == "x-real-ip" then some v else found) in
    if k == "x-forwarded-for" then some (strip (split_once 0x2c v).0) else rest

-- `decode` is `base64.b64decode` and the reading as UTF-8, `none` where one of them raises.
module _ (decode : String → Option String) where
  unfoldable pub resolve_api_key : Headers → String
  unfolding split_once cut_prefix
  resolve_api_key [] = "anonymous"
  resolve_api_key ((k, v) ∷ headers) =
      let rest = resolve_api_key headers in
      if k == "authorization"
      then elim (cut_prefix "Bearer " v) [
        | none ↦ rest
        | some encoded ↦ elim (decode encoded) [
          | none ↦ "anonymous"
          | some decoded ↦ (split_once 0x3a decoded).0
        ]
      ]
      else rest

-- What the limits are read from: the settings, and the overrides of the keys of the settings and
-- of the storage.
pub record Limits : Type 0 where
  pub max_requests : ℕ
  pub configured : List (String × ℕ)
  pub stored : List (String × ℕ)

abbrev pub override : Option ℕ → Option ℕ
override none = none
override (some n) = if ltb 0 n then some n else none

unfoldable pub determine_effective_limits_impl : Limits → String → ℕ
unfolding lookup
determine_effective_limits_impl limits name =
    if name == "anonymous"
    then limits.max_requests
    else elim (override (lookup name limits.configured)) [
      | some n ↦ n
      | none ↦ elim (override (lookup name limits.stored)) [
        | some n ↦ n
        | none ↦ limits.max_requests
      ]
    ]

-- `functools.lru_cache`, the latest first.
unfoldable pub determine_effective_limits :
    ℕ → Limits → String → List (String × ℕ) → List (String × ℕ) × ℕ
unfolding lookup remove determine_effective_limits_impl
determine_effective_limits maxsize limits name memo = elim (lookup name memo) [
  | some n ↦ ((name, n) ∷ remove name memo, n)
  | none ↦
      let n = determine_effective_limits_impl limits name in (take maxsize ((name, n) ∷ memo), n)
]

pub record Settings : Type 0 where
  pub enabled : Bool
  pub allowed_ips : List String
  pub window : ℕ
  pub burst : ℕ
  pub penalty_cooldown : ℕ
  pub penalty_threshold : ℕ
  pub maxsize : ℕ

pub record Scope : Type 0 where
  pub is_http : Bool
  pub headers : Headers
  pub client : Option String

-- What becomes of a request: passed on as it is, passed on with the limit headers, or answered
-- with 429.
pub data Outcome : Type 0 where
  forwarded : Outcome
  limited : (limit remaining : ℕ) → Outcome
  rejected : (limit retry_after : ℕ) → Outcome

abbrev pub address : Option String → Option String → String
address (some ip) client = ip
address none (some host) = host
address none none = "unknown"

abbrev pub limit_request : Settings → String → String → ℕ → LimitRequest
limit_request cfg ip name limit = record {
  limits_key = "rl:ip:" <> (ip <> (":key:" <> name));
  window = cfg.window;
  limit = limit;
  penalty_key = "penalty:" <> ip;
  burst = cfg.burst;
  penalty_cooldown = cfg.penalty_cooldown;
  penalty_threshold = cfg.penalty_threshold;
}

module _ (decode : String → Option String) {Store : Type 0}
    (check_rate_limit : LimitRequest → Store → Store × Bool × ℕ) where
  abbrev pub answer : Settings → ℕ → Store × Bool × ℕ → Store × Outcome
  answer cfg limit (s, true, count) = (s, rejected limit cfg.window)
  answer cfg limit (s, false, count) = (s, limited limit (limit - count))

  unfoldable pub limit_client :
      Settings
      → Limits
      → Scope
      → String
      → List (String × ℕ)
      → Store
      → List (String × ℕ) × Store × Outcome
  unfolding resolve_api_key determine_effective_limits
  limit_client cfg limits scope ip memo s =
      let name = resolve_api_key decode scope.headers in
      let (memo', limit) = determine_effective_limits cfg.maxsize limits name memo in
      let (s', outcome) = answer cfg limit (check_rate_limit (limit_request cfg ip name limit) s) in
      (memo', s', outcome)

  -- `RateLimitMiddleware.__call__`.
  unfoldable pub handle :
      Settings → Limits → Scope → List (String × ℕ) → Store → List (String × ℕ) × Store × Outcome
  unfolding resolve_client_ip limit_client
  handle cfg limits scope memo s =
      let ip = address (resolve_client_ip scope.headers none) scope.client in
      if not scope.is_http
      then (memo, s, forwarded)
      else if not cfg.enabled
      then (memo, s, forwarded)
      else if contains cfg.allowed_ips ip
      then (memo, s, forwarded)
      else limit_client cfg limits scope ip memo s
