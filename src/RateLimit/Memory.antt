-- ===== src/RateLimit/Memory.antt =====
-- `MemoryCache.check_rate_limit` of src/cache/memory.py, over a `cachetools.TTLCache`. What it
-- stores are numbers: counts, times, and `True` as 1.
pub mod Window
use nexus_gate.Prelude.{
  ℕ, ◌+◌, ◌≤◌, String, Bool, true, false, Option, none, some, ◌≡◌, ◌≢◌, ◌⊎◌, ◌==◌, ltb, leb,
  if◌then◌else◌,
}
use nexus_gate.RateLimit.Request.{LimitRequest, count_key, expiry_key, violations_key}

-- `TTLCache`: what was just written is there; another entry is as it was or, when the cache is
-- full, gone; time takes entries away and changes none.
pub record TtlCache (V : Type 0) : Type 1 where
  pub Cache : Type 0
  pub get : ℕ → String → Cache → Option V
  pub put : ℕ → String → V → Cache → Cache
  pub delete : ℕ → String → Cache → Cache
  pub clear : Cache → Cache
  pub get-put_self : (now : ℕ) (k : String) (v : V) (c : Cache) → get now k (put now k v c) ≡ some v
  pub get-put_ne :
      (now : ℕ) (k j : String) (v : V) (c : Cache)
      → k ≢ j
      → (get now j (put now k v c) ≡ get now j c) ⊎ (get now j (put now k v c) ≡ none)
  pub get-later :
      (now later : ℕ) (k : String) (c : Cache)
      → now ≤ later
      → (get later k c ≡ get now k c) ⊎ (get later k c ≡ none)
  pub get-delete :
      (now : ℕ) (k j : String) (c : Cache)
      → get now j (delete now k c) ≡ (if k == j then none else get now j c)

abbrev pub number_or : ℕ → Option ℕ → ℕ
number_or d none = d
number_or d (some n) = n

abbrev pub is_in : Option ℕ → Bool
is_in none = false
is_in (some n) = true

module _ (ttl : TtlCache ℕ) where
  unfoldable pub apply_penalty_violation : ℕ → LimitRequest → ttl.Cache → ttl.Cache
  apply_penalty_violation now p c =
      let violations = number_or 0 (ttl.get now (violations_key p) c) + 1 in
      let c' = ttl.put now (violations_key p) violations c in
      if leb p.penalty_threshold violations then ttl.put now p.penalty_key 1 c' else c'

  -- The count that the request finds, and the cache with a new expiry if the window is over.
  unfoldable pub open_window : ℕ → LimitRequest → ttl.Cache → ℕ × ttl.Cache
  open_window now p c =
      if ltb (number_or 0 (ttl.get now (expiry_key p) c)) now
      then (0, ttl.put now (expiry_key p) (now + p.window) c)
      else (number_or 0 (ttl.get now (count_key p) c), c)

  unfoldable pub count_request : ℕ → LimitRequest → ttl.Cache → ttl.Cache × Bool × ℕ
  count_request now p c =
      let (before, c') = open_window now p c in
      let count = before + 1 in
      let counted = ttl.put now (count_key p) count c' in
      if ltb (p.limit + p.burst) count
      then (apply_penalty_violation now p counted, true, count)
      else (counted, false, count)

  unfoldable pub check_rate_limit : ℕ → LimitRequest → ttl.Cache → ttl.Cache × Bool × ℕ
  check_rate_limit now p c =
      if is_in (ttl.get now p.penalty_key c) then (c, true, p.limit + 1) else count_request now p c
