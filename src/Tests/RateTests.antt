-- ===== src/Tests/RateTests.antt =====
-- The rate limits at concrete inputs.
use nexus_gate.Prelude.{
  ◌≡◌, refl, ℕ, Bool, true, false, String, none, some, List, [], ◌∷◌, ◌==◌, eq_iff, arith, inl, ◌⊎◌,
  ◌≤◌, ◌+◌, ltb, Option, ap, ◌∙◌, if◌then◌else◌, min, lookup, insert, remove, string_eq,
  lookup-insert_self, lookup-insert_ne, lookup-remove,
}
use nexus_gate.Sql.{Table, dict_table}
use nexus_gate.RateLimit.Request.{LimitRequest, IsProper}
use nexus_gate.RateLimit.Memory.{
  TtlCache, check_rate_limit, count_request, open_window, apply_penalty_violation,
}
use nexus_gate.RateLimit.Memory.Window.{Lasts, passed, passed-window}
use nexus_gate.RateLimit.Sqlite.{Log, CacheRow, Store, since}
use nexus_gate.RateLimit.Sqlite.Sliding.{IsBounded, admitted, admitted-IsBounded}
use nexus_gate.RateLimit.Middleware.{
  Limits, determine_effective_limits, determine_effective_limits_impl,
}
use nexus_gate.RateLimit.Middleware.Memo.{asks, limit-stays}

-- A cache that never loses anything.
abbrev pub dict_ttl : {V : Type 0} → TtlCache V
dict_ttl {V} = record {
  Cache = List (String × V);
  get = λ now k c. lookup k c;
  put = λ now k v c. insert k v c;
  delete = λ now k c. remove k c;
  clear = λ c. [];
  get-put_self = λ now k v c. lookup-insert_self k v c;
  get-put_ne = λ now k j v c h. inl (lookup-insert_ne k j v c h);
  get-later = λ now later k c h. inl refl;
  get-delete = λ now k j c. lookup-remove k j c;
}

-- A cache whose entries live for 300.
unfoldable pub alive : {V : Type 0} → ℕ → Option (V × ℕ) → Option V
alive now none = none
alive now (some (v, expires)) = if ltb now expires then some v else none

pub alive-later :
    {V : Type 0} (now later : ℕ) (o : Option (V × ℕ))
    → now ≤ later
    → (alive later o ≡ alive now o) ⊎ (alive later o ≡ none)
unfolding alive
alive-later now later none h = inl refl
alive-later now later (some (v, expires)) h = ground arith

pub alive-fresh : {V : Type 0} (now : ℕ) (v : V) → alive now (some (v, now + 300)) ≡ some v
unfolding alive
alive-fresh now v = ground arith

pub alive-if :
    {V : Type 0} (now : ℕ) (b : Bool) (o : Option (V × ℕ))
    → alive now (if b then none else o) ≡ (if b then none else alive now o)
unfolding alive
alive-if now true o = refl
alive-if now false o = refl

abbrev pub expiring : {V : Type 0} → TtlCache V
expiring {V} = record {
  Cache = List (String × (V × ℕ));
  get = λ now k c. alive now (lookup k c);
  put = λ now k v c. insert k (v, now + 300) c;
  delete = λ now k c. remove k c;
  clear = λ c. [];
  get-put_self =
      λ now k v c. ap (alive now) (lookup-insert_self k (v, now + 300) c) ∙ alive-fresh now v;
  get-put_ne = λ now k j v c h. inl (ap (alive now) (lookup-insert_ne k j (v, now + 300) c h));
  get-later = λ now later k c h. alive-later now later (lookup k c) h;
  get-delete =
      λ now k j c. ap (alive now) (lookup-remove k j c) ∙ alive-if now (k == j) (lookup j c);
}

abbrev two_in_ten : LimitRequest
two_in_ten = record {
  limits_key = "rl:ip:a:key:b";
  window = 10;
  limit = 2;
  penalty_key = "penalty:a";
  burst = 0;
  penalty_cooldown = 60;
  penalty_threshold = 3;
}

proper : IsProper two_in_ten
proper = record {
  count_expiry = λ e. ground (arith, eq_iff "rl:ip:a:key:b:count" "rl:ip:a:key:b:expiry");
  penalty_count = λ e. ground (arith, eq_iff "penalty:a" "rl:ip:a:key:b:count");
  penalty_expiry = λ e. ground (arith, eq_iff "penalty:a" "rl:ip:a:key:b:expiry");
  violations_count =
      λ e. ground (arith, eq_iff "rl:violations:rl:ip:a:key:b" "rl:ip:a:key:b:count");
  violations_expiry =
      λ e. ground (arith, eq_iff "rl:violations:rl:ip:a:key:b" "rl:ip:a:key:b:expiry");
}

passed-window_example : passed expiring two_in_ten proper (1 ∷ 2 ∷ 3 ∷ 4 ∷ []) [] ≡ min 4 2
unfolding lookup insert alive Lasts check_rate_limit count_request open_window
    apply_penalty_violation
passed-window_example =
    passed-window expiring two_in_ten proper 1 (2 ∷ 3 ∷ 4 ∷ []) [] (omega arith) refl (
      omega arith,
      omega arith,
      (λ e. cc),
      (λ e. cc),
      (
        omega arith,
        omega arith,
        (λ e. cc),
        (λ e. cc),
        (omega arith, omega arith, (λ e. cc), (λ e. cc), tt),
      ),
    )

-- A log as the times of each key.
abbrev plain_log : Log
plain_log = record {
  State = String → List ℕ;
  times = λ k s. s k;
  purge = λ k w s j. if k == j then since w (s j) else s j;
  add = λ k t s j. if k == j then t ∷ s j else s j;
  times-purge = λ k j w s. refl;
  times-add = λ k j t s. refl;
}

abbrev db : Table String CacheRow
db = dict_table

abbrev no_entries : Store plain_log db
no_entries = record { limits = λ k. []; cache = [] }

admitted-IsBounded_example : IsBounded 10 2 (
    admitted plain_log db two_in_ten
      ((false, 1) ∷ (false, 2) ∷ (true, 2) ∷ (false, 3) ∷ (false, 12) ∷ [])
      no_entries
      [])
admitted-IsBounded_example =
    admitted-IsBounded plain_log db two_in_ten
      ((false, 1) ∷ (false, 2) ∷ (true, 2) ∷ (false, 3) ∷ (false, 12) ∷ []) 0 no_entries
      (omega arith, (omega arith, (omega arith, (omega arith, (omega arith, tt))))) refl

abbrev limits : Limits
limits = record { max_requests = 100; configured = []; stored = ("svc", 5) ∷ [] }

abbrev raised : Limits
raised = record { max_requests = 100; configured = []; stored = ("svc", 50) ∷ [] }

old_limit : determine_effective_limits_impl limits "svc" ≡ 5
unfolding determine_effective_limits_impl lookup
old_limit = refl

limit-stays_example :
    (determine_effective_limits 3 raised "svc" (
      asks 3
        ((raised, "a") ∷ (raised, "b") ∷ [])
        (determine_effective_limits 3 limits "svc" []).0)).1
    ≡ determine_effective_limits_impl limits "svc"
unfolding lookup
limit-stays_example =
    limit-stays 3 limits raised "svc" ((raised, "a") ∷ (raised, "b") ∷ []) [] refl (omega arith)
