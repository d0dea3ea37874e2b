-- ===== src/Idempotency.antt =====
-- src/server/middleware/idempotency.py over a cache that gives back
-- what was put in, as src/cache/memory.py does. Bodies and header values are latin-1 texts; the application is any function.
use nexus_gate.Prelude.{
  ℕ, ◌≤◌, String, Bool, true, not, ◌&&◌, Option, none, some, List, [], ◌∷◌, ◌++◌, ◌≡◌, ◌==◌, arith,
  ap, ◌∙◌, sym, ltb, if◌then◌else◌, contains, lookup, string_eq, ◌⊎◌, inl, inr, subst, if-both,
}
use nexus_gate.Text.{◌<>◌}
use nexus_gate.RateLimit.Memory.{TtlCache}

pub record Answer : Type 0 where
  pub status : ℕ
  pub headers : List (String × String)
  pub body : String

-- `orjson`: the JSON for an answer, and its reading, `none` where it raises.
pub record AnswerCodec : Type 1 where
  pub Document : Type 0
  pub dumps : Answer → Document
  pub loads : Document → Option Answer
  pub loads-dumps : (a : Answer) → loads (dumps a) ≡ some a

-- What a cache gives back: `bytes`, `str`, or a list that it has read itself.
pub data Cached (Document : Type 0) : Type 0 where
  raw text : Document → Cached Document
  parsed : Answer → Cached Document

pub record HttpRequest : Type 0 where
  pub is_http : Bool
  pub method : String
  pub headers : List (String × String)

abbrev pub marker : String
marker = "x-idempotency-replayed"

abbrev pub replayed : Answer → Answer
replayed a = record a { headers = a.headers ++ (marker, "true") ∷ [] }

abbrev pub without_marker : List (String × String) → List (String × String)
without_marker [] = []
without_marker ((k, v) ∷ headers) =
    let rest = without_marker headers in if k == marker then rest else (k, v) ∷ rest

abbrev IsBytes : {Document : Type 0} → Option (Cached Document) → Type 0
IsBytes {Document} o = (o ≡ none) ⊎ ((b : Document) × (o ≡ some (raw b)))

module _ (codec : AnswerCodec) (cache : TtlCache (Cached codec.Document)) {State : Type 0}
    (app : State → State × Answer) where
  abbrev pub marked : Option Answer → Option Answer
  marked none = none
  marked (some a) = some (replayed a)

  -- What `_serve_cached_response` sends. Of bytes the second item is a number, and the loop over it
  -- raises.
  abbrev pub served : Cached codec.Document → Option Answer
  served (raw s) = none
  served (parsed a) = some (replayed a)
  served (text s) = marked (codec.loads s)

  abbrev pub cache_key : String → String
  cache_key key = "idempotency:" <> key

  abbrev pub keep : ℕ → String → State × Answer → cache.Cache → cache.Cache × State × Answer
  keep now key (s, a) c =
      if ltb a.status 500 && not (a.body == "")
      then (
        cache.put now (cache_key key)
            (raw (codec.dumps (record a { headers = without_marker a.headers }))) c,
        s,
        a,
      )
      else (c, s, a)

  abbrev pub answer_or :
      Option Answer
      → cache.Cache
      → State
      → cache.Cache × State × Answer
      → cache.Cache × State × Answer
  answer_or none c s run = run
  answer_or (some a) c s run = (c, s, a)

  -- With what the cache gives for the key.
  unfoldable pub respond :
      ℕ
      → String
      → Option (Cached codec.Document)
      → cache.Cache
      → State
      → cache.Cache × State × Answer
  respond now key none c s = keep now key (app s) c
  respond now key (some v) c s = answer_or (served v) c s (keep now key (app s) c)

  abbrev pub plain : cache.Cache → State × Answer → cache.Cache × State × Answer
  plain c (s, a) = (c, s, a)

  abbrev pub with_key : ℕ → Option String → cache.Cache → State → cache.Cache × State × Answer
  with_key now none c s = plain c (app s)
  with_key now (some key) c s = respond now key (cache.get now (cache_key key) c) c s

  -- `IdempotencyMiddleware.__call__`.
  unfoldable pub process : ℕ → HttpRequest → cache.Cache → State → cache.Cache × State × Answer
  unfolding respond lookup
  process now r c s =
      if not r.is_http
      then plain c (app s)
      else if not (contains ("POST" ∷ "PUT" ∷ "PATCH" ∷ "DELETE" ∷ []) r.method)
      then plain c (app s)
      else with_key now (lookup "x-idempotency-key" r.headers) c s

  module _ (now : ℕ) (key : String) where
    keep-state : (x : State × Answer) (c : cache.Cache) → (keep now key x c).1 ≡ x.0
    keep-state (s, a) c = ground arith

    respond-bytes :
        (o : Option (Cached codec.Document)) (c : cache.Cache) (s : State)
        → IsBytes o
        → respond now key o c s ≡ keep now key (app s) c
    unfolding respond
    respond-bytes o c s (inl e) = ap (λ v. respond now key v c s) e
    respond-bytes o c s (inr (b, e)) = ap (λ v. respond now key v c s) e

    put-IsBytes :
        (later : ℕ) (b : codec.Document) (c : cache.Cache)
        → now ≤ later
        → IsBytes (cache.get later (cache_key key) (cache.put now (cache_key key) (raw b) c))
    put-IsBytes later b c after =
        elim (cache.get-later now later (cache_key key) (cache.put now (cache_key key) (raw b) c)
          after) [
            | inl stays ↦ inr (b, stays ∙ cache.get-put_self now (cache_key key) (raw b) c)
            | inr gone ↦ inl gone
          ]

    missing-IsBytes :
        (later : ℕ) (c : cache.Cache)
        → now ≤ later
        → cache.get now (cache_key key) c ≡ none
        → IsBytes (cache.get later (cache_key key) c)
    missing-IsBytes later c after missing =
        elim (cache.get-later now later (cache_key key) c after) [
          | inl stays ↦ inl (stays ∙ missing)
          | inr gone ↦ inl gone
        ]

    kept-IsBytes :
        (later : ℕ) (x : State × Answer) (c : cache.Cache)
        → now ≤ later
        → cache.get now (cache_key key) c ≡ none
        → IsBytes (cache.get later (cache_key key) (keep now key x c).0)
    kept-IsBytes later (s, a) c after missing =
        if-both
          (λ (t : cache.Cache × State × Answer). IsBytes (cache.get later (cache_key key) t.0))
          (ltb a.status 500 && not (a.body == "")) (put-IsBytes later _ c after)
          (missing-IsBytes later c after missing)

  module _ (now : ℕ) (r : HttpRequest) (key : String) (http : r.is_http ≡ true)
      (changes : contains ("POST" ∷ "PUT" ∷ "PATCH" ∷ "DELETE" ∷ []) r.method ≡ true)
      (keyed : lookup "x-idempotency-key" r.headers ≡ some key) where
    process_keyed :
        (c : cache.Cache) (s : State)
        → process now r c s ≡ respond now key (cache.get now (cache_key key) c) c s
    unfolding process
    process_keyed c s = rw (http, changes) (ap (λ k. with_key now k c s) keyed)

    -- A keyed request for which the cache gives an answer as text or as a list is answered with it
    -- and the mark of a replay, and the application is not run.
    pub process-replay :
        (c : cache.Cache) (s : State) (a : Answer)
        → (cache.get now (cache_key key) c ≡ some (text (codec.dumps a)))
          ⊎ (cache.get now (cache_key key) c ≡ some (parsed a))
        → process now r c s ≡ (c, s, replayed a)
    unfolding respond
    process-replay c s a (inl hit) =
        process_keyed c s
        ∙ ap (λ v. respond now key v c s) hit
        ∙ ap (λ o. answer_or (marked o) c s (keep now key (app s) c)) (codec.loads-dumps a)
    process-replay c s a (inr hit) = process_keyed c s ∙ ap (λ v. respond now key v c s) hit

-- Two requests with the same key, one after the other: if the cache gives back the bytes that it was
-- given, or has lost them, the second one runs the application again.
pub process-runs_again :
    (codec : AnswerCodec) (cache : TtlCache (Cached codec.Document)) {State : Type 0}
    (app : State → State × Answer) (now later : ℕ) (r : HttpRequest) (key : String)
    (c : cache.Cache) (s : State)
    → r.is_http ≡ true
    → contains ("POST" ∷ "PUT" ∷ "PATCH" ∷ "DELETE" ∷ []) r.method ≡ true
    → lookup "x-idempotency-key" r.headers ≡ some key
    → now ≤ later
    → cache.get now (cache_key codec cache app key) c ≡ none
    → let (c', s', a) = process codec cache app now r c s in
      (process codec cache app later r c' s').1 ≡ (app (app s).0).0
process-runs_again codec cache {State} app now later r key c s http changes keyed after missing =
    let first =
      process_keyed codec cache app now r key http changes keyed c s
      ∙ respond-bytes codec cache app now key _ c s (inl missing) in
    let c' = (keep codec cache app now key (app s) c).0 in
    let second =
      process_keyed codec cache app later r key http changes keyed c' (app s).0
      ∙ respond-bytes codec cache app later key _ c' (app s).0
          (kept-IsBytes codec cache app now key later (app s) c after missing) in
    subst
      (λ (t : cache.Cache × State × Answer).
        (process codec cache app later r t.0 t.1).1 ≡ (app (app s).0).0)
      (sym first)
      (ap (λ u. (process codec cache app later r c' u).1)
          (keep-state codec cache app now key (app s) c)
        ∙ ap (λ (t : cache.Cache × State × Answer). t.1) second
        ∙ keep-state codec cache app later key (app (app s).0) c')
