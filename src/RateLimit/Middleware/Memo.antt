-- ===== src/RateLimit/Middleware/Memo.antt =====
-- How long a limit of src/server/middleware/rate_limit.py stays in the cache of `functools.lru_cache`.
use nexus_gate.Prelude.{
  ℕ, ◌<◌, zero, suc, ◌+◌, String, false, none, some, List, [], ◌∷◌, ◌≡◌, ◌==◌, refl, arith,
  if◌then◌else◌, lookup, remove, string_eq, eq_iff, eq_refl, take, length, Bool-cases, Option-cases,
  inl, inr, ap, sym, ◌∙◌, subst,
}
use nexus_gate.RateLimit.Middleware.{
  Limits, determine_effective_limits, determine_effective_limits_impl,
}

-- The limit of a name stands among the first entries: at most so many come before it.
Near : String → ℕ → ℕ → List (String × ℕ) → Type 0
Near name n k [] = ⊥
Near name n zero ((m, v) ∷ memo) = (m ≡ name) × (v ≡ n)
Near name n (suc k) ((m, v) ∷ memo) = if m == name then v ≡ n else Near name n k memo

Near-lookup :
    (name : String) (n k : ℕ) (memo : List (String × ℕ))
    → Near name n k memo
    → lookup name memo ≡ some n
unfolding Near lookup
Near-lookup name n k [] h = absurd h
Near-lookup name n zero ((m, v) ∷ memo) (same, e) = ground (arith, same, e, eq_iff m name)
Near-lookup name n (suc k) ((m, v) ∷ memo) h = ground (arith, h, Near-lookup name n k memo)

Near-later :
    (name : String) (n k : ℕ) (memo : List (String × ℕ))
    → Near name n k memo
    → Near name n (suc k) memo
unfolding Near
Near-later name n k [] h = h
Near-later name n zero ((m, v) ∷ memo) (same, e) = rw ((eq_iff m name).1 same) e
Near-later name n (suc k) ((m, v) ∷ memo) h = elim (Bool-cases (m == name)) [
  | inl same ↦ rw same (rw same at h)
  | inr other ↦ rw other (Near-later name n k memo (rw other at h))
]

Near-remove :
    (name other : String) (n k : ℕ) (memo : List (String × ℕ))
    → other == name ≡ false
    → Near name n k memo
    → Near name n k (remove other memo)
unfolding Near remove
Near-remove name other n k [] ne h = h
Near-remove name other n zero ((m, v) ∷ memo) ne (same, e) =
    let kept : m == other ≡ false = ground (arith, same, ne, eq_iff m other, eq_iff other name) in
    rw kept (same, e)
Near-remove name other n (suc k) ((m, v) ∷ memo) ne h = elim (Bool-cases (m == other)) [
  | inl gone ↦
      let apart : m == name ≡ false =
        ground (arith, ne, eq_iff m other, eq_iff m name, eq_iff other name) in
      rw gone (Near-later name n k _ (Near-remove name other n k memo ne (rw apart at h)))
  | inr kept ↦ rw kept (elim (Bool-cases (m == name)) [
    | inl same ↦ rw same (rw same at h)
    | inr apart ↦ rw apart (Near-remove name other n k memo ne (rw apart at h))
  ])
]

Near-take :
    (name : String) (n k size : ℕ) (memo : List (String × ℕ))
    → k < size
    → Near name n k memo
    → Near name n k (take size memo)
unfolding Near
Near-take name n k size [] room h = absurd h
Near-take name n k zero ((m, v) ∷ memo) room h = omega arith
Near-take name n zero (suc size) ((m, v) ∷ memo) room h = h
Near-take name n (suc k) (suc size) ((m, v) ∷ memo) room h = elim (Bool-cases (m == name)) [
  | inl same ↦ rw same (rw same at h)
  | inr apart ↦ rw apart (Near-take name n k size memo (omega arith) (rw apart at h))
]

Near-first : (name : String) (n k : ℕ) (memo : List (String × ℕ)) → Near name n k ((name, n) ∷ memo)
unfolding Near
Near-first name n zero memo = (refl, refl)
Near-first name n (suc k) memo = rw (eq_refl name)

Near-behind :
    (name asked : String) (n v k : ℕ) (memo : List (String × ℕ))
    → asked == name ≡ false
    → Near name n k memo
    → Near name n (suc k) ((asked, v) ∷ memo)
unfolding Near
Near-behind name asked n v k memo other h = rw other h

memo_hit :
    (maxsize : ℕ) (limits : Limits) (name : String) (n : ℕ) (memo : List (String × ℕ))
    → lookup name memo ≡ some n
    → determine_effective_limits maxsize limits name memo ≡ ((name, n) ∷ remove name memo, n)
unfolding determine_effective_limits
memo_hit maxsize limits name n memo found = ground (arith, found)

memo_miss :
    (maxsize : ℕ) (limits : Limits) (name : String) (memo : List (String × ℕ))
    → lookup name memo ≡ none
    → let n = determine_effective_limits_impl limits name in
      determine_effective_limits maxsize limits name memo ≡ (take maxsize ((name, n) ∷ memo), n)
unfolding determine_effective_limits
memo_miss maxsize limits name memo fresh = ground (arith, fresh)

-- A lookup of any name pushes the limit back by one place at most, and none is lost before the last.
Near-step :
    (maxsize : ℕ) (limits : Limits) (asked name : String) (n k : ℕ) (memo : List (String × ℕ))
    → suc k < maxsize
    → Near name n k memo
    → Near name n (suc k) (determine_effective_limits maxsize limits asked memo).0
Near-step maxsize limits asked name n k memo room h = elim (Bool-cases (asked == name)) [
  | inl same ↦
      let e : asked ≡ name = (eq_iff asked name).0 same in
      let found : lookup asked memo ≡ some n =
        ap (λ a. lookup a memo) e ∙ Near-lookup name n k memo h in
      rw (memo_hit maxsize limits asked n memo found) (
        subst (λ a. Near name n (suc k) ((a, n) ∷ remove asked memo)) (sym e)
          (Near-first name n (suc k) (remove asked memo)))
  | inr other ↦ elim (Option-cases (lookup asked memo)) [
    | inl missed ↦ rw (memo_miss maxsize limits asked memo missed) (
        Near-take name n (suc k) maxsize _ room
          (Near-behind name asked n (determine_effective_limits_impl limits asked) k memo other h))
    | inr (m, found) ↦ rw (memo_hit maxsize limits asked m memo found) (
        Near-behind name asked n m k (remove asked memo) other
          (Near-remove name asked n k memo other h))
  ]
]

-- The cache after lookups with the settings of their times.
unfoldable pub asks : ℕ → List (Limits × String) → List (String × ℕ) → List (String × ℕ)
asks maxsize [] memo = memo
asks maxsize ((limits, name) ∷ more) memo =
    asks maxsize more (determine_effective_limits maxsize limits name memo).0

asks-Near :
    (maxsize : ℕ) (more : List (Limits × String)) (name : String) (n k : ℕ)
    (memo : List (String × ℕ))
    → k + length more < maxsize
    → Near name n k memo
    → Near name n (k + length more) (asks maxsize more memo)
unfolding asks
asks-Near maxsize [] name n k memo room h = subst (λ j. Near name n j memo) (omega arith) h
asks-Near maxsize ((limits, asked) ∷ more) name n k memo room h =
    let next = (determine_effective_limits maxsize limits asked memo).0 in
    let step = Near-step maxsize limits asked name n k memo (omega (arith, room)) h in
    let ih = asks-Near maxsize more name n (suc k) next (omega (arith, room)) step in
    subst (λ j. Near name n j (asks maxsize more next)) (omega arith) ih

pub limit-stays :
    (maxsize : ℕ) (limits later : Limits) (name : String) (between : List (Limits × String))
    (memo : List (String × ℕ))
    → lookup name memo ≡ none
    → length between < maxsize
    → let memo' = (determine_effective_limits maxsize limits name memo).0 in
      (determine_effective_limits maxsize later name (asks maxsize between memo')).1
      ≡ determine_effective_limits_impl limits name
limit-stays maxsize limits later name between memo fresh room =
    let n = determine_effective_limits_impl limits name in
    let first : Near name n 0 (determine_effective_limits maxsize limits name memo).0 =
      rw (memo_miss maxsize limits name memo fresh) (
        Near-take name n 0 maxsize ((name, n) ∷ memo) (omega (arith, room))
          (Near-first name n 0 memo)) in
    let last =
      asks-Near maxsize between name n 0 (determine_effective_limits maxsize limits name memo).0
        (omega (arith, room)) first in
    ap (λ r. r.1) (memo_hit maxsize later name n _ (Near-lookup name n (0 + length between) _ last))
