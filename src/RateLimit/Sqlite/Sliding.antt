-- ===== src/RateLimit/Sqlite/Sliding.antt =====
-- No window of the log of src/cache/sqlite_backend.py holds more requests than the limit.
use nexus_gate.Prelude.{
  ℕ, ◌+◌, ◌-◌, ◌≤◌, String, Bool, true, false, not, ◌&&◌, List, [], ◌∷◌, ◌≡◌, refl, ◌∙◌, arith, leb,
  if◌then◌else◌, length, Bool-cases, inl, inr, string_eq, eq_refl, ap,
}
use nexus_gate.Sql.{Table}
use nexus_gate.RateLimit.Request.{LimitRequest}
use nexus_gate.RateLimit.Sqlite.{
  since, Log, CacheRow, Store, penalized, enforce_rate_penalty, transaction, check_rate_limit,
}

-- A stricter limit makes an earlier one needless.
since-since : (w w' : ℕ) (ts : List ℕ) → w ≤ w' → since w' (since w ts) ≡ since w' ts
unfolding since
since-since w w' [] h = refl
since-since w w' (t ∷ ts) h = ground (arith, since-since w w' ts h)

-- Of each request in a history, newest first, and those before it, at most `most` lie in the
-- window that ends with it.
abbrev pub IsBounded : ℕ → ℕ → List ℕ → Type 0
IsBounded window most [] = Unit
IsBounded window most (t ∷ h) =
    (length (since (t - window) (t ∷ h)) ≤ most) × IsBounded window most h

-- No call is before the one before it.
abbrev pub IsOrdered : ℕ → List (Bool × ℕ) → Type 0
IsOrdered last [] = Unit
IsOrdered last ((fails, now) ∷ calls) = (last ≤ now) × IsOrdered now calls

push-IsBounded :
    (most window now : ℕ) (passed : Bool) (h : List ℕ)
    → IsBounded window most h
    → (passed ≡ true → length (since (now - window) (now ∷ h)) ≤ most)
    → IsBounded window most (if passed then now ∷ h else h)
push-IsBounded most window now true h bounded within = (within refl, bounded)
push-IsBounded most window now false h bounded within = bounded

module _ (log : Log) (db : Table String CacheRow) (p : LimitRequest) where
  -- The times of the requests that pass without a failing statement, newest first.
  unfoldable pub admitted : List (Bool × ℕ) → Store log db → List ℕ → List ℕ
  admitted [] s h = h
  admitted ((fails, now) ∷ calls) s h =
      let (s', violated, count) = check_rate_limit log db fails now p s in
      admitted calls s' (if not fails && not violated then now ∷ h else h)

  -- From a time on the log holds the history.
  abbrev Logged : ℕ → List ℕ → Store log db → Type 0
  Logged from h s = (w : ℕ) → from ≤ w → since w (log.times p.limits_key s.limits) ≡ since w h

  abbrev purged : ℕ → Store log db → Store log db
  purged now s = record s { limits = log.purge p.limits_key (now - p.window) s.limits }

  purged-times :
      (now : ℕ) (s : Store log db)
      → log.times p.limits_key (purged now s).limits
        ≡ since (now - p.window) (log.times p.limits_key s.limits)
  purged-times now s =
      rw (log.times-purge p.limits_key p.limits_key (now - p.window) s.limits, eq_refl p.limits_key)

  purged-Logged :
      (now last : ℕ) (h : List ℕ) (s : Store log db)
      → last ≤ now
      → Logged (last - p.window) h s
      → Logged (now - p.window) h (purged now s)
  purged-Logged now last h s order logged w from =
      ap (since w) (purged-times now s)
      ∙ since-since (now - p.window) w (log.times p.limits_key s.limits) from
      ∙ logged w (omega arith)

  enforce-limits :
      (now : ℕ) (s : Store log db) → (enforce_rate_penalty log db now p s).limits ≡ s.limits
  unfolding enforce_rate_penalty
  enforce-limits now s = ground arith

  module _ (now : ℕ) (s : Store log db) where
    abbrev found : ℕ
    found = length (log.times p.limits_key (purged now s).limits)

    step_penalized :
        penalized log db now (db.select p.penalty_key s.cache) ≡ true
        → transaction log db now p s ≡ (s, true, p.limit + 1)
    unfolding transaction
    step_penalized punished = rw punished

    step_full :
        penalized log db now (db.select p.penalty_key s.cache) ≡ false
        → leb (p.limit + p.burst) found ≡ true
        → transaction log db now p s
          ≡ (enforce_rate_penalty log db now p (purged now s), true, found)
    unfolding transaction
    step_full free full = rw (free, full)

    step_room :
        penalized log db now (db.select p.penalty_key s.cache) ≡ false
        → leb (p.limit + p.burst) found ≡ false
        → transaction log db now p s ≡ (
          record (purged now s) { limits = log.add p.limits_key now (purged now s).limits },
          false,
          found + 1,
        )
    unfolding transaction
    step_room free room = rw (free, room)

    added-times :
        log.times p.limits_key (log.add p.limits_key now (purged now s).limits)
        ≡ now ∷ log.times p.limits_key (purged now s).limits
    added-times =
        rw (log.times-add p.limits_key p.limits_key now (purged now s).limits, eq_refl p.limits_key)

    added-Logged :
        (h : List ℕ)
        → Logged (now - p.window) h (purged now s)
        → Logged
            (now - p.window)
            (now ∷ h)
            (record (purged now s) { limits = log.add p.limits_key now (purged now s).limits })
    unfolding since
    added-Logged h logged w from = ap (since w) added-times ∙ ground (arith, logged w from)

    added_within :
        (h : List ℕ)
        → Logged (now - p.window) h (purged now s)
        → leb (p.limit + p.burst) found ≡ false
        → length (since (now - p.window) (now ∷ h)) ≤ p.limit + p.burst
    unfolding since
    added_within h logged room =
        let w = now - p.window in
        let times = log.times p.limits_key s.limits in
        let logged_length = ap length (logged w (omega arith)) in
        let again = ap (λ ts. length (since w ts)) (purged-times now s) in
        let once = ap length (since-since w w times (omega arith)) in
        let here = ap length (purged-times now s) in
        ground (arith, logged_length, again, once, here)

  -- One call: the log keeps up with the history, and what passes is within the limit.
  call-Logged :
      (fails : Bool) (now last : ℕ) (h : List ℕ) (s : Store log db)
      → last ≤ now
      → Logged (last - p.window) h s
      → let (s', violated, count) = check_rate_limit log db fails now p s in
        let h' = if not fails && not violated then now ∷ h else h in
        Logged (now - p.window) h' s'
        × ((not fails && not violated) ≡ true
            → length (since (now - p.window) (now ∷ h)) ≤ p.limit + p.burst)
  unfolding check_rate_limit
  call-Logged true now last h s order logged = ((λ w from. logged w (omega arith)), λ e. cc)
  call-Logged false now last h s order logged =
      let kept = purged-Logged now last h s order logged in
      elim (Bool-cases (penalized log db now (db.select p.penalty_key s.cache))) [
        | inl punished ↦
            rw (step_penalized now s punished) ((λ w from. logged w (omega arith)), λ e. cc)
        | inr free ↦ elim (Bool-cases (leb (p.limit + p.burst) (found now s))) [
          | inl full ↦ rw (step_full now s free full) (
            (λ w from.
                ap (λ t. since w (log.times p.limits_key t)) (enforce-limits now (purged now s))
                ∙ kept w from),
            λ e. cc,
          )
          | inr room ↦
              rw (step_room now s free room)
                (added-Logged now s h kept, λ e. added_within now s h kept room)
        ]
      ]

  -- A history that is bounded stays so, and so does the rest of the calls.
  admitted_from :
      (calls : List (Bool × ℕ)) (last : ℕ) (s : Store log db) (h : List ℕ)
      → IsOrdered last calls
      → Logged (last - p.window) h s
      → IsBounded p.window (p.limit + p.burst) h
      → IsBounded p.window (p.limit + p.burst) (admitted calls s h)
  unfolding admitted
  admitted_from [] last s h ordered logged bounded = bounded
  admitted_from ((fails, now) ∷ calls) last s h (order, ordered) logged bounded =
      let (kept, within) = call-Logged fails now last h s order logged in
      let (s', violated, count) = check_rate_limit log db fails now p s in
      admitted_from calls now s' (if not fails && not violated then now ∷ h else h) ordered kept (
        push-IsBounded (p.limit + p.burst) p.window now (not fails && not violated) h bounded
          within)

  -- The calls of one key in the order of their times, from an empty log of that key, whatever the
  -- penalties are: with each request that passes and whose statements do not fail, the window that
  -- ends at its time holds at most `limit + burst` requests of that kind.
  pub admitted-IsBounded :
      (calls : List (Bool × ℕ)) (last : ℕ) (s : Store log db)
      → IsOrdered last calls
      → log.times p.limits_key s.limits ≡ []
      → IsBounded p.window (p.limit + p.burst) (admitted calls s [])
  admitted-IsBounded calls last s ordered empty =
      admitted_from calls last s [] ordered (λ w from. ap (since w) empty) tt
