-- ===== src/RateLimit/Memory/Window.antt =====
-- How many requests pass in a window, while the cache of src/cache/memory.py holds the window's entries.
use nexus_gate.Prelude.{
  ℕ, ◌+◌, ◌-◌, ◌≤◌, ◌<◌, String, true, false, Option, none, some, List, [], ◌∷◌, ◌≡◌, ◌≢◌, ◌⊎◌, inl,
  inr, arith, min, if◌then◌else◌, ltb, leb, length, if-both, dec_lt, lt→ltb, not-lt→ltb,
  Option-cases, sym, ◌∙◌,
}
use nexus_gate.RateLimit.Request.{LimitRequest, count_key, expiry_key, violations_key, IsProper}
use nexus_gate.RateLimit.Memory.{
  TtlCache, number_or, apply_penalty_violation, open_window, count_request, check_rate_limit,
}

-- An entry holds this number, or it is gone.
abbrev Holds : ℕ → Option ℕ → Type 0
Holds v o = (o ≡ some v) ⊎ (o ≡ none)

Holds-still : {v : ℕ} {a b : Option ℕ} → (a ≡ b) ⊎ (a ≡ none) → Holds v b → Holds v a
Holds-still (inl same) (inl h) = inl (same ∙ h)
Holds-still (inl same) (inr h) = inr (same ∙ h)
Holds-still (inr gone) h = inr gone

Holds-there : {v : ℕ} {a : Option ℕ} → a ≢ none → Holds v a → a ≡ some v
Holds-there there (inl h) = h
Holds-there there (inr gone) = absurd (there gone)

-- A penalty is there only where it may be.
abbrev Penal : Type 0 → Option ℕ → Type 0
Penal Full o = (o ≡ none) ⊎ Full

Penal-still : {Full : Type 0} {a b : Option ℕ} → (a ≡ b) ⊎ (a ≡ none) → Penal Full b → Penal Full a
Penal-still (inl same) (inl h) = inl (same ∙ h)
Penal-still (inr gone) (inl h) = inl gone
Penal-still s (inr full) = inr full

module _ (ttl : TtlCache ℕ) (p : LimitRequest) (proper : IsProper p) where
  -- The requests at these times, one after the other: how many of them pass.
  pub passed : List ℕ → ttl.Cache → ℕ
  passed [] c = 0
  passed (now ∷ times) c =
      let (c', violated, count) = check_rate_limit ttl now p c in
      (if violated then 0 else 1) + passed times c'

  -- The times are in order from `last` to `end`, and each request finds the two entries of the window:
  -- neither has been evicted, and neither has outlived its time.
  unfoldable pub Lasts : ℕ → ℕ → List ℕ → ttl.Cache → Type 0
  Lasts end last [] c = Unit
  Lasts end last (now ∷ times) c =
      (last ≤ now)
      × (now ≤ end)
      × (ttl.get now (expiry_key p) c ≢ none)
      × (ttl.get now (count_key p) c ≢ none)
      × Lasts end now times (check_rate_limit ttl now p c).0

  -- Of the window that ends at `end`: `n` requests have been counted, as far as the entries are still
  -- there, and a penalty is there only when the limit is used up.
  record Counted (now end n : ℕ) (c : ttl.Cache) : Type 0 where
    pub ends : Holds end (ttl.get now (expiry_key p) c)
    pub counts : Holds n (ttl.get now (count_key p) c)
    pub penal : Penal (p.limit + p.burst ≤ n) (ttl.get now p.penalty_key c)

  Counted-later :
      {now later end n : ℕ} {c : ttl.Cache}
      → now ≤ later
      → Counted now end n c
      → Counted later end n c
  Counted-later {now} {later} {c = c} le h = record {
    ends = Holds-still (ttl.get-later now later (expiry_key p) c le) h.ends;
    counts = Holds-still (ttl.get-later now later (count_key p) c le) h.counts;
    penal = Penal-still (ttl.get-later now later p.penalty_key c le) h.penal;
  }

  put-Holds :
      (now : ℕ) (k j : String) (v : ℕ) {w : ℕ} (c : ttl.Cache)
      → k ≢ j
      → Holds w (ttl.get now j c)
      → Holds w (ttl.get now j (ttl.put now k v c))
  put-Holds now k j v c other h = Holds-still (ttl.get-put_ne now k j v c other) h

  penalty-Holds :
      (now : ℕ) (k : String) {w : ℕ} (c : ttl.Cache)
      → violations_key p ≢ k
      → p.penalty_key ≢ k
      → Holds w (ttl.get now k c)
      → Holds w (ttl.get now k (apply_penalty_violation ttl now p c))
  unfolding apply_penalty_violation
  penalty-Holds now k {w} c h h' held =
      let v = number_or 0 (ttl.get now (violations_key p) c) + 1 in
      let once = put-Holds now (violations_key p) k v c h held in
      if-both (λ d. Holds w (ttl.get now k d)) (leb p.penalty_threshold v)
        (put-Holds now p.penalty_key k 1 (ttl.put now (violations_key p) v c) h' once) once

  -- A counted request leaves the expiry and what penalty there was.
  count-Counted :
      (now end m : ℕ) (c : ttl.Cache)
      → Holds end (ttl.get now (expiry_key p) c)
      → Penal (p.limit + p.burst ≤ m) (ttl.get now p.penalty_key c)
      → Counted now end m (ttl.put now (count_key p) m c)
  count-Counted now end m c ends penal = record {
    ends = put-Holds now (count_key p) (expiry_key p) m c proper.count_expiry ends;
    counts = inl (ttl.get-put_self now (count_key p) m c);
    penal =
        Penal-still
          (ttl.get-put_ne now (count_key p) p.penalty_key m c (λ e. proper.penalty_count (sym e)))
          penal;
  }

  more :
      {n : ℕ} {o : Option ℕ} → Penal (p.limit + p.burst ≤ n) o → Penal (p.limit + p.burst ≤ n + 1) o
  more (inl free) = inl free
  more (inr full) = inr (omega arith)

  free_below :
      {n : ℕ} {o : Option ℕ} → n < p.limit + p.burst → Penal (p.limit + p.burst ≤ n) o → o ≡ none
  free_below room (inl free) = free
  free_below room (inr full) = absurd (omega arith)

  penalty-Counted :
      (now end n : ℕ) (c : ttl.Cache)
      → Counted now end n c
      → p.limit + p.burst ≤ n
      → Counted now end n (apply_penalty_violation ttl now p c)
  penalty-Counted now end n c h full = record {
    ends = penalty-Holds now (expiry_key p) c proper.violations_expiry proper.penalty_expiry h.ends;
    counts =
        penalty-Holds now (count_key p) c proper.violations_count proper.penalty_count h.counts;
    penal = inr full;
  }

  -- Below the limit a request of the window passes and is counted.
  pass_step :
      (now end n : ℕ) (c : ttl.Cache)
      → now ≤ end
      → ttl.get now (expiry_key p) c ≡ some end
      → ttl.get now (count_key p) c ≡ some n
      → ttl.get now p.penalty_key c ≡ none
      → n < p.limit + p.burst
      → check_rate_limit ttl now p c ≡ (ttl.put now (count_key p) (n + 1) c, false, n + 1)
  unfolding check_rate_limit count_request open_window
  pass_step now end n c early ends counts free room = ground (arith, ends, counts, free)

  -- At the limit it is rejected, counted, and noted as a violation, if there is no penalty yet.
  full_step :
      (now end n : ℕ) (c : ttl.Cache)
      → now ≤ end
      → ttl.get now (expiry_key p) c ≡ some end
      → ttl.get now (count_key p) c ≡ some n
      → p.limit + p.burst ≤ n
      → ttl.get now p.penalty_key c ≡ none
      → check_rate_limit ttl now p c
        ≡ (apply_penalty_violation ttl now p (ttl.put now (count_key p) (n + 1) c), true, n + 1)
  unfolding check_rate_limit count_request open_window
  full_step now end n c early ends counts full free = ground (arith, ends, counts, free)

  penalized_step :
      (now v : ℕ) (c : ttl.Cache)
      → ttl.get now p.penalty_key c ≡ some v
      → check_rate_limit ttl now p c ≡ (c, true, p.limit + 1)
  unfolding check_rate_limit
  penalized_step now v c punished = rw punished

  -- What is left of the limit after `n` requests.
  abbrev left : ℕ → ℕ
  left n = p.limit + p.burst - n

  passed-Counted :
      (times : List ℕ) (last end n : ℕ) (c : ttl.Cache)
      → Lasts end last times c
      → Counted last end n c
      → passed times c ≡ min (length times) (left n)
  unfolding passed Lasts
  passed-Counted [] last end n c lasts h = omega arith
  passed-Counted (now ∷ times) last end n c (after, early, end_there, count_there, lasts) before =
      let h = Counted-later after before in
      let ends = Holds-there end_there h.ends in
      let counts = Holds-there count_there h.counts in
      elim (dec_lt n (p.limit + p.burst)) [
        | yes room ↦
            let free = free_below room h.penal in
            let e = pass_step now end n c early ends counts free room in
            let ih =
              passed-Counted times now end (n + 1) (ttl.put now (count_key p) (n + 1) c)
                (rw e at lasts) (count-Counted now end (n + 1) c h.ends (inl free)) in
            rw e (omega (arith, ih))
        | no full ↦ elim (Option-cases (ttl.get now p.penalty_key c)) [
          | inl free ↦
              let e = full_step now end n c early ends counts (omega arith) free in
              let ih =
                passed-Counted times now end (n + 1)
                  (apply_penalty_violation ttl now p (ttl.put now (count_key p) (n + 1) c))
                  (rw e at lasts)
                  (penalty-Counted now end (n + 1) _
                    (count-Counted now end (n + 1) c h.ends (inr (omega arith))) (omega arith)) in
              rw e (omega (arith, ih))
          | inr (v, punished) ↦
              let e = penalized_step now v c punished in
              let ih = passed-Counted times now end n c (rw e at lasts) h in
              rw e (omega (arith, ih))
        ]
      ]

  abbrev opened_at : ℕ → ttl.Cache → ttl.Cache
  opened_at start c =
      ttl.put start (count_key p) 1 (ttl.put start (expiry_key p) (start + p.window) c)

  first_step :
      (start : ℕ) (c : ttl.Cache)
      → number_or 0 (ttl.get start (expiry_key p) c) < start
      → ttl.get start p.penalty_key c ≡ none
      → check_rate_limit ttl start p c ≡ (
          if ltb (p.limit + p.burst) 1
          then (apply_penalty_violation ttl start p (opened_at start c), true, 1)
          else (opened_at start c, false, 1))
  unfolding check_rate_limit count_request open_window
  first_step start c over free = ground (arith, free)

  opened-Counted :
      (start : ℕ) (c : ttl.Cache)
      → ttl.get start p.penalty_key c ≡ none
      → Counted start (start + p.window) 1 (opened_at start c)
  opened-Counted start c free =
      count-Counted start (start + p.window) 1 _
        (inl (ttl.get-put_self start (expiry_key p) (start + p.window) c))
        (Penal-still
          (ttl.get-put_ne start (expiry_key p) p.penalty_key (start + p.window) c
            (λ e. proper.penalty_expiry (sym e)))
          (inl free))

  -- The first request opens a window, and of it and the requests until the window's end, in the order of
  -- their times, exactly the first `limit + burst` pass, if the old window is over, no penalty is in
  -- force, the keys of the request's entries differ, and each later request finds the window's two
  -- entries: neither evicted nor past its time to live.
  pub passed-window :
      (start : ℕ) (times : List ℕ) (c : ttl.Cache)
      → number_or 0 (ttl.get start (expiry_key p) c) < start
      → ttl.get start p.penalty_key c ≡ none
      → Lasts (start + p.window) start times (check_rate_limit ttl start p c).0
      → passed (start ∷ times) c ≡ min (length (start ∷ times)) (p.limit + p.burst)
  unfolding passed
  passed-window start times c over free lasts = elim (dec_lt (p.limit + p.burst) 1) [
    | yes none_left ↦
        let ih =
          passed-Counted times start (start + p.window) 1
            (apply_penalty_violation ttl start p (opened_at start c))
            (rw (first_step start c over free, lt→ltb (p.limit + p.burst) 1 none_left) at lasts)
            (penalty-Counted start (start + p.window) 1 _ (opened-Counted start c free)
              (omega arith)) in
        rw (first_step start c over free, lt→ltb (p.limit + p.burst) 1 none_left)
          (omega (arith, ih))
    | no some_left ↦
        let ih =
          passed-Counted times start (start + p.window) 1 (opened_at start c)
            (rw (first_step start c over free, not-lt→ltb (p.limit + p.burst) 1 some_left) at lasts)
            (opened-Counted start c free) in
        rw (first_step start c over free, not-lt→ltb (p.limit + p.burst) 1 some_left)
          (omega (arith, ih))
  ]
