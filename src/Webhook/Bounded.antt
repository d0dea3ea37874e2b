-- ===== src/Webhook/Bounded.antt =====
-- The queue and the attempts of src/webhook/dispatcher.py, over all interleavings of events, sends
-- and retries.
use nexus_gate.Prelude.{
  ℕ, ◌+◌, ◌≤◌, ◌<◌, String, Bool, true, false, List, [], ◌∷◌, ◌++◌, ◌≡◌, refl, arith, if◌then◌else◌,
  ltb, leb, ◌&&◌, length, length-append, All, All-append, All-left, All-right, Bool-cases, inl, inr,
  subst, ◌⊎◌, not, ◌^◌,
}
use nexus_gate.Errors.{Error, Result, raise, ok, ◌>>=◌}
use nexus_gate.Webhook.{
  Hook, Event, Task, TokenCrypto, WebhookConfig, Webhooks, put_nowait, matched_hooks, put_all,
  emit_event, handle_dispatch_failure, process_dispatch_task, retry_routine,
}

-- What may happen: an event that raises nothing, a send of the oldest task, the end of a delay.
pub data Step (crypto : TokenCrypto) (cfg : WebhookConfig) (hooks : List (String × Hook))
    : Webhooks → Webhooks → Type 0 where
  emitted :
      (e : Event) (payload : String) (s t : Webhooks)
      → emit_event crypto cfg hooks e payload s ≡ ok t
      → Step crypto cfg hooks s t
  dispatched :
      (delivered : Bool) (task : Task) (queue : List Task) (pending : List (ℕ × Task))
      → Step crypto cfg hooks
          (record { queue = task ∷ queue; pending = pending })
          (process_dispatch_task cfg delivered task (record { queue = queue; pending = pending }))
  retried :
      (delay : ℕ) (task : Task) (queue : List Task) (before after : List (ℕ × Task))
      → Step crypto cfg hooks
          (record { queue = queue; pending = before ++ (delay, task) ∷ after })
          (retry_routine cfg task (record { queue = queue; pending = before ++ after }))

pub data Run (crypto : TokenCrypto) (cfg : WebhookConfig) (hooks : List (String × Hook))
    : Webhooks → Webhooks → Type 0 where
  stop : (s : Webhooks) → Run crypto cfg hooks s s
  more :
      (s t u : Webhooks)
      → Run crypto cfg hooks s t
      → Step crypto cfg hooks t u
      → Run crypto cfg hooks s u

-- No queue of a size is longer, and no task has been tried more often than the retries allow.
pub record IsBounded (cfg : WebhookConfig) (s : Webhooks) : Type 0 where
  pub room : 0 < cfg.queue_size → length s.queue ≤ cfg.queue_size
  pub queued : All (λ t. t.attempt ≤ cfg.max_retries + 1) s.queue
  pub waiting : All (λ (p : ℕ × Task). p.1.attempt ≤ cfg.max_retries) s.pending

Result-cases {ℓ} :
    {A : Type ℓ} (r : Result A) → ((a : A) × (r ≡ ok a)) ⊎ ((x : Error) × (r ≡ raise x))
Result-cases (raise x) = inr (x, refl)
Result-cases (ok a) = inl (a, refl)

module _ (cfg : WebhookConfig) where
  abbrev Fits : List Task → Type 0
  Fits queue =
      (0 < cfg.queue_size → length queue ≤ cfg.queue_size)
      × All (λ t. t.attempt ≤ cfg.max_retries + 1) queue

  put_nowait-Fits :
      (t : Task) (queue : List Task)
      → t.attempt ≤ cfg.max_retries + 1
      → Fits queue
      → Fits (put_nowait cfg t queue)
  unfolding put_nowait
  put_nowait-Fits t queue tried (room, all) =
      elim (Bool-cases (ltb 0 cfg.queue_size && leb cfg.queue_size (length queue))) [
        | inl full ↦ subst Fits (rw full refl) (room, all)
        | inr free ↦ subst Fits (rw free refl) (
          (λ some_size. ground (arith, length-append queue (t ∷ []))),
          All-append _ queue (t ∷ []) all (tried, tt),
        )
      ]

  put_all-Fits :
      (payload : String) (hooks : List (String × Hook)) (queue : List Task)
      → Fits queue
      → Fits (put_all cfg payload hooks queue)
  unfolding put_all
  put_all-Fits payload [] queue fits = fits
  put_all-Fits payload ((name, hook) ∷ hooks) queue fits =
      put_all-Fits payload hooks _ (put_nowait-Fits _ queue (omega arith) fits)

  queued_all :
      (payload : String) (matched : List (String × Hook)) (s : Webhooks)
      → IsBounded cfg s
      → IsBounded cfg (record s { queue = put_all cfg payload matched s.queue })
  queued_all payload matched s b =
      let (room, all) = put_all-Fits payload matched s.queue (b.room, b.queued) in
      record { room = room; queued = all; waiting = b.waiting }

  emitted_from :
      (payload : String) (r : Result (List (String × Hook))) (s t : Webhooks)
      → IsBounded cfg s
      → (if not cfg.is_on
          then ok s
          else (r >>= λ matched. ok (record s { queue = put_all cfg payload matched s.queue })))
        ≡ ok t
      → IsBounded cfg t
  emitted_from payload r s t b given = elim (Bool-cases cfg.is_on) [
    | inr off ↦ let same : s ≡ t = ground (arith, given, off) in subst (IsBounded cfg) same b
    | inl on ↦ elim (Result-cases r) [
      | inl (matched, found) ↦
          let same : record s { queue = put_all cfg payload matched s.queue } ≡ t =
            ground (arith, given, on, found) in
          subst (IsBounded cfg) same (queued_all payload matched s b)
      | inr (x, raised) ↦ ground (arith, given, on, raised)
    ]
  ]

  emit-IsBounded :
      (crypto : TokenCrypto) (hooks : List (String × Hook)) (e : Event) (payload : String)
      (s t : Webhooks)
      → emit_event crypto cfg hooks e payload s ≡ ok t
      → IsBounded cfg s
      → IsBounded cfg t
  unfolding emit_event
  emit-IsBounded crypto hooks e payload s t given b =
      emitted_from payload (matched_hooks crypto e hooks) s t b given

  dispatch-IsBounded :
      (delivered : Bool) (task : Task) (queue : List Task) (pending : List (ℕ × Task))
      → IsBounded cfg (record { queue = task ∷ queue; pending = pending })
      → IsBounded cfg
          (process_dispatch_task cfg delivered task (record { queue = queue; pending = pending }))
  unfolding process_dispatch_task handle_dispatch_failure
  dispatch-IsBounded true task queue pending b = record {
    room = λ some_size. omega (arith, b.room some_size);
    queued = b.queued.1;
    waiting = b.waiting;
  }
  dispatch-IsBounded false task queue pending b =
      elim (Bool-cases (ltb cfg.max_retries task.attempt)) [
        | inl over ↦ rw over (record {
          room = λ some_size. omega (arith, b.room some_size);
          queued = b.queued.1;
          waiting = b.waiting;
        })
        | inr again ↦ rw again (record {
          room = λ some_size. omega (arith, b.room some_size);
          queued = b.queued.1;
          waiting =
              All-append _ pending ((cfg.retry_delay ^ task.attempt, task) ∷ []) b.waiting
                (ground (arith, again), tt);
        })
      ]

  retry-IsBounded :
      (delay : ℕ) (task : Task) (queue : List Task) (before after : List (ℕ × Task))
      → IsBounded cfg (record { queue = queue; pending = before ++ (delay, task) ∷ after })
      → IsBounded cfg (retry_routine cfg task (record { queue = queue; pending = before ++ after }))
  unfolding retry_routine
  retry-IsBounded delay task queue before after b =
      let here = All-right _ before ((delay, task) ∷ after) b.waiting in
      let (room, all) =
        put_nowait-Fits (record task { attempt = task.attempt + 1 }) queue (omega (arith, here.0))
          (b.room, b.queued) in
      record {
        room = room;
        queued = all;
        waiting =
            All-append _ before after (All-left _ before ((delay, task) ∷ after) b.waiting) here.1;
      }

-- From a bounded start, empty queues among them, whatever events, sends and delays come in whatever order: a queue of a size
-- never holds more tasks than that, no task in it is past
-- its attempt `max_retries + 1`, and none waits whose attempt was past `max_retries`.
pub Run-IsBounded :
    (crypto : TokenCrypto) (cfg : WebhookConfig) (hooks : List (String × Hook)) (s t : Webhooks)
    → IsBounded cfg s
    → Run crypto cfg hooks s t
    → IsBounded cfg t
Run-IsBounded crypto cfg hooks s _ b (stop _) = b
Run-IsBounded crypto cfg hooks s t b (more _ m _ run (emitted e payload _ _ given)) =
    emit-IsBounded cfg crypto hooks e payload m t given (Run-IsBounded crypto cfg hooks s m b run)
Run-IsBounded crypto cfg hooks s _ b (more _ m _ run (dispatched delivered task queue pending)) =
    dispatch-IsBounded cfg delivered task queue pending (Run-IsBounded crypto cfg hooks s m b run)
Run-IsBounded crypto cfg hooks s _ b (more _ m _ run (retried delay task queue before after)) =
    retry-IsBounded cfg delay task queue before after (Run-IsBounded crypto cfg hooks s m b run)
