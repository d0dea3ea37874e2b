-- ===== src/Webhook.antt =====
-- src/webhook/emitter.py and src/webhook/dispatcher.py: which hooks an event reaches, the queue of
-- what is to be sent, and the retries.
pub mod Bounded
use Prim.Native.Char.{code}
use Prim.Native.String
use nexus_gate.Prelude.{
  ℕ, ◌+◌, ◌^◌, String, Bool, true, false, not, ◌&&◌, ◌||◌, Option, none, some, List, [], ◌∷◌, ◌++◌,
  map, ◌==◌, ltb, leb, eqb, if◌then◌else◌, length, contains,
}
use nexus_gate.Text.{strip, split}
use nexus_gate.Errors.{Result, raise, ok, ◌>>=◌, value_error}

-- Two names for the parts, or a `ValueError`.
abbrev pub unpack : List String → Result (String × String)
unpack (a ∷ b ∷ []) = ok (a, b)
unpack parts = raise value_error

pub record Hook : Type 0 where
  pub enabled : Bool
  pub rule : String
  pub url : String
  pub secret : String

pub record Event : Type 0 where
  pub module_name : String
  pub operation : String
  pub resource : String
  pub target : String
  pub webhook_token : Option String

pub record Rule : Type 0 where
  pub mod_name : String
  pub op : String
  pub alias : String
  pub target : String

unfoldable pub parse_rule : String → Result Rule
unfolding split
parse_rule rule = unpack (split 0x40 rule) >>= λ (mod_op, alias_target).
    unpack (split 0x2e mod_op) >>= λ (m, o). unpack (split 0x3a alias_target) >>= λ (a, t).
    ok (record { mod_name = m; op = o; alias = a; target = t })

-- `decode` is `base64.b64decode` and the reading as UTF-8, and `compare_digest` is that of `hmac`;
-- where one of them raises it gives `none` or `false`.
pub record TokenCrypto : Type 0 where
  pub decode : String → Option String
  pub compare_digest : String → String → Bool

abbrev compare_decoded : TokenCrypto → String → Option String → Bool
compare_decoded crypto secret none = false
compare_decoded crypto secret (some token) = crypto.compare_digest secret token

unfoldable pub is_token_matched : TokenCrypto → String → Option String → Bool
is_token_matched crypto secret none = false
is_token_matched crypto secret (some provided) =
    if provided == "" then false else compare_decoded crypto secret (crypto.decode provided)

abbrev one_of : List String → String → Bool
one_of names name = contains names name

unfoldable pub rule_covers : Rule → Event → Bool
unfolding split strip
rule_covers r e =
    one_of ("*" ∷ e.module_name ∷ []) r.mod_name
    && one_of ("*" ∷ "any" ∷ e.operation ∷ []) r.op
    && one_of ("*" ∷ e.resource ∷ []) r.alias
    && (r.target == "*" || one_of (map strip (split 0x2c r.target)) e.target)

unfoldable pub is_rule_matched : TokenCrypto → Hook → Event → Result Bool
unfolding parse_rule rule_covers is_token_matched
is_rule_matched crypto hook e =
    if not hook.enabled
    then ok false
    else (parse_rule hook.rule >>= λ r.
        ok (rule_covers r e && is_token_matched crypto hook.secret e.webhook_token))

pub record Task : Type 0 where
  pub hook_name : String
  pub url : String
  pub secret : String
  pub payload : String
  pub attempt : ℕ

pub record WebhookConfig : Type 0 where
  pub is_on : Bool
  pub queue_size : ℕ
  pub max_retries : ℕ
  pub retry_delay : ℕ

-- The queue, the oldest first, and the tasks that wait for their delay.
pub record Webhooks : Type 0 where
  pub queue : List Task
  pub pending : List (ℕ × Task)

-- A queue of size 0 is never full. What finds it full is dropped.
unfoldable pub put_nowait : WebhookConfig → Task → List Task → List Task
put_nowait cfg t queue =
    if ltb 0 cfg.queue_size && leb cfg.queue_size (length queue) then queue else queue ++ t ∷ []

unfoldable pub matched_hooks :
    TokenCrypto → Event → List (String × Hook) → Result (List (String × Hook))
unfolding is_rule_matched
matched_hooks crypto e [] = ok []
matched_hooks crypto e ((name, hook) ∷ hooks) = is_rule_matched crypto hook e >>= λ matched.
    matched_hooks crypto e hooks >>= λ rest. ok (if matched then (name, hook) ∷ rest else rest)

unfoldable pub put_all : WebhookConfig → String → List (String × Hook) → List Task → List Task
unfolding put_nowait
put_all cfg payload [] queue = queue
put_all cfg payload ((name, hook) ∷ hooks) queue = put_all cfg payload hooks (
    put_nowait cfg
      (record {
        hook_name = name;
        url = hook.url;
        secret = hook.secret;
        payload = payload;
        attempt = 1;
      })
      queue)

-- `emit_event`, with the payload written out.
unfoldable pub emit_event :
    TokenCrypto → WebhookConfig → List (String × Hook) → Event → String → Webhooks → Result Webhooks
unfolding matched_hooks put_all
emit_event crypto cfg hooks e payload s =
    if not cfg.is_on
    then ok s
    else (matched_hooks crypto e hooks >>= λ matched.
        ok (record s { queue = put_all cfg payload matched s.queue }))

unfoldable pub handle_dispatch_failure : WebhookConfig → Task → Webhooks → Webhooks
handle_dispatch_failure cfg t s =
    if ltb cfg.max_retries t.attempt
    then s
    else record s { pending = s.pending ++ (cfg.retry_delay ^ t.attempt, t) ∷ [] }

-- One round of the worker, with what became of the request.
unfoldable pub process_dispatch_task : WebhookConfig → Bool → Task → Webhooks → Webhooks
unfolding handle_dispatch_failure
process_dispatch_task cfg delivered t s = if delivered then s else handle_dispatch_failure cfg t s

-- The end of a delay.
unfoldable pub retry_routine : WebhookConfig → Task → Webhooks → Webhooks
unfolding put_nowait
retry_routine cfg t s = record s {
  queue = put_nowait cfg (record t { attempt = t.attempt + 1 }) s.queue;
}
