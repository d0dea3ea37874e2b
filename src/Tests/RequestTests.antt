-- ===== src/Tests/RequestTests.antt =====
-- Filters, statements, the firewall and the webhooks at concrete inputs.
use nexus_gate.Prelude.{
  ◌≡◌, ◌↔◌, refl, ℕ, true, false, Bool, String, none, some, [], ◌∷◌, arith, string_eq,
}
use nexus_gate.Errors.{ok}
use nexus_gate.Filter.{
  Fields, text, number, obj, field, done, build_where_clause, construct_update, construct_delete,
}
use nexus_gate.Filter.Shape.{blank_filter, sql_of}
use nexus_gate.Filter.Guard.{blank_columns, construct_update-blank}
use nexus_gate.Query.{extract_target_table, Sqlglot, DatabaseConfig, NodeClass, select, validate}
use nexus_gate.Query.Permitted.{Permitted, validate_iff}
use nexus_gate.Waf.{WafRequest, inspect}
use nexus_gate.Waf.Harmless.{Harmless, inspect_iff}
use nexus_gate.Webhook.{WebhookConfig, Webhooks, Task, TokenCrypto, process_dispatch_task}
use nexus_gate.Webhook.Bounded.{IsBounded, stop, more, dispatched, Run-IsBounded}

abbrev adults : Fields
adults = field "name" (text "x' OR 1=1") (field "age" (obj (field "$gte" (number "18") done)) done)

program : Unit {0}
unfolding build_where_clause construct_delete inspect
program = tt

adults_where : sql_of (build_where_clause adults) ≡ ok "name = :__p_0 AND age >= :__p_1"
unfolding program
adults_where = refl

construct_update-blank_example :
    sql_of (
      construct_update "users" (blank_columns (field "name" (text "y") done)) (blank_filter adults))
    ≡ sql_of (construct_update "users" (field "name" (text "y") done) adults)
construct_update-blank_example =
    construct_update-blank "users" (field "name" (text "y") done) adults

-- One statement that is a `SELECT`.
abbrev pub is_one : NodeClass → Bool
is_one select = true
is_one _ = false

abbrev pub glot : Sqlglot
glot = record {
  Node = String;
  parse = λ s. some (some s ∷ []);
  is_instance = λ c e. is_one c;
  key = λ e. "SELECT";
  to_sql = λ e. e;
  tables = λ e. some ("users" ∷ []);
  has_truncate = λ e. false;
  upper = λ s. s;
  lower = λ s. s;
}

abbrev cautious : DatabaseConfig
cautious = record {
  dangerous_operations = false;
  query_blacklist = "DELETE" ∷ [];
  query_whitelist = [];
}

validate_iff_example :
    (validate glot "SELECT 1" cautious "readonly" ≡ ok ("SELECT 1", "SELECT", "users")) ↔ (
      (e : String) × (glot.parse "SELECT 1" ≡ some (some e ∷ []))
      × Permitted glot cautious "readonly" e
      × (◌≡◌ {A = String × String × String} (e, "SELECT", "users") ("SELECT 1", "SELECT", "users")))
unfolding extract_target_table
validate_iff_example =
    validate_iff glot "SELECT 1" cautious "readonly" ("SELECT 1", "SELECT", "users")

abbrev plain_request : WafRequest
plain_request = record {
  is_http = true;
  path = "/admin";
  raw_path = "/admin";
  query_string = "a=1&b=2";
  headers = ("content-length", "12") ∷ [];
}

inspect_iff_example : (inspect 1024 plain_request ≡ none) ↔ Harmless 1024 plain_request
unfolding program
inspect_iff_example = inspect_iff 1024 plain_request refl refl refl

abbrev hooks_on : WebhookConfig
hooks_on = record { is_on = true; queue_size = 1; max_retries = 1; retry_delay = 2 }

abbrev job : ℕ → Task
job n = record { hook_name = "h"; url = "u"; secret = "s"; payload = "p"; attempt = n }

abbrev pub silent : TokenCrypto
silent = record { decode = λ s. none; compare_digest = λ a b. false }

abbrev one_job : Webhooks
one_job = record { queue = job 1 ∷ []; pending = [] }

abbrev waits : Webhooks
waits = process_dispatch_task hooks_on false (job 1) (record { queue = []; pending = [] })

Run-IsBounded_example : IsBounded hooks_on waits
Run-IsBounded_example =
    Run-IsBounded silent hooks_on [] one_job waits
      (record { room = λ h. omega arith; queued = (omega arith, tt); waiting = tt })
      (more one_job one_job waits (stop one_job) (dispatched false (job 1) [] []))
