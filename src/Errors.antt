-- ===== src/Errors.antt =====
-- src/api/errors.py: the error codes, and exceptions as values.
use nexus_gate.Prelude.{ℕ, Bool, if◌then◌else◌}

pub data ErrorCode : Type 0 where
  auth_missing_header auth_invalid_format auth_invalid_key auth_invalid_secret : ErrorCode
  auth_insufficient_mode auth_scope_denied : ErrorCode
  db_not_found db_table_not_found db_connection_failed db_query_failed : ErrorCode
  db_query_timeout db_query_blocked db_query_invalid db_mode_denied db_filter_required : ErrorCode
  fs_not_found fs_path_not_found fs_permission_denied fs_limit_exceeded : ErrorCode
  fs_file_too_large fs_extension_blocked fs_upload_expired fs_upload_invalid : ErrorCode
  fs_checksum_mismatch rate_limit_exceeded rate_limit_blocked : ErrorCode
  input_invalid_json input_schema_invalid input_value_invalid input_path_traversal : ErrorCode
  input_too_large fed_server_down fed_circuit_open webhook_queue_full : ErrorCode
  server_internal server_unavailable : ErrorCode

-- `NexusGateException` with its code and status, or an exception of Python's own.
pub data Error : Type 0 where
  nexus : ErrorCode → (status_code : ℕ) → Error
  value_error index_error key_error type_error os_error driver_error : Error

-- What a function that may raise gives back.
pub data Result {ℓ} (A : Type ℓ) : Type ℓ where
  raise : Error → Result A
  ok : A → Result A

-- The first exception ends a chain.
infixl 5 ◌>>=◌ ◌>>◌
abbrev pub ◌>>=◌ {ℓ κ} : {A : Type ℓ} {B : Type κ} → Result A → (A → Result B) → Result B
◌>>=◌ (raise x) next = raise x
◌>>=◌ (ok a) next = next a

abbrev pub ◌>>◌ {κ} : {B : Type κ} → Result (Unit {0}) → Result B → Result B
◌>>◌ check rest = check >>= λ done. rest

-- `if test: raise …`
abbrev pub raise_if : Bool → ErrorCode → ℕ → Result (Unit {0})
raise_if test code status = if test then raise (nexus code status) else ok tt
