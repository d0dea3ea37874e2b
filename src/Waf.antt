-- ===== src/Waf.antt =====
-- src/server/middleware/waf.py. Paths, queries and headers are latin-1 texts.
pub mod Harmless
use Prim.Native.Char.{code}
use nexus_gate.Prelude.{
  ℕ, ◌+◌, ◌≤◌, String, Bool, true, false, not, ◌&&◌, ◌||◌, Option, none, some, List, [], ◌∷◌, ◌≡◌,
  ◌↔◌, ◌==◌, refl, arith, sym, ◌∙◌, ltb, leb, eqb, if◌then◌else◌, lookup, string_eq,
}
use nexus_gate.Text.{cut_prefix, size, strip_chars}
use nexus_gate.Storage.Range.{ℤ, pos, negsuc, read_digits, signed_digits}

-- `s.count(c)` at one character, and `c in s`.
unfoldable pub count : ℕ → String → ℕ
count x String.[] = 0
count x (String.◌∷◌ c s) = let rest = count x s in if eqb (code c) x then rest + 1 else rest

-- One character that the pattern reads without regard to case.
abbrev pub fold : ℕ → ℕ
fold c = if leb 0x41 c && leb c 0x5a then c + 0x20 else c

unfoldable pub has_prefix_ci : String → String → Bool
has_prefix_ci String.[] s = true
has_prefix_ci (String.◌∷◌ c p) String.[] = false
has_prefix_ci (String.◌∷◌ c p) (String.◌∷◌ d s) = eqb (code c) (fold (code d)) && has_prefix_ci p s

abbrev pub patterns : List String
patterns = "../" ∷ "..\\" ∷ "%2e%2e%2f" ∷ "%2e%2e/" ∷ "..%2f" ∷ "%2e%2e%5c" ∷ []

unfoldable pub starts_with_any : List String → String → Bool
unfolding has_prefix_ci
starts_with_any [] s = false
starts_with_any (p ∷ ps) s = has_prefix_ci p s || starts_with_any ps s

-- `traversal_pattern.search`.
unfoldable pub search : String → Bool
unfolding starts_with_any
search String.[] = false
search (String.◌∷◌ c s) = starts_with_any patterns (String.◌∷◌ c s) || search s

pub data Violation : Type 0 where
  uri_too_long null_byte path_traversal too_many_params body_too_large invalid_header : Violation

abbrev pub status_code : Violation → ℕ
status_code uri_too_long = 414
status_code null_byte = 400
status_code path_traversal = 400
status_code too_many_params = 400
status_code body_too_large = 413
status_code invalid_header = 400

abbrev pub found_if : Bool → Violation → Option Violation
found_if test v = if test then some v else none

unfoldable pub validate_uri_length : String → String → Option Violation
unfolding size
validate_uri_length raw_path query = found_if (ltb 2048 (size raw_path + size query)) uri_too_long

unfoldable pub validate_null_bytes : String → String → Option Violation
unfolding count
validate_null_bytes raw_path query =
    found_if (ltb 0 (count 0 raw_path) || ltb 0 (count 0 query)) null_byte

unfoldable pub validate_path_traversal : String → String → Option Violation
unfolding search
validate_path_traversal raw_path query = found_if (search raw_path || search query) path_traversal

unfoldable pub validate_query_params : String → Option Violation
unfolding count
validate_query_params query = found_if (ltb 50 (count 0x26 query)) too_many_params

-- `int` on bytes, which strips the white space of ASCII alone.
unfoldable pub int_bytes : String → Option ℤ
unfolding strip_chars read_digits
int_bytes value = signed_digits (strip_chars "\t\n\u{b}\u{c}\r " value)

-- A length that does not read as a number, and one that is above the limit.
abbrev pub check_length : ℕ → Option ℤ → Option Violation
check_length limit none = some invalid_header
check_length limit (some (pos n)) = found_if (ltb limit n) body_too_large
check_length limit (some (negsuc n)) = none

abbrev pub check_content_length : ℕ → Option String → Option Violation
check_content_length limit none = none
check_content_length limit (some value) =
    if value == "" then none else check_length limit (int_bytes value)

unfoldable pub validate_body_size : ℕ → List (String × String) → Option Violation
unfolding lookup int_bytes
validate_body_size limit headers = check_content_length limit (lookup "content-length" headers)

-- `or` on what the checks give.
infixr 25 ◌or_else◌
abbrev pub ◌or_else◌ : Option Violation → Option Violation → Option Violation
(some v) or_else next = some v
none or_else next = next

pub record WafRequest : Type 0 where
  pub is_http : Bool
  pub path : String
  pub raw_path : String
  pub query_string : String
  pub headers : List (String × String)

abbrev pub begins : String → String → Bool
begins prefix s = elim (cut_prefix prefix s) [ none ↦ false | some rest ↦ true ]

-- The checks, in the order in which the first violation is answered.
unfoldable pub check : ℕ → WafRequest → Option Violation
unfolding validate_uri_length validate_null_bytes validate_path_traversal validate_query_params
    validate_body_size
check limit r =
    validate_uri_length r.raw_path r.query_string
    or_else validate_null_bytes r.raw_path r.query_string
    or_else validate_path_traversal r.raw_path r.query_string
    or_else validate_query_params r.query_string
    or_else validate_body_size limit r.headers

-- `WAFMiddleware.__call__`: `none` if the request is passed on.
unfoldable pub inspect : ℕ → WafRequest → Option Violation
unfolding cut_prefix check
inspect limit r =
    if not r.is_http
    then none
    else if begins "/api/v1/db" r.path || begins "/api/v1/fs" r.path
    then none
    else check limit r
