-- ===== src/Query.antt =====
-- src/api/database/query_parser.py, over the parser sqlglot. `upper` and `lower` are Python's.
pub mod Permitted
use nexus_gate.Prelude.{
  String, Bool, true, false, not, ◌&&◌, ◌||◌, Option, none, some, List, [], ◌∷◌, map, ◌==◌,
  if◌then◌else◌, contains,
}
use nexus_gate.Errors.{
  Result, raise, ok, ◌>>=◌, ◌>>◌, raise_if, nexus, index_error, auth_insufficient_mode,
  db_query_blocked, db_query_invalid,
}

-- The classes of nodes that the policy names.
pub data NodeClass : Type 0 where
  select show describe insert update delete drop alter create command : NodeClass

-- What is called of sqlglot: `parse` with `none` for a `ParseError` and for an empty statement,
-- `isinstance` of a node, and what a node says of itself; `tables` is `none` where the search raises.
pub record Sqlglot : Type 1 where
  pub Node : Type 0
  pub parse : String → Option (List (Option Node))
  pub is_instance : NodeClass → Node → Bool
  pub key : Node → String
  pub to_sql : Node → String
  pub tables : Node → Option (List String)
  pub has_truncate : Node → Bool
  pub upper : String → String
  pub lower : String → String

pub record DatabaseConfig : Type 0 where
  pub dangerous_operations : Bool
  pub query_blacklist : List String
  pub query_whitelist : List String

abbrev pub given : List String → Bool
given [] = false
given (x ∷ xs) = true

module _ (glot : Sqlglot) where
  abbrev pub is_select : glot.Node → Bool
  is_select e = glot.is_instance select e || glot.is_instance show e || glot.is_instance describe e

  abbrev pub is_write : glot.Node → Bool
  is_write e = glot.is_instance insert e || glot.is_instance update e || glot.is_instance delete e

  abbrev pub is_dangerous : glot.Node → Bool
  is_dangerous e =
      glot.is_instance drop e
      || glot.is_instance alter e
      || glot.is_instance create e
      || glot.is_instance command e

  unfoldable pub enforce_user_mode : glot.Node → String → Result (Unit {0})
  enforce_user_mode e user_mode =
      raise_if (user_mode == "readonly" && not (is_select e)) auth_insufficient_mode 403
      >> raise_if (user_mode == "writeonly" && not (is_write e)) auth_insufficient_mode 403

  abbrev pub listed : List String → String → Bool
  listed queries query_type = contains (map glot.upper queries) query_type

  unfoldable pub enforce_query_policy : glot.Node → DatabaseConfig → String → Result (Unit {0})
  enforce_query_policy e cfg query_type =
      raise_if (not cfg.dangerous_operations && is_dangerous e) db_query_blocked 403
      >> raise_if
          (not cfg.dangerous_operations && (glot.is_instance command e && glot.has_truncate e))
          db_query_blocked 403
      >> raise_if (given cfg.query_blacklist && listed cfg.query_blacklist query_type)
          db_query_blocked 403
      >> raise_if (given cfg.query_whitelist && not (listed cfg.query_whitelist query_type))
          db_query_blocked 403

  abbrev pub first_table : Option (List String) → String
  first_table none = "*"
  first_table (some []) = "*"
  first_table (some (t ∷ ts)) = t

  unfoldable pub extract_target_table : glot.Node → String
  extract_target_table e = first_table (glot.tables e)

  unfoldable pub single_node : Option (List (Option glot.Node)) → Result glot.Node
  single_node none = raise (nexus db_query_invalid 400)
  single_node (some []) = raise index_error
  single_node (some (none ∷ [])) = raise (nexus db_query_invalid 400)
  single_node (some (some e ∷ [])) = ok e
  single_node (some (x ∷ y ∷ rest)) = raise (nexus db_query_blocked 403)

  unfoldable pub parse_and_extract : String → Result (glot.Node × String × String)
  unfolding single_node extract_target_table
  parse_and_extract sql =
      single_node (glot.parse sql) >>= λ e. ok (e, glot.upper (glot.key e), extract_target_table e)

  unfoldable pub validate : String → DatabaseConfig → String → Result (String × String × String)
  unfolding parse_and_extract enforce_user_mode enforce_query_policy
  validate sql cfg user_mode = parse_and_extract sql >>= λ (e, query_type, target_table).
      enforce_user_mode e user_mode
      >> enforce_query_policy e cfg query_type
      >> ok (glot.to_sql e, glot.lower query_type, target_table)
