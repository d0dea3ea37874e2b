-- ===== src/Filter/Guard.antt =====
-- The statements that src/api/database/filter_builder.py builds around a filter.
use nexus_gate.Prelude.{ℕ, ◌+◌, String, List, [], ◌≡◌, refl, arith, if◌then◌else◌, ◌==◌}
use nexus_gate.Text.{◌<>◌}
use nexus_gate.Errors.{Result, raise, ok, ◌>>=◌, value_error}
use nexus_gate.Filter.{
  Json, Fields, null, done, field, join, build_where_clause, set_columns_from, merge,
  construct_update,
}
use nexus_gate.Filter.Shape.{blank_filter, build_where_clause-blank, sql_of}

-- The columns without their values.
unfoldable pub blank_columns : Fields → Fields
blank_columns done = done
blank_columns (field col v fs) = field col null (blank_columns fs)

set_columns-blank :
    (i : ℕ) (fs : Fields) (parts : List String) (ps ps' : List (String × Json))
    → (set_columns_from i (blank_columns fs) (parts, ps')).0 ≡ (set_columns_from i fs (parts, ps)).0
unfolding set_columns_from blank_columns
set_columns-blank i done parts ps ps' = refl
set_columns-blank i (field col v fs) parts ps ps' = set_columns-blank (i + 1) fs _ _ _

abbrev update_sql : String → List String → String → String
update_sql table set_parts clause =
    "UPDATE " <> (table <> (" SET " <> (join ", " set_parts <> (" WHERE " <> clause))))

abbrev finish :
    (String → String)
    → (List (String × Json) → List (String × Json))
    → String × List (String × Json)
    → Result (String × List (String × Json))
finish text all (clause, ps) = if clause == "" then raise value_error else ok (text clause, all ps)

finish-sql :
    (r r' : Result (String × List (String × Json))) (text : String → String)
    (all all' : List (String × Json) → List (String × Json))
    → sql_of r' ≡ sql_of r
    → sql_of (r' >>= finish text all') ≡ sql_of (r >>= finish text all)
finish-sql (raise x) (raise y) text all all' same = cc
finish-sql (raise x) (ok c) text all all' same = cc
finish-sql (ok c) (raise y) text all all' same = cc
finish-sql (ok (c, ps)) (ok (c', ps')) text all all' same =
    let e : c' ≡ c = ground (arith, same) in ground (arith, e)

-- The text of an update, or the error, depends on no value that is written and on nothing in the
-- filter but its columns, its operators, the lengths of its lists and the Booleans in it.
pub construct_update-blank :
    (table : String) (fs filter_json : Fields)
    → sql_of (construct_update table (blank_columns fs) (blank_filter filter_json))
      ≡ sql_of (construct_update table fs filter_json)
unfolding construct_update
construct_update-blank table fs filter_json =
    let (parts, ps) = set_columns_from 0 fs ([], []) in
    let (parts', ps') = set_columns_from 0 (blank_columns fs) ([], []) in
    rw (set_columns-blank 0 fs [] [] []) (
      finish-sql (build_where_clause filter_json) (build_where_clause (blank_filter filter_json))
        (update_sql table parts) (λ news. merge news ps) (λ news. merge news ps')
        (build_where_clause-blank filter_json))
