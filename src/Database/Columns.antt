-- ===== src/Database/Columns.antt =====
-- src/api/database/handlers.py: the check of the columns that a client asks for, and the statement
-- that reads rows.
use nexus_gate.Prelude.{
  ℕ, zero, suc, ◌*◌, String, Bool, true, false, not, ◌&&◌, ◌||◌, Option, none, some, List, [], ◌∷◌,
  ◌++◌, ◌==◌, if◌then◌else◌, map, contains,
}
use nexus_gate.Text.{◌<>◌, strip, split, last_part, first_part, strip_chars}
use nexus_gate.Errors.{
  Result, raise, ok, ◌>>=◌, ◌>>◌, raise_if, nexus, input_schema_invalid, type_error, value_error,
}
use nexus_gate.Filter.{
  Json, null, flag, number, text, seq, obj, nil, cons, str, join, build_where_clause,
}

-- `ColumnInfo`, `TableInfo` and `QueryResult` of src/db/engines/base.py.
pub record ColumnInfo : Type 0 where
  pub name : String
  pub kind : String
  pub nullable : Bool
  pub primary_key : Bool

pub record TableInfo : Type 0 where
  pub name : String
  pub row_count_estimate : ℕ

-- Pages and limits from 0 on; the source lets negative ones pass as well, which are not here.
pub record FetchRowsParams : Type 0 where
  pub page : ℕ
  pub limit : ℕ
  pub fields : Option String
  pub sort : Option String
  pub order : String
  pub filter : Option String

abbrev quotes : String
quotes = "`\"'"

-- The name that is looked up for one of the fields.
unfoldable pub field_name : String → String
unfolding strip split last_part strip_chars
field_name col = strip_chars quotes (first_part (split b' ' (last_part (split b'.' (strip col)))))

unfoldable pub sort_name : String → String
unfolding strip split last_part strip_chars
sort_name sort = strip_chars quotes (last_part (split b'.' (strip sort)))

module _ (lower : String → String) where
  abbrev pub is_column : List ColumnInfo → String → Bool
  is_column columns name = contains (map (λ c. lower c.name) columns) (lower name)

  unfoldable pub check_fields : List ColumnInfo → List String → Result (Unit {0})
  unfolding field_name
  check_fields columns [] = ok tt
  check_fields columns (col ∷ cols) =
      raise_if (not (is_column columns (field_name col)) && not (field_name col == "*"))
        input_schema_invalid 400
      >> check_fields columns cols

  -- `fields and fields != "*"`.
  abbrev pub check_selected : List ColumnInfo → Option String → Result (Unit {0})
  check_selected columns none = ok tt
  check_selected columns (some fields) =
      if fields == "" || fields == "*" then ok tt else check_fields columns (split b',' fields)

  abbrev pub check_sort : List ColumnInfo → Option String → Result (Unit {0})
  check_sort columns none = ok tt
  check_sort columns (some sort) =
      if sort == ""
      then ok tt
      else raise_if (not (is_column columns (sort_name sort))) input_schema_invalid 400

  -- With the columns of the table.
  unfoldable pub check_columns : List ColumnInfo → Option String → Option String → Result (Unit {0})
  unfolding check_fields split sort_name
  check_columns columns fields sort = check_selected columns fields >> check_sort columns sort

-- A number of JSON that is 0: nothing but zeros stands before its exponent.
unfoldable pub is_zero : String → Bool
unfolding split strip_chars
is_zero n = strip_chars "-0." (first_part (split b'e' (first_part (split b'E' n)))) == ""

-- `(page - 1) * limit` as text, which is below 0 on page 0.
unfoldable pub offset_text : ℕ → ℕ → String
unfolding str
offset_text zero zero = "0"
offset_text zero (suc limit) = "-" <> str (suc limit)
offset_text (suc page) limit = str (page * limit)

-- The filter as JSON, where `none` is an exception of `json.loads`.
abbrev pub where_of : Option Json → Result (String × List (String × Json))
where_of none = raise value_error
where_of (some null) = ok ("", [])
where_of (some (flag false)) = ok ("", [])
where_of (some (flag true)) = raise type_error
where_of (some (number n)) = if is_zero n then ok ("", []) else raise type_error
where_of (some (text s)) = if s == "" then ok ("", []) else raise type_error
where_of (some (seq nil)) = ok ("", [])
where_of (some (seq (cons item items))) = raise type_error
where_of (some (obj filter_json)) = build_where_clause filter_json

-- Any exception of the filter is an error of the input.
abbrev pub or_invalid :
    Result (String × List (String × Json)) → Result (String × List (String × Json))
or_invalid (raise e) = raise (nexus input_schema_invalid 400)
or_invalid (ok clause) = ok clause

-- `json.loads` and `str.upper`.
module _ (loads : String → Option Json) (upper : String → String) where
  abbrev pub given_filter : Option String → Result (String × List (String × Json))
  given_filter none = ok ("", [])
  given_filter (some filter) = if filter == "" then ok ("", []) else where_of (loads filter)

  abbrev pub selected : Option String → String
  selected none = "*"
  selected (some fields) = if fields == "" then "*" else fields

  abbrev pub order_by : Option String → String → List String
  order_by none order = []
  order_by (some sort) order =
      if sort == ""
      then []
      else (("ORDER BY " <> (sort <> (if upper order == "DESC" then " DESC" else " ASC"))) ∷ [])

  abbrev pub where_part : String → List String
  where_part where_sql = if where_sql == "" then [] else (("WHERE " <> where_sql) ∷ [])

  unfoldable pub construct_select_rest_payload :
      String → FetchRowsParams → Result (String × List (String × Json))
  unfolding str offset_text join build_where_clause
  construct_select_rest_payload table_name params =
      or_invalid (given_filter params.filter) >>= λ (where_sql, filter_params). ok (
        join " " (
            ("SELECT " <> (selected params.fields <> (" FROM " <> table_name)))
            ∷ (where_part where_sql
                ++ (order_by params.sort params.order
                    ++ (("LIMIT "
                          <> (str params.limit
                              <> (" OFFSET " <> offset_text params.page params.limit)))
                        ∷ [])))),
        if where_sql == "" then [] else filter_params,
      )
