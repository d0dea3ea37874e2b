-- ===== src/Filter.antt =====
-- src/api/database/filter_builder.py: SQL with placeholders from a filter in JSON.
pub mod Shape
pub mod Guard
use nexus_gate.Prelude.{
  ℕ, zero, suc, ◌+◌, ◌-◌, ◌/◌, ◌%◌, String, Bool, true, false, ◌||◌, Option, none, some, List, [],
  ◌∷◌, ◌++◌, ◌==◌, ltb, if◌then◌else◌, get_elem?, insert, string_eq, length, eqb,
}
use nexus_gate.Text.{◌<>◌}
use nexus_gate.Errors.{Error, value_error, Result, raise, ok, ◌>>=◌}

-- What JSON holds. A number is the text it was written as.
mutual
  pub data Json : Type 0 where
    null : Json
    flag : Bool → Json
    number text : String → Json
    seq : Jsons → Json
    obj : Fields → Json

  pub data Jsons : Type 0 where
    nil : Jsons
    cons : Json → Jsons → Jsons

  pub data Fields : Type 0 where
    done : Fields
    field : String → Json → Fields → Fields

abbrev digit : ℕ → String
digit d =
    elim (get_elem? {A = String} ("0" ∷ "1" ∷ "2" ∷ "3" ∷ "4" ∷ "5" ∷ "6" ∷ "7" ∷ "8" ∷ "9" ∷ [])
      d) [ none ↦ "" | some s ↦ s ]

-- `str` of a number; the number is fuel enough, since each step takes a digit away.
unfoldable pub str_on : ℕ → ℕ → String
str_on zero n = digit (n % 10)
str_on (suc fuel) n =
    let front = str_on fuel (n / 10) in if ltb n 10 then digit (n % 10) else front <> digit (n % 10)

unfoldable pub str : ℕ → String
unfolding str_on
str n = str_on n n

unfoldable pub join : String → List String → String
join sep [] = ""
join sep (s ∷ []) = s
join sep (s ∷ t ∷ rest) = s <> (sep <> join sep (t ∷ rest))

-- `where_parts`, `params` and the next index.
pub record Builder : Type 0 where
  pub parts : List String
  pub params : List (String × Json)
  pub idx : ℕ

abbrev pub say : String → Builder → Builder
say part b = record b { parts = b.parts ++ part ∷ [] }

abbrev pub bind : String → Json → Builder → Builder
bind name value b = record b { params = insert name value b.params }

-- The loop over the items of a list: their placeholders, and the names bound.
unfoldable pub bind_items : String → ℕ → Jsons → List String → Builder → List String × Builder
unfolding str
bind_items pname i nil placeholders b = (placeholders, b)
bind_items pname i (cons item items) placeholders b =
    let name = pname <> ("_" <> str i) in
    bind_items pname (i + 1) items (placeholders ++ (":" <> name) ∷ []) (bind name item b)

unfoldable pub process_array_operator : String → String → Json → String → Builder → Result Builder
unfolding bind_items join
process_array_operator col op (seq items) pname b =
    let (placeholders, b') = bind_items pname 0 items [] b in
    let sql_op = if op == "$in" then "IN" else "NOT IN" in
    ok (say (col <> (" " <> (sql_op <> (" (" <> (join ", " placeholders <> ")"))))) b')
process_array_operator col op val pname b = raise value_error

unfoldable pub process_null_operator : String → String → Json → Builder → Builder
process_null_operator col op (flag true) b =
    say (if op == "$null" then col <> " IS NULL" else col <> " IS NOT NULL") b
process_null_operator col op (flag false) b =
    say (if op == "$null" then col <> " IS NOT NULL" else col <> " IS NULL") b
process_null_operator col op val b = b

abbrev pub math_op : String → Option String
math_op op =
    if op == "$gt"
    then some ">"
    else if op == "$gte"
    then some ">="
    else if op == "$lt"
    then some "<"
    else if op == "$lte"
    then some "<="
    else none

unfoldable pub process_between : String → Json → String → Builder → Result Builder
process_between col (seq (cons low (cons high nil))) pname b = ok (
    bind (pname <> "_end") high (
      bind (pname <> "_start") low
        (say (col <> (" BETWEEN :" <> (pname <> ("_start AND :" <> (pname <> "_end"))))) b)))
process_between col val pname b = raise value_error

abbrev pub place : String → Json → Builder → String → Result Builder
place pname val b part = ok (bind pname val (say part b))

unfoldable pub process_standard_operator :
    String → String → Json → String → Builder → Result Builder
unfolding process_between
process_standard_operator col op val pname b =
    if op == "$eq"
    then place pname val b (col <> (" = :" <> pname))
    else if op == "$ne"
    then place pname val b (col <> (" != :" <> pname))
    else elim (math_op op) [
      | some sign ↦ place pname val b (col <> (" " <> (sign <> (" :" <> pname))))
      | none ↦
          if op == "$like"
          then place pname val b (col <> (" LIKE :" <> pname))
          else if op == "$ilike"
          then place pname val b ("LOWER(" <> (col <> (") LIKE LOWER(:" <> (pname <> ")"))))
          else if op == "$between"
          then process_between col val pname b
          else raise value_error
    ]

-- One operator of a column, with its placeholder's name.
unfoldable pub operate : String → String → Json → String → Builder → Result Builder
unfolding process_array_operator process_null_operator process_standard_operator
operate col op val pname b =
    if op == "$in" || op == "$nin"
    then process_array_operator col op val pname b
    else if op == "$null" || op == "$not_null"
    then (let b' = process_null_operator col op val b in ok (record b' { idx = b'.idx - 1 }))
    else process_standard_operator col op val pname b

unfoldable pub process_operator : String → String → Json → Builder → Result Builder
unfolding str operate
process_operator col op val b =
    operate col op val ("__p_" <> str b.idx) (record b { idx = b.idx + 1 })

unfoldable pub route_filter_criteria : String → Fields → Builder → Result Builder
unfolding process_operator
route_filter_criteria col done b = ok b
route_filter_criteria col (field op val criteria) b =
    process_operator col op val b >>= λ b'. route_filter_criteria col criteria b'

-- The loop over the columns.
unfoldable pub filter_columns : Fields → Builder → Result Builder
unfolding str route_filter_criteria
filter_columns done b = ok b
filter_columns (field col (obj criteria) columns) b =
    route_filter_criteria col criteria b >>= λ b'. filter_columns columns b'
filter_columns (field col criteria columns) b =
    let pname = "__p_" <> str b.idx in
    filter_columns columns
      (bind pname criteria (say (col <> (" = :" <> pname)) (record b { idx = b.idx + 1 })))

abbrev pub empty : Builder
empty = record { parts = []; params = []; idx = 0 }

unfoldable pub build_where_clause : Fields → Result (String × List (String × Json))
unfolding filter_columns join
build_where_clause filter_json =
    filter_columns filter_json empty >>= λ b. ok (join " AND " b.parts, b.params)

-- Column names, placeholders and bound values of an insert, from an index on.
unfoldable pub insert_columns : ℕ → Fields → List String × List String × List (String × Json)
unfolding str
insert_columns i done = ([], [], [])
insert_columns i (field col val fields) =
    let (cols, placeholders, params) = insert_columns (i + 1) fields in
    (col ∷ cols, (":p_" <> str i) ∷ placeholders, (("p_" <> str i), val) ∷ params)

unfoldable pub construct_insert : String → Fields → String × List (String × Json)
unfolding insert_columns join
construct_insert table fields =
    let (cols, placeholders, params) = insert_columns 0 fields in
    (
      "INSERT INTO "
          <> (table
              <> (" (" <> (join ", " cols <> (") VALUES (" <> (join ", " placeholders <> ")"))))),
      params,
    )

unfoldable pub set_columns_from :
    ℕ → Fields → List String × List (String × Json) → List String × List (String × Json)
unfolding str
set_columns_from i done acc = acc
set_columns_from i (field col val fields) (parts, params) =
    let pname = "up_p_" <> str i in
    set_columns_from (i + 1) fields
      (parts ++ (col <> (" = :" <> pname)) ∷ [], insert pname val params)

-- `dict.update`.
abbrev pub merge : List (String × Json) → List (String × Json) → List (String × Json)
merge [] into = into
merge ((k, v) ∷ news) into = merge news (insert k v into)

unfoldable pub construct_update : String → Fields → Fields → Result (String × List (String × Json))
unfolding set_columns_from build_where_clause join
construct_update table update_data filter_json =
    let (set_parts, params) = set_columns_from 0 update_data ([], []) in
    build_where_clause filter_json >>= λ (where_clause, filter_params).
    if where_clause == ""
    then raise value_error
    else ok (
      "UPDATE " <> (table <> (" SET " <> (join ", " set_parts <> (" WHERE " <> where_clause)))),
      merge filter_params params,
    )

unfoldable pub construct_delete : String → Fields → Result (String × List (String × Json))
unfolding build_where_clause
construct_delete table filter_json = build_where_clause filter_json >>= λ (where_clause, params).
    if where_clause == ""
    then raise value_error
    else ok ("DELETE FROM " <> (table <> (" WHERE " <> where_clause)), params)
