-- ===== src/Filter/Shape.antt =====
-- The SQL that src/api/database/filter_builder.py writes does not depend on the values.
use nexus_gate.Prelude.{
  ℕ, ◌+◌, String, Bool, true, false, Option, none, some, List, [], ◌∷◌, ◌++◌, ◌≡◌, refl, arith, ap,
  if◌then◌else◌, ◌==◌, sym, subst, ◌||◌,
}
use nexus_gate.Text.{◌<>◌}
use nexus_gate.Errors.{Result, raise, ok, ◌>>=◌}
use nexus_gate.Filter.{
  Json, Jsons, Fields, null, flag, number, text, seq, obj, nil, cons, done, field, Builder, str,
  join, bind_items, process_array_operator, process_null_operator, process_between, place, math_op,
  process_standard_operator, process_operator, operate, route_filter_criteria, filter_columns,
  empty, build_where_clause,
}

-- The same JSON without its texts and numbers, and with its lists' lengths.
unfoldable pub blank_items : Jsons → Jsons
blank_items nil = nil
blank_items (cons item items) = cons null (blank_items items)

unfoldable pub blank : Json → Json
unfolding blank_items
blank (flag b) = flag b
blank (seq items) = seq (blank_items items)
blank v = null

unfoldable pub blank_fields : Fields → Fields
unfolding blank
blank_fields done = done
blank_fields (field op v fs) = field op (blank v) (blank_fields fs)

-- The filter with every value that is bound to a placeholder taken out.
unfoldable pub blank_filter : Fields → Fields
unfolding blank blank_fields
blank_filter done = done
blank_filter (field col (obj criteria) fs) =
    field col (obj (blank_fields criteria)) (blank_filter fs)
blank_filter (field col v fs) = field col null (blank_filter fs)

abbrev text_of : Result Builder → Result (List String × ℕ)
text_of (raise x) = raise x
text_of (ok b) = ok (b.parts, b.idx)

bind_items-blank :
    (pname : String) (i : ℕ) (items : Jsons) (ps : List String) (b b' : Builder)
    → b.parts ≡ b'.parts
    → b.idx ≡ b'.idx
    → ((bind_items pname i (blank_items items) ps b').0 ≡ (bind_items pname i items ps b).0)
      × ((bind_items pname i items ps b).1.parts
          ≡ (bind_items pname i (blank_items items) ps b').1.parts)
      × ((bind_items pname i items ps b).1.idx
          ≡ (bind_items pname i (blank_items items) ps b').1.idx)
unfolding bind_items blank_items
bind_items-blank pname i nil ps b b' parts idx = (refl, parts, idx)
bind_items-blank pname i (cons item items) ps b b' parts idx =
    bind_items-blank pname (i + 1) items _ _ _ parts idx

abbrev pub sql_of {ℓ} : {A : Type ℓ} → Result (String × A) → Result String
sql_of (raise x) = raise x
sql_of (ok (sql, params)) = ok sql

-- What follows a step on builders that agree agrees.
then-blank :
    (r r' : Result Builder) (f f' : Builder → Result Builder)
    → text_of r' ≡ text_of r
    → ((c c' : Builder) → c.parts ≡ c'.parts → c.idx ≡ c'.idx → text_of (f' c') ≡ text_of (f c))
    → text_of (r' >>= f') ≡ text_of (r >>= f)
then-blank (raise x) (raise y) f f' same steps = same
then-blank (raise x) (ok c') f f' same steps = cc
then-blank (ok c) (raise y) f f' same steps = cc
then-blank (ok c) (ok c') f f' same steps = steps c c' (ground (arith, same)) (ground (arith, same))

if-text :
    (c : Bool) (x y x' y' : Result Builder)
    → text_of x ≡ text_of x'
    → text_of y ≡ text_of y'
    → text_of (if c then x else y) ≡ text_of (if c then x' else y')
if-text true x y x' y' e f = e
if-text false x y x' y' e f = f

sign-text :
    (o : Option String) (part : String → String) (put put' : String → Result Builder)
    (y y' : Result Builder)
    → ((part : String) → text_of (put part) ≡ text_of (put' part))
    → text_of y ≡ text_of y'
    → text_of (elim o [ some sign ↦ put (part sign) | none ↦ y ])
      ≡ text_of (elim o [ some sign ↦ put' (part sign) | none ↦ y' ])
sign-text none part put put' y y' e f = f
sign-text (some sign) part put put' y y' e f = e (part sign)

module _ (col op pname : String) (b b' : Builder) (parts : b.parts ≡ b'.parts)
    (idx : b.idx ≡ b'.idx) where
  array-blank :
      (v : Json)
      → text_of (process_array_operator col op (blank v) pname b')
        ≡ text_of (process_array_operator col op v pname b)
  unfolding process_array_operator blank
  array-blank (seq items) =
      let (ps, bs, is) = bind_items-blank pname 0 items [] b b' parts idx in
      ground (arith, ps, bs, is)
  array-blank null = refl
  array-blank (flag t) = refl
  array-blank (number t) = refl
  array-blank (text t) = refl
  array-blank (obj t) = refl

  null-blank :
      (v : Json)
      → ((process_null_operator col op (blank v) b').parts
          ≡ (process_null_operator col op v b).parts)
        × ((process_null_operator col op (blank v) b').idx ≡ (process_null_operator col op v b).idx)
  unfolding process_null_operator blank
  null-blank (flag true) = (ground (arith, parts), sym idx)
  null-blank (flag false) = (ground (arith, parts), sym idx)
  null-blank null = (sym parts, sym idx)
  null-blank (seq t) = (sym parts, sym idx)
  null-blank (number t) = (sym parts, sym idx)
  null-blank (text t) = (sym parts, sym idx)
  null-blank (obj t) = (sym parts, sym idx)

  between-blank :
      (v : Json)
      → text_of (process_between col (blank v) pname b') ≡ text_of (process_between col v pname b)
  unfolding process_between blank blank_items
  between-blank (seq nil) = refl
  between-blank (seq (cons x nil)) = refl
  between-blank (seq (cons x (cons y nil))) = ground (arith, parts, idx)
  between-blank (seq (cons x (cons y (cons z zs)))) = refl
  between-blank null = refl
  between-blank (flag t) = refl
  between-blank (number t) = refl
  between-blank (text t) = refl
  between-blank (obj t) = refl

  place-blank :
      (v : Json) (part : String)
      → text_of (place pname (blank v) b' part) ≡ text_of (place pname v b part)
  place-blank v part = ground (arith, parts, idx)

  standard-blank :
      (v : Json)
      → text_of (process_standard_operator col op (blank v) pname b')
        ≡ text_of (process_standard_operator col op v pname b)
  unfolding process_standard_operator
  standard-blank v = if-text (op == "$eq") _ _ _ _ (place-blank v _) (
      if-text (op == "$ne") _ _ _ _ (place-blank v _) (
        sign-text (math_op op) (λ sign. col <> (" " <> (sign <> (" :" <> pname))))
          (place pname (blank v) b') (place pname v b) _ _ (place-blank v)
          (if-text (op == "$like") _ _ _ _ (place-blank v _) (
            if-text (op == "$ilike") _ _ _ _ (place-blank v _)
              (if-text (op == "$between") _ _ _ _ (between-blank v) refl)))))

module _ (col op : String) (v : Json) (b b' : Builder) (parts : b.parts ≡ b'.parts)
    (idx : b.idx ≡ b'.idx) where
  abbrev next : Builder → Builder
  next b = record b { idx = b.idx + 1 }

  operator-blank_at :
      (pname : String)
      → text_of (operate col op (blank v) pname (next b'))
        ≡ text_of (operate col op v pname (next b))
  unfolding operate
  operator-blank_at pname =
      let (np, ni) = null-blank col op pname (next b) (next b') parts (ap (λ n. n + 1) idx) v in
      if-text (op == "$in" || op == "$nin") _ _ _ _
        (array-blank col op pname (next b) (next b') parts (ap (λ n. n + 1) idx) v)
        (if-text (op == "$null" || op == "$not_null") _ _ _ _ (ground (arith, np, ni))
          (standard-blank col op pname (next b) (next b') parts (ap (λ n. n + 1) idx) v))

  process_operator-blank :
      text_of (process_operator col op (blank v) b') ≡ text_of (process_operator col op v b)
  unfolding process_operator
  process_operator-blank =
      subst
        (λ n.
          text_of (operate col op (blank v) ("__p_" <> str n) (next b'))
          ≡ text_of (process_operator col op v b))
        idx (operator-blank_at ("__p_" <> str b.idx))

route-blank :
    (col : String) (fs : Fields) (b b' : Builder)
    → b.parts ≡ b'.parts
    → b.idx ≡ b'.idx
    → text_of (route_filter_criteria col (blank_fields fs) b')
      ≡ text_of (route_filter_criteria col fs b)
unfolding route_filter_criteria blank_fields
route-blank col done b b' parts idx = ground (arith, parts, idx)
route-blank col (field op v fs) b b' parts idx =
    then-blank _ _ _ _ (process_operator-blank col op v b b' parts idx)
      (λ c c'. route-blank col fs c c')

plain_parts :
    (col : String) (b b' : Builder)
    → b.parts ≡ b'.parts
    → b.idx ≡ b'.idx
    → b.parts ++ (col <> (" = :" <> ("__p_" <> str b.idx))) ∷ []
      ≡ b'.parts ++ (col <> (" = :" <> ("__p_" <> str b'.idx))) ∷ []
plain_parts col b b' parts idx = ground (arith, parts, idx)

columns-blank :
    (fs : Fields) (b b' : Builder)
    → b.parts ≡ b'.parts
    → b.idx ≡ b'.idx
    → text_of (filter_columns (blank_filter fs) b') ≡ text_of (filter_columns fs b)
unfolding filter_columns blank_filter
columns-blank done b b' parts idx = ground (arith, parts, idx)
columns-blank (field col (obj criteria) fs) b b' parts idx =
    then-blank _ _ _ _ (route-blank col criteria b b' parts idx) (λ c c'. columns-blank fs c c')
columns-blank (field col null fs) b b' parts idx =
    columns-blank fs _ _ (plain_parts col b b' parts idx) (ap (λ n. n + 1) idx)
columns-blank (field col (flag t) fs) b b' parts idx =
    columns-blank fs _ _ (plain_parts col b b' parts idx) (ap (λ n. n + 1) idx)
columns-blank (field col (number t) fs) b b' parts idx =
    columns-blank fs _ _ (plain_parts col b b' parts idx) (ap (λ n. n + 1) idx)
columns-blank (field col (text t) fs) b b' parts idx =
    columns-blank fs _ _ (plain_parts col b b' parts idx) (ap (λ n. n + 1) idx)
columns-blank (field col (seq t) fs) b b' parts idx =
    columns-blank fs _ _ (plain_parts col b b' parts idx) (ap (λ n. n + 1) idx)

clause_text :
    (r r' : Result Builder)
    → text_of r' ≡ text_of r
    → sql_of (r' >>= λ b. ok (join " AND " b.parts, b.params))
      ≡ sql_of (r >>= λ b. ok (join " AND " b.parts, b.params))
clause_text (raise x) (raise y) same = cc
clause_text (raise x) (ok c') same = cc
clause_text (ok c) (raise y) same = cc
clause_text (ok c) (ok c') same =
    let parts : c'.parts ≡ c.parts = ground (arith, same) in ap (λ ps. ok (join " AND " ps)) parts

-- The text of the clause, or the error, depends on nothing in the filter but its columns, its
-- operators, the lengths of its lists and the Booleans in it.
pub build_where_clause-blank :
    (fs : Fields) → sql_of (build_where_clause (blank_filter fs)) ≡ sql_of (build_where_clause fs)
unfolding build_where_clause
build_where_clause-blank fs =
    clause_text (filter_columns fs empty) (filter_columns (blank_filter fs) empty)
      (columns-blank fs empty empty refl refl)
