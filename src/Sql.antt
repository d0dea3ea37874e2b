-- ===== src/Sql.antt =====
-- What the program relies on of a SQLite table with a primary key. The statements of the source
-- (`INSERT OR REPLACE`, `UPDATE … WHERE key = ?`, `DELETE … WHERE key = ?`, `SELECT`) are the
-- operations; the laws say what SQLite documents of them. `cursor.rowcount > 0` of a delete or an
-- update is the test whether the key had a row.
use nexus_gate.Prelude.{
  ◌≡◌, refl, Bool, true, false, Option, none, some, List, [], ◌∷◌, arith, if◌then◌else◌, Eq, lookup,
  insert, remove, lookup-insert, lookup-remove, lookup-remove_self,
}

abbrev pub is_some {ℓ} : {A : Type ℓ} → Option A → Bool
is_some none = false
is_some (some a) = true

abbrev pub map_some {ℓ κ} : {A : Type ℓ} {B : Type κ} → (A → B) → Option A → Option B
map_some f none = none
map_some f (some a) = some (f a)

-- No key stands twice.
abbrev pub IsDistinct : {K : Type 0} ⦃e : Eq K⦄ {V : Type 0} → List (K × V) → Type 0
IsDistinct [] = Unit
IsDistinct ((k, v) ∷ m) = (lookup k m ≡ none) × IsDistinct m

pub record Table (K : Type 0) ⦃e : Eq K⦄ (Row : Type 0) : Type 1 where
  pub State : Type 0
  pub select : K → State → Option Row
  pub replace : K → Row → State → State
  pub update : K → (Row → Row) → State → State
  pub delete : K → State → State
  -- A scan of the whole table: a row for each key.
  pub rows : State → List (K × Row)
  pub select-replace :
      (k j : K) (r : Row) (s : State)
      → select j (replace k r s) ≡ (if e.beq k j then some r else select j s)
  pub select-update :
      (k j : K) (f : Row → Row) (s : State)
      → select j (update k f s) ≡ (if e.beq k j then map_some f (select k s) else select j s)
  pub select-delete :
      (k j : K) (s : State) → select j (delete k s) ≡ (if e.beq k j then none else select j s)
  pub lookup-rows : (k : K) (s : State) → lookup k (rows s) ≡ select k s
  pub rows-IsDistinct : (s : State) → IsDistinct (rows s)

-- A dictionary is such a table, so the laws can be met.
module _ {K : Type 0} ⦃e : Eq K⦄ {Row : Type 0} where
  unfoldable pub adjust : K → (Row → Row) → List (K × Row) → List (K × Row)
  adjust k f [] = []
  adjust k f ((j, r) ∷ m) = if e.beq j k then (j, f r) ∷ m else (j, r) ∷ adjust k f m

  pub lookup-adjust :
      (k j : K) (f : Row → Row) (m : List (K × Row))
      → lookup j (adjust k f m) ≡ (if e.beq k j then map_some f (lookup k m) else lookup j m)
  unfolding lookup adjust
  lookup-adjust k j f [] = ground arith
  lookup-adjust k j f ((i, r) ∷ m) =
      ground (arith, e.beq_iff k j, e.beq_iff i k, e.beq_iff i j, lookup-adjust k j f m)

  -- A scan that shows the first entry of each key.
  unfoldable pub scan : List (K × Row) → List (K × Row)
  scan [] = []
  scan ((k, r) ∷ m) = (k, r) ∷ remove k (scan m)

  pub lookup-scan : (k : K) (m : List (K × Row)) → lookup k (scan m) ≡ lookup k m
  unfolding lookup scan
  lookup-scan k [] = refl
  lookup-scan k ((j, r) ∷ m) = ground (arith, lookup-remove j k (scan m), lookup-scan k m)

  remove-IsDistinct : (k : K) (m : List (K × Row)) → IsDistinct m → IsDistinct (remove k m)
  unfolding lookup remove
  remove-IsDistinct k [] h = tt
  remove-IsDistinct k ((j, r) ∷ m) (h, hs) =
      ground (arith, lookup-remove k j m, remove-IsDistinct k m hs)

  pub scan-IsDistinct : (m : List (K × Row)) → IsDistinct (scan m)
  unfolding scan
  scan-IsDistinct [] = tt
  scan-IsDistinct ((k, r) ∷ m) =
      (lookup-remove_self k (scan m), remove-IsDistinct k (scan m) (scan-IsDistinct m))

abbrev pub dict_table : {K : Type 0} ⦃e : Eq K⦄ {Row : Type 0} → Table K Row
dict_table {K} ⦃e⦄ {Row} = record {
  State = List (K × Row);
  select = lookup;
  replace = insert;
  update = adjust;
  delete = remove;
  rows = scan;
  select-replace = lookup-insert;
  select-update = lookup-adjust;
  select-delete = lookup-remove;
  lookup-rows = lookup-scan;
  rows-IsDistinct = scan-IsDistinct;
}
