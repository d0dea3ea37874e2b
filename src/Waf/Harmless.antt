-- ===== src/Waf/Harmless.antt =====
-- What src/server/middleware/waf.py lets pass, said without its searches.
use Prim.Native.Char.{code}
use package.text.Mathlib.TextLemmas.{nil-append, cons-append}
use nexus_gate.Prelude.{
  ℕ, ◌+◌, ◌≤◌, String, Bool, true, false, ◌||◌, Option, none, some, List, [], ◌∷◌, ◌≡◌, ◌≢◌, ◌↔◌,
  ◌==◌, refl, arith, sym, ap, subst, ◌∙◌, ltb, eqb, eqb_iff, eq_iff, lookup, string_eq, contains,
  Bool-cases, inl, inr,
}
use nexus_gate.Text.{size, ◌<>◌}
use nexus_gate.Storage.Range.{ℤ, pos, negsuc}
use nexus_gate.Waf.{
  Violation, uri_too_long, null_byte, path_traversal, too_many_params, count, fold, patterns,
  has_prefix_ci, starts_with_any, search, found_if, int_bytes, check_length, check_content_length,
  validate_uri_length, validate_null_bytes, validate_path_traversal, validate_query_params,
  validate_body_size, ◌or_else◌, WafRequest, begins, check, inspect,
}

-- A text reads as a pattern, in capital letters or small ones.
abbrev pub ReadsAs : String → String → Type 0
ReadsAs String.[] String.[] = Unit
ReadsAs (String.◌∷◌ c p) (String.◌∷◌ d m) = (code c ≡ fold (code d)) × ReadsAs p m
ReadsAs String.[] (String.◌∷◌ d m) = ⊥
ReadsAs (String.◌∷◌ c p) String.[] = ⊥

-- No part of a text reads as one of the patterns.
abbrev pub IsClean : String → Type 0
IsClean s =
    (before middle after p : String)
    → s ≡ before <> (middle <> after)
    → contains patterns p ≡ true
    → ReadsAs p middle
    → ⊥

abbrev pub IsWithin : ℕ → ℤ → Type 0
IsWithin limit (pos n) = n ≤ limit
IsWithin limit (negsuc n) = Unit

-- What a request has to be like to be passed on from the checks.
pub record Harmless (limit : ℕ) (r : WafRequest) : Type 0 where
  pub short : size r.raw_path + size r.query_string ≤ 2048
  pub no_null : (count 0 r.raw_path ≡ 0) × (count 0 r.query_string ≡ 0)
  pub no_traversal : IsClean r.raw_path × IsClean r.query_string
  pub few_params : count 0x26 r.query_string ≤ 50
  pub body_fits :
      (value : String)
      → lookup "content-length" r.headers ≡ some value
      → value ≢ ""
      → (length : ℤ) × (int_bytes value ≡ some length) × IsWithin limit length

has_prefix_ci-append : (p m after : String) → ReadsAs p m → has_prefix_ci p (m <> after) ≡ true
unfolding has_prefix_ci
has_prefix_ci-append String.[] String.[] after h = refl
has_prefix_ci-append String.[] (String.◌∷◌ d m) after h = absurd h
has_prefix_ci-append (String.◌∷◌ c p) String.[] after h = absurd h
has_prefix_ci-append (String.◌∷◌ c p) (String.◌∷◌ d m) after (same, h) =
    ap (has_prefix_ci (String.◌∷◌ c p)) (cons-append d m after)
    ∙ rw ((eqb_iff (code c) (fold (code d))).1 same) (has_prefix_ci-append p m after h)

has_prefix_ci-reads :
    (p s : String)
    → has_prefix_ci p s ≡ true
    → (m : String) × (after : String) × (s ≡ m <> after) × ReadsAs p m
unfolding has_prefix_ci
has_prefix_ci-reads String.[] s h = ("", s, sym (nil-append s), tt)
has_prefix_ci-reads (String.◌∷◌ c p) String.[] h = cc
has_prefix_ci-reads (String.◌∷◌ c p) (String.◌∷◌ d s) h =
    elim (Bool-cases (eqb (code c) (fold (code d)))) [
      | inl same ↦
          let (m, after, e, reads) = has_prefix_ci-reads p s (rw same at h) in
          (
            String.◌∷◌ d m,
            after,
            ap (λ t. String.◌∷◌ d t) e ∙ sym (cons-append d m after),
            ((eqb_iff (code c) (fold (code d))).0 same, reads),
          )
      | inr other ↦ ground (arith, other, h)
    ]

starts_with_any-contains :
    (ps : List String) (p s : String)
    → contains ps p ≡ true
    → has_prefix_ci p s ≡ true
    → starts_with_any ps s ≡ true
unfolding starts_with_any
starts_with_any-contains [] p s h found = cc
starts_with_any-contains (q ∷ ps) p s h found =
    ground (arith, eq_iff q p, found, starts_with_any-contains ps p s)

starts_with_any-one :
    (ps : List String) (s : String)
    → starts_with_any ps s ≡ true
    → (p : String) × (contains ps p ≡ true) × (has_prefix_ci p s ≡ true)
unfolding starts_with_any
starts_with_any-one [] s h = cc
starts_with_any-one (q ∷ ps) s h = elim (Bool-cases (has_prefix_ci q s)) [
  | inl first ↦ (q, ground (arith, eq_iff q q), first)
  | inr later ↦
      let (p, known, found) = starts_with_any-one ps s (rw later at h) in
      (p, ground (arith, known), found)
]

search-append :
    (before s : String) → starts_with_any patterns s ≡ true → search (before <> s) ≡ true
unfolding search starts_with_any has_prefix_ci
search-append String.[] String.[] h = cc
search-append String.[] (String.◌∷◌ c s) h =
    ap search (nil-append (String.◌∷◌ c s)) ∙ ground (arith, h)
search-append (String.◌∷◌ c before) s h =
    ap search (cons-append c before s) ∙ ground (arith, search-append before s h)

search-found :
    (s : String)
    → search s ≡ true
    → (before : String) × (rest : String) × (s ≡ before <> rest)
      × (starts_with_any patterns rest ≡ true)
unfolding search
search-found String.[] h = cc
search-found (String.◌∷◌ c s) h = elim (Bool-cases (starts_with_any patterns (String.◌∷◌ c s))) [
  | inl first ↦ ("", String.◌∷◌ c s, sym (nil-append (String.◌∷◌ c s)), first)
  | inr later ↦
      let (before, rest, e, found) = search-found s (rw later at h) in
      (
        String.◌∷◌ c before,
        rest,
        ap (λ t. String.◌∷◌ c t) e ∙ sym (cons-append c before rest),
        found,
      )
]

search_iff : (s : String) → (search s ≡ false) ↔ IsClean s
search_iff s = (
  λ quiet before middle after p e known reads.
      let found = search-append before (middle <> after) (
        starts_with_any-contains patterns p (middle <> after) known
          (has_prefix_ci-append p middle after reads)) in
      cc (quiet, ap search e ∙ found),
  λ clean. elim (Bool-cases (search s)) [
    | inl found ↦
        let (before, rest, e, first) = search-found s found in
        let (p, known, prefix) = starts_with_any-one patterns rest first in
        let (middle, after, e', reads) = has_prefix_ci-reads p rest prefix in
        absurd (clean before middle after p (e ∙ ap (λ t. before <> t) e') known reads)
    | inr quiet ↦ quiet
  ],
)

abbrev Fits : ℕ → Option String → Type 0
Fits limit o =
    (value : String)
    → o ≡ some value
    → value ≢ ""
    → (length : ℤ) × (int_bytes value ≡ some length) × IsWithin limit length

check_length_iff :
    (limit : ℕ) (o : Option ℤ)
    → (check_length limit o ≡ none) ↔ ((length : ℤ) × (o ≡ some length) × IsWithin limit length)
check_length_iff limit none = ((λ h. cc), λ (z, e, w). cc)
check_length_iff limit (some (pos n)) = (
  (λ h. (pos n, refl, ground (arith, h))),
  λ (z, e, w).
      let same : z ≡ pos n = ground (arith, e) in
      let within : n ≤ limit = subst (IsWithin limit) same w in ground (arith, within),
)
check_length_iff limit (some (negsuc n)) = ((λ h. (negsuc n, refl, tt)), λ h. refl)

body_iff : (limit : ℕ) (o : Option String) → (check_content_length limit o ≡ none) ↔ Fits limit o
body_iff limit none = ((λ h value e given. cc), λ h. refl)
body_iff limit (some value) = elim (Bool-cases (value == "")) [
  | inl empty ↦ rw empty (
    (λ h v e given.
        let same : value ≡ v = ground (arith, e) in
        absurd (given (sym same ∙ (eq_iff value "").0 empty))),
    λ h. refl,
  )
  | inr given ↦ rw given (
    (λ h v e some_text.
        let same : value ≡ v = ground (arith, e) in
        subst (λ t. (length : ℤ) × (int_bytes t ≡ some length) × IsWithin limit length) same
          ((check_length_iff limit (int_bytes value)).0 h)),
    λ fits.
        (check_length_iff limit (int_bytes value)).1
          (fits value refl (λ e. cc (given, (eq_iff value "").1 e))),
  )
]

none-or_else : (a b : Option Violation) → ((a or_else b) ≡ none) ↔ ((a ≡ none) × (b ≡ none))
none-or_else none b = ((λ h. (refl, h)), λ (x, y). y)
none-or_else (some v) b = ((λ h. cc), λ (x, y). cc)

found_if-none : (t : Bool) (v : Violation) → (found_if t v ≡ none) ↔ (t ≡ false)
found_if-none true v = ((λ h. cc), λ h. cc)
found_if-none false v = ((λ h. refl), λ h. refl)

either-false : (a b : Bool) → ((a || b) ≡ false) ↔ ((a ≡ false) × (b ≡ false))
either-false a b = ground arith

search-IsClean : (s t : String) → (search s || search t) ≡ false → IsClean s × IsClean t
search-IsClean s t h =
    let (a, b) = (either-false (search s) (search t)).0 h in
    ((search_iff s).0 a, (search_iff t).0 b)

above-false : (a b : ℕ) → (ltb a b ≡ false) ↔ (b ≤ a)
above-false a b = ground arith

check_iff : (limit : ℕ) (r : WafRequest) → (check limit r ≡ none) ↔ Harmless limit r
unfolding check validate_uri_length validate_null_bytes validate_path_traversal
    validate_query_params validate_body_size
check_iff limit r =
    let uri = ltb 2048 (size r.raw_path + size r.query_string) in
    let nulls = ltb 0 (count 0 r.raw_path) || ltb 0 (count 0 r.query_string) in
    let traversal = search r.raw_path || search r.query_string in
    let params = ltb 50 (count 0x26 r.query_string) in
    let last = validate_body_size limit r.headers in
    let after_traversal = found_if params too_many_params or_else last in
    let after_nulls = found_if traversal path_traversal or_else after_traversal in
    let after_uri = found_if nulls null_byte or_else after_nulls in
    (
      λ h.
          let (u, rest) = (none-or_else (found_if uri uri_too_long) after_uri).0 h in
          let (n, rest') = (none-or_else (found_if nulls null_byte) after_nulls).0 rest in
          let (t, rest'') =
            (none-or_else (found_if traversal path_traversal) after_traversal).0 rest' in
          let (p, b) = (none-or_else (found_if params too_many_params) last).0 rest'' in
          let short = (found_if-none uri uri_too_long).0 u in
          let (n1, n2) =
            (either-false (ltb 0 (count 0 r.raw_path)) _).0 ((found_if-none nulls null_byte).0 n) in
          record {
            short = (above-false 2048 (size r.raw_path + size r.query_string)).0 short;
            no_null = (
              omega (arith, (above-false 0 (count 0 r.raw_path)).0 n1),
              omega (arith, (above-false 0 (count 0 r.query_string)).0 n2),
            );
            no_traversal =
                search-IsClean r.raw_path r.query_string
                  ((found_if-none traversal path_traversal).0 t);
            few_params =
                (above-false 50 (count 0x26 r.query_string)).0
                  ((found_if-none params too_many_params).0 p);
            body_fits = (body_iff limit (lookup "content-length" r.headers)).0 b;
          },
      λ h.
          let u =
            (found_if-none uri uri_too_long).1
              ((above-false 2048 (size r.raw_path + size r.query_string)).1 h.short) in
          let n = (found_if-none nulls null_byte).1 (
            (either-false (ltb 0 (count 0 r.raw_path)) (ltb 0 (count 0 r.query_string))).1 (
              (above-false 0 (count 0 r.raw_path)).1 (omega (arith, h.no_null.0)),
              (above-false 0 (count 0 r.query_string)).1 (omega (arith, h.no_null.1)),
            )) in
          let t = (found_if-none traversal path_traversal).1 (
            (either-false (search r.raw_path) (search r.query_string)).1 (
              (search_iff r.raw_path).1 h.no_traversal.0,
              (search_iff r.query_string).1 h.no_traversal.1,
            )) in
          let p =
            (found_if-none params too_many_params).1
              ((above-false 50 (count 0x26 r.query_string)).1 h.few_params) in
          (none-or_else (found_if uri uri_too_long) after_uri).1 (
            u,
            (none-or_else (found_if nulls null_byte) after_nulls).1 (
              n,
              (none-or_else (found_if traversal path_traversal) after_traversal).1 (
                t,
                (none-or_else (found_if params too_many_params) last).1
                    (p, (body_iff limit (lookup "content-length" r.headers)).1 h.body_fits),
              ),
            ),
          ),
    )

-- An HTTP request for a path outside the two fast ways is passed on exactly if its URI is short, no byte
-- of it is null, no part of its path or query reads as one of the six patterns, whatever the case of
-- its letters, its parameters are few and the length that it declares, if any and not empty, reads as
-- a number that is within the limit.
pub inspect_iff :
    (limit : ℕ) (r : WafRequest)
    → r.is_http ≡ true
    → begins "/api/v1/db" r.path ≡ false
    → begins "/api/v1/fs" r.path ≡ false
    → (inspect limit r ≡ none) ↔ Harmless limit r
unfolding inspect
inspect_iff limit r http no_db no_fs =
    let checked : inspect limit r ≡ check limit r = rw (http, no_db, no_fs) refl in
    ((λ h. (check_iff limit r).0 (sym checked ∙ h)), λ h. checked ∙ (check_iff limit r).1 h)
