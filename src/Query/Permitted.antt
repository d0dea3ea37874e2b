-- ===== src/Query/Permitted.antt =====
-- Which statements src/api/database/query_parser.py lets pass.
use nexus_gate.Prelude.{
  String, Bool, true, false, ◌&&◌, Option, none, some, List, [], ◌∷◌, ◌≡◌, ◌↔◌, arith, eq_iff, ℕ,
  subst, ◌∙◌, refl, ap, sym,
}
use nexus_gate.Errors.{ErrorCode, Result, raise, ok, ◌>>=◌, ◌>>◌, raise_if}
use nexus_gate.Query.{
  Sqlglot, DatabaseConfig, given, is_select, is_write, is_dangerous, listed, enforce_user_mode,
  enforce_query_policy, extract_target_table, single_node, parse_and_extract, validate,
}

-- What the key's mode and the database's settings ask of one statement.
pub record Permitted (glot : Sqlglot) (cfg : DatabaseConfig) (user_mode : String) (e : glot.Node)
    : Type 0 where
  pub reads : user_mode ≡ "readonly" → is_select glot e ≡ true
  pub writes : user_mode ≡ "writeonly" → is_write glot e ≡ true
  pub harmless : cfg.dangerous_operations ≡ false → is_dangerous glot e ≡ false
  pub not_banned : listed glot cfg.query_blacklist (glot.upper (glot.key e)) ≡ false
  pub welcome :
      given cfg.query_whitelist ≡ true
      → listed glot cfg.query_whitelist (glot.upper (glot.key e)) ≡ true

-- A chain gives a result exactly if its parts do.
then-ok {κ} :
    {B : Type κ} (r : Result (Unit {0})) (rest : Result B) (x : B)
    → ((r >> rest) ≡ ok x) ↔ ((r ≡ ok tt) × (rest ≡ ok x))
then-ok (raise y) rest x = ((λ e. cc), λ (e, f). cc)
then-ok (ok u) rest x = ((λ e. (refl, e)), λ (e, f). f)

raise_if-ok :
    (test : Bool) (code : ErrorCode) (status : ℕ)
    → (raise_if test code status ≡ ok tt) ↔ (test ≡ false)
raise_if-ok true code status = ((λ e. cc), λ e. cc)
raise_if-ok false code status = ((λ e. refl), λ e. refl)

given-listed :
    (glot : Sqlglot) (queries : List String) (q : String)
    → (given queries && listed glot queries q) ≡ listed glot queries q
given-listed glot [] q = refl
given-listed glot (x ∷ xs) q = refl

module _ (glot : Sqlglot) where
  mode_iff :
      (e : glot.Node) (user_mode : String)
      → (enforce_user_mode glot e user_mode ≡ ok tt) ↔ (
          (user_mode ≡ "readonly" → is_select glot e ≡ true)
          × (user_mode ≡ "writeonly" → is_write glot e ≡ true))
  unfolding enforce_user_mode
  mode_iff e user_mode = ground (arith, eq_iff user_mode "readonly", eq_iff user_mode "writeonly")

  policy_iff :
      (e : glot.Node) (cfg : DatabaseConfig) (q : String)
      → (enforce_query_policy glot e cfg q ≡ ok tt) ↔ (
          (cfg.dangerous_operations ≡ false → is_dangerous glot e ≡ false)
          × (listed glot cfg.query_blacklist q ≡ false)
          × (given cfg.query_whitelist ≡ true → listed glot cfg.query_whitelist q ≡ true))
  unfolding enforce_query_policy
  policy_iff e cfg q = ground (arith, given-listed glot cfg.query_blacklist q)

  Permitted-iff :
      (e : glot.Node) (cfg : DatabaseConfig) (user_mode : String)
      → ((enforce_user_mode glot e user_mode ≡ ok tt)
          × (enforce_query_policy glot e cfg (glot.upper (glot.key e)) ≡ ok tt))
        ↔ Permitted glot cfg user_mode e
  Permitted-iff e cfg user_mode = (
    λ (m, q).
        let (r, w) = (mode_iff e user_mode).0 m in
        let (d, b, l) = (policy_iff e cfg (glot.upper (glot.key e))).0 q in
        record { reads = r; writes = w; harmless = d; not_banned = b; welcome = l },
    λ p. (
      (mode_iff e user_mode).1 (p.reads, p.writes),
      (policy_iff e cfg (glot.upper (glot.key e))).1 (p.harmless, p.not_banned, p.welcome),
    ),
  )

  single_node-ok :
      (found : Option (List (Option glot.Node))) (e : glot.Node)
      → (single_node glot found ≡ ok e) ↔ (found ≡ some (some e ∷ []))
  unfolding single_node
  single_node-ok none e = ((λ h. cc), λ h. cc)
  single_node-ok (some []) e = ((λ h. cc), λ h. cc)
  single_node-ok (some (none ∷ [])) e = ((λ h. cc), λ h. cc)
  single_node-ok (some (some d ∷ [])) e = ((λ h. cc), λ h. cc)
  single_node-ok (some (x ∷ y ∷ rest)) e = ((λ h. cc), λ h. cc)

  abbrev verdict : glot.Node → String × String × String
  verdict e = (glot.to_sql e, glot.lower (glot.upper (glot.key e)), extract_target_table glot e)

  abbrev checked : DatabaseConfig → String → glot.Node → Result (String × String × String)
  checked cfg user_mode e =
      enforce_user_mode glot e user_mode
      >> enforce_query_policy glot e cfg (glot.upper (glot.key e))
      >> ok (verdict e)

  checked_iff :
      (cfg : DatabaseConfig) (user_mode : String) (e : glot.Node) (out : String × String × String)
      → (checked cfg user_mode e ≡ ok out) ↔ (Permitted glot cfg user_mode e × (verdict e ≡ out))
  checked_iff cfg user_mode e out =
      let mode = enforce_user_mode glot e user_mode in
      let policy = enforce_query_policy glot e cfg (glot.upper (glot.key e)) in
      (
        λ h.
            let (both, last) = (then-ok (mode >> policy) (ok (verdict e)) out).0 h in
            (
              (Permitted-iff e cfg user_mode).0 ((then-ok mode policy tt).0 both),
              ground (arith, last),
            ),
        λ (p, last).
            (then-ok (mode >> policy) (ok (verdict e)) out).1 (
              (then-ok mode policy tt).1 ((Permitted-iff e cfg user_mode).1 p),
              ap (λ v. ok v) last,
            ),
      )

  from_node :
      (r : Result glot.Node) (cfg : DatabaseConfig) (user_mode : String)
      (out : String × String × String)
      → ((r >>= checked cfg user_mode) ≡ ok out)
        ↔ ((e : glot.Node) × (r ≡ ok e) × Permitted glot cfg user_mode e × (verdict e ≡ out))
  from_node (raise x) cfg user_mode out = ((λ h. cc), λ (e, h, p, v). cc)
  from_node (ok d) cfg user_mode out = (
    λ h. let (p, v) = (checked_iff cfg user_mode d out).0 h in (d, refl, p, v),
    λ (e, h, p, v).
        let same : e ≡ d = ground (arith, h) in
        subst (λ x. checked cfg user_mode x ≡ ok out) same
          ((checked_iff cfg user_mode e out).1 (p, v)),
  )

  extract-checked :
      (r : Result glot.Node) (cfg : DatabaseConfig) (user_mode : String)
      → ((r >>= λ e. ok (e, glot.upper (glot.key e), extract_target_table glot e))
          >>= λ (e, query_type, target_table).
              enforce_user_mode glot e user_mode
              >> enforce_query_policy glot e cfg query_type
              >> ok (glot.to_sql e, glot.lower query_type, target_table))
        ≡ (r >>= checked cfg user_mode)
  extract-checked (raise x) cfg user_mode = refl
  extract-checked (ok e) cfg user_mode = refl

  -- A statement is let pass exactly if it is one parsed statement, alone, that the mode of the
  -- key, the ban on dangerous operations, the black list and the white list permit; what comes
  -- back is its text, its kind and its first table.
  pub validate_iff :
      (sql : String) (cfg : DatabaseConfig) (user_mode : String) (out : String × String × String)
      → (validate glot sql cfg user_mode ≡ ok out) ↔ (
          (e : glot.Node) × (glot.parse sql ≡ some (some e ∷ []))
          × Permitted glot cfg user_mode e
          × (verdict e ≡ out))
  unfolding validate parse_and_extract
  validate_iff sql cfg user_mode out = (
    λ h.
        let (e, one, p, v) =
          (from_node (single_node glot (glot.parse sql)) cfg user_mode out).0
            (sym (extract-checked (single_node glot (glot.parse sql)) cfg user_mode) ∙ h) in
        (e, (single_node-ok (glot.parse sql) e).0 one, p, v),
    λ (e, one, p, v).
        extract-checked (single_node glot (glot.parse sql)) cfg user_mode
        ∙ (from_node (single_node glot (glot.parse sql)) cfg user_mode out).1
            (e, (single_node-ok (glot.parse sql) e).1 one, p, v),
  )
