-- ===== src/Prelude/Dict.antt =====
-- Python dictionaries, as association lists that keep the order of insertion. A write to a key
-- that is there keeps its place; `remove` is `pop` with a default or `del`.
use mathlib.Core.Path.{◌≡◌, refl, ap, subst}
use mathlib.Core.Logic.{◌↔◌, ◌≢◌, ◌⊎◌, inl, inr}
use mathlib.Core.Bool.{Bool, true, ◌&&◌}
use mathlib.Core.List.{List, [], ◌∷◌}
use mathlib.Core.Option.{Option, none, some}
use native.Mathlib.Omega.{arith}
use Prim.Native.Nat.{ℕ}
use Prim.Native.String.{String}
use text.Mathlib.Text.{◌==◌}
use text.Mathlib.TextEquality.{eq_iff}
use nexus_gate.Prelude.Tests.{if◌then◌else◌, Bool-cases, eqb, eqb_iff}
use nexus_gate.Prelude.Lists.{All}

-- Keys that can be compared.
pub record Eq {ℓ} (K : Type ℓ) : Type ℓ where
  pub beq : K → K → Bool
  pub beq_iff : (a b : K) → (beq a b ≡ true) ↔ (a ≡ b)

instance abbrev pub string_eq : Eq String
string_eq = record { beq = λ a b. a == b; beq_iff = eq_iff }

instance abbrev pub nat_eq : Eq ℕ
nat_eq = record { beq = eqb; beq_iff = eqb_iff }

pub pair_beq_iff {ℓ κ} :
    {A : Type ℓ} {B : Type κ} ⦃e : Eq A⦄ ⦃f : Eq B⦄ (p q : A × B)
    → ((e.beq p.0 q.0 && f.beq p.1 q.1) ≡ true) ↔ (p ≡ q)
pair_beq_iff ⦃e⦄ ⦃f⦄ (a, b) (c, d) = (
  λ h. ground (arith, e.beq_iff a c, f.beq_iff b d),
  λ h. ground (arith, (e.beq_iff a c).1 (ap (λ t. t.0) h), (f.beq_iff b d).1 (ap (λ t. t.1) h)),
)

instance abbrev pub pair_eq {ℓ κ} : {A : Type ℓ} {B : Type κ} ⦃e : Eq A⦄ ⦃f : Eq B⦄ → Eq (A × B)
pair_eq ⦃e⦄ ⦃f⦄ = record { beq = λ p q. e.beq p.0 q.0 && f.beq p.1 q.1; beq_iff = pair_beq_iff }

module _ {ℓ κ} {K : Type ℓ} {V : Type κ} ⦃e : Eq K⦄ where
  unfoldable pub lookup : K → List (K × V) → Option V
  lookup k [] = none
  lookup k ((j, v) ∷ m) = if e.beq j k then some v else lookup k m

  unfoldable pub insert : K → V → List (K × V) → List (K × V)
  insert k v [] = (k, v) ∷ []
  insert k v ((j, w) ∷ m) = if e.beq j k then (k, v) ∷ m else (j, w) ∷ insert k v m

  unfoldable pub remove : K → List (K × V) → List (K × V)
  remove k [] = []
  remove k ((j, w) ∷ m) = if e.beq j k then remove k m else (j, w) ∷ remove k m

  pub lookup-insert :
      (k j : K) (v : V) (m : List (K × V))
      → lookup j (insert k v m) ≡ (if e.beq k j then some v else lookup j m)
  unfolding lookup insert
  lookup-insert k j v [] = refl
  lookup-insert k j v ((i, w) ∷ m) =
      ground (arith, e.beq_iff k j, e.beq_iff i k, e.beq_iff i j, lookup-insert k j v m)

  pub lookup-remove :
      (k j : K) (m : List (K × V))
      → lookup j (remove k m) ≡ (if e.beq k j then none else lookup j m)
  unfolding lookup remove
  lookup-remove k j [] = ground arith
  lookup-remove k j ((i, w) ∷ m) =
      ground (arith, e.beq_iff k j, e.beq_iff i k, e.beq_iff i j, lookup-remove k j m)

  pub lookup-insert_self : (k : K) (v : V) (m : List (K × V)) → lookup k (insert k v m) ≡ some v
  lookup-insert_self k v m = rw (lookup-insert, (e.beq_iff k k).1 refl)

  pub lookup-insert_ne :
      (k j : K) (v : V) (m : List (K × V)) → k ≢ j → lookup j (insert k v m) ≡ lookup j m
  lookup-insert_ne k j v m h = ground (arith, lookup-insert k j v m, e.beq_iff k j)

  -- What is found after a write was written, or was there before.
  pub lookup-insert_cases :
      (k j : K) (v : V) (m : List (K × V)) {w : V}
      → lookup j (insert k v m) ≡ some w
      → (v ≡ w) ⊎ (lookup j m ≡ some w)
  lookup-insert_cases k j v m h = elim (Bool-cases (e.beq k j)) [
    | inl same ↦ inl (ground (arith, lookup-insert k j v m))
    | inr other ↦ inr (ground (arith, lookup-insert k j v m))
  ]

  pub lookup-remove_self : (k : K) (m : List (K × V)) → lookup k (remove k m) ≡ none
  lookup-remove_self k m = rw (lookup-remove, (e.beq_iff k k).1 refl)

  pub lookup-remove_ne : (k j : K) (m : List (K × V)) → k ≢ j → lookup j (remove k m) ≡ lookup j m
  lookup-remove_ne k j m h = ground (arith, lookup-remove k j m, e.beq_iff k j)

module _ {ℓ κ μ} {K : Type ℓ} {V : Type κ} ⦃e : Eq K⦄ (P : V → Type μ) where
  -- What holds of all stored values holds of a value that is found.
  pub All-lookup :
      (k : K) (m : List (K × V)) {v : V} → All (λ b. P b.1) m → lookup k m ≡ some v → P v
  unfolding lookup
  All-lookup k [] h found = cc
  All-lookup k ((j, w) ∷ m) {v} (h, hs) found = elim (Bool-cases (e.beq j k)) [
    | inl same ↦ let here : w ≡ v = ground arith in subst P here h
    | inr other ↦ All-lookup k m hs (ground arith)
  ]

  pub All-insert :
      (k : K) (v : V) (m : List (K × V))
      → P v
      → All (λ b. P b.1) m
      → All (λ b. P b.1) (insert k v m)
  unfolding insert
  All-insert k v [] p h = (p, tt)
  All-insert k v ((j, w) ∷ m) p (h, hs) = ground (arith, All-insert k v m p hs)
