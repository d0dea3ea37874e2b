-- ===== src/Actions.antt =====
-- Coroutines of the handlers: functions of a state that give the new state and a result. What one has
-- done stays done when it raises.
use nexus_gate.Prelude.{Bool, if◌then◌else◌, ◌≡◌, refl, ap, arith, ℕ}
use nexus_gate.Errors.{ErrorCode, Error, Result, raise, ok, nexus}

abbrev pub Action : Type 0 → Type 0 → Type 0
Action W A = W → W × Result A

module _ {W A : Type 0} where
  abbrev pub pure : A → Action W A
  pure a w = (w, ok a)

  abbrev pub fail : Error → Action W A
  fail e w = (w, raise e)

  abbrev pub lift : Result A → Action W A
  lift r w = (w, r)

  abbrev pub gets : (W → A) → Action W A
  gets f w = (w, ok (f w))

-- A result that is no exception of Python's own.
abbrev pub IsNexus : {A : Type 0} → Result A → Type 0
IsNexus (ok a) = Unit
IsNexus (raise (nexus code status)) = Unit
IsNexus (raise other) = ⊥

abbrev pub continue : {W A B : Type 0} → W × Result A → (A → Action W B) → W × Result B
continue (w, raise e) next = (w, raise e)
continue (w, ok a) next = next a w

infixl 5 ◌>>=◌ ◌>>◌
unfoldable pub ◌>>=◌ : {W A B : Type 0} → Action W A → (A → Action W B) → Action W B
◌>>=◌ m next w = continue (m w) next

abbrev pub ◌>>◌ : {W A B : Type 0} → Action W A → Action W B → Action W B
m >> rest = m >>= λ a. rest

abbrev pub modify : {W : Type 0} → (W → W) → Action W (Unit {0})
modify f w = (f w, ok tt)

abbrev pub raise_when : {W : Type 0} → Bool → ErrorCode → ℕ → Action W (Unit {0})
raise_when test code status w = (w, if test then raise (nexus code status) else ok tt)

-- What an action does to the state, as a relation that holds of no change and of one change after
-- another.
pub record Preorder (W : Type 0) : Type 1 where
  pub Rel : W → W → Type 0
  pub stay : (w : W) → Rel w w
  pub follow : (u v w : W) → Rel u v → Rel v w → Rel u w

module _ {W : Type 0} (order : Preorder W) where
  abbrev pub Keeps : {A : Type 0} → Action W A → Type 0
  Keeps m = (w : W) → order.Rel w (m w).0

  pub continue-Keeps :
      {A B : Type 0} (u : W) (m : W × Result A) (next : A → Action W B)
      → order.Rel u m.0
      → ((a : A) → m.1 ≡ ok a → Keeps (next a))
      → order.Rel u (continue m next).0
  continue-Keeps u (v, raise e) next first later = first
  continue-Keeps u (v, ok a) next first later = order.follow u v (next a v).0 first (later a refl v)

  pub bind-Keeps :
      {A B : Type 0} (m : Action W A) (next : A → Action W B)
      → Keeps m
      → ((a : A) → Keeps (next a))
      → Keeps (m >>= next)
  unfolding ◌>>=◌
  bind-Keeps m next first later w = continue-Keeps w (m w) next (first w) (λ a e. later a)

  -- The same, where the rest may use what the first part has given.
  pub bind-Keeps_ok :
      {A B : Type 0} (m : Action W A) (next : A → Action W B)
      → Keeps m
      → ((w : W) (a : A) → (m w).1 ≡ ok a → Keeps (next a))
      → Keeps (m >>= next)
  unfolding ◌>>=◌
  bind-Keeps_ok m next first later w = continue-Keeps w (m w) next (first w) (later w)

  -- What a pure step gives may be used for the rest.
  pub lift-Keeps :
      {A B : Type 0} (r : Result A) (next : A → Action W B)
      → ((a : A) → r ≡ ok a → Keeps (next a))
      → Keeps (lift r >>= next)
  unfolding ◌>>=◌
  lift-Keeps r next later w = continue-Keeps w (w, r) next (order.stay w) later

  pub quiet-Keeps : {A : Type 0} (r : Result A) → Keeps (lift r)
  quiet-Keeps r w = order.stay w

-- A sequence gives a result if its parts do.
pub continue-ok :
    {W A B : Type 0} (m : W × Result A) (next : A → Action W B) {b : B}
    → (continue m next).1 ≡ ok b
    → (a : A) × (m.1 ≡ ok a) × ((next a m.0).1 ≡ ok b)
continue-ok (w, raise e) next h = cc
continue-ok (w, ok a) next h = (a, refl, h)

pub bind-ok :
    {W A B : Type 0} (m : Action W A) (next : A → Action W B) (w : W) {b : B}
    → ((m >>= next) w).1 ≡ ok b
    → (a : A) × ((m w).1 ≡ ok a) × ((next a (m w).0).1 ≡ ok b)
unfolding ◌>>=◌
bind-ok m next w h = continue-ok (m w) next h

continue-IsNexus :
    {W A B : Type 0} (m : W × Result A) (next : A → Action W B)
    → IsNexus m.1
    → ((a : A) → m.1 ≡ ok a → IsNexus (next a m.0).1)
    → IsNexus (continue m next).1
continue-IsNexus (w, raise (nexus code status)) next first later = tt
continue-IsNexus (w, raise other) next first later = absurd first
continue-IsNexus (w, ok a) next first later = later a refl

pub bind-IsNexus :
    {W A B : Type 0} (m : Action W A) (next : A → Action W B) (w : W)
    → IsNexus (m w).1
    → ((a : A) → (m w).1 ≡ ok a → IsNexus (next a (m w).0).1)
    → IsNexus ((m >>= next) w).1
unfolding ◌>>=◌
bind-IsNexus m next w first later = continue-IsNexus (m w) next first later

pub continue_at :
    {W A B : Type 0} (m : W × Result A) (next : A → Action W B) (a : A)
    → m.1 ≡ ok a
    → continue m next ≡ next a m.0
continue_at (w, raise e) next a h = cc
continue_at (w, ok b) next a h = let same : b ≡ a = ground (arith, h) in ap (λ x. next x w) same
