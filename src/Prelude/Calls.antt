-- ===== src/Prelude/Calls.antt =====
-- Calls that may fail, and methods that work on shared state. What was written before a failure
-- stays written, so the state comes back beside the error too.
use mathlib.Core.Path.{◌≡◌, refl}
use mathlib.Core.Logic.{◌⊎◌, inl, inr}

pub data Result {ℓ κ} (E : Type ℓ) (A : Type κ) : Type (ℓ ⊔ κ) where
  ok : A → Result E A
  err : E → Result E A

pub Result-cases {ℓ κ} :
    {E : Type ℓ} {A : Type κ} (r : Result E A) → ((a : A) × (r ≡ ok a)) ⊎ ((e : E) × (r ≡ err e))
Result-cases (ok a) = inl (a, refl)
Result-cases (err e) = inr (e, refl)

pub ok-injective {ℓ κ} :
    {E : Type ℓ} {A : Type κ} {a b : A} → ◌≡◌ {A = Result E A} (ok a) (ok b) → a ≡ b
ok-injective e = cc

-- A method over the state `W` that returns an `A` or an error `E`.
abbrev pub Exec : Type 0 → Type 0 → Type 0 → Type 0
Exec W E A = W → Result E A × W

module _ {W E A : Type 0} where
  abbrev pub pure : A → Exec W E A
  pure a w = (ok a, w)

  abbrev pub raise : E → Exec W E A
  raise e w = (err e, w)

  abbrev pub lift : Result E A → Exec W E A
  lift r w = (r, w)

-- `x, err := m` with whatever the caller does of the two results.
module _ {W E F A B : Type 0} where
  abbrev pub on_result : Exec W E A → (Result E A → Exec W F B) → Exec W F B
  on_result m f w = f (m w).0 (m w).1

  -- What follows a call, for its result and for its error.
  abbrev pub either : (A → Exec W F B) → (E → Exec W F B) → Result E A → Exec W F B
  either f g (ok a) = f a
  either f g (err e) = g e

  -- `if err != nil { return …(err) }`: an error is replaced and returned
  abbrev pub or_raise : (E → F) → (A → Exec W F B) → Result E A → Exec W F B
  or_raise g f (ok a) = f a
  or_raise g f (err e) = raise (g e)

module _ {W E A B : Type 0} where
  infixl 5 ◌>>=◌ ◌>>◌
  abbrev pub ◌>>=◌ : Exec W E A → (A → Exec W E B) → Exec W E B
  m >>= f = on_result m (or_raise (λ e. e) f)

  abbrev pub ◌>>◌ : Exec W E A → Exec W E B → Exec W E B
  m >> n = m >>= λ _. n

  -- `_ = m`: the result is dropped, the effect stays
  abbrev pub ignoring : Exec W E A → Exec W E B → Exec W E B
  ignoring m n w = n (m w).1

-- `if err != nil { return …(err) }` in front of the rest
module _ {W E F A B : Type 0} where
  abbrev pub trying : Exec W E A → (E → F) → (A → Exec W F B) → Exec W F B
  trying m g f = on_result m (or_raise g f)
