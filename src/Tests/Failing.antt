-- ===== src/Tests/Failing.antt =====
-- What the databases of the tests share that do not answer everything.
use chargeflow_registry.Prelude.{ℕ, ◌≡◌, refl, subst, false, ok, err, Result}
use chargeflow_registry.Errors.{Error, Sentinel, other, is}
use chargeflow_registry.Schema.Model.{Uuid}
use chargeflow_registry.Postgres.Tables.{Tables}

abbrev pub down : {A D : Type 0} → D → Result Error A × D
down w = (err (other "down"), w)

abbrev pub commit : {D : Type 0} → Result Error (Uuid × ℕ) → D → D → Result Error (Uuid × ℕ) × D
commit (ok a) before after = (ok a, after)
commit (err e) before after = (err e, before)

module _ {D : Type 0} (view : D → Tables) where
  pub commit-ok :
      (r : Result Error (Uuid × ℕ)) (before after : D) (a : Uuid × ℕ)
      → (commit r before after).0 ≡ ok a
      → (r ≡ ok a) × (view (commit r before after).1 ≡ view after)
  commit-ok (ok b) before after a h = (h, refl)
  commit-ok (err e) before after a h = absurd (cc h)

  pub commit-err :
      (r : Result Error (Uuid × ℕ)) (before after : D) (x : Error)
      → (commit r before after).0 ≡ err x
      → view (commit r before after).1 ≡ view before
  commit-err (ok b) before after x h = absurd (cc h)
  commit-err (err e) before after x h = refl

pub err-injective : {A : Type 0} (x y : Error) → ◌≡◌ {A = Result Error A} (err x) (err y) → x ≡ y
err-injective x y h = cc

-- An error of the test database is no sentinel.
pub foreign : (x : Error) (s : Sentinel) → other "down" ≡ x → is x s ≡ false
foreign x s same = subst (λ y. is y s ≡ false) same refl
