-- ===== src/Base/Raises.antt =====
-- A call that may raise: its value, or the error.
use mathlib.Core.Path.{◌≡◌, refl}
use mathlib.Core.Logic.{◌⊎◌, inl, inr}
use mathlib.Core.Bool.{Bool, true, false}
use mathlib.Core.Option.{Option, none, some}

pub data Result {ℓ κ} (E : Type ℓ) (A : Type κ) : Type (ℓ ⊔ κ) where
  ok : A → Result E A
  err : E → Result E A

module _ {ℓ κ} {E : Type ℓ} {A : Type κ} where
  pub Result-cases : (r : Result E A) → ((a : A) × (r ≡ ok a)) ⊎ ((e : E) × (r ≡ err e))
  Result-cases (ok a) = inl (a, refl)
  Result-cases (err e) = inr (e, refl)

infixl 5 ◌>>=◌
abbrev pub ◌>>=◌ {ℓ κ λ'} :
    {E : Type ℓ} {A : Type κ} {B : Type λ'} → Result E A → (A → Result E B) → Result E B
ok a >>= f = f a
err e >>= f = err e

-- `>>=` as a call that stays shut in proofs, so that a long chain is taken apart step by step.
unfoldable pub and_then {ℓ κ λ'} :
    {E : Type ℓ} {A : Type κ} {B : Type λ'} → Result E A → (A → Result E B) → Result E B
and_then (ok a) f = f a
and_then (err e) f = err e

-- A chain that returns has returned at each step.
pub and_then_ok {ℓ κ λ'} :
    {E : Type ℓ} {A : Type κ} {B : Type λ'} (m : Result E A) (f : A → Result E B) (b : B)
    → and_then m f ≡ ok b
    → (a : A) × (m ≡ ok a) × (f a ≡ ok b)
unfolding and_then
and_then_ok (ok a) f b h = (a, refl, h)
and_then_ok (err e) f b h = absurd (cc)

-- A step that returns hands its value on.
pub and_then-ok {ℓ κ λ'} :
    {E : Type ℓ} {A : Type κ} {B : Type λ'} (m : Result E A) (f : A → Result E B) (a : A)
    (r : Result E B)
    → m ≡ ok a
    → f a ≡ r
    → and_then m f ≡ r
unfolding and_then
and_then-ok (ok b) f a r h rest = cc
and_then-ok (err e) f a r h rest = absurd (cc)

module _ {ℓ} {E : Type ℓ} where
  -- `if not test: raise e`
  abbrev pub require : Bool → E → Result E (Unit {0})
  require true e = ok tt
  require false e = err e

  pub require_ok : (b : Bool) (e : E) (u : Unit {0}) → require b e ≡ ok u → b ≡ true
  require_ok true e u h = refl
  require_ok false e u h = absurd (cc)

  pub require-true : (b : Bool) (e : E) → b ≡ true → require b e ≡ ok tt
  require-true true e h = refl
  require-true false e h = absurd (cc)

  abbrev pub or_raise {κ} : {A : Type κ} → Option A → E → Result E A
  or_raise (some a) e = ok a
  or_raise none e = err e

module _ {ℓ κ} {E : Type ℓ} {A : Type κ} where
  pub ok_injective : (a b : A) (r : Result E A) → r ≡ ok a → r ≡ ok b → a ≡ b
  ok_injective a b r h k = cc
