-- ===== src/Base/Lists.antt =====
-- Lists measured by native numbers, Boolean searches over lists, and predicates on all members.
use Prim.Native.Nat.{ℕ, zero, suc, ◌+◌}
use mathlib.Core.Path.{◌≡◌, refl}
use mathlib.Core.Bool.{Bool, false, not, ◌||◌}
use mathlib.Core.List.{List, [], ◌∷◌, ◌++◌, map}
use native.Mathlib.Omega.{arith}
use execution_auto.Base.Tests.{◌==◌, if◌then◌else◌}

module _ {ℓ} {A : Type ℓ} where
  abbrev pub length : List A → ℕ
  length [] = 0
  length (x ∷ xs) = suc (length xs)

  pub length-append : (xs ys : List A) → length (xs ++ ys) ≡ length xs + length ys
  length-append [] ys = omega arith
  length-append (x ∷ xs) ys = omega (arith, length-append xs ys)

  -- `any(p(x) for x in xs)`
  unfoldable pub any : (A → Bool) → List A → Bool
  any p [] = false
  any p (x ∷ xs) = p x || any p xs

  -- `[x for x in xs if p(x)]`
  unfoldable pub keep : (A → Bool) → List A → List A
  keep p [] = []
  keep p (x ∷ xs) = let rest = keep p xs in if p x then x ∷ rest else rest

  -- `xs[:n]` and `xs[n:]`
  unfoldable pub take : ℕ → List A → List A
  take zero xs = []
  take (suc n) [] = []
  take (suc n) (x ∷ xs) = x ∷ take n xs

  unfoldable pub drop : ℕ → List A → List A
  drop zero xs = xs
  drop (suc n) [] = []
  drop (suc n) (x ∷ xs) = drop n xs

  -- Every member has the property, as a tuple of proofs.
  abbrev pub All {κ} : (A → Type κ) → List A → Type κ
  All P [] = Unit
  All P (x ∷ xs) = P x × All P xs

module _ {ℓ κ} {A : Type ℓ} (P : A → Type κ) where
  pub All-append : (xs ys : List A) → All P xs → All P ys → All P (xs ++ ys)
  All-append [] ys hx hy = hy
  All-append (x ∷ xs) ys hx hy = (hx.0, All-append xs ys hx.1 hy)

  pub All-append_left : (xs ys : List A) → All P (xs ++ ys) → All P xs
  All-append_left [] ys h = tt
  All-append_left (x ∷ xs) ys h = (h.0, All-append_left xs ys h.1)

  pub All-append_right : (xs ys : List A) → All P (xs ++ ys) → All P ys
  All-append_right [] ys h = h
  All-append_right (x ∷ xs) ys h = All-append_right xs ys h.1

module _ {ℓ κ μ} {A : Type ℓ} {P : A → Type κ} {Q : A → Type μ} where
  pub All-map : ((x : A) → P x → Q x) → (xs : List A) → All P xs → All Q xs
  All-map f [] h = tt
  All-map f (x ∷ xs) h = (f x h.0, All-map f xs h.1)

-- How many members have the number `n`.
module _ {ℓ} {A : Type ℓ} (number : A → ℕ) (n : ℕ) where
  abbrev pub occurs : List A → ℕ
  occurs [] = 0
  occurs (x ∷ xs) = (if number x == n then 1 else 0) + occurs xs

  pub occurs-append : (xs ys : List A) → occurs (xs ++ ys) ≡ occurs xs + occurs ys
  occurs-append [] ys = omega arith
  occurs-append (x ∷ xs) ys = ground (arith, occurs-append xs ys)

  pub occurs-keep :
      (p : A → Bool) (xs : List A)
      → occurs (keep p xs) + occurs (keep (λ x. not (p x)) xs) ≡ occurs xs
  unfolding keep
  occurs-keep p [] = omega arith
  occurs-keep p (x ∷ xs) = ground (arith, occurs-keep p xs)

  pub occurs-take-drop : (k : ℕ) (xs : List A) → occurs (take k xs) + occurs (drop k xs) ≡ occurs xs
  unfolding take drop
  occurs-take-drop zero xs = omega arith
  occurs-take-drop (suc k) [] = omega arith
  occurs-take-drop (suc k) (x ∷ xs) = omega (arith, occurs-take-drop k xs)

pub occurs-map {ℓ κ} :
    {A : Type ℓ} {B : Type κ} (number : B → ℕ) (number' : A → ℕ) (n : ℕ) (f : A → B) (xs : List A)
    → ((x : A) → number (f x) ≡ number' x)
    → occurs number n (map f xs) ≡ occurs number' n xs
occurs-map number number' n f [] same = refl
occurs-map number number' n f (x ∷ xs) same =
    ground (arith, same x, occurs-map number number' n f xs same)
