-- ===== src/Base/Sorting.antt =====
-- Python's `sorted` with a key that is a number: the order and the count of what is sorted.
use Prim.Native.Nat.{ℕ, ◌≤◌}
use mathlib.Core.Path.{◌≡◌, refl}
use mathlib.Core.Logic.{inl, inr}
use mathlib.Core.List.{List, [], ◌∷◌}
use native.Mathlib.Omega.{arith}
use execution_auto.Base.Tests.{leb, if◌then◌else◌, Bool-cases}
use execution_auto.Base.Lists.{occurs, All}

-- `sorted(items, key=…)`, which keeps items of equal keys in their order.
module _ {A : Type 0} (key : A → ℕ) where
  unfoldable pub insert_by : A → List A → List A
  insert_by o [] = o ∷ []
  insert_by o (p ∷ ps) =
      let rest = p ∷ insert_by o ps in if leb (key o) (key p) then o ∷ p ∷ ps else rest

  unfoldable pub sort_by : List A → List A
  unfolding insert_by
  sort_by [] = []
  sort_by (o ∷ os) = insert_by o (sort_by os)

  -- Each item has a key no greater than the next one's.
  abbrev pub InOrder : List A → Type 0
  InOrder [] = Unit
  InOrder (o ∷ []) = Unit
  InOrder (o ∷ p ∷ os) = (key o ≤ key p) × InOrder (p ∷ os)

  insert_by-InOrder : (o : A) (os : List A) → InOrder os → InOrder (insert_by o os)
  unfolding insert_by
  insert_by-InOrder o [] h = tt
  insert_by-InOrder o (p ∷ []) h = ground arith
  insert_by-InOrder o (p ∷ q ∷ os) h = ground (arith, insert_by-InOrder o (q ∷ os))

  pub sort_by-InOrder : (os : List A) → InOrder (sort_by os)
  unfolding sort_by
  sort_by-InOrder [] = tt
  sort_by-InOrder (o ∷ os) = insert_by-InOrder o (sort_by os) (sort_by-InOrder os)

  occurs-insert_by :
      (n : ℕ) (o : A) (os : List A) → occurs key n (insert_by o os) ≡ occurs key n (o ∷ os)
  unfolding insert_by
  occurs-insert_by n o [] = refl
  occurs-insert_by n o (p ∷ os) = ground (arith, occurs-insert_by n o os)

  pub occurs-sort_by : (n : ℕ) (os : List A) → occurs key n (sort_by os) ≡ occurs key n os
  unfolding sort_by
  occurs-sort_by n [] = refl
  occurs-sort_by n (o ∷ os) = ground (arith, occurs-insert_by n o (sort_by os), occurs-sort_by n os)

  -- What holds of every item holds of every sorted one.
  All-insert_by {ℓ} :
      (P : A → Type ℓ) (o : A) (os : List A) → P o → All P os → All P (insert_by o os)
  unfolding insert_by
  All-insert_by P o [] h hs = (h, tt)
  All-insert_by P o (p ∷ os) h hs = elim (Bool-cases (leb (key o) (key p))) [
    | inl before ↦ rw before (h, hs)
    | inr after ↦ rw after (hs.0, All-insert_by P o os h hs.1)
  ]

  pub All-sort_by {ℓ} : (P : A → Type ℓ) (os : List A) → All P os → All P (sort_by os)
  unfolding sort_by
  All-sort_by P [] h = tt
  All-sort_by P (o ∷ os) h = All-insert_by P o (sort_by os) h.0 (All-sort_by P os h.1)
