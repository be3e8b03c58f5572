-- ===== src/Base/Lists.antt =====
-- Lists measured by native numbers, under the library's names, with the array methods that the
-- services call: `includes`, `filter` on a Boolean test, and `pop`.
use Prim.Native.Nat.{ℕ, zero, suc, ◌-◌, ◌≤◌}
use mathlib.Core.Path.{◌≡◌, refl}
use mathlib.Core.Bool.{Bool, true, false, not, ◌||◌}
use mathlib.Core.List.{List, [], ◌∷◌}
use native.Mathlib.Omega.{arith}
use chainlink_eth_secret_net.Base.Tests.{Eq, ◌==◌, if◌then◌else◌}

module _ {ℓ} {A : Type ℓ} where
  abbrev pub length : List A → ℕ
  length [] = 0
  length (x ∷ xs) = suc (length xs)

  abbrev pub take : ℕ → List A → List A
  take zero xs = []
  take (suc n) [] = []
  take (suc n) (x ∷ xs) = x ∷ take n xs

  -- `xs.pop()`: the array without its last element.
  abbrev pub pop : List A → List A
  pop [] = []
  pop (x ∷ []) = []
  pop (x ∷ y ∷ xs) = x ∷ pop (y ∷ xs)

  -- The elements that pass a test, in order.
  abbrev pub select : (A → Bool) → List A → List A
  select p [] = []
  select p (x ∷ xs) = if p x then x ∷ select p xs else select p xs

  -- The number of elements that pass a test.
  abbrev pub count : (A → Bool) → List A → ℕ
  count p [] = 0
  count p (x ∷ xs) = if p x then suc (count p xs) else count p xs

  abbrev pub All {κ} : (A → Type κ) → List A → Type κ
  All P [] = Unit
  All P (x ∷ xs) = P x × All P xs

  pub length-take-le : (n : ℕ) (xs : List A) → length (take n xs) ≤ n
  length-take-le zero xs = omega arith
  length-take-le (suc n) [] = omega arith
  length-take-le (suc n) (x ∷ xs) = omega (arith, length-take-le n xs)

  pub length-pop : (xs : List A) → length (pop xs) ≡ length xs - 1
  length-pop [] = omega arith
  length-pop (x ∷ []) = omega arith
  length-pop (x ∷ y ∷ xs) = omega (arith, length-pop (y ∷ xs))

  pub count-le-length : (p : A → Bool) (xs : List A) → count p xs ≤ length xs
  count-le-length p [] = omega arith
  count-le-length p (x ∷ xs) = ground (arith, count-le-length p xs)

  -- A test that implies the one by which elements go is met by none that stay.
  pub count-select_none :
      (q r : A → Bool) (xs : List A)
      → ((x : A) → q x ≡ true → r x ≡ true)
      → count q (select (λ x. not (r x)) xs) ≡ 0
  count-select_none q r [] h = refl
  count-select_none q r (x ∷ xs) h = ground (arith, h x, count-select_none q r xs h)

  -- A test that excludes it is met as often as before.
  pub count-select_all :
      (q r : A → Bool) (xs : List A)
      → ((x : A) → q x ≡ true → r x ≡ false)
      → count q (select (λ x. not (r x)) xs) ≡ count q xs
  count-select_all q r [] h = refl
  count-select_all q r (x ∷ xs) h = ground (arith, h x, count-select_all q r xs h)

module _ {ℓ} {A : Type ℓ} ⦃e : Eq A⦄ where
  -- `xs.includes(v)`
  abbrev pub includes : List A → A → Bool
  includes [] v = false
  includes (x ∷ xs) v = x == v || includes xs v
