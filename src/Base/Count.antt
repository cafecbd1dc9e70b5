-- ===== src/Base/Count.antt =====
-- How many rows pass a test, through the operations on tables.
use reach.Base.Lists.{length, select, any, all, update}
use Prim.Native.Nat.{ℕ, ◌+◌, ◌≤◌}
use mathlib.Core.Path.{◌≡◌, refl}
use mathlib.Core.Bool.{Bool, true, false}
use mathlib.Core.List.{List, [], ◌∷◌, ◌++◌, map}
use native.Mathlib.Omega.{arith}

module _ {ℓ} {A : Type ℓ} where
  abbrev pub count : (A → Bool) → List A → ℕ
  count p xs = length (select p xs)

  pub count-append : (p : A → Bool) (xs ys : List A) → count p (xs ++ ys) ≡ count p xs + count p ys
  count-append p [] ys = omega arith
  count-append p (x ∷ xs) ys = ground (arith, count-append p xs ys)

  pub count_weaken :
      (p q : A → Bool)
      → ((x : A) → p x ≡ true → q x ≡ true)
      → (xs : List A) → count p xs ≤ count q xs
  count_weaken p q w [] = omega arith
  count_weaken p q w (x ∷ xs) = ground (arith, w x, count_weaken p q w xs)

  -- A change lets no further row pass, where it does so for no row that is fit.
  pub count-update :
      (fit p : A → Bool) (f : A → A) (q : A → Bool)
      → ((x : A) → fit x ≡ true → p x ≡ true → q (f x) ≡ true → q x ≡ true)
      → (xs : List A) → all fit xs ≡ true
      → count q (update p f xs) ≤ count q xs
  count-update fit p f q back [] h = omega arith
  count-update fit p f q back (x ∷ xs) h = ground (arith, back x, count-update fit p f q back xs)

  pub count_none : (p : A → Bool) (xs : List A) → any p xs ≡ false → count p xs ≡ 0
  count_none p [] h = refl
  count_none p (x ∷ xs) h = ground (arith, count_none p xs)

  pub map-update {κ} :
      {B : Type κ} (g : A → B) (p : A → Bool) (f : A → A)
      → ((x : A) → g (f x) ≡ g x)
      → (xs : List A) → map g (update p f xs) ≡ map g xs
  map-update g p f keeps [] = refl
  map-update g p f keeps (x ∷ xs) = ground (arith, keeps x, map-update g p f keeps xs)
