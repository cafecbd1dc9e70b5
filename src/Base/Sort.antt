-- ===== src/Base/Sort.antt =====
-- `ORDER BY`: a stable insertion sort. Rows that the order does not tell apart stay in the order of
-- the table, which is what SQLite does without promising it.
use reach.Base.Tests.{ltb, ◌==◌, if◌then◌else◌}
use reach.Base.Lists.{length, all, any}
use Prim.Native.Nat.{suc}
use reach.Base.Strings.{Text}
use mathlib.Core.Path.{◌≡◌, refl, ap, ◌∙◌}
use mathlib.Core.Bool.{Bool, true, false, ◌&&◌, ◌||◌}
use mathlib.Core.List.{List, [], ◌∷◌}
use native.Mathlib.Omega.{arith}

module _ {ℓ} {A : Type ℓ} (le : A → A → Bool) where
  unfoldable pub insert_by : A → List A → List A
  insert_by x [] = x ∷ []
  insert_by x (y ∷ ys) = if le x y then x ∷ y ∷ ys else y ∷ insert_by x ys

  unfoldable pub sort_by : List A → List A
  unfolding insert_by
  sort_by [] = []
  sort_by (x ∷ xs) = insert_by x (sort_by xs)

  all-insert_by : (p : A → Bool) (x : A) (xs : List A) → all p (insert_by x xs) ≡ (p x && all p xs)
  unfolding insert_by
  all-insert_by p x [] = refl
  all-insert_by p x (y ∷ ys) = ground (arith, all-insert_by p x ys)

  -- A test holds of all rows in the one order where it does in the other.
  pub all-sort_by : (p : A → Bool) (xs : List A) → all p (sort_by xs) ≡ all p xs
  unfolding sort_by
  all-sort_by p [] = refl
  all-sort_by p (x ∷ xs) = all-insert_by p x (sort_by xs) ∙ ap (λ b. p x && b) (all-sort_by p xs)

  any-insert_by : (p : A → Bool) (x : A) (xs : List A) → any p (insert_by x xs) ≡ (p x || any p xs)
  unfolding insert_by
  any-insert_by p x [] = refl
  any-insert_by p x (y ∷ ys) = ground (arith, any-insert_by p x ys)

  pub any-sort_by : (p : A → Bool) (xs : List A) → any p (sort_by xs) ≡ any p xs
  unfolding sort_by
  any-sort_by p [] = refl
  any-sort_by p (x ∷ xs) = any-insert_by p x (sort_by xs) ∙ ap (λ b. p x || b) (any-sort_by p xs)

  length-insert_by : (x : A) (xs : List A) → length (insert_by x xs) ≡ suc (length xs)
  unfolding insert_by
  length-insert_by x [] = refl
  length-insert_by x (y ∷ ys) = ground (arith, length-insert_by x ys)

  pub length-sort_by : (xs : List A) → length (sort_by xs) ≡ length xs
  unfolding sort_by
  length-sort_by [] = refl
  length-sort_by (x ∷ xs) = length-insert_by x (sort_by xs) ∙ ap suc (length-sort_by xs)

-- The order of texts byte by byte, which is the one that the tables use.
unfoldable pub le_text : Text → Text → Bool
le_text [] t = true
le_text (x ∷ s) [] = false
le_text (x ∷ s) (y ∷ t) = ltb x y || (x == y && le_text s t)
