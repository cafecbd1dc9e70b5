-- ===== src/Store/Laws.antt =====
-- What an UPDATE of the rows that pass a test does to a table.
use reach.Base.{
  ◌≡◌, refl, Bool, true, false, List, [], ◌∷◌, none, some, arith, if◌then◌else◌, find, any, all,
  update,
}

module _ {ℓ} {A : Type ℓ} (p : A → Bool) (f : A → A) where
  -- A test that the change does not disturb finds the same rows.
  pub find-update :
      (q : A → Bool)
      → ((x : A) → q (f x) ≡ q x)
      → (xs : List A)
      → find q (update p f xs)
        ≡ elim (find q xs) [ none ↦ none | some x ↦ some (if p x then f x else x) ]
  find-update q keeps [] = refl
  find-update q keeps (x ∷ xs) = ground (arith, keeps x, find-update q keeps xs)

  -- Where no row passes the test nothing changes.
  pub update_none : (xs : List A) → any p xs ≡ false → update p f xs ≡ xs
  update_none [] h = refl
  update_none (x ∷ xs) h = ground (arith, update_none xs)

-- What holds of each changed row, and of each other row, holds of all rows.
pub all-update {ℓ} :
    {A : Type ℓ} (p : A → Bool) (f : A → A) (q : A → Bool)
    → ((x : A) → q x ≡ true → p x ≡ true → q (f x) ≡ true)
    → (xs : List A) → all q xs ≡ true
    → all q (update p f xs) ≡ true
all-update p f q keeps [] h = refl
all-update p f q keeps (x ∷ xs) h = ground (arith, keeps x, all-update p f q keeps xs)
