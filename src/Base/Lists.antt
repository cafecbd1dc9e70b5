-- ===== src/Base/Lists.antt =====
-- Lists measured and indexed by native numbers, under the library's names, and searched by a test.
use Prim.Native.Nat.{ℕ, zero, suc, ◌+◌, ◌-◌, ◌≤◌}
use mathlib.Core.Path.{◌≡◌, refl, ap}
use mathlib.Core.Bool.{Bool, true, false, ◌&&◌, ◌||◌}
use mathlib.Core.List.{List, [], ◌∷◌, ◌++◌, map}
use mathlib.Core.Option.{Option, none, some}
use native.Mathlib.Omega.{arith}
use reach.Base.Tests.{if◌then◌else◌}

module _ {ℓ} {A : Type ℓ} where
  abbrev pub length : List A → ℕ
  length [] = 0
  length (x ∷ xs) = suc (length xs)

  abbrev pub get_or : List A → ℕ → A → A
  get_or [] i d = d
  get_or (x ∷ xs) zero d = x
  get_or (x ∷ xs) (suc i) d = get_or xs i d

  abbrev pub take : ℕ → List A → List A
  take zero xs = []
  take (suc n) [] = []
  take (suc n) (x ∷ xs) = x ∷ take n xs

  abbrev pub drop : ℕ → List A → List A
  drop zero xs = xs
  drop (suc n) [] = []
  drop (suc n) (x ∷ xs) = drop n xs

  -- The rows that pass a test, in order.
  abbrev pub select : (A → Bool) → List A → List A
  select p [] = []
  select p (x ∷ xs) = if p x then x ∷ select p xs else select p xs

  -- The first row that passes a test.
  abbrev pub find : (A → Bool) → List A → Option A
  find p [] = none
  find p (x ∷ xs) = if p x then some x else find p xs

  abbrev pub any : (A → Bool) → List A → Bool
  any p [] = false
  any p (x ∷ xs) = p x || any p xs

  abbrev pub all : (A → Bool) → List A → Bool
  all p [] = true
  all p (x ∷ xs) = p x && all p xs

  -- `UPDATE … WHERE p`: the rows that pass the test are changed.
  abbrev pub update : (A → Bool) → (A → A) → List A → List A
  update p f [] = []
  update p f (x ∷ xs) = (if p x then f x else x) ∷ update p f xs

  -- The rows that each row gives, one after another.
  abbrev pub gather {κ} : {B : Type κ} → (A → List B) → List A → List B
  gather f [] = []
  gather f (x ∷ xs) = f x ++ gather f xs

  abbrev pub All {κ} : (A → Type κ) → List A → Type κ
  All P [] = Unit
  All P (x ∷ xs) = P x × All P xs

module _ {ℓ} {A : Type ℓ} where
  pub length-append : (xs ys : List A) → length (xs ++ ys) ≡ length xs + length ys
  length-append [] ys = omega arith
  length-append (x ∷ xs) ys = omega (arith, length-append xs ys)

  pub length-take-le : (n : ℕ) (xs : List A) → length (take n xs) ≤ n
  length-take-le zero xs = omega arith
  length-take-le (suc n) [] = omega arith
  length-take-le (suc n) (x ∷ xs) = omega (arith, length-take-le n xs)

  pub take-append-drop : (n : ℕ) (xs : List A) → take n xs ++ drop n xs ≡ xs
  take-append-drop zero xs = refl
  take-append-drop (suc n) [] = refl
  take-append-drop (suc n) (x ∷ xs) = ap (◌∷◌ x) (take-append-drop n xs)

  pub length-drop : (n : ℕ) (xs : List A) → length (drop n xs) ≡ length xs - n
  length-drop zero xs = omega arith
  length-drop (suc n) [] = omega arith
  length-drop (suc n) (x ∷ xs) = omega (arith, length-drop n xs)

  pub all-append : (p : A → Bool) (xs ys : List A) → all p (xs ++ ys) ≡ (all p xs && all p ys)
  all-append p [] ys = refl
  all-append p (x ∷ xs) ys = ground (arith, all-append p xs ys)

  pub all-take : (p : A → Bool) (n : ℕ) (xs : List A) → all p xs ≡ true → all p (take n xs) ≡ true
  all-take p zero xs h = refl
  all-take p (suc n) [] h = refl
  all-take p (suc n) (x ∷ xs) h = ground (arith, all-take p n xs)

  pub length-update : (p : A → Bool) (f : A → A) (xs : List A) → length (update p f xs) ≡ length xs
  length-update p f [] = refl
  length-update p f (x ∷ xs) = ap suc (length-update p f xs)

-- A test through the operations on lists.
module _ {ℓ} {A : Type ℓ} where
  pub take_all : (n : ℕ) (xs : List A) → length xs ≤ n → take n xs ≡ xs
  take_all zero [] h = refl
  take_all zero (x ∷ xs) h = absurd (omega arith)
  take_all (suc n) [] h = refl
  take_all (suc n) (x ∷ xs) h = ap (◌∷◌ x) (take_all n xs (omega arith))

  pub any-select : (p q : A → Bool) (xs : List A) → any q (select p xs) ≡ any (λ x. p x && q x) xs
  any-select p q [] = refl
  any-select p q (x ∷ xs) = ground (arith, any-select p q xs)

  pub all-select : (p : A → Bool) (xs : List A) → all p (select p xs) ≡ true
  all-select p [] = refl
  all-select p (x ∷ xs) = ground (arith, all-select p xs)

  pub all-map {κ} :
      {B : Type κ} (f : A → B) (q : B → Bool) (xs : List A)
      → all q (map f xs) ≡ all (λ x. q (f x)) xs
  all-map f q [] = refl
  all-map f q (x ∷ xs) = ap (λ b. q (f x) && b) (all-map f q xs)

  pub length-map {κ} : {B : Type κ} (f : A → B) (xs : List A) → length (map f xs) ≡ length xs
  length-map f [] = refl
  length-map f (x ∷ xs) = ap suc (length-map f xs)

  pub any-map {κ} :
      {B : Type κ} (f : A → B) (q : B → Bool) (xs : List A)
      → any q (map f xs) ≡ any (λ x. q (f x)) xs
  any-map f q [] = refl
  any-map f q (x ∷ xs) = ap (λ b. q (f x) || b) (any-map f q xs)

  -- A row that passes the test still does where the change keeps the test.
  pub any-update :
      (p : A → Bool) (f : A → A) (q : A → Bool)
      → ((x : A) → q x ≡ true → q (f x) ≡ true)
      → (xs : List A) → any q xs ≡ true
      → any q (update p f xs) ≡ true
  any-update p f q keeps [] h = h
  any-update p f q keeps (x ∷ xs) h = ground (arith, keeps x, any-update p f q keeps xs)

  pub any_weaken :
      (p q : A → Bool)
      → ((x : A) → p x ≡ true → q x ≡ true)
      → (xs : List A) → any p xs ≡ true
      → any q xs ≡ true
  any_weaken p q w [] h = h
  any_weaken p q w (x ∷ xs) h = ground (arith, w x, any_weaken p q w xs)

  pub all_weaken :
      (p q : A → Bool)
      → ((x : A) → p x ≡ true → q x ≡ true)
      → (xs : List A) → all p xs ≡ true
      → all q xs ≡ true
  all_weaken p q w [] h = refl
  all_weaken p q w (x ∷ xs) h = ground (arith, w x, all_weaken p q w xs)

  -- Each selected row is found among the rows again.
  pub all-select_found :
      (p : A → Bool) (r : A → A → Bool)
      → ((x : A) → p x ≡ true → r x x ≡ true)
      → (xs : List A) → all (λ x. any (r x) xs) (select p xs) ≡ true
  all-select_found p r self [] = refl
  all-select_found p r self (x ∷ xs) =
      let rest =
        all_weaken (λ y. any (r y) xs) (λ y. any (r y) (x ∷ xs)) (λ y h. ground (arith, h))
          (select p xs) (all-select_found p r self xs) in
      ground (arith, rest, self x)

  pub all-true : (xs : List A) → all (λ x. true) xs ≡ true
  all-true [] = refl
  all-true (x ∷ xs) = all-true xs

  pub any-append : (p : A → Bool) (xs ys : List A) → any p (xs ++ ys) ≡ (any p xs || any p ys)
  any-append p [] ys = refl
  any-append p (x ∷ xs) ys = ground (arith, any-append p xs ys)

  pub all-gather {κ} :
      {B : Type κ} (f : A → List B) (p : B → Bool)
      → ((x : A) → all p (f x) ≡ true)
      → (xs : List A) → all p (gather f xs) ≡ true
  all-gather f p each [] = refl
  all-gather f p each (x ∷ xs) =
      ground (arith, each x, all-append p (f x) (gather f xs), all-gather f p each xs)

  pub select-append :
      (p : A → Bool) (xs ys : List A) → select p (xs ++ ys) ≡ select p xs ++ select p ys
  select-append p [] ys = refl
  select-append p (x ∷ xs) ys = ground (arith, select-append p xs ys)

  pub all-gather_fit {κ} :
      {B : Type κ} (fit : A → Bool) (f : A → List B) (p : B → Bool)
      → ((x : A) → fit x ≡ true → all p (f x) ≡ true)
      → (xs : List A) → all fit xs ≡ true
      → all p (gather f xs) ≡ true
  all-gather_fit fit f p each [] h = refl
  all-gather_fit fit f p each (x ∷ xs) h =
      ground (arith, each x, all-append p (f x) (gather f xs), all-gather_fit fit f p each xs)
