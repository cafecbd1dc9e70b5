-- ===== src/Base/Strings.antt =====
-- Go strings as lists of bytes, and what the code uses of the packages `strings` and `unicode/utf8`.
use Prim.Native.Nat.{ℕ, zero, suc, ◌-◌, ◌+◌, ◌/◌, ◌%◌}
use Prim.Native.Char.{code}
use Prim.Native.String.{String}
use mathlib.Core.Path.{◌≡◌, refl}
use mathlib.Core.Logic.{◌↔◌}
use mathlib.Core.Option.{Option, none, some}
use mathlib.Core.Bool.{Bool, true, false, ◌&&◌, ◌||◌}
use mathlib.Core.List.{List, [], ◌∷◌, ◌++◌, reverse}
use native.Mathlib.Omega.{arith}
use reach.Base.Tests.{ltb, ◌==◌, if◌then◌else◌}
use reach.Base.Lists.{length, take, drop, any}

abbrev pub Text : Type 0
Text = List ℕ

-- The bytes of a literal, which is ASCII throughout.
abbrev pub codes : String → Text
codes String.[] = []
codes (String.◌∷◌ c s) = code c ∷ codes s

-- `a == b` on strings.
unfoldable pub same : Text → Text → Bool
same [] [] = true
same (x ∷ xs) (y ∷ ys) = x == y && same xs ys
same _ _ = false

pub same_iff : (a b : Text) → (same a b ≡ true) ↔ (a ≡ b)
unfolding same
same_iff (x ∷ a) (y ∷ b) = ground (arith, same_iff a b)
same_iff _ _ = ground arith

pub same_refl : (a : Text) → same a a ≡ true
same_refl a = (same_iff a a).1 refl

-- `strings.HasPrefix(s, p)`.
unfoldable pub has_prefix : Text → Text → Bool
has_prefix s [] = true
has_prefix [] (y ∷ ys) = false
has_prefix (x ∷ xs) (y ∷ ys) = x == y && has_prefix xs ys

-- `strings.HasSuffix(s, p)`.
unfoldable pub has_suffix : Text → Text → Bool
unfolding has_prefix
has_suffix s p = has_prefix (reverse s) (reverse p)

-- `strings.TrimPrefix(s, p)`.
unfoldable pub trim_prefix : Text → Text → Text
unfolding has_prefix
trim_prefix s p = if has_prefix s p then drop (length p) s else s

-- `strings.TrimSuffix(s, p)`.
unfoldable pub trim_suffix : Text → Text → Text
unfolding has_suffix
trim_suffix s p = if has_suffix s p then take (length s - length p) s else s

-- `strings.ContainsAny(s, chars)`, for ASCII `chars`.
unfoldable pub contains_any : Text → Text → Bool
contains_any s chars = any (λ c. any (λ d. c == d) chars) s

-- `strings.TrimLeftFunc` and `strings.TrimRightFunc`.
unfoldable pub trim_left_by : (ℕ → Bool) → Text → Text
trim_left_by p [] = []
trim_left_by p (c ∷ s) = if p c then trim_left_by p s else c ∷ s

-- A byte in front of what is left of the text behind it.
unfoldable pub trim_cons : Bool → ℕ → Text → Text
trim_cons drops c [] = if drops then [] else c ∷ []
trim_cons drops c (d ∷ rest) = c ∷ d ∷ rest

unfoldable pub trim_right_by : (ℕ → Bool) → Text → Text
unfolding trim_cons
trim_right_by p [] = []
trim_right_by p (c ∷ s) = trim_cons (p c) c (trim_right_by p s)

-- `strings.Trim(s, "c")` for one byte c.
unfoldable pub trim_byte : ℕ → Text → Text
unfolding trim_left_by trim_right_by
trim_byte c s = trim_right_by (λ d. d == c) (trim_left_by (λ d. d == c) s)

-- `strings.Contains(s, sub)`.
unfoldable pub contains : Text → Text → Bool
unfolding has_prefix
contains [] sub = has_prefix [] sub
contains (c ∷ s) sub = has_prefix (c ∷ s) sub || contains s sub

-- `strings.Split(s, "c")` for one byte c: the parts between the separators, at least one.
unfoldable pub split_onto : ℕ → Text → Text → List Text
split_onto sep part [] = part ∷ []
split_onto sep part (c ∷ s) =
    let cut = part ∷ split_onto sep [] s in
    let longer = split_onto sep (part ++ c ∷ []) s in if c == sep then cut else longer

unfoldable pub split : ℕ → Text → List Text
unfolding split_onto
split sep s = split_onto sep [] s

-- `strings.Cut(s, "c")` for one byte c: what stands before it and behind it, where it is there.
unfoldable pub cut : ℕ → Text → Option (Text × Text)
cut sep [] = none
cut sep (c ∷ s) =
    if c == sep
    then some ([], s)
    else elim (cut sep s) [ none ↦ none | some (before, behind) ↦ some (c ∷ before, behind) ]

-- `strings.Join(parts, sep)`.
unfoldable pub join : Text → List Text → Text
join sep [] = []
join sep (s ∷ []) = s
join sep (s ∷ t ∷ ts) = s ++ (sep ++ join sep (t ∷ ts))

-- A number in decimal, as `%d` prints it; the fuel is the number, which has no more digits.
unfoldable pub decimal_onto : ℕ → ℕ → Text → Text
decimal_onto zero n rest = (n % 10 + 48) ∷ rest
decimal_onto (suc k) n rest =
    let more = decimal_onto k (n / 10) ((n % 10 + 48) ∷ rest) in
    if ltb n 10 then (n % 10 + 48) ∷ rest else more

unfoldable pub decimal : ℕ → Text
unfolding decimal_onto
decimal n = decimal_onto n n []
