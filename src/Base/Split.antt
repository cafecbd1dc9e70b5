-- ===== src/Base/Split.antt =====
-- `strings.Split` at a byte: the parts that it finds, and lines put together again.
use reach.Base.Lists.{any, all}
use reach.Base.Strings.{Text, split, split_onto}
use reach.Base.Tests.{◌==◌}
use Prim.Native.Nat.{ℕ}
use mathlib.Core.Path.{◌≡◌, refl, ap, ◌∙◌}
use mathlib.Core.Bool.{Bool, true, false, not}
use mathlib.Core.List.{List, [], ◌∷◌, ◌++◌, append_assoc, append-nil}
use native.Mathlib.Omega.{arith}

-- A separator ends the part before it, where that has none.
pub split_onto-append :
    (sep : ℕ) (part x rest : Text)
    → any (λ c. c == sep) x ≡ false
    → split_onto sep part (x ++ sep ∷ rest) ≡ (part ++ x) ∷ split_onto sep [] rest
unfolding split_onto
split_onto-append sep part [] rest h =
    let hit : (sep == sep) ≡ true = ground arith in rw (hit, append-nil part)
split_onto-append sep part (b ∷ x) rest h =
    let miss : (b == sep) ≡ false = ground arith in
    rw (miss) (
      split_onto-append sep (part ++ b ∷ []) x rest (ground arith)
      ∙ ap (λ t. t ∷ split_onto sep [] rest) (append_assoc part (b ∷ []) x))

-- What has no separator is one part.
pub split_onto_end :
    (sep : ℕ) (part x : Text)
    → any (λ c. c == sep) x ≡ false
    → split_onto sep part x ≡ (part ++ x) ∷ []
unfolding split_onto
split_onto_end sep part [] h = rw (append-nil part)
split_onto_end sep part (b ∷ x) h =
    let miss : (b == sep) ≡ false = ground arith in
    rw (miss) (
      split_onto_end sep (part ++ b ∷ []) x (ground arith)
      ∙ ap (λ t. t ∷ []) (append_assoc part (b ∷ []) x))

-- Lines, each with its end.
unfoldable pub unlines : List Text → Text
unlines [] = []
unlines (l ∷ ls) = l ++ (b'\n' ∷ unlines ls)

-- A text of one line.
abbrev pub plain : Text → Bool
plain s = not (any (λ c. c == b'\n') s)

pub split-unlines :
    (ls : List Text) → all plain ls ≡ true → split b'\n' (unlines ls) ≡ ls ++ [] ∷ []
unfolding split unlines split_onto
split-unlines [] h = refl
split-unlines (l ∷ ls) h =
    split_onto-append b'\n' [] l (unlines ls) (ground (arith, h))
    ∙ ap (◌∷◌ l) (split-unlines ls (ground (arith, h)))
