-- ===== src/Security/Slug.antt =====
-- security.go: `ValidateSlug` and `NormalizeSlug`.
pub mod Trimming
pub mod Normal
use reach.Base.Utf8.{lower_trimmed}
use reach.Base.{
  ℕ, ◌+◌, Bool, true, false, not, ◌&&◌, ◌||◌, List, [], ◌∷◌, ◌++◌, ltb, leb, ◌==◌, if◌then◌else◌,
  within, length, take, all, Text, codes, trim_byte, ◌≡◌, refl,
}

unfoldable pub is_alnum : ℕ → Bool
is_alnum c = within b'a' b'z' c || within b'0' b'9' c

abbrev pub is_slug_byte : ℕ → Bool
is_slug_byte c = is_alnum c || c == b'-'

abbrev pub starts_by : (ℕ → Bool) → Text → Bool
starts_by p [] = false
starts_by p (c ∷ s) = p c

abbrev pub ends_by : (ℕ → Bool) → Text → Bool
ends_by p [] = false
ends_by p (c ∷ []) = p c
ends_by p (c ∷ d ∷ s) = ends_by p (d ∷ s)

-- `^[a-z0-9][a-z0-9-]{1,30}[a-z0-9]$`
unfoldable pub valid_slug : Text → Bool
unfolding is_alnum
valid_slug s =
    leb 3 (length s)
    && leb (length s) 32
    && all is_slug_byte s
    && starts_by is_alnum s
    && ends_by is_alnum s

-- The loop over the runes; the flag is `lastHyphen`.
unfoldable pub hyphenate : Bool → List ℕ → Text
unfolding is_alnum
hyphenate last [] = []
hyphenate last (r ∷ rs) =
    let kept = r ∷ hyphenate false rs in
    let skipped = hyphenate true rs in
    if is_alnum r then kept else if not last then b'-' ∷ skipped else skipped

abbrev pub cut_slug : Text → Text
cut_slug out = if ltb 32 (length out) then trim_byte b'-' (take 32 out) else out

abbrev pub pad_slug : Text → Text
pad_slug out = if ltb (length out) 3 then codes "box-" ++ out else out

unfoldable pub normalize_slug : Text → Text
unfolding hyphenate lower_trimmed trim_byte
normalize_slug name = pad_slug (cut_slug (trim_byte b'-' (hyphenate false (lower_trimmed name))))
