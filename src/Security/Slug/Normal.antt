-- ===== src/Security/Slug/Normal.antt =====
-- security.go: what `NormalizeSlug` makes of a name, and when `ValidateSlug` accepts it.
use reach.Base.Utf8.{lower_trimmed}
use reach.Base.{
  ℕ, suc, ◌≤◌, ◌≡◌, refl, sym, ◌∙◌, inl, inr, Bool, true, false, List, [], ◌∷◌, arith, ltb, length,
  take, any, all, Text, trim_byte, codes, Bool-cases, all-take, length-take-le,
}
use reach.Security.Slug.Trimming.{IsTidy, trim_byte-IsTidy, length-trim_byte-le, trim_byte_hyphens}
use reach.Security.Slug.{
  is_alnum, is_slug_byte, starts_by, valid_slug, hyphenate, cut_slug, pad_slug, normalize_slug,
}

hyphenate-all : (last : Bool) (rs : List ℕ) → all is_slug_byte (hyphenate last rs) ≡ true
unfolding hyphenate
hyphenate-all last [] = refl
hyphenate-all last (r ∷ rs) = ground (arith, hyphenate-all false rs, hyphenate-all true rs)

hyphenate-any : (last : Bool) (rs : List ℕ) → any is_alnum (hyphenate last rs) ≡ any is_alnum rs
unfolding hyphenate
hyphenate-any last [] = refl
hyphenate-any last (r ∷ rs) = ground (arith, hyphenate-any false rs, hyphenate-any true rs)

pub starts-any : (s : Text) → starts_by is_alnum s ≡ true → any is_alnum s ≡ true
starts-any [] h = cc
starts-any (c ∷ s) h = ground arith

pub starts-take :
    (n : ℕ) (s : Text) → starts_by is_alnum s ≡ true → starts_by is_alnum (take (suc n) s) ≡ true
starts-take n [] h = h
starts-take n (c ∷ s) h = h

-- A text is cut to 32 bytes, and stays tidy.
pub cut_slug-IsTidy : (s : Text) → IsTidy s → IsTidy (cut_slug s) × (length (cut_slug s) ≤ 32)
cut_slug-IsTidy s h = elim (Bool-cases (ltb 32 (length s))) [
  | inl long ↦ rw long (
    trim_byte-IsTidy (take 32 s) (record {
      bytes = all-take is_slug_byte 32 s h.bytes;
      named = starts-any (take 32 s) (starts-take 31 s h.front);
    }),
    omega (arith, length-trim_byte-le (take 32 s), length-take-le 32 s),
  )
  | inr fits ↦ rw fits (h, ground arith)
]

pub pad_slug-valid : (s : Text) → IsTidy s → length s ≤ 32 → valid_slug (pad_slug s) ≡ true
unfolding valid_slug
pad_slug-valid [] h fits = cc h.front
pad_slug-valid (c ∷ s) h fits = ground arith

box_front : (all is_slug_byte (codes "box-") ≡ true) × (starts_by is_alnum (codes "box-") ≡ true)
unfolding is_alnum
box_front = (refl, refl)

pad_slug-front :
    (s : Text)
    → IsTidy s
    → (all is_slug_byte (pad_slug s) ≡ true) × (starts_by is_alnum (pad_slug s) ≡ true)
unfolding is_alnum
pad_slug-front [] h = cc h.front
pad_slug-front (c ∷ s) h = ground arith

box_dash : valid_slug (codes "box-") ≡ false
unfolding valid_slug
box_dash = refl

-- Whatever the name, the slug made of it is of slug bytes, and begins with a letter or digit.
pub normalize_slug-front :
    (name : Text)
    → (all is_slug_byte (normalize_slug name) ≡ true)
      × (starts_by is_alnum (normalize_slug name) ≡ true)
unfolding normalize_slug
normalize_slug-front name =
    let rs = lower_trimmed name in
    let text = hyphenate false rs in
    let bytes = hyphenate-all false rs in
    elim (Bool-cases (any is_alnum rs)) [
      | inl named ↦
          let tidy = cut_slug-IsTidy (trim_byte b'-' text) (
            trim_byte-IsTidy text
              (record { bytes = bytes; named = hyphenate-any false rs ∙ named })) in
          pad_slug-front _ tidy.0
      | inr unnamed ↦ rw (trim_byte_hyphens text bytes (hyphenate-any false rs ∙ unnamed)) box_front
    ]

-- `NormalizeSlug` makes a slug that `ValidateSlug` accepts of every name in which a letter or digit
-- of ASCII is left by trimming and lowering it, and of no other name: those become `box-`, which is
-- refused for its last byte.
pub valid_slug-normalize_slug :
    (name : Text)
    → (valid_slug (normalize_slug name) ≡ any is_alnum (lower_trimmed name))
      × (any is_alnum (lower_trimmed name) ≡ false → normalize_slug name ≡ codes "box-")
unfolding normalize_slug
valid_slug-normalize_slug name =
    let rs = lower_trimmed name in
    let text = hyphenate false rs in
    let bytes = hyphenate-all false rs in
    elim (Bool-cases (any is_alnum rs)) [
      | inl named ↦
          let tidy = cut_slug-IsTidy (trim_byte b'-' text) (
            trim_byte-IsTidy text
              (record { bytes = bytes; named = hyphenate-any false rs ∙ named })) in
          (pad_slug-valid _ tidy.0 tidy.1 ∙ sym named, λ none_named. cc)
      | inr unnamed ↦
          let empty = trim_byte_hyphens text bytes (hyphenate-any false rs ∙ unnamed) in
          (rw (empty, unnamed) box_dash, λ _. rw empty)
    ]
