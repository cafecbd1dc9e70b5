-- ===== src/Security/Slug/Trimming.antt =====
-- security.go: what `strings.Trim(s, "-")` leaves of a text of slug bytes.
use reach.Base.{
  ℕ, ◌≤◌, ◌≡◌, refl, ◌∙◌, ◌⊎◌, inl, inr, Bool, true, false, [], ◌∷◌, arith, ◌==◌, length, any, all,
  Text, trim_byte, trim_left_by, trim_right_by,
}
use reach.Security.Slug.{is_alnum, is_slug_byte, starts_by, ends_by}

abbrev pub is_hyphen : ℕ → Bool
is_hyphen c = c == b'-'

-- Slug bytes only, of which one at least is no hyphen.
pub record Slugs (s : Text) : Type 0 where
  pub bytes : all is_slug_byte s ≡ true
  pub named : any is_alnum s ≡ true

pub record IsTidy (s : Text) : Type 0 where
  pub bytes : all is_slug_byte s ≡ true
  pub front : starts_by is_alnum s ≡ true
  pub back : ends_by is_alnum s ≡ true

left-all :
    (s : Text) → all is_slug_byte s ≡ true → all is_slug_byte (trim_left_by is_hyphen s) ≡ true
unfolding trim_left_by
left-all [] h = refl
left-all (c ∷ s) h = ground (arith, left-all s)

left-any : (s : Text) → any is_alnum (trim_left_by is_hyphen s) ≡ any is_alnum s
unfolding trim_left_by is_alnum
left-any [] = refl
left-any (c ∷ s) = ground (arith, left-any s)

left-starts : (s : Text) → Slugs s → starts_by is_alnum (trim_left_by is_hyphen s) ≡ true
unfolding trim_left_by is_alnum
left-starts [] h = ground arith
left-starts (c ∷ s) h = ground (arith, left-starts s)

left-length : (s : Text) → length (trim_left_by is_hyphen s) ≤ length s
unfolding trim_left_by
left-length [] = omega arith
left-length (c ∷ s) = ground (arith, left-length s)

right-all :
    (s : Text) → all is_slug_byte s ≡ true → all is_slug_byte (trim_right_by is_hyphen s) ≡ true
unfolding trim_right_by
right-all [] h = refl
right-all (c ∷ s) h = ground (arith, right-all s)

right-any : (s : Text) → any is_alnum (trim_right_by is_hyphen s) ≡ any is_alnum s
unfolding trim_right_by is_alnum
right-any [] = refl
right-any (c ∷ s) = ground (arith, right-any s)

right-starts :
    (s : Text) → starts_by is_alnum s ≡ true → starts_by is_alnum (trim_right_by is_hyphen s) ≡ true
unfolding trim_right_by is_alnum
right-starts [] h = h
right-starts (c ∷ s) h = ground arith

right-tail :
    (s : Text)
    → all is_slug_byte s ≡ true
    → (trim_right_by is_hyphen s ≡ []) ⊎ (ends_by is_alnum (trim_right_by is_hyphen s) ≡ true)
unfolding trim_right_by is_alnum
right-tail [] h = inl refl
right-tail (c ∷ s) h = ground (arith, right-tail s)

any-nil : {s : Text} → s ≡ [] → any is_alnum s ≡ false
any-nil e = rw e

right-ends : (s : Text) → Slugs s → ends_by is_alnum (trim_right_by is_hyphen s) ≡ true
right-ends s h = elim (right-tail s h.bytes) [
  | inl gone ↦ cc (any-nil gone, right-any s, h.named)
  | inr back ↦ back
]

right-length : (s : Text) → length (trim_right_by is_hyphen s) ≤ length s
unfolding trim_right_by
right-length [] = omega arith
right-length (c ∷ s) = ground (arith, right-length s)

-- A text of slug bytes that are not all hyphens begins and ends with none when it is trimmed.
pub trim_byte-IsTidy : (s : Text) → Slugs s → IsTidy (trim_byte b'-' s)
unfolding trim_byte
trim_byte-IsTidy s h =
    let t = trim_left_by is_hyphen s in
    let slugs : Slugs t = record { bytes = left-all s h.bytes; named = left-any s ∙ h.named } in
    record {
      bytes = right-all t slugs.bytes;
      front = right-starts t (left-starts s h);
      back = right-ends t slugs;
    }

pub length-trim_byte-le : (s : Text) → length (trim_byte b'-' s) ≤ length s
unfolding trim_byte
length-trim_byte-le s = omega (arith, left-length s, right-length (trim_left_by is_hyphen s))

-- Of hyphens alone nothing is left.
pub trim_byte_hyphens :
    (s : Text) → all is_slug_byte s ≡ true → any is_alnum s ≡ false → trim_byte b'-' s ≡ []
unfolding trim_byte trim_left_by trim_right_by is_alnum
trim_byte_hyphens [] h g = refl
trim_byte_hyphens (c ∷ s) h g = ground (arith, trim_byte_hyphens s)
