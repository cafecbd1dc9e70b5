-- ===== src/Provisioner/Slugs.antt =====
-- provisioner.go: `retiredSlug`, which frees a machine's slug when it is retired.
use reach.Base.{
  ℕ, zero, suc, ◌+◌, ◌≤◌, ◌<◌, ◌≡◌, refl, ◌∙◌, ◌⊎◌, inl, inr, Bool, true, false, not, ◌&&◌, List,
  [], ◌∷◌, ◌++◌, Option, none, some, arith, ltb, if◌then◌else◌, length, take, any, all, Text, codes,
  same, trim_byte, Bool-cases, length-append, all-append, all-take, length-take-le,
}
use reach.Base.Result.{Result, ok, err}
use reach.Model.{Machine}
use reach.Security.Slug.{normalize_slug, valid_slug, is_alnum, is_slug_byte, starts_by, ends_by}
use reach.Security.Slug.Normal.{normalize_slug-front, starts-any, starts-take}
use reach.Security.Slug.Trimming.{trim_byte-IsTidy, length-trim_byte-le}

abbrev pub suffix_len : ℕ
suffix_len = 10 + 8

abbrev pub cut_base : Text → Text
cut_base base = if ltb 14 (length base) then trim_byte b'-' (take 14 base) else base

-- `base`, once it is cut to leave room for the suffix.
unfoldable pub retired_base : Text → Text
unfolding normalize_slug trim_byte
retired_base original =
    let base = cut_base (normalize_slug original) in
    if ltb (length base) 3 then codes "box" else base

abbrev pub candidate : Text → Text → Text
candidate base short = base ++ (codes "--retired-" ++ short)

-- `SELECT id FROM machines WHERE slug=? AND id<>?` finds a row.
abbrev pub slug_held : Text → Text → List Machine → Bool
slug_held slug id = any (λ m. same m.slug slug && not (same m.id id))

pub data SlugError : Type 0 where
  no_random exhausted : SlugError

-- The loop of at most 20 rounds; the i-th round draws `shorts i`.
unfoldable pub retired_slug_loop :
    (ℕ → Option Text) → List Machine → Text → Text → ℕ → ℕ → Result SlugError Text
unfolding valid_slug
retired_slug_loop shorts machines base id zero i = err exhausted
retired_slug_loop shorts machines base id (suc n) i =
    let again = retired_slug_loop shorts machines base id n (i + 1) in
    elim (shorts i) [
      | none ↦ err no_random
      | some short ↦
          if valid_slug (candidate base short) && not (slug_held (candidate base short) id machines)
          then ok (candidate base short)
          else again
    ]

unfoldable pub retired_slug : (ℕ → Option Text) → List Machine → Text → Text → Result SlugError Text
unfolding retired_slug_loop retired_base
retired_slug shorts machines original id =
    retired_slug_loop shorts machines (retired_base original) id 20 0

-- What `RandomShortID` returns: eight letters or digits.
pub record IsShort (short : Text) : Type 0 where
  pub eight : length short ≡ 8
  pub bytes : all is_alnum short ≡ true

abbrev pub GivesShorts : (ℕ → Option Text) → Type 0
GivesShorts shorts = (i : ℕ) → (short : Text) × (shorts i ≡ some short) × IsShort short

-- A text that can stand in front of the suffix.
pub record IsBase (s : Text) : Type 0 where
  bytes : all is_slug_byte s ≡ true
  front : starts_by is_alnum s ≡ true
  room : length s ≤ 14

cut_base-IsBase :
    (s : Text) → all is_slug_byte s ≡ true → starts_by is_alnum s ≡ true → IsBase (cut_base s)
cut_base-IsBase s h g = elim (Bool-cases (ltb 14 (length s))) [
  | inl long ↦
      let tidy = trim_byte-IsTidy (take 14 s) (record {
        bytes = all-take is_slug_byte 14 s h;
        named = starts-any (take 14 s) (starts-take 13 s g);
      }) in
      rw long (record {
        bytes = tidy.bytes;
        front = tidy.front;
        room = omega (arith, length-trim_byte-le (take 14 s), length-take-le 14 s);
      })
  | inr fits ↦ rw fits (record { bytes = h; front = g; room = ground arith })
]

box-IsBase : IsBase (codes "box")
unfolding is_alnum
box-IsBase = record { bytes = refl; front = refl; room = omega arith }

pub retired_base-IsBase : (original : Text) → IsBase (retired_base original)
unfolding retired_base
retired_base-IsBase original =
    let (bytes, front) = normalize_slug-front original in
    let cut = cut_base-IsBase (normalize_slug original) bytes front in
    elim (Bool-cases (ltb (length (cut_base (normalize_slug original))) 3)) [
      | inl small ↦ rw small box-IsBase
      | inr large ↦ rw large cut
    ]

ends-append :
    (p : ℕ → Bool) (xs : Text) (y : ℕ) (ys : Text) → ends_by p (xs ++ y ∷ ys) ≡ ends_by p (y ∷ ys)
ends-append p [] y ys = refl
ends-append p (x ∷ []) y ys = refl
ends-append p (x ∷ x' ∷ xs) y ys = ends-append p (x' ∷ xs) y ys

starts-append :
    (p : ℕ → Bool) (xs ys : Text) → starts_by p xs ≡ true → starts_by p (xs ++ ys) ≡ true
starts-append p [] ys h = cc
starts-append p (x ∷ xs) ys h = h

alnum-slug : (s : Text) → all is_alnum s ≡ true → all is_slug_byte s ≡ true
alnum-slug [] h = refl
alnum-slug (c ∷ s) h = ground (arith, alnum-slug s)

alnum-ends : (c : ℕ) (s : Text) → all is_alnum (c ∷ s) ≡ true → ends_by is_alnum (c ∷ s) ≡ true
alnum-ends c [] h = ground arith
alnum-ends c (d ∷ s) h = ground (arith, alnum-ends d s)

suffix_front : all is_slug_byte (codes "--retired-") ≡ true
unfolding is_alnum
suffix_front = refl

candidate_ends :
    (base : Text) (short : Text) → IsShort short → ends_by is_alnum (candidate base short) ≡ true
candidate_ends base [] h = absurd (omega (arith, h.eight))
candidate_ends base (c ∷ s) h =
    ends-append is_alnum base b'-' (codes "-retired-" ++ c ∷ s)
    ∙ ends-append is_alnum (codes "--retired-") c s
    ∙ alnum-ends c s h.bytes

-- Every candidate is a slug, so that the loop never skips a round for its form.
pub candidate_valid :
    (base short : Text) → IsBase base → IsShort short → valid_slug (candidate base short) ≡ true
unfolding valid_slug
candidate_valid base short b h = ground (
  arith,
  length-append base (codes "--retired-" ++ short),
  length-append (codes "--retired-") short,
  all-append is_slug_byte base (codes "--retired-" ++ short),
  all-append is_slug_byte (codes "--retired-") short,
  suffix_front,
  alnum-slug short h.bytes,
  starts-append is_alnum base (codes "--retired-" ++ short) b.front,
  candidate_ends base short h,
  h.eight,
  b.room,
  b.bytes,
)

-- The outcome of the loop from its i-th round on, with n rounds left.
abbrev pub SlugSpec :
    (ℕ → Option Text) → List Machine → Text → Text → ℕ → ℕ → Result SlugError Text → Type 0
SlugSpec shorts machines base id n i (ok slug) =
    (valid_slug slug ≡ true) × (slug_held slug id machines ≡ false)
SlugSpec shorts machines base id n i (err exhausted) =
    (j : ℕ)
    → i ≤ j
    → j < i + n
    → (short : Text) × (shorts j ≡ some short)
      × (slug_held (candidate base short) id machines ≡ true)
SlugSpec shorts machines base id n i (err no_random) = ⊥

split_round : {i j : ℕ} → i ≤ j → (i ≡ j) ⊎ (i + 1 ≤ j)
split_round h = omega arith

SlugSpec-later :
    (shorts : ℕ → Option Text) (machines : List Machine) (base id : Text) (n i : ℕ) (short : Text)
    (r : Result SlugError Text)
    → shorts i ≡ some short
    → slug_held (candidate base short) id machines ≡ true
    → SlugSpec shorts machines base id n (i + 1) r
    → SlugSpec shorts machines base id (suc n) i r
SlugSpec-later shorts machines base id n i short (ok slug) drawn held h = h
SlugSpec-later shorts machines base id n i short (err exhausted) drawn held h = λ j l u.
    elim (split_round l) [ inl e ↦ (short, rw (← e) drawn, held) | inr l' ↦ h j l' (omega arith) ]
SlugSpec-later shorts machines base id n i short (err no_random) drawn held h = h

retired_slug_loop_lem :
    (shorts : ℕ → Option Text) (machines : List Machine) (base id : Text) (n i : ℕ)
    → GivesShorts shorts
    → IsBase base
    → SlugSpec shorts machines base id n i (retired_slug_loop shorts machines base id n i)
unfolding retired_slug_loop
retired_slug_loop_lem shorts machines base id zero i gives b = λ j l u. absurd (omega arith)
retired_slug_loop_lem shorts machines base id (suc n) i gives b =
    let (short, drawn, is_short) = gives i in
    let valid = candidate_valid base short b is_short in
    elim (Bool-cases (slug_held (candidate base short) id machines)) [
      | inl held ↦
          rw (drawn, retired_slug_loop)
            (rw (valid, held)
              (SlugSpec-later shorts machines base id n i short _ drawn held
                (retired_slug_loop_lem shorts machines base id n (i + 1) gives b)))
      | inr free ↦ rw (drawn, retired_slug_loop) (rw (valid, free) (valid, free))
    ]

-- Where random short names can be drawn, `retiredSlug` gives a slug that `ValidateSlug` accepts and
-- that no other machine has, whatever the original slug was; it gives up only where another machine
-- has the candidate of each of the 20 rounds.
pub retired_slug_lem :
    (shorts : ℕ → Option Text) (machines : List Machine) (original id : Text)
    → GivesShorts shorts
    → SlugSpec shorts machines
        (retired_base original)
        id
        20
        0
        (retired_slug shorts machines original id)
unfolding retired_slug
retired_slug_lem shorts machines original id gives =
    retired_slug_loop_lem shorts machines (retired_base original) id 20 0 gives
      (retired_base-IsBase original)
