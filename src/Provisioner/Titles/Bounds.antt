-- ===== src/Provisioner/Titles/Bounds.antt =====
-- provisioner.go: a cut title is a valid beginning of the title, and what is stored is within bounds.
use reach.Base.Result.{Result, ok}
use reach.Base.Utf8.{trim_space, valid_utf8, runes, runes_after}
use reach.Base.Int.{ℤ}
use reach.Base.{
  ℕ, zero, suc, ◌≤◌, ◌≡◌, refl, inl, inr, Bool, true, false, ◌||◌, List, [], ◌∷◌, ◌++◌, Option,
  none, some, arith, ltb, leb, ◌==◌, if◌then◌else◌, length, take, drop, all, Text, same, Bool-cases,
  length-take-le, take-append-drop,
}
use mathlib.Core.List.{append-nil}
use mathlib.Core.Path.{subst}
use reach.Model.Agent.{ProcessTitleConfig}
use reach.Provisioner.Titles.{
  max_title_bytes, last_rune_size, shorter, truncate_loop, truncate_utf8, clean_title, clean_titles,
  no_nul, cut_title, TitleError, counted, cleaned, normalize_titles,
}

shorter_lower : (s : Text) (n : ℕ) → ltb 0 n ≡ true → suc (shorter s n) ≤ n
shorter_lower s n h = elim (Bool-cases (last_rune_size (take n s) == 0)) [
  | inl z ↦ ground arith
  | inr z ↦ elim (Bool-cases (ltb n (last_rune_size (take n s)))) [
    | inl b ↦ ground arith
    | inr b ↦ ground arith
  ]
]

valid_empty : (s : Text) → valid_utf8 (take 0 s) ≡ true
unfolding valid_utf8 runes runes_after
valid_empty s = refl

-- The loop ends at a valid beginning, with as much fuel as bytes.
truncate_loop_lem :
    (k : ℕ) (s : Text) (n : ℕ)
    → n ≤ k
    → (valid_utf8 (take (truncate_loop k s n) s) ≡ true) × (truncate_loop k s n ≤ n)
unfolding truncate_loop
truncate_loop_lem zero s n h =
    let nothing : n ≡ 0 = omega arith in rw nothing (valid_empty s, omega arith)
truncate_loop_lem (suc k) s n h = elim (Bool-cases (ltb 0 n)) [
  | inr z ↦
      let nothing : n ≡ 0 = ground arith in rw (nothing, truncate_loop) (valid_empty s, omega arith)
  | inl z ↦ elim (Bool-cases (valid_utf8 (take n s))) [
    | inl v ↦ (ground (arith, z, v), ground (arith, z, v))
    | inr v ↦
        let less = shorter_lower s n z in
        let rest = truncate_loop_lem k s (shorter s n) (omega (arith, less)) in
        (ground (arith, z, v, rest.0), ground (arith, z, v, rest.1, less))
  ]
]

-- A cut title is not longer than the bound, and is a beginning of the title; where the title was
-- longer than the bound, what is left is valid UTF-8, whatever the title was.
pub truncate_utf8_lem :
    (s : Text) (max : ℕ)
    → (length (truncate_utf8 s max) ≤ max)
      × ((rest : Text) × (truncate_utf8 s max ++ rest ≡ s))
      × ((leb (length s) max || valid_utf8 (truncate_utf8 s max)) ≡ true)
unfolding truncate_utf8
truncate_utf8_lem s max = elim (Bool-cases (max == 0)) [
  | inl z ↦ (ground (arith, z), (s, ground (arith, z)), ground (arith, z, valid_empty s))
  | inr z ↦ elim (Bool-cases (leb (length s) max)) [
    | inl l ↦
        (ground (arith, z, l), ([], rw (z, l, truncate_utf8) (append-nil s)), ground (arith, l))
    | inr l ↦
        let (valid, low) = truncate_loop_lem max s max (omega arith) in
        let cut = truncate_loop max s max in
        (
          ground (arith, z, l, low, length-take-le cut s),
          (drop cut s, rw (z, l, truncate_utf8) (take-append-drop cut s)),
          ground (arith, z, l, valid),
        )
  ]
]

length-cut_title : (max : ℕ) (s : Text) → length (cut_title max s) ≤ max
unfolding cut_title
length-cut_title max s = ground (arith, (truncate_utf8_lem s max).0)

abbrev fits : Text → Bool
fits t = leb (length t) max_title_bytes

le_fits : (t : Text) → length t ≤ max_title_bytes → fits t ≡ true
le_fits t h = ground arith

clean_title_fits : (s : Text) → length (clean_title s) ≤ max_title_bytes
unfolding clean_title
clean_title_fits s = length-cut_title max_title_bytes (trim_space (no_nul s))

kept_or_dropped :
    (b : Bool) (t : Text) (ts : List Text)
    → fits t ≡ true
    → all fits ts ≡ true
    → all fits (if b then ts else t ∷ ts) ≡ true
kept_or_dropped true t ts a h = h
kept_or_dropped false t ts a h = ground (arith, a, h)

clean_titles_fit : (ts : List Text) → all fits (clean_titles ts) ≡ true
unfolding clean_titles
clean_titles_fit [] = refl
clean_titles_fit (t ∷ ts) =
    kept_or_dropped (same (trim_space (no_nul t)) []) (clean_title t) (clean_titles ts)
      (le_fits (clean_title t) (clean_title_fits t)) (clean_titles_fit ts)

single_title_fits :
    (b : Bool) (s : Text) → length (if b then [] else clean_title s) ≤ max_title_bytes
single_title_fits true s = omega arith
single_title_fits false s = clean_title_fits s

counted-ok :
    (e : Option TitleError) (c out : ProcessTitleConfig)
    → counted e c ≡ ok (some out)
    → (c ≡ out) × (length c.process_titles ≤ 20)
counted-ok none c out h = (ground (arith, h), ground (arith, h))
counted-ok (some e) c out h = cc

otherwise :
    (b : Bool) (r : Result TitleError (Option ProcessTitleConfig)) (out : ProcessTitleConfig)
    → (if b then ok none else r) ≡ ok (some out)
    → r ≡ ok (some out)
otherwise true r out h = cc
otherwise false r out h = h

-- What is stored as the titles of a process: a title of at most 4096 bytes, and at most 20 titles of
-- at most 4096 bytes each.
pub normalize_titles-bounds :
    (parse : Text → Option ℤ) (cfg out : ProcessTitleConfig)
    → normalize_titles parse cfg ≡ ok (some out)
    → (length out.process_title ≤ 4096)
      × (length out.process_titles ≤ 20)
      × (all (λ t. leb (length t) 4096) out.process_titles ≡ true)
unfolding normalize_titles
normalize_titles-bounds parse cfg out h =
    let (e, few) = counted-ok _ (cleaned cfg) out (otherwise _ _ out h) in
    subst
      (λ c.
        (length c.process_title ≤ 4096)
        × (length c.process_titles ≤ 20)
        × (all (λ t. leb (length t) 4096) c.process_titles ≡ true))
      e
      (
        single_title_fits (same cfg.process_title []) cfg.process_title,
        few,
        clean_titles_fit cfg.process_titles,
      )
