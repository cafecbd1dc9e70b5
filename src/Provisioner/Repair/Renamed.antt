-- ===== src/Provisioner/Repair/Renamed.antt =====
-- db.go: what the repair of retired slugs leaves behind.
use reach.Base.Result.{Result, ok, err, Result-cases}
use reach.Base.{
  ℕ, zero, suc, ◌+◌, ◌≡◌, refl, inl, inr, Bool, true, false, not, ◌&&◌, ◌||◌, List, [], ◌∷◌, ◌++◌,
  Option, arith, any, all, select, update, Text, codes, same, has_prefix, contains, Bool-cases,
  Option-cases, all_weaken, same_iff, same_refl,
}
use reach.Model.{Machine}
use reach.Provisioner.Repair.Released.{all-update_to, select-covered}
use reach.Provisioner.Repair.{
  RepairError, no_slug, original_of, is_marked, is_gone_machine, has_machine_id, renamed_row,
  store_base, store_slug_loop, store_retired_slug, release_slugs_loop, release_retired_slugs,
}
use reach.Provisioner.Slugs.{candidate, slug_held, SlugError}

-- A retired machine's slug carries the mark.
abbrev pub is_renamed : Machine → Bool
is_renamed m = not (is_gone_machine m) || is_marked m.slug

abbrev is_as_read : Machine → Machine → Bool
is_as_read u m = same u.id m.id && same m.slug u.slug

abbrev seen : List Machine → Machine → Bool
seen todo u = is_renamed u || any (is_as_read u) todo

prefix_self : (p r : Text) → has_prefix (p ++ r) p ≡ true
unfolding has_prefix
prefix_self [] [] = refl
prefix_self [] (c ∷ r) = refl
prefix_self (c ∷ p) r = ground (arith, prefix_self p r)

contains-prefix : (s sub : Text) → has_prefix s sub ≡ true → contains s sub ≡ true
unfolding contains
contains-prefix [] sub h = h
contains-prefix (c ∷ s) sub h = ground (arith, h)

contains-append : (base s sub : Text) → contains s sub ≡ true → contains (base ++ s) sub ≡ true
unfolding contains
contains-append [] s sub h = h
contains-append (c ∷ base) s sub h = ground (arith, contains-append base s sub h)

candidate-marked : (base short : Text) → is_marked (candidate base short) ≡ true
candidate-marked base short =
    let mark = codes "--retired-" in
    contains-append base (mark ++ short) mark
      (contains-prefix (mark ++ short) mark (prefix_self mark short))

-- The slug of a result, where there is one, is marked.
abbrev Marked : Result SlugError Text → Type 0
Marked (ok slug) = is_marked slug ≡ true
Marked (err e) = Unit {0}

Marked-ok :
    (r : Result SlugError Text) {slug : Text} → Marked r → r ≡ ok slug → is_marked slug ≡ true
Marked-ok (ok s) h e = cc
Marked-ok (err why) h e = cc

store_slug_loop-Marked :
    (shorts : ℕ → Option Text) (machines : List Machine) (base id : Text) (n i : ℕ)
    → Marked (store_slug_loop shorts machines base id n i)
unfolding store_slug_loop
store_slug_loop-Marked shorts machines base id zero i = tt
store_slug_loop-Marked shorts machines base id (suc n) i = elim (Option-cases (shorts i)) [
  | inl dry ↦ rw (dry, store_slug_loop) tt
  | inr (short, drawn) ↦ elim (Bool-cases (slug_held (candidate base short) id machines)) [
    | inl held ↦
        rw (drawn, store_slug_loop)
          (rw held (store_slug_loop-Marked shorts machines base id n (i + 1)))
    | inr free ↦ rw (drawn, store_slug_loop) (rw free (candidate-marked base short))
  ]
]

store_retired_slug-marked :
    (shorts : ℕ → Option Text) (machines : List Machine) (original id : Text) {slug : Text}
    → store_retired_slug shorts machines original id ≡ ok slug
    → is_marked slug ≡ true
unfolding store_retired_slug
store_retired_slug-marked shorts machines original id e =
    Marked-ok (store_retired_slug shorts machines original id)
      (store_slug_loop-Marked shorts machines (store_base original) id 20 0) e

seen-marked :
    (m : Machine) (todo : List Machine) (u : Machine)
    → is_marked m.slug ≡ true
    → seen (m ∷ todo) u ≡ true
    → seen todo u ≡ true
seen-marked m todo u marked h = grind (arith, same_iff m.slug u.slug)

seen-renamed :
    (m : Machine) (next : Text) (todo machines : List Machine)
    → is_marked next ≡ true
    → all (seen (m ∷ todo)) machines ≡ true
    → all (seen todo) (update (has_machine_id m.id) (renamed_row next (original_of m)) machines)
      ≡ true
seen-renamed m next todo machines marked =
    all-update_to (has_machine_id m.id) (renamed_row next (original_of m)) (seen (m ∷ todo))
      (seen todo) (λ u h p. ground (arith, marked)) (λ u h p. ground arith) machines

module _ (draws : ℕ → ℕ → Option Text) (i : ℕ) (m : Machine) (todo machines : List Machine) where
  round_marked :
      is_marked m.slug ≡ true
      → release_slugs_loop draws i (m ∷ todo) machines
        ≡ release_slugs_loop draws (i + 1) todo machines
  unfolding release_slugs_loop
  round_marked marked = rw (release_slugs_loop, marked) refl

  round_drawn :
      {next : Text}
      → is_marked m.slug ≡ false
      → store_retired_slug (draws i) machines (original_of m) m.id ≡ ok next
      → release_slugs_loop draws i (m ∷ todo) machines
        ≡ release_slugs_loop draws
            (i + 1)
            todo
            (update (has_machine_id m.id) (renamed_row next (original_of m)) machines)
  unfolding release_slugs_loop
  round_drawn plain drawn = rw (release_slugs_loop, plain, drawn) refl

  round_failed :
      {e : SlugError}
      → is_marked m.slug ≡ false
      → store_retired_slug (draws i) machines (original_of m) m.id ≡ err e
      → release_slugs_loop draws i (m ∷ todo) machines ≡ (machines, err (no_slug e))
  unfolding release_slugs_loop
  round_failed plain failed = rw (release_slugs_loop, plain, failed) refl

-- What a table has after the loop, where the loop succeeds.
abbrev Repaired : List Machine × Result RepairError (Unit {0}) → Type 0
Repaired r = r.1 ≡ ok tt → all is_renamed r.0 ≡ true

release_slugs_loop-renamed :
    (draws : ℕ → ℕ → Option Text) (i : ℕ) (todo machines : List Machine)
    → all (seen todo) machines ≡ true
    → Repaired (release_slugs_loop draws i todo machines)
unfolding release_slugs_loop
release_slugs_loop-renamed draws i [] machines h =
    λ e. all_weaken (seen []) is_renamed (λ u c. ground (arith, c)) machines h
release_slugs_loop-renamed draws i (m ∷ todo) machines h = elim (Bool-cases (is_marked m.slug)) [
  | inl marked ↦ rw (round_marked draws i m todo machines marked) (
      release_slugs_loop-renamed draws (i + 1) todo machines
        (all_weaken (seen (m ∷ todo)) (seen todo) (λ u. seen-marked m todo u marked) machines h))
  | inr plain ↦ elim (Result-cases (store_retired_slug (draws i) machines (original_of m) m.id)) [
    | inl (next, drawn) ↦ rw (round_drawn draws i m todo machines plain drawn) (
        release_slugs_loop-renamed draws (i + 1) todo _ (
          seen-renamed m next todo machines
            (store_retired_slug-marked (draws i) machines (original_of m) m.id drawn) h))
    | inr (why, failed) ↦ rw (round_failed draws i m todo machines plain failed) (λ e. cc)
  ]
]

select-seen :
    (machines : List Machine) → all (seen (select is_gone_machine machines)) machines ≡ true
select-seen machines =
    let todo = select is_gone_machine machines in
    all_weaken (λ u. not (is_gone_machine u) || any (is_as_read u) todo) (seen todo)
      (λ u h. ground (arith, h)) machines
      (select-covered is_gone_machine is_as_read
        (λ u. ground (arith, same_refl u.id, same_refl u.slug)) machines)

-- After a repair of the retired slugs that does not fail, the slug of every machine whose desired
-- state or status is retired contains `--retired-`.
pub release_retired_slugs_lem :
    (draws : ℕ → ℕ → Option Text) (machines : List Machine)
    → (release_retired_slugs draws machines).1 ≡ ok tt
    → all is_renamed (release_retired_slugs draws machines).0 ≡ true
unfolding release_retired_slugs
release_retired_slugs_lem draws machines =
    release_slugs_loop-renamed draws 0 (select is_gone_machine machines) machines
      (select-seen machines)
