-- ===== src/Provisioner/Repair/Released.antt =====
-- db.go: what the repair of retired tunnels and slugs leaves behind.
use reach.Base.Int.{same_ℤ, same_ℤ_iff, is_positive}
use reach.Base.Result.{ok}
use reach.Base.{
  ℕ, zero, suc, ◌+◌, ◌≡◌, refl, sym, ap, ◌∙◌, ◌⊎◌, inl, inr, Bool, true, false, not, ◌&&◌, ◌||◌,
  List, [], ◌∷◌, Option, some, arith, if◌then◌else◌, any, all, map, select, update, Text, codes,
  same, has_prefix, Bool-cases, all_weaken, any-map, Option-cases, same_iff, same_refl,
}
use reach.Model.{Machine, Tunnel}
use reach.Provisioner.Retire.{
  is_tunnel, retired_user, retired_port, unique_tunnels, clash, below-min_negative_free,
}
use reach.Provisioner.Repair.{
  first_port, first_user, moved_row, is_same_place, release_tunnel, release_loop, is_gone_tunnel,
  filled, release_retired_tunnels, store_base, store_slug_loop, store_retired_slug,
}
use reach.Provisioner.Slugs.{
  candidate, candidate_valid, slug_held, retired_base, retired_base-IsBase, GivesShorts, IsBase,
  retired_slug_loop, retired_slug,
}

-- A tunnel that holds neither a port nor an account name that a live tunnel could take.
abbrev pub is_released : Tunnel → Bool
is_released t = not (is_positive t.remote_port) && has_prefix t.unix_user (codes "retired-")

abbrev pub is_settled : Tunnel → Bool
is_settled t = not (is_gone_tunnel t) || is_released t

-- The row that the loop has read is the table's row still.
abbrev matches : Tunnel → Tunnel → Bool
matches u t = same u.id t.id && (same t.unix_user u.unix_user && same_ℤ t.remote_port u.remote_port)

abbrev covered : List Tunnel → Tunnel → Bool
covered todo u = is_settled u || any (matches u) todo

retired_user_prefix : (t : Tunnel) → has_prefix (retired_user t) (codes "retired-") ≡ true
unfolding has_prefix
retired_user_prefix t = elim (Bool-cases (has_prefix t.unix_user (codes "retired-"))) [
  | inl h ↦ rw h h
  | inr h ↦ rw h refl
]

retired_port_low : (ts : List Tunnel) (t : Tunnel) → is_positive (retired_port ts t) ≡ false
retired_port_low ts t = elim (Bool-cases (is_positive t.remote_port)) [
  | inl h ↦ rw h (below-min_negative_free t.hub_id ts).1
  | inr h ↦ rw h h
]

-- What holds of each changed row, and of each other row, holds of all rows.
pub all-update_to {ℓ} :
    {A : Type ℓ} (p : A → Bool) (f : A → A) (q r : A → Bool)
    → ((x : A) → q x ≡ true → p x ≡ true → r (f x) ≡ true)
    → ((x : A) → q x ≡ true → p x ≡ false → r x ≡ true)
    → (xs : List A) → all q xs ≡ true
    → all r (update p f xs) ≡ true
all-update_to p f q r changed kept [] h = refl
all-update_to p f q r changed kept (x ∷ xs) h =
    ground (arith, changed x, kept x, all-update_to p f q r changed kept xs)

moved-settled :
    (ts : List Tunnel) (t u : Tunnel)
    → is_settled (moved_row (retired_user t) (retired_port ts t) u) ≡ true
moved-settled ts t u = ground (arith, retired_port_low ts t, retired_user_prefix t)

same_place-released :
    (ts : List Tunnel) (t u : Tunnel)
    → is_same_place ts t ≡ true
    → matches u t ≡ true
    → is_released u ≡ true
same_place-released ts t u here m = grind (
  arith,
  same_iff (retired_user t) t.unix_user,
  same_ℤ_iff (retired_port ts t) t.remote_port,
  same_iff t.unix_user u.unix_user,
  same_ℤ_iff t.remote_port u.remote_port,
  retired_port_low ts t,
  retired_user_prefix t,
)

covered-same_place :
    (ts : List Tunnel) (t : Tunnel) (todo : List Tunnel) (u : Tunnel)
    → is_same_place ts t ≡ true
    → covered (t ∷ todo) u ≡ true
    → covered todo u ≡ true
covered-same_place ts t todo u here h = ground (arith, same_place-released ts t u here)

abbrev moved_table : List Tunnel → Tunnel → List Tunnel
moved_table ts t = update (is_tunnel t.id) (moved_row (retired_user t) (retired_port ts t)) ts

release_tunnel-cases :
    (ts : List Tunnel) (t : Tunnel) {after : List Tunnel}
    → release_tunnel ts t ≡ some after
    → ((ts ≡ after) × (is_same_place ts t ≡ true))
      ⊎ ((moved_table ts t ≡ after) × (unique_tunnels (moved_table ts t) ≡ true))
unfolding release_tunnel
release_tunnel-cases ts t e = ground arith

covered-moved :
    (ts : List Tunnel) (t : Tunnel) (todo : List Tunnel)
    → all (covered (t ∷ todo)) ts ≡ true
    → all (covered todo) (moved_table ts t) ≡ true
covered-moved ts t todo =
    all-update_to (is_tunnel t.id) (moved_row (retired_user t) (retired_port ts t))
      (covered (t ∷ todo)) (covered todo) (λ u h p. ground (arith, moved-settled ts t u))
      (λ u h p. ground arith) ts

covered-release_tunnel :
    (ts : List Tunnel) (t : Tunnel) (todo : List Tunnel) {after : List Tunnel}
    → all (covered (t ∷ todo)) ts ≡ true
    → release_tunnel ts t ≡ some after
    → all (covered todo) after ≡ true
covered-release_tunnel ts t todo h e = elim (release_tunnel-cases ts t e) [
  | inl (kept, here) ↦ rw (← kept) (
      all_weaken (covered (t ∷ todo)) (covered todo) (λ u c. covered-same_place ts t todo u here c)
        ts h)
  | inr (moved, _) ↦ rw (← moved) (covered-moved ts t todo h)
]

-- Where the loop succeeds, so does its first round.
release_loop-cases :
    (t : Tunnel) (todo ts : List Tunnel)
    → (release_loop (t ∷ todo) ts).1 ≡ ok tt
    → (after : List Tunnel) × (release_tunnel ts t ≡ some after)
      × (release_loop (t ∷ todo) ts ≡ release_loop todo after)
unfolding release_loop
release_loop-cases t todo ts e = elim (Option-cases (release_tunnel ts t)) [
  | inl refused ↦ ground (arith, refused, e)
  | inr (after, stored) ↦ (after, stored, rw (stored, release_loop) refl)
]

covered-release_loop :
    (todo ts : List Tunnel)
    → all (covered todo) ts ≡ true
    → (release_loop todo ts).1 ≡ ok tt
    → all is_settled (release_loop todo ts).0 ≡ true
unfolding release_loop
covered-release_loop [] ts h e = all_weaken (covered []) is_settled (λ u c. ground (arith, c)) ts h
covered-release_loop (t ∷ todo) ts h e =
    let (after, stored, next) = release_loop-cases t todo ts e in
    let rest =
      covered-release_loop todo after (covered-release_tunnel ts t todo h stored)
        (ap (λ r. r.1) (sym next) ∙ e) in
    rw next rest

-- Each row that passes the test is found among the selected rows.
pub select-covered {ℓ} :
    {A : Type ℓ} (p : A → Bool) (r : A → A → Bool)
    → ((x : A) → r x x ≡ true)
    → (xs : List A) → all (λ u. not (p u) || any (r u) (select p xs)) xs ≡ true
select-covered p r self [] = refl
select-covered p r self (x ∷ xs) =
    let rest =
      all_weaken (λ u. not (p u) || any (r u) (select p xs))
        (λ u. not (p u) || any (r u) (select p (x ∷ xs))) (λ u h. ground (arith, h)) xs
        (select-covered p r self xs) in
    ground (arith, rest, self x)

matches_self : (t : Tunnel) → matches t t ≡ true
matches_self t =
    ground (arith, same_refl t.id, same_refl t.unix_user, same_ℤ_iff t.remote_port t.remote_port)

select-covers : (ts : List Tunnel) → all (covered (select is_gone_tunnel ts)) ts ≡ true
select-covers ts =
    let todo = select is_gone_tunnel ts in
    all_weaken (λ u. not (is_gone_tunnel u) || any (matches u) todo) (covered todo)
      (λ u h. ground (arith, h)) ts (select-covered is_gone_tunnel matches matches_self ts)

released-same_place :
    (ts : List Tunnel) (t : Tunnel) → is_released t ≡ true → is_same_place ts t ≡ true
released-same_place ts t h =
    ground (arith, same_refl t.unix_user, same_ℤ_iff t.remote_port t.remote_port)

release_loop-released :
    (todo ts : List Tunnel) → all is_released todo ≡ true → release_loop todo ts ≡ (ts, ok tt)
unfolding release_loop release_tunnel
release_loop-released [] ts h = refl
release_loop-released (t ∷ todo) ts h =
    rw (release_loop, released-same_place ts t (ground arith))
      (release_loop-released todo ts (ground arith))

settled-select :
    (ts : List Tunnel)
    → all is_settled ts ≡ true
    → all is_released (select is_gone_tunnel ts) ≡ true
settled-select [] h = refl
settled-select (t ∷ ts) h = ground (arith, settled-select ts)

unique-release_tunnel :
    (ts : List Tunnel) (t : Tunnel) {after : List Tunnel}
    → unique_tunnels ts ≡ true
    → release_tunnel ts t ≡ some after
    → unique_tunnels after ≡ true
unique-release_tunnel ts t u e = elim (release_tunnel-cases ts t e) [
  | inl (kept, _) ↦ rw (← kept) u
  | inr (moved, unique) ↦ rw (← moved) unique
]

unique-release_loop :
    (todo ts : List Tunnel)
    → unique_tunnels ts ≡ true
    → (release_loop todo ts).1 ≡ ok tt
    → unique_tunnels (release_loop todo ts).0 ≡ true
unfolding release_loop
unique-release_loop [] ts u e = u
unique-release_loop (t ∷ todo) ts u e =
    let (after, stored, next) = release_loop-cases t todo ts e in
    let rest =
      unique-release_loop todo after (unique-release_tunnel ts t u stored)
        (ap (λ r. r.1) (sym next) ∙ e) in
    rw next rest

unique-filled : (ts : List Tunnel) → unique_tunnels (filled ts) ≡ unique_tunnels ts
unfolding unique_tunnels
unique-filled [] = refl
unique-filled (t ∷ ts) =
    ap (λ b. not b && unique_tunnels (filled ts))
      (any-map first_port (clash t) (map first_user ts) ∙ any-map first_user (clash t) ts)
    ∙ ap (λ b. not (any (clash t) ts) && b) (unique-filled ts)

-- A repair of the retired tunnels that meets no refused statement leaves every retired tunnel without
-- a positive port and with an account name under `retired-`, keeps ports and names unique on each
-- hub, and a second run of its loop over the table that it leaves changes nothing.
pub release_retired_tunnels_lem :
    (ts : List Tunnel)
    → unique_tunnels ts ≡ true
    → (release_retired_tunnels ts).1 ≡ ok tt
    → (all is_settled (release_retired_tunnels ts).0 ≡ true)
      × (unique_tunnels (release_retired_tunnels ts).0 ≡ true)
      × (release_loop
            (select is_gone_tunnel (release_retired_tunnels ts).0)
            (release_retired_tunnels ts).0
          ≡ ((release_retired_tunnels ts).0, ok tt))
unfolding release_retired_tunnels
release_retired_tunnels_lem ts u e =
    let settled =
      covered-release_loop (select is_gone_tunnel (filled ts)) (filled ts)
        (select-covers (filled ts)) e in
    let after = (release_retired_tunnels ts).0 in
    (
      settled,
      unique-release_loop (select is_gone_tunnel (filled ts)) (filled ts) (unique-filled ts ∙ u) e,
      release_loop-released (select is_gone_tunnel after) after (settled-select after settled),
    )

store_slug_loop-agrees :
    (shorts : ℕ → Option Text) (machines : List Machine) (base id : Text) (n i : ℕ)
    → GivesShorts shorts
    → IsBase base
    → store_slug_loop shorts machines base id n i ≡ retired_slug_loop shorts machines base id n i
unfolding store_slug_loop retired_slug_loop
store_slug_loop-agrees shorts machines base id zero i gives b = refl
store_slug_loop-agrees shorts machines base id (suc n) i gives b =
    let (short, drawn, is_short) = gives i in
    rw (drawn, store_slug_loop, retired_slug_loop)
      (rw (candidate_valid base short b is_short) (
        ap
          (λ r.
            if not (slug_held (candidate base short) id machines)
            then ok (candidate base short)
            else r)
          (store_slug_loop-agrees shorts machines base id n (i + 1) gives b)))

-- Where random short names can be drawn, the store's `retiredSlug`, which skips the check of the
-- candidate's form, gives what the provisioner's gives, a refusal included.
pub store_retired_slug-agrees :
    (shorts : ℕ → Option Text) (machines : List Machine) (original id : Text)
    → GivesShorts shorts
    → store_retired_slug shorts machines original id ≡ retired_slug shorts machines original id
unfolding store_retired_slug retired_slug store_base retired_base
store_retired_slug-agrees shorts machines original id gives =
    store_slug_loop-agrees shorts machines (retired_base original) id 20 0 gives
      (retired_base-IsBase original)
