-- ===== src/Provisioner/Repair.antt =====
-- db.go: `releaseRetiredTunnels` and `releaseRetiredSlugs`, which the hub runs at each start: they free
-- the ports, the account names and the slugs that retired rows still hold.
pub mod Released
pub mod Renamed
use reach.Base.Int.{ℤ, pos, same_ℤ}
use reach.Base.Result.{Result, ok, err}
use reach.Base.{
  ℕ, zero, suc, ◌+◌, Bool, true, false, not, ◌&&◌, ◌||◌, List, [], ◌∷◌, Option, none, some,
  if◌then◌else◌, any, map, select, update, Text, codes, same, contains, ltb, length, take,
  trim_byte,
}
use reach.Model.Words.{DesiredState, MachineStatus, is_retired_tunnel}
use reach.Model.{Machine, Tunnel}
use reach.Provisioner.Retire.{
  text_or, is_tunnel, retired_user, retired_port, unique_tunnels, min_negative,
}
use reach.Security.Slug.{normalize_slug}
use reach.Provisioner.Slugs.{SlugError, candidate, slug_held}

pub data RepairError : Type 0 where
  not_stored : RepairError
  no_slug : SlugError → RepairError

-- The two statements that fill in what a tunnel had at first.
abbrev pub first_user : Tunnel → Tunnel
first_user t = record t { original_unix_user = some (text_or t.original_unix_user t.unix_user) }

abbrev first_port_of : Option ℤ → ℤ → ℤ
first_port_of none p = p
first_port_of (some q) p = if same_ℤ q (pos 0) then p else q

abbrev pub first_port : Tunnel → Tunnel
first_port t = record t {
  original_remote_port = some (first_port_of t.original_remote_port t.remote_port);
}

abbrev pub moved_row : Text → ℤ → Tunnel → Tunnel
moved_row user port row = record row { unix_user = user; remote_port = port }

abbrev pub is_same_place : List Tunnel → Tunnel → Bool
is_same_place tunnels t =
    same (retired_user t) t.unix_user && same_ℤ (retired_port tunnels t) t.remote_port

-- The table after one round, unless the UPDATE would break a constraint.
unfoldable pub release_tunnel : List Tunnel → Tunnel → Option (List Tunnel)
unfolding unique_tunnels min_negative
release_tunnel tunnels t =
    let after =
      update (is_tunnel t.id) (moved_row (retired_user t) (retired_port tunnels t)) tunnels in
    if is_same_place tunnels t
    then some tunnels
    else if unique_tunnels after
    then some after
    else none

-- The loop over the rows as they were read.
unfoldable pub release_loop :
    List Tunnel → List Tunnel → List Tunnel × Result RepairError (Unit {0})
release_loop [] tunnels = (tunnels, ok tt)
release_loop (t ∷ ts) tunnels = elim (release_tunnel tunnels t) [
  | none ↦ (tunnels, err not_stored)
  | some after ↦ release_loop ts after
]

abbrev pub is_gone_tunnel : Tunnel → Bool
is_gone_tunnel t = is_retired_tunnel t.status

abbrev pub filled : List Tunnel → List Tunnel
filled tunnels = map first_port (map first_user tunnels)

unfoldable pub release_retired_tunnels : List Tunnel → List Tunnel × Result RepairError (Unit {0})
unfolding is_retired_tunnel
release_retired_tunnels tunnels =
    release_loop (select is_gone_tunnel (filled tunnels)) (filled tunnels)

-- The loop of the store's own `retiredSlug`, which does not check the candidate's form.
unfoldable pub store_slug_loop :
    (ℕ → Option Text) → List Machine → Text → Text → ℕ → ℕ → Result SlugError Text
unfolding same
store_slug_loop shorts machines base id zero i = err SlugError.exhausted
store_slug_loop shorts machines base id (suc n) i =
    let again = store_slug_loop shorts machines base id n (i + 1) in
    elim (shorts i) [
      | none ↦ err SlugError.no_random
      | some short ↦
          if not (slug_held (candidate base short) id machines)
          then ok (candidate base short)
          else again
    ]

-- The store's own copy of the base's computation.
unfoldable pub store_base : Text → Text
unfolding normalize_slug trim_byte
store_base original =
    let slug = normalize_slug original in
    let base = if ltb 14 (length slug) then trim_byte b'-' (take 14 slug) else slug in
    if ltb (length base) 3 then codes "box" else base

unfoldable pub store_retired_slug :
    (ℕ → Option Text) → List Machine → Text → Text → Result SlugError Text
store_retired_slug shorts machines original id =
    store_slug_loop shorts machines (store_base original) id 20 0

unfoldable pub is_retired_machine : DesiredState → MachineStatus → Bool
is_retired_machine DesiredState.retired s = true
is_retired_machine d MachineStatus.retired = true
is_retired_machine d s = false

abbrev pub is_gone_machine : Machine → Bool
is_gone_machine m = is_retired_machine m.desired_state m.status

-- `COALESCE(NULLIF(original_slug,''),slug)`
abbrev pub original_of : Machine → Text
original_of m = text_or m.original_slug m.slug

abbrev pub is_marked : Text → Bool
is_marked slug = contains slug (codes "--retired-")

abbrev pub renamed_row : Text → Text → Machine → Machine
renamed_row slug original m = record m { slug = slug; original_slug = some original }

abbrev pub has_machine_id : Text → Machine → Bool
has_machine_id id m = same m.id id

-- The rounds draw from sources of their own.
unfoldable pub release_slugs_loop :
    (ℕ → ℕ → Option Text)
    → ℕ
    → List Machine
    → List Machine
    → List Machine × Result RepairError (Unit {0})
unfolding contains same
release_slugs_loop draws i [] machines = (machines, ok tt)
release_slugs_loop draws i (m ∷ ms) machines =
    if is_marked m.slug
    then release_slugs_loop draws (i + 1) ms machines
    else elim (store_retired_slug (draws i) machines (original_of m) m.id) [
      | err e ↦ (machines, err (no_slug e))
      | ok next ↦
          release_slugs_loop draws (i + 1) ms
            (update (has_machine_id m.id) (renamed_row next (original_of m)) machines)
    ]

unfoldable pub release_retired_slugs :
    (ℕ → ℕ → Option Text) → List Machine → List Machine × Result RepairError (Unit {0})
unfolding is_retired_machine
release_retired_slugs draws machines =
    release_slugs_loop draws 0 (select is_gone_machine machines) machines
