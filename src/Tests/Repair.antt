-- ===== src/Tests/Repair.antt =====
-- The repair of retired rows at the start of the hub, on a hub with one row left behind.
use reach.Base.Int.{pos, negsuc, same_ℤ, is_positive}
use reach.Base.Result.{ok}
use reach.Base.{
  ℕ, ◌≡◌, refl, true, List, [], ◌∷◌, Option, some, all, select, Text, codes, same, contains,
  has_prefix,
}
use reach.Model.Words.{DesiredState, TunnelStatus}
use reach.Model.{Machine, Tunnel}
use reach.Provisioner.Repair.Released.{
  is_settled, release_retired_tunnels_lem, store_retired_slug-agrees,
}
use reach.Provisioner.Repair.Renamed.{is_renamed, release_retired_slugs_lem}
use reach.Provisioner.Repair.{
  is_gone_tunnel, release_tunnel, release_loop, release_retired_tunnels, release_retired_slugs,
  release_slugs_loop, store_base, store_slug_loop, store_retired_slug,
}
use reach.Provisioner.Retire.{unique_tunnels}
use reach.Provisioner.Slugs.{GivesShorts, retired_slug}
use reach.Security.Slug.{is_alnum}
use reach.Tests.Data.{machine, tunnel}

abbrev left_behind : Tunnel
left_behind = record tunnel {
  id = codes "t_2";
  unix_user = codes "rt-old";
  status = TunnelStatus.retired;
  remote_port = pos 9161;
}

abbrev tunnels : List Tunnel
tunnels = tunnel ∷ left_behind ∷ []

abbrev repaired : List Tunnel
repaired = (release_retired_tunnels tunnels).0

repaired_test : release_retired_tunnels tunnels ≡ (
  tunnel ∷ record left_behind { unix_user = codes "retired-t_2"; remote_port = negsuc 0 } ∷ [],
  ok tt,
)
unfolding release_retired_tunnels release_loop release_tunnel same has_prefix same_ℤ is_positive
repaired_test = refl

release_retired_tunnels_lem_example :
    (all is_settled repaired ≡ true)
    × (unique_tunnels repaired ≡ true)
    × (release_loop (select is_gone_tunnel repaired) repaired ≡ (repaired, ok tt))
unfolding release_retired_tunnels unique_tunnels same same_ℤ release_loop release_tunnel has_prefix
    is_positive
release_retired_tunnels_lem_example = release_retired_tunnels_lem tunnels refl refl

abbrev short_names : ℕ → Option Text
short_names i = some (codes "abcd1234")

short_names-GivesShorts : GivesShorts short_names
unfolding is_alnum
short_names-GivesShorts = λ i. (codes "abcd1234", refl, record { eight = refl; bytes = refl })

abbrev gone_machines : List Machine
gone_machines = record machine { desired_state = DesiredState.retired } ∷ []

release_retired_slugs_lem_example :
    all is_renamed (release_retired_slugs (λ i. short_names) gone_machines).0 ≡ true
unfolding release_retired_slugs release_slugs_loop store_retired_slug store_slug_loop contains
    has_prefix same store_base
release_retired_slugs_lem_example = release_retired_slugs_lem (λ i. short_names) gone_machines refl

store_retired_slug-agrees_example :
    store_retired_slug short_names (machine ∷ []) (codes "box-1") (codes "m_2")
    ≡ retired_slug short_names (machine ∷ []) (codes "box-1") (codes "m_2")
store_retired_slug-agrees_example =
    store_retired_slug-agrees short_names (machine ∷ []) (codes "box-1") (codes "m_2")
      short_names-GivesShorts
