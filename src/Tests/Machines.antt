-- ===== src/Tests/Machines.antt =====
-- The provisioner's theorems at a hub with one machine.
use reach.Base.Int.{ℤ}
use reach.Base.{◌≡◌, refl, Bool, true, false, some, find, Text, codes, same}
use reach.Model.Words.{DesiredState, ObservedState}
use reach.Provisioner.Desired.Access.{IsClosed, set_desired_state-IsClosed}
use reach.Provisioner.Desired.Rows.{RowSpec, set_desired_state-RowSpec}
use reach.Provisioner.Desired.{Draws, set_desired_state}
use reach.Provisioner.Observed.Probes.{idle, run_health_check-idle}
use reach.Provisioner.Observed.States.{Shows, observe-Shows}
use reach.Provisioner.Observed.{Sight, observe, run_health_check}
use reach.Store.{has_id, tunnels_of}
use reach.Tests.Data.{db, machine}

abbrev pub draws : Draws
draws = record {
  now = 100;
  first_id = some (codes "c_1");
  second_id = some (codes "c_2");
  shorts = λ i. some (codes "abcd1234");
  renames = λ user. true;
}

set_desired_state-IsClosed_example :
    IsClosed draws.renames db.accounts
      (codes "m_1")
      (tunnels_of db (codes "m_1"))
      (set_desired_state draws (codes "box-1") (some DesiredState.disabled) (codes "ann") db).0
unfolding same
set_desired_state-IsClosed_example =
    set_desired_state-IsClosed draws (codes "box-1") (codes "ann") DesiredState.disabled machine db
      refl refl

set_desired_state-RowSpec_example :
    RowSpec DesiredState.retiring 2 100
      (codes "ann")
      (codes "m_1")
      (find (has_id (codes "m_1")) db.machines)
      (find
        (has_id (codes "m_1"))
        (set_desired_state draws
          (codes "box-1")
          (some DesiredState.retiring)
          (codes "ann")
          db).0.machines)
unfolding same
set_desired_state-RowSpec_example =
    set_desired_state-RowSpec draws (codes "box-1") (codes "ann") DesiredState.retiring machine db
      (codes "m_1") refl refl

abbrev seen : Sight
seen = record {
  heartbeat = some 990;
  agent_tunnel = codes "connected";
  local_ssh = codes "healthy";
  probe = codes "reachable";
}

observe-Shows_example : Shows 60 1000 seen (observe 60 1000 seen)
observe-Shows_example = observe-Shows 60 1000 seen

observe_test : observe 60 1000 seen ≡ ObservedState.online
unfolding observe same
observe_test = refl

abbrev answer : ℤ → Bool × Text
answer port = (false, codes "refused")

run_health_check-idle_example : idle (run_health_check 60 1000 answer db).tunnels ≡ idle db.tunnels
run_health_check-idle_example = run_health_check-idle 60 1000 answer db
