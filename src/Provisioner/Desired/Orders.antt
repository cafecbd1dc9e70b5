-- ===== src/Provisioner/Desired/Orders.antt =====
-- provisioner.go: `SetDesiredState` touches the commands only by queueing some that order no update.
use reach.Base.Result.{Result, ok, err, Result-cases}
use reach.Base.{
  ℕ, ◌+◌, ◌≡◌, refl, inl, inr, false, List, [], ◌∷◌, Option, none, some, Text, Bool-cases,
  Option-cases,
}
use reach.Model.Agent.{AgentCommandInfo}
use reach.Model.Words.{DesiredState, CommandType, is_update}
use reach.Model.{Machine, Tunnel, Time}
use reach.Provisioner.Commands.{
  queue_command, or_same, enabled_payload, disabled_payload, uninstall_payload,
}
use reach.Provisioner.Desired.{
  Draws, Error, retire_tunnels, set_active, set_disabled, set_retiring, set_retired, change_desired,
  finish, set_desired_state, hour, day,
}
use reach.Provisioner.Retire.{text_or}
use reach.Provisioner.Slugs.{retired_slug, slug_held}
use reach.Store.{Db, get_machine, tunnels_of}

retire_tunnels_commands :
    (ts : List Tunnel) (db : Db) → (retire_tunnels ts db).commands ≡ db.commands
unfolding retire_tunnels
retire_tunnels_commands [] db = refl
retire_tunnels_commands (t ∷ ts) db = retire_tunnels_commands ts _

-- A property of the commands that lasts when a command is queued that orders no update.
abbrev pub Lasts {ℓ} : (List AgentCommandInfo → Type ℓ) → Type ℓ
Lasts P =
    (new_id : Option Text) (now : Time) (machine : Text) (gen : ℕ) (kind : CommandType)
    (payload : Option Text) (ttl : ℕ) (db : Db)
    → is_update kind ≡ false
    → P db.commands
    → P (or_same db (queue_command new_id now machine gen kind payload ttl db)).commands

module _ {ℓ} (P : List AgentCommandInfo → Type ℓ) (lasts : Lasts P) where
  change_desired_commands :
      (d : Draws) (actor : Text) (m : Machine) (desired : Option DesiredState) (db : Db)
      → P db.commands
      → P (change_desired d actor m desired db).0.commands
  unfolding change_desired set_active set_disabled set_retiring set_retired is_update
  change_desired_commands d actor m none db h = h
  change_desired_commands d actor m (some DesiredState.active) db h =
      let gen = m.desired_generation + 1 in
      lasts d.second_id d.now m.id gen CommandType.start_tunnel none hour _ refl
        (lasts d.first_id d.now m.id gen CommandType.sync_keys (some enabled_payload) hour _ refl h)
  change_desired_commands d actor m (some DesiredState.disabled) db h =
      let gen = m.desired_generation + 1 in
      lasts d.second_id d.now m.id gen CommandType.sync_keys (some disabled_payload) hour _ refl
        (lasts d.first_id d.now m.id gen CommandType.stop_tunnel none hour _ refl h)
  change_desired_commands d actor m (some DesiredState.retiring) db h =
      lasts d.first_id d.now m.id (m.desired_generation + 1) CommandType.uninstall
        (some uninstall_payload) day _ refl h
  change_desired_commands d actor m (some DesiredState.retired) db h =
      let db1 = retire_tunnels (tunnels_of db m.id) db in
      let same_commands = retire_tunnels_commands (tunnels_of db m.id) db in
      let original = text_or m.original_slug m.slug in
      let kept : P db1.commands = rw same_commands h in
      elim (Result-cases (retired_slug d.shorts db1.machines original m.id)) [
        | inr (e, r) ↦ rw (r, change_desired, set_retired) kept
        | inl (slug, r) ↦ elim (Bool-cases (slug_held slug m.id db1.machines)) [
          | inl s ↦ rw (r, s, change_desired, set_retired) kept
          | inr s ↦ rw (r, s, change_desired, set_retired) kept
        ]
      ]

  finish_commands :
      (d : Draws) (actor id : Text) (desired : Option DesiredState)
      (out : Db × Result Error (Unit {0}))
      → P out.0.commands
      → P (finish d actor id desired out).0.commands
  finish_commands d actor id desired (db, ok x) h = h
  finish_commands d actor id desired (db, err e) h = h

  pub set_desired_state_commands :
      (d : Draws) (key : Text) (desired : Option DesiredState) (actor : Text) (db : Db)
      → P db.commands
      → P (set_desired_state d key desired actor db).0.commands
  unfolding set_desired_state
  set_desired_state_commands d key desired actor db h = elim (Option-cases (get_machine db key)) [
    | inl f ↦ rw (f, set_desired_state) h
    | inr (m, f) ↦
        rw (f, set_desired_state)
          (finish_commands d actor m.id desired (change_desired d actor m desired db)
            (change_desired_commands d actor m desired db h))
  ]
