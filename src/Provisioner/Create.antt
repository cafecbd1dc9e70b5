-- ===== src/Provisioner/Create.antt =====
-- provisioner.go: `CreateMachine`. `createSystemAccount` reports whether it has made the account.
mod Rows
unfoldable pub use Rows.*
use reach.Base.Int.{ℤ, pos, same_ℤ}
use reach.Base.Result.{Result, ok, err, guard, ◌>>=◌, ◌>>◌}
use reach.Base.{
  ℕ, ◌+◌, Bool, true, false, ◌||◌, [], ◌∷◌, ◌++◌, Option, none, some, ltb, if◌then◌else◌, any, find,
  update, Text, codes, same,
}
use reach.Model.Words.{
  DesiredState, ObservedState, MachineStatus, TunnelStatus, UpdatePolicy, CleanupState,
}
use reach.Model.{Machine, Hub, Tunnel, Time}
use reach.Provisioner.Accounts.{remove_tunnel_system}
use reach.Provisioner.Ports.{allocate_port}
use reach.Provisioner.Retire.{clash, is_tunnel}
use reach.Security.Secrets.{Crypto, hash_secret}
use reach.Security.Slug.{valid_slug}
use reach.Security.Tokens.{valid_target_user}
use reach.Store.{Account, Db, get_machine, has_id, nullable, audit}

-- The last steps, behind the account.
unfoldable pub complete :
    Host → Hub → Text → ℕ → Machine → Tunnel → Db → Db × Result CreateError CreateMachineResult
complete host hub token port m t db =
    let db' =
      audit (codes "machine.create") (codes "system") m.id (details host m.slug t.unix_user port)
        host.now (record db { machines = update (has_id m.id) (ready_row host.now) db.machines }) in
    (
      db',
      ok (record {
        machine = get_machine db' m.id;
        tunnel = find (is_tunnel t.id) db'.tunnels;
        hub = hub;
        agent_token = token;
      }),
    )

-- An account with its `authorized_keys`.
abbrev pub new_account : Text → Account
new_account user = record { unix_user = user; keys = true; disabled_keys = false }

-- What follows the transaction.
unfoldable pub provision :
    Config
    → Host
    → Hub
    → Text
    → ℕ
    → Machine
    → Tunnel
    → Db
    → Db × Result CreateError CreateMachineResult
unfolding complete remove_tunnel_system
provision cfg host hub token port m t db =
    if cfg.provisioning_enabled
    then elim host.account_error [
      | none ↦
          complete host hub token port m t
            (record db { accounts = db.accounts ++ new_account t.unix_user ∷ [] })
      | some message ↦
          let db' = mark_provision_failed m.id t.id message host.now db in
          (
            record db' { accounts = remove_tunnel_system t.unix_user db'.accounts },
            err (no_account message),
          )
    ]
    else complete host hub token port m t db

-- The transaction, and what follows it.
unfoldable pub insert_and_provision :
    Config
    → Host
    → CreateMachineInput
    → Text
    → Text
    → Text
    → Text
    → Text
    → Db
    → Db × Result CreateError CreateMachineResult
unfolding insert_rows provision allocate_port
insert_and_provision cfg host input machine tunnel short token hash db =
    elim (find (λ h. same h.id input.hub_id) db.hubs) [
      | none ↦ (db, err no_hub)
      | some hub ↦ elim (allocate_port host.listening db.tunnels hub) [
        | none ↦ (db, err no_port)
        | some port ↦
            let m = new_machine input machine hash host.now in
            let t = new_tunnel input tunnel machine hub (codes "rt-" ++ short) port host.now in
            elim (insert_rows m t db) [
              | none ↦ (db, err constraint)
              | some db' ↦ provision cfg host hub token port m t db'
            ]
      ]
    ]

abbrev drawn : {A : Type 0} → Option A → Result CreateError A
drawn none = err no_random
drawn (some a) = ok a

-- The tests of the input and the draws.
abbrev pub check_input :
    Crypto → Host → CreateMachineInput → Result CreateError (Text × Text × Text × Text × Text)
check_input c host input = do
  guard (valid_slug input.slug) bad_slug
  guard (valid_target_user input.target_user) bad_target_user
  guard (host.parses_key input.pubkey) bad_pubkey
  machine ← drawn host.machine_id
  tunnel ← drawn host.tunnel_id
  short ← drawn host.short
  token ← drawn host.agent_token
  hash ← drawn (hash_secret c host.salt token)
  ok (machine, tunnel, short, token, hash)

unfoldable pub create_machine :
    Crypto → Config → Host → CreateMachineInput → Db → Db × Result CreateError CreateMachineResult
unfolding insert_and_provision
create_machine c cfg host input db = elim (check_input c host input) [
  | err e ↦ (db, err e)
  | ok (machine, tunnel, short, token, hash) ↦
      insert_and_provision cfg host (with_defaults cfg host.now input) machine tunnel short token
        hash db
]
