-- ===== src/Provisioner/Desired/Access.antt =====
-- provisioner.go: which tunnels of a machine that is disabled or retiring a key can still open.
use reach.Base.Result.{Result, ok, err}
use reach.Base.{
  ℕ, ◌≡◌, refl, ◌∙◌, Bool, true, false, not, ◌&&◌, ◌||◌, List, any, same, Bool-cases, same_iff,
  same_refl, inl, inr, [], ◌∷◌, Option, none, some, arith, all, update, All, Text,
}
use reach.Model.Words.{DesiredState, TunnelStatus, CommandType, is_disabled_tunnel}
use reach.Model.{Machine, Tunnel, Time}
use reach.Provisioner.Accounts.{disable_tunnel_auth, disable_all, hide_keys, is_account, shut}
use reach.Provisioner.Commands.{queue_command, or_same}
use reach.Provisioner.Desired.{
  Draws, Error, finish, of_machine, set_tunnel_status, set_disabled, set_retiring, change_desired,
  set_desired_state,
}
use reach.Security.Tokens.{valid_unix_user}
use reach.Store.{Account, Db, get_machine, tunnels_of}

shut-hide :
    (renames : Text → Bool) (user other : Text) (accounts : List Account)
    → shut user (update (is_account other) (hide_keys renames) accounts)
      ≡ ((same other user && renames user) || shut user accounts)
shut-hide renames user other [] = ground arith
shut-hide renames user other (a ∷ accounts) =
    let rest = shut-hide renames user other accounts in
    elim (Bool-cases (same a.unix_user other)) [
      | inr e ↦ elim (Bool-cases (same other user)) [
        | inr n ↦ ground (arith, rest, e, n)
        | inl n ↦
            let same_name : other ≡ user = (same_iff other user).0 n in
            let apart : same a.unix_user user ≡ false = rw (← same_name) e in
            ground (arith, rest, e, n, apart)
      ]
      | inl e ↦
          let named : a.unix_user ≡ other = (same_iff a.unix_user other).0 e in
          elim (Bool-cases (same other user)) [
            | inr n ↦ rw named (ground (arith, rest, n, same_refl other))
            | inl n ↦
                let same_name : other ≡ user = (same_iff other user).0 n in
                ground (arith, rest, n, e, named, same_name)
          ]
    ]

abbrev has_account : Text → Tunnel → Bool
has_account user t = same t.unix_user user

disable_tunnel_auth-shut :
    (renames : Text → Bool) (user : Text) (t : Tunnel) (accounts : List Account)
    → shut user (disable_tunnel_auth renames t accounts)
      ≡ ((has_account user t && (valid_unix_user user && renames user)) || shut user accounts)
unfolding disable_tunnel_auth
disable_tunnel_auth-shut renames user t accounts = elim (Bool-cases (has_account user t)) [
  | inr n ↦ ground (arith, n, shut-hide renames user t.unix_user accounts)
  | inl n ↦
      let named : t.unix_user ≡ user = (same_iff t.unix_user user).0 n in
      let one = shut-hide renames user user accounts in
      rw named (ground (arith, one, same_refl user))
]

disable_all-shut :
    (renames : Text → Bool) (user : Text) (ts : List Tunnel) (accounts : List Account)
    → shut user (disable_all renames ts accounts) ≡ (
        (any (has_account user) ts && (valid_unix_user user && renames user)) || shut user accounts)
unfolding disable_all
disable_all-shut renames user [] accounts = refl
disable_all-shut renames user (t ∷ ts) accounts =
    let rest = disable_all-shut renames user ts (disable_tunnel_auth renames t accounts) in
    ground (arith, rest, disable_tunnel_auth-shut renames user t accounts)

-- Whether a tunnel's account is shut after a call, from whether its name is good, whether its file
-- can be renamed, and whether it was shut before.
abbrev pub IsShut : (Text → Bool) → List Account → List Account → Tunnel → Type 0
IsShut renames before after t =
    shut t.unix_user after
    ≡ ((valid_unix_user t.unix_user && renames t.unix_user) || shut t.unix_user before)

disabled_all :
    (id : Text) (ts : List Tunnel)
    → all
        (λ t. not (of_machine id t) || is_disabled_tunnel t.status)
        (update (of_machine id) (set_tunnel_status TunnelStatus.disabled) ts)
      ≡ true
unfolding is_disabled_tunnel
disabled_all id [] = refl
disabled_all id (t ∷ ts) = ground (arith, disabled_all id ts)

queue_command_tunnels :
    (id : Option Text) (now : Time) (machine : Text) (gen : ℕ) (kind : CommandType)
    (payload : Option Text) (ttl : ℕ) (db : Db)
    → (or_same db (queue_command id now machine gen kind payload ttl db)).tunnels ≡ db.tunnels
unfolding queue_command
queue_command_tunnels none now machine gen kind payload ttl db = refl
queue_command_tunnels (some id) now machine gen kind payload ttl db = ground arith

queue_command_accounts :
    (id : Option Text) (now : Time) (machine : Text) (gen : ℕ) (kind : CommandType)
    (payload : Option Text) (ttl : ℕ) (db : Db)
    → (or_same db (queue_command id now machine gen kind payload ttl db)).accounts ≡ db.accounts
unfolding queue_command
queue_command_accounts none now machine gen kind payload ttl db = refl
queue_command_accounts (some id) now machine gen kind payload ttl db = ground arith

abbrev pub closes : DesiredState → Bool
closes DesiredState.disabled = true
closes DesiredState.retiring = true
closes _ = false

-- The tunnels of the machine after the change, and the accounts.
pub record IsClosed (renames : Text → Bool) (before : List Account) (id : Text) (ts : List Tunnel)
    (db : Db) : Type 0 where
  pub disabled : all (λ t. not (of_machine id t) || is_disabled_tunnel t.status) db.tunnels ≡ true
  pub locked : All (IsShut renames before db.accounts) ts

disable_all-among :
    (renames : Text → Bool) (ts more : List Tunnel) (accounts : List Account)
    → ((user : Text) → any (has_account user) ts ≡ true → any (has_account user) more ≡ true)
    → All (IsShut renames accounts (disable_all renames more accounts)) ts
disable_all-among renames [] more accounts h = tt
disable_all-among renames (t ∷ ts) more accounts h = (
  disable_all-shut renames t.unix_user more accounts
      ∙ ground (arith, h t.unix_user (ground (arith, same_refl t.unix_user))),
  disable_all-among renames ts more accounts (λ user e. h user (ground (arith, e))),
)

disable_all-IsShut :
    (renames : Text → Bool) (ts : List Tunnel) (accounts : List Account)
    → All (IsShut renames accounts (disable_all renames ts accounts)) ts
disable_all-IsShut renames ts accounts = disable_all-among renames ts ts accounts (λ user e. e)

change_desired-IsClosed :
    (d : Draws) (actor : Text) (m : Machine) (desired : DesiredState) (db : Db)
    → closes desired ≡ true
    → IsClosed d.renames db.accounts m.id
        (tunnels_of db m.id)
        (change_desired d actor m (some desired) db).0
unfolding change_desired set_disabled set_retiring
change_desired-IsClosed d actor m DesiredState.active db h = cc
change_desired-IsClosed d actor m DesiredState.disabled db h = record {
  disabled = simp queue_command_tunnels (disabled_all m.id db.tunnels);
  locked =
      simp queue_command_accounts (disable_all-IsShut d.renames (tunnels_of db m.id) db.accounts);
}
change_desired-IsClosed d actor m DesiredState.retiring db h = record {
  disabled = simp queue_command_tunnels (disabled_all m.id db.tunnels);
  locked =
      simp queue_command_accounts (disable_all-IsShut d.renames (tunnels_of db m.id) db.accounts);
}
change_desired-IsClosed d actor m DesiredState.retired db h = cc

finish_keeps :
    (d : Draws) (actor id : Text) (desired : Option DesiredState) (ts : List Tunnel)
    (before : List Account) (r : Db × Result Error (Unit {0}))
    → IsClosed d.renames before id ts r.0
    → IsClosed d.renames before id ts (finish d actor id desired r).0
finish_keeps d actor id desired ts before (db, err e) h = h
finish_keeps d actor id desired ts before (db, ok _) h = record {
  disabled = h.disabled;
  locked = h.locked;
}

finish-IsClosed :
    (d : Draws) (key actor : Text) (desired : Option DesiredState) (m : Machine) (ts : List Tunnel)
    (before : List Account) (db : Db)
    → get_machine db key ≡ some m
    → IsClosed d.renames before m.id ts (change_desired d actor m desired db).0
    → IsClosed d.renames before m.id ts (set_desired_state d key desired actor db).0
unfolding set_desired_state
finish-IsClosed d key actor desired m ts before db e h =
    rw (e, set_desired_state)
      (finish_keeps d actor m.id desired ts before (change_desired d actor m desired db) h)

-- After `SetDesiredState` to disabled or retiring, at a machine that is there, every tunnel of that
-- machine has the status disabled, and the hub account that carries one of its tunnels is without an
-- `authorized_keys` file exactly where it was so before or where `ValidateUnixUser` accepts its name
-- and the file can be renamed; the code drops an error of the renaming, and the file stays.
pub set_desired_state-IsClosed :
    (d : Draws) (key actor : Text) (desired : DesiredState) (m : Machine) (db : Db)
    → closes desired ≡ true
    → get_machine db key ≡ some m
    → IsClosed d.renames db.accounts m.id
        (tunnels_of db m.id)
        (set_desired_state d key (some desired) actor db).0
set_desired_state-IsClosed d key actor desired m db shuts e =
    finish-IsClosed d key actor (some desired) m (tunnels_of db m.id) db.accounts db e
      (change_desired-IsClosed d actor m desired db shuts)
