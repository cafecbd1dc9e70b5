-- ===== src/Provisioner/Accounts.antt =====
-- provisioner.go: `enableTunnelAuth`, `disableTunnelAuth` and `removeTunnelSystem`, on the accounts
-- of the hub host. The processes that `killUser` ends are not part of the state.
use reach.Base.{
  Bool, true, false, not, ◌&&◌, List, [], ◌∷◌, if◌then◌else◌, all, select, update, Text, same,
}
use reach.Model.{Tunnel}
use reach.Security.Tokens.{valid_unix_user}
use reach.Store.{Account}

abbrev pub is_account : Text → Account → Bool
is_account user a = same a.unix_user user

-- `os.Rename(ak, ak+".disabled")`, where `authorized_keys` is there; the code drops its error, and so
-- the file stays where `renames` does not hold of the account.
abbrev pub hide_keys : (Text → Bool) → Account → Account
hide_keys renames a =
    if a.keys && renames a.unix_user then record a { keys = false; disabled_keys = true } else a

-- The renaming back, where `authorized_keys` is missing and the other file is there.
abbrev pub show_keys : (Text → Bool) → Account → Account
show_keys renames a =
    if not a.keys && a.disabled_keys && renames a.unix_user
    then record a { keys = true; disabled_keys = false }
    else a

unfoldable pub disable_tunnel_auth : (Text → Bool) → Tunnel → List Account → List Account
disable_tunnel_auth renames t accounts =
    if valid_unix_user t.unix_user
    then update (is_account t.unix_user) (hide_keys renames) accounts
    else accounts

unfoldable pub enable_tunnel_auth : (Text → Bool) → Tunnel → List Account → List Account
enable_tunnel_auth renames t accounts =
    if valid_unix_user t.unix_user
    then update (is_account t.unix_user) (show_keys renames) accounts
    else accounts

unfoldable pub remove_tunnel_system : Text → List Account → List Account
remove_tunnel_system user accounts =
    if valid_unix_user user then select (λ a. not (is_account user a)) accounts else accounts

-- The loops over a machine's tunnels.
unfoldable pub disable_all : (Text → Bool) → List Tunnel → List Account → List Account
unfolding disable_tunnel_auth
disable_all renames [] accounts = accounts
disable_all renames (t ∷ ts) accounts =
    disable_all renames ts (disable_tunnel_auth renames t accounts)

unfoldable pub enable_all : (Text → Bool) → List Tunnel → List Account → List Account
unfolding enable_tunnel_auth
enable_all renames [] accounts = accounts
enable_all renames (t ∷ ts) accounts = enable_all renames ts (enable_tunnel_auth renames t accounts)

-- No account of this name lets its tunnel in.
abbrev pub shut : Text → List Account → Bool
shut user accounts = all (λ a. not (is_account user a && a.keys)) accounts
