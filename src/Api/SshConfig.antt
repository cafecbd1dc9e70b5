-- ===== src/Api/SshConfig.antt =====
-- api.go: `GenerateSSHConfig`, `sshConfigClientOptions` and `sshOptionsSignature`. What
-- `json.Unmarshal` reads as the client options of a heartbeat's text is an argument.
pub mod Lines
use reach.Base.Int.{ℤ, decimal_ℤ}
use reach.Base.Result.{Result, ok, err, ◌>>=◌, ◌>>◌, guard}
use reach.Base.Sort.{sort_by, le_text}
use reach.Base.Split.{unlines}
use reach.Base.Strings.{cut, join}
use reach.Base.Utf8.{trim_space}
use reach.Base.{
  Bool, true, false, not, ◌&&◌, ◌||◌, List, [], ◌∷◌, ◌++◌, Option, none, some, if◌then◌else◌, any,
  find, select, gather, map, Text, codes, same, contains_any,
}
use reach.Model.Words.{is_active, is_reachable, is_usable}
use reach.Model.{Machine, Hub, Tunnel, AgentObservation}
use reach.Security.Slug.{valid_slug}
use reach.Security.Tokens.{valid_ssh_config_token}
use reach.Store.{Db}

-- The names that an agent may set.
abbrev pub allowed_options : List Text
allowed_options =
    codes "KexAlgorithms"
    ∷ codes "HostKeyAlgorithms"
    ∷ codes "PubkeyAcceptedAlgorithms"
    ∷ codes "PubkeyAcceptedKeyTypes"
    ∷ codes "Ciphers"
    ∷ codes "MACs"
    ∷ []

abbrev pub is_allowed_option : Text → Bool
is_allowed_option name = any (same name) allowed_options

abbrev pub option_blanks : Text
option_blanks = codes " \t\r\n"

-- An option that is kept.
unfoldable pub keep_option : Text × Text → List (Text × Text)
unfolding same contains_any
keep_option (name, value) =
    if not (is_allowed_option name) || same value [] || contains_any value option_blanks
    then []
    else (name, value) ∷ []

unfoldable pub read_option : Text → List (Text × Text)
unfolding keep_option cut trim_space
read_option opt = elim (cut b'=' (trim_space opt)) [ none ↦ [] | some o ↦ keep_option o ]

unfoldable pub ssh_config_client_options : (Text → Option (List Text)) → Text → List (Text × Text)
unfolding read_option trim_space same
ssh_config_client_options options_of raw =
    if same (trim_space raw) []
    then []
    else elim (options_of raw) [ none ↦ [] | some opts ↦ gather read_option opts ]

unfoldable pub ssh_options_signature : (Text → Option (List Text)) → Text → Text
unfolding ssh_config_client_options join
ssh_options_signature options_of raw =
    join (codes ";") (map (λ o. o.0 ++ codes "=" ++ o.1) (ssh_config_client_options options_of raw))

-- A row of the query.
pub record HostRow : Type 0 where
  pub id : Text
  pub slug : Text
  pub target_user : Text
  pub remote_port : ℤ
  pub proxyjump_alias : Text
  pub raw_json : Text

abbrev null_text : Option Text → Text
null_text none = []
null_text (some s) = s

abbrev raw_of : Option AgentObservation → Text
raw_of none = []
raw_of (some a) = a.raw_json

abbrev pub is_listed : Machine → Bool
is_listed m = is_active m.desired_state && is_reachable m.observed_state

abbrev carries : Text → Tunnel → Bool
carries id t = same t.machine_id id && is_usable t.status

unfoldable pub host_rows_of : Db → Machine → List HostRow
unfolding same is_usable
host_rows_of db m =
    gather
      (λ t.
        map
          (λ h. record {
            id = m.id;
            slug = m.slug;
            target_user = null_text m.target_user;
            remote_port = t.remote_port;
            proxyjump_alias = h.proxyjump_alias;
            raw_json = raw_of (find (λ a. same a.machine_id m.id) db.agents);
          })
          (select (λ h. same h.id t.hub_id) db.hubs))
      (select (carries m.id) db.tunnels)

-- The rows of the query: a machine with each of its tunnels and the tunnel's hub, in the order of
-- the slugs.
unfoldable pub host_rows : Db → List HostRow
unfolding host_rows_of sort_by le_text is_active is_reachable
host_rows db =
    sort_by (λ a b. le_text a.slug b.slug) (gather (host_rows_of db) (select is_listed db.machines))

pub data SshError : Type 0 where
  bad_slug bad_target_user bad_proxyjump_alias : SshError

abbrev pub or_default : Text → Text → Text
or_default [] d = d
or_default (c ∷ s) d = c ∷ s

abbrev pub option_line : Text × Text → Text
option_line (name, value) = codes "    " ++ (name ++ (b' ' ∷ value))

module _ (options_of : Text → Option (List Text)) (default_alias : Text) where
  -- The lines that are written for a row.
  abbrev pub host_lines : HostRow → List Text
  host_lines r =
      (codes "Host " ++ r.slug)
      ∷ codes "    HostName localhost"
      ∷ (codes "    Port " ++ decimal_ℤ r.remote_port)
      ∷ (codes "    User " ++ or_default r.target_user (codes "root"))
      ∷ (codes "    ProxyJump " ++ or_default r.proxyjump_alias default_alias)
      ∷ (codes "    HostKeyAlias reach-" ++ r.id)
      ∷ codes "    StrictHostKeyChecking accept-new"
      ∷ (map option_line (ssh_config_client_options options_of r.raw_json) ++ [] ∷ [])

  abbrev pub check_row : HostRow → Result SshError (Unit {0})
  check_row r =
      guard (valid_slug r.slug) bad_slug
      >> guard (valid_ssh_config_token (or_default r.target_user (codes "root"))) bad_target_user
      >> guard (valid_ssh_config_token (or_default r.proxyjump_alias default_alias))
          bad_proxyjump_alias

  -- The loop over the rows, which the first bad row ends.
  unfoldable pub write_hosts : List HostRow → Result SshError (List Text)
  unfolding valid_slug valid_ssh_config_token decimal_ℤ ssh_config_client_options
  write_hosts [] = ok []
  write_hosts (r ∷ rs) =
      let later = write_hosts rs in check_row r >> (later >>= λ ls. ok (host_lines r ++ ls))

  abbrev pub head_lines : List Text
  head_lines =
      codes "# Generated by Reach. Do not edit by hand."
      ∷ codes "# Includes desired-active machines whose observed state is online/degraded."
      ∷ []
      ∷ []

  unfoldable pub generate_ssh_config : Db → Result SshError Text
  unfolding write_hosts host_rows unlines
  generate_ssh_config db = write_hosts (host_rows db) >>= λ ls. ok (unlines (head_lines ++ ls))
