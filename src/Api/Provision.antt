-- ===== src/Api/Provision.antt =====
-- api.go: `handleClientProvision` and `validateApprovedMetadata`.
pub mod Effect
use reach.Api.Requests.{is_request, update_requests, set_status, ConsumeError, consume_setup_token}
use reach.Base.Int.{ℤ, pos, same_ℤ}
use reach.Base.Result.{Result, ok, err}
use reach.Base.Utf8.{trim_space}
use reach.Base.{
  ℕ, Bool, true, false, not, ◌&&◌, ◌||◌, List, [], ◌∷◌, Option, none, some, ltb, if◌then◌else◌,
  find, length, update, Text, codes, same,
}
use reach.Model.Words.{RequestStatus, is_provisioning}
use reach.Model.{Machine, Request}
use reach.Provisioner.Create.{
  CreateError, CreateMachineInput, CreateMachineResult, Config, Host, create_machine,
}
use reach.Security.Secrets.{Crypto}
use reach.Security.Slug.{valid_slug, normalize_slug}
use reach.Store.{Db, Invite, publish}

pub record ProvisionRequest : Type 0 where
  pub setup_token : Text
  pub request_id : Text
  pub slug : Text
  pub display_name : Text
  pub target_user : Text
  pub pubkey : Text
  pub mode : Text
  pub persistence : Text
  pub distro : Text
  pub arch : Text
  pub local_port : ℤ

-- What `json.Unmarshal` makes of a request's metadata: the values of its keys that are strings, and
-- `local_port` where it is a number, cut to an integer.
pub record Wanted : Type 0 where
  pub text : Text → Option Text
  pub local_port : Option ℤ

pub data ProvisionReply : Type 0 where
  bad_request client_auth server_error : ProvisionReply
  done : CreateMachineResult → ProvisionReply

-- Both are given, and differ.
unfoldable pub differs : Option Text → Text → Bool
unfolding same trim_space
differs none got = false
differs (some want) got =
    not (same (trim_space want) [])
    && not (same (trim_space got) [])
    && not (same (trim_space want) (trim_space got))

abbrev port_differs : Option ℤ → ℤ → Bool
port_differs none got = false
port_differs (some want) got =
    not (same_ℤ want (pos 0)) && not (same_ℤ got (pos 0)) && not (same_ℤ got want)

unfoldable pub matches : Wanted → ProvisionRequest → Bool
unfolding differs
matches want req =
    not (
      differs (want.text (codes "target_user")) req.target_user
      || differs (want.text (codes "slug")) req.slug
      || differs (want.text (codes "mode")) req.mode
      || differs (want.text (codes "distro")) req.distro
      || differs (want.text (codes "arch")) req.arch)
    && not (port_differs want.local_port req.local_port)

unfoldable pub validate_approved_metadata : (Text → Option Wanted) → ProvisionRequest → Db → Bool
unfolding matches
validate_approved_metadata unmarshal req db = elim (find (is_request req.request_id) db.requests) [
  | none ↦ true
  | some r ↦ elim r.metadata [
    | none ↦ true
    | some raw ↦
        if same raw []
        then true
        else elim (unmarshal raw) [ none ↦ true | some want ↦ matches want req ]
  ]
]

-- `firstNonEmpty(req.DisplayName, name)`
unfoldable pub first_non_empty : List Text → Text
unfolding trim_space
first_non_empty [] = []
first_non_empty (v ∷ vs) =
    let rest = first_non_empty vs in if not (same (trim_space v) []) then trim_space v else rest

abbrev pub to_input : ProvisionRequest → Text → Text → Text → CreateMachineInput
to_input req slug name owner = record {
  slug = slug;
  display_name = first_non_empty (req.display_name ∷ name ∷ []);
  target_user = req.target_user;
  mode = req.mode;
  local_port = req.local_port;
  persistence = req.persistence;
  distro = req.distro;
  arch = req.arch;
  pubkey = req.pubkey;
  owner_user_id = owner;
  hub_id = [];
  expires_at = none;
}

abbrev pub is_being_provisioned : Text → Request → Bool
is_being_provisioned id r = is_request id r && is_provisioning r.status

abbrev same_option : Option Text → Text → Bool
same_option none b = false
same_option (some a) b = same a b

-- `WHERE code_hash=(SELECT invite_code_hash FROM requests WHERE id=? AND …)`
abbrev pub invite_of : Text → List Request → Option Text
invite_of id requests = elim (find (is_request id) requests) [
  | none ↦ none
  | some r ↦ r.invite_code_hash
]

abbrev pub use_invite : Option Text → Text → Invite → Invite
use_invite code machine i =
    if same_option code i.code_hash then record i { used_by = some machine } else i

abbrev machine_id_of : Option Machine → Text
machine_id_of none = []
machine_id_of (some m) = m.id

abbrev pub publish_created : Text → Db → Db
publish_created machine db =
    publish (codes "machine.desired_changed") machine
      (publish (codes "machine.created") machine (publish (codes "request.provisioned") machine db))

-- What follows `CreateMachine`.
unfoldable pub settle : Text → Db × Result CreateError CreateMachineResult → Db × ProvisionReply
settle id (db, err e) =
    (update_requests (is_being_provisioned id) (set_status RequestStatus.approved) db, server_error)
settle id (db, ok res) =
    let machine = machine_id_of res.machine in
    let db1 = update_requests (is_request id) (set_status RequestStatus.provisioned) db in
    let db2 = record db1 {
      invites = update (λ i. true) (use_invite (invite_of id db1.requests) machine) db1.invites;
    } in
    (publish_created machine db2, done res)

-- What follows `consumeSetupToken`: the slug's test, the first admin and `CreateMachine`.
unfoldable pub create_for :
    Crypto → Config → Host → Option Text → ProvisionRequest → Text → Text → Db → Db × ProvisionReply
unfolding create_machine settle valid_slug normalize_slug
create_for c cfg host admin req id name db =
    let slug = if same req.slug [] then normalize_slug name else req.slug in
    if not (valid_slug slug) then (db, bad_request) else elim admin [
      | none ↦ (db, server_error)
      | some owner ↦ settle id (create_machine c cfg host (to_input req slug name owner) db)
    ]

-- The answer where the token is refused.
abbrev pub after_consume :
    Crypto
    → Config
    → Host
    → Option Text
    → ProvisionRequest
    → Db × Result ConsumeError (Text × Text)
    → Db × ProvisionReply
after_consume c cfg host admin req (db, err e) = (db, client_auth)
after_consume c cfg host admin req (db, ok (id, name)) = create_for c cfg host admin req id name db

unfoldable pub provision_client :
    Crypto
    → Config
    → Host
    → Option Text
    → (Text → Option Wanted)
    → ProvisionRequest
    → Db
    → Db × ProvisionReply
unfolding consume_setup_token create_for validate_approved_metadata trim_space
provision_client c cfg host admin unmarshal req db =
    if ltb 256 (length (trim_space req.display_name))
    then (db, bad_request)
    else if same req.request_id [] || same req.setup_token [] || same req.pubkey []
    then (db, bad_request)
    else if not (validate_approved_metadata unmarshal req db)
    then (db, client_auth)
    else after_consume c cfg host admin req
        (consume_setup_token c host.now req.request_id req.setup_token db)
