-- ===== src/Api/Register/Form.antt =====
-- api.go: what `handleClientRegister` is given, `validateClientAuth` and `validateMetadataLimits`, and
-- the rows of a request.
use reach.Api.Json.{Value, Fields, MetaError, too_large, str, num, obj, end, field, validate_value}
use reach.Base.Int.{ℤ}
use reach.Base.Result.{Result, ok, err}
use reach.Base.Utf8.{trim_space}
use reach.Base.{
  ℕ, ◌+◌, Bool, true, false, not, ◌&&◌, List, [], ◌∷◌, Option, none, some, ltb, if◌then◌else◌,
  length, Text, codes, same,
}
use reach.Model.Words.{RequestStatus}
use reach.Model.{Request, Time}
use reach.Security.Secrets.{Crypto, verify_secret}
use reach.Store.{Invite}

pub record RegisterRequest : Type 0 where
  pub name : Text
  pub auth_code : Text
  pub target_user : Text
  pub slug : Text
  pub mode : Text
  pub distro : Text
  pub arch : Text
  pub transport : Text
  pub local_port : ℤ
  pub metadata : Fields

-- What the handler draws and reads of the configuration: two tokens with the salts of their hashes,
-- the request's id, the two lifetimes and the hash of the god code, empty where there is none.
pub record RegisterDraws : Type 0 where
  pub now : Time
  pub ip : Text
  pub client_secret : Option Text
  pub client_salt : Text
  pub request_id : Option Text
  pub setup_token : Option Text
  pub setup_salt : Text
  pub request_ttl : ℕ
  pub setup_token_ttl : ℕ
  pub god_code_hash : Text

pub data RegisterError : Type 0 where
  rate_limited no_name name_too_long field_too_long too_big bad_auth failed : RegisterError
  bad_metadata : MetaError → RegisterError

pub record Registered : Type 0 where
  pub request : Request
  pub client_secret : Text
  pub setup_token : Option Text

-- Whose code was given, and the hash of the invite that it is.
pub record Accepted : Type 0 where
  pub kind : Text
  pub code_hash : Text

abbrev unused : Invite → Bool
unused i = elim i.used_by [ none ↦ true | some _ ↦ false ]

-- The loop over the rows that are not used.
unfoldable pub find_invite : (Text → Bool) → Time → List Invite → Option Accepted
find_invite verifies now [] = none
find_invite verifies now (i ∷ is) =
    let later = find_invite verifies now is in
    if unused i && not (ltb i.expires_at now) && verifies i.code_hash
    then some (record { kind = i.kind; code_hash = i.code_hash })
    else later

unfoldable pub validate_client_auth : Crypto → Text → Time → Text → List Invite → Option Accepted
unfolding find_invite verify_secret
validate_client_auth c god now code invites =
    if not (same god []) && verify_secret c code god
    then some (record { kind = codes "god"; code_hash = [] })
    else find_invite (verify_secret c code) now invites

unfoldable pub validate_metadata_limits : (Fields → Text) → Fields → Option MetaError
unfolding validate_value
validate_metadata_limits marshal fs = elim (validate_value (obj fs) 0) [
  | some e ↦ some e
  | none ↦ if ltb 4096 (length (marshal fs)) then some too_large else none
]

-- `meta[k] = v`
abbrev set_field : Text → Value → Fields → Fields
set_field key new end = field key new end
set_field key new (field k v fs) =
    if same k key then field k new fs else field k v (set_field key new fs)

abbrev set_fields : Fields → Fields → Fields
set_fields end meta = meta
set_fields (field k v fs) meta = set_fields fs (set_field k v meta)

abbrev pub meta_of : Text → RegisterRequest → Text → Fields
meta_of name req ip = set_fields req.metadata (
    field (codes "name") (str name) (
      field (codes "target_user") (str req.target_user) (
        field (codes "slug") (str req.slug) (
          field (codes "mode") (str req.mode) (
            field (codes "local_port") (num req.local_port) (
              field (codes "distro") (str req.distro) (
                field (codes "arch") (str req.arch) (
                  field (codes "transport") (str req.transport)
                    (field (codes "source_ip") (str ip) end)))))))))

abbrev pub is_long : Text → Bool
is_long value = ltb 256 (length (trim_space value))

abbrev pub drawn : {A : Type 0} → Option A → Result RegisterError A
drawn none = err failed
drawn (some a) = ok a

-- A request without a code.
abbrev pub pending_request : RegisterDraws → Text → Text → Text → Text → Request
pending_request d id name hash meta = record {
  id = id;
  name = name;
  client_secret_hash = hash;
  status = RequestStatus.pending;
  invite_code_hash = none;
  setup_token_hash = none;
  setup_token_expires_at = none;
  metadata = some meta;
  created_at = d.now;
  expires_at = d.now + d.request_ttl;
  approved_at = none;
  denied_at = none;
}

abbrev pub approved_request : RegisterDraws → Accepted → Text → Request → Request
approved_request d a hash r = record r {
  status = RequestStatus.approved;
  invite_code_hash = if same a.kind (codes "friend") then some a.code_hash else none;
  setup_token_hash = some hash;
  setup_token_expires_at = some (d.now + d.setup_token_ttl);
  approved_at = some d.now;
}
