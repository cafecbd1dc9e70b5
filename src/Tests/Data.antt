-- ===== src/Tests/Data.antt =====
-- Constants: a cryptography that only has the laws it needs, a hub with one machine, and a request.
use reach.Base.Int.{pos}
use reach.Base.{
  ℕ, zero, suc, ◌+◌, ◌-◌, ◌*◌, ◌/◌, ◌%◌, ◌≡◌, refl, ap, true, false, [], ◌∷◌, ◌++◌, Option, none,
  some, arith, ◌==◌, any, length, Text, codes,
}
use reach.Model.Words.{
  DesiredState, ObservedState, MachineStatus, TunnelStatus, RequestStatus, UpdatePolicy,
}
use reach.Model.{Machine, Hub, Tunnel, Request}
use reach.Security.Secrets.{Crypto, default_argon, dollar}
use reach.Store.{Db}

-- The first n bytes, filled up with zeros.
abbrev padded : ℕ → Text → Text
padded zero s = []
padded (suc n) [] = 0 ∷ padded n []
padded (suc n) (b ∷ s) = b ∷ padded n s

pub length-padded : (n : ℕ) (s : Text) → length (padded n s) ≡ n
length-padded zero s = refl
length-padded (suc n) [] = ap suc (length-padded n [])
length-padded (suc n) (b ∷ s) = ap suc (length-padded n s)

abbrev halves : Text → Text
halves [] = []
halves (b ∷ s) = (b / 16 + 64) ∷ (b % 16 + 64) ∷ halves s

abbrev push : ℕ → Option Text → Option Text
push b none = none
push b (some s) = some (b ∷ s)

abbrev joined : Text → Option Text
joined [] = some []
joined (x ∷ []) = none
joined (x ∷ y ∷ s) = push ((x - 64) * 16 + (y - 64)) (joined s)

pub joined-halves : (s : Text) → joined (halves s) ≡ some s
joined-halves [] = refl
joined-halves (b ∷ s) = rw (joined-halves s) (ap (λ x. some (x ∷ s)) (omega arith))

pub halves_plain : (s : Text) → any (λ c. c == dollar) (halves s) ≡ false
halves_plain [] = refl
halves_plain (b ∷ s) = ground (arith, halves_plain s)

abbrev pub toy : Crypto
toy = record {
  id_key = λ secret salt p n. padded n (secret ++ salt);
  length-id_key = λ secret salt p n. length-padded n (secret ++ salt);
  encode = halves;
  decode = joined;
  decode-encode = joined-halves;
  encode_plain = halves_plain;
  scan = λ line. some default_argon;
  scan_default = refl;
}

abbrev pub hub : Hub
hub = record {
  id = codes "hub";
  name = codes "hub";
  public_host = codes "hub.example";
  ssh_port = 22;
  proxyjump_alias = codes "hub";
  api_url = codes "https://hub.example";
  port_start = 9160;
  port_end = 9175;
  status = codes "online";
  created_at = 0;
}

abbrev pub machine : Machine
machine = record {
  id = codes "m_1";
  slug = codes "box-1";
  original_slug = some (codes "box-1");
  display_name = none;
  target_user = none;
  owner_user_id = none;
  status = MachineStatus.observed ObservedState.online;
  desired_state = DesiredState.active;
  observed_state = ObservedState.online;
  desired_generation = 1;
  update_policy = UpdatePolicy.manual;
  desired_changed_at = none;
  desired_changed_by = none;
  cleanup_state = none;
  mode = some (codes "system");
  local_port = pos 22;
  persistence = none;
  distro = none;
  arch = none;
  provision_error = none;
  created_at = 0;
  updated_at = none;
  expires_at = none;
  disabled_at = none;
  retired_at = none;
  process_title_config = none;
  agent_token_hash = none;
}

abbrev pub tunnel : Tunnel
tunnel = record {
  id = codes "t_1";
  machine_id = codes "m_1";
  hub_id = codes "hub";
  unix_user = codes "rt-abcd1234";
  original_unix_user = some (codes "rt-abcd1234");
  remote_port = pos 9160;
  original_remote_port = some (pos 9160);
  tunnel_pubkey = codes "ssh-ed25519 AAAA";
  status = TunnelStatus.online;
  last_seen_at = none;
  created_at = 0;
  expires_at = none;
}

-- An approved request whose secret is "s", and whose token is still to come.
abbrev pub secret_hash : Text
secret_hash = codes "$argon2id$v=19$m=65536,t=3,p=2$" ++ (dollar ∷ halves (padded 32 (codes "s")))

abbrev pub request : Request
request = record {
  id = codes "r_1";
  name = codes "box";
  client_secret_hash = secret_hash;
  status = RequestStatus.approved;
  invite_code_hash = none;
  setup_token_hash = none;
  setup_token_expires_at = none;
  metadata = none;
  created_at = 0;
  expires_at = 1000;
  approved_at = some 10;
  denied_at = none;
}

abbrev pub db : Db
db = record {
  machines = machine ∷ [];
  hubs = hub ∷ [];
  tunnels = tunnel ∷ [];
  requests = request ∷ [];
  invites = [];
  commands = [];
  agents = [];
  probes = [];
  accounts = record { unix_user = codes "rt-abcd1234"; keys = true; disabled_keys = false } ∷ [];
  audits = [];
  events = [];
  access_keys = [];
  statuses = [];
  users = [];
  service_tokens = [];
  blacklist = [];
}
