-- ===== src/Api/Updates.antt =====
-- updates.go, `SetUpdatePolicy` of provisioner.go, and the administrator's handlers for updates. The
-- file of the manifest, as JSON is read from it, and JSON's quotation of a string are arguments.
use reach.Base.Result.{Result, ok, err}
use reach.Base.Strings.{trim_right_by}
use reach.Base.Utf8.{trim_space, lower_trimmed}
use reach.Base.{
  ℕ, ◌-◌, ◌*◌, Bool, true, false, not, ◌&&◌, ◌||◌, [], ◌++◌, Option, none, some, ◌==◌, ltb,
  if◌then◌else◌, any, update, Text, codes, same,
}
use reach.Model.Agent.{AgentCommandInfo, AgentUpdateHint, AgentHeartbeat}
use reach.Model.Words.{
  UpdatePolicy, CommandType, is_auto, never_updates, is_leaving, is_open, is_update,
}
use reach.Model.{Machine, Time}
use reach.Provisioner.Commands.{queue_command}
use reach.Store.{Db, get_machine, has_id, audit, publish}

unfoldable pub normalize_update_policy : Text → Option UpdatePolicy
unfolding same lower_trimmed
normalize_update_policy policy =
    let word = lower_trimmed policy in
    if same word [] || same word (codes "manual")
    then some UpdatePolicy.manual
    else if same word (codes "auto")
    then some UpdatePolicy.auto
    else if same word (codes "disabled")
    then some UpdatePolicy.disabled
    else none

pub record AgentUpdateConfig : Type 0 where
  pub enabled : Bool
  pub latest_version : Text
  pub manifest_path : Text
  pub api_url : Text

pub record AgentUpdateRelease : Type 0 where
  pub version : Text
  pub api_url : Text

-- What the decoder sets of a release from a manifest.
pub record Manifest : Type 0 where
  pub version : Option Text
  pub api_url : Option Text

abbrev or_keep : Option Text → Text → Text
or_keep none old = old
or_keep (some s) old = s

abbrev with_manifest : Option Manifest → AgentUpdateRelease → AgentUpdateRelease
with_manifest none rel = rel
with_manifest (some m) rel = record {
  version = trim_space (or_keep m.version rel.version);
  api_url = trim_space (or_keep m.api_url rel.api_url);
}

-- What the functions below take of the configuration and from outside.
pub record Updates : Type 0 where
  pub config : AgentUpdateConfig
  pub hub_api_url : Text
  pub read_manifest : Text → Option Manifest
  pub quote : Text → Text

abbrev pub release_of : Updates → AgentUpdateRelease → Option AgentUpdateRelease
release_of u rel =
    if same rel.version []
    then none
    else some (record rel {
      api_url = if same rel.api_url [] then trim_space u.hub_api_url else rel.api_url;
    })

unfoldable pub latest_agent_update : Updates → Option AgentUpdateRelease
unfolding same trim_space
latest_agent_update u =
    let rel : AgentUpdateRelease = record {
      version = trim_space u.config.latest_version;
      api_url = trim_space u.config.api_url;
    } in
    if not u.config.enabled
    then none
    else release_of u (
        if same rel.version [] && not (same u.config.manifest_path [])
        then with_manifest (u.read_manifest u.config.manifest_path) rel
        else rel)

unfoldable pub agent_update_hint_for : Updates → Text → Option AgentUpdateHint
unfolding latest_agent_update trim_right_by trim_space same
agent_update_hint_for u version = elim (latest_agent_update u) [
  | none ↦ none
  | some rel ↦
      let current = trim_space version in
      some (record {
        available = not (same current []) && not (same current rel.version);
        current = current;
        latest = rel.version;
        url =
            trim_right_by (λ c. c == b'/') rel.api_url
            ++ (codes "/downloads/reach-agent/v" ++ rel.version);
        sha256 = [];
        required = false;
      })
]

-- The JSON of `updateAgentPayload`, whose keys come in their order.
abbrev pub update_agent_payload : (Text → Text) → AgentUpdateRelease → Text
update_agent_payload quote rel =
    if same rel.api_url []
    then codes "{\"version\":" ++ (quote rel.version ++ codes "}")
    else codes "{\"api_url\":"
      ++ (quote rel.api_url ++ (codes ",\"version\":" ++ (quote rel.version ++ codes "}")))

-- `expires_at IS NULL OR expires_at>?`
abbrev pub is_unexpired : Time → Option Time → Bool
is_unexpired now none = true
is_unexpired now (some t) = ltb now t

abbrev pub is_update_for : Text → AgentCommandInfo → Bool
is_update_for id c = same c.machine_id id && is_update c.kind

abbrev pub is_open_update : Time → Text → AgentCommandInfo → Bool
is_open_update now id c = is_update_for id c && (is_open c.status && is_unexpired now c.expires_at)

unfoldable pub has_open_update_command : Time → Text → Db → Bool
unfolding same is_update is_open
has_open_update_command now id db = any (is_open_update now id) db.commands

unfoldable pub has_recent_update_command : Time → Text → Db → Bool
unfolding same is_update
has_recent_update_command since id db =
    any (λ c. is_update_for id c && ltb since c.created_at) db.commands

pub data UpdateError : Type 0 where
  updates_disabled none_configured already_queued failed : UpdateError

abbrev pub update_ttl : ℕ
update_ttl = 24 * 3600

-- The last steps of `queueAgentUpdate`, behind its tests.
abbrev pub record_update :
    Text
    → Text
    → Time
    → Machine
    → AgentUpdateRelease
    → Option Db
    → Db
    → Db × Result UpdateError (Unit {0})
record_update actor reason now m rel none db = (db, err failed)
record_update actor reason now m rel (some db') db = (
  publish (codes "agent.update_queued") m.id (
      audit (codes "machine.agent_update.queue") (if same actor [] then codes "system" else actor)
        m.id (codes "version=" ++ (rel.version ++ (codes " reason=" ++ reason))) now db'),
  ok tt,
)

abbrev pub queue_release :
    Updates
    → Text
    → Text
    → Time
    → Option Text
    → Machine
    → Option AgentUpdateRelease
    → Db
    → Db × Result UpdateError (Unit {0})
queue_release u actor reason now new_id m none db = (db, err none_configured)
queue_release u actor reason now new_id m (some rel) db =
    if has_open_update_command now m.id db
    then (db, err already_queued)
    else record_update actor reason now m rel
        (queue_command new_id now m.id m.desired_generation CommandType.update_agent
          (some (update_agent_payload u.quote rel)) update_ttl db)
        db

unfoldable pub queue_agent_update :
    Updates → Text → Text → Time → Option Text → Machine → Db → Db × Result UpdateError (Unit {0})
unfolding latest_agent_update has_open_update_command queue_command never_updates same
queue_agent_update u actor reason now new_id m db =
    if never_updates m.update_policy
    then (db, err updates_disabled)
    else queue_release u actor reason now new_id m (latest_agent_update u) db

abbrev pub six_hours : ℕ
six_hours = 6 * 3600

abbrev is_version : Option AgentUpdateRelease → Text → Bool
is_version none v = true
is_version (some rel) v = same (trim_space v) rel.version

-- The tests that end `maybeQueueAutoAgentUpdate` at once.
abbrev pub skips_auto_update : Updates → Time → Machine → AgentHeartbeat → Db → Bool
skips_auto_update u now m hb db =
    not (is_auto m.update_policy)
    || is_leaving m.desired_state
    || not hb.capabilities.can_self_update
    || is_version (latest_agent_update u) hb.agent_version
    || has_recent_update_command (now - six_hours) m.id db

-- An error of the queueing is logged.
unfoldable pub maybe_queue_auto_agent_update :
    Updates → Time → Option Text → Machine → AgentHeartbeat → Db → Db
unfolding queue_agent_update latest_agent_update has_recent_update_command is_auto is_leaving
    trim_space same
maybe_queue_auto_agent_update u now new_id m hb db =
    if skips_auto_update u now m hb db
    then db
    else (queue_agent_update u (codes "system") (codes "auto_policy") now new_id m db).0

-- `handleAdminMachineUpdateAgent`
pub data AdminUpdateError : Type 0 where
  machine_not_found : AdminUpdateError
  refused : UpdateError → AdminUpdateError

abbrev pub admin_result :
    Db × Result UpdateError (Unit {0}) → Db × Result AdminUpdateError (Unit {0})
admin_result (db, ok _) = (db, ok tt)
admin_result (db, err e) = (db, err (refused e))

unfoldable pub admin_update_agent :
    Updates → Text → Time → Option Text → Text → Db → Db × Result AdminUpdateError (Unit {0})
unfolding queue_agent_update same
admin_update_agent u actor now new_id key db = elim (get_machine db key) [
  | none ↦ (db, err machine_not_found)
  | some m ↦ admin_result (queue_agent_update u actor (codes "manual") now new_id m db)
]

abbrev policy_word : UpdatePolicy → Text
policy_word UpdatePolicy.manual = codes "manual"
policy_word UpdatePolicy.auto = codes "auto"
policy_word UpdatePolicy.disabled = codes "disabled"

abbrev policy_row : UpdatePolicy → Time → Machine → Machine
policy_row p now m = record m { update_policy = p; updated_at = some now }

pub data PolicyError : Type 0 where
  invalid_policy no_machine : PolicyError

abbrev the_machine : Option Machine → Result PolicyError Machine
the_machine none = err no_machine
the_machine (some m) = ok m

abbrev store_policy : Text → Time → Machine → UpdatePolicy → Db → Db × Result PolicyError Machine
store_policy actor now m p db =
    let db1 = record db { machines = update (has_id m.id) (policy_row p now) db.machines } in
    let db2 =
      audit (codes "machine.update_policy.update") actor m.id (codes "policy=" ++ policy_word p) now
        db1 in
    (db2, the_machine (get_machine db2 m.id))

unfoldable pub set_update_policy : Text → Text → Text → Time → Db → Db × Result PolicyError Machine
unfolding normalize_update_policy same
set_update_policy key policy actor now db = elim (normalize_update_policy policy) [
  | none ↦ (db, err invalid_policy)
  | some p ↦ elim (get_machine db key) [
    | none ↦ (db, err no_machine)
    | some m ↦ store_policy actor now m p db
  ]
]

abbrev tell_policy : Db × Result PolicyError Machine → Db × Result PolicyError Machine
tell_policy (db, err e) = (db, err e)
tell_policy (db, ok m) = (publish (codes "machine.update_policy_changed") m.id db, ok m)

-- `handleAdminMachineUpdatePolicy`, which normalizes the word before `SetUpdatePolicy` does.
unfoldable pub admin_update_policy :
    Text → Text → Text → Time → Db → Db × Result PolicyError Machine
unfolding set_update_policy normalize_update_policy
admin_update_policy key policy actor now db = elim (normalize_update_policy policy) [
  | none ↦ (db, err invalid_policy)
  | some p ↦ tell_policy (set_update_policy key (policy_word p) actor now db)
]
