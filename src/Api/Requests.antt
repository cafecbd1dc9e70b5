-- ===== src/Api/Requests.antt =====
-- api.go: a client's request from its registration to its end: `handleClientPoll`,
-- `handleAdminRequestAction` and `consumeSetupToken`; provisioner.go: `ExpireOnce`'s first two
-- statements. A handler that reads a row and writes later takes the row that it has read.
pub mod Lifecycle
pub mod Tokens
pub mod Issued
pub mod Race
use reach.Base.Result.{Result, ok, err}
use reach.Base.{
  ℕ, ◌+◌, Bool, true, false, not, ◌&&◌, ◌||◌, List, [], ◌∷◌, ◌++◌, Option, none, some, ltb,
  if◌then◌else◌, any, find, update, Text, codes, same,
}
use reach.Model.Words.{RequestStatus, is_pending, is_approved, is_provisioning}
use reach.Model.{Request, Time}
use reach.Security.Secrets.{Crypto, hash_secret, verify_secret}
use reach.Store.{Db, audit, publish}

-- What a poll draws: the time, `RandomToken` and the salt of its hash.
pub record Draws : Type 0 where
  pub now : Time
  pub token : Option Text
  pub salt : Text

-- A handler's answer: an HTTP error, or what the body holds.
pub data Reply : Type 0 where
  not_found client_auth server_error : Reply
  decided : RequestStatus → Reply
  polled : RequestStatus → Option Text → Option Time → Reply

abbrev pub is_request : Text → Request → Bool
is_request id r = same r.id id

abbrev pub update_requests : (Request → Bool) → (Request → Request) → Db → Db
update_requests p f db = record db { requests = update p f db.requests }

abbrev pub set_status : RequestStatus → Request → Request
set_status s r = record r { status = s }

-- `time.Now().UTC().After(t)`
abbrev pub after : Time → Time → Bool
after now t = ltb t now

abbrev pub is_late : Time → Request → Bool
is_late now r = after now r.expires_at && is_pending r.status

abbrev pub lacks_token : Request → Bool
lacks_token r = is_approved r.status && elim r.setup_token_hash [ none ↦ true | some _ ↦ false ]

abbrev pub with_token : Text → Time → Request → Request
with_token hash expires r = record r {
  setup_token_hash = some hash;
  setup_token_expires_at = some expires;
}

-- The hash that goes with a token that could be drawn.
abbrev pub drawn_hash : Crypto → Draws → Option (Text × Text)
drawn_hash c d = elim d.token [
  | none ↦ none
  | some token ↦ elim (hash_secret c d.salt token) [ none ↦ none | some h ↦ some (token, h) ]
]

-- A fresh token for an approved request, stored where the row still has none.
unfoldable pub issue : Crypto → ℕ → Draws → Text → Db → Db × Reply
issue c ttl d id db = elim (drawn_hash c d) [
  | none ↦ (db, server_error)
  | some (token, h) ↦ (
    update_requests (λ r. is_request id r && lacks_token r) (with_token h (d.now + ttl)) db,
    polled RequestStatus.approved (some token) (some (d.now + ttl)),
  )
]

-- The rest of a poll, on the row that it has read.
unfoldable pub answer_poll : Crypto → ℕ → Draws → Text → Request → Text → Db → Db × Reply
unfolding issue verify_secret
answer_poll c ttl d id r secret db =
    if not (verify_secret c secret r.client_secret_hash)
    then (db, client_auth)
    else if is_late d.now r
    then (
      publish (codes "request.expired") []
          (update_requests (is_request id) (set_status RequestStatus.expired) db),
      polled RequestStatus.expired none r.setup_token_expires_at,
    )
    else if is_approved r.status
    then elim r.setup_token_hash [
      | none ↦ issue c ttl d id db
      | some h ↦ elim r.setup_token_expires_at [
        | none ↦ issue c ttl d id db
        | some e ↦ (db, polled r.status none (some e))
      ]
    ]
    else (db, polled r.status none r.setup_token_expires_at)

unfoldable pub poll : Crypto → ℕ → Draws → Text → Text → Db → Db × Reply
unfolding answer_poll
poll c ttl d id secret db = elim (find (is_request id) db.requests) [
  | none ↦ (db, client_auth)
  | some r ↦ answer_poll c ttl d id r secret db
]

-- `handleAdminRequestAction`.
pub data Action : Type 0 where
  approve deny other : Action

abbrev pub approved_row : Time → Request → Request
approved_row now r = record r {
  status = RequestStatus.approved;
  setup_token_hash = none;
  setup_token_expires_at = none;
  approved_at = some now;
}

abbrev pub denied_row : Time → Request → Request
denied_row now r = record r { status = RequestStatus.denied; denied_at = some now }

abbrev pub is_waiting : Text → Request → Bool
is_waiting id r = is_request id r && is_pending r.status

-- The UPDATE of a pending request with its audit row and its event.
unfoldable pub decide_request :
    Text → Text → (Request → Request) → RequestStatus → Text → Text → Time → Db → Db × Reply
decide_request action event row status actor id now db =
    if any (is_waiting id) db.requests
    then (
      publish event [] (
          audit action actor [] (codes "request=" ++ id) now
            (update_requests (is_waiting id) row db)),
      decided status,
    )
    else (db, not_found)

unfoldable pub admin_action : Action → Text → Text → Time → Db → Db × Reply
unfolding decide_request
admin_action approve actor id now db =
    decide_request (codes "request.approve") (codes "request.approved") (approved_row now)
      RequestStatus.approved actor id now db
admin_action deny actor id now db =
    decide_request (codes "request.deny") (codes "request.denied") (denied_row now)
      RequestStatus.denied actor id now db
admin_action other actor id now db = (db, not_found)

-- `consumeSetupToken`.
pub data ConsumeError : Type 0 where
  request_not_found invalid_token token_expired already_used : ConsumeError

abbrev pub is_expired_token : Time → Request → Bool
is_expired_token now r = elim r.setup_token_expires_at [ none ↦ false | some t ↦ after now t ]

abbrev pub holds_hash : Text → Request → Bool
holds_hash h r = elim r.setup_token_hash [ none ↦ false | some g ↦ same g h ]

abbrev pub consumed_row : Request → Request
consumed_row r = record r { status = RequestStatus.provisioning; setup_token_hash = none }

-- The row that the UPDATE takes.
abbrev pub takes_token : Text → Text → Request → Bool
takes_token id h r = is_request id r && is_approved r.status && holds_hash h r

-- The rest of the call, on the row and the hash that it has read.
unfoldable pub take_token :
    Crypto → Time → Text → Request → Text → Db → Db × Result ConsumeError (Text × Text)
unfolding verify_secret
take_token c now id r token db = elim r.setup_token_hash [
  | none ↦ (db, err invalid_token)
  | some h ↦
      if not (is_approved r.status) || not (verify_secret c token h)
      then (db, err invalid_token)
      else if is_expired_token now r
      then (db, err token_expired)
      else if any (takes_token id h) db.requests
      then (update_requests (takes_token id h) consumed_row db, ok (r.id, r.name))
      else (db, err already_used)
]

unfoldable pub consume_setup_token :
    Crypto → Time → Text → Text → Db → Db × Result ConsumeError (Text × Text)
unfolding take_token
consume_setup_token c now id token db = elim (find (is_request id) db.requests) [
  | none ↦ (db, err request_not_found)
  | some r ↦ take_token c now id r token db
]

abbrev pub is_stale : Time → Request → Bool
is_stale now r = (is_pending r.status || is_approved r.status) && ltb r.expires_at now

abbrev pub has_stale_token : Time → Request → Bool
has_stale_token now r = is_approved r.status && is_expired_token now r

-- The requests' part of `ExpireOnce`.
unfoldable pub expire_requests : Time → Db → Db
expire_requests now db =
    update_requests (has_stale_token now) (set_status RequestStatus.expired)
      (update_requests (is_stale now) (set_status RequestStatus.expired) db)
