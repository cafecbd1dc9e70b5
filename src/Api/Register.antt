-- ===== src/Api/Register.antt =====
-- api.go: `handleClientRegister`, `validateClientAuth` and `validateMetadataLimits`. How
-- `encoding/json` writes a map is given, and the notification of a pending request is left out.
pub mod Entry
mod Form
unfoldable pub use Form.*
use reach.Api.Json.{Value, Fields, MetaError, too_large, str, num, obj, end, field, validate_value}
use reach.Api.Requests.{is_request}
use reach.Base.Int.{ℤ}
use reach.Base.Result.{Result, ok, err, guard, ◌>>=◌, ◌>>◌}
use reach.Base.Utf8.{trim_space}
use reach.Base.{
  ℕ, ◌+◌, Bool, true, false, not, ◌&&◌, ◌||◌, List, [], ◌∷◌, ◌++◌, Option, none, some, ltb,
  if◌then◌else◌, any, length, Text, codes, same,
}
use reach.Model.Words.{RequestStatus}
use reach.Model.{Request, Time}
use reach.RateLimit.{RateLimiter, allow}
use reach.Security.Secrets.{Crypto, hash_secret, verify_secret}
use reach.Store.{Db, Invite, publish}

-- The steps under `if req.AuthCode != ""`.
unfoldable pub admit :
    Crypto
    → RegisterDraws
    → Text
    → List Invite
    → Request
    → Result RegisterError (Request × Option Text)
unfolding validate_client_auth hash_secret
admit c d [] invites r = ok (r, none)
admit c d (b ∷ code) invites r =
    elim (validate_client_auth c d.god_code_hash d.now (b ∷ code) invites) [
      | none ↦ err bad_auth
      | some a ↦ do
        token ← drawn d.setup_token
        hash ← drawn (hash_secret c d.setup_salt token)
        ok (approved_request d a hash r, some token)
    ]

abbrev pub give : Text → Request × Option Text → Registered
give secret (row, token) = record { request = row; client_secret = secret; setup_token = token }

abbrev pub admitted :
    Text → Result RegisterError (Request × Option Text) → Result RegisterError Registered
admitted secret (err e) = err e
admitted secret (ok o) = ok (give secret o)

-- What follows the draws: the size of the metadata with what the server adds, and the code.
unfoldable pub fill :
    Crypto
    → (Fields → Text)
    → RegisterDraws
    → RegisterRequest
    → List Invite
    → Text
    → Text
    → Text
    → Result RegisterError Registered
unfolding admit trim_space
fill c marshal d req invites secret hash id =
    let name = trim_space req.name in
    let meta = marshal (meta_of name req d.ip) in
    if ltb 4096 (length meta)
    then err too_big
    else admitted secret (admit c d req.auth_code invites (pending_request d id name hash meta))

-- The draws.
unfoldable pub draw :
    Crypto
    → (Fields → Text)
    → RegisterDraws
    → RegisterRequest
    → List Invite
    → Result RegisterError Registered
unfolding fill hash_secret
draw c marshal d req invites = elim d.client_secret [
  | none ↦ err failed
  | some secret ↦ elim (hash_secret c d.client_salt secret) [
    | none ↦ err failed
    | some hash ↦ elim d.request_id [
      | none ↦ err failed
      | some id ↦ fill c marshal d req invites secret hash id
    ]
  ]
]

abbrev pub has_long_field : RegisterRequest → Bool
has_long_field req =
    is_long req.target_user
    || is_long req.slug
    || is_long req.mode
    || is_long req.distro
    || is_long req.arch
    || is_long req.transport

-- The request that is to be inserted, or why there is none.
unfoldable pub new_request :
    Crypto
    → (Fields → Text)
    → RegisterDraws
    → RegisterRequest
    → List Invite
    → Result RegisterError Registered
unfolding trim_space validate_metadata_limits draw
new_request c marshal d req invites =
    if same (trim_space req.name) []
    then err no_name
    else if ltb 64 (length (trim_space req.name))
    then err name_too_long
    else if has_long_field req
    then err field_too_long
    else elim (validate_metadata_limits marshal req.metadata) [
      | some e ↦ err (bad_metadata e)
      | none ↦ draw c marshal d req invites
    ]

-- The INSERT, which the primary key can refuse.
unfoldable pub insert_request :
    Result RegisterError Registered → Db → Db × Result RegisterError Registered
insert_request (err e) db = (db, err e)
insert_request (ok out) db =
    if any (is_request out.request.id) db.requests then (db, err failed) else (
      publish (codes "request.created") []
          (record db { requests = db.requests ++ out.request ∷ [] }),
      ok out,
    )

unfoldable pub register :
    Crypto
    → (Fields → Text)
    → RegisterDraws
    → RegisterRequest
    → RateLimiter
    → Db
    → RateLimiter × (Db × Result RegisterError Registered)
unfolding new_request insert_request allow
register c marshal d req limiter db =
    let (limiter', ok_call) = allow d.now d.ip limiter in
    (
      limiter',
      if ok_call
          then insert_request (new_request c marshal d req db.invites) db
          else (db, err rate_limited),
    )
