-- ===== src/Tests/Clients.antt =====
-- The theorems on requests at one approved request.
use reach.Api.History.{registers, grows, Call, polls, acts, expires, serve_all, serve_all-grows}
use reach.Api.Provision.{Wanted}
use reach.Api.Requests.Lifecycle.{distinct}
use reach.Api.Requests.Race.{answer_poll-poll}
use reach.Api.Requests.Tokens.{refused, take_token-consume_setup_token}
use reach.Api.Requests.Issued.{expire_all, consume_setup_token-poll}
use reach.Api.Requests.{
  deny, Draws, polled, with_token, consumed_row, update_requests, answer_poll, poll, take_token,
  consume_setup_token,
}
use reach.Api.Json.{Fields, end, validate_value}
use reach.Api.Register.Entry.{EntrySpec, new_request_lem}
use reach.Api.Register.{
  RegisterDraws, RegisterRequest, new_request, validate_metadata_limits, draw, fill, admit,
  validate_client_auth,
}
use reach.Base.Int.{pos}
use reach.Base.{false, same, ◌≤◌}
use reach.Base.Utf8.{trim_space}
use reach.Model.{Time}
use reach.RateLimit.Window.{allowed, allowed-le}
use reach.RateLimit.{allow_persistent, RateLimiter, allow, lookup, put, sweep}
use reach.Base.Result.{ok, err}
use reach.Base.{◌≡◌, refl, true, List, [], ◌∷◌, Option, none, some, arith, Text, codes}
use reach.Model.Words.{RequestStatus, is_approved}
use reach.Provisioner.Create.{Config}
use reach.Security.Secrets.{hash_secret, verify_secret}
use reach.Tests.Data.{toy, db, request, secret_hash}

abbrev draws : Text → Draws
draws token = record { now = 100; token = some token; salt = [] }

consume_setup_token-poll_example :
    ((poll toy 60 (draws (codes "s")) (codes "r_1") (codes "s") db).1
      ≡ polled RequestStatus.approved (some (codes "s")) (some 160))
    × ((consume_setup_token toy 150 (codes "r_1") (codes "s") (
          expire_all
            (120 ∷ 140 ∷ [])
            (poll toy 60 (draws (codes "s")) (codes "r_1") (codes "s") db).0)).1
        ≡ ok (codes "r_1", codes "box"))
unfolding hash_secret verify_secret is_approved
consume_setup_token-poll_example =
    consume_setup_token-poll toy 60 (draws (codes "s")) (codes "r_1") (codes "s") (codes "s")
      secret_hash request (120 ∷ 140 ∷ []) 150 db refl refl refl refl refl refl (omega arith)

answer_poll-poll_example :
    ((answer_poll toy 60
        (draws (codes "t"))
        (codes "r_1")
        request
        (codes "s")
        (poll toy 60 (draws (codes "s")) (codes "r_1") (codes "s") db).0).0.requests
      ≡ (poll toy 60 (draws (codes "s")) (codes "r_1") (codes "s") db).0.requests)
    × ((answer_poll toy 60
          (draws (codes "t"))
          (codes "r_1")
          request
          (codes "s")
          (poll toy 60 (draws (codes "s")) (codes "r_1") (codes "s") db).0).1
        ≡ polled RequestStatus.approved (some (codes "t")) (some 160))
unfolding hash_secret verify_secret is_approved
answer_poll-poll_example =
    answer_poll-poll toy 60 (draws (codes "s")) (draws (codes "t")) (codes "r_1") (codes "s")
      (codes "s") secret_hash (codes "t") _ request db refl refl refl refl refl refl refl

abbrev ready : Option Text
ready = some secret_hash

take_token-consume_setup_token_example :
    refused
      (take_token toy 130 (codes "r_1") (with_token secret_hash 160 request) (codes "s") (
        update_requests
          (λ r. true)
          consumed_row
          (record db { requests = with_token secret_hash 160 request ∷ [] }))).1
    ≡ true
unfolding consume_setup_token take_token verify_secret distinct is_approved
take_token-consume_setup_token_example =
    take_token-consume_setup_token toy 120 130 (codes "r_1") (codes "s") (codes "s")
      (with_token secret_hash 160 request)
      (record db { requests = with_token secret_hash 160 request ∷ [] })
      (update_requests (λ r. true) consumed_row
        (record db { requests = with_token secret_hash 160 request ∷ [] }))
      (codes "r_1", codes "box") refl refl

abbrev config : Config
config = record { default_hub = codes "hub"; default_expiry = 0; provisioning_enabled = true }

abbrev register_draws : RegisterDraws
register_draws = record {
  now = 100;
  ip = codes "10.0.0.1";
  client_secret = some (codes "s");
  client_salt = [];
  request_id = some (codes "r_2");
  setup_token = some (codes "t");
  setup_salt = [];
  request_ttl = 1000;
  setup_token_ttl = 60;
  god_code_hash = secret_hash;
}

abbrev registration : RegisterRequest
registration = record {
  name = codes "box";
  auth_code = codes "s";
  target_user = [];
  slug = [];
  mode = [];
  distro = [];
  arch = [];
  transport = [];
  local_port = pos 22;
  metadata = end;
}

abbrev marshal : Fields → Text
marshal fs = []

abbrev limiter : RateLimiter
limiter = record {
  window = 60;
  limit = 3;
  buckets = (codes "10.0.0.1", record { count = 1; reset = 160 }) ∷ [];
  last_cleanup = 0;
  persistent = true;
}

abbrev calls : List Call
calls =
    polls (draws (codes "t")) (codes "r_1") (codes "s")
    ∷ acts deny (codes "ann") (codes "r_1") 110
    ∷ registers marshal register_draws registration limiter
    ∷ expires 2000
    ∷ []

abbrev unmarshal : Text → Option Wanted
unmarshal raw = none

serve_all-grows_example :
    grows db.requests (serve_all toy config 60 unmarshal calls db).requests ≡ true
unfolding distinct
serve_all-grows_example = serve_all-grows toy config 60 unmarshal calls db refl

new_request_lem_example :
    EntrySpec toy register_draws registration []
      (new_request toy marshal register_draws registration [])
new_request_lem_example = new_request_lem toy marshal register_draws registration []

-- The god code is accepted at once.
new_request_test :
    elim (new_request toy marshal register_draws registration []) [
      | err e ↦ false
      | ok out ↦ is_approved out.request.status
    ]
    ≡ true
unfolding new_request trim_space validate_metadata_limits validate_value draw fill hash_secret admit
    validate_client_auth verify_secret is_approved same
new_request_test = refl

abbrev visits : List (Time × Text)
visits =
    (110, codes "10.0.0.1")
    ∷ (120, codes "10.0.0.1")
    ∷ (130, codes "10.0.0.1")
    ∷ (140, codes "10.0.0.2")
    ∷ []

allowed-le_example : allowed (codes "10.0.0.1") visits limiter ≤ 2
unfolding lookup same
allowed-le_example =
    allowed-le (codes "10.0.0.1") visits limiter (record { count = 1; reset = 160 }) refl refl

allowed_test : allowed (codes "10.0.0.1") visits limiter ≡ 2
unfolding allowed allow allow_persistent lookup put sweep same
allowed_test = refl
