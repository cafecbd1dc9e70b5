-- ===== src/Api/Requests/Issued.antt =====
-- The setup token that a poll hands out, with rounds of the expiry before it is used.
use reach.Api.Requests.Tokens.{found_id, any_found, take_token-found, lacking, poll-issue}
use reach.Api.Requests.{
  is_stale, has_stale_token, set_status, expire_requests, Draws, polled, is_request, lacks_token,
  with_token, poll, consume_setup_token,
}
use reach.Base.Result.{ok}
use reach.Base.{
  all, leb, ◌&&◌, [], ◌∷◌, ℕ, ◌+◌, ◌≤◌, ◌≡◌, refl, ap, ◌∙◌, Bool, true, ◌&&◌, List, [], ◌∷◌, some,
  arith, find, update, Text, same, same_iff, same_refl,
}
use reach.Model.Words.{RequestStatus, is_approved}
use reach.Model.{Request, Time}
use reach.Security.Secrets.{Crypto, hash_secret, verify_secret, verify_secret-hash_secret}
use reach.Store.{Db}
use reach.Store.Laws.{find-update}

-- Rounds of the expiry, one after another.
unfoldable pub expire_all : List Time → Db → Db
unfolding expire_requests
expire_all [] db = db
expire_all (t ∷ ts) db = expire_all ts (expire_requests t db)

-- A round that comes neither after the end of the request nor after the end of its token.
abbrev pub is_early : Time → Time → Time → Bool
is_early request_end token_end t = leb t request_end && leb t token_end

expire_requests-found :
    (t : Time) (id h : Text) (token_end : Time) (r : Request) (db : Db)
    → is_early r.expires_at token_end t ≡ true
    → find (is_request id) db.requests ≡ some (with_token h token_end r)
    → find (is_request id) (expire_requests t db).requests ≡ some (with_token h token_end r)
unfolding expire_requests
expire_requests-found t id h token_end r db early f =
    let expired = set_status RequestStatus.expired in
    let once = update (is_stale t) expired db.requests in
    let first : find (is_request id) once ≡ some (with_token h token_end r) =
      find-update (is_stale t) expired (is_request id) (λ x. refl) db.requests
      ∙ rw f (ground (arith, early)) in
    find-update (has_stale_token t) expired (is_request id) (λ x. refl) once
    ∙ rw first (ground (arith, early))

expire_all-found :
    (ts : List Time) (id h : Text) (token_end : Time) (r : Request) (db : Db)
    → all (is_early r.expires_at token_end) ts ≡ true
    → find (is_request id) db.requests ≡ some (with_token h token_end r)
    → find (is_request id) (expire_all ts db).requests ≡ some (with_token h token_end r)
unfolding expire_all
expire_all-found [] id h token_end r db early f = f
expire_all-found (t ∷ ts) id h token_end r db early f =
    expire_all-found ts id h token_end r (expire_requests t db) (ground (arith, early))
      (expire_requests-found t id h token_end r db (ground (arith, early)) f)

-- A poll of an approved request that holds no token, with the client's secret, answers with the
-- token that it has drawn. Then, where rounds of the expiry and no other calls come between, none of
-- them after the end of the request or of the token, a call that consumes this token for the request,
-- at any time up to the token's end, accepts it.
pub consume_setup_token-poll :
    (c : Crypto) (ttl : ℕ) (d : Draws) (id secret token h : Text) (r : Request) (ts : List Time)
    (now : Time) (db : Db)
    → find (is_request id) db.requests ≡ some r
    → lacks_token r ≡ true
    → verify_secret c secret r.client_secret_hash ≡ true
    → d.token ≡ some token
    → hash_secret c d.salt token ≡ some h
    → all (is_early r.expires_at (d.now + ttl)) ts ≡ true
    → now ≤ d.now + ttl
    → ((poll c ttl d id secret db).1
        ≡ polled RequestStatus.approved (some token) (some (d.now + ttl)))
      × ((consume_setup_token c now id token (expire_all ts (poll c ttl d id secret db).0)).1
          ≡ ok (r.id, r.name))
unfolding consume_setup_token
consume_setup_token-poll c ttl d id secret token h r ts now db f l v t k early b =
    let p = poll-issue c ttl d id secret token h r db f l v t k in
    let rid : same r.id id ≡ true = (same_iff r.id id).1 (found_id id db.requests f) in
    let row = with_token h (d.now + ttl) r in
    let rs = update (lacking id) (with_token h (d.now + ttl)) db.requests in
    let held : find (is_request id) rs ≡ some row =
      find-update (lacking id) (with_token h (d.now + ttl)) (is_request id) (λ x. refl) db.requests
      ∙ rw f (ground (arith, l, rid)) in
    let db1 = (poll c ttl d id secret db).0 in
    let rows : db1.requests ≡ rs = ap (λ o. o.0.requests) p in
    let db2 = expire_all ts db1 in
    let found : find (is_request id) db2.requests ≡ some row =
      expire_all-found ts id h (d.now + ttl) r db1 early (rw rows held) in
    let approved : is_approved r.status ≡ true = ground (arith, l) in
    let left = any_found id h db2.requests {r = row} found approved (same_refl h) in
    let accepted = verify_secret-hash_secret c d.salt token k in
    (
      ap (λ o. o.1) p,
      rw (found, consume_setup_token)
          (take_token-found c now id row token h db2 refl approved accepted (ground (arith, b))
            left),
    )
