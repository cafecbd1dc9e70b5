-- ===== src/Api/Requests/Race.antt =====
-- Two polls of one request at once: both read the row before either writes it.
use reach.Api.Requests.Tokens.{lacking, poll-issue, issue-drawn}
use reach.Api.Requests.{Draws, polled, is_request, lacks_token, with_token, answer_poll, poll}
use reach.Base.{
  ℕ, ◌+◌, ◌≡◌, refl, ap, ◌∙◌, true, false, List, [], ◌∷◌, some, arith, any, find, update, Text,
}
use reach.Model.Words.{RequestStatus}
use reach.Model.{Request, Time}
use reach.Security.Secrets.{Crypto, hash_secret, verify_secret}
use reach.Store.{Db}
use reach.Store.Laws.{update_none}

none_lacking :
    (id h : Text) (e : Time) (rs : List Request)
    → any (lacking id) (update (lacking id) (with_token h e) rs) ≡ false
none_lacking id h e [] = refl
none_lacking id h e (x ∷ xs) = ground (arith, none_lacking id h e xs)

-- Where a second poll has read the row of an approved request without a token before the first
-- poll's UPDATE, the second poll's answer holds the token that it has drawn itself, and its UPDATE
-- changes no request: the token that it hands out is not the one that the hub keeps.
pub answer_poll-poll :
    (c : Crypto) (ttl : ℕ) (d d' : Draws) (id secret token h token' h' : Text) (r : Request)
    (db : Db)
    → find (is_request id) db.requests ≡ some r
    → lacks_token r ≡ true
    → verify_secret c secret r.client_secret_hash ≡ true
    → d.token ≡ some token
    → hash_secret c d.salt token ≡ some h
    → d'.token ≡ some token'
    → hash_secret c d'.salt token' ≡ some h'
    → ((answer_poll c ttl d' id r secret (poll c ttl d id secret db).0).0.requests
        ≡ (poll c ttl d id secret db).0.requests)
      × ((answer_poll c ttl d' id r secret (poll c ttl d id secret db).0).1
          ≡ polled RequestStatus.approved (some token') (some (d'.now + ttl)))
answer_poll-poll c ttl d d' id secret token h token' h' r db f l v t k t' k' =
    let db1 = (poll c ttl d id secret db).0 in
    let second = issue-drawn c ttl d' id secret token' h' r db1 l v t' k' in
    let rows : db1.requests ≡ update (lacking id) (with_token h (d.now + ttl)) db.requests =
      ap (λ o. o.0.requests) (poll-issue c ttl d id secret token h r db f l v t k) in
    let none_left : any (lacking id) db1.requests ≡ false =
      rw rows (none_lacking id h (d.now + ttl) db.requests) in
    (
      ap (λ o. o.0.requests) second
          ∙ update_none (lacking id) (with_token h' (d'.now + ttl)) db1.requests none_left,
      ap (λ o. o.1) second,
    )
