-- ===== src/Api/Requests/Tokens.antt =====
-- The setup token of a request: what a poll hands out is accepted, and accepted once.
use reach.Api.Requests.Lifecycle.{distinct}
use reach.Api.Requests.{
  Draws, polled, is_request, update_requests, lacks_token, with_token, drawn_hash, issue,
  answer_poll, poll, ConsumeError, is_expired_token, holds_hash, consumed_row, takes_token,
  take_token, consume_setup_token,
}
use reach.Base.Result.{Result, ok, err}
use reach.Base.{
  ◌&&◌, [], ◌∷◌, ℕ, ◌+◌, ◌≡◌, refl, inl, inr, Bool, true, false, ◌&&◌, List, [], ◌∷◌, some, arith,
  any, find, update, Text, same, same_iff, Bool-cases, Option-cases,
}
use reach.Model.Words.{RequestStatus, is_pending, is_approved}
use reach.Model.{Request, Time}
use reach.Security.Secrets.{Crypto, hash_secret, verify_secret}
use reach.Store.{Db}
use reach.Store.Laws.{update_none}

no_request :
    (id h : Text) (rs : List Request)
    → any (is_request id) rs ≡ false
    → any (takes_token id h) rs ≡ false
no_request id h [] e = refl
no_request id h (x ∷ xs) e = ground (arith, no_request id h xs)

taken_away :
    (id h g : Text) (rs : List Request)
    → distinct rs ≡ true
    → any (takes_token id h) rs ≡ true
    → any (takes_token id g) (update (takes_token id h) consumed_row rs) ≡ false
unfolding distinct is_approved
taken_away id h g [] d e = refl
taken_away id h g (x ∷ xs) d e = elim (Bool-cases (same x.id id)) [
  | inl s ↦
      let xi : x.id ≡ id = (same_iff x.id id).0 s in
      let none_left : any (is_request id) xs ≡ false = rw (← xi) (ground arith) in
      let kept = update_none (takes_token id h) consumed_row xs (no_request id h xs none_left) in
      let rest : any (takes_token id g) (update (takes_token id h) consumed_row xs) ≡ false =
        rw kept (no_request id g xs none_left) in
      ground (arith, rest, no_request id h xs none_left)
  | inr s ↦ ground (arith, taken_away id h g xs)
]

-- What a successful `consumeSetupToken` has done.
pub record Consumed (id : Text) (db : Db) (out : Db × Text) : Type 0 where
  pub hash : Text
  pub held : any (takes_token id hash) db.requests ≡ true
  pub stored : out.0 ≡ update_requests (takes_token id hash) consumed_row db
  pub same_id : out.1 ≡ id

pub found_id :
    (id : Text) (rs : List Request) {r : Request} → find (is_request id) rs ≡ some r → r.id ≡ id
found_id id [] {r = r} e = cc
found_id id (x ∷ xs) {r = r} e = elim (Bool-cases (same x.id id)) [
  | inl s ↦ ground (arith, (same_iff x.id id).0 s)
  | inr s ↦ found_id id xs {r = r} (ground arith)
]

take_token-ok :
    (c : Crypto) (now : Time) (id : Text) (r : Request) (token : Text) (db db1 : Db)
    (id' name : Text)
    → r.id ≡ id
    → take_token c now id r token db ≡ (db1, ok (id', name))
    → Consumed id db (db1, id')
unfolding take_token
take_token-ok c now id r token db db1 id' name s e = elim (Option-cases r.setup_token_hash) [
  | inl n ↦ absurd (ground (arith, e, n))
  | inr (h, n) ↦ record {
    hash = h;
    held = ground (arith, e, n);
    stored = ground (arith, e, n);
    same_id = ground (arith, e, n, s);
  }
]

pub consume_setup_token-ok :
    (c : Crypto) (now : Time) (id token : Text) (db db1 : Db) (id' name : Text)
    → consume_setup_token c now id token db ≡ (db1, ok (id', name))
    → Consumed id db (db1, id')
unfolding consume_setup_token
consume_setup_token-ok c now id token db db1 id' name e =
    elim (Option-cases (find (is_request id) db.requests)) [
      | inl n ↦ absurd (ground (arith, e, n))
      | inr (r, n) ↦
          take_token-ok c now id r token db db1 id' name (found_id id db.requests n)
            (ground (arith, e, n))
    ]

abbrev pub refused : {A : Type 0} → Result ConsumeError A → Bool
refused (ok a) = false
refused (err e) = true

none_to_take :
    (c : Crypto) (now : Time) (id : Text) (r : Request) (token : Text) (db : Db)
    → ((g : Text) → any (takes_token id g) db.requests ≡ false)
    → refused (take_token c now id r token db).1 ≡ true
unfolding take_token
none_to_take c now id r token db n = elim (Option-cases r.setup_token_hash) [
  | inl e ↦ ground (arith, e)
  | inr (h, e) ↦ ground (arith, e, n h)
]

-- Where a setup token of a request has been accepted, the next call for this request is refused,
-- whatever its token and its time, also where that call had read its row `r`, whatever that was,
-- before the first one wrote. This is where the requests' ids are distinct.
pub take_token-consume_setup_token :
    (c : Crypto) (now now' : Time) (id token token' : Text) (r : Request) (db db1 : Db)
    (out : Text × Text)
    → distinct db.requests ≡ true
    → consume_setup_token c now id token db ≡ (db1, ok out)
    → refused (take_token c now' id r token' db1).1 ≡ true
take_token-consume_setup_token c now now' id token token' r db db1 (id', name) u e =
    let k = consume_setup_token-ok c now id token db db1 id' name e in
    none_to_take c now' id r token' db1
      (λ g. rw (k.stored) (taken_away id k.hash g db.requests u k.held))

pub any_found :
    (id h : Text) (rs : List Request) {r : Request}
    → find (is_request id) rs ≡ some r
    → is_approved r.status ≡ true
    → holds_hash h r ≡ true
    → any (takes_token id h) rs ≡ true
any_found id h [] {r = r} e a b = cc
any_found id h (x ∷ xs) {r = r} e a b = elim (Bool-cases (same x.id id)) [
  | inl s ↦ ground (arith, e, s, a, b)
  | inr s ↦ let rest = any_found id h xs {r = r} (ground (arith, e, s)) a b in ground (arith, rest)
]

pub take_token-found :
    (c : Crypto) (now : Time) (id : Text) (r : Request) (token h : Text) (db : Db)
    → r.setup_token_hash ≡ some h
    → is_approved r.status ≡ true
    → verify_secret c token h ≡ true
    → is_expired_token now r ≡ false
    → any (takes_token id h) db.requests ≡ true
    → (take_token c now id r token db).1 ≡ ok (r.id, r.name)
unfolding take_token
take_token-found c now id r token h db e a v x t = rw (e, take_token) (ground (arith, a, v, x, t))

abbrev pub lacking : Text → Request → Bool
lacking id r = is_request id r && lacks_token r

-- What a poll does that has read an approved request without a token.
pub issue-drawn :
    (c : Crypto) (ttl : ℕ) (d : Draws) (id secret token h : Text) (r : Request) (db : Db)
    → lacks_token r ≡ true
    → verify_secret c secret r.client_secret_hash ≡ true
    → d.token ≡ some token
    → hash_secret c d.salt token ≡ some h
    → answer_poll c ttl d id r secret db ≡ (
      update_requests (lacking id) (with_token h (d.now + ttl)) db,
      polled RequestStatus.approved (some token) (some (d.now + ttl)),
    )
unfolding answer_poll issue is_pending is_approved
issue-drawn c ttl d id secret token h r db l v t k =
    let drawn : drawn_hash c d ≡ some (token, h) = ground (arith, t, k) in
    elim (Option-cases r.setup_token_hash) [
      | inr (g, e) ↦ absurd (ground (arith, l, e))
      | inl e ↦ ground (arith, l, v, e, drawn)
    ]

pub poll-issue :
    (c : Crypto) (ttl : ℕ) (d : Draws) (id secret token h : Text) (r : Request) (db : Db)
    → find (is_request id) db.requests ≡ some r
    → lacks_token r ≡ true
    → verify_secret c secret r.client_secret_hash ≡ true
    → d.token ≡ some token
    → hash_secret c d.salt token ≡ some h
    → poll c ttl d id secret db ≡ (
      update_requests (lacking id) (with_token h (d.now + ttl)) db,
      polled RequestStatus.approved (some token) (some (d.now + ttl)),
    )
unfolding poll
poll-issue c ttl d id secret token h r db f l v t k =
    rw (f, poll) (issue-drawn c ttl d id secret token h r db l v t k)
